-- ===== src/Websocket/Channels.antt =====
-- What a broadcast does to the `Send` channels.
use triggerx_backend.Prelude.{
  ℕ, ◌+◌, ◌≡◌, refl, true, false, some, List, [], ◌∷◌, arith, ltb, if◌then◌else◌, ite, if_pos,
  ℕ_discrete, Bool-cases, inl, inr, ap,
}
use triggerx_backend.Prelude.Maps.{contains}
use triggerx_backend.Websocket.Hub.{Channel, Hub, set_channel, send_capacity, deliver, deliver_all}

-- A list of clients that holds none twice.
abbrev pub Fresh : List ℕ → Type 0
Fresh [] = Unit
Fresh (c ∷ cs) = (contains ℕ_discrete c cs ≡ false) × Fresh cs

-- All channels of the listed clients are open.
abbrev pub Open : (ℕ → Channel) → List ℕ → Type 0
Open sends cs = (c : ℕ) → contains ℕ_discrete c cs ≡ true → (sends c).closed ≡ false

-- The channel after one message: one more in the queue, or closed where the queue is full.
abbrev pub delivered : Channel → Channel
delivered ch =
    if ltb ch.queued send_capacity
    then record ch { queued = ch.queued + 1 }
    else record ch { closed = true }

module _ (drop : Hub → ℕ → Hub) (keeps : (h : Hub) (c : ℕ) → (drop h c).sends ≡ h.sends) where
  pub deliver-sends :
      (h : Hub) (c : ℕ)
      → (h.sends c).closed ≡ false
      → (h' : Hub) × (deliver drop h c ≡ some h')
        × (h'.sends ≡ (λ d. ite (ℕ_discrete c d) (delivered (h.sends c)) (h.sends d)))
  unfolding deliver
  deliver-sends h c o = elim (Bool-cases (ltb (h.sends c).queued send_capacity)) [
    | inl room ↦ (
      set_channel h c (record (h.sends c) { queued = (h.sends c).queued + 1 }),
      rw (o, room),
      rw room,
    )
    | inr full ↦ (
      drop (set_channel h c (record (h.sends c) { closed = true })) c,
      rw (o, full),
      rw (full, keeps),
    )
  ]

  -- Where the channels are open and no client stands twice, nobody panics, and each listed client
  -- gets the message once.
  pub deliver_all-sends :
      (cs : List ℕ) (h : Hub)
      → Fresh cs
      → Open h.sends cs
      → (h' : Hub) × (deliver_all drop cs h ≡ some h')
        × ((d : ℕ)
            → h'.sends d ≡ (if contains ℕ_discrete d cs then delivered (h.sends d) else h.sends d))
  unfolding deliver_all contains
  deliver_all-sends [] h f o = (h, refl, λ d. refl)
  deliver_all-sends (c ∷ cs) h f o =
      let (h₁, e₁, s₁) = deliver-sends h c (o c (if_pos (ℕ_discrete c c) refl _ _)) in
      let at : (d : ℕ) → h₁.sends d ≡ ite (ℕ_discrete c d) (delivered (h.sends c)) (h.sends d) =
        λ d. ap (λ (t : ℕ → Channel). t d) s₁ in
      let (h₂, e₂, s₂) = deliver_all-sends cs h₁ f.1 (λ d m. ground (arith, at d, o d)) in
      (h₂, rw (e₁, deliver_all) e₂, λ d. ground (arith, at d, s₂ d))
