-- ===== src/Websocket/Crash.antt =====
-- Where the hub panics: a client whose channel is full is closed and leaves the hub, but not its
-- other rooms.
use triggerx_backend.Prelude.{
  ℕ, ◌+◌, ◌≡◌, refl, ◌≢◌, Bool, true, false, none, some, List, [], ◌∷◌, arith, ltb, if◌then◌else◌,
  ite, ℕ_discrete, Bool-cases, inl, inr, ap, Option-cases, some-eq, sym, ◌∙◌,
}
use triggerx_backend.Prelude.Maps.{contains, remove, get-put}
use triggerx_backend.Websocket.Rooms.{Text, Text-discrete}
use triggerx_backend.Websocket.Invariant.{broadcast_room-members}
use triggerx_backend.Websocket.Channels.{delivered, deliver-sends}
use triggerx_backend.Websocket.Hub.{
  Rooms, Channel, Hub, set_channel, members, drop_client, drop_from, deliver, deliver_all,
  broadcast_rooms, broadcast_to_rooms, send_capacity, send_message, unregister_client,
}

closed_panics :
    (drop : Hub → ℕ → Hub) (h : Hub) (d : ℕ) → (h.sends d).closed ≡ true → deliver drop h d ≡ none
unfolding deliver
closed_panics drop h d e = rw e refl

-- No room is left in the client's channel.
abbrev pub IsFull : Hub → ℕ → Type 0
IsFull h c = ltb (h.sends c).queued send_capacity ≡ false

module _ (drop : Hub → ℕ → Hub) (keeps : (h : Hub) (c : ℕ) → (drop h c).sends ≡ h.sends) where
  deliver-some :
      (h h' : Hub) (d : ℕ)
      → deliver drop h d ≡ some h'
      → ((h.sends d).closed ≡ false)
        × ((c : ℕ) → h'.sends c ≡ ite (ℕ_discrete d c) (delivered (h.sends d)) (h.sends c))
  deliver-some h h' d e = elim (Bool-cases (h.sends d).closed) [
    | inl shut ↦ absurd (cc (e, closed_panics drop h d shut))
    | inr o ↦
        let (g, e', s) = deliver-sends drop keeps h d o in
        (
          o,
          λ c. ap (λ (x : Hub). x.sends c) (some-eq (sym e ∙ e')) ∙ ap (λ (t : ℕ → Channel). t c) s,
        )
  ]

  -- A closed channel stays closed.
  deliver_all-closed :
      (c : ℕ) (cs : List ℕ) (h h' : Hub)
      → deliver_all drop cs h ≡ some h'
      → (h.sends c).closed ≡ true
      → (h'.sends c).closed ≡ true
  unfolding deliver_all
  deliver_all-closed c [] h h' e o = ground arith
  deliver_all-closed c (d ∷ cs) h h' e o = elim (Option-cases (deliver drop h d)) [
    | inl x ↦ absurd (cc (rw (x, deliver_all) at e))
    | inr (g, x) ↦
        let (was, at) = deliver-some h g d x in
        deliver_all-closed c cs g h' (rw (x, deliver_all) at e) (ground (arith, at c))
  ]

  -- A full channel that a broadcast reaches is closed after it.
  deliver_all-full :
      (c : ℕ) (cs : List ℕ) (h h' : Hub)
      → contains ℕ_discrete c cs ≡ true
      → IsFull h c
      → deliver_all drop cs h ≡ some h'
      → (h'.sends c).closed ≡ true
  unfolding deliver_all contains
  deliver_all-full c [] h h' m f e = cc
  deliver_all-full c (d ∷ cs) h h' m f e = elim (Option-cases (deliver drop h d)) [
    | inl x ↦ absurd (cc (rw (x, deliver_all) at e))
    | inr (g, x) ↦
        let (was, at) = deliver-some h g d x in
        elim (ℕ_discrete d c) [
          | yes here ↦
              deliver_all-closed c cs g h' (rw (x, deliver_all) at e) (ground (arith, at c))
          | no there ↦
              deliver_all-full c cs g h' (ground arith) (ground (arith, at c))
                (rw (x, deliver_all) at e)
        ]
  ]

  -- A broadcast to a client whose channel is closed panics.
  deliver_all-panics :
      (c : ℕ) (cs : List ℕ) (h : Hub)
      → contains ℕ_discrete c cs ≡ true
      → (h.sends c).closed ≡ true
      → deliver_all drop cs h ≡ none
  unfolding deliver_all contains
  deliver_all-panics c [] h m o = cc
  deliver_all-panics c (d ∷ cs) h m o = elim (Option-cases (deliver drop h d)) [
    | inl x ↦ rw (x, deliver_all) refl
    | inr (g, x) ↦
        let (was, at) = deliver-some h g d x in
        rw (x, deliver_all) (deliver_all-panics c cs g (ground arith) (ground (arith, at c)))
  ]

  deliver-rooms :
      {X : Type 0} (view : Rooms → X)
      → ((h : Hub) (c : ℕ) → view (drop h c).rooms ≡ view h.rooms)
      → (h h' : Hub) (d : ℕ) → deliver drop h d ≡ some h'
      → view h'.rooms ≡ view h.rooms
  unfolding deliver
  deliver-rooms view same h h' d e = go (h.sends d).closed (ltb (h.sends d).queued send_capacity) e
    where
      go :
          (x y : Bool)
          → (if x
              then none
              else if y
              then some (set_channel h d (record (h.sends d) { queued = (h.sends d).queued + 1 }))
              else some (drop (set_channel h d (record (h.sends d) { closed = true })) d))
            ≡ some h'
          → view h'.rooms ≡ view h.rooms
      go true y q = cc
      go false true q = ap (λ (g : Hub). view g.rooms) (some-eq (sym q))
      go false false q = ap (λ (g : Hub). view g.rooms) (some-eq (sym q)) ∙ same _ d

  -- What the drops leave of the rooms, a broadcast leaves.
  deliver_all-rooms :
      {X : Type 0} (view : Rooms → X)
      → ((h : Hub) (c : ℕ) → view (drop h c).rooms ≡ view h.rooms)
      → (cs : List ℕ) (h h' : Hub) → deliver_all drop cs h ≡ some h'
      → view h'.rooms ≡ view h.rooms
  unfolding deliver_all
  deliver_all-rooms view same [] h h' e = ap (λ (g : Hub). view g.rooms) (some-eq (sym e))
  deliver_all-rooms view same (d ∷ cs) h h' e = elim (Option-cases (deliver drop h d)) [
    | inl x ↦ absurd (cc (rw (x, deliver_all) at e))
    | inr (g, x) ↦
        deliver_all-rooms view same cs g h' (rw (x, deliver_all) at e)
        ∙ deliver-rooms view same h g d x
  ]

-- The bug: a client whose channel is full when a message goes to everyone is closed and leaves the
-- hub, but stays in its rooms, so that the next broadcast to any of them panics.
pub broadcast_after_everyone :
    (h h' : Hub) (c : ℕ) (room : Text)
    → contains ℕ_discrete c h.clients ≡ true
    → contains ℕ_discrete c (members room h.rooms) ≡ true
    → IsFull h c
    → broadcast_to_rooms h [] ≡ some h'
    → broadcast_to_rooms h' (room ∷ []) ≡ none
unfolding broadcast_to_rooms
broadcast_after_everyone h h' c room m r f e =
    let shut = deliver_all-full drop_client (λ g d. refl) c h.clients h h' m f e in
    let same =
      deliver_all-rooms drop_client (λ g d. refl) (members room) (λ g d. refl) h.clients h h' e in
    let there = ap (contains ℕ_discrete c) same ∙ r in
    rw
      (
        broadcast_rooms,
        broadcast_room-members room h',
        deliver_all-panics (drop_from room) (λ g d. refl) c (members room h'.rooms) h' there shut,
      )
      refl

members-drop_from :
    (room other : Text)
    → room ≢ other
    → (h : Hub) (c : ℕ) → members other (drop_from room h c).rooms ≡ members other h.rooms
members-drop_from room other n h c =
    ground
      (arith, get-put Text-discrete room other (remove ℕ_discrete c (members room h.rooms)) h.rooms)

-- The bug within one broadcast: a message for two different rooms panics whenever a member of both
-- has a full channel.
pub broadcast_two_rooms :
    (h : Hub) (c : ℕ) (room other : Text) (rest : List Text)
    → room ≢ other
    → contains ℕ_discrete c (members room h.rooms) ≡ true
    → contains ℕ_discrete c (members other h.rooms) ≡ true
    → IsFull h c
    → broadcast_to_rooms h (room ∷ other ∷ rest) ≡ none
unfolding broadcast_to_rooms
broadcast_two_rooms h c room other rest n m r f =
    elim (Option-cases (deliver_all (drop_from room) (members room h.rooms) h)) [
      | inl x ↦ rw (broadcast_rooms, broadcast_room-members room h, x) refl
      | inr (g, x) ↦
          let shut =
            deliver_all-full (drop_from room) (λ k d. refl) c (members room h.rooms) h g m f x in
          let same =
            deliver_all-rooms (drop_from room) (λ k d. refl) (members other)
              (members-drop_from room other n) (members room h.rooms) h g x in
          rw (broadcast_rooms, broadcast_room-members room h, x)
            (rw
              (
                broadcast_rooms,
                broadcast_room-members other g,
                deliver_all-panics (drop_from other) (λ k d. refl) c (members other g.rooms) g
                    (ap (contains ℕ_discrete c) same ∙ r) shut,
              )
              refl)
    ]

deliver-clients : (h h' : Hub) (c : ℕ) → deliver (λ g d. g) h c ≡ some h' → h'.clients ≡ h.clients
unfolding deliver
deliver-clients h h' c e = ground arith

-- The bug of a reply: on a full channel `sendMessage` closes the client behind the hub's back, so
-- that the hub panics when the client is then unregistered, as its reader does on the way out.
pub unregister-send_message :
    (h h' : Hub) (c : ℕ)
    → contains ℕ_discrete c h.clients ≡ true
    → IsFull h c
    → send_message h c ≡ some h'
    → unregister_client h' c ≡ none
unfolding send_message unregister_client
unregister-send_message h h' c m f e =
    let (was, at) = deliver-some (λ g d. g) (λ g d. refl) h h' c e in
    let same = deliver-clients h h' c e in ground (arith, at c, same)
