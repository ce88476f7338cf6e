-- ===== src/Health/Activity.antt =====
-- internal/health/keeper: which keepers are known, and which are active.
use triggerx_backend.Prelude.{
  ℕ, suc, ◌+◌, ◌≡◌, refl, sym, ap, ◌∙◌, String, Bool, true, false, ◌&&◌, Option, none, some, List,
  [], ◌∷◌, length, ltb, leb, String-discrete, arith, ite, Option-cases, inl, inr, if_pos,
  if◌then◌else◌,
}
use triggerx_backend.Prelude.Maps.{get, get-put}
use triggerx_backend.Health.State.{
  KeeperInfo, Keepers, StateManager, CheckIn, checked_in, is_keeper_active, get_all_active_keepers,
  get_keeper_count, active_of, count_active, and_active, update_keeper_health, after_check, checked,
  check_inactive_keepers, dump_state, HealthCall, checks_in, cleans, dumps, call, calls,
}

abbrev pub checked_info : ℕ → Option KeeperInfo → Option KeeperInfo
checked_info now none = none
checked_info now (some k) = some (after_check now k)

get-checked :
    (now : ℕ) (a : String) (ks : Keepers)
    → get String-discrete a (checked now ks) ≡ checked_info now (get String-discrete a ks)
unfolding get
get-checked now a [] = refl
get-checked now a ((b, k) ∷ rest) = go (String-discrete b a) (get-checked now a rest)
  where
    go :
        (d : Dec (b ≡ a))
        → get String-discrete a (checked now rest) ≡ checked_info now (get String-discrete a rest)
        → ite d (some (after_check now k)) (get String-discrete a (checked now rest))
          ≡ checked_info now (ite d (some k) (get String-discrete a rest))
    go (yes h) e = refl
    go (no h) e = e

abbrev pub active_info : Option KeeperInfo → Bool
active_info none = false
active_info (some k) = k.is_active

is_keeper_active_info :
    (sm : StateManager) (a : String)
    → is_keeper_active sm a ≡ active_info (get String-discrete a sm.keepers)
unfolding is_keeper_active
is_keeper_active_info sm a = go (get String-discrete a sm.keepers)
  where
    go : (o : Option KeeperInfo) → (elim o [ none ↦ false | some k ↦ k.is_active ]) ≡ active_info o
    go none = refl
    go (some k) = refl

still_active :
    (active : Bool) (last now : ℕ)
    → (if active && ltb (last + 70) now then false else active) ≡ (active && leb now (last + 70))
still_active active last now = ground arith

-- After a verified keeper checks in and the service then looks for inactive keepers, whatever the
-- database does, the keeper is active exactly if at most 70 seconds lie between the two.
pub check_inactive-update_keeper_health :
    (sm : StateManager) (c : CheckIn) (k : KeeperInfo) (at now : ℕ) (attempt : ℕ → Bool)
    (takes : String → Bool)
    → get String-discrete c.keeper_address sm.keepers ≡ some k
    → is_keeper_active
        (check_inactive_keepers (update_keeper_health sm c at attempt).0 now takes)
        c.keeper_address
      ≡ leb now (at + 70)
unfolding update_keeper_health check_inactive_keepers
check_inactive-update_keeper_health sm c k at now attempt takes h =
    is_keeper_active_info _ c.keeper_address
    ∙ ap active_info (
        get-checked now c.keeper_address (update_keeper_health sm c at attempt).0.keepers
        ∙ ap (checked_info now) (found h))
    ∙ still_active true at now
  where
    found :
        get String-discrete c.keeper_address sm.keepers ≡ some k
        → get String-discrete c.keeper_address (update_keeper_health sm c at attempt).0.keepers
          ≡ some (checked_in c at k)
    found e =
        rw (e, update_keeper_health)
          (get-put String-discrete c.keeper_address c.keeper_address (checked_in c at k) sm.keepers
            ∙ if_pos (String-discrete c.keeper_address c.keeper_address) refl
                (some (checked_in c at k)) (get String-discrete c.keeper_address sm.keepers))

abbrev pub is_some : Option KeeperInfo → Bool
is_some none = false
is_some (some k) = true

abbrev pub is_known : StateManager → String → Bool
is_known sm a = is_some (get String-discrete a sm.keepers)

update-is_known :
    (sm : StateManager) (c : CheckIn) (now : ℕ) (attempt : ℕ → Bool) (a : String)
    → is_known (update_keeper_health sm c now attempt).0 a ≡ is_known sm a
unfolding update_keeper_health
update-is_known sm c now attempt a =
    elim (Option-cases (get String-discrete c.keeper_address sm.keepers)) [
      | inl e ↦ rw (e, update_keeper_health) refl
      | inr (k, e) ↦
          rw
            (
              e,
              update_keeper_health,
              get-put String-discrete c.keeper_address a (checked_in c now k) sm.keepers,
            )
            (go k e (String-discrete c.keeper_address a))
    ]
  where
    go :
        (k : KeeperInfo)
        → get String-discrete c.keeper_address sm.keepers ≡ some k
        → (d : Dec (c.keeper_address ≡ a))
        → is_some (ite d (some (checked_in c now k)) (get String-discrete a sm.keepers))
          ≡ is_some (get String-discrete a sm.keepers)
    go k e (yes h) = sym (ap is_some (ap (λ b. get String-discrete b sm.keepers) (sym h) ∙ e))
    go k e (no h) = refl

check-is_known :
    (sm : StateManager) (now : ℕ) (takes : String → Bool) (a : String)
    → is_known (check_inactive_keepers sm now takes) a ≡ is_known sm a
unfolding check_inactive_keepers
check-is_known sm now takes a =
    ap is_some (get-checked now a sm.keepers) ∙ go (get String-discrete a sm.keepers)
  where
    go : (o : Option KeeperInfo) → is_some (checked_info now o) ≡ is_some o
    go none = refl
    go (some k) = refl

-- The keepers that are known stay those that were loaded, over any calls that check keepers in, look
-- for inactive ones and dump the state: an unverified address never becomes known, and none is lost.
pub calls-is_known :
    (sm : StateManager) (cs : List HealthCall) (a : String)
    → is_known (calls sm cs) a ≡ is_known sm a
unfolding calls call dump_state
calls-is_known sm [] a = refl
calls-is_known sm (checks_in c now attempt ∷ cs) a =
    calls-is_known (update_keeper_health sm c now attempt).0 cs a
    ∙ update-is_known sm c now attempt a
calls-is_known sm (cleans now takes ∷ cs) a =
    calls-is_known (check_inactive_keepers sm now takes) cs a ∙ check-is_known sm now takes a
calls-is_known sm (dumps attempts ∷ cs) a = calls-is_known (dump_state sm attempts) cs a

count_active-active_of : (ks : Keepers) → count_active ks ≡ length (active_of ks)
count_active-active_of [] = refl
count_active-active_of ((a, k) ∷ rest) = go k.is_active (count_active-active_of rest)
  where
    go :
        (b : Bool)
        → count_active rest ≡ length (active_of rest)
        → (if b then suc (count_active rest) else count_active rest)
          ≡ length (and_active b a (active_of rest))
    go true e = ap suc e
    go false e = e

-- The counts that the service reports are the number of the keepers and the length of the list of
-- active keepers that it reports.
pub get_keeper_count-get_all_active_keepers :
    (sm : StateManager)
    → get_keeper_count sm ≡ (length sm.keepers, length (get_all_active_keepers sm))
unfolding get_keeper_count get_all_active_keepers
get_keeper_count-get_all_active_keepers sm =
    ap (λ (n : ℕ). (length sm.keepers, n)) (count_active-active_of sm.keepers)
