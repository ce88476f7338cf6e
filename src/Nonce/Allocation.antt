-- ===== src/Nonce/Allocation.antt =====
-- internal/keeper/core/execution/nonce_manager.go: the nonces that `GetNextNonce` gives out.
use triggerx_backend.Prelude.{
  ℕ, suc, ◌+◌, ◌%◌, ◌^◌, ◌≤◌, ◌<◌, ◌≡◌, refl, Bool, true, false, Option, none, some, List, [], ◌∷◌,
  ltb, length, All, arith, if◌then◌else◌,
}
use triggerx_backend.Prelude.Results.{Result, ok, err, panic}
use triggerx_backend.Keeper.Action.{retried}
use triggerx_backend.Nonce.Manager.{
  NonceManager, NonceError, Sync, allocate, after_sync, get_next_nonce,
}

abbrev pub with_nonce : Result NonceError ℕ → List ℕ → List ℕ
with_nonce (ok n) ns = n ∷ ns
with_nonce (err e) ns = ns
with_nonce panic ns = ns

-- The nonces that a sequence of calls gives out; a failed call gives none.
unfoldable pub get_next_nonces : NonceManager → List Sync → List ℕ
unfolding get_next_nonce
get_next_nonces nm [] = []
get_next_nonces nm (s ∷ ss) =
    with_nonce (get_next_nonce nm s).0 (get_next_nonces (get_next_nonce nm s).1 ss)

-- From a bound on, each above the one before.
abbrev pub Ascends : ℕ → List ℕ → Type 0
Ascends low [] = Unit
Ascends low (n ∷ ns) = (low ≤ n) × Ascends (suc n) ns

Ascends-≤ : (a b : ℕ) (ns : List ℕ) → a ≤ b → Ascends b ns → Ascends a ns
Ascends-≤ a b [] h s = tt
Ascends-≤ a b (n ∷ ns) h s = (omega (arith, s.0), s.1)

abbrev pub IsBounded : ℕ → Sync → Type 0
IsBounded b s = (n : ℕ) → retried s.answer ≡ some n → n ≤ b

no_wrap : (n : ℕ) → n + 1 < 2 ^ 64 → (n + 1) % 2 ^ 64 ≡ n + 1
no_wrap n h = omega arith

-- The outcomes of one call: refused, with the nonce as it was, or a nonce within the bound that is
-- not below the manager's, which then is one above it.
data Allocates (nm : NonceManager) (b : ℕ) : Result NonceError ℕ × NonceManager → Type 0 where
  refused :
      (e : NonceError) (after : NonceManager)
      → after.current_nonce ≡ nm.current_nonce
      → Allocates nm b (err e, after)
  given :
      (n : ℕ) (after : NonceManager)
      → nm.current_nonce ≤ n
      → n ≤ b
      → after.current_nonce ≡ n + 1
      → Allocates nm b (ok n, after)

allocate-Allocates :
    (nm from : NonceManager) (b : ℕ)
    → nm.current_nonce ≤ from.current_nonce
    → from.current_nonce ≤ b
    → b + 1 < 2 ^ 64
    → Allocates nm b (allocate from)
allocate-Allocates nm from b l u w =
    given from.current_nonce _ l u (no_wrap from.current_nonce (omega (arith, u, w)))

after_sync-Allocates :
    (nm : NonceManager) (now b : ℕ) (o : Option ℕ)
    → nm.current_nonce ≤ b
    → b + 1 < 2 ^ 64
    → ((n : ℕ) → o ≡ some n → n ≤ b)
    → Allocates nm b (after_sync nm now o)
after_sync-Allocates nm now b none u w h = refused _ nm refl
after_sync-Allocates nm now b (some n) u w h =
    allocate-Allocates nm _ b (raised nm.current_nonce n) (within nm.current_nonce n u (h n refl)) w
  where
    raised : (c n : ℕ) → c ≤ (if ltb c n then n else c)
    raised c n = ground arith

    within : (c n : ℕ) → c ≤ b → n ≤ b → (if ltb c n then n else c) ≤ b
    within c n h k = ground arith

get_next_nonce-Allocates :
    (nm : NonceManager) (s : Sync) (b : ℕ)
    → nm.current_nonce ≤ b
    → b + 1 < 2 ^ 64
    → IsBounded b s
    → Allocates nm b (get_next_nonce nm s)
unfolding get_next_nonce
get_next_nonce-Allocates nm s b u w h = go (ltb (nm.last_sync_time + nm.sync_interval) s.at)
  where
    go :
        (late : Bool)
        → Allocates nm b (if late then after_sync nm s.at (retried s.answer) else allocate nm)
    go true = after_sync-Allocates nm s.at b (retried s.answer) u w h
    go false = allocate-Allocates nm nm b (omega arith) u w

Ascends-next :
    (nm : NonceManager) (b : ℕ) (p : Result NonceError ℕ × NonceManager) (ss : List Sync)
    → Allocates nm b p
    → nm.current_nonce ≤ b
    → ((after : NonceManager)
        → after.current_nonce ≤ b + 1
        → Ascends after.current_nonce (get_next_nonces after ss))
    → Ascends nm.current_nonce (with_nonce p.0 (get_next_nonces p.1 ss))
Ascends-next nm b p ss (refused e after same) u rest =
    Ascends-≤ _ _ _ (omega (arith, same)) (rest after (omega (arith, same, u)))
Ascends-next nm b p ss (given n after l h next) u rest =
    (l, Ascends-≤ _ _ _ (omega (arith, next)) (rest after (omega (arith, next, h))))

-- The nonces that successive calls of `GetNextNonce` give out rise strictly from the manager's own,
-- whether or not a call synchronizes or fails, if no answer of the chain and not the manager's nonce
-- is above a bound that is as far below 2^64 as there are calls.
pub get_next_nonces-Ascends :
    (nm : NonceManager) (ss : List Sync) (b : ℕ)
    → nm.current_nonce ≤ b
    → b + length ss < 2 ^ 64
    → All (IsBounded b) ss
    → Ascends nm.current_nonce (get_next_nonces nm ss)
unfolding get_next_nonces
get_next_nonces-Ascends nm [] b u w a = tt
get_next_nonces-Ascends nm (s ∷ ss) b u w a =
    Ascends-next nm b _ ss (get_next_nonce-Allocates nm s b u (omega (arith, w)) a.0) u
      (λ after h. get_next_nonces-Ascends after ss (b + 1) h (omega (arith, w)) (looser ss a.1))
  where
    looser : (ts : List Sync) → All (IsBounded b) ts → All (IsBounded (b + 1)) ts
    looser [] c = tt
    looser (t ∷ ts) c = ((λ n e. omega (arith, c.0 n e)), looser ts c.1)
