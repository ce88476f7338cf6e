-- ===== src/Nonce/Confirmed.antt =====
-- internal/keeper/core/execution/nonce_manager.go: `SubmitTransaction`, on each of its ways.
use triggerx_backend.Prelude.{
  ℕ, ◌+◌, ◌≡◌, refl, ap, ◌∙◌, Bool, true, false, Option, none, some, ltb, ℕ_discrete, if◌then◌else◌,
}
use triggerx_backend.Prelude.Maps.{get}
use triggerx_backend.Prelude.Results.{Result, ok, err, panic}
use triggerx_backend.Types.{seconds}
use triggerx_backend.Nonce.Manager.{
  get_optimal_gas_params, Transaction, empty_transaction, Status, pending, confirmed,
  PendingTransaction, NonceManager, NonceError, mark_transaction_confirmed, track_transaction,
  Submitted, Request, transaction_of, submit_priced, submit_new_transaction, replace_priced,
  replace_transaction, wait_for_existing_transaction, submit_again, submit_transaction,
}
use triggerx_backend.Nonce.Submission.{
  Entry, Settled, mined, failed, running, submit_with_retry-Settled, get-write, Untouched-write,
  updated-Entry, marked-Settled,
}

module _ (hash : Transaction → ℕ) (nm : NonceManager) (nonce : ℕ) (r : Request hash) where
  -- What is claimed of the result of a submission.
  pub record IsConfirmed (out : Submitted hash) (h : ℕ) : Type 0 where
    pub entry : Entry nonce nm.pending_txs out.0 confirmed
    pub hashed : entry.entry.tx_hash ≡ h

  hash_of : Option (Result NonceError (ℕ × ℕ)) → ℕ
  hash_of (some (ok (receipt, h))) = h
  hash_of (some (err e)) = 0
  hash_of (some panic) = 0
  hash_of none = 0

  IsSafe : Submitted hash → Type 0
  IsSafe out = (receipt h : ℕ) → out.1 ≡ some (ok (receipt, h)) → IsConfirmed out h

  of_error : (m : NonceManager) (e : NonceError) → IsSafe (m, some (err e))
  unfolding IsSafe
  of_error m e receipt h eq = cc

  of_Settled : (out : Submitted hash) → Settled hash nonce nm.pending_txs out → IsSafe out
  unfolding IsSafe hash_of
  of_Settled _ (mined m receipt h e same) receipt' h' eq = record {
    entry = e;
    hashed = same ∙ ap hash_of eq;
  }
  of_Settled _ (failed m reason e) receipt h eq = cc
  of_Settled _ (running m e) receipt h eq = cc

  tracked :
      (t : Transaction) → Entry t.nonce nm.pending_txs (track_transaction hash nm t r.now) pending
  unfolding track_transaction
  tracked t = record {
    entry = _;
    found = get-write nm t.nonce _;
    in_status = refl;
    others = Untouched-write nm t.nonce _;
  }

  of_new : IsSafe (submit_new_transaction hash nm nonce r)
  unfolding submit_new_transaction
  of_new = go (get_optimal_gas_params r.suggested) r.signs
    where
      go : (o : Option ℕ) (b : Bool) → IsSafe (submit_priced hash nm nonce r o b)
      go none b = of_error nm NonceError.no_gas_price
      go (some price) false = of_error nm NonceError.not_signed
      go (some price) true = of_Settled _ (
          submit_with_retry-Settled hash _ _ nonce r.legs nm.pending_txs
            (tracked (transaction_of hash r nonce price)))

  module _ (t : PendingTransaction) (there : get ℕ_discrete nonce nm.pending_txs ≡ some t) where
    of_replacement : t.status ≡ pending → IsSafe (replace_transaction hash nm nonce r)
    unfolding replace_transaction
    of_replacement waits = go (get_optimal_gas_params r.suggested) r.signs
      where
        go : (o : Option ℕ) (b : Bool) → IsSafe (replace_priced hash nm nonce r o b)
        go none b = of_error nm NonceError.no_gas_price
        go (some price) false = of_error nm NonceError.not_signed
        go (some price) true = of_Settled _ (
            submit_with_retry-Settled hash _ _ nonce r.legs nm.pending_txs (
              updated-Entry hash nm nonce _ _ r.now nm.pending_txs
                (record { entry = t; found = there; in_status = waits; others = λ k d. refl })))

    of_wait : t.status ≡ pending → IsSafe (wait_for_existing_transaction hash nm nonce t r)
    unfolding wait_for_existing_transaction
    of_wait waits = go (r.wait_mined empty_transaction)
      where
        go :
            (o : Option ℕ)
            → IsSafe (elim o [
              | none ↦ (nm, some (err NonceError.wait_failed))
              | some receipt ↦
                  (mark_transaction_confirmed nm nonce t.tx_hash, some (ok (receipt, t.tx_hash)))
            ])
        go none = of_error nm NonceError.wait_failed
        go (some receipt) = of_Settled _ (
            marked-Settled hash nm nonce receipt t.tx_hash nm.pending_txs
              (record { entry = t; found = there; in_status = waits; others = λ k d. refl }))

    of_again : (s : Status) → t.status ≡ s → IsSafe (submit_again hash nm nonce t s r)
    of_again confirmed h = of_new
    of_again pending h = go (ltb (t.created_at + seconds 30) r.now)
      where
        go :
            (b : Bool)
            → IsSafe (
                if b
                then replace_transaction hash nm nonce r
                else wait_for_existing_transaction hash nm nonce t r)
        go true = of_replacement h
        go false = of_wait h

  of_tracked :
      (o : Option PendingTransaction)
      → get ℕ_discrete nonce nm.pending_txs ≡ o
      → IsSafe (elim o [
        | none ↦ submit_new_transaction hash nm nonce r
        | some t ↦ submit_again hash nm nonce t t.status r
      ])
  of_tracked none h = of_new
  of_tracked (some t) h = of_again t h t.status refl

  -- Whatever was tracked before and whatever the chain answers, where `SubmitTransaction` returns a
  -- receipt with a hash, as a new transaction, a replacement or by waiting, the nonce is tracked as
  -- confirmed with that hash, and the tracking of the other nonces is as it was.
  pub submit_transaction-IsConfirmed :
      (receipt h : ℕ)
      → (submit_transaction hash nm nonce r).1 ≡ some (ok (receipt, h))
      → IsConfirmed (submit_transaction hash nm nonce r) h
  unfolding submit_transaction IsSafe
  submit_transaction-IsConfirmed = of_tracked (get ℕ_discrete nonce nm.pending_txs) refl
