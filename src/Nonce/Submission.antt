-- ===== src/Nonce/Submission.antt =====
-- internal/keeper/core/execution/nonce_manager.go: how `submitWithRetry` leaves the tracking of its
-- transaction, and for how long it goes on.
use triggerx_backend.Prelude.{
  ℕ, ◌+◌, ◌*◌, ◌/◌, ◌≡◌, ◌≢◌, refl, sym, ap, subst, ◌∙◌, Bool, true, Option, none, some, List, [],
  ◌∷◌, length, All, arith, ℕ_discrete, if_pos, if_neg,
}
use triggerx_backend.Prelude.Maps.{get, get-put}
use triggerx_backend.Prelude.Results.{Result, ok, err, panic}
use triggerx_backend.Keeper.Action.{retried}
use triggerx_backend.Nonce.Manager.{
  get_optimal_gas_params, Transaction, Status, pending, confirmed, PendingTransaction, PendingTxs,
  NonceManager, NonceError, Sync, synced, sync_with_blockchain, sync_all, write,
  update_transaction_status, mark_transaction_confirmed, Leg, replacement_price,
  create_replacement_transaction, Submitted, resubmit, confirm, submit, submit_with_retry,
}

abbrev pub Untouched : ℕ → PendingTxs → PendingTxs → Type 0
Untouched nonce old new = (k : ℕ) → nonce ≢ k → get ℕ_discrete k new ≡ get ℕ_discrete k old

sync_all-pending_txs :
    (nm : NonceManager) (ss : List Sync) → (sync_all nm ss).pending_txs ≡ nm.pending_txs
unfolding sync_all sync_with_blockchain
sync_all-pending_txs nm [] = refl
sync_all-pending_txs nm (s ∷ ss) =
    sync_all-pending_txs (sync_with_blockchain nm s) ss ∙ of_sync (retried s.answer)
  where
    of_sync : (o : Option ℕ) → (synced nm s.at o).pending_txs ≡ nm.pending_txs
    of_sync none = refl
    of_sync (some n) = refl

pub get-write :
    (nm : NonceManager) (nonce : ℕ) (x : PendingTransaction)
    → get ℕ_discrete nonce (write nm nonce x).pending_txs ≡ some x
get-write nm nonce x =
    get-put ℕ_discrete nonce nonce x nm.pending_txs
    ∙ if_pos (ℕ_discrete nonce nonce) refl (some x) (get ℕ_discrete nonce nm.pending_txs)

pub Untouched-write :
    (nm : NonceManager) (nonce : ℕ) (x : PendingTransaction)
    → Untouched nonce nm.pending_txs (write nm nonce x).pending_txs
Untouched-write nm nonce x k h =
    get-put ℕ_discrete nonce k x nm.pending_txs
    ∙ if_neg (ℕ_discrete nonce k) h (some x) (get ℕ_discrete k nm.pending_txs)

-- The entry of a nonce, and the other entries as they were.
pub record Entry (nonce : ℕ) (old : PendingTxs) (nm : NonceManager) (s : Status) : Type 0 where
  pub entry : PendingTransaction
  pub found : get ℕ_discrete nonce nm.pending_txs ≡ some entry
  pub in_status : entry.status ≡ s
  pub others : Untouched nonce old nm.pending_txs

module _ (hash : Transaction → ℕ) where
  -- How a submission leaves its nonce: confirmed with the returned hash, or pending, where it failed
  -- and where it still goes on.
  pub data Settled (nonce : ℕ) (old : PendingTxs) : Submitted hash → Type 0 where
    mined :
        (nm : NonceManager) (receipt h : ℕ) (e : Entry nonce old nm confirmed)
        → e.entry.tx_hash ≡ h
        → Settled nonce old (nm, some (ok (receipt, h)))
    failed :
        (nm : NonceManager) (reason : NonceError)
        → Entry nonce old nm pending
        → Settled nonce old (nm, some (err reason))
    running : (nm : NonceManager) → Entry nonce old nm pending → Settled nonce old (nm, none)

  pub marked-Settled :
      (nm : NonceManager) (nonce receipt h : ℕ) (old : PendingTxs)
      → Entry nonce old nm pending
      → Settled nonce old (mark_transaction_confirmed nm nonce h, some (ok (receipt, h)))
  unfolding mark_transaction_confirmed
  marked-Settled nm nonce receipt h old e =
      rw (e.found, mark_transaction_confirmed)
        (mined _ receipt h
          (record {
            entry = record e.entry { tx_hash = h; status = confirmed };
            found = get-write nm nonce _;
            in_status = refl;
            others = λ k d. Untouched-write nm nonce _ k d ∙ e.others k d;
          })
          refl)

  pub updated-Entry :
      (nm : NonceManager) (nonce h price now : ℕ) (old : PendingTxs)
      → Entry nonce old nm pending
      → Entry nonce old (update_transaction_status nm nonce h price now) pending
  unfolding update_transaction_status
  updated-Entry nm nonce h price now old e =
      rw (e.found, update_transaction_status)
        (record {
          entry = _;
          found = get-write nm nonce _;
          in_status = refl;
          others = λ k d. Untouched-write nm nonce _ k d ∙ e.others k d;
        })

  Synced-Entry :
      (nm : NonceManager) (nonce : ℕ) (old : PendingTxs) (ss : List Sync)
      → Entry nonce old nm pending
      → Entry nonce old (sync_all nm ss) pending
  Synced-Entry nm nonce old ss e = record {
    entry = e.entry;
    found = ap (get ℕ_discrete nonce) (sync_all-pending_txs nm ss) ∙ e.found;
    in_status = e.in_status;
    others = λ k d. ap (get ℕ_discrete k) (sync_all-pending_txs nm ss) ∙ e.others k d;
  }

  submit-Settled :
      (nm : NonceManager) (t : Transaction) (nonce : ℕ) (leg : Leg) (o : Option (Unit {0}))
      (old : PendingTxs) (again : NonceManager → Transaction → Submitted hash)
      → Entry nonce old nm pending
      → ((nm' : NonceManager) (t' : Transaction)
          → Entry nonce old nm' pending
          → Settled nonce old (again nm' t'))
      → Settled nonce old (submit hash nm t nonce leg o again)
  submit-Settled nm t nonce leg none old again e rest = failed nm NonceError.submit_failed e
  submit-Settled nm t nonce leg (some sent) old again e rest = confirm-Settled (retried leg.mined)
    where
      resubmit-Settled :
          (r : Result NonceError Transaction)
          → Settled nonce old (resubmit hash nm nonce leg.replaced_at r again)
      resubmit-Settled (ok t') =
          rest _ t' (updated-Entry nm nonce (hash t') t'.gas_price leg.replaced_at old e)
      resubmit-Settled (err x) = failed nm NonceError.no_replacement e
      resubmit-Settled panic = running nm e

      confirm-Settled : (r : Option ℕ) → Settled nonce old (confirm hash nm t nonce leg r again)
      confirm-Settled (some receipt) = marked-Settled nm nonce receipt (hash t) old e
      confirm-Settled none = resubmit-Settled _

  -- A submission whose nonce is tracked as pending, over any answers of the chain: where it returns a
  -- receipt, its nonce is tracked as confirmed, with the hash that is returned; where it returns an
  -- error, and where it still goes on after the given answers, its nonce stays pending. The other
  -- nonces stay as they were.
  pub submit_with_retry-Settled :
      (nm : NonceManager) (t : Transaction) (nonce : ℕ) (legs : List Leg) (old : PendingTxs)
      → Entry nonce old nm pending
      → Settled nonce old (submit_with_retry hash nm t nonce legs)
  unfolding submit_with_retry
  submit_with_retry-Settled nm t nonce [] old e = running nm e
  submit_with_retry-Settled nm t nonce (leg ∷ legs) old e =
      submit-Settled _ t nonce leg _ old _ (Synced-Entry nm nonce old leg.syncs e)
        (λ nm' t' e'. submit_with_retry-Settled nm' t' nonce legs old e')

  -- A turn that is sent, never confirmed, and replaced.
  pub record IsReplaced (price : ℕ) (leg : Leg) : Type 0 where
    pub was_sent : retried leg.sent ≡ some tt
    pub unconfirmed : retried leg.mined ≡ none
    pub priced : get_optimal_gas_params leg.suggested ≡ some price
    pub signed : leg.signs ≡ true

  -- The entry of the nonce, with its attempts and its price.
  pub record HasAttempts (nonce attempts price : ℕ) (nm : NonceManager) : Type 0 where
    pub entry : PendingTransaction
    pub found : get ℕ_discrete nonce nm.pending_txs ≡ some entry
    pub counted : entry.attempts ≡ attempts
    pub last_price : entry.last_gas_price ≡ price

  abbrev pub replacement_of : Transaction → ℕ → Transaction
  replacement_of t price = record t { gas_limit = 600000; gas_price = price * 140 / 100 }

  create_replacement :
      (t : Transaction) (price : ℕ) (o : Option ℕ) (signs : Bool)
      → o ≡ some price
      → signs ≡ true
      → create_replacement_transaction t 1 o signs ≡ ok (replacement_of t price)
  unfolding create_replacement_transaction replacement_price
  create_replacement t price o signs h k = rw (h, k) refl

  abbrev pub replaced_manager : NonceManager → Transaction → ℕ → Leg → NonceManager
  replaced_manager nm t nonce leg =
      update_transaction_status (sync_all nm leg.syncs) nonce (hash t) t.gas_price leg.replaced_at

  replaced-HasAttempts :
      (nm : NonceManager) (t : Transaction) (leg : Leg) (nonce a p : ℕ)
      → HasAttempts nonce a p nm
      → HasAttempts nonce (a + 1) t.gas_price (replaced_manager nm t nonce leg)
  unfolding update_transaction_status
  replaced-HasAttempts nm t leg nonce a p e =
      let found = ap (get ℕ_discrete nonce) (sync_all-pending_txs nm leg.syncs) ∙ e.found in
      rw (found, update_transaction_status)
        (record {
          entry = _;
          found = get-write (sync_all nm leg.syncs) nonce _;
          counted = omega (arith, e.counted);
          last_price = refl;
        })

  submit_with_retry-IsReplaced :
      (nm : NonceManager) (t : Transaction) (nonce price : ℕ) (leg : Leg) (legs : List Leg)
      → IsReplaced price leg
      → submit_with_retry hash nm t nonce (leg ∷ legs)
        ≡ submit_with_retry hash
            (replaced_manager nm (replacement_of t price) nonce leg)
            (replacement_of t price)
            nonce
            legs
  unfolding submit_with_retry
  submit_with_retry-IsReplaced nm t nonce price leg legs r =
      rw (r.was_sent, r.unconfirmed, create_replacement t price _ _ r.priced r.signed) refl

  -- The price of the last turn, if there is one.
  abbrev pub price_after : ℕ → ℕ → List Leg → ℕ
  price_after p price [] = p
  price_after p price (leg ∷ legs) = price_after (price * 140 / 100) price legs

  -- A submission goes on for as long as its transaction is sent and not confirmed and a replacement
  -- can be made: after any number of such turns at one price it has not returned, and its
  -- attempts have grown by that number; its price is then, unless there was no turn, 140 percent of
  -- that price of the node with its buffer, however many turns there were.
  pub submit_with_retry-unbounded :
      (legs : List Leg) (nm : NonceManager) (t : Transaction) (nonce price a p : ℕ)
      → HasAttempts nonce a p nm
      → All (IsReplaced price) legs
      → ((submit_with_retry hash nm t nonce legs).1 ≡ none)
        × HasAttempts nonce
            (a + length legs)
            (price_after p price legs)
            (submit_with_retry hash nm t nonce legs).0
  unfolding submit_with_retry
  submit_with_retry-unbounded [] nm t nonce price a p e r =
      (refl, subst (λ n. HasAttempts nonce n p nm) (omega arith) e)
  submit_with_retry-unbounded (leg ∷ legs) nm t nonce price a p e r =
      let goes_on =
        submit_with_retry-unbounded legs _ (replacement_of t price) nonce price (a + 1) _
          (replaced-HasAttempts nm (replacement_of t price) leg nonce a p e) r.1 in
      subst
        (λ out.
          (out.1 ≡ none)
          × HasAttempts nonce (a + length (leg ∷ legs)) (price_after (price * 140 / 100) price legs)
              out.0)
        (sym (submit_with_retry-IsReplaced nm t nonce price leg legs r.0))
        (
          goes_on.0,
          subst
              (λ n.
                HasAttempts nonce n (price_after (price * 140 / 100) price legs)
                  (submit_with_retry hash (replaced_manager nm (replacement_of t price) nonce leg)
                    (replacement_of t price) nonce legs).0)
              (omega arith) goes_on.1,
        )
