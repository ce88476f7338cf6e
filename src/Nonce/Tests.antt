-- ===== src/Nonce/Tests.antt =====
-- A nonce manager at nonce 7, a chain whose pending nonce is 9, and a submission replaced once.
use triggerx_backend.Prelude.{
  ℕ, ◌≡◌, refl, true, none, some, some-eq, ◌==◌, if◌then◌else◌, List, [], ◌∷◌, arith, ℕ_discrete,
}
use triggerx_backend.Prelude.Maps.{get, put}
use triggerx_backend.Prelude.Results.{ok, err}
use triggerx_backend.Retry.Loop.{success, refused}
use triggerx_backend.Nonce.Manager.{
  Transaction, NonceManager, NonceError, Sync, pending, PendingTransaction, Leg, Request,
  get_next_nonce, sync_with_blockchain, sync_all, update_transaction_status,
  mark_transaction_confirmed, replacement_price, create_replacement_transaction, submit_with_retry,
  track_transaction, submit_new_transaction, replace_transaction, wait_for_existing_transaction,
  submit_transaction,
}
use triggerx_backend.Prelude.Texts.{Text}
use triggerx_backend.Nonce.Errors.{
  contains_text, contains_any, is_nonce_too_low_error, should_retry_rpc_error,
}
use triggerx_backend.Nonce.Allocation.{get_next_nonces, Ascends, get_next_nonces-Ascends}
use triggerx_backend.Nonce.Submission.{Settled, submit_with_retry-Settled}
use triggerx_backend.Nonce.Confirmed.{IsConfirmed, submit_transaction-IsConfirmed}

abbrev same : Text → Text
same s = s

errors : Unit {0}
unfolding contains_text contains_any is_nonce_too_low_error should_retry_rpc_error
errors = tt

abbrev manager : NonceManager
manager = record { current_nonce = 7; last_sync_time = 0; sync_interval = 10; pending_txs = [] }

abbrev calls : List Sync
calls =
    record { at = 5; answer = refused "down" }
    ∷ record { at = 20; answer = success 9 }
    ∷ record { at = 40; answer = refused "down" }
    ∷ record { at = 50; answer = success 8 }
    ∷ []

program : Unit {0}
unfolding get_next_nonces get_next_nonce sync_with_blockchain sync_all update_transaction_status
    mark_transaction_confirmed replacement_price create_replacement_transaction submit_with_retry
    track_transaction submit_new_transaction replace_transaction wait_for_existing_transaction
    submit_transaction get put ℕ_discrete
program = tt

three_nonces : get_next_nonces manager calls ≡ 7 ∷ 9 ∷ 10 ∷ []
unfolding program
three_nonces = refl

get_next_nonces-Ascends_example : Ascends 7 (get_next_nonces manager calls)
get_next_nonces-Ascends_example =
    get_next_nonces-Ascends manager calls 9 (omega arith) (omega arith) (
      λ n h. cc,
      (λ n h. omega (arith, some-eq h), (λ n h. cc, (λ n h. omega (arith, some-eq h), tt))),
    )

-- The price stands for the hash.
abbrev hash : Transaction → ℕ
hash t = t.gas_price

abbrev stuck : Leg
stuck = record {
  syncs = [];
  sent = success tt;
  mined = refused "timeout";
  suggested = success 100;
  signs = true;
  replaced_at = 60;
}

abbrev confirming : Leg
confirming = record stuck { mined = success 1 }

abbrev request : Request hash
request = record {
  now = 50;
  to = 1;
  payload = [];
  suggested = success 100;
  signs = true;
  legs = stuck ∷ confirming ∷ [];
  wait_mined = λ t. none;
}

replaced_once : (submit_transaction hash manager 7 request).1 ≡ some (ok (1, 168))
unfolding program
replaced_once = refl

submit_transaction-IsConfirmed_example :
    IsConfirmed hash manager 7 request (submit_transaction hash manager 7 request) 168
unfolding program
submit_transaction-IsConfirmed_example =
    submit_transaction-IsConfirmed hash manager 7 request 1 168 refl

abbrev transaction : Transaction
transaction = record { nonce = 7; to = 1; gas_limit = 600000; gas_price = 100; payload = [] }

abbrev tracking : PendingTransaction
tracking = record {
  tx_hash = 100;
  created_at = 50;
  status = pending;
  attempts = 1;
  last_gas_price = 100;
  payload = [];
  to = 1;
}

abbrev tracked : NonceManager
tracked = record manager { pending_txs = (7, tracking) ∷ [] }

-- The wait for the tracked transaction is one for the empty transaction.
waits_for_empty :
    submit_transaction hash tracked 7
      (record request { wait_mined = λ t. if t.nonce == 7 then some 1 else none })
    ≡ (tracked, some (err NonceError.wait_failed))
unfolding program
waits_for_empty = refl

submit_with_retry-Settled_example :
    Settled hash 7 tracked.pending_txs
      (submit_with_retry hash tracked transaction 7 (stuck ∷ confirming ∷ []))
unfolding program
submit_with_retry-Settled_example =
    submit_with_retry-Settled hash tracked transaction 7 (stuck ∷ confirming ∷ [])
      tracked.pending_txs
      (record { entry = tracking; found = refl; in_status = refl; others = λ k d. refl })
