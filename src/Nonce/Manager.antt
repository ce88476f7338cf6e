-- ===== src/Nonce/Manager.antt =====
-- internal/keeper/core/execution/nonce_manager.go: the nonce manager, the allocation of nonces, and
-- the submission of a transaction with its replacements. What the chain answers is given with each
-- call, the calls of `Retry` by their outcomes. Of a transaction the private key is left out.
use triggerx_backend.Prelude.{
  ℕ, suc, ◌+◌, ◌*◌, ◌/◌, ◌%◌, ◌^◌, Bool, true, false, Option, none, some, List, [], ◌∷◌, ltb,
  ℕ_discrete, String, if◌then◌else◌,
}
use triggerx_backend.Prelude.Maps.{get, put}
use triggerx_backend.Prelude.Results.{Result, ok, err}
use triggerx_backend.Retry.Loop.{Outcome}
use triggerx_backend.Keeper.Action.{retried}
use triggerx_backend.Types.{seconds}

pub record Transaction : Type 0 where
  pub nonce : ℕ
  pub to : ℕ
  pub gas_limit : ℕ
  pub gas_price : ℕ
  pub payload : List ℕ

-- `&types.Transaction{}`
abbrev pub empty_transaction : Transaction
empty_transaction = record { nonce = 0; to = 0; gas_limit = 0; gas_price = 0; payload = [] }

-- The two of the source's status texts that the code ever sets.
pub data Status : Type 0 where
  pending confirmed : Status

pub record PendingTransaction : Type 0 where
  pub tx_hash : ℕ
  pub created_at : ℕ
  pub status : Status
  pub attempts : ℕ
  pub last_gas_price : ℕ
  pub payload : List ℕ
  pub to : ℕ

abbrev pub PendingTxs : Type 0
PendingTxs = List (ℕ × PendingTransaction)

pub record NonceManager : Type 0 where
  pub current_nonce : ℕ
  pub last_sync_time : ℕ
  pub sync_interval : ℕ
  pub pending_txs : PendingTxs

pub data NonceError : Type 0 where
  sync_failed no_gas_price not_signed submit_failed no_replacement wait_failed : NonceError

-- An answer to `PendingNonceAt` and when it came.
pub record Sync : Type 0 where
  pub at : ℕ
  pub answer : Outcome String ℕ

abbrev pub synced : NonceManager → ℕ → Option ℕ → NonceManager
synced nm now none = nm
synced nm now (some n) = record nm {
  current_nonce = if ltb nm.current_nonce n then n else nm.current_nonce;
  last_sync_time = now;
}

unfoldable pub sync_with_blockchain : NonceManager → Sync → NonceManager
sync_with_blockchain nm s = synced nm s.at (retried s.answer)

abbrev pub allocate : NonceManager → Result NonceError ℕ × NonceManager
allocate nm = (ok nm.current_nonce, record nm { current_nonce = (nm.current_nonce + 1) % 2 ^ 64 })

abbrev pub after_sync : NonceManager → ℕ → Option ℕ → Result NonceError ℕ × NonceManager
after_sync nm now none = (err sync_failed, nm)
after_sync nm now (some n) = allocate (synced nm now (some n))

unfoldable pub get_next_nonce : NonceManager → Sync → Result NonceError ℕ × NonceManager
get_next_nonce nm s =
    if ltb (nm.last_sync_time + nm.sync_interval) s.at
    then after_sync nm s.at (retried s.answer)
    else allocate nm

abbrev pub write : NonceManager → ℕ → PendingTransaction → NonceManager
write nm nonce t = record nm { pending_txs = put ℕ_discrete nonce t nm.pending_txs }

unfoldable pub update_transaction_status : NonceManager → ℕ → ℕ → ℕ → ℕ → NonceManager
update_transaction_status nm nonce hash price now = elim (get ℕ_discrete nonce nm.pending_txs) [
  | none ↦ nm
  | some t ↦ write nm nonce (record t {
    tx_hash = hash;
    status = pending;
    attempts = suc t.attempts;
    last_gas_price = price;
    created_at = now;
  })
]

unfoldable pub mark_transaction_confirmed : NonceManager → ℕ → ℕ → NonceManager
mark_transaction_confirmed nm nonce hash = elim (get ℕ_discrete nonce nm.pending_txs) [
  | none ↦ nm
  | some t ↦ write nm nonce (record t { status = confirmed; tx_hash = hash })
]

-- The answers to one turn of `submitWithRetry`: the sending, with the syncs that errors of the nonce
-- cause, the confirmation, the gas price and signing of a replacement, and the time of it.
pub record Leg : Type 0 where
  pub syncs : List Sync
  pub sent : Outcome String (Unit {0})
  pub mined : Outcome String ℕ
  pub suggested : Outcome String ℕ
  pub signs : Bool
  pub replaced_at : ℕ

unfoldable pub sync_all : NonceManager → List Sync → NonceManager
unfolding sync_with_blockchain
sync_all nm [] = nm
sync_all nm (s ∷ ss) = sync_all (sync_with_blockchain nm s) ss

-- `getOptimalGasParams`: the price that the node suggests, with a buffer of 20 percent.
abbrev pub buffered : Option ℕ → Option ℕ
buffered none = none
buffered (some price) = some (price * 120 / 100)

abbrev pub get_optimal_gas_params : Outcome String ℕ → Option ℕ
get_optimal_gas_params suggested = buffered (retried suggested)

-- The price of a replacement; the attempt is 1 at the only call.
unfoldable pub replacement_price : ℕ → ℕ → ℕ
replacement_price attempt price = price * (120 + attempt * 20) / 100

unfoldable pub create_replacement_transaction :
    Transaction → ℕ → Option ℕ → Bool → Result NonceError Transaction
unfolding replacement_price
create_replacement_transaction t attempt none signs = err no_replacement
create_replacement_transaction t attempt (some price) false = err no_replacement
create_replacement_transaction t attempt (some price) true =
    ok (record t { gas_limit = 600000; gas_price = replacement_price attempt price })

module _ (hash : Transaction → ℕ) where
  -- The manager, and what the call returns: nothing while it still submits, or an error, or the
  -- receipt with the hash of the confirmed transaction.
  abbrev pub Submitted : Type 0
  Submitted = NonceManager × Option (Result NonceError (ℕ × ℕ))

  abbrev pub resubmit :
      NonceManager
      → ℕ
      → ℕ
      → Result NonceError Transaction
      → (NonceManager → Transaction → Submitted)
      → Submitted
  resubmit nm nonce now (ok t) again =
      again (update_transaction_status nm nonce (hash t) t.gas_price now) t
  resubmit nm nonce now (err e) again = (nm, some (err no_replacement))
  resubmit nm nonce now Result.panic again = (nm, none)

  abbrev pub confirm :
      NonceManager
      → Transaction
      → ℕ
      → Leg
      → Option ℕ
      → (NonceManager → Transaction → Submitted)
      → Submitted
  confirm nm t nonce leg (some receipt) again =
      (mark_transaction_confirmed nm nonce (hash t), some (ok (receipt, hash t)))
  confirm nm t nonce leg none again =
      resubmit nm nonce leg.replaced_at
        (create_replacement_transaction t 1 (get_optimal_gas_params leg.suggested) leg.signs) again

  abbrev pub submit :
      NonceManager
      → Transaction
      → ℕ
      → Leg
      → Option (Unit {0})
      → (NonceManager → Transaction → Submitted)
      → Submitted
  submit nm t nonce leg none again = (nm, some (err submit_failed))
  submit nm t nonce leg (some sent) again = confirm nm t nonce leg (retried leg.mined) again

  -- The list is of the answers to the turns to come.
  unfoldable pub submit_with_retry : NonceManager → Transaction → ℕ → List Leg → Submitted
  unfolding sync_all mark_transaction_confirmed create_replacement_transaction
      update_transaction_status
  submit_with_retry nm t nonce [] = (nm, none)
  submit_with_retry nm t nonce (leg ∷ legs) =
      submit (sync_all nm leg.syncs) t nonce leg (retried leg.sent)
        (λ nm' t'. submit_with_retry nm' t' nonce legs)

  unfoldable pub track_transaction : NonceManager → Transaction → ℕ → NonceManager
  track_transaction nm t now = write nm t.nonce (record {
    tx_hash = hash t;
    created_at = now;
    status = pending;
    attempts = 1;
    last_gas_price = t.gas_price;
    payload = t.payload;
    to = t.to;
  })

  -- What one call of `SubmitTransaction` meets.
  pub record Request : Type 0 where
    pub now : ℕ
    pub to : ℕ
    pub payload : List ℕ
    pub suggested : Outcome String ℕ
    pub signs : Bool
    pub legs : List Leg
    -- `bind.WaitMined` on a transaction.
    pub wait_mined : Transaction → Option ℕ

  abbrev pub transaction_of : Request → ℕ → ℕ → Transaction
  transaction_of r nonce price = record {
    nonce = nonce;
    to = r.to;
    gas_limit = 600000;
    gas_price = price;
    payload = r.payload;
  }

  abbrev pub submit_priced : NonceManager → ℕ → Request → Option ℕ → Bool → Submitted
  submit_priced nm nonce r none signs = (nm, some (err no_gas_price))
  submit_priced nm nonce r (some price) false = (nm, some (err not_signed))
  submit_priced nm nonce r (some price) true =
      let t = transaction_of r nonce price in
      submit_with_retry (track_transaction nm t r.now) t nonce r.legs

  unfoldable pub submit_new_transaction : NonceManager → ℕ → Request → Submitted
  unfolding submit_with_retry track_transaction
  submit_new_transaction nm nonce r =
      submit_priced nm nonce r (get_optimal_gas_params r.suggested) r.signs

  abbrev pub replace_priced : NonceManager → ℕ → Request → Option ℕ → Bool → Submitted
  replace_priced nm nonce r none signs = (nm, some (err no_gas_price))
  replace_priced nm nonce r (some price) false = (nm, some (err not_signed))
  replace_priced nm nonce r (some price) true =
      let t = transaction_of r nonce (price * 120 / 100) in
      submit_with_retry (update_transaction_status nm nonce (hash t) t.gas_price r.now) t nonce
        r.legs

  unfoldable pub replace_transaction : NonceManager → ℕ → Request → Submitted
  unfolding submit_with_retry update_transaction_status
  replace_transaction nm nonce r =
      replace_priced nm nonce r (get_optimal_gas_params r.suggested) r.signs

  unfoldable pub wait_for_existing_transaction :
      NonceManager → ℕ → PendingTransaction → Request → Submitted
  unfolding mark_transaction_confirmed
  wait_for_existing_transaction nm nonce t r = elim (r.wait_mined empty_transaction) [
    | none ↦ (nm, some (err wait_failed))
    | some receipt ↦ (mark_transaction_confirmed nm nonce t.tx_hash, some (ok (receipt, t.tx_hash)))
  ]

  abbrev pub submit_again : NonceManager → ℕ → PendingTransaction → Status → Request → Submitted
  submit_again nm nonce t confirmed r = submit_new_transaction nm nonce r
  submit_again nm nonce t pending r =
      if ltb (t.created_at + seconds 30) r.now
      then replace_transaction nm nonce r
      else wait_for_existing_transaction nm nonce t r

  unfoldable pub submit_transaction : NonceManager → ℕ → Request → Submitted
  unfolding submit_new_transaction replace_transaction wait_for_existing_transaction
  submit_transaction nm nonce r = elim (get ℕ_discrete nonce nm.pending_txs) [
    | none ↦ submit_new_transaction nm nonce r
    | some t ↦ submit_again nm nonce t t.status r
  ]
