-- ===== src/Keeper/Trigger.antt =====
-- internal/keeper/core/validation: the checks of a task's trigger (trigger.go) and the timestamp of a
-- receipt's block (utils.go). The chain, its JSON-RPC replies included, is a parameter; it is asked
-- by chain id, which the source maps to the URL of a node.
use triggerx_backend.Prelude.{
  ℕ, suc, ◌+◌, ◌-◌, String, Bool, true, false, not, ◌&&◌, ◌||◌, Option, none, some, List, [], ◌∷◌,
  str_eq, ltb, ◌==◌, if◌then◌else◌,
}
use triggerx_backend.Prelude.Int.{ℤ, pos, negsuc, ltb_ℤ, leb_ℤ, eqb_ℤ}
use triggerx_backend.Prelude.Results.{Result, ok, err, panic, reject_if, ◌>>=◌, ◌>>◌}
use triggerx_backend.Types.{TaskTriggerData, seconds}

-- The errors of validation. A Go result `(false, nil)` is `ok false`.
pub data ValidationError : Type 0 where
  expired_before_trigger invalid_task_definition_id chain_unreachable : ValidationError
  contract_check_failed no_contract transaction_lookup_failed : ValidationError
  transaction_pending transaction_not_found transaction_unsuccessful : ValidationError
  wrong_target_contract no_block_timestamp after_expiration after_next_execution : ValidationError
  manager_signature_missing manager_signature_unverifiable manager_signature_wrong : ValidationError
  proof_missing proof_empty certificate_hash_empty no_tls_connection no_certificates :
      ValidationError
  not_stringified proof_hash_wrong performer_signature_missing : ValidationError
  performer_signature_empty performer_address_empty performer_signature_unverifiable :
      ValidationError
  performer_signature_wrong not_hex not_on_ipfs : ValidationError

-- The log addresses are those of the receipt's logs in order.
pub record Receipt : Type 0 where
  pub status : ℕ
  pub block_number : ℕ
  pub log_addresses : List ℕ

-- The decoded reply to eth_getBlockByNumber. The timestamp is missing twice: where the result is not
-- a JSON object, and where its field is not a string.
pub record RpcResponse : Type 0 where
  pub has_error : Bool
  pub timestamp : Option (Option String)

pub data BlockReply : Type 0 where
  no_response : BlockReply
  response : ℕ → Option RpcResponse → BlockReply

pub record Chain : Type 0 where
  pub dial : String → Bool
  -- The size of the code at an address.
  pub code_at : String → ℕ → Option ℕ
  pub transaction_receipt : String → ℕ → Option Receipt
  pub is_pending : String → ℕ → Option Bool
  pub block_by_number : String → ℕ → BlockReply
  pub hex_to_address : String → ℕ
  pub hex_to_hash : String → ℕ
  pub parse_int : String → Option ℤ

abbrev pub unix_epoch : ℕ
unix_epoch = seconds 62135596800

-- `time.Unix`. A time before Go's zero time becomes that: both are before every time of a task.
abbrev pub unix_time : ℤ → ℕ
unix_time (pos n) = unix_epoch + seconds n
unix_time (negsuc n) = unix_epoch - seconds (suc n)

abbrev pub time_tolerance : ℕ
time_tolerance = seconds 8

abbrev pub or_error {ℓ} : {A : Type ℓ} → Option A → ValidationError → Result ValidationError A
or_error (some a) e = ok a
or_error none e = err e

-- `if !isValid { return isValid, err }`
abbrev pub and_then :
    Result ValidationError Bool → Result ValidationError Bool → Result ValidationError Bool
and_then (ok true) k = k
and_then (ok false) k = ok false
and_then (err e) k = err e
and_then panic k = panic

-- What a transaction without a receipt is reported as.
unfoldable pub without_receipt {ℓ} : {A : Type ℓ} → Option Bool → Result ValidationError A
without_receipt none = err transaction_lookup_failed
without_receipt (some true) = err transaction_pending
without_receipt (some false) = err transaction_not_found

module _ (chain : Chain) where
  open chain use {
    dial, code_at, transaction_receipt, is_pending, block_by_number, hex_to_address, hex_to_hash,
    parse_int,
  }

  abbrev pub timestamp_of : Option (Option String) → Result ValidationError ℕ
  timestamp_of none = err no_block_timestamp
  timestamp_of (some none) = err no_block_timestamp
  timestamp_of (some (some s)) = do n ← or_error (parse_int s) no_block_timestamp; ok (unix_time n)

  unfoldable pub get_block_timestamp : String → Receipt → Result ValidationError ℕ
  get_block_timestamp id receipt = elim (block_by_number id receipt.block_number) [
    | no_response ↦ err no_block_timestamp
    | response status none ↦ err no_block_timestamp
    | response status (some r) ↦
        if not (status == 200)
        then err no_block_timestamp
        else if r.has_error
        then err no_block_timestamp
        else timestamp_of r.timestamp
  ]

  unfoldable pub is_valid_time_based_trigger : TaskTriggerData → Result ValidationError Bool
  is_valid_time_based_trigger t = do
    reject_if (ltb t.expiration_time t.next_trigger_timestamp) expired_before_trigger
    ok true

  -- `receipt.Logs[0].Address`
  abbrev pub first_address : List ℕ → Result ValidationError ℕ
  first_address [] = panic
  first_address (a ∷ addresses) = ok a

  unfoldable pub is_valid_event_based_trigger : TaskTriggerData → Result ValidationError Bool
  unfolding without_receipt get_block_timestamp
  is_valid_event_based_trigger t = do
    reject_if (ltb t.expiration_time t.next_trigger_timestamp) expired_before_trigger
    reject_if (not (dial t.event_chain_id)) chain_unreachable
    size ←
        or_error (code_at t.event_chain_id (hex_to_address t.event_trigger_contract_address))
          contract_check_failed
    reject_if (size == 0) no_contract
    receipt ← elim (transaction_receipt t.event_chain_id (hex_to_hash t.event_tx_hash)) [
      | some r ↦ ok r
      | none ↦ without_receipt (is_pending t.event_chain_id (hex_to_hash t.event_tx_hash))
    ]
    reject_if (not (receipt.status == 1)) transaction_unsuccessful
    address ← first_address receipt.log_addresses
    reject_if (not (address == hex_to_address t.event_trigger_contract_address))
        wrong_target_contract
    timestamp ← get_block_timestamp t.event_chain_id receipt
    reject_if (ltb (t.expiration_time + time_tolerance) timestamp) after_expiration
    ok true

  unfoldable pub is_valid_condition_based_trigger : TaskTriggerData → Result ValidationError Bool
  is_valid_condition_based_trigger t =
      let value = t.condition_satisfied_value in
      if ltb t.expiration_time t.next_trigger_timestamp
      then err expired_before_trigger
      else if str_eq t.condition_type "equals"
      then ok (eqb_ℤ value t.condition_upper_limit)
      else if str_eq t.condition_type "not_equals"
      then ok (not (eqb_ℤ value t.condition_upper_limit))
      else if str_eq t.condition_type "greater_than"
      then ok (ltb_ℤ t.condition_upper_limit value)
      else if str_eq t.condition_type "less_than"
      then ok (ltb_ℤ value t.condition_upper_limit)
      else if str_eq t.condition_type "greater_equal"
      then ok (leb_ℤ t.condition_upper_limit value)
      else if str_eq t.condition_type "less_equal"
      then ok (leb_ℤ value t.condition_upper_limit)
      else if str_eq t.condition_type "between"
      then ok (leb_ℤ t.condition_lower_limit value && leb_ℤ value t.condition_upper_limit)
      else ok false

  unfoldable pub validate_trigger : TaskTriggerData → Result ValidationError Bool
  unfolding is_valid_time_based_trigger is_valid_event_based_trigger
      is_valid_condition_based_trigger
  validate_trigger t =
      let id = t.task_definition_id in
      if (id == 1) || (id == 2)
      then and_then (is_valid_time_based_trigger t) (ok true)
      else if (id == 3) || (id == 4)
      then and_then (is_valid_event_based_trigger t) (ok true)
      else if (id == 5) || (id == 6)
      then and_then (is_valid_condition_based_trigger t) (ok true)
      else if id == 7
      then and_then (is_valid_time_based_trigger t) (ok true)
      else err invalid_task_definition_id
