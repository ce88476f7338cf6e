-- ===== src/Keeper/Data.antt =====
-- pkg/types/keeper.go: the data that a performer stores on IPFS and the validators check, and the
-- services that both use, as a parameter: TLS, hashes, signatures, JSON, IPFS. Of the action's data
-- only the transaction hash is read; the rest is of a type of its own.
use triggerx_backend.Prelude.{ℕ, String, Bool, Option}
use triggerx_backend.Types.{SendTaskDataToKeeper}

pub record ProofData : Type 0 where
  pub task_id : ℕ
  pub proof_of_task : String
  pub certificate_hash : String
  pub certificate_timestamp : ℕ

pub record PerformerSignatureData : Type 0 where
  pub task_id : ℕ
  pub performer_signing_address : String
  pub performer_signature : String

abbrev pub empty_proof : ProofData
empty_proof = record {
  task_id = 0;
  proof_of_task = "";
  certificate_hash = "";
  certificate_timestamp = 0;
}

abbrev pub empty_signature : PerformerSignatureData
empty_signature = record { task_id = 0; performer_signing_address = ""; performer_signature = "" }

-- An X.509 certificate.
pub record Certificate : Type 0 where
  pub raw : String
  pub not_before : ℕ
  pub not_after : ℕ

module _ (Details : Type 0) where
  pub record PerformerActionData : Type 0 where
    pub action_tx_hash : String
    pub details : Details

  -- The four fields are pointers.
  pub record IpfsData : Type 0 where
    pub task_data : Option SendTaskDataToKeeper
    pub action_data : Option PerformerActionData
    pub proof_data : Option ProofData
    pub performer_signature : Option PerformerSignatureData

  pub record Services : Type 0 where
    -- The JSON of the data, as `json.Marshal` writes it, and with its strings in lower case.
    pub marshal_ipfs_data : IpfsData → Option String
    pub lower_json_of_task : SendTaskDataToKeeper → Option String
    pub lower_json_of_ipfs_data : IpfsData → Option String
    pub sha256_hex : String → String
    -- `SignMessage message key` and `VerifySignature message signature address`.
    pub sign_message : String → String → Option String
    pub verify_signature : String → String → String → Option Bool
    pub manager_signing_address : String
    pub hex_decode : String → Option String
    pub fetch : String → Option IpfsData
