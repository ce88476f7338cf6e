-- ===== src/Nonce/Errors.antt =====
-- Which errors are retried: internal/keeper/core/execution/nonce_manager.go and
-- internal/keeper/core/validation/action.go. An error is its text, none for nil; the mapping to lower
-- case of Go's strings package is a parameter.
use triggerx_backend.Prelude.{
  ℕ, ◌≡◌, refl, String, Bool, true, false, ◌&&◌, ◌||◌, Option, none, some, List, [], ◌∷◌, ltb, any,
  ◌==◌, if◌then◌else◌,
}
use triggerx_backend.Prelude.Texts.{Text, text}

abbrev pub has_prefix : Text → Text → Bool
has_prefix [] s = true
has_prefix (c ∷ p) [] = false
has_prefix (c ∷ p) (d ∷ s) = c == d && has_prefix p s

-- `strings.Contains(s, p)`
unfoldable pub contains_text : Text → Text → Bool
contains_text p [] = has_prefix p []
contains_text p (c ∷ s) = has_prefix p (c ∷ s) || contains_text p s

unfoldable pub contains_any : List String → Text → Bool
unfolding contains_text
contains_any ps s = any (λ p. contains_text (text p) s) ps

abbrev pub network_issues : List String
network_issues = "connection" ∷ "timeout" ∷ "network" ∷ "dial" ∷ "refused" ∷ "unavailable" ∷ []

abbrev pub rate_limits : List String
rate_limits = "rate limit" ∷ "too many requests" ∷ "429" ∷ []

abbrev pub server_errors : List String
server_errors = "500" ∷ "502" ∷ "503" ∷ "504" ∷ []

abbrev pub nonce_issues : List String
nonce_issues = "nonce too low" ∷ "replacement transaction underpriced" ∷ "already known" ∷ []

abbrev pub not_found : List String
not_found = "not found" ∷ "unknown transaction" ∷ []

unfoldable pub is_nonce_too_low_error : Text → Bool
is_nonce_too_low_error e = contains_any nonce_issues e

module _ (lower : Text → Text) where
  abbrev pub rpc_retries : Text → Bool
  rpc_retries s =
      if contains_any network_issues s
      then true
      else if contains_any rate_limits s
      then true
      else contains_any server_errors s

  unfoldable pub should_retry_rpc_error : Option Text → ℕ → Bool
  should_retry_rpc_error none attempt = false
  should_retry_rpc_error (some e) attempt = rpc_retries (lower e)

  unfoldable pub should_retry_submission_error : Option Text → ℕ → Bool
  should_retry_submission_error none attempt = false
  should_retry_submission_error (some e) attempt =
      let s = lower e in
      if should_retry_rpc_error (some e) attempt
      then true
      else if ltb attempt 3 && contains_any nonce_issues s
      then true
      else if contains_any ("gas" ∷ []) s && contains_any ("estimate" ∷ "limit" ∷ []) s
      then true
      else contains_any ("insufficient funds" ∷ []) s && ltb attempt 2

  unfoldable pub should_retry_confirmation_error : Option Text → ℕ → Bool
  should_retry_confirmation_error none attempt = false
  should_retry_confirmation_error (some e) attempt =
      let s = lower e in
      if should_retry_rpc_error (some e) attempt
      then true
      else if contains_any not_found s
      then true
      else contains_any ("timeout" ∷ "deadline exceeded" ∷ []) s

  -- The retries of a receipt call by the validator.
  unfoldable pub should_retry_receipt_error : Option Text → ℕ → Bool
  should_retry_receipt_error none attempt = false
  should_retry_receipt_error (some e) attempt =
      let s = lower e in if rpc_retries s then true else contains_any not_found s

  -- An error that a call of the chain's node retries is retried, at any attempt, by the submission and
  -- the confirmation of a transaction and by the validator's receipt call.
  pub should_retry_rpc_error-everywhere :
      (e : Option Text) (i j : ℕ)
      → should_retry_rpc_error e i ≡ true
      → (should_retry_submission_error e j ≡ true)
        × (should_retry_confirmation_error e j ≡ true)
        × (should_retry_receipt_error e j ≡ true)
  unfolding should_retry_rpc_error should_retry_submission_error should_retry_confirmation_error
      should_retry_receipt_error
  should_retry_rpc_error-everywhere none i j h = cc
  should_retry_rpc_error-everywhere (some e) i j h = (rw h refl, rw h refl, rw h refl)

  -- An error of the nonce, in lower case, that is no error of the network, of gas or of funds, is
  -- retried by a submission at its first two attempts and refused from the third on.
  pub should_retry_submission_error-nonce :
      (e : Text) (attempt : ℕ)
      → lower e ≡ e
      → is_nonce_too_low_error e ≡ true
      → should_retry_rpc_error (some e) attempt ≡ false
      → contains_any ("gas" ∷ []) e ≡ false
      → contains_any ("insufficient funds" ∷ []) e ≡ false
      → should_retry_submission_error (some e) attempt ≡ ltb attempt 3
  unfolding should_retry_submission_error is_nonce_too_low_error
  should_retry_submission_error-nonce e attempt l n r g f = rw (r, l, n, g, f) (go (ltb attempt 3))
    where
      go : (b : Bool) → (if b && true then true else false) ≡ b
      go true = refl
      go false = refl
