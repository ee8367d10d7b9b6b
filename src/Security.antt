-- ===== src/Security.antt =====
-- The error handling of sdk/security/errors.ts: the errors, the circuit breaker and the retries.
mod Breaker
mod Retry
mod Handler
mod Tests
use ilr_module.Prelude.{ℕ, zero, suc, Bool, true, false, Option, none, some, ◌==◌}

-- The categories, in the order of the source.
pub data ErrorCategory : Type 0 where
  contract_revert contract_out_of_gas contract_invalid_state : ErrorCategory
  network_timeout network_connection_refused network_rpc_error : ErrorCategory
  security_unauthorized security_invalid_signature security_replay_attack : ErrorCategory
  security_mev_detected security_fraud_attempt : ErrorCategory
  validation_invalid_input validation_schema_mismatch validation_bounds_exceeded : ErrorCategory
  oracle_stale_data oracle_manipulation oracle_unavailable : ErrorCategory
  bridge_state_mismatch bridge_proof_invalid bridge_sequencer_error : ErrorCategory
  system_internal system_configuration system_resource_exhausted : ErrorCategory

-- Two categories are the same string exactly when they have the same position.
abbrev position : ErrorCategory → ℕ
position contract_revert = 0
position contract_out_of_gas = 1
position contract_invalid_state = 2
position network_timeout = 3
position network_connection_refused = 4
position network_rpc_error = 5
position security_unauthorized = 6
position security_invalid_signature = 7
position security_replay_attack = 8
position security_mev_detected = 9
position security_fraud_attempt = 10
position validation_invalid_input = 11
position validation_schema_mismatch = 12
position validation_bounds_exceeded = 13
position oracle_stale_data = 14
position oracle_manipulation = 15
position oracle_unavailable = 16
position bridge_state_mismatch = 17
position bridge_proof_invalid = 18
position bridge_sequencer_error = 19
position system_internal = 20
position system_configuration = 21
position system_resource_exhausted = 22

abbrev pub same_category : ErrorCategory → ErrorCategory → Bool
same_category a b = position a == position b

-- An exception: an ILRMError, of which the code reads the category and the retryable flag, or
-- another Error.
pub data Failure : Type 0 where
  ilrm : ErrorCategory → Bool → Failure
  other : Failure

-- `option || fallback`: an option that is absent or 0 gives the fallback.
abbrev pub or_default : Option ℕ → ℕ → ℕ
or_default none fallback = fallback
or_default (some zero) fallback = fallback
or_default (some (suc n)) fallback = suc n
