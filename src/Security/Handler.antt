-- ===== src/Security/Handler.antt =====
-- ErrorHandler of sdk/security/errors.ts: what handle counts, logs, reports and checks, in order. The
-- SIEM and the daemon are clients of other services, whose failures handle catches.
use ilr_module.Prelude.{
  ℕ, ◌+◌, ◌≡◌, ◌∙◌, Bool, true, false, ◌&&◌, List, [], ◌∷◌, ◌++◌, Option, leb, if◌then◌else◌, arith,
}
use ilr_module.Security.{
  ErrorCategory, security_unauthorized, security_invalid_signature, security_replay_attack,
  security_mev_detected, security_fraud_attempt, system_internal, same_category, or_default,
}

abbrev pub debug : ℕ
debug = 0

abbrev pub medium : ℕ
medium = 5

abbrev pub high : ℕ
high = 7

abbrev pub critical : ℕ
critical = 9

-- The two fields of an ILRMError that handle reads, and any other Error.
pub data Raised : Type 0 where
  ilrm_error : ErrorCategory → ℕ → Raised
  plain_error : Raised

pub record HandlerConfig : Type 0 where
  pub has_siem : Bool
  pub has_daemon : Bool
  pub enable_siem_reporting : Bool
  pub enable_daemon_protection : Bool
  pub min_report_severity : Option ℕ
  pub has_on_error : Bool

pub data LogLevel : Type 0 where
  level_critical level_error level_warn level_info level_debug : LogLevel

pub data Effect : Type 0 where
  logged : LogLevel → Effect
  reported checked notified : ErrorCategory → Effect

-- The counts of `errorCounts`, 0 for a category that has no entry.
pub record Handler : Type 0 where
  pub error_counts : ErrorCategory → ℕ
  pub effects : List Effect

-- The category and the severity after the conversion of an error that is no ILRMError.
unfoldable pub converted : Raised → ErrorCategory × ℕ
converted (ilrm_error category severity) = (category, severity)
converted plain_error = (system_internal, medium)

unfoldable pub severity_to_log_level : ℕ → LogLevel
severity_to_log_level severity =
    if leb critical severity
    then level_critical
    else if leb high severity
    then level_error
    else if leb medium severity
    then level_warn
    else if leb 3 severity
    then level_info
    else level_debug

-- `category.startsWith('security.')`
abbrev is_security : ErrorCategory → Bool
is_security security_unauthorized = true
is_security security_invalid_signature = true
is_security security_replay_attack = true
is_security security_mev_detected = true
is_security security_fraud_attempt = true
is_security category = false

abbrev when : Bool → Effect → List Effect
when test effect = if test then effect ∷ [] else []

unfoldable pub effects_of : HandlerConfig → ErrorCategory → ℕ → List Effect
effects_of config category severity =
    logged (severity_to_log_level severity)
    ∷ (when
          (config.enable_siem_reporting
            && config.has_siem
            && leb (or_default config.min_report_severity medium) severity)
          (reported category)
        ++ when (config.enable_daemon_protection && config.has_daemon && is_security category)
            (checked category)
        ++ when config.has_on_error (notified category))

abbrev pub count_error : ErrorCategory → (ErrorCategory → ℕ) → ErrorCategory → ℕ
count_error category counts c = if same_category category c then counts c + 1 else counts c

unfoldable pub handle : HandlerConfig → Raised → Handler → Handler
handle config raised s =
    let (category, severity) = converted raised in
    record {
      error_counts = count_error category s.error_counts;
      effects = s.effects ++ effects_of config category severity;
    }

unfoldable pub handle_all : HandlerConfig → List Raised → Handler → Handler
handle_all config [] s = s
handle_all config (raised ∷ rest) s = handle_all config rest (handle config raised s)

-- How many of the errors are of a category: an ILRMError is of its own, and any other error is an
-- internal one of the system.
abbrev pub occurrences : ErrorCategory → List Raised → ℕ
occurrences c [] = 0
occurrences c (ilrm_error category severity ∷ rest) =
    (if same_category category c then 1 else 0) + occurrences c rest
occurrences c (plain_error ∷ rest) =
    (if same_category system_internal c then 1 else 0) + occurrences c rest

add_one : (b : Bool) (n k : ℕ) → (if b then n + 1 else n) + k ≡ n + ((if b then 1 else 0) + k)
add_one true n k = omega arith
add_one false n k = omega arith

-- After any errors, the count of each category has grown by the number of errors of this category,
-- where an error that is no ILRMError counts as an internal one.
pub handle_all-counts :
    (config : HandlerConfig) (errors : List Raised) (s : Handler) (c : ErrorCategory)
    → (handle_all config errors s).error_counts c ≡ s.error_counts c + occurrences c errors
unfolding handle_all handle converted
handle_all-counts config [] s c = omega arith
handle_all-counts config (ilrm_error category severity ∷ rest) s c =
    handle_all-counts config rest (handle config (ilrm_error category severity) s) c
    ∙ add_one (same_category category c) (s.error_counts c) (occurrences c rest)
handle_all-counts config (plain_error ∷ rest) s c =
    handle_all-counts config rest (handle config plain_error s) c
    ∙ add_one (same_category system_internal c) (s.error_counts c) (occurrences c rest)
