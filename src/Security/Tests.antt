-- ===== src/Security/Tests.antt =====
-- Runs of the circuit breaker and of the retries.
use ilr_module.Prelude.{
  ℕ, zero, suc, ◌+◌, ◌≤◌, ◌≡◌, ◌≢◌, ◌==◌, if◌then◌else◌, refl, arith, true, false, List, [], ◌∷◌,
  some, length,
}
use ilr_module.Security.{ilrm, other, validation_invalid_input, system_internal}
use ilr_module.Security.Handler.{
  HandlerConfig, Handler, Raised, plain_error, ilrm_error, debug, effects_of, severity_to_log_level,
  logged, level_info, handle_all, handle_all-counts, occurrences,
}
use ilr_module.Security.Breaker.{
  closed, open_, BreakerConfig, Breaker, initial, on_failure, execute, returns, throws, rejected,
}
use ilr_module.Security.Breaker.Runs.{
  IsConfig, IsValid, Reachable, start, next, failed, Reachable-IsValid,
}
use ilr_module.Security.Breaker.Cycles.{
  failures, failures-state, returning, returning-recovers, Started, execute_all, refusals,
  execute_all-open,
}
use ilr_module.Security.Retry.{
  default_config, Attempt, value, error, with_retry, retry_loop, is_retryable, includes,
  final_delay, delay_of, Draws, IsDraws, AllNear, Run, with_retry-Run, with_retry-delays,
}

abbrev config : BreakerConfig
config = record { failure_threshold = 2; reset_timeout = 1000; half_open_requests = 2 }

config-IsConfig : IsConfig config
config-IsConfig = (omega arith, omega arith)

abbrev tripped : Breaker
tripped = on_failure config 20 (on_failure config 10 initial)

tripped-Reachable : Reachable config tripped
tripped-Reachable =
    next (on_failure config 10 initial) tripped
      (next initial (on_failure config 10 initial) start (failed 10 initial))
      (failed 20 (on_failure config 10 initial))

tripped-open : tripped.state ≡ open_
unfolding on_failure
tripped-open = refl

tripped-time : tripped.last_failure_time ≡ some 20
unfolding on_failure
tripped-time = refl

Reachable-IsValid_example : IsValid config tripped
Reachable-IsValid_example = Reachable-IsValid config config-IsConfig tripped tripped-Reachable

failures-state_example : (failures config (10 ∷ 20 ∷ []) initial).state ≡ open_
failures-state_example = failures-state config initial (10 ∷ 20 ∷ []) config-IsConfig start refl

returning-recovers_example : (returning config (1020 ∷ 1030 ∷ []) tripped).state ≡ closed
returning-recovers_example =
    returning-recovers config tripped 20 1020 (1030 ∷ []) config-IsConfig tripped-Reachable
      tripped-open tripped-time (omega arith) (omega arith)

abbrev refused_call : Started ℕ
refused_call = (500, throws other 600)

execute_all-open_example :
    (execute_all config (refused_call ∷ []) (failures config (10 ∷ 20 ∷ []) initial)
      ≡ (refusals (refused_call ∷ []), failures config (10 ∷ 20 ∷ []) initial))
    × ((execute {A = ℕ} config 1020
          (returns 9)
          (execute_all config (refused_call ∷ []) (failures config (10 ∷ 20 ∷ []) initial)).1).0
        ≢ rejected)
execute_all-open_example =
    execute_all-open config initial (10 ∷ []) 20 (refused_call ∷ []) 1020 (returns 9)
      config-IsConfig start refl (omega arith) (omega arith, tt) (omega arith)

-- Two failures that are retried, and a value.
abbrev service : ℕ → Attempt ℕ
service zero = error other
service (suc zero) = error (ilrm validation_invalid_input true)
service (suc (suc k)) = value 9

-- Math.random() gives 0.25, and then 0.75.
abbrev draws : Draws
draws = record { scale = 4; draw = λ k. if k == 0 then 1 else 3 }

draws-IsDraws : IsDraws draws
draws-IsDraws k = ground arith

with_retry-Run_example :
    Run default_config draws service 0 (with_retry default_config draws service)
with_retry-Run_example = with_retry-Run default_config draws service

with_retry-delays_example :
    (length (with_retry default_config draws service).delays ≤ 3)
    × AllNear default_config draws 0 (with_retry default_config draws service).delays
with_retry-delays_example = with_retry-delays default_config draws service draws-IsDraws

-- 1000 milliseconds less a twentieth, and 2000 and a twentieth of it more, in parts of 1 / 40.
with_retry_run : (with_retry default_config draws service).delays ≡ 38000 ∷ 84000 ∷ []
unfolding with_retry retry_loop is_retryable includes final_delay delay_of
with_retry_run = refl

abbrev handler_config : HandlerConfig
handler_config = record {
  has_siem = true;
  has_daemon = false;
  enable_siem_reporting = true;
  enable_daemon_protection = true;
  min_report_severity = some debug;
  has_on_error = false;
}

abbrev new_handler : Handler
new_handler = record { error_counts = λ c. 0; effects = [] }

abbrev errors : List Raised
errors = plain_error ∷ ilrm_error system_internal 9 ∷ ilrm_error validation_invalid_input 3 ∷ []

-- A threshold of debug reports no more than medium does.
low_not_reported : effects_of handler_config validation_invalid_input 3 ≡ logged level_info ∷ []
unfolding effects_of severity_to_log_level
low_not_reported = refl

handle_all-counts_example :
    (handle_all handler_config errors new_handler).error_counts system_internal
    ≡ 0 + occurrences system_internal errors
handle_all-counts_example = handle_all-counts handler_config errors new_handler system_internal
