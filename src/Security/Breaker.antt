-- ===== src/Security/Breaker.antt =====
-- CircuitBreaker of sdk/security/errors.ts. Times are milliseconds.
pub mod Runs
pub mod Cycles
use ilr_module.Prelude.{
  ℕ, zero, suc, ◌+◌, Bool, true, false, Option, none, some, leb, if◌then◌else◌,
}
use ilr_module.Security.{Failure, or_default}

pub data CircuitState : Type 0 where
  closed open_ half_open : CircuitState

pub record BreakerConfig : Type 0 where
  pub failure_threshold : ℕ
  pub reset_timeout : ℕ
  pub half_open_requests : ℕ

pub record Breaker : Type 0 where
  pub state : CircuitState
  pub failure_count : ℕ
  pub last_failure_time : Option ℕ
  pub success_count : ℕ

-- The constructor of the class: the fields' initial values and the defaults of the options.
abbrev pub initial : Breaker
initial = record { state = closed; failure_count = 0; last_failure_time = none; success_count = 0 }

unfoldable pub configure : Option ℕ → Option ℕ → Option ℕ → BreakerConfig
configure failure_threshold reset_timeout half_open_requests = record {
  failure_threshold = or_default failure_threshold 5;
  reset_timeout = or_default reset_timeout 30000;
  half_open_requests = or_default half_open_requests 3;
}

-- now - last >= resetTimeout, on times whose difference may be negative.
unfoldable pub should_attempt_reset : BreakerConfig → ℕ → Breaker → Bool
should_attempt_reset config now b = elim b.last_failure_time [
  | none ↦ true
  | some last ↦ leb (last + config.reset_timeout) now
]

unfoldable pub reset : Breaker → Breaker
reset b = record {
  state = closed;
  failure_count = 0;
  last_failure_time = b.last_failure_time;
  success_count = 0;
}

abbrev pub clear_failures : Breaker → Breaker
clear_failures b = record {
  state = b.state;
  failure_count = 0;
  last_failure_time = b.last_failure_time;
  success_count = b.success_count;
}

abbrev pub count_success : BreakerConfig → Breaker → Breaker
count_success config b =
    let counted : Breaker = record {
      state = b.state;
      failure_count = b.failure_count;
      last_failure_time = b.last_failure_time;
      success_count = b.success_count + 1;
    } in
    if leb config.half_open_requests counted.success_count then reset counted else counted

unfoldable pub on_success : BreakerConfig → Breaker → Breaker
on_success config b = elim b.state [
  | half_open ↦ clear_failures (count_success config b)
  | _ ↦ clear_failures b
]

abbrev pub state_after_failure : BreakerConfig → ℕ → CircuitState → CircuitState
state_after_failure config failures half_open = open_
state_after_failure config failures closed =
    if leb config.failure_threshold failures then open_ else closed
state_after_failure config failures open_ =
    if leb config.failure_threshold failures then open_ else open_

unfoldable pub on_failure : BreakerConfig → ℕ → Breaker → Breaker
on_failure config now b = record {
  state = state_after_failure config (b.failure_count + 1) b.state;
  failure_count = b.failure_count + 1;
  last_failure_time = some now;
  success_count = b.success_count;
}

abbrev pub half_opened : Breaker → Breaker
half_opened b = record {
  state = half_open;
  failure_count = b.failure_count;
  last_failure_time = b.last_failure_time;
  success_count = b.success_count;
}

-- The part of execute before the call: `none` is the exception of an open breaker.
unfoldable pub admit : BreakerConfig → ℕ → Breaker → Option Breaker
admit config now b = elim b.state [
  | open_ ↦ if should_attempt_reset config now b then some (half_opened b) else none
  | _ ↦ some b
]

-- What the call does, and when it is over.
pub data Call {ℓ} (A : Type ℓ) : Type ℓ where
  returns : A → Call A
  throws : Failure → ℕ → Call A

pub data Executed {ℓ} (A : Type ℓ) : Type ℓ where
  returned : A → Executed A
  thrown : Failure → Executed A
  rejected : Executed A

abbrev pub finish {ℓ} : {A : Type ℓ} → BreakerConfig → Breaker → Call A → Executed A × Breaker
finish config b (returns a) = (returned a, on_success config b)
finish config b (throws e now) = (thrown e, on_failure config now b)

abbrev pub run {ℓ} :
    {A : Type ℓ} → BreakerConfig → Call A → Breaker → Option Breaker → Executed A × Breaker
run config call b none = (rejected, b)
run config call b (some admitted) = finish config admitted call

-- execute of a call that no other call overlaps.
unfoldable pub execute {ℓ} :
    {A : Type ℓ} → BreakerConfig → ℕ → Call A → Breaker → Executed A × Breaker
execute config now call b = run config call b (admit config now b)
