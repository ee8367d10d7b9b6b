-- ===== src/Security/Retry.antt =====
-- withRetry of sdk/security/errors.ts, and how often it calls. The log line is left out. The number
-- that Math.random() gives for the retry k is random.draw k divided by random.scale, and a time with
-- its random part is counted in parts of a millisecond, 10 * random.scale to one.
use native.Mathlib.Decide.{ℕ_discrete}
use native.Mathlib.Nat.{mul-le-mul_left, mul-le-mul_right}
use ilr_module.Prelude.{
  ℕ, zero, suc, ◌+◌, ◌-◌, ◌*◌, ◌^◌, ◌<◌, ◌≤◌, ◌≡◌, refl, ap, Bool, true, false, ◌||◌, not, List, [],
  ◌∷◌, length, All, arith, leb, ◌==◌, if◌then◌else◌, ◌⊎◌, inl, inr, Bool-cases,
}
use ilr_module.Security.{
  ErrorCategory, network_timeout, network_connection_refused, network_rpc_error, oracle_unavailable,
  same_category, Failure, ilrm, other,
}

pub record RetryConfig : Type 0 where
  pub max_retries : ℕ
  pub base_delay : ℕ
  pub max_delay : ℕ
  pub backoff_multiplier : ℕ
  pub retryable_errors : List ErrorCategory

abbrev pub default_config : RetryConfig
default_config = record {
  max_retries = 3;
  base_delay = 1000;
  max_delay = 30000;
  backoff_multiplier = 2;
  retryable_errors =
      network_timeout ∷ network_connection_refused ∷ network_rpc_error ∷ oracle_unavailable ∷ [];
}

unfoldable pub includes : List ErrorCategory → ErrorCategory → Bool
includes [] category = false
includes (c ∷ cs) category = same_category c category || includes cs category

unfoldable pub is_retryable : RetryConfig → Failure → Bool
is_retryable config (ilrm category retryable) =
    retryable || includes config.retryable_errors category
is_retryable config other = true

unfoldable pub delay_of : RetryConfig → ℕ → ℕ
delay_of config attempt =
    let delay = config.base_delay * config.backoff_multiplier ^ attempt in
    if leb delay config.max_delay then delay else config.max_delay

-- The draws of Math.random(), by the number of the attempt that failed.
pub record Draws : Type 0 where
  pub scale : ℕ
  pub draw : ℕ → ℕ

-- Math.random() gives a number from 0 on that is below 1.
abbrev pub IsDraws : Draws → Type 0
IsDraws random = (k : ℕ) → random.draw k < random.scale

-- `delay + delay * 0.1 * (Math.random() * 2 - 1)`
unfoldable pub final_delay : RetryConfig → Draws → ℕ → ℕ
unfolding delay_of
final_delay config random attempt =
    let delay = delay_of config attempt in
    delay * (10 * random.scale) + delay * (2 * random.draw attempt) - delay * random.scale

-- What one call of `fn` does.
pub data Attempt {ℓ} (A : Type ℓ) : Type ℓ where
  value : A → Attempt A
  error : Failure → Attempt A

-- How withRetry ends. `unset` is the throw of lastError after the loop when no call was made.
pub data Ending {ℓ} (A : Type ℓ) : Type ℓ where
  ended : Attempt A → Ending A
  unset : Ending A

pub record Trace {ℓ} (A : Type ℓ) : Type ℓ where
  pub ending : Ending A
  pub delays : List ℕ

-- The waits of `n` retries that start with the attempt number `attempt`.
abbrev pub backoff : RetryConfig → Draws → ℕ → ℕ → List ℕ
backoff config random attempt zero = []
backoff config random attempt (suc n) =
    final_delay config random attempt ∷ backoff config random (attempt + 1) n

module _ {ℓ} {A : Type ℓ} where
  abbrev pub delayed : ℕ → Trace A → Trace A
  delayed d t = record { ending = t.ending; delays = d ∷ t.delays }

  abbrev pub stop : Attempt A → Trace A
  stop a = record { ending = ended a; delays = [] }

  -- The body of the loop: `rest` is what the following attempts do.
  abbrev pub decide : RetryConfig → Draws → ℕ → Attempt A → Trace A → Trace A
  decide config random attempt (value a) rest = stop (value a)
  decide config random attempt (error e) rest =
      if not (is_retryable config e) || (attempt == config.max_retries)
      then stop (error e)
      else delayed (final_delay config random attempt) rest

  -- `fn k` is what the call number k, counted from 0, does; `last` is lastError. The loop runs for
  -- max_retries + 1 attempts, the fuel that with_retry gives.
  unfoldable pub retry_loop : RetryConfig → Draws → (ℕ → Attempt A) → ℕ → ℕ → Ending A → Trace A
  retry_loop config random fn zero attempt last = record { ending = last; delays = [] }
  retry_loop config random fn (suc fuel) attempt last =
      decide config random attempt (fn attempt)
        (retry_loop config random fn fuel (attempt + 1) (ended (fn attempt)))

  unfoldable pub with_retry : RetryConfig → Draws → (ℕ → Attempt A) → Trace A
  with_retry config random fn = retry_loop config random fn (config.max_retries + 1) 0 unset

  -- The code goes on after such a call.
  abbrev pub IsRetried : RetryConfig → Attempt A → Type 0
  IsRetried config (value a) = ⊥
  IsRetried config (error e) = is_retryable config e ≡ true

  -- What the `n` calls from number `attempt` on do.
  abbrev pub outcomes : (ℕ → Attempt A) → ℕ → ℕ → List (Attempt A)
  outcomes fn attempt zero = []
  outcomes fn attempt (suc n) = fn attempt ∷ outcomes fn (attempt + 1) n

  IsRetried-cases :
      (config : RetryConfig) (a : Attempt A) → IsRetried config a ⊎ (¬ IsRetried config a)
  IsRetried-cases config (value a) = inr (λ h. h)
  IsRetried-cases config (error e) = elim (Bool-cases (is_retryable config e)) [
    | inl t ↦ inl t
    | inr f ↦ inr (λ t. absurd (ground (arith, t, f)))
  ]

  -- The run from `attempt` on: `count` retries, then the call that decides.
  pub record Run (config : RetryConfig) (random : Draws) (fn : ℕ → Attempt A) (attempt : ℕ)
      (t : Trace A) : Type ℓ where
    pub count : ℕ
    pub within : attempt + count ≤ config.max_retries
    pub retried : All (IsRetried config) (outcomes fn attempt count)
    pub decided :
        (¬ IsRetried config (fn (attempt + count))) ⊎ (attempt + count ≡ config.max_retries)
    pub ending : t.ending ≡ ended (fn (attempt + count))
    pub delays : t.delays ≡ backoff config random attempt count

  decide-stop :
      (config : RetryConfig) (random : Draws) (attempt : ℕ) (a : Attempt A) (rest : Trace A)
      → (¬ IsRetried config a) ⊎ (attempt ≡ config.max_retries)
      → decide config random attempt a rest ≡ stop a
  decide-stop config random attempt (value x) rest h = refl
  decide-stop config random attempt (error e) rest (inl n) =
      elim (Bool-cases (is_retryable config e)) [ inl t ↦ absurd (n t) | inr f ↦ rw f refl ]
  decide-stop config random attempt (error e) rest (inr m) =
      let test : (not (is_retryable config e) || (attempt == config.max_retries)) ≡ true =
        ground (arith, m) in
      rw test refl

  decide-retry :
      (config : RetryConfig) (random : Draws) (attempt : ℕ) (a : Attempt A) (rest : Trace A)
      → IsRetried config a
      → attempt < config.max_retries
      → decide config random attempt a rest ≡ delayed (final_delay config random attempt) rest
  decide-retry config random attempt (value x) rest h l = absurd h
  decide-retry config random attempt (error e) rest h l =
      let test : (not (is_retryable config e) || (attempt == config.max_retries)) ≡ false =
        ground (arith, h, l) in
      rw test refl

  Run-stop :
      (config : RetryConfig) (random : Draws) (fn : ℕ → Attempt A) (attempt : ℕ) (rest : Trace A)
      → attempt ≤ config.max_retries
      → (¬ IsRetried config (fn attempt)) ⊎ (attempt ≡ config.max_retries)
      → Run config random fn attempt (decide config random attempt (fn attempt) rest)
  Run-stop config random fn attempt rest l h =
      let here : attempt + 0 ≡ attempt = omega arith in
      record {
        count = 0;
        within = omega arith;
        retried = tt;
        decided = rw here h;
        ending = rw (here, decide-stop config random attempt (fn attempt) rest h) refl;
        delays = rw (decide-stop config random attempt (fn attempt) rest h) refl;
      }

  Run-retry :
      (config : RetryConfig) (random : Draws) (fn : ℕ → Attempt A) (attempt : ℕ) (rest : Trace A)
      → attempt < config.max_retries
      → IsRetried config (fn attempt)
      → Run config random fn (attempt + 1) rest
      → Run config random fn attempt (decide config random attempt (fn attempt) rest)
  Run-retry config random fn attempt rest l h r =
      let there : attempt + suc r.count ≡ attempt + 1 + r.count = omega arith in
      let step = decide-retry config random attempt (fn attempt) rest h l in
      record {
        count = suc r.count;
        within = omega (arith, r.within);
        retried = (h, r.retried);
        decided = rw there r.decided;
        ending = rw (there, step) r.ending;
        delays = rw step (ap (◌∷◌ (final_delay config random attempt)) r.delays);
      }

  retry_loop-Run :
      (config : RetryConfig) (random : Draws) (fn : ℕ → Attempt A) (fuel attempt : ℕ)
      (last : Ending A)
      → attempt ≤ config.max_retries
      → config.max_retries < attempt + fuel
      → Run config random fn attempt (retry_loop config random fn fuel attempt last)
  unfolding retry_loop
  retry_loop-Run config random fn zero attempt last l f = absurd (omega arith)
  retry_loop-Run config random fn (suc fuel) attempt last l f =
      elim (IsRetried-cases config (fn attempt)) [
        | inr n ↦ Run-stop config random fn attempt _ l (inl n)
        | inl y ↦ elim (ℕ_discrete attempt config.max_retries) [
          | yes e ↦ Run-stop config random fn attempt _ l (inr e)
          | no n ↦ Run-retry config random fn attempt _ (omega arith) y (
              retry_loop-Run config random fn fuel (attempt + 1) (ended (fn attempt)) (omega arith)
                (omega arith))
        ]
      ]

  -- withRetry ends with what the first call does that does not fail in a retryable way, or with what
  -- the last allowed call does when all before it fail so: that call has a number of at most
  -- max_retries, all earlier ones are retryable failures, and the waits are the delays of the backoff
  -- with their random parts, one for each of them.
  pub with_retry-Run :
      (config : RetryConfig) (random : Draws) (fn : ℕ → Attempt A)
      → Run config random fn 0 (with_retry config random fn)
  unfolding with_retry
  with_retry-Run config random fn =
      retry_loop-Run config random fn (config.max_retries + 1) 0 unset (omega arith) (omega arith)

delay_of-le : (config : RetryConfig) (attempt : ℕ) → delay_of config attempt ≤ config.max_delay
unfolding delay_of
delay_of-le config attempt = ground arith

-- The time that a wait lasts, in parts of a millisecond, is within a tenth of the delay.
pub record IsNear (scale delay wait : ℕ) : Type 0 where
  pub at_least : delay * (9 * scale) ≤ wait
  pub at_most : wait ≤ delay * (11 * scale)

final_delay-IsNear :
    (config : RetryConfig) (random : Draws) (attempt : ℕ)
    → IsDraws random
    → IsNear random.scale (delay_of config attempt) (final_delay config random attempt)
unfolding final_delay
final_delay-IsNear config random attempt h =
    let delay = delay_of config attempt in
    let drawn : delay * random.draw attempt ≤ delay * random.scale =
      mul-le-mul_left delay (omega (arith, h attempt)) in
    record { at_least = omega (arith, drawn); at_most = omega (arith, drawn) }

-- Each wait belongs to the attempt at its place.
abbrev pub AllNear : RetryConfig → Draws → ℕ → List ℕ → Type 0
AllNear config random attempt [] = Unit
AllNear config random attempt (wait ∷ waits) =
    (IsNear random.scale (delay_of config attempt) wait
      × (wait ≤ config.max_delay * (11 * random.scale)))
    × AllNear config random (attempt + 1) waits

backoff-AllNear :
    (config : RetryConfig) (random : Draws) (attempt n : ℕ)
    → IsDraws random
    → AllNear config random attempt (backoff config random attempt n)
backoff-AllNear config random attempt zero h = tt
backoff-AllNear config random attempt (suc n) h =
    let near = final_delay-IsNear config random attempt h in
    let capped : delay_of config attempt * (11 * random.scale)
        ≤ config.max_delay * (11 * random.scale) =
      mul-le-mul_right (11 * random.scale) (delay_of-le config attempt) in
    ((near, omega (arith, near.at_most, capped)), backoff-AllNear config random (attempt + 1) n h)

length-backoff :
    (config : RetryConfig) (random : Draws) (attempt n : ℕ)
    → length (backoff config random attempt n) ≡ n
length-backoff config random attempt zero = refl
length-backoff config random attempt (suc n) = ap suc (length-backoff config random (attempt + 1) n)

-- withRetry waits at most max_retries times. The wait after the attempt k is within a tenth of the
-- delay of this attempt, base_delay * backoff_multiplier ^ k but at most max_delay, and so at most
-- max_delay and a tenth of it: the random part can take it past max_delay.
pub with_retry-delays {ℓ} :
    {A : Type ℓ} (config : RetryConfig) (random : Draws) (fn : ℕ → Attempt A)
    → IsDraws random
    → (length (with_retry config random fn).delays ≤ config.max_retries)
      × AllNear config random 0 (with_retry config random fn).delays
with_retry-delays config random fn h =
    let r = with_retry-Run config random fn in
    (
      omega (arith, r.within, ap length r.delays, length-backoff config random 0 r.count),
      rw r.delays (backoff-AllNear config random 0 r.count h),
    )
