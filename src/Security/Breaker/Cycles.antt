-- ===== src/Security/Breaker/Cycles.antt =====
-- When the circuit breaker opens, refuses, probes and closes again.
use ilr_module.Prelude.{
  ℕ, suc, ◌+◌, ◌≤◌, ◌<◌, ◌≡◌, ◌≢◌, ◌++◌, All, refl, sym, ap, ◌∙◌, subst, true, false, Option, none,
  some, List, [], ◌∷◌, length, leb, ltb, if◌then◌else◌, arith, Bool-cases, inl, inr,
}
use ilr_module.Security.Breaker.{
  CircuitState, closed, open_, half_open, BreakerConfig, Breaker, should_attempt_reset, reset,
  on_success, on_failure, admit, run, Call, state_after_failure, returns, throws, Executed,
  rejected, execute,
}
use ilr_module.Security.Breaker.Runs.{
  IsConfig, IsValid, StateValid, breaker, Reachable, Reachable-IsValid,
}

-- Failures one after the other, each at its time.
abbrev pub failures : BreakerConfig → List ℕ → Breaker → Breaker
failures c [] b = b
failures c (now ∷ times) b = failures c times (on_failure c now b)

failure_in :
    (c : BreakerConfig) (s : CircuitState) (now f : ℕ) (l : Option ℕ) (n : ℕ) (t : CircuitState)
    → state_after_failure c (f + 1) s ≡ t
    → on_failure c now (breaker s f l n) ≡ breaker t (f + 1) (some now) n
unfolding on_failure
failure_in c s now f l n t e = ap (λ x. breaker x (f + 1) (some now) n) e

stays_open : (c : BreakerConfig) (f : ℕ) → state_after_failure c f open_ ≡ open_
stays_open c f = elim (Bool-cases (leb c.failure_threshold f)) [
  | inl t ↦ rw t refl
  | inr t ↦ rw t refl
]

failures-open :
    (c : BreakerConfig) (times : List ℕ) (f : ℕ) (l : Option ℕ) (n : ℕ)
    → (failures c times (breaker open_ f l n)).state ≡ open_
failures-open c [] f l n = refl
failures-open c (now ∷ times) f l n =
    ap (λ b. (failures c times b).state) (failure_in c open_ now f l n open_ (stays_open c (f + 1)))
    ∙ failures-open c times (f + 1) (some now) n

failures_from :
    (c : BreakerConfig) (times : List ℕ) (f : ℕ) (l : Option ℕ) (n : ℕ)
    → f < c.failure_threshold
    → (failures c times (breaker closed f l n)).state
      ≡ (if ltb (f + length times) c.failure_threshold then closed else open_)
failures_from c [] f l n h = ground arith
failures_from c (now ∷ times) f l n h = elim (Bool-cases (leb c.failure_threshold (f + 1))) [
  | inl t ↦
      let full : ltb (f + suc (length times)) c.failure_threshold ≡ false = ground (arith, t) in
      ap (λ b. (failures c times b).state)
        (failure_in c closed now f l n open_ (ap (λ x. if x then open_ else closed) t))
      ∙ failures-open c times (f + 1) (some now) n
      ∙ sym (ap (λ x. if x then closed else open_) full)
  | inr t ↦
      ap (λ b. (failures c times b).state)
        (failure_in c closed now f l n closed (ap (λ x. if x then open_ else closed) t))
      ∙ failures_from c times (f + 1) (some now) n (ground (arith, t))
      ∙ ap (λ k. if ltb k c.failure_threshold then closed else open_) (omega arith)
]

closed-StateValid :
    (c : BreakerConfig) (b : Breaker) → b.state ≡ closed → IsValid c b → StateValid c closed b
closed-StateValid c b e v = subst (λ s. StateValid c s b) e v.in_state

-- A reachable closed breaker that sees failures and no success opens with the failure that makes
-- the count reach the threshold, and not before.
pub failures-state :
    (c : BreakerConfig) (b : Breaker) (times : List ℕ)
    → IsConfig c
    → Reachable c b
    → b.state ≡ closed
    → (failures c times b).state
      ≡ (if ltb (b.failure_count + length times) c.failure_threshold then closed else open_)
failures-state c b times h r e =
    let v = closed-StateValid c b e (Reachable-IsValid c h b r) in
    ap
      (λ s.
        (failures c times (breaker s b.failure_count b.last_failure_time b.success_count)).state)
      e
    ∙ failures_from c times b.failure_count b.last_failure_time b.success_count v.0

-- Calls that return, one after the other, each started at its time.
abbrev pub returning : BreakerConfig → List ℕ → Breaker → Breaker
returning c [] b = b
returning c (now ∷ times) b = returning c times (execute c now (returns now) b).1

returning-closed :
    (c : BreakerConfig) (times : List ℕ) (f : ℕ) (l : Option ℕ) (n : ℕ)
    → (returning c times (breaker closed f l n)).state ≡ closed
unfolding execute admit on_success
returning-closed c [] f l n = refl
returning-closed c (now ∷ times) f l n = returning-closed c times 0 l n

success_closes :
    (c : BreakerConfig) (now f : ℕ) (l : Option ℕ) (n : ℕ)
    → leb c.half_open_requests (n + 1) ≡ true
    → (execute c now (returns now) (breaker half_open f l n)).1 ≡ breaker closed 0 l 0
unfolding execute admit on_success reset
success_closes c now f l n t = rw t refl

success_counts :
    (c : BreakerConfig) (now f : ℕ) (l : Option ℕ) (n : ℕ)
    → leb c.half_open_requests (n + 1) ≡ false
    → (execute c now (returns now) (breaker half_open f l n)).1 ≡ breaker half_open 0 l (n + 1)
unfolding execute admit on_success reset
success_counts c now f l n t = rw t refl

returning_from :
    (c : BreakerConfig) (times : List ℕ) (f : ℕ) (l : Option ℕ) (n : ℕ)
    → n < c.half_open_requests
    → (returning c times (breaker half_open f l n)).state
      ≡ (if ltb (n + length times) c.half_open_requests then half_open else closed)
returning_from c [] f l n h = ground arith
returning_from c (now ∷ times) f l n h = elim (Bool-cases (leb c.half_open_requests (n + 1))) [
  | inl t ↦
      let full : ltb (n + suc (length times)) c.half_open_requests ≡ false = ground (arith, t) in
      ap (λ b. (returning c times b).state) (success_closes c now f l n t)
      ∙ returning-closed c times 0 l 0
      ∙ sym (ap (λ x. if x then half_open else closed) full)
  | inr t ↦
      ap (λ b. (returning c times b).state) (success_counts c now f l n t)
      ∙ returning_from c times 0 l (n + 1) (ground (arith, t))
      ∙ ap (λ k. if ltb k c.half_open_requests then half_open else closed) (omega arith)
]

admit-late :
    (c : BreakerConfig) (now last : ℕ) (b : Breaker)
    → b.state ≡ open_
    → b.last_failure_time ≡ some last
    → last + c.reset_timeout ≤ now
    → admit c now b ≡ some (breaker half_open b.failure_count b.last_failure_time b.success_count)
unfolding admit should_attempt_reset
admit-late c now last b e known p = ground (arith, e, known, p)

admit-early :
    (c : BreakerConfig) (now last : ℕ) (b : Breaker)
    → b.state ≡ open_
    → b.last_failure_time ≡ some last
    → now < last + c.reset_timeout
    → admit c now b ≡ none
unfolding admit should_attempt_reset
admit-early c now last b e known p = ground (arith, e, known, p)

-- A reachable open breaker is closed after calls that all return, when the first of them starts at
-- least `reset_timeout` after the last failure and there are at least `half_open_requests` of them.
pub returning-recovers :
    (c : BreakerConfig) (b : Breaker) (last now : ℕ) (times : List ℕ)
    → IsConfig c
    → Reachable c b
    → b.state ≡ open_
    → b.last_failure_time ≡ some last
    → last + c.reset_timeout ≤ now
    → c.half_open_requests ≤ length (now ∷ times)
    → (returning c (now ∷ times) b).state ≡ closed
unfolding execute
returning-recovers c b last now times h r e known p q =
    let probe = breaker half_open b.failure_count b.last_failure_time b.success_count in
    let first : execute c now (returns now) b ≡ execute c now (returns now) probe =
      ap (run c (returns now) b) (admit-late c now last b e known p) ∙ unfold admit in refl in
    let full : ltb (b.success_count + length (now ∷ times)) c.half_open_requests ≡ false =
      ground arith in
    ap (λ (x : Executed ℕ × Breaker). (returning c times x.1).state) first
    ∙ returning_from c (now ∷ times) b.failure_count b.last_failure_time b.success_count
        (Reachable-IsValid c h b r).counted
    ∙ ap (λ x. if x then half_open else closed) full

-- The last failure of an open breaker gives the time from which it stays open.
failures-last :
    (c : BreakerConfig) (times : List ℕ) (last : ℕ) (b : Breaker)
    → (failures c (times ++ last ∷ []) b).last_failure_time ≡ some last
unfolding on_failure
failures-last c [] last b = refl
failures-last c (now ∷ times) last b = failures-last c times last (on_failure c now b)

-- A call with the time of its start.
abbrev pub Started : Type 0 → Type 0
Started A = ℕ × Call A

-- Calls one after the other: what each gives, and the breaker after the last.
unfoldable pub execute_all :
    {A : Type 0} → BreakerConfig → List (Started A) → Breaker → List (Executed A) × Breaker
execute_all c [] b = ([], b)
execute_all c ((now, call) ∷ calls) b =
    let first = execute c now call b in
    let rest = execute_all c calls first.1 in (first.0 ∷ rest.0, rest.1)

abbrev pub refusals : {A : Type 0} → List (Started A) → List (Executed A)
refusals [] = []
refusals (call ∷ calls) = rejected ∷ refusals calls

execute_all-early :
    {A : Type 0} (c : BreakerConfig) (b : Breaker) (last : ℕ) (calls : List (Started A))
    → b.state ≡ open_
    → b.last_failure_time ≡ some last
    → All (λ (call : Started A). call.0 < last + c.reset_timeout) calls
    → execute_all c calls b ≡ (refusals calls, b)
unfolding execute_all execute
execute_all-early c b last [] e known early = refl
execute_all-early {A} c b last ((now, call) ∷ calls) e known early =
    let first : execute c now call b ≡ (rejected, b) =
      ap (run c call b) (admit-early c now last b e known early.0) in
    let rest = execute_all-early c b last calls e known early.1 in
    ap
      (λ (x : Executed A × Breaker).
        (x.0 ∷ (execute_all c calls x.1).0, (execute_all c calls x.1).1))
      first
    ∙ ap (λ (x : List (Executed A) × Breaker). (rejected ∷ x.0, x.1)) rest

run_made :
    {A : Type 0} (c : BreakerConfig) (call : Call A) (b admitted : Breaker)
    → (run c call b (some admitted)).0 ≢ rejected
run_made c (returns a) b admitted e = cc
run_made c (throws x later) b admitted e = cc

-- A reachable closed breaker that sees failures and no success, up to the threshold and the last of
-- them at the time `last`, then refuses every call, whether it would return or throw, that starts
-- before this failure is `reset_timeout` old, and is not changed by these calls; and it makes a call
-- that starts at that age or later.
pub execute_all-open :
    {A : Type 0} (c : BreakerConfig) (b : Breaker) (times : List ℕ) (last : ℕ)
    (calls : List (Started A)) (now : ℕ) (call : Call A)
    → IsConfig c
    → Reachable c b
    → b.state ≡ closed
    → c.failure_threshold ≤ b.failure_count + length (times ++ last ∷ [])
    → All (λ (call : Started A). call.0 < last + c.reset_timeout) calls
    → last + c.reset_timeout ≤ now
    → let opened = failures c (times ++ last ∷ []) b in
      (execute_all c calls opened ≡ (refusals calls, opened))
      × ((execute c now call (execute_all c calls opened).1).0 ≢ rejected)
unfolding execute
execute_all-open {A} c b times last calls now call h r e enough early late =
    let opened = failures c (times ++ last ∷ []) b in
    let full : ltb (b.failure_count + length (times ++ last ∷ [])) c.failure_threshold ≡ false =
      ground (arith, enough) in
    let state : opened.state ≡ open_ =
      failures-state c b (times ++ last ∷ []) h r e ∙ ap (λ x. if x then closed else open_) full in
    let known = failures-last c times last b in
    let refused = execute_all-early c opened last calls state known early in
    (
      refused,
      λ k. run_made c call opened _ (
          sym (
            ap (λ (x : List (Executed A) × Breaker). (execute c now call x.1).0) refused
            ∙ ap (λ t. (run c call opened t).0) (admit-late c now last opened state known late))
          ∙ k),
    )
