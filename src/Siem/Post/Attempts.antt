-- ===== src/Siem/Post/Attempts.antt =====
-- The attempts of postWithRetry, sdk/security/boundary-siem.ts, and its delays.
use ilr_module.Prelude.{
  ℕ, zero, suc, ◌+◌, ◌*◌, ◌^◌, ◌<◌, ◌≤◌, ◌≡◌, ◌⊎◌, refl, sym, subst, ap, List, [], ◌∷◌, Bool-cases,
  inl, inr, ltb, ltb→lt, All, arith,
}
use ilr_module.Siem.Post.{
  Fetched, Posted, response, throws, SiemResponse, PostError, Run, post, waited, retry_or_throw,
  after_attempt, post_loop, post_with_retry,
}

abbrev pub IsResponse : Posted → Type 0
IsResponse (response r) = Unit
IsResponse (throws e) = ⊥

abbrev pub Throws : Posted → Type 0
Throws (response r) = ⊥
Throws (throws e) = Unit

-- What the attempts from `attempt` on come to, `count` of them.
abbrev pub posts : (ℕ → Fetched) → ℕ → ℕ → List Posted
posts server attempt zero = []
posts server attempt (suc count) = post (server attempt) ∷ posts server (attempt + 1) count

-- The delays after the attempts from `attempt` on.
abbrev pub backoffs : ℕ → ℕ → ℕ → List ℕ
backoffs retry_delay attempt zero = []
backoffs retry_delay attempt (suc count) =
    (retry_delay * 2 ^ attempt) ∷ backoffs retry_delay (attempt + 1) count

Posted-cases :
    (p : Posted) → ((r : SiemResponse) × (p ≡ response r)) ⊎ ((e : PostError) × (p ≡ throws e))
Posted-cases (response r) = inl (r, refl)
Posted-cases (throws e) = inr (e, refl)

module _ (server : ℕ → Fetched) (max_retries retry_delay : ℕ) where
  -- The end of the loop that starts with `attempt`: `count` attempts throw, and the next one either
  -- responds or is the last.
  pub record Ended (attempt : ℕ) (run : Run) : Type 0 where
    pub count : ℕ
    pub within : attempt + count ≤ max_retries
    pub before : All Throws (posts server attempt count)
    pub last : IsResponse (post (server (attempt + count))) ⊎ (attempt + count ≡ max_retries)
    pub result : run.result ≡ post (server (attempt + count))
    pub delays : run.delays ≡ backoffs retry_delay attempt count

  ended_here :
      (attempt : ℕ)
      → attempt ≤ max_retries
      → IsResponse (post (server attempt)) ⊎ (attempt ≡ max_retries)
      → Ended attempt (record { result = post (server attempt); delays = [] })
  ended_here attempt l h =
      let e : attempt + 0 ≡ attempt = omega arith in
      record {
        count = 0;
        within = omega arith;
        before = tt;
        last = rw e h;
        result = rw e refl;
        delays = refl;
      }

  ended_later :
      (attempt : ℕ) (run : Run)
      → Throws (post (server attempt))
      → Ended (attempt + 1) run
      → Ended attempt (waited (retry_delay * 2 ^ attempt) run)
  unfolding waited
  ended_later attempt run t h =
      let e : attempt + suc h.count ≡ attempt + 1 + h.count = omega arith in
      record {
        count = suc h.count;
        within = omega (arith, h.within);
        before = (t, h.before);
        last = rw e h.last;
        result = rw e h.result;
        delays = ap (λ ds. (retry_delay * 2 ^ attempt) ∷ ds) h.delays;
      }

  step :
      (attempt : ℕ) (run : Run)
      → attempt ≤ max_retries
      → (attempt < max_retries → Ended (attempt + 1) run)
      → Ended attempt (
          after_attempt
            (post (server attempt))
            (ltb attempt max_retries)
            (retry_delay * 2 ^ attempt)
            run)
  unfolding after_attempt retry_or_throw
  step attempt run l rest = elim (Posted-cases (post (server attempt))) [
    | inl responded ↦
        rw responded.1
          (rw responded.1 at (ended_here attempt l (inl (subst IsResponse (sym responded.1) tt))))
    | inr thrown ↦ elim (Bool-cases (ltb attempt max_retries)) [
      | inl more ↦
          rw (thrown.1, more)
            (ended_later attempt run (subst Throws (sym thrown.1) tt) (rest (ltb→lt _ _ more)))
      | inr last ↦ rw (thrown.1, last) (rw thrown.1 at (ended_here attempt l (inr (ground arith))))
    ]
  ]

  loop_ended :
      (left attempt : ℕ)
      → attempt + left ≡ suc max_retries
      → attempt ≤ max_retries
      → Ended attempt (post_loop server max_retries retry_delay left attempt)
  unfolding post_loop
  loop_ended zero attempt e l = absurd (omega arith)
  loop_ended (suc left) attempt e l =
      step attempt _ l (λ more. loop_ended left (attempt + 1) (omega arith) (omega arith))

-- postWithRetry ends with the attempt number `count`, which is at most maxRetries: all attempts
-- before it throw, it responds or is the last one allowed, and its result, a response or an error,
-- is the result. The delays are retryDelay * 2 ^ i after the attempt i, for each attempt before it.
pub post_with_retry-Ended :
    (max_retries retry_delay : ℕ) (server : ℕ → Fetched)
    → Ended server max_retries retry_delay 0 (post_with_retry max_retries retry_delay server)
unfolding post_with_retry
post_with_retry-Ended max_retries retry_delay server =
    loop_ended server max_retries retry_delay (max_retries + 1) 0 (omega arith) (omega arith)
