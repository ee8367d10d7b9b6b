-- ===== src/Security/Breaker/Runs.antt =====
-- What the circuit breaker keeps over any interleaving of calls, and when it opens and closes.
use ilr_module.Prelude.{
  ℕ, zero, suc, ◌+◌, ◌<◌, ◌≡◌, ◌≢◌, refl, sym, Option, none, some, leb, arith, Bool-cases, inl, inr,
  subst,
}
use ilr_module.Security.Breaker.{
  CircuitState, closed, open_, half_open, BreakerConfig, Breaker, initial, configure,
  should_attempt_reset, reset, on_success, on_failure, admit,
}

abbrev pub IsConfig : BreakerConfig → Type 0
IsConfig c = (0 < c.failure_threshold) × (0 < c.half_open_requests)

pub configure-IsConfig : (f r h : Option ℕ) → IsConfig (configure f r h)
unfolding configure
configure-IsConfig f r h = (positive f 5 (omega arith), positive h 3 (omega arith))
  where
    positive : (o : Option ℕ) (d : ℕ) → 0 < d → 0 < ilr_module.Security.or_default o d
    positive none d p = p
    positive (some zero) d p = p
    positive (some (suc n)) d p = omega arith

-- Closed: fewer failures than the threshold and no success counted. Else: a failure has a time.
abbrev pub StateValid : BreakerConfig → CircuitState → Breaker → Type 0
StateValid c closed b = (b.failure_count < c.failure_threshold) × (b.success_count ≡ 0)
StateValid c open_ b = b.last_failure_time ≢ none
StateValid c half_open b = b.last_failure_time ≢ none

pub record IsValid (c : BreakerConfig) (b : Breaker) : Type 0 where
  pub counted : b.success_count < c.half_open_requests
  pub in_state : StateValid c b.state b

-- One step of the breaker while any number of calls are under way: a call is admitted or
-- rejected, and a call that was admitted earlier returns or throws.
pub data Step (c : BreakerConfig) : Breaker → Breaker → Type 0 where
  admitted : (now : ℕ) (b b' : Breaker) → admit c now b ≡ some b' → Step c b b'
  refused : (now : ℕ) (b : Breaker) → admit c now b ≡ none → Step c b b
  succeeded : (b : Breaker) → Step c b (on_success c b)
  failed : (now : ℕ) (b : Breaker) → Step c b (on_failure c now b)

pub data Reachable (c : BreakerConfig) : Breaker → Type 0 where
  start : Reachable c initial
  next : (b b' : Breaker) → Reachable c b → Step c b b' → Reachable c b'

initial-IsValid : (c : BreakerConfig) → IsConfig c → IsValid c initial
initial-IsValid c h = record { counted = h.1; in_state = (h.0, refl) }

some_injective {ℓ} : {A : Type ℓ} (a b : A) → some a ≡ some b → a ≡ b
some_injective a b e = ground (arith, e)

pub some_ne_none {ℓ} : {A : Type ℓ} (a : A) → some a ≢ none
some_ne_none a e = absurd (ground (arith, e))

-- A breaker given by its fields, so that its state can be split.
abbrev pub breaker : CircuitState → ℕ → Option ℕ → ℕ → Breaker
breaker s f l n = record { state = s; failure_count = f; last_failure_time = l; success_count = n }

success_fields :
    (c : BreakerConfig)
    → IsConfig c
    → (s : CircuitState) (f : ℕ) (l : Option ℕ) (n : ℕ) → n < c.half_open_requests
    → StateValid c s (breaker s f l n)
    → IsValid c (on_success c (breaker s f l n))
unfolding on_success reset
success_fields c h closed f l n p v = record { counted = p; in_state = (h.0, v.1) }
success_fields c h open_ f l n p v = record { counted = p; in_state = v }
success_fields c h half_open f l n p v = elim (Bool-cases (leb c.half_open_requests (n + 1))) [
  | inl t ↦ rw t (record { counted = h.1; in_state = (h.0, refl) })
  | inr t ↦ rw t (record { counted = ground (arith, t); in_state = v })
]

failure_fields :
    (c : BreakerConfig) (now : ℕ) (s : CircuitState) (f : ℕ) (l : Option ℕ) (n : ℕ)
    → n < c.half_open_requests
    → StateValid c s (breaker s f l n)
    → IsValid c (on_failure c now (breaker s f l n))
unfolding on_failure
failure_fields c now closed f l n p v = elim (Bool-cases (leb c.failure_threshold (f + 1))) [
  | inl t ↦ rw t (record { counted = p; in_state = some_ne_none now })
  | inr t ↦ rw t (record { counted = p; in_state = (ground (arith, t), v.1) })
]
failure_fields c now open_ f l n p v = elim (Bool-cases (leb c.failure_threshold (f + 1))) [
  | inl t ↦ rw t (record { counted = p; in_state = some_ne_none now })
  | inr t ↦ rw t (record { counted = p; in_state = some_ne_none now })
]
failure_fields c now half_open f l n p v = record { counted = p; in_state = some_ne_none now }

admit_fields :
    (c : BreakerConfig) (now : ℕ) (s : CircuitState) (f : ℕ) (l : Option ℕ) (n : ℕ) (b : Breaker)
    → n < c.half_open_requests
    → StateValid c s (breaker s f l n)
    → admit c now (breaker s f l n) ≡ some b
    → IsValid c b
unfolding admit
admit_fields c now closed f l n b p v e =
    subst (IsValid c) (some_injective _ b e) (record { counted = p; in_state = v })
admit_fields c now half_open f l n b p v e =
    subst (IsValid c) (some_injective _ b e) (record { counted = p; in_state = v })
admit_fields c now open_ f l n b p v e =
    elim (Bool-cases (should_attempt_reset c now (breaker open_ f l n))) [
      | inl t ↦
          subst (IsValid c) (some_injective (breaker half_open f l n) b (rw t at e))
            (record { counted = p; in_state = v })
      | inr t ↦ absurd (some_ne_none b (sym (rw t at e)))
    ]

Step-IsValid :
    (c : BreakerConfig) → IsConfig c → (b b' : Breaker) → IsValid c b → Step c b b' → IsValid c b'
Step-IsValid c h b b' v (admitted now _ _ e) =
    admit_fields c now b.state b.failure_count b.last_failure_time b.success_count b' v.counted
      v.in_state e
Step-IsValid c h b b' v (refused now _ e) = v
Step-IsValid c h b b' v (succeeded _) =
    success_fields c h b.state b.failure_count b.last_failure_time b.success_count v.counted
      v.in_state
Step-IsValid c h b b' v (failed now _) =
    failure_fields c now b.state b.failure_count b.last_failure_time b.success_count v.counted
      v.in_state

-- Over any interleaving of calls that are admitted or refused, return or throw, a breaker whose
-- two thresholds are positive keeps this: closed, it has counted fewer failures than the threshold
-- and no success; open or half open, it knows the time of a failure; and it has always counted
-- fewer successes than close it.
pub Reachable-IsValid :
    (c : BreakerConfig) → IsConfig c → (b : Breaker) → Reachable c b → IsValid c b
Reachable-IsValid c h b start = initial-IsValid c h
Reachable-IsValid c h b (next a _ r s) = Step-IsValid c h a b (Reachable-IsValid c h a r) s
