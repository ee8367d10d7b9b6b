-- ===== src/Bls/Power.antt =====
-- modPow computes the power.
use native.Mathlib.Nat.{mod-lt, mod-eq_of_lt, pow-suc, pow-zero}
use ilr_module.Prelude.{
  ℕ, zero, suc, ◌+◌, ◌*◌, ◌/◌, ◌%◌, ◌^◌, ◌<◌, ◌≤◌, ◌≡◌, ◌⊎◌, inl, inr, refl, sym, ap, ◌∙◌, arith,
  true, false, ◌==◌,
}
use ilr_module.Bls.{mod_pow_loop, mod_pow}
use ilr_module.Bls.Numbers.{mod-mul_left, mod-mul_right, mod-pow, pow-square}

abbrev Parity : ℕ → Type 0
Parity e = ((e % 2 ≡ 0) × (e ≡ e / 2 + e / 2)) ⊎ ((e % 2 ≡ 1) × (e ≡ suc (e / 2 + e / 2)))

remainder_cases : (e r : ℕ) → e % 2 ≡ r → Parity e
remainder_cases e zero p = inl (p, omega arith)
remainder_cases e (suc zero) p = inr (p, omega arith)
remainder_cases e (suc (suc r)) p = absurd (omega arith)

-- The power splits as the loop does: an odd exponent leaves one factor.
pow_even : (r b e m : ℕ) → e ≡ e / 2 + e / 2 → (r * ((b * b) % m) ^ (e / 2)) % m ≡ (r * b ^ e) % m
pow_even r b e m h =
    sym (mod-mul_right r (((b * b) % m) ^ (e / 2)) m)
    ∙ ap (λ t. (r * t) % m) (mod-pow (b * b) (e / 2) m)
    ∙ mod-mul_right r ((b * b) ^ (e / 2)) m
    ∙ ap (λ t. (r * t) % m) (pow-square b (e / 2) ∙ ap (λ t. b ^ t) (sym h))

pow_odd :
    (r b e m : ℕ)
    → e ≡ suc (e / 2 + e / 2)
    → ((r * b) % m * ((b * b) % m) ^ (e / 2)) % m ≡ (r * b ^ e) % m
pow_odd r b e m h =
    mod-mul_left (r * b) (((b * b) % m) ^ (e / 2)) m
    ∙ sym (mod-mul_right (r * b) (((b * b) % m) ^ (e / 2)) m)
    ∙ ap (λ t. (r * b * t) % m) (mod-pow (b * b) (e / 2) m)
    ∙ mod-mul_right (r * b) ((b * b) ^ (e / 2)) m
    ∙ ap (λ t. (r * b * t) % m) (pow-square b (e / 2))
    ∙ ap (λ t. t % m) (regroup r b (b ^ (e / 2 + e / 2)))
    ∙ ap (λ t. (r * t) % m) (sym (pow-suc b (e / 2 + e / 2)) ∙ ap (λ t. b ^ t) (sym h))
  where
    regroup : (r b p : ℕ) → r * b * p ≡ r * (p * b)
    regroup r b p = omega arith

times_pow-zero : (r b : ℕ) → r ≡ r * b ^ 0
times_pow-zero r b = times_one r ∙ ap (λ t. r * t) (sym (pow-zero b))
  where
    times_one : (r : ℕ) → r ≡ r * 1
    times_one r = omega arith

mod_pow_loop-mod :
    (fuel result base exp m : ℕ)
    → exp ≤ fuel
    → mod_pow_loop fuel result base exp m % m ≡ (result * base ^ exp) % m
unfolding mod_pow_loop
mod_pow_loop-mod zero r b zero m h = ap (λ t. t % m) (times_pow-zero r b)
mod_pow_loop-mod zero r b (suc e) m h = absurd (omega arith)
mod_pow_loop-mod (suc fuel) r b zero m h = ap (λ t. t % m) (times_pow-zero r b)
mod_pow_loop-mod (suc fuel) r b (suc e) m h = elim (remainder_cases (suc e) (suc e % 2) refl) [
  | inl p ↦
      let test : ((suc e % 2) == 1) ≡ false = ground (arith, p.0) in
      rw test (
        mod_pow_loop-mod fuel r ((b * b) % m) (suc e / 2) m (omega arith)
        ∙ pow_even r b (suc e) m p.1)
  | inr p ↦
      let test : ((suc e % 2) == 1) ≡ true = ground (arith, p.0) in
      rw test (
        mod_pow_loop-mod fuel ((r * b) % m) ((b * b) % m) (suc e / 2) m (omega arith)
        ∙ pow_odd r b (suc e) m p.1)
]

mod_pow_loop-lt :
    (fuel result base exp m : ℕ) → 0 < m → result < m → mod_pow_loop fuel result base exp m < m
unfolding mod_pow_loop
mod_pow_loop-lt zero r b e m p h = h
mod_pow_loop-lt (suc fuel) r b zero m p h = h
mod_pow_loop-lt (suc fuel) r b (suc e) m p h = elim (remainder_cases (suc e) (suc e % 2) refl) [
  | inl q ↦
      let test : ((suc e % 2) == 1) ≡ false = ground (arith, q.0) in
      rw test (mod_pow_loop-lt fuel r ((b * b) % m) (suc e / 2) m p h)
  | inr q ↦
      let test : ((suc e % 2) == 1) ≡ true = ground (arith, q.0) in
      rw test (mod_pow_loop-lt fuel ((r * b) % m) ((b * b) % m) (suc e / 2) m p (mod-lt (r * b) p))
]

-- modPow returns the power of its base reduced by the modulus, for every modulus above 1.
pub mod_pow-eq : (base exp m : ℕ) → 1 < m → mod_pow base exp m ≡ (base ^ exp) % m
unfolding mod_pow
mod_pow-eq b e m h =
    sym (mod-eq_of_lt (mod_pow_loop-lt e 1 (b % m) e m (omega arith) h))
    ∙ mod_pow_loop-mod e 1 (b % m) e m (omega arith)
    ∙ ap (λ t. t % m) (one (((b % m) ^ e)))
    ∙ mod-pow b e m
  where
    one : (x : ℕ) → 1 * x ≡ x
    one x = omega arith
