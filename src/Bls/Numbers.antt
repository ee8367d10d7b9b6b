-- ===== src/Bls/Numbers.antt =====
-- Remainders of sums, products and powers.
use native.Mathlib.Nat.{add-mul-mod_self_left, mod-add-div, pow-suc, pow-zero}
use ilr_module.Prelude.{ℕ, zero, suc, ◌+◌, ◌*◌, ◌/◌, ◌%◌, ◌^◌, ◌≡◌, sym, ap, ◌∙◌, arith}

mul-add : (a b c : ℕ) → (a + b) * c ≡ a * c + b * c
mul-add a b c = omega arith

mul_assoc : (a b c : ℕ) → a * b * c ≡ a * (b * c)
mul_assoc a b c = omega arith

pub mod-mul_left : (a b m : ℕ) → (a % m * b) % m ≡ (a * b) % m
mod-mul_left a b m =
    sym (add-mul-mod_self_left (a % m * b) m (a / m * b))
    ∙ ap (λ t. t % m)
        (ap (λ t. a % m * b + t) (sym (mul_assoc m (a / m) b))
          ∙ sym (mul-add (a % m) (m * (a / m)) b)
          ∙ ap (λ t. t * b) (mod-add-div a m))

mul_comm : (a b : ℕ) → a * b ≡ b * a
mul_comm a b = omega arith

pub mod-mul_right : (a b m : ℕ) → (a * (b % m)) % m ≡ (a * b) % m
mod-mul_right a b m =
    ap (λ t. t % m) (mul_comm a (b % m)) ∙ mod-mul_left b a m ∙ ap (λ t. t % m) (mul_comm b a)

pub pow-square : (b k : ℕ) → (b * b) ^ k ≡ b ^ (k + k)
pow-square b zero = pow-zero (b * b) ∙ sym (pow-zero b)
pow-square b (suc k) =
    pow-suc (b * b) k
    ∙ ap (λ t. t * (b * b)) (pow-square b k)
    ∙ sym (mul_assoc (b ^ (k + k)) b b)
    ∙ ap (λ t. t * b) (sym (pow-suc b (k + k)))
    ∙ sym (pow-suc b (suc (k + k)))
    ∙ ap (λ t. b ^ t) (omega arith)

pub mod-pow : (b k m : ℕ) → ((b % m) ^ k) % m ≡ (b ^ k) % m
mod-pow b zero m = ap (λ t. t % m) (pow-zero (b % m) ∙ sym (pow-zero b))
mod-pow b (suc k) m =
    ap (λ t. t % m) (pow-suc (b % m) k)
    ∙ sym (mod-mul_left ((b % m) ^ k) (b % m) m)
    ∙ ap (λ t. (t * (b % m)) % m) (mod-pow b k m)
    ∙ mod-mul_left (b ^ k) (b % m) m
    ∙ mod-mul_right (b ^ k) b m
    ∙ ap (λ t. t % m) (sym (pow-suc b k))
