-- ===== src/Shamir/Gf256/Division.antt =====
-- gfDivide is multiplication by an inverse, and undoes gfMultiply.
use ilr_module.Prelude.{ℕ, zero, suc, ◌+◌, ◌-◌, ◌%◌, ◌<◌, ◌≡◌, arith, ◌∙◌, ap, sym}
use ilr_module.Shamir.Result.{ok}
use ilr_module.Shamir.Gf256.{construct, log_of, exp_of, gf_multiply, gf_divide}
use ilr_module.Shamir.Gf256.Entries.{exp_log, log-lt, log_exp, exp_pos, exp-lt, exp_zero}
use ilr_module.Shamir.Gf256.Product.{mul, mul-exp, mul-lt, mul_pos, mul_assoc, mul_one, zero-mul}

-- The inverse of a byte that is not 0.
pub inverse : ℕ → ℕ
inverse b = exp_of construct ((255 - log_of construct b) % 255)

pub inverse-lt : (b : ℕ) → inverse b < 256
unfolding inverse
inverse-lt b = exp-lt ((255 - log_of construct b) % 255) (omega arith)

pub inverse_pos : (b : ℕ) → 0 < inverse b
unfolding inverse
inverse_pos b = exp_pos ((255 - log_of construct b) % 255) (omega arith)

powers_inverse :
    (i : ℕ) → i < 255 → mul (exp_of construct i) (exp_of construct ((255 - i) % 255)) ≡ 1
powers_inverse i p =
    mul-exp i ((255 - i) % 255) p (omega arith)
    ∙ ap (λ (n : ℕ). exp_of construct n) (omega arith)
    ∙ exp_zero

pub mul-inverse : (b : ℕ) → 0 < b → b < 256 → mul b (inverse b) ≡ 1
unfolding inverse
mul-inverse b p q =
    ap (λ (x : ℕ). mul x (exp_of construct ((255 - log_of construct b) % 255)))
      (sym (exp_log b p q))
    ∙ powers_inverse (log_of construct b) (log-lt b p q)

quotient_index :
    (a b : ℕ)
    → 0 < b
    → b < 256
    → exp_of construct ((log_of construct a + 255 - log_of construct b) % 255)
      ≡ exp_of construct ((log_of construct a + log_of construct (inverse b)) % 255)
unfolding inverse
quotient_index a b p q =
    ap (λ (n : ℕ). exp_of construct n)
      (omega (arith, log-lt b p q, log_exp ((255 - log_of construct b) % 255) (omega arith)))

pub gf_divide-mul :
    (a b : ℕ) → a < 256 → 0 < b → b < 256 → gf_divide construct a b ≡ ok (mul a (inverse b))
unfolding gf_divide
gf_divide-mul zero b r p q = ground (arith, zero-mul (inverse b))
gf_divide-mul (suc a) b r p q =
    ground (
      arith,
      quotient_index (suc a) b p q,
      mul_pos (suc a) (inverse b) (omega arith) (inverse_pos b),
    )

-- Dividing a product of bytes by its second factor, which is not 0, gives the first factor back.
pub gf_divide-gf_multiply :
    (a b : ℕ) → a < 256 → 0 < b → b < 256 → gf_divide construct (gf_multiply construct a b) b ≡ ok a
gf_divide-gf_multiply a b r p q =
    gf_divide-mul (mul a b) b (mul-lt a b) p q
    ∙ ap ok (
        mul_assoc a b (inverse b) r q (inverse-lt b) ∙ ap (mul a) (mul-inverse b p q) ∙ mul_one a r)
