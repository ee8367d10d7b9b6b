-- ===== src/Shamir/Bytes.antt =====
-- The bytes with the operations of sdk/shamir.ts as a field, and polynomials over it.
use Prim.Native.Nat.{bit_xor}
use native.Mathlib.Bridge.{le_prop}
use native.Mathlib.Decide.{ℕ_discrete}
use mathlib.Core.HLevel.{Σ_prop_path}
use ilr_module.Prelude.{
  ℕ, zero, suc, ◌<◌, ◌≡◌, ◌≢◌, refl, ap, ◌∙◌, List, [], ◌∷◌, All, length, arith,
}
use ilr_module.Prelude.Bits.{xor_assoc, xor_comm, xor_zero, xor_self, xor-lt_byte}
use ilr_module.Interpolation.Field.{Field}
use ilr_module.Interpolation.Lagrange.{eval}
use ilr_module.Shamir.Result.{ok}
use ilr_module.Shamir.Gf256.{construct, gf_divide, horner, evaluate_polynomial}
use ilr_module.Shamir.Gf256.Product.{mul, mul-lt, mul_assoc, mul_comm, mul_one, mul-xor}
use ilr_module.Shamir.Gf256.Division.{inverse, inverse-lt, mul-inverse, gf_divide-mul}

abbrev pub IsByte : ℕ → Type 0
IsByte n = n < 256

abbrev pub Byte : Type 0
Byte = (n : ℕ) × IsByte n

pub Byte-path : (a b : Byte) → a.0 ≡ b.0 → a ≡ b
Byte-path a b e = Σ_prop_path (λ n. le_prop) e

pub Byte-discrete : Discrete Byte
Byte-discrete a b = elim (ℕ_discrete a.0 b.0) [
  | yes e ↦ yes (Byte-path a b e)
  | no n ↦ no (λ e. n (ap (λ (x : Byte). x.0) e))
]

abbrev pub byte_zero : Byte
byte_zero = (0, omega arith)

pub pos_of_ne : (a : Byte) → a ≢ byte_zero → 0 < a.0
pos_of_ne (zero, p) n = absurd (n (Byte-path (0, p) byte_zero refl))
pos_of_ne (suc a, p) n = omega arith

abbrev pub byte_one : Byte
byte_one = (1, omega arith)

abbrev byte_add : Byte → Byte → Byte
byte_add a b = (bit_xor a.0 b.0, xor-lt_byte a.0 b.0 a.1 b.1)

abbrev byte_mul : Byte → Byte → Byte
byte_mul a b = (mul a.0 b.0, mul-lt a.0 b.0)

abbrev byte_inv : Byte → Byte
byte_inv a = (inverse a.0, inverse-lt a.0)

abbrev pub gf : Field
gf = record {
  Carrier = Byte;
  zero = byte_zero;
  one = byte_one;
  add = byte_add;
  neg = λ a. a;
  mul = byte_mul;
  inv = byte_inv;
  discrete = Byte-discrete;
  add_assoc = λ a b c. Byte-path _ _ (xor_assoc a.0 b.0 c.0);
  add_comm = λ a b. Byte-path _ _ (xor_comm a.0 b.0);
  add_zero = λ a. Byte-path _ _ (xor_zero a.0);
  add_neg = λ a. Byte-path _ _ (xor_self a.0);
  mul_assoc = λ a b c. Byte-path _ _ (mul_assoc a.0 b.0 c.0 a.1 b.1 c.1);
  mul_comm = λ a b. Byte-path _ _ (mul_comm a.0 b.0);
  mul_one = λ a. Byte-path _ _ (mul_one a.0 a.1);
  mul-add = λ a b c. Byte-path _ _ (mul-xor a.0 b.0 c.0 a.1 b.1 c.1);
  mul-inv = λ a n. Byte-path _ _ (mul-inverse a.0 (pos_of_ne a n) a.1);
}

abbrev pub bytes : (cs : List ℕ) → All IsByte cs → List Byte
bytes [] h = []
bytes (c ∷ cs) h = (c, h.0) ∷ bytes cs h.1

pub length-bytes : (cs : List ℕ) (h : All IsByte cs) → length (bytes cs h) ≡ length cs
length-bytes [] h = refl
length-bytes (c ∷ cs) h = ap suc (length-bytes cs h.1)

pub horner-eval :
    (cs : List ℕ) (h : All IsByte cs) (x : Byte)
    → horner construct cs x.0 ≡ (eval gf (bytes cs h) x).0
unfolding horner eval
horner-eval [] h x = refl
horner-eval (c ∷ cs) h x =
    xor_comm (mul (horner construct cs x.0) x.0) c
    ∙ ap (bit_xor c) (mul_comm (horner construct cs x.0) x.0 ∙ ap (mul x.0) (horner-eval cs h.1 x))

-- At a point that is not 0, evaluatePolynomial is the value of the polynomial in the field.
pub evaluate_polynomial-eval :
    (cs : List ℕ) (h : All IsByte cs) (x : Byte)
    → 0 < x.0
    → evaluate_polynomial construct cs x.0 ≡ (eval gf (bytes cs h) x).0
unfolding evaluate_polynomial
evaluate_polynomial-eval cs h x p = ground (arith, horner-eval cs h x)

-- gfDivide is the division of the field.
pub gf_divide-byte :
    (a b : Byte) → b ≢ byte_zero → gf_divide construct a.0 b.0 ≡ ok (gf.mul a (gf.inv b)).0
gf_divide-byte a b n = gf_divide-mul a.0 b.0 a.1 (pos_of_ne b n) b.1
