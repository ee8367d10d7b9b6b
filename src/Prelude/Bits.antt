-- ===== src/Prelude/Bits.antt =====
-- Laws of the exclusive or at every width, from the recursion on binary digits.
use Prim.Native.Nat.{
  ℕ, zero, suc, ◌+◌, ◌*◌, ◌/◌, ◌%◌, ◌^◌, ◌≤◌, ◌<◌, bit_xor, digits, differ, bit_xor-bitwise,
}
use mathlib.Core.Path.{◌≡◌, refl, sym, ap, ◌∙◌}
use native.Mathlib.Decide.{ℕ_discrete}
use native.Mathlib.Nat.{le_refl, pow-suc}
use native.Mathlib.Omega.{arith}

-- The exclusive or of two binary digits.
abbrev pub xor_digit : ℕ → ℕ → ℕ
xor_digit a b = (a + b) % 2

differ-eq : (a b : ℕ) → a < 2 → b < 2 → differ a b ≡ xor_digit a b
differ-eq zero b p q = omega arith
differ-eq (suc zero) zero p q = refl
differ-eq (suc zero) (suc zero) p q = refl
differ-eq (suc zero) (suc (suc b)) p q = absurd (omega arith)
differ-eq (suc (suc a)) b p q = absurd (omega arith)

-- Once the fuel covers the first number, one round more changes nothing.
one_more :
    (fuel x y : ℕ)
    → x ≤ fuel
    → digits (λ d. d) differ (suc fuel) x y ≡ digits (λ d. d) differ fuel x y
one_more fuel zero y h = no_digits fuel y
  where
    no_digits :
        (fuel y : ℕ) → digits (λ d. d) differ (suc fuel) 0 y ≡ digits (λ d. d) differ fuel 0 y
    no_digits zero y = refl
    no_digits (suc fuel) y = refl
one_more zero (suc x) y h = absurd (omega arith)
one_more (suc fuel) (suc x) y h = omega (arith, one_more fuel (suc x / 2) (y / 2) (omega arith))

-- So all fuels from the first number on give what that number gives.
digits_settle :
    (fuel x y : ℕ) → x ≤ fuel → digits (λ d. d) differ fuel x y ≡ digits (λ d. d) differ x x y
digits_settle zero zero y h = refl
digits_settle zero (suc x) y h = absurd (omega arith)
digits_settle (suc fuel) x y h = elim (ℕ_discrete x (suc fuel)) [
  | yes e ↦ ap (λ t. digits (λ d. d) differ t x y) (sym e)
  | no n ↦ one_more fuel x y (omega arith) ∙ digits_settle fuel x y (omega arith)
]

pub xor_zero-left : (b : ℕ) → bit_xor 0 b ≡ b
xor_zero-left b = bit_xor-bitwise 0 b

pub xor_step : (a b : ℕ) → bit_xor a b ≡ bit_xor (a / 2) (b / 2) * 2 + xor_digit (a % 2) (b % 2)
xor_step zero b = omega (arith, xor_zero-left b, xor_zero-left (b / 2))
xor_step (suc a) b = omega (
  arith,
  bit_xor-bitwise (suc a) b,
  bit_xor-bitwise (suc a / 2) (b / 2),
  differ-eq (suc a % 2) (b % 2) (omega arith) (omega arith),
  digits_settle a (suc a / 2) (b / 2) (omega arith),
)

xor_zero_fuel : (n a : ℕ) → a ≤ n → bit_xor a 0 ≡ a
xor_zero_fuel n zero h = refl
xor_zero_fuel zero (suc a) h = absurd (omega arith)
xor_zero_fuel (suc n) (suc a) h =
    omega (arith, xor_step (suc a) 0, xor_zero_fuel n (suc a / 2) (omega arith))

pub xor_zero : (a : ℕ) → bit_xor a 0 ≡ a
xor_zero a = xor_zero_fuel a a (le_refl a)

xor_comm_fuel : (n a b : ℕ) → a ≤ n → bit_xor a b ≡ bit_xor b a
xor_comm_fuel n zero b h = omega (arith, xor_zero-left b, xor_zero b)
xor_comm_fuel zero (suc a) b h = absurd (omega arith)
xor_comm_fuel (suc n) (suc a) b h = omega (
  arith,
  xor_step (suc a) b,
  xor_step b (suc a),
  xor_comm_fuel n (suc a / 2) (b / 2) (omega arith),
)

pub xor_comm : (a b : ℕ) → bit_xor a b ≡ bit_xor b a
xor_comm a b = xor_comm_fuel a a b (le_refl a)

xor_self_fuel : (n a : ℕ) → a ≤ n → bit_xor a a ≡ 0
xor_self_fuel n zero h = refl
xor_self_fuel zero (suc a) h = absurd (omega arith)
xor_self_fuel (suc n) (suc a) h =
    omega (arith, xor_step (suc a) (suc a), xor_self_fuel n (suc a / 2) (omega arith))

pub xor_self : (a : ℕ) → bit_xor a a ≡ 0
xor_self a = xor_self_fuel a a (le_refl a)

pub xor_half : (a b : ℕ) → bit_xor a b / 2 ≡ bit_xor (a / 2) (b / 2)
xor_half a b = omega (arith, xor_step a b)

pub xor_low : (a b : ℕ) → bit_xor a b % 2 ≡ xor_digit (a % 2) (b % 2)
xor_low a b = omega (arith, xor_step a b)

xor-halves :
    (a b c : ℕ)
    → bit_xor (bit_xor (a / 2) (b / 2)) (c / 2) ≡ bit_xor (a / 2) (bit_xor (b / 2) (c / 2))
    → bit_xor (bit_xor a b / 2) (c / 2) ≡ bit_xor (a / 2) (bit_xor b c / 2)
xor-halves a b c e = rw (xor_half a b, xor_half b c) e

xor_assoc_fuel : (n a b c : ℕ) → a ≤ n → bit_xor (bit_xor a b) c ≡ bit_xor a (bit_xor b c)
xor_assoc_fuel n zero b c h = rw (xor_zero-left b, xor_zero-left (bit_xor b c)) refl
xor_assoc_fuel zero (suc a) b c h = absurd (omega arith)
xor_assoc_fuel (suc n) (suc a) b c h = omega (
  arith,
  xor_step (bit_xor (suc a) b) c,
  xor_step (suc a) (bit_xor b c),
  xor_low (suc a) b,
  xor_low b c,
  xor-halves (suc a) b c (xor_assoc_fuel n (suc a / 2) (b / 2) (c / 2) (omega arith)),
)

pub xor_assoc : (a b c : ℕ) → bit_xor (bit_xor a b) c ≡ bit_xor a (bit_xor b c)
xor_assoc a b c = xor_assoc_fuel a a b c (le_refl a)

-- Numbers of `k` bits have an exclusive or of `k` bits.
pub xor-lt : (k a b : ℕ) → a < 2 ^ k → b < 2 ^ k → bit_xor a b < 2 ^ k
xor-lt zero a b p q =
    let e : a ≡ 0 = omega arith in let f : b ≡ 0 = omega arith in rw (e, f) (omega arith)
xor-lt (suc k) a b p q = omega (
  arith,
  xor_step a b,
  pow-suc 2 k,
  xor-lt k (a / 2) (b / 2) (omega (arith, pow-suc 2 k)) (omega (arith, pow-suc 2 k)),
)

pub xor-lt_byte : (a b : ℕ) → a < 256 → b < 256 → bit_xor a b < 256
xor-lt_byte a b p q = xor-lt 8 a b p q
