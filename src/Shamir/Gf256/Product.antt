-- ===== src/Shamir/Gf256/Product.antt =====
-- gfMultiply by the tables: the laws of a commutative ring over the bytes, and its agreement with
-- the multiplication without tables.
use Prim.Native.Nat.{bit_xor}
use native.Mathlib.Nat.{add_comm}
use ilr_module.Prelude.{
  ℕ, zero, suc, ◌+◌, ◌%◌, ◌<◌, ◌≡◌, refl, Bool, true, ◌==◌, arith, every_below, every_below-at, ◌∙◌,
  ap, sym,
}
use ilr_module.Prelude.Bits.{xor-lt_byte, xor_assoc, xor_comm}
use ilr_module.Shamir.Gf256.{construct, log_of, exp_of, double, gf_multiply}
use ilr_module.Shamir.Gf256.Entries.{
  triple, exp_log, log-lt, log_exp, exp_pos, exp-lt, exp_next, exp_zero, double-xor, triple-lt,
}

abbrev pub mul : ℕ → ℕ → ℕ
mul a b = gf_multiply construct a b

pub zero-mul : (b : ℕ) → mul 0 b ≡ 0
unfolding gf_multiply
zero-mul b = refl

pub mul-zero : (a : ℕ) → mul a 0 ≡ 0
unfolding gf_multiply
mul-zero a = ground arith

pub mul_pos :
    (a b : ℕ)
    → 0 < a
    → 0 < b
    → mul a b ≡ exp_of construct ((log_of construct a + log_of construct b) % 255)
unfolding gf_multiply
mul_pos a b p q = ground arith

pub mul_comm : (a b : ℕ) → mul a b ≡ mul b a
unfolding gf_multiply
mul_comm a b = ground (
  arith,
  ap (λ (i : ℕ). exp_of construct (i % 255)) (add_comm (log_of construct a) (log_of construct b)),
)

pub mul-lt : (a b : ℕ) → mul a b < 256
unfolding gf_multiply
mul-lt a b = ground (arith, exp-lt ((log_of construct a + log_of construct b) % 255) (omega arith))

pub mul-exp :
    (i j : ℕ)
    → i < 255
    → j < 255
    → mul (exp_of construct i) (exp_of construct j) ≡ exp_of construct ((i + j) % 255)
mul-exp i j p q = rw (mul_pos _ _ (exp_pos i p) (exp_pos j q), log_exp i p, log_exp j q) refl

-- A byte that is not 0 is a power of the generator.
pub as_power : (a : ℕ) → 0 < a → a < 256 → (i : ℕ) × (i < 255) × (a ≡ exp_of construct i)
as_power a p q = (log_of construct a, log-lt a p q, sym (exp_log a p q))

pub mul_pos-pos : (a b : ℕ) → 0 < a → 0 < b → 0 < mul a b
mul_pos-pos a b p q =
    rw (mul_pos a b p q) (exp_pos ((log_of construct a + log_of construct b) % 255) (omega arith))

one_power : (i : ℕ) → i < 255 → mul (exp_of construct i) 1 ≡ exp_of construct i
one_power i p =
    let e : mul (exp_of construct i) (exp_of construct 0) ≡ exp_of construct ((i + 0) % 255) =
      mul-exp i 0 p (omega arith) in
    let f : (i + 0) % 255 ≡ i = omega arith in cc (e, exp_zero, f)

pub mul_one : (a : ℕ) → a < 256 → mul a 1 ≡ a
mul_one zero p = zero-mul 1
mul_one (suc a) p = let (i, lt, e) = as_power (suc a) (omega arith) p in rw e (one_power i lt)

powers_assoc :
    (i j k : ℕ)
    → i < 255
    → j < 255
    → k < 255
    → mul (mul (exp_of construct i) (exp_of construct j)) (exp_of construct k)
      ≡ mul (exp_of construct i) (mul (exp_of construct j) (exp_of construct k))
powers_assoc i j k p q r =
    rw
      (
        mul-exp i j p q,
        mul-exp j k q r,
        mul-exp ((i + j) % 255) k (omega arith) r,
        mul-exp i ((j + k) % 255) p (omega arith),
      )
      (ap (λ (n : ℕ). exp_of construct n) (omega arith))

pub mul_assoc : (a b c : ℕ) → a < 256 → b < 256 → c < 256 → mul (mul a b) c ≡ mul a (mul b c)
mul_assoc zero b c p q r = rw (zero-mul b, zero-mul c, zero-mul (mul b c)) refl
mul_assoc (suc a) zero c p q r = rw (mul-zero (suc a), zero-mul c, mul-zero (suc a)) refl
mul_assoc (suc a) (suc b) zero p q r =
    rw (mul-zero (suc b), mul-zero (suc a), mul-zero (mul (suc a) (suc b))) refl
mul_assoc (suc a) (suc b) (suc c) p q r =
    let (i, li, ei) = as_power (suc a) (omega arith) p in
    let (j, lj, ej) = as_power (suc b) (omega arith) q in
    let (k, lk, ek) = as_power (suc c) (omega arith) r in
    rw (ei, ej, ek) (powers_assoc i j k li lj lk)

-- `k` multiplications by the generator.
triples : ℕ → ℕ → ℕ
triples zero v = v
triples (suc k) v = triple (triples k v)

triples-exp :
    (k j : ℕ) → j < 255 → exp_of construct ((k + j) % 255) ≡ triples k (exp_of construct j)
unfolding triples
triples-exp zero j p = ap (λ (n : ℕ). exp_of construct n) (omega arith)
triples-exp (suc k) j p =
    let e : (suc k + j) % 255 ≡ ((k + j) % 255 + 1) % 255 = omega arith in
    rw (e, exp_next ((k + j) % 255) (omega arith), triples-exp k j p) refl

triples-zero : (k : ℕ) → triples k 0 ≡ 0
unfolding triples triple double
triples-zero zero = refl
triples-zero (suc k) = rw (triples-zero k) refl

triples-lt : (k v : ℕ) → v < 256 → triples k v < 256
unfolding triples
triples-lt zero v p = p
triples-lt (suc k) v p = triple-lt (triples k v) (triples-lt k v p)

xor_swap : (a b c d : ℕ) → bit_xor (bit_xor a b) (bit_xor c d) ≡ bit_xor (bit_xor a c) (bit_xor b d)
xor_swap a b c d =
    rw (xor_assoc a b (bit_xor c d), ← xor_assoc b c d, xor_comm b c, xor_assoc c b d)
      (sym (xor_assoc a c (bit_xor b d)))

triple-xor : (a b : ℕ) → a < 256 → b < 256 → triple (bit_xor a b) ≡ bit_xor (triple a) (triple b)
unfolding triple
triple-xor a b p q = rw (double-xor a b p q) (xor_swap a b (double a) (double b))

triples-xor :
    (k a b : ℕ) → a < 256 → b < 256 → triples k (bit_xor a b) ≡ bit_xor (triples k a) (triples k b)
unfolding triples
triples-xor zero a b p q = refl
triples-xor (suc k) a b p q =
    rw (triples-xor k a b p q) (triple-xor _ _ (triples-lt k a p) (triples-lt k b q))

mul-triples : (a b : ℕ) → 0 < a → a < 256 → b < 256 → mul a b ≡ triples (log_of construct a) b
mul-triples a zero p q r = rw (mul-zero a, triples-zero (log_of construct a)) refl
mul-triples a (suc b) p q r =
    mul_pos a (suc b) p (omega arith)
    ∙ triples-exp (log_of construct a) (log_of construct (suc b)) (log-lt (suc b) (omega arith) r)
    ∙ ap (triples (log_of construct a)) (exp_log (suc b) (omega arith) r)

pub mul-xor :
    (a b c : ℕ) → a < 256 → b < 256 → c < 256 → mul a (bit_xor b c) ≡ bit_xor (mul a b) (mul a c)
mul-xor zero b c p q r = rw (zero-mul (bit_xor b c), zero-mul b, zero-mul c) refl
mul-xor (suc a) b c p q r =
    rw
      (
        mul-triples (suc a) (bit_xor b c) (omega arith) p (xor-lt_byte b c q r),
        mul-triples (suc a) b (omega arith) p q,
        mul-triples (suc a) c (omega arith) p r,
      )
      (triples-xor (log_of construct (suc a)) b c q r)

two_row : ℕ → Bool
two_row a = mul a 2 == double a

two_rows : every_below 256 two_row ≡ true
unfolding every_below two_row gf_multiply construct double
two_rows = refl

pub mul_two : (a : ℕ) → a < 256 → mul a 2 ≡ double a
unfolding two_row
mul_two a p = ground (arith, every_below-at 256 two_row a two_rows p)
