-- ===== src/Shamir/Gf256.antt =====
-- The arithmetic of GF(2^8) in sdk/shamir.ts: the constructor's tables, and the private methods
-- gfMultiplyNoTable, gfAdd, gfMultiply, gfDivide and evaluatePolynomial.
-- Field elements are numbers below 256. A read outside a table gives 0 here (`undefined` there):
-- every theorem speaks of bytes, for which no such read happens.
mod Entries
pub mod Product
pub mod Division
pub mod Equivalence
use Prim.Native.Nat.{bit_xor}
use ilr_module.Prelude.{
  ℕ, zero, suc, ◌+◌, ◌-◌, ◌*◌, ◌/◌, ◌%◌, List, [], ◌∷◌, Bool, ◌||◌, ltb, ◌==◌, if◌then◌else◌,
  get_or, set, replicate,
}
use ilr_module.Shamir.Result.{Result, ok, err, division_by_zero}

abbrev pub primitive : ℕ
primitive = 0x11b

-- The two lookup tables of the class.
pub record Tables : Type 0 where
  pub log_table : List ℕ
  pub exp_table : List ℕ

-- `a <<= 1; if (a & 0x100) a ^= GF256_PRIMITIVE;`
unfoldable pub double : ℕ → ℕ
double a = let s = a * 2 in if s / 256 % 2 == 1 then bit_xor s primitive else s

-- The loop of gfMultiplyNoTable, `while (b > 0)`, with fuel.
unfoldable pub no_table_loop : ℕ → ℕ → ℕ → ℕ → ℕ
no_table_loop zero a b result = result
no_table_loop (suc fuel) a b result =
    let rest =
      no_table_loop fuel (double a) (b / 2) (if b % 2 == 1 then bit_xor result a else result) in
    if ltb 0 b then rest else result

-- `b` rounds are enough, since `b` is halved until it is 0.
unfoldable pub gf_multiply_no_table : ℕ → ℕ → ℕ
unfolding no_table_loop double
gf_multiply_no_table a b = no_table_loop b a b 0 % 256

-- The loop of the constructor: `left` rounds from `i` on.
unfoldable pub table_loop : ℕ → ℕ → ℕ → Tables → Tables
table_loop zero i x t = t
table_loop (suc left) i x t =
    table_loop left (i + 1) (gf_multiply_no_table x 3)
      (record { log_table = set t.log_table x i; exp_table = set t.exp_table i x })

unfoldable pub construct : Tables
unfolding table_loop gf_multiply_no_table
construct =
    let t =
      table_loop 255 0 1 (record { log_table = replicate 256 0; exp_table = replicate 256 0 }) in
    record t { exp_table = set t.exp_table 255 (get_or t.exp_table 0 0) }

abbrev pub gf_add : ℕ → ℕ → ℕ
gf_add a b = bit_xor a b

abbrev pub log_of : Tables → ℕ → ℕ
log_of t a = get_or t.log_table a 0

abbrev pub exp_of : Tables → ℕ → ℕ
exp_of t i = get_or t.exp_table i 0

unfoldable pub gf_multiply : Tables → ℕ → ℕ → ℕ
gf_multiply t a b = if (a == 0) || (b == 0) then 0 else exp_of t ((log_of t a + log_of t b) % 255)

unfoldable pub gf_divide : Tables → ℕ → ℕ → Result ℕ
gf_divide t a b =
    if b == 0
    then err division_by_zero
    else if a == 0
    then ok 0
    else ok (exp_of t ((log_of t a + 255 - log_of t b) % 255))

-- The loop of evaluatePolynomial runs from the last coefficient to the first.
unfoldable pub horner : Tables → List ℕ → ℕ → ℕ
horner t [] x = 0
horner t (c ∷ cs) x = gf_add (gf_multiply t (horner t cs x) x) c

unfoldable pub evaluate_polynomial : Tables → List ℕ → ℕ → ℕ
unfolding horner
evaluate_polynomial t coefficients x =
    if x == 0 then get_or coefficients 0 0 else horner t coefficients x
