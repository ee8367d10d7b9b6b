-- ===== src/Shamir/Gf256/Equivalence.antt =====
-- The table-driven gfMultiply computes what gfMultiplyNoTable does.
use Prim.Native.Nat.{bit_xor}
use ilr_module.Prelude.{
  ℕ, zero, suc, ◌/◌, ◌%◌, ◌≤◌, ◌<◌, ◌≡◌, refl, Bool, true, ◌==◌, if◌then◌else◌, arith, every_below,
  every_below-at, ◌∙◌, ap, sym, lt→ltb,
}
use ilr_module.Prelude.Bits.{xor-lt_byte, xor_assoc, xor_zero, xor_zero-left}
use ilr_module.Shamir.Gf256.{construct, double, gf_multiply, gf_multiply_no_table, no_table_loop}
use ilr_module.Shamir.Gf256.Entries.{double-lt}
use ilr_module.Shamir.Gf256.Product.{
  mul, mul-lt, mul-zero, mul_comm, mul_assoc, mul_one, mul-xor, mul_two,
}

digit_row : ℕ → Bool
digit_row b = bit_xor (b % 2) (double (b / 2)) == b

digit_rows : every_below 256 digit_row ≡ true
unfolding every_below digit_row double
digit_rows = refl

low_digit : (b : ℕ) → b < 256 → bit_xor (b % 2) (double (b / 2)) ≡ b
unfolding digit_row
low_digit b p = ground (arith, every_below-at 256 digit_row b digit_rows p)

mul-double : (a h : ℕ) → a < 256 → h < 256 → mul a (double h) ≡ mul (double a) h
mul-double a h p q =
    rw (← mul_two h q, ← mul_two a p, mul_comm h 2) (sym (mul_assoc a 2 h p (omega arith) q))

mul-digit : (a b : ℕ) → a < 256 → mul a (b % 2) ≡ (if b % 2 == 1 then a else 0)
mul-digit a b p = ground (arith, mul-zero a, mul_one a p)

-- The product by the lowest binary digit of `b`, then by the rest.
mul_step :
    (a b : ℕ)
    → a < 256
    → b < 256
    → mul a b ≡ bit_xor (if b % 2 == 1 then a else 0) (mul (double a) (b / 2))
mul_step a b p q =
    ap (mul a) (sym (low_digit b q))
    ∙ mul-xor a (b % 2) (double (b / 2)) p (omega arith) (double-lt (b / 2) (omega arith))
    ∙ rw (mul-digit a b p, mul-double a (b / 2) p (omega arith)) refl

round_result :
    (b r a : ℕ) → (if b % 2 == 1 then bit_xor r a else r) ≡ bit_xor r (if b % 2 == 1 then a else 0)
round_result b r a = ground (arith, xor_zero r)

round-lt : (b a : ℕ) → a < 256 → (if b % 2 == 1 then a else 0) < 256
round-lt b a p = ground arith

pub no_table_loop-mul :
    (fuel a b r : ℕ)
    → b ≤ fuel
    → a < 256
    → b < 256
    → r < 256
    → no_table_loop fuel a b r ≡ bit_xor r (mul a b)
unfolding no_table_loop
no_table_loop-mul zero a zero r h p q s = rw (mul-zero a) (sym (xor_zero r))
no_table_loop-mul zero a (suc b) r h p q s = absurd (omega arith)
no_table_loop-mul (suc fuel) a zero r h p q s = rw (mul-zero a) (sym (xor_zero r))
no_table_loop-mul (suc fuel) a (suc b) r h p q s =
    rw (lt→ltb 0 (suc b) (omega arith), round_result (suc b) r a)
      (no_table_loop-mul fuel (double a) (suc b / 2) (bit_xor r (if suc b % 2 == 1 then a else 0))
          (omega arith) (double-lt a p) (omega arith) (xor-lt_byte r _ s (round-lt (suc b) a p))
        ∙ xor_assoc r (if suc b % 2 == 1 then a else 0) (mul (double a) (suc b / 2))
        ∙ ap (bit_xor r) (sym (mul_step a (suc b) p q)))

-- On bytes, the product by the tables is the product that the constructor computes without them.
pub gf_multiply-eq-no_table :
    (a b : ℕ) → a < 256 → b < 256 → gf_multiply construct a b ≡ gf_multiply_no_table a b
unfolding gf_multiply_no_table
gf_multiply-eq-no_table a b p q =
    let e : no_table_loop b a b 0 ≡ gf_multiply construct a b =
      no_table_loop-mul b a b 0 (omega arith) p q (omega arith)
      ∙ xor_zero-left (gf_multiply construct a b) in
    rw e (omega (arith, mul-lt a b))
