-- ===== src/Shamir/Values.antt =====
-- One byte of combine: the loop over the shares adds up the weighted values.
use Prim.Native.Nat.{bit_xor}
use ilr_module.Prelude.{
  ℕ, suc, ◌+◌, ◌≤◌, ◌<◌, ◌≡◌, ◌≢◌, refl, sym, ap, ◌∙◌, List, [], ◌∷◌, ◌++◌, length, arith, true,
  false, ◌==◌,
}
use ilr_module.Prelude.Bits.{xor_assoc, xor_zero-left, xor_zero}
use ilr_module.Interpolation.Field
use ilr_module.Interpolation.Weights.{weight, weighted_sum, Distinct, NotIn}
use ilr_module.Interpolation.Lagrange.{eval, interpolation}
use ilr_module.Shamir.Result.{ok}
use ilr_module.Shamir.Gf256.{construct, gf_divide}
use ilr_module.Shamir.Gf256.Product.{mul}
use ilr_module.Shamir.Scheme.{Share, Basis, basis_loop, value_loop, has_index, no_duplicates}
use ilr_module.Shamir.Bytes.{IsByte, Byte, byte_zero, byte_one, gf, gf_divide-byte}
use ilr_module.Shamir.Basis.{ByteIndices, points, Skips, basis_loop-Ratio, AllSkip, Holds}

one_ne_zero : byte_one ≢ byte_zero
one_ne_zero e = absurd (omega (arith, ap (λ (x : Byte). x.0) e))

abbrev basis_at : List Share → ℕ → ℕ → Basis
basis_at shares i xi =
    basis_loop construct i xi 0 shares (record { numerator = 1; denominator = 1 })

-- The quotient that combine divides out for one share is the weight of its index.
quotient-weight :
    (shares : List Share) (h : ByteIndices shares) (i : ℕ) (x : Byte)
    → Skips i x.0 0 shares
    → gf_divide construct (basis_at shares i x.0).numerator (basis_at shares i x.0).denominator
      ≡ ok (weight gf x (points shares h)).0
quotient-weight shares h i x k =
    let r = basis_loop-Ratio i x 0 shares h byte_one byte_one k one_ne_zero in
    ap (λ (b : Basis). gf_divide construct b.numerator b.denominator) r.result
    ∙ gf_divide-byte r.num r.den r.den_ne
    ∙ ap (λ (z : Byte). ok z.0)
        (r.value
          ∙ ap (λ (z : Byte). gf.mul z (weight gf x (points shares h)))
              (gf.mul-inv byte_one one_ne_zero)
          ∙ Field.one-mul gf (weight gf x (points shares h)))

step_value : (v y w s : ℕ) → bit_xor (bit_xor v (mul y w)) s ≡ bit_xor v (bit_xor (mul y w) s)
step_value v y w s = xor_assoc v (mul y w) s

pub value_loop-sum :
    (f : Byte → Byte) (k : ℕ) (shares : List Share) (h : ByteIndices shares) (i : ℕ)
    (ss : List Share) (g : ByteIndices ss) (v : ℕ)
    → AllSkip shares i ss
    → Holds f k ss g
    → value_loop construct shares k i ss v
      ≡ ok (bit_xor v (weighted_sum gf f (points shares h) (points ss g)).0)
unfolding value_loop weighted_sum
value_loop-sum f k shares h i [] g v a b = ap ok (sym (xor_zero v))
value_loop-sum f k shares h i (s ∷ ss) g v a b =
    rw (quotient-weight shares h i (s.index, g.0) a.0, b.0)
      (value_loop-sum f k shares h (i + 1) ss g.1 _ a.1 b.1 ∙ ap ok (xor_assoc v _ _))

-- Distinct indices, as the check of combine reads them.
has_index-append :
    (x : ℕ) (pre : List Share) (s : Share) (post : List Share)
    → has_index x (pre ++ s ∷ post) ≡ false
    → (s.index == x) ≡ false
unfolding has_index
has_index-append x [] s post h = ground arith
has_index-append x (p ∷ pre) s post h = has_index-append x pre s post (ground arith)

Skips-after : (i xi j : ℕ) (ss : List Share) → i < j → has_index xi ss ≡ false → Skips i xi j ss
unfolding has_index
Skips-after i xi j [] p h = tt
Skips-after i xi j (s ∷ ss) p h =
    (ground arith, Skips-after i xi (j + 1) ss (omega arith) (ground arith))

flip_eq : (a b : ℕ) → (a == b) ≡ false → (b == a) ≡ false
flip_eq a b h = ground arith

Skips-at :
    (i j : ℕ) (pre : List Share) (s : Share) (post : List Share)
    → i ≡ j + length pre
    → no_duplicates (pre ++ s ∷ post) ≡ true
    → Skips i s.index j (pre ++ s ∷ post)
unfolding no_duplicates
Skips-at i j [] s post e h =
    (ground arith, Skips-after i s.index (j + 1) post (omega arith) (ground arith))
Skips-at i j (p ∷ pre) s post e h =
    let other : (s.index == p.index) ≡ false = has_index-append p.index pre s post (ground arith) in
    (ground arith, Skips-at i (j + 1) pre s post (omega arith) (ground arith))

append_one :
    (pre : List Share) (s : Share) (ss : List Share) → (pre ++ s ∷ []) ++ ss ≡ pre ++ s ∷ ss
append_one [] s ss = refl
append_one (p ∷ pre) s ss = ap (◌∷◌ p) (append_one pre s ss)

length-append_one : (pre : List Share) (s : Share) → length (pre ++ s ∷ []) ≡ length pre + 1
length-append_one [] s = omega arith
length-append_one (p ∷ pre) s = omega (arith, length-append_one pre s)

all_skip :
    (shares pre ss : List Share) (i : ℕ)
    → shares ≡ pre ++ ss
    → i ≡ length pre
    → no_duplicates shares ≡ true
    → AllSkip shares i ss
all_skip shares pre [] i e n h = tt
all_skip shares pre (s ∷ ss) i e n h = (
  rw e (Skips-at i 0 pre s ss (omega arith) (rw e at h)),
  all_skip shares (pre ++ s ∷ []) ss (i + 1) (e ∙ sym (append_one pre s ss))
      (omega (arith, length-append_one pre s)) h,
)

not_in :
    (s : Share) (p : IsByte s.index) (ss : List Share) (h : ByteIndices ss)
    → has_index s.index ss ≡ false
    → NotIn gf (s.index, p) (points ss h)
unfolding has_index
not_in s p [] h e = tt
not_in s p (u ∷ ss) h e =
    ((λ q. absurd (ground (arith, ap (λ (x : Byte). x.0) q))), not_in s p ss h.1 (ground arith))

pub Distinct-points :
    (ss : List Share) (h : ByteIndices ss) → no_duplicates ss ≡ true → Distinct gf (points ss h)
unfolding no_duplicates
Distinct-points [] h e = tt
Distinct-points (s ∷ ss) h e =
    (not_in s h.0 ss h.1 (ground arith), Distinct-points ss h.1 (ground arith))

pub length-points : (ss : List Share) (h : ByteIndices ss) → length (points ss h) ≡ length ss
length-points [] h = refl
length-points (s ∷ ss) h = ap suc (length-points ss h.1)

-- Shares that hold the values of a polynomial with no more coefficients than there are shares
-- combine to its constant term.
pub value_loop-constant :
    (cs : List Byte) (k : ℕ) (shares : List Share) (h : ByteIndices shares)
    → no_duplicates shares ≡ true
    → length cs ≤ length shares
    → Holds (eval gf cs) k shares h
    → value_loop construct shares k 0 shares 0 ≡ ok (eval gf cs byte_zero).0
value_loop-constant cs k shares h e l b =
    value_loop-sum (eval gf cs) k shares h 0 shares h 0 (all_skip shares [] shares 0 refl refl e) b
    ∙ ap ok (
        xor_zero-left _
        ∙ ap (λ (x : Byte). x.0)
            (interpolation gf cs (points shares h) (omega (arith, length-points shares h))
              (Distinct-points shares h e)))
