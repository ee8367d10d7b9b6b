-- ===== src/Shamir/Basis.antt =====
-- The loops of combine compute the weighted sum of interpolation.
use ilr_module.Prelude.{
  ℕ, ◌+◌, ◌≡◌, ◌≢◌, refl, sym, ap, ◌∙◌, List, [], ◌∷◌, All, arith, true, false, ◌==◌, get_or,
  ==_iff,
}
use ilr_module.Interpolation.Field
use ilr_module.Interpolation.Weights.{weight, factor, weight_self, weight-other}
use ilr_module.Shamir.Gf256.{construct}
use ilr_module.Shamir.Scheme.{Share, Basis, basis_loop}
use ilr_module.Shamir.Bytes.{IsByte, Byte, Byte-path, byte_zero, gf, Byte-discrete}

abbrev pub ByteIndices : List Share → Type 0
ByteIndices ss = All (λ s. IsByte s.index) ss

abbrev pub points : (ss : List Share) → ByteIndices ss → List Byte
points [] h = []
points (s ∷ ss) h = (s.index, h.0) ∷ points ss h.1

-- From position `j` on, the loop skips exactly the shares whose index is `xi`.
abbrev pub Skips : ℕ → ℕ → ℕ → List Share → Type 0
Skips i xi j [] = Unit
Skips i xi j (s ∷ ss) = ((i == j) ≡ (s.index == xi)) × Skips i xi (j + 1) ss

abbrev pub basis_of : Byte → Byte → Basis
basis_of n d = record { numerator = n.0; denominator = d.0 }

-- The quotient of the two products is the weight.
pub record Ratio (x : Byte) (pts : List Byte) (n d : Byte) (b : Basis) : Type 0 where
  pub num : Byte
  pub den : Byte
  pub result : b ≡ basis_of num den
  pub den_ne : den ≢ byte_zero
  pub value : gf.mul num (gf.inv den) ≡ gf.mul (gf.mul n (gf.inv d)) (weight gf x pts)

sub-ne-zero : (x y : Byte) → y ≢ x → gf.add x y ≢ byte_zero
sub-ne-zero x y n e = n (sym (Field.eq_of_sub gf x y e))

ratio_step :
    (x y n d w : Byte)
    → d ≢ byte_zero
    → y ≢ x
    → gf.mul (gf.mul (gf.mul n y) (gf.inv (gf.mul d (gf.add x y)))) w
      ≡ gf.mul (gf.mul n (gf.inv d)) (gf.mul (factor gf x y) w)
ratio_step x y n d w p q =
    ap (λ t. gf.mul t w)
      (ap (gf.mul (gf.mul n y)) (Field.inv-mul gf d (gf.add x y) p (sub-ne-zero x y q))
        ∙ Field.mul_swap gf n y (gf.inv d) (gf.inv (gf.add x y))
        ∙ ap (λ t. gf.mul (gf.mul n (gf.inv d)) (gf.mul y (gf.inv t))) (gf.add_comm x y))
    ∙ gf.mul_assoc (gf.mul n (gf.inv d)) (factor gf x y) w

pub basis_loop-Ratio :
    (i : ℕ) (x : Byte) (j : ℕ) (ss : List Share) (h : ByteIndices ss) (n d : Byte)
    → Skips i x.0 j ss
    → d ≢ byte_zero
    → Ratio x (points ss h) n d (basis_loop construct i x.0 j ss (basis_of n d))
unfolding basis_loop
basis_loop-Ratio i x j [] h n d k p = record {
  num = n;
  den = d;
  result = refl;
  den_ne = p;
  value = unfold weight in sym (gf.mul_one (gf.mul n (gf.inv d)));
}
basis_loop-Ratio i x j (s ∷ ss) h n d k p =
    let y : Byte = (s.index, h.0) in
    elim (Byte-discrete y x) [
      | yes e ↦
          let skipped : (i == j) ≡ true = k.0 ∙ (==_iff s.index x.0).1 (ap (λ (z : Byte). z.0) e) in
          let r = basis_loop-Ratio i x (j + 1) ss h.1 n d k.1 p in
          record {
            num = r.num;
            den = r.den;
            result = rw skipped r.result;
            den_ne = r.den_ne;
            value =
                r.value
                ∙ ap (gf.mul (gf.mul n (gf.inv d))) (sym (weight_self gf x y (points ss h.1) e));
          }
      | no m ↦
          let other : (s.index == x.0) ≡ false =
            ground (arith, λ (q : s.index ≡ x.0). m (Byte-path y x q)) in
          let used : (i == j) ≡ false = k.0 ∙ other in
          let r =
            basis_loop-Ratio i x (j + 1) ss h.1 (gf.mul n y) (gf.mul d (gf.add x y)) k.1
              (Field.mul-ne-zero gf d (gf.add x y) p (sub-ne-zero x y m)) in
          record {
            num = r.num;
            den = r.den;
            result = rw used r.result;
            den_ne = r.den_ne;
            value =
                r.value
                ∙ ratio_step x y n d (weight gf x (points ss h.1)) p m
                ∙ ap (gf.mul (gf.mul n (gf.inv d))) (sym (weight-other gf x y (points ss h.1) m));
          }
    ]

abbrev pub AllSkip : List Share → ℕ → List Share → Type 0
AllSkip shares i [] = Unit
AllSkip shares i (s ∷ ss) = Skips i s.index 0 shares × AllSkip shares (i + 1) ss

-- At this byte position the shares hold the values of `f` at their indices.
abbrev pub Holds : (Byte → Byte) → ℕ → (ss : List Share) → ByteIndices ss → Type 0
Holds f k [] h = Unit
Holds f k (s ∷ ss) h = (get_or s.payload k 0 ≡ (f (s.index, h.0)).0) × Holds f k ss h.1
