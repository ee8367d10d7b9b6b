-- ===== src/Bls/Coefficient.antt =====
-- computeLagrangeCoefficient and the sum of reconstructSecret, in the field of residues.
use native.Mathlib.Nat.{add-mod-mod, mod-eq_of_lt}
use native.Mathlib.Decide.{ℕ_discrete}
use ilr_module.Prelude.{
  ℕ, suc, ◌+◌, ◌-◌, ◌*◌, ◌%◌, ◌<◌, ◌≡◌, ◌≢◌, refl, sym, ap, ap₂, ◌∙◌, List, [], ◌∷◌, map, All,
  length, arith, true, false, ◌==◌,
}
use ilr_module.Interpolation.Field
use ilr_module.Interpolation.Field.{Field}
use ilr_module.Interpolation.Weights.{
  weight, weighted_sum, factor, weight_self, weight-other, Distinct, NotIn,
}
use ilr_module.Bls.{
  KeyShare, bytes_to_big_int, lagrange_loop, compute_lagrange_coefficient, secret_loop, mod_inverse,
}
use ilr_module.Bls.Residues
use ilr_module.Bls.Residues.{IsScalarOrder, Residue, residues, mod_inverse-inv}

abbrev pub Below : ℕ → List ℕ → Type 0
Below q js = All (λ j. j < q) js

abbrev pub AllDistinct : List ℕ → Type 0
AllDistinct [] = Unit
AllDistinct (j ∷ js) = All (λ k. k ≢ j) js × AllDistinct js

abbrev pub indices : List KeyShare → List ℕ
indices ss = map (λ (s : KeyShare). s.index) ss

module _ (q : ℕ) (prime : IsScalarOrder q) where
  abbrev F : Field
  F = residues q prime

  abbrev pub points : (js : List ℕ) → Below q js → List (Residue q prime)
  points [] h = []
  points (j ∷ js) h = (j, h.0) ∷ points js h.1

  open residues q prime use {add, mul, inv, neg}

  abbrev sub : Residue q prime → Residue q prime → Residue q prime
  sub a b = add a (neg b)

  record Ratio (i : ℕ) (x : Residue q prime) (js : List ℕ) (h : Below q js) (n d : Residue q prime)
      : Type 0 where
    pub num : Residue q prime
    pub den : Residue q prime
    pub result : lagrange_loop q i js n.0 d.0 ≡ (num.0, den.0)
    pub den_ne : den ≢ Residues.residue q prime 0
    pub value : mul num (inv den) ≡ mul (mul n (inv d)) (weight F x (points js h))

  difference : (y x : Residue q prime) → (y.0 + q - x.0) % q ≡ (sub y x).0
  difference y x = ap (λ t. t % q) (omega (arith, x.1)) ∙ sym (add-mod-mod y.0 (q - x.0) q)

  sub-ne-zero : (x y : Residue q prime) → y ≢ x → sub y x ≢ Residues.residue q prime 0
  sub-ne-zero x y n e = n (Field.eq_of_sub F y x e)

  ratio_step :
      (x y n d w : Residue q prime)
      → d ≢ Residues.residue q prime 0
      → y ≢ x
      → mul (mul (mul n y) (inv (mul d (sub y x)))) w ≡ mul (mul n (inv d)) (mul (factor F x y) w)
  ratio_step x y n d w p k =
      ap (λ t. mul t w)
        (ap (mul (mul n y)) (Field.inv-mul F d (sub y x) p (sub-ne-zero x y k))
          ∙ Field.mul_swap F n y (inv d) (inv (sub y x)))
      ∙ Field.mul_assoc F (mul n (inv d)) (factor F x y) w

  lagrange_loop-Ratio :
      (x : Residue q prime) (js : List ℕ) (h : Below q js) (n d : Residue q prime)
      → d ≢ Residues.residue q prime 0
      → Ratio x.0 x js h n d
  unfolding lagrange_loop
  lagrange_loop-Ratio x [] h n d p = record {
    num = n;
    den = d;
    result = refl;
    den_ne = p;
    value = unfold weight in sym (Field.mul_one F (mul n (inv d)));
  }
  lagrange_loop-Ratio x (j ∷ js) h n d p =
      let y : Residue q prime = (j, h.0) in
      elim (ℕ_discrete j x.0) [
        | yes e ↦
            let r = lagrange_loop-Ratio x js h.1 n d p in
            let test : (j == x.0) ≡ true = ground (arith, e) in
            record {
              num = r.num;
              den = r.den;
              result = rw test r.result;
              den_ne = r.den_ne;
              value =
                  r.value
                  ∙ ap (mul (mul n (inv d))) (
                      sym
                        (weight_self F x y (points js h.1) (Residues.Residue-path q prime y x e)));
            }
        | no k ↦
            let other : y ≢ x = λ e. k (ap (λ (t : Residue q prime). t.0) e) in
            let test : (j == x.0) ≡ false = ground (arith, k) in
            let r =
              lagrange_loop-Ratio x js h.1 (mul n y) (mul d (sub y x))
                (Field.mul-ne-zero F d (sub y x) p (sub-ne-zero x y other)) in
            record {
              num = r.num;
              den = r.den;
              result = rw test (
                  ap (λ t. lagrange_loop q x.0 js ((n.0 * j) % q) ((d.0 * t) % q)) (difference y x)
                  ∙ r.result);
              den_ne = r.den_ne;
              value =
                  r.value
                  ∙ ratio_step x y n d (weight F x (points js h.1)) p other
                  ∙ ap (mul (mul n (inv d))) (sym (weight-other F x y (points js h.1) other));
            }
      ]

  abbrev unit : Residue q prime
  unit = (1, omega (arith, prime.above))

  unit-one : unit ≡ Residues.residue q prime 1
  unit-one =
      Residues.Residue-path q prime unit (Residues.residue q prime 1)
        (sym (mod-eq_of_lt (omega (arith, prime.above))))

  unit_ne_zero : unit ≢ Residues.residue q prime 0
  unit_ne_zero e =
      absurd (
        omega
          (arith, ap (λ (t : Residue q prime). t.0) e, mod-eq_of_lt (Residues.positive q prime)))

  pub compute_lagrange_coefficient-weight :
      (x : Residue q prime) (js : List ℕ) (h : Below q js)
      → compute_lagrange_coefficient q x.0 js ≡ (weight F x (points js h)).0
  unfolding compute_lagrange_coefficient
  compute_lagrange_coefficient-weight x js h =
      let r = lagrange_loop-Ratio x js h unit unit unit_ne_zero in
      ap (λ (t : ℕ × ℕ). (t.0 * mod_inverse t.1 q) % q) r.result
      ∙ ap (λ t. (r.num.0 * t) % q) (mod_inverse-inv q prime r.den)
      ∙ ap (λ (t : Residue q prime). t.0)
          (r.value
            ∙ ap (λ t. mul t (weight F x (points js h))) (Field.mul-inv F unit unit_ne_zero)
            ∙ Field.one-mul F (weight F x (points js h)))

  -- The shares hold the values of `f` at their indices.
  abbrev pub Holds :
      (Residue q prime → Residue q prime) → (ss : List KeyShare) → Below q (indices ss) → Type 0
  Holds f [] h = Unit
  Holds f (s ∷ ss) h = (bytes_to_big_int s.secret_share ≡ (f (s.index, h.0)).0) × Holds f ss h.1

  pub secret_loop-sum :
      (f : Residue q prime → Residue q prime) (js : List ℕ) (k : Below q js) (ss : List KeyShare)
      (h : Below q (indices ss)) (s : Residue q prime)
      → Holds f ss h
      → secret_loop q js ss s.0 ≡ (add s (weighted_sum F f (points js k) (points (indices ss) h))).0
  unfolding secret_loop weighted_sum
  secret_loop-sum f js k [] h s b = ap (λ (t : Residue q prime). t.0) (sym (Field.add_zero F s))
  secret_loop-sum f js k (u ∷ ss) h s b =
      let x : Residue q prime = (u.index, h.0) in
      let w = weight F x (points js k) in
      let rest = weighted_sum F f (points js k) (points (indices ss) h.1) in
      ap₂ (λ c v. secret_loop q js ss ((s.0 + c * v) % q))
        (compute_lagrange_coefficient-weight x js k) b.0
      ∙ ap (secret_loop q js ss) (
          sym (add-mod-mod s.0 (w.0 * (f x).0) q)
          ∙ ap (λ (t : Residue q prime). (s.0 + t.0) % q) (Field.mul_comm F w (f x)))
      ∙ secret_loop-sum f js k ss h.1 (add s (mul (f x) w)) b.1
      ∙ ap (λ (t : Residue q prime). t.0) (Field.add_assoc F s (mul (f x) w) rest)

  not_in :
      (j : ℕ) (p : j < q) (js : List ℕ) (h : Below q js)
      → All (λ k. k ≢ j) js
      → NotIn F (j, p) (points js h)
  not_in j p [] h d = tt
  not_in j p (k ∷ js) h d =
      ((λ e. d.0 (ap (λ (t : Residue q prime). t.0) e)), not_in j p js h.1 d.1)

  pub Distinct-points : (js : List ℕ) (h : Below q js) → AllDistinct js → Distinct F (points js h)
  Distinct-points [] h d = tt
  Distinct-points (j ∷ js) h d = (not_in j h.0 js h.1 d.0, Distinct-points js h.1 d.1)

  pub length-points : (js : List ℕ) (h : Below q js) → length (points js h) ≡ length js
  length-points [] h = refl
  length-points (j ∷ js) h = ap suc (length-points js h.1)
