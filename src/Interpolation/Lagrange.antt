-- ===== src/Interpolation/Lagrange.antt =====
-- A polynomial with at most as many coefficients as there are distinct points is determined at 0
-- by its values at the points.
use mathlib.Core.Path.{fun_ext}
use ilr_module.Prelude.{
  ℕ, suc, ◌≤◌, List, [], ◌∷◌, ◌≡◌, ◌≢◌, refl, sym, ap, ap₂, ◌∙◌, arith, length,
}
use ilr_module.Interpolation.Field
use ilr_module.Interpolation.Field.{Field}
use ilr_module.Interpolation.Weights.{
  weight, weighted_sum, Distinct, weight_self, weighted_sum-swap, weighted_sum-add,
  weighted_sum-mul, weighted_sum-root,
}

module _ (F : Field) where
  open F use {
    Carrier, zero, one, add, neg, mul, inv, add_assoc, add_comm, add_zero, add_neg, mul_assoc,
    mul_comm, mul_one, mul-add, mul-inv,
  }

  abbrev sub : Carrier → Carrier → Carrier
  sub = Field.sub F

  -- The value of a polynomial, by its coefficients from the constant term on.
  unfoldable pub eval : List Carrier → Carrier → Carrier
  eval [] x = zero
  eval (c ∷ cs) x = add c (mul x (eval cs x))

  pub eval-zero : (c : Carrier) (cs : List Carrier) → eval (c ∷ cs) zero ≡ c
  unfolding eval
  eval-zero c cs = ap (add c) (Field.zero-mul F (eval cs zero)) ∙ add_zero c

  -- The quotient of X * A(X) - x0 * A(x0) by X - x0, where A has the coefficients `cs`.
  quotient : Carrier → List Carrier → List Carrier
  quotient x0 [] = []
  quotient x0 (c ∷ cs) = eval (c ∷ cs) x0 ∷ quotient x0 cs

  length-quotient : (x0 : Carrier) (cs : List Carrier) → length (quotient x0 cs) ≡ length cs
  unfolding quotient
  length-quotient x0 [] = refl
  length-quotient x0 (c ∷ cs) = ap suc (length-quotient x0 cs)

  split_point : (x x0 a : Carrier) → mul x a ≡ add (mul x0 a) (mul (sub x x0) a)
  split_point x x0 a =
      ap (λ y. mul y a) (sym (Field.add-sub F x x0) ∙ add_comm (sub x x0) x0)
      ∙ Field.add-mul F x0 (sub x x0) a

  quotient_lem :
      (x x0 : Carrier) (cs : List Carrier)
      → mul x (eval cs x) ≡ add (mul x0 (eval cs x0)) (mul (sub x x0) (eval (quotient x0 cs) x))
  unfolding eval quotient
  quotient_lem x x0 [] =
      Field.mul-zero F x
      ∙ sym (ap₂ add (Field.mul-zero F x0) (Field.mul-zero F (sub x x0)) ∙ add_zero zero)
  quotient_lem x x0 (c ∷ cs) =
      let q = eval (quotient x0 cs) x in
      let v = add c (mul x0 (eval cs x0)) in
      let d = sub x x0 in
      ap (λ t. mul x (add c t)) (quotient_lem x x0 cs)
      ∙ ap (mul x) (sym (add_assoc c (mul x0 (eval cs x0)) (mul d q)))
      ∙ mul-add x v (mul d q)
      ∙ ap₂ add (split_point x x0 v) (Field.mul_left_comm F x d q)
      ∙ add_assoc (mul x0 v) (mul d v) (mul d (mul x q))
      ∙ ap (add (mul x0 v)) (sym (mul-add d v (mul x q)))

  eval_split :
      (x x0 c : Carrier) (cs : List Carrier)
      → eval (c ∷ cs) x ≡ add (eval (c ∷ cs) x0) (mul (sub x x0) (eval (quotient x0 cs) x))
  unfolding eval
  eval_split x x0 c cs =
      ap (add c) (quotient_lem x x0 cs)
      ∙ sym (add_assoc c (mul x0 (eval cs x0)) (mul (sub x x0) (eval (quotient x0 cs) x)))

  weighted_sum-zero : (all pts : List Carrier) → weighted_sum F (λ x. zero) all pts ≡ zero
  unfolding weighted_sum
  weighted_sum-zero all [] = refl
  weighted_sum-zero all (x ∷ xs) =
      ap₂ add (Field.zero-mul F (weight F x all)) (weighted_sum-zero all xs) ∙ add_zero zero

  -- x1 - x0 as a difference of two functions with a root.
  two_roots :
      (x x0 x1 : Carrier)
      → mul (sub x1 x0) one ≡ add (mul (sub x x0) one) (mul (neg one) (mul (sub x x1) one))
  two_roots x x0 x1 =
      mul_one (sub x1 x0)
      ∙ sym (
          ap₂ add (mul_one (sub x x0)) (
            ap (mul (neg one)) (mul_one (sub x x1))
            ∙ Field.neg-mul F one (sub x x1)
            ∙ ap neg (Field.one-mul F (sub x x1))
            ∙ Field.neg-sub F x x1)
          ∙ add_comm (sub x x0) (sub x1 x)
          ∙ add_assoc x1 (neg x) (sub x x0)
          ∙ ap (add x1) (
              sym (add_assoc (neg x) x (neg x0))
              ∙ ap (λ t. add t (neg x0)) (add_comm (neg x) x ∙ add_neg x)
              ∙ Field.zero-add F (neg x0)))

  cancel_mul : (d s : Carrier) → d ≢ zero → mul d s ≡ d → s ≡ one
  cancel_mul d s n e =
      sym (Field.one-mul F s)
      ∙ ap (λ t. mul t s) (sym (mul-inv d n) ∙ mul_comm d (inv d))
      ∙ mul_assoc (inv d) d s
      ∙ ap (mul (inv d)) e
      ∙ mul_comm (inv d) d
      ∙ mul-inv d n

  negated_root : (x0 s : Carrier) → s ≡ one → mul (neg x0) s ≡ neg x0
  negated_root x0 s e = ap (mul (neg x0)) e ∙ mul_one (neg x0)

  -- The weights of one or more distinct points sum to one.
  sum_of_weights :
      (n : ℕ) (x0 : Carrier) (xs : List Carrier)
      → length xs ≤ n
      → Distinct F (x0 ∷ xs)
      → weighted_sum F (λ x. one) (x0 ∷ xs) (x0 ∷ xs) ≡ one
  unfolding weighted_sum weight
  sum_of_weights n x0 [] h d =
      add_zero (mul one (weight F x0 (x0 ∷ [])))
      ∙ ap (mul one) (weight_self F x0 x0 [] refl)
      ∙ mul_one one
  sum_of_weights ℕ.zero x0 (x1 ∷ xs) h d = absurd (omega arith)
  sum_of_weights (suc n) x0 (x1 ∷ xs) h d =
      let pts = x0 ∷ x1 ∷ xs in
      let d1 = sub x1 x0 in
      cancel_mul d1 (weighted_sum F (λ x. one) pts pts) (λ e. d.0.0 (Field.eq_of_sub F x1 x0 e))
        (sym (weighted_sum-mul F d1 (λ x. one) pts pts)
          ∙ ap (λ (f : Carrier → Carrier). weighted_sum F f pts pts)
              (fun_ext (λ x. two_roots x x0 x1))
          ∙ weighted_sum-add F (λ x. mul (sub x x0) one) (λ x. mul (neg one) (mul (sub x x1) one))
              pts pts
          ∙ ap₂ add
              (weighted_sum-root F (λ x. one) x0 (x1 ∷ xs) d.0
                ∙ negated_root x0 _ (sum_of_weights n x1 xs (omega arith) d.1))
              (weighted_sum-mul F (neg one) (λ x. mul (sub x x1) one) pts pts
                ∙ ap (mul (neg one)) (
                    weighted_sum-swap F (λ x. mul (sub x x1) one) x0 x1 xs
                    ∙ weighted_sum-root F (λ x. one) x1 (x0 ∷ xs) ((λ e. d.0.0 (sym e)), d.1.0)
                    ∙ negated_root x1 _ (sum_of_weights n x0 xs (omega arith) (d.0.1, d.1.1)))
                ∙ Field.neg-mul F one (neg x1)
                ∙ ap neg (Field.one-mul F (neg x1))
                ∙ Field.neg-neg F x1)
          ∙ add_comm (neg x0) x1)

  -- The weighted sum of a polynomial's values at distinct points is its value at 0.
  pub interpolation :
      (cs xs : List Carrier)
      → length cs ≤ length xs
      → Distinct F xs
      → weighted_sum F (eval cs) xs xs ≡ eval cs zero
  interpolation [] xs h d = unfold eval in weighted_sum-zero xs xs
  interpolation (c ∷ cs) [] h d = absurd (omega arith)
  interpolation (c ∷ cs) (x0 ∷ xs) h d =
      let pts = x0 ∷ xs in
      let v = eval (c ∷ cs) x0 in
      let q = quotient x0 cs in
      ap (λ (f : Carrier → Carrier). weighted_sum F f pts pts)
        (fun_ext (λ x.
          eval_split x x0 c cs ∙ ap (λ t. add t (mul (sub x x0) (eval q x))) (sym (mul_one v))))
      ∙ weighted_sum-add F (λ x. mul v one) (λ x. mul (sub x x0) (eval q x)) pts pts
      ∙ ap₂ add
          (weighted_sum-mul F v (λ x. one) pts pts
            ∙ ap (mul v) (sum_of_weights (length xs) x0 xs (omega arith) d)
            ∙ mul_one v)
          (weighted_sum-root F (eval q) x0 xs d.0
            ∙ ap (mul (neg x0)) (interpolation q xs (omega (arith, length-quotient x0 cs)) d.1)
            ∙ ap (λ t. mul t (eval q zero)) (sym (Field.zero-add F (neg x0))))
      ∙ sym (eval_split zero x0 c cs)
