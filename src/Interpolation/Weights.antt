-- ===== src/Interpolation/Weights.antt =====
-- The Lagrange weights at 0 of a list of points, and sums of values with these weights.
use mathlib.Core.Logic.{ite, if_pos, if_neg}
use ilr_module.Prelude.{List, [], ◌∷◌, ◌≡◌, ◌≢◌, refl, sym, ap, ap₂, ◌∙◌}
use ilr_module.Interpolation.Field
use ilr_module.Interpolation.Field.{Field}

module _ (F : Field) where
  open F use {
    Carrier, zero, one, add, neg, mul, inv, discrete, add_assoc, add_comm, add_zero, add_neg,
    mul_assoc, mul_comm, mul_one, mul-add, mul-inv,
  }

  abbrev sub : Carrier → Carrier → Carrier
  sub = Field.sub F

  -- The factor that the point `y` contributes to the weight of the point `x`.
  abbrev pub factor : Carrier → Carrier → Carrier
  factor x y = mul y (inv (sub y x))

  -- The product of the factors of all points but `x` itself.
  unfoldable pub weight : Carrier → List Carrier → Carrier
  weight x [] = one
  weight x (y ∷ ys) = ite (discrete y x) (weight x ys) (mul (factor x y) (weight x ys))

  unfoldable pub weighted_sum : (Carrier → Carrier) → List Carrier → List Carrier → Carrier
  weighted_sum f all [] = zero
  weighted_sum f all (x ∷ xs) = add (mul (f x) (weight x all)) (weighted_sum f all xs)

  abbrev pub NotIn : Carrier → List Carrier → Type 0
  NotIn x [] = Unit
  NotIn x (y ∷ ys) = (y ≢ x) × NotIn x ys

  abbrev pub Distinct : List Carrier → Type 0
  Distinct [] = Unit
  Distinct (x ∷ xs) = NotIn x xs × Distinct xs

  pub weight_self : (x y : Carrier) (ys : List Carrier) → y ≡ x → weight x (y ∷ ys) ≡ weight x ys
  unfolding weight
  weight_self x y ys e = if_pos (discrete y x) e _ _

  pub weight-other :
      (x y : Carrier) (ys : List Carrier)
      → y ≢ x
      → weight x (y ∷ ys) ≡ mul (factor x y) (weight x ys)
  unfolding weight
  weight-other x y ys n = if_neg (discrete y x) n _ _

  weight-swap :
      (x a b : Carrier) (xs : List Carrier) → weight x (a ∷ b ∷ xs) ≡ weight x (b ∷ a ∷ xs)
  weight-swap x a b xs = elim (discrete a x) [
    | yes e ↦ elim (discrete b x) [
      | yes f ↦ rw (e, f) refl
      | no m ↦
          weight_self x a (b ∷ xs) e
          ∙ weight-other x b xs m
          ∙ sym (weight-other x b (a ∷ xs) m ∙ ap (mul (factor x b)) (weight_self x a xs e))
    ]
    | no n ↦ elim (discrete b x) [
      | yes f ↦
          weight-other x a (b ∷ xs) n
          ∙ ap (mul (factor x a)) (weight_self x b xs f)
          ∙ sym (weight_self x b (a ∷ xs) f ∙ weight-other x a xs n)
      | no m ↦
          weight-other x a (b ∷ xs) n
          ∙ ap (mul (factor x a)) (weight-other x b xs m)
          ∙ Field.mul_left_comm F (factor x a) (factor x b) (weight x xs)
          ∙ sym (weight-other x b (a ∷ xs) m ∙ ap (mul (factor x b)) (weight-other x a xs n))
    ]
  ]

  weighted_sum-cong :
      (f : Carrier → Carrier) (all others pts : List Carrier)
      → ((x : Carrier) → weight x all ≡ weight x others)
      → weighted_sum f all pts ≡ weighted_sum f others pts
  unfolding weighted_sum
  weighted_sum-cong f all others [] h = refl
  weighted_sum-cong f all others (x ∷ xs) h =
      ap₂ add (ap (mul (f x)) (h x)) (weighted_sum-cong f all others xs h)

  -- The order of the first two points does not matter.
  pub weighted_sum-swap :
      (f : Carrier → Carrier) (a b : Carrier) (xs : List Carrier)
      → weighted_sum f (a ∷ b ∷ xs) (a ∷ b ∷ xs) ≡ weighted_sum f (b ∷ a ∷ xs) (b ∷ a ∷ xs)
  unfolding weighted_sum
  weighted_sum-swap f a b xs =
      Field.add_left_comm F (mul (f a) (weight a (a ∷ b ∷ xs))) (mul (f b) (weight b (a ∷ b ∷ xs)))
        (weighted_sum f (a ∷ b ∷ xs) xs)
      ∙ ap₂ add (ap (mul (f b)) (weight-swap b a b xs)) (
          ap₂ add (ap (mul (f a)) (weight-swap a a b xs))
            (weighted_sum-cong f (a ∷ b ∷ xs) (b ∷ a ∷ xs) xs (λ x. weight-swap x a b xs)))

  pub weighted_sum-add :
      (f g : Carrier → Carrier) (all pts : List Carrier)
      → weighted_sum (λ x. add (f x) (g x)) all pts
        ≡ add (weighted_sum f all pts) (weighted_sum g all pts)
  unfolding weighted_sum
  weighted_sum-add f g all [] = sym (add_zero zero)
  weighted_sum-add f g all (x ∷ xs) =
      ap₂ add (Field.add-mul F (f x) (g x) (weight x all)) (weighted_sum-add f g all xs)
      ∙ Field.add_swap F (mul (f x) (weight x all)) (mul (g x) (weight x all))
          (weighted_sum f all xs) (weighted_sum g all xs)

  pub weighted_sum-mul :
      (c : Carrier) (f : Carrier → Carrier) (all pts : List Carrier)
      → weighted_sum (λ x. mul c (f x)) all pts ≡ mul c (weighted_sum f all pts)
  unfolding weighted_sum
  weighted_sum-mul c f all [] = sym (Field.mul-zero F c)
  weighted_sum-mul c f all (x ∷ xs) =
      ap₂ add (mul_assoc c (f x) (weight x all)) (weighted_sum-mul c f all xs)
      ∙ sym (mul-add c (mul (f x) (weight x all)) (weighted_sum f all xs))

  -- The difference to a point cancels that point's factor.
  cancel_factor : (x x0 : Carrier) → x0 ≢ x → mul (sub x x0) (factor x x0) ≡ neg x0
  cancel_factor x x0 n =
      Field.mul_left_comm F (sub x x0) x0 (inv (sub x0 x))
      ∙ ap (λ d. mul x0 (mul d (inv (sub x0 x)))) (sym (Field.neg-sub F x0 x))
      ∙ ap (mul x0) (Field.neg-mul F (sub x0 x) (inv (sub x0 x)))
      ∙ ap (λ d. mul x0 (neg d)) (mul-inv (sub x0 x) (λ e. n (Field.eq_of_sub F x0 x e)))
      ∙ Field.mul-neg F x0 one
      ∙ ap neg (mul_one x0)

  shift_term :
      (g x x0 w : Carrier)
      → x0 ≢ x
      → mul (mul (sub x x0) g) (mul (factor x x0) w) ≡ mul (neg x0) (mul g w)
  shift_term g x x0 w n =
      Field.mul_swap F (sub x x0) g (factor x x0) w
      ∙ ap (λ d. mul d (mul g w)) (cancel_factor x x0 n)

  shift_sum :
      (g : Carrier → Carrier) (x0 : Carrier) (all pts : List Carrier)
      → NotIn x0 pts
      → weighted_sum (λ x. mul (sub x x0) (g x)) (x0 ∷ all) pts
        ≡ mul (neg x0) (weighted_sum g all pts)
  unfolding weighted_sum
  shift_sum g x0 all [] d = sym (Field.mul-zero F (neg x0))
  shift_sum g x0 all (x ∷ xs) d =
      ap₂ add
        (ap (mul (mul (sub x x0) (g x))) (weight-other x x0 all (λ e. d.0 (sym e)))
          ∙ shift_term (g x) x x0 (weight x all) (λ e. d.0 (sym e)))
        (shift_sum g x0 all xs d.1)
      ∙ sym (mul-add (neg x0) (mul (g x) (weight x all)) (weighted_sum g all xs))

  -- A function with a root at the first point: its sum is a sum over the other points.
  pub weighted_sum-root :
      (g : Carrier → Carrier) (x0 : Carrier) (xs : List Carrier)
      → NotIn x0 xs
      → weighted_sum (λ x. mul (sub x x0) (g x)) (x0 ∷ xs) (x0 ∷ xs)
        ≡ mul (neg x0) (weighted_sum g xs xs)
  unfolding weighted_sum
  weighted_sum-root g x0 xs d =
      ap₂ add
        (ap (λ s. mul (mul s (g x0)) (weight x0 (x0 ∷ xs))) (add_neg x0)
          ∙ ap (λ s. mul s (weight x0 (x0 ∷ xs))) (Field.zero-mul F (g x0))
          ∙ Field.zero-mul F (weight x0 (x0 ∷ xs)))
        (shift_sum g x0 xs xs d)
      ∙ Field.zero-add F (mul (neg x0) (weighted_sum g xs xs))
