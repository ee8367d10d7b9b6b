-- ===== src/Interpolation/Field.antt =====
-- A field with decidable equality, and the equations of sums and products that interpolation uses.
use ilr_module.Prelude.{◌≡◌, ◌≢◌, sym, ap, ap₂, ◌∙◌}

pub record Field : Type 1 where
  pub Carrier : Type 0
  pub zero : Carrier
  pub one : Carrier
  pub add : Carrier → Carrier → Carrier
  pub neg : Carrier → Carrier
  pub mul : Carrier → Carrier → Carrier
  pub inv : Carrier → Carrier
  pub discrete : Discrete Carrier
  pub add_assoc : (a b c : Carrier) → add (add a b) c ≡ add a (add b c)
  pub add_comm : (a b : Carrier) → add a b ≡ add b a
  pub add_zero : (a : Carrier) → add a zero ≡ a
  pub add_neg : (a : Carrier) → add a (neg a) ≡ zero
  pub mul_assoc : (a b c : Carrier) → mul (mul a b) c ≡ mul a (mul b c)
  pub mul_comm : (a b : Carrier) → mul a b ≡ mul b a
  pub mul_one : (a : Carrier) → mul a one ≡ a
  pub mul-add : (a b c : Carrier) → mul a (add b c) ≡ add (mul a b) (mul a c)
  pub mul-inv : (a : Carrier) → a ≢ zero → mul a (inv a) ≡ one

module _ (F : Field) where
  open F use {
    Carrier, zero, one, add, neg, mul, inv, add_assoc, add_comm, add_zero, add_neg, mul_assoc,
    mul_comm, mul_one, mul-add, mul-inv,
  }

  abbrev pub sub : Carrier → Carrier → Carrier
  sub a b = add a (neg b)

  pub zero-add : (a : Carrier) → add zero a ≡ a
  zero-add a = add_comm zero a ∙ add_zero a

  pub one-mul : (a : Carrier) → mul one a ≡ a
  one-mul a = mul_comm one a ∙ mul_one a

  pub add-mul : (a b c : Carrier) → mul (add a b) c ≡ add (mul a c) (mul b c)
  add-mul a b c = mul_comm (add a b) c ∙ mul-add c a b ∙ ap₂ add (mul_comm c a) (mul_comm c b)

  pub add_swap : (a b c d : Carrier) → add (add a b) (add c d) ≡ add (add a c) (add b d)
  add_swap a b c d =
      add_assoc a b (add c d)
      ∙ ap (add a) (sym (add_assoc b c d) ∙ ap (λ x. add x d) (add_comm b c) ∙ add_assoc c b d)
      ∙ sym (add_assoc a c (add b d))

  pub add_left_comm : (a b c : Carrier) → add a (add b c) ≡ add b (add a c)
  add_left_comm a b c = sym (add_assoc a b c) ∙ ap (λ x. add x c) (add_comm a b) ∙ add_assoc b a c

  pub mul_left_comm : (a b c : Carrier) → mul a (mul b c) ≡ mul b (mul a c)
  mul_left_comm a b c = sym (mul_assoc a b c) ∙ ap (λ x. mul x c) (mul_comm a b) ∙ mul_assoc b a c

  pub mul_swap : (a b c d : Carrier) → mul (mul a b) (mul c d) ≡ mul (mul a c) (mul b d)
  mul_swap a b c d =
      mul_assoc a b (mul c d) ∙ ap (mul a) (mul_left_comm b c d) ∙ sym (mul_assoc a c (mul b d))

  pub cancel : (a b c : Carrier) → add a c ≡ add b c → a ≡ b
  cancel a b c e =
      sym (add_zero a)
      ∙ ap (add a) (sym (add_neg c))
      ∙ sym (add_assoc a c (neg c))
      ∙ ap (λ x. add x (neg c)) e
      ∙ add_assoc b c (neg c)
      ∙ ap (add b) (add_neg c)
      ∙ add_zero b

  pub mul-zero : (a : Carrier) → mul a zero ≡ zero
  mul-zero a =
      cancel (mul a zero) zero (mul a zero)
        (sym (mul-add a zero zero) ∙ ap (mul a) (add_zero zero) ∙ sym (zero-add (mul a zero)))

  pub zero-mul : (a : Carrier) → mul zero a ≡ zero
  zero-mul a = mul_comm zero a ∙ mul-zero a

  pub add-sub : (a b : Carrier) → add (sub a b) b ≡ a
  add-sub a b = add_assoc a (neg b) b ∙ ap (add a) (add_comm (neg b) b ∙ add_neg b) ∙ add_zero a

  pub eq_of_sub : (a b : Carrier) → sub a b ≡ zero → a ≡ b
  eq_of_sub a b e = sym (add-sub a b) ∙ ap (λ x. add x b) e ∙ zero-add b

  pub mul-neg : (a b : Carrier) → mul a (neg b) ≡ neg (mul a b)
  mul-neg a b = cancel (mul a (neg b)) (neg (mul a b)) (mul a b) (
      sym (mul-add a (neg b) b)
      ∙ ap (mul a) (add_comm (neg b) b ∙ add_neg b)
      ∙ mul-zero a
      ∙ sym (add_comm (neg (mul a b)) (mul a b) ∙ add_neg (mul a b)))

  pub neg-mul : (a b : Carrier) → mul (neg a) b ≡ neg (mul a b)
  neg-mul a b = mul_comm (neg a) b ∙ mul-neg b a ∙ ap neg (mul_comm b a)

  pub neg-neg : (a : Carrier) → neg (neg a) ≡ a
  neg-neg a =
      cancel (neg (neg a)) a (neg a)
        (add_comm (neg (neg a)) (neg a) ∙ add_neg (neg a) ∙ sym (add_neg a))

  pub neg-sub : (a b : Carrier) → neg (sub a b) ≡ sub b a
  neg-sub a b = cancel (neg (sub a b)) (sub b a) (sub a b) (
      add_comm (neg (sub a b)) (sub a b)
      ∙ add_neg (sub a b)
      ∙ sym (
          add_comm (sub b a) (sub a b)
          ∙ add_assoc a (neg b) (sub b a)
          ∙ ap (add a) (
              sym (add_assoc (neg b) b (neg a))
              ∙ ap (λ x. add x (neg a)) (add_comm (neg b) b ∙ add_neg b)
              ∙ zero-add (neg a))
          ∙ add_neg a))

  -- The inverse is determined by its law.
  pub inv_unique : (a b : Carrier) → a ≢ zero → mul a b ≡ one → b ≡ inv a
  inv_unique a b n e =
      sym (mul_one b)
      ∙ ap (mul b) (sym (mul-inv a n))
      ∙ mul_left_comm b a (inv a)
      ∙ sym (mul_assoc a b (inv a))
      ∙ ap (λ x. mul x (inv a)) e
      ∙ one-mul (inv a)

  pub zero≢one_of : (a : Carrier) → a ≢ zero → one ≢ zero
  zero≢one_of a n e = n (sym (mul_one a) ∙ ap (mul a) e ∙ mul-zero a)

  pub mul-ne-zero : (a b : Carrier) → a ≢ zero → b ≢ zero → mul a b ≢ zero
  mul-ne-zero a b n m e = m (
      sym (one-mul b)
      ∙ ap (λ x. mul x b) (sym (mul-inv a n) ∙ mul_comm a (inv a))
      ∙ mul_assoc (inv a) a b
      ∙ ap (mul (inv a)) e
      ∙ mul-zero (inv a))

  pub inv-mul : (a b : Carrier) → a ≢ zero → b ≢ zero → inv (mul a b) ≡ mul (inv a) (inv b)
  inv-mul a b n m = sym (
      inv_unique (mul a b) (mul (inv a) (inv b)) (mul-ne-zero a b n m)
        (mul_swap a b (inv a) (inv b) ∙ ap₂ mul (mul-inv a n) (mul-inv b m) ∙ mul_one one))
