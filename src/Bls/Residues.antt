-- ===== src/Bls/Residues.antt =====
-- The residues of the scalar order as a field, and the polynomial of a share in that field.
use native.Mathlib.Bridge.{le_prop}
use native.Mathlib.Decide.{ℕ_discrete}
use native.Mathlib.Nat.{mod-lt, mod-eq_of_lt, mod_self, mod-add-mod, add-mod-mod}
use mathlib.Core.HLevel.{Σ_prop_path}
use ilr_module.Prelude.{
  ℕ, zero, suc, ◌+◌, ◌-◌, ◌*◌, ◌%◌, ◌^◌, ◌<◌, ◌≤◌, ◌≡◌, ◌≢◌, sym, ap, ap₂, ◌∙◌, List, [], ◌∷◌, map,
  arith,
}
use ilr_module.Interpolation.Field
use ilr_module.Interpolation.Field.{Field}
use ilr_module.Interpolation.Lagrange.{eval}
use ilr_module.Bls.{polynomial_loop, evaluate_polynomial, mod_inverse}
use ilr_module.Bls.Numbers.{mod-mul_left, mod-mul_right}
use ilr_module.Bls.Power.{mod_pow-eq}

-- What is relied on of the order of the scalars: it is above 2, its residues fit 32 bytes, and it
-- obeys Fermat's theorem, as a prime does.
pub record IsScalarOrder (q : ℕ) : Type 0 where
  pub above : 2 < q
  pub fits : q ≤ 256 ^ 32
  pub fermat : (a : ℕ) → 0 < a → a < q → (a * a ^ (q - 2)) % q ≡ 1

module _ (q : ℕ) (prime : IsScalarOrder q) where
  pub positive : 0 < q
  positive = omega (arith, prime.above)

  abbrev pub Residue : Type 0
  Residue = (n : ℕ) × (n < q)

  pub Residue-path : (a b : Residue) → a.0 ≡ b.0 → a ≡ b
  Residue-path a b e = Σ_prop_path (λ n. le_prop) e

  pub Residue-discrete : Discrete Residue
  Residue-discrete a b = elim (ℕ_discrete a.0 b.0) [
    | yes e ↦ yes (Residue-path a b e)
    | no n ↦ no (λ e. n (ap (λ (x : Residue). x.0) e))
  ]

  abbrev pub residue : ℕ → Residue
  residue n = (n % q, mod-lt n positive)

  pub pos_of_ne : (a : Residue) → a ≢ residue 0 → 0 < a.0
  pos_of_ne (zero, p) n = absurd (n (Residue-path (0, p) (residue 0) (sym (mod-eq_of_lt p))))
  pos_of_ne (suc a, p) n = omega arith

  pub distrib : (a b c : ℕ) → a * (b + c) ≡ a * b + a * c
  distrib a b c = omega arith

  pub assoc : (a b c : ℕ) → a * b * c ≡ a * (b * c)
  assoc a b c = omega arith

  abbrev r_add : Residue → Residue → Residue
  r_add a b = residue (a.0 + b.0)

  abbrev r_neg : Residue → Residue
  r_neg a = residue (q - a.0)

  abbrev r_mul : Residue → Residue → Residue
  r_mul a b = residue (a.0 * b.0)

  abbrev r_inv : Residue → Residue
  r_inv a = residue (a.0 ^ (q - 2))

  abbrev pub residues : Field
  residues = record {
    Carrier = Residue;
    zero = residue 0;
    one = residue 1;
    add = r_add;
    neg = r_neg;
    mul = r_mul;
    inv = r_inv;
    discrete = Residue-discrete;
    add_assoc = λ a b c. Residue-path _ _ (
        mod-add-mod (a.0 + b.0) q c.0
        ∙ ap (λ t. t % q) (omega arith)
        ∙ sym (add-mod-mod a.0 (b.0 + c.0) q));
    add_comm = λ a b. Residue-path _ _ (ap (λ t. t % q) (omega arith));
    add_zero = λ a.
        Residue-path _ _ (add-mod-mod a.0 0 q ∙ ap (λ t. t % q) (omega arith) ∙ mod-eq_of_lt a.1);
    add_neg = λ a. Residue-path _ _ (
        add-mod-mod a.0 (q - a.0) q
        ∙ ap (λ t. t % q) (omega (arith, a.1))
        ∙ mod_self q
        ∙ sym (mod-eq_of_lt positive));
    mul_assoc = λ a b c. Residue-path _ _ (
        mod-mul_left (a.0 * b.0) c.0 q
        ∙ ap (λ t. t % q) (assoc a.0 b.0 c.0)
        ∙ sym (mod-mul_right a.0 (b.0 * c.0) q));
    mul_comm = λ a b. Residue-path _ _ (ap (λ t. t % q) (omega arith));
    mul_one = λ a.
        Residue-path _ _ (mod-mul_right a.0 1 q ∙ ap (λ t. t % q) (omega arith) ∙ mod-eq_of_lt a.1);
    mul-add = λ a b c. Residue-path _ _ (
        mod-mul_right a.0 (b.0 + c.0) q
        ∙ ap (λ t. t % q) (distrib a.0 b.0 c.0)
        ∙ sym
            (mod-add-mod (a.0 * b.0) q ((a.0 * c.0) % q) ∙ add-mod-mod (a.0 * b.0) (a.0 * c.0) q));
    mul-inv = λ a n. Residue-path _ _ (
        mod-mul_right a.0 (a.0 ^ (q - 2)) q
        ∙ prime.fermat a.0 (pos_of_ne a n) a.1
        ∙ sym (mod-eq_of_lt (omega (arith, prime.above))));
  }

  open residues use {add, mul, inv}

  -- modInverse is the inverse of the field.
  pub mod_inverse-inv : (a : Residue) → mod_inverse a.0 q ≡ (inv a).0
  unfolding mod_inverse
  mod_inverse-inv a = mod_pow-eq a.0 (q - 2) q (omega (arith, prime.above))

  -- The loop adds the value of the polynomial, weighted by the power it has reached.
  polynomial_loop-eval :
      (cs : List ℕ) (x r p : Residue)
      → polynomial_loop q x.0 cs r.0 p.0 ≡ (add r (mul p (eval residues (map residue cs) x))).0
  unfolding polynomial_loop eval
  polynomial_loop-eval [] x r p =
      ap (λ (t : Residue). t.0)
        (sym (residues.add_zero r) ∙ ap (add r) (sym (Field.mul-zero residues p)))
  polynomial_loop-eval (c ∷ cs) x r p =
      let e = eval residues (map residue cs) x in
      polynomial_loop-eval cs x (residue (r.0 + c * p.0)) (mul p x)
      ∙ ap (λ (t : Residue). (add t (mul (mul p x) e)).0)
          (Residue-path (residue (r.0 + c * p.0)) (add r (mul p (residue c))) (
            ap (λ t. (r.0 + t) % q) (omega arith)
            ∙ sym (ap (λ t. (r.0 + t) % q) (mod-mul_right p.0 c q) ∙ add-mod-mod r.0 (p.0 * c) q)))
      ∙ ap (λ (t : Residue). t.0)
          (residues.add_assoc r (mul p (residue c)) (mul (mul p x) e)
            ∙ ap (add r) (
                ap (add (mul p (residue c))) (residues.mul_assoc p x e)
                ∙ sym (residues.mul-add p (residue c) (mul x e))))

  -- evaluatePolynomial is the value of the polynomial whose coefficients are the residues.
  pub evaluate_polynomial-eval :
      (cs : List ℕ) (x : ℕ)
      → x < q
      → evaluate_polynomial q cs x ≡ (eval residues (map residue cs) (residue x)).0
  unfolding evaluate_polynomial
  evaluate_polynomial-eval cs x h =
      let v = eval residues (map residue cs) (x, h) in
      ap₂ (λ r p. polynomial_loop q x cs r p) (sym (mod-eq_of_lt positive))
        (sym (mod-eq_of_lt (omega (arith, prime.above))))
      ∙ polynomial_loop-eval cs (x, h) (residue 0) (residue 1)
      ∙ ap (λ (t : Residue). t.0)
          (Field.zero-add residues (mul (residue 1) v) ∙ Field.one-mul residues v)
      ∙ ap (λ t. (eval residues (map residue cs) t).0)
          (Residue-path (x, h) (residue x) (sym (mod-eq_of_lt h)))
