-- ===== src/Bls/Dealing.antt =====
-- What the shares that generateKeyShares returns hold.
use mathlib.Core.List.{Memᴰ}
use ilr_module.Prelude.{
  ℕ, zero, suc, ◌+◌, ◌-◌, ◌<◌, ◌≤◌, ◌≡◌, refl, sym, ap, ◌∙◌, subst, List, [], ◌∷◌, Option, none,
  some, length, arith, Bool, true, false, ◌||◌, ltb, if◌then◌else◌,
}
use ilr_module.Bls.{
  KeyShare, DkgOutput, Curve, ◌>>=◌, big_int_to_bytes, bls_scalar_size, evaluate_polynomial,
  share_loop, commitments_of, generate_key_shares, generate_polynomial_coefficients, random_loop,
}

pub bind_some {ℓ κ} :
    {A : Type ℓ} {B : Type κ} (o : Option A) (f : A → Option B) (b : B)
    → (o >>= f) ≡ some b
    → (a : A) × ((o ≡ some a) × (f a ≡ some b))
bind_some none f b e = absurd (ground (arith, e))
bind_some (some a) f b e = (a, (refl, e))

-- A share of one of the participants `lo`, ..., `hi` - 1 that holds the value at its index.
pub record Dealt (order : ℕ) (cs : List ℕ) (lo hi : ℕ) (s : KeyShare) : Type 0 where
  pub above : lo ≤ s.index
  pub below : s.index < hi
  pub value :
      s.secret_share ≡ big_int_to_bytes (evaluate_polynomial order cs s.index) bls_scalar_size

some_injective {ℓ} : {A : Type ℓ} (a b : A) → some a ≡ some b → a ≡ b
some_injective a b e = ground (arith, e)

Dealt-cons :
    (curve : Curve) (cs : List ℕ) (i n : ℕ) (rest : List KeyShare) (s : KeyShare)
    → (Memᴰ s rest → Dealt curve.order cs (i + 1) (i + 1 + n) s)
    → (point : List ℕ)
    → Memᴰ s (
        record {
          index = i;
          secret_share = big_int_to_bytes (evaluate_polynomial curve.order cs i) bls_scalar_size;
          public_key = point;
        }
        ∷ rest)
    → Dealt curve.order cs i (i + suc n) s
Dealt-cons curve cs i n rest s ih point (Memᴰ.head e) = record {
  above = omega (arith, ap (λ (t : KeyShare). t.index) e);
  below = omega (arith, ap (λ (t : KeyShare). t.index) e);
  value =
      ap (λ (t : KeyShare). t.secret_share) e
      ∙ ap (λ x. big_int_to_bytes (evaluate_polynomial curve.order cs x) bls_scalar_size)
          (sym (ap (λ (t : KeyShare). t.index) e));
}
Dealt-cons curve cs i n rest s ih point (Memᴰ.tail m) =
    let d = ih m in
    record { above = omega (arith, d.above); below = omega (arith, d.below); value = d.value }

pub share_loop-Dealt :
    (curve : Curve) (cs : List ℕ) (i n : ℕ) (shares : List KeyShare) (s : KeyShare)
    → share_loop curve cs i n ≡ some shares
    → Memᴰ s shares
    → Dealt curve.order cs i (i + n) s
unfolding share_loop
share_loop-Dealt curve cs i zero shares s e m =
    elim (subst (Memᴰ s) (sym (some_injective [] shares e)) m) [ ]
share_loop-Dealt curve cs i (suc n) shares s e m =
    let value = evaluate_polynomial curve.order cs i in
    let point = bind_some (curve.multiply_base value) _ shares e in
    let rest = bind_some (share_loop curve cs (i + 1) n) _ shares point.1.1 in
    Dealt-cons curve cs i n rest.0 s (share_loop-Dealt curve cs (i + 1) n rest.0 s rest.1.0) point.0
      (subst (Memᴰ s) (sym (some_injective _ shares rest.1.1)) m)

-- The coefficients are as many as the threshold, and a dealing passed the test on it.
pub record Dealing (curve : Curve) (random : ℕ → List ℕ) (threshold total : ℕ)
    (master : Option (List ℕ)) (out : DkgOutput) : Type 0 where
  pub positive : 0 < threshold
  pub bounded : threshold ≤ total
  pub shares :
      share_loop curve (generate_polynomial_coefficients random threshold master) 1 total
      ≡ some out.shares

test_failed :
    (b : Bool) (o : Option DkgOutput) (out : DkgOutput)
    → (if b then none else o) ≡ some out
    → b ≡ false
test_failed true o out e = absurd (ground (arith, e))
test_failed false o out e = refl

pub generate_key_shares-Dealing :
    (curve : Curve) (random : ℕ → List ℕ) (threshold total : ℕ) (master : Option (List ℕ))
    (out : DkgOutput)
    → generate_key_shares curve random threshold total master ≡ some out
    → Dealing curve random threshold total master out
unfolding generate_key_shares
generate_key_shares-Dealing curve random threshold total master out e =
    let cs = generate_polynomial_coefficients random threshold master in
    let tested : (ltb threshold 1 || ltb total threshold) ≡ false =
      test_failed (ltb threshold 1 || ltb total threshold) _ out e in
    let commitments = bind_some (commitments_of curve cs) _ out (rw tested at e) in
    let shares = bind_some (share_loop curve cs 1 total) _ out commitments.1.1 in
    record {
      positive = ground (arith, tested);
      bounded = ground (arith, tested);
      shares = shares.1.0 ∙ ap (λ (o : DkgOutput). some o.shares) (some_injective _ out shares.1.1);
    }

-- The commitments of a dealing are those of its coefficients.
pub generate_key_shares-commitments :
    (curve : Curve) (random : ℕ → List ℕ) (threshold total : ℕ) (master : Option (List ℕ))
    (out : DkgOutput)
    → generate_key_shares curve random threshold total master ≡ some out
    → commitments_of curve (generate_polynomial_coefficients random threshold master)
      ≡ some out.commitments
unfolding generate_key_shares
generate_key_shares-commitments curve random threshold total master out e =
    let cs = generate_polynomial_coefficients random threshold master in
    let tested : (ltb threshold 1 || ltb total threshold) ≡ false =
      test_failed (ltb threshold 1 || ltb total threshold) _ out e in
    let commitments = bind_some (commitments_of curve cs) _ out (rw tested at e) in
    let shares = bind_some (share_loop curve cs 1 total) _ out commitments.1.1 in
    commitments.1.0 ∙ ap (λ (o : DkgOutput). some o.commitments) (some_injective _ out shares.1.1)

length-random_loop : (random : ℕ → List ℕ) (i n : ℕ) → length (random_loop random i n) ≡ n
unfolding random_loop
length-random_loop random i zero = refl
length-random_loop random i (suc n) = ap suc (length-random_loop random (i + 1) n)

pub length-coefficients :
    (random : ℕ → List ℕ) (threshold : ℕ) (master : Option (List ℕ))
    → 0 < threshold
    → length (generate_polynomial_coefficients random threshold master) ≡ threshold
unfolding generate_polynomial_coefficients
length-coefficients random threshold master h =
    omega (arith, length-random_loop random 1 (threshold - 1))
