-- ===== src/Bls/Feldman.antt =====
-- verifyShare of sdk/threshold-bls.ts: which shares pass the test against the commitments.
use native.Mathlib.Nat.{mod-lt, mod-eq_of_lt, add-mod-mod, pow-suc, pow-zero}
use ilr_module.Prelude.{
  ℕ, zero, suc, ◌+◌, ◌-◌, ◌*◌, ◌%◌, ◌^◌, ◌<◌, ◌≡◌, ◌≢◌, refl, sym, subst, ap, ◌∙◌, List, [], ◌∷◌,
  Bool, false, Option, none, some, ◌==◌, arith,
}
use ilr_module.Bls.{
  Curve, KeyShare, DkgOutput, ◌>>=◌, mod_pow, polynomial_loop, evaluate_polynomial, commitments_of,
  generate_polynomial_coefficients, generate_key_shares,
}
use ilr_module.Bls.Numbers.{mod-mul_left, mod-mul_right}
use ilr_module.Bls.Power.{mod_pow-eq}
use ilr_module.Bls.Residues.{IsScalarOrder}
use ilr_module.Bls.Dealing.{bind_some, generate_key_shares-commitments}

-- The points of the first group of the curve library: what does not read or throws is `none`.
pub record Points (P : Type 0) : Type 0 where
  pub zero_point : P
  pub add : P → P → P
  pub multiply : P → ℕ → Option P
  pub from_bytes : List ℕ → Option P
  pub equals : P → P → Bool

-- The points are a cyclic group: `base k` is the multiple k of the base point.
pub record PointLaws {P : Type 0} (curve : Curve) (points : Points P) : Type 0 where
  pub base : ℕ → P
  pub zero_base : points.zero_point ≡ base 0
  pub add_base : (a b : ℕ) → points.add (base a) (base b) ≡ base ((a + b) % curve.order)
  pub multiply_base :
      (a k : ℕ)
      → 0 < k
      → k < curve.order
      → points.multiply (base a) k ≡ some (base ((a * k) % curve.order))
  pub read :
      (k : ℕ) (bytes : List ℕ)
      → curve.multiply_base k ≡ some bytes
      → (points.from_bytes bytes ≡ some (base k)) × (k < curve.order)
  pub same :
      (a b : ℕ) → a < curve.order → b < curve.order → points.equals (base a) (base b) ≡ (a == b)

-- `try … catch { return false; }`
abbrev pub or_false : Option Bool → Bool
or_false none = false
or_false (some b) = b

module _ {P : Type 0} (curve : Curve) (points : Points P) where
  -- The loop over the commitments, from the number `j` on.
  unfoldable pub expected_loop : ℕ → ℕ → List (List ℕ) → P → Option P
  expected_loop i j [] expected = some expected
  expected_loop i j (commitment ∷ commitments) expected = points.from_bytes commitment >>= λ point.
      points.multiply point (mod_pow i j curve.order) >>= λ term.
      expected_loop i (j + 1) commitments (points.add expected term)

  unfoldable pub verify_share : KeyShare → List (List ℕ) → Bool
  unfolding expected_loop
  verify_share share commitments = or_false (
      expected_loop share.index 0 commitments points.zero_point >>= λ expected.
      points.from_bytes share.public_key >>= λ actual. some (points.equals expected actual))

one_power_more : (i j : ℕ) → i ^ j * i ≡ i ^ (j + 1)
one_power_more i j = sym (pow-suc i j) ∙ ap (λ t. i ^ t) (omega arith)

pub pos_of_ne : (n : ℕ) → n ≢ 0 → 0 < n
pos_of_ne zero h = absurd (h refl)
pos_of_ne (suc n) h = omega arith

==_comm : (a b : ℕ) → (a == b) ≡ (b == a)
==_comm a b = ground arith

module _ (q : ℕ) (prime : IsScalarOrder q) where
  pub product_pos : (a b : ℕ) → 0 < a → a < q → 0 < b → b < q → (a * b) % q ≢ 0
  product_pos a b pa la pb lb zero_product =
      let p = a ^ (q - 2) in
      let whole : (a * p * b) % q ≡ b =
        sym (mod-mul_left (a * p) b q)
        ∙ ap (λ t. (t * b) % q) (prime.fermat a pa la)
        ∙ ap (λ t. t % q) (omega arith)
        ∙ mod-eq_of_lt lb in
      let none_left : (a * b * p) % q ≡ 0 =
        sym (mod-mul_left (a * b) p q)
        ∙ ap (λ t. (t * p) % q) zero_product
        ∙ ap (λ t. t % q) (omega arith)
        ∙ mod-eq_of_lt {n = 0} (omega (arith, prime.above)) in
      let turned : a * p * b ≡ a * b * p = omega arith in
      omega (arith, whole, none_left, ap (λ t. t % q) turned)

  pub power_ne : (i j : ℕ) → 0 < i → i < q → (i ^ j) % q ≢ 0
  power_ne i zero p l e = omega (
    arith,
    e,
    ap (λ t. t % q) (pow-zero i),
    mod-eq_of_lt {n = 1} {m = q} (omega (arith, prime.above)),
  )
  power_ne i (suc j) p l e =
      product_pos i ((i ^ j) % q) p l (pos_of_ne _ (power_ne i j p l))
        (mod-lt ((i ^ j)) (omega (arith, prime.above)))
        (mod-mul_right i (i ^ j) q ∙ ap (λ t. t % q) (omega (arith, pow-suc i j)) ∙ e)

pub bind_found {ℓ κ} :
    {A : Type ℓ} {B : Type κ} {o : Option A} {a : A} {r : Option B} (f : A → Option B)
    → o ≡ some a
    → f a ≡ r
    → (o >>= f) ≡ r
bind_found f e g = ap (λ t. t >>= f) e ∙ g

pub some_inj {ℓ} : {A : Type ℓ} (a b : A) → some a ≡ some b → a ≡ b
some_inj a b e = cc

module _ {P : Type 0} (curve : Curve) (points : Points P) (laws : PointLaws curve points)
    (prime : IsScalarOrder curve.order) where
  -- The term of one commitment.
  term_value :
      (i j coef : ℕ)
      → 0 < i
      → i < curve.order
      → points.multiply (laws.base coef) (mod_pow i j curve.order)
        ≡ some (laws.base ((coef * ((i ^ j) % curve.order)) % curve.order))
  term_value i j coef p l = rw (mod_pow-eq i j curve.order (omega (arith, prime.above))) (
      laws.multiply_base coef ((i ^ j) % curve.order)
        (pos_of_ne _ (power_ne curve.order prime i j p l))
        (mod-lt (i ^ j) (omega (arith, prime.above))))

  loop_value :
      (i : ℕ)
      → 0 < i
      → i < curve.order
      → (cs : List ℕ) (commitments : List (List ℕ)) (j result : ℕ)
      → commitments_of curve cs ≡ some commitments
      → expected_loop curve points i j commitments (laws.base result)
        ≡ some (laws.base (polynomial_loop curve.order i cs result ((i ^ j) % curve.order)))
  unfolding expected_loop commitments_of polynomial_loop
  loop_value i p l [] commitments j result e =
      subst (λ t. expected_loop curve points i j t (laws.base result) ≡ some (laws.base result))
        (some_inj [] commitments e) refl
  loop_value i p l (coef ∷ cs) commitments j result e =
      let q = curve.order in
      let pw = (i ^ j) % q in
      let point = bind_some (curve.multiply_base coef) _ commitments e in
      let rest = bind_some (commitments_of curve cs) _ commitments point.1.1 in
      let read = laws.read coef point.0 point.1.0 in
      let next : ((i ^ j) % q * i) % q ≡ (i ^ (j + 1)) % q =
        mod-mul_left (i ^ j) i q ∙ ap (λ t. t % q) (one_power_more i j) in
      let sum : points.add (laws.base result) (laws.base ((coef * pw) % q))
          ≡ laws.base ((result + coef * pw) % q) =
        laws.add_base result ((coef * pw) % q) ∙ ap laws.base (add-mod-mod result (coef * pw) q) in
      subst
        (λ t.
          expected_loop curve points i j t (laws.base result)
          ≡ some (
              laws.base
                (polynomial_loop q i cs ((result + coef * pw) % q) (((i ^ j) % q * i) % q))))
        (some_inj (point.0 ∷ rest.0) commitments rest.1.1)
        (bind_found _ read.0 (
          bind_found _ (term_value i j coef p l) (
            rw (sum, next)
              (loop_value i p l cs rest.0 (j + 1) ((result + coef * pw) % q) rest.1.0))))

  polynomial_loop-lt :
      (x : ℕ) (cs : List ℕ) (result power : ℕ)
      → result < curve.order
      → polynomial_loop curve.order x cs result power < curve.order
  unfolding polynomial_loop
  polynomial_loop-lt x [] result power l = l
  polynomial_loop-lt x (coef ∷ cs) result power l =
      polynomial_loop-lt x cs _ _ (mod-lt (result + coef * power) (omega (arith, prime.above)))

  -- verifyShare against the commitments of a dealing of generateKeyShares returns true for a share
  -- with the public key of the value `k` exactly if `k` is the value of the dealt polynomial at the
  -- index of the share, which lies between 1 and the scalar order. So it accepts every dealt share,
  -- and no share with another public key. The order is above 2, fits 32 bytes and obeys Fermat's
  -- theorem, and the points of the curve are a cyclic group whose bytes are read back.
  pub verify_share-polynomial :
      (random : ℕ → List ℕ) (threshold total : ℕ) (master : Option (List ℕ)) (out : DkgOutput)
      (share : KeyShare) (k : ℕ)
      → generate_key_shares curve random threshold total master ≡ some out
      → 0 < share.index
      → share.index < curve.order
      → curve.multiply_base k ≡ some share.public_key
      → verify_share curve points share out.commitments ≡ (
          k
          == evaluate_polynomial curve.order
              (generate_polynomial_coefficients random threshold master)
              share.index)
  unfolding verify_share evaluate_polynomial
  verify_share-polynomial random threshold total master out share k e p l pk =
      let q = curve.order in
      let cs = generate_polynomial_coefficients random threshold master in
      let one : (share.index ^ 0) % q ≡ 1 =
        ap (λ t. t % q) (pow-zero share.index)
        ∙ mod-eq_of_lt {n = 1} (omega (arith, prime.above)) in
      let value = polynomial_loop q share.index cs 0 1 in
      let loop =
        loop_value share.index p l cs out.commitments 0 0
          (generate_key_shares-commitments curve random threshold total master out e) in
      let read = laws.read k share.public_key pk in
      ap or_false (
        bind_found _
          (ap (expected_loop curve points share.index 0 out.commitments) laws.zero_base
            ∙ loop
            ∙ ap (λ t. some (laws.base (polynomial_loop q share.index cs 0 t))) one)
          (bind_found _ read.0 refl))
      ∙ laws.same value k (polynomial_loop-lt share.index cs 0 1 (omega (arith, prime.above)))
          read.1
      ∙ ==_comm value k
