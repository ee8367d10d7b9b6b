-- ===== src/Bls/Aggregate.antt =====
-- aggregateSignatures of sdk/threshold-bls.ts makes the signature with the master secret.
use mathlib.Core.List.{Memᴰ}
use native.Mathlib.Nat.{mod-lt, mod-eq_of_lt, add-mod-mod, add-mod_right}
use native.Mathlib.Decide.{ℕ_discrete}
use ilr_module.Prelude.{
  ℕ, suc, ◌+◌, ◌-◌, ◌*◌, ◌%◌, ◌^◌, ◌<◌, ◌≤◌, ◌≡◌, ◌≢◌, refl, sym, subst, ap, ap₂, ◌∙◌, List, [],
  ◌∷◌, some, length, All, arith, ◌==◌, true, false, ltb, inl, inr, Bool-cases,
}
use ilr_module.Bls.{
  Curve, KeyShare, DkgOutput, bytes_to_big_int, lagrange_loop, compute_lagrange_coefficient,
  mod_inverse, mod_pow, secret_loop, generate_key_shares, generate_polynomial_coefficients,
  random_loop,
}
use ilr_module.Bls.Power.{mod_pow-eq}
use ilr_module.Bls.Residues.{IsScalarOrder}
use ilr_module.Bls.Coefficient.{AllDistinct, indices}
use ilr_module.Bls.Dealing.{Dealt, bind_some, generate_key_shares-Dealing, length-coefficients}
use ilr_module.Bls.Reconstruct.{secret_loop-constant, constant_term, chosen-Dealt}
use ilr_module.Bls.Feldman.{product_pos, power_ne, pos_of_ne, bind_found, some_inj}
use ilr_module.Bls.Signing.{
  PartialSignature, Signatures, SignatureLaws, sign_partial, sign_all, aggregate_loop,
  aggregate_signatures, signers,
}

-- A scalar that the library accepts as a factor.
abbrev IsFactor : ℕ → ℕ → Type 0
IsFactor q n = (0 < n) × (n < q)

module _ (q : ℕ) (prime : IsScalarOrder q) where
  product-IsFactor : (a b : ℕ) → IsFactor q a → IsFactor q b → IsFactor q ((a * b) % q)
  product-IsFactor a b p r = (
    pos_of_ne _ (product_pos q prime a b p.0 p.1 r.0 r.1),
    mod-lt (a * b) (omega (arith, prime.above)),
  )

  difference-IsFactor :
      (i j : ℕ) → IsFactor q i → IsFactor q j → j ≢ i → IsFactor q ((j + q - i) % q)
  difference-IsFactor i j p r ne = elim (Bool-cases (ltb j i)) [
    | inl e ↦
        let low : j < i = ground (arith, e) in
        let same : (j + q - i) % q ≡ j + q - i = mod-eq_of_lt (omega arith) in
        (omega arith, omega arith)
    | inr e ↦
        let high : i ≤ j = ground (arith, e) in
        let shift : (j + q - i) % q ≡ j - i =
          ap (λ t. t % q) (omega arith) ∙ add-mod_right (j - i) q ∙ mod-eq_of_lt (omega arith) in
        (omega arith, omega arith)
  ]

  lagrange_loop-IsFactor :
      (i : ℕ)
      → IsFactor q i
      → (js : List ℕ) (n d : ℕ) → All (IsFactor q) js
      → IsFactor q n
      → IsFactor q d
      → IsFactor q (lagrange_loop q i js n d).0 × IsFactor q (lagrange_loop q i js n d).1
  unfolding lagrange_loop
  lagrange_loop-IsFactor i p [] n d h a b = (a, b)
  lagrange_loop-IsFactor i p (j ∷ js) n d h a b = elim (ℕ_discrete j i) [
    | yes e ↦
        let test : (j == i) ≡ true = ground (arith, e) in
        rw test (lagrange_loop-IsFactor i p js n d h.1 a b)
    | no k ↦
        let test : (j == i) ≡ false = ground (arith, k) in
        rw test (
          lagrange_loop-IsFactor i p js _ _ h.1 (product-IsFactor n j a h.0)
            (product-IsFactor d _ b (difference-IsFactor i j p h.0 k)))
  ]

  coefficient-IsFactor :
      (i : ℕ) (js : List ℕ)
      → IsFactor q i
      → All (IsFactor q) js
      → IsFactor q (compute_lagrange_coefficient q i js)
  unfolding compute_lagrange_coefficient mod_inverse
  coefficient-IsFactor i js p h =
      let one : IsFactor q 1 = (omega arith, omega (arith, prime.above)) in
      let products = lagrange_loop-IsFactor i p js 1 1 h one one in
      let den = (lagrange_loop q i js 1 1).1 in
      product-IsFactor (lagrange_loop q i js 1 1).0 (mod_pow den (q - 2) q) products.0 (
        subst (IsFactor q) (sym (mod_pow-eq den (q - 2) q (omega (arith, prime.above)))) (
          pos_of_ne _ (power_ne q prime den (q - 2) products.1.0 products.1.1),
          mod-lt (den ^ (q - 2)) (omega (arith, prime.above)),
        ))

module _ {P : Type 0} (curve : Curve) (library : Signatures P) (message : List ℕ)
    (laws : SignatureLaws curve library message) (prime : IsScalarOrder curve.order) where
  signers-sign_all :
      (ss : List KeyShare) (partials : List PartialSignature)
      → sign_all library message ss ≡ some partials
      → signers partials ≡ indices ss
  unfolding sign_all sign_partial
  signers-sign_all [] partials e = ap signers (sym (some_inj [] partials e))
  signers-sign_all (s ∷ ss) partials e =
      let first = bind_some (sign_partial library s message) _ partials e in
      let signed = bind_some (library.sign message s.secret_share) _ first.0 first.1.0 in
      let rest = bind_some (sign_all library message ss) _ partials first.1.1 in
      ap signers (sym (some_inj (first.0 ∷ rest.0) partials rest.1.1))
      ∙ ap₂ (λ i is. i ∷ is)
          (ap (λ (t : PartialSignature). t.signer_index) (sym (some_inj _ first.0 signed.1.1)))
          (signers-sign_all ss rest.0 rest.1.0)

  aggregate_loop-sum :
      (js : List ℕ)
      → All (IsFactor curve.order) js
      → (ss : List KeyShare) (partials : List PartialSignature) (s : ℕ)
      → All (λ (t : KeyShare). IsFactor curve.order t.index) ss
      → sign_all library message ss ≡ some partials
      → aggregate_loop library curve.order js partials (laws.multiple s)
        ≡ some (laws.multiple (secret_loop curve.order js ss s))
  unfolding sign_all sign_partial aggregate_loop secret_loop
  aggregate_loop-sum js h [] partials s d e =
      subst
        (λ t. aggregate_loop library curve.order js t (laws.multiple s) ≡ some (laws.multiple s))
        (some_inj [] partials e) refl
  aggregate_loop-sum js h (share ∷ ss) partials s d e =
      let q = curve.order in
      let first = bind_some (sign_partial library share message) _ partials e in
      let made = bind_some (library.sign message share.secret_share) _ first.0 first.1.0 in
      let rest = bind_some (sign_all library message ss) _ partials first.1.1 in
      let value = bytes_to_big_int share.secret_share in
      let coefficient = compute_lagrange_coefficient q share.index js in
      let valid = coefficient-IsFactor q prime share.index js d.0 h in
      let point = laws.signed share.secret_share made.0 made.1.0 in
      let sum : library.add (laws.multiple s) (laws.multiple ((value * coefficient) % q))
          ≡ laws.multiple ((s + coefficient * value) % q) =
        laws.add_multiple s ((value * coefficient) % q)
        ∙ ap laws.multiple
            (add-mod-mod s (value * coefficient) q ∙ ap (λ t. (s + t) % q) (omega arith)) in
      let this : PartialSignature = record { signer_index = share.index; signature = made.0 } in
      let head : (this ∷ rest.0) ≡ partials =
        ap (λ t. t ∷ rest.0) (some_inj _ first.0 made.1.1)
        ∙ some_inj (first.0 ∷ rest.0) partials rest.1.1 in
      subst
        (λ t.
          aggregate_loop library q js t (laws.multiple s)
          ≡ some (laws.multiple (secret_loop q js ss ((s + coefficient * value) % q))))
        head
        (bind_found _ point.0 (
          bind_found _ (laws.multiply_multiple value coefficient valid.0 valid.1) (
            rw sum
              (aggregate_loop-sum js h ss rest.0 ((s + coefficient * value) % q) d.1 rest.1.0))))

aggregate_signatures-loop :
    {P : Type 0}
    → (curve : Curve) (library : Signatures P) (partials : List PartialSignature) (js : List ℕ)
      (a : P)
    → 0 < length js
    → signers partials ≡ js
    → aggregate_loop library curve.order js partials library.zero_point ≡ some a
    → aggregate_signatures library curve partials
      ≡ some (record { aggregated_signature = library.to_raw_bytes a; signer_indices = js })
unfolding aggregate_signatures
aggregate_signatures-loop curve library [] js a p e l = absurd (omega (arith, p, ap length e))
aggregate_signatures-loop curve library (partial ∷ partials) js a p e l =
    bind_found _
      (ap (λ t. aggregate_loop library curve.order t (partial ∷ partials) library.zero_point) e ∙ l)
      (ap (λ t. some (record { aggregated_signature = library.to_raw_bytes a; signer_indices = t }))
        e)

Dealt-IsFactor :
    (q : ℕ) (cs : List ℕ) (hi : ℕ) (ss : List KeyShare)
    → hi ≤ q
    → All (Dealt q cs 1 hi) ss
    → All (λ (s : KeyShare). IsFactor q s.index) ss × All (IsFactor q) (indices ss)
Dealt-IsFactor q cs hi [] h d = (tt, tt)
Dealt-IsFactor q cs hi (s ∷ ss) h d =
    let rest = Dealt-IsFactor q cs hi ss h d.1 in
    let factor : IsFactor q s.index = (omega (arith, d.0.above), omega (arith, d.0.below)) in
    ((factor, rest.0), (factor, rest.1))

length-indices : (ss : List KeyShare) → length (indices ss) ≡ length ss
length-indices [] = refl
length-indices (s ∷ ss) = ap suc (length-indices ss)

module _ {P : Type 0} (curve : Curve) (library : Signatures P) (message : List ℕ)
    (laws : SignatureLaws curve library message) (prime : IsScalarOrder curve.order) where
  -- aggregateSignatures, called with the partial signatures of a message that signPartial makes
  -- with shares of one dealing of generateKeyShares, at least as many as the threshold and with
  -- distinct indices, in any order, returns the signature of the message with the master secret
  -- itself, and the indices of the signers. The secret is below the scalar order and the
  -- participants are fewer than it; each of the shares and the secret sign the message; the order
  -- is above 2, fits 32 bytes and obeys Fermat's theorem, and the signatures of the message are
  -- multiples of one point in a group of this order.
  pub aggregate_signatures-sign :
      (random : ℕ → List ℕ) (threshold total : ℕ) (secret : List ℕ) (out : DkgOutput)
      (chosen : List KeyShare) (partials : List PartialSignature) (signature : List ℕ)
      → total < curve.order
      → bytes_to_big_int secret < curve.order
      → generate_key_shares curve random threshold total (some secret) ≡ some out
      → All (λ s. Memᴰ s out.shares) chosen
      → threshold ≤ length chosen
      → AllDistinct (indices chosen)
      → sign_all library message chosen ≡ some partials
      → library.sign message secret ≡ some signature
      → aggregate_signatures library curve partials
        ≡ some (record { aggregated_signature = signature; signer_indices = indices chosen })
  unfolding generate_polynomial_coefficients
  aggregate_signatures-sign random threshold total secret out chosen partials signature small range
        e members enough distinct signed master =
      let q = curve.order in
      let cs = generate_polynomial_coefficients random threshold (some secret) in
      let dealing = generate_key_shares-Dealing curve random threshold total (some secret) out e in
      let dealt = chosen-Dealt curve cs total out chosen dealing.shares members in
      let factors = Dealt-IsFactor q cs (1 + total) chosen (omega arith) dealt in
      let size = length-indices chosen in
      let value : secret_loop q (indices chosen) chosen 0 ≡ bytes_to_big_int secret =
        secret_loop-constant q prime cs 1 (1 + total) chosen (omega arith) dealt distinct
          (omega (arith, length-coefficients random threshold (some secret) dealing.positive, size))
        ∙ constant_term q prime (bytes_to_big_int secret) (random_loop random 1 (threshold - 1))
            range in
      aggregate_signatures-loop curve library partials (indices chosen) _
        (omega (arith, dealing.positive, size))
        (signers-sign_all curve library message laws prime chosen partials signed)
        (ap (aggregate_loop library q (indices chosen) partials) laws.zero_multiple
          ∙ aggregate_loop-sum curve library message laws prime (indices chosen) factors.1 chosen
              partials 0 factors.0 signed)
      ∙ ap (λ t. some (record { aggregated_signature = t; signer_indices = indices chosen }))
          (ap (λ t. library.to_raw_bytes (laws.multiple t)) value
            ∙ (laws.signed secret signature master).1)
