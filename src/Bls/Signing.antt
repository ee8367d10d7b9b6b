-- ===== src/Bls/Signing.antt =====
-- The signatures of sdk/threshold-bls.ts: signPartial and aggregateSignatures.
use ilr_module.Prelude.{ℕ, ◌+◌, ◌*◌, ◌%◌, ◌<◌, ◌≡◌, List, [], ◌∷◌, map, Option, none, some}
use ilr_module.Bls.{Curve, KeyShare, ◌>>=◌, compute_lagrange_coefficient, bytes_to_big_int}

pub record PartialSignature : Type 0 where
  pub signer_index : ℕ
  pub signature : List ℕ

pub record ThresholdSignature : Type 0 where
  pub aggregated_signature : List ℕ
  pub signer_indices : List ℕ

-- Signing and the points of the second group of the curve library: what throws is `none`. The
-- signature that `from_bytes` reads is given as bytes, where the code prints them in hexadecimal.
pub record Signatures (P : Type 0) : Type 0 where
  pub sign : List ℕ → List ℕ → Option (List ℕ)
  pub zero_point : P
  pub add : P → P → P
  pub multiply : P → ℕ → Option P
  pub from_bytes : List ℕ → Option P
  pub to_raw_bytes : P → List ℕ

-- What the library documents of one message: its signature with a secret is the multiple of the
-- point of the message, in a group of the order of the scalars.
pub record SignatureLaws {P : Type 0} (curve : Curve) (library : Signatures P) (message : List ℕ)
    : Type 0 where
  pub multiple : ℕ → P
  pub zero_multiple : library.zero_point ≡ multiple 0
  pub add_multiple :
      (a b : ℕ) → library.add (multiple a) (multiple b) ≡ multiple ((a + b) % curve.order)
  pub multiply_multiple :
      (a k : ℕ)
      → 0 < k
      → k < curve.order
      → library.multiply (multiple a) k ≡ some (multiple ((a * k) % curve.order))
  pub signed :
      (secret signature : List ℕ)
      → library.sign message secret ≡ some signature
      → (library.from_bytes signature ≡ some (multiple (bytes_to_big_int secret)))
        × (library.to_raw_bytes (multiple (bytes_to_big_int secret)) ≡ signature)

abbrev pub signers : List PartialSignature → List ℕ
signers partials = map (λ (p : PartialSignature). p.signer_index) partials

module _ {P : Type 0} (library : Signatures P) where
  unfoldable pub sign_partial : KeyShare → List ℕ → Option PartialSignature
  sign_partial share message = library.sign message share.secret_share >>= λ signature.
      some (record { signer_index = share.index; signature = signature })

  -- Each of the shares signs the message, as in the example of the source.
  unfoldable pub sign_all : List ℕ → List KeyShare → Option (List PartialSignature)
  sign_all message [] = some []
  sign_all message (share ∷ shares) = sign_partial share message >>= λ partial.
      sign_all message shares >>= λ partials. some (partial ∷ partials)

  unfoldable pub aggregate_loop : ℕ → List ℕ → List PartialSignature → P → Option P
  aggregate_loop order signer_indices [] aggregated = some aggregated
  aggregate_loop order signer_indices (partial ∷ partials) aggregated =
      let lambda = compute_lagrange_coefficient order partial.signer_index signer_indices in
      library.from_bytes partial.signature >>= λ point. library.multiply point lambda >>= λ term.
      aggregate_loop order signer_indices partials (library.add aggregated term)

  unfoldable pub aggregate_signatures : Curve → List PartialSignature → Option ThresholdSignature
  aggregate_signatures curve [] = none
  aggregate_signatures curve (partial ∷ partials) =
      let signer_indices = signers (partial ∷ partials) in
      aggregate_loop curve.order signer_indices (partial ∷ partials) library.zero_point
      >>= λ aggregated. some (record {
        aggregated_signature = library.to_raw_bytes aggregated;
        signer_indices = signer_indices;
      })
