-- ===== src/Bls/SigningTests.antt =====
-- Runs of the share check and of the signatures over the residues of 7.
use mathlib.Core.List.{Memᴰ}
use native.Mathlib.Nat.{mod-eq_of_lt, mod-mod}
use native.Mathlib.Omega.{arith}
use ilr_module.Prelude.{
  ℕ, ◌<◌, ◌≡◌, ◌≢◌, ◌*◌, ◌%◌, refl, sym, subst, ap, ap₂, ◌∙◌, ◌+◌, List, [], ◌∷◌, Option, none,
  some, true, ◌&&◌, ltb, ◌==◌, if◌then◌else◌,
}
use ilr_module.Bls.{
  bytes_to_big_int, generate_polynomial_coefficients, bytes_loop, random_loop, evaluate_polynomial,
  polynomial_loop,
}
use ilr_module.Bls.Numbers.{mod-mul_left}
use ilr_module.Bls.Feldman.{Points, PointLaws, verify_share, verify_share-polynomial}
use ilr_module.Bls.Signing.{Signatures, SignatureLaws, sign_partial, sign_all, aggregate_signatures}
use ilr_module.Bls.Aggregate.{aggregate_signatures-sign}
use ilr_module.Bls.Warrant.{
  WarrantSigningMessage, create_warrant_message, create_warrant_message-different,
}
use ilr_module.Bls.StandIn.{
  point_of, curve, curve-IsScalarOrder, random, bytes_of, share, dealing, generate_run,
  secret_below,
}

abbrev read_point : List ℕ → Option ℕ
read_point [] = none
read_point (n ∷ []) = some n
read_point (n ∷ m ∷ bytes) = none

abbrev points : Points ℕ
points = record {
  zero_point = 0;
  add = λ a b. (a + b) % 7;
  multiply = λ a k. if ltb 0 k && ltb k 7 then some ((a * k) % 7) else none;
  from_bytes = read_point;
  equals = λ a b. a == b;
}

point_below : (k : ℕ) (bytes : List ℕ) → point_of k ≡ some bytes → k < 7
point_below k bytes e = ground (arith, e)

point_bytes : (k : ℕ) (bytes : List ℕ) → point_of k ≡ some bytes → (k ∷ []) ≡ bytes
point_bytes k bytes e = ground (arith, e)

multiply_below : (a k : ℕ) → 0 < k → k < 7 → points.multiply (a % 7) k ≡ some (((a * k) % 7) % 7)
multiply_below a k p l =
    let product : (a % 7 * k) % 7 ≡ ((a * k) % 7) % 7 =
      mod-mul_left a k 7 ∙ sym (mod-mod (a * k) 7) in
    ground (arith, p, l, product)

points-PointLaws : PointLaws curve points
points-PointLaws = record {
  base = λ k. k % 7;
  zero_base = refl;
  add_base = λ a b. omega arith;
  multiply_base = multiply_below;
  read = λ k bytes e. (
    subst (λ t. read_point t ≡ some (k % 7)) (point_bytes k bytes e)
        (ap some (sym (mod-eq_of_lt (point_below k bytes e)))),
    point_below k bytes e,
  );
  same = λ a b p q. ap₂ (λ x y. x == y) (mod-eq_of_lt p) (mod-eq_of_lt q);
}

verify_share-polynomial_example : verify_share curve points (share 4 2) dealing.commitments ≡ true
unfolding evaluate_polynomial polynomial_loop generate_polynomial_coefficients bytes_to_big_int
    bytes_loop random_loop
verify_share-polynomial_example =
    verify_share-polynomial curve points points-PointLaws curve-IsScalarOrder random 2 4
      (some (bytes_of 3)) dealing (share 4 2) 2 generate_run (omega arith) (omega arith) refl

-- The message has the point 2, and its signatures are single bytes.
abbrev signatures : Signatures ℕ
signatures = record {
  sign = λ message secret.
      let k = bytes_to_big_int secret in
      if ltb 0 k && ltb k 7 then some (((k * 2) % 7) ∷ []) else none;
  zero_point = 0;
  add = λ a b. (a + b) % 7;
  multiply = λ a k. if ltb 0 k && ltb k 7 then some ((a * k) % 7) else none;
  from_bytes = read_point;
  to_raw_bytes = λ a. a ∷ [];
}

signature_bytes :
    (k : ℕ) (bytes : List ℕ)
    → (if ltb 0 k && ltb k 7 then some (((k * 2) % 7) ∷ []) else none) ≡ some bytes
    → (((k * 2) % 7) ∷ []) ≡ bytes
signature_bytes k bytes e = ground (arith, e)

multiple_below :
    (a k : ℕ) → 0 < k → k < 7 → signatures.multiply ((a * 2) % 7) k ≡ some ((((a * k) % 7) * 2) % 7)
multiple_below a k p l =
    let product : ((a * 2) % 7 * k) % 7 ≡ (((a * k) % 7) * 2) % 7 =
      mod-mul_left (a * 2) k 7 ∙ ap (λ t. t % 7) (omega arith) ∙ sym (mod-mul_left (a * k) 2 7) in
    ground (arith, p, l, product)

signatures-SignatureLaws : (message : List ℕ) → SignatureLaws curve signatures message
signatures-SignatureLaws message = record {
  multiple = λ a. (a * 2) % 7;
  zero_multiple = refl;
  add_multiple = λ a b. omega arith;
  multiply_multiple = multiple_below;
  signed = λ secret signature e.
      let bytes = signature_bytes (bytes_to_big_int secret) signature e in
      (subst (λ t. read_point t ≡ some ((bytes_to_big_int secret * 2) % 7)) bytes refl, bytes);
}

aggregate_signatures-sign_example :
    aggregate_signatures signatures curve (
      record { signer_index = 4; signature = 4 ∷ [] }
      ∷ record { signer_index = 1; signature = 2 ∷ [] }
      ∷ [])
    ≡ some (record { aggregated_signature = 6 ∷ []; signer_indices = 4 ∷ 1 ∷ [] })
unfolding sign_all sign_partial bytes_to_big_int bytes_loop
aggregate_signatures-sign_example =
    aggregate_signatures-sign curve signatures (9 ∷ []) (signatures-SignatureLaws (9 ∷ []))
      curve-IsScalarOrder random 2 4 (bytes_of 3) dealing (share 4 2 ∷ share 1 1 ∷ [])
      (record { signer_index = 4; signature = 4 ∷ [] }
        ∷ record { signer_index = 1; signature = 2 ∷ [] }
        ∷ [])
      (6 ∷ []) (omega arith) secret_below generate_run
      (Memᴰ.tail (Memᴰ.tail (Memᴰ.tail (Memᴰ.head refl))), (Memᴰ.head refl, tt)) (omega arith)
      (((λ e. omega (arith, e)), tt), (tt, tt)) refl refl

abbrev warrant : ℕ → WarrantSigningMessage
warrant time = record {
  warrant_id = 1;
  target_dispute_id = 42;
  document_hash = 7 ∷ 8 ∷ [];
  execution_time = time;
}

create_warrant_message-different_example :
    create_warrant_message (λ text. text) (λ bytes. bytes) (warrant 86400)
    ≢ create_warrant_message (λ text. text) (λ bytes. bytes) (warrant 86401)
create_warrant_message-different_example =
    create_warrant_message-different (λ text. text) (λ bytes. bytes) (warrant 86400) (warrant 86401)
      (omega arith, (omega arith, omega arith)) (omega arith, (omega arith, omega arith)) (λ e. e)
      (λ e. omega (arith, ap (λ (w : WarrantSigningMessage). w.execution_time) e))
