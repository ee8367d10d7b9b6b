-- ===== src/Bls/Reconstruct.antt =====
-- reconstructSecret gives back the secret that generateKeyShares was given.
use mathlib.Core.List.{Memᴰ}
use native.Mathlib.Nat.{mod-eq_of_lt}
use ilr_module.Prelude.{
  ℕ, zero, suc, ◌+◌, ◌-◌, ◌^◌, ◌<◌, ◌≤◌, ◌≡◌, refl, sym, ap, ◌∙◌, List, [], ◌∷◌, some, length, take,
  map, All, All-take, arith, false, ltb,
}
use ilr_module.Interpolation.Field
use ilr_module.Interpolation.Field.{Field}
use ilr_module.Interpolation.Lagrange.{eval, interpolation}
use ilr_module.Interpolation.Weights.{weighted_sum}
use ilr_module.Bls.{
  KeyShare, DkgOutput, Curve, bytes_to_big_int, big_int_to_bytes, evaluate_polynomial, secret_loop,
  generate_polynomial_coefficients, random_loop, share_loop, generate_key_shares,
  reconstruct_secret,
}
use ilr_module.Bls.Codec.{
  IsByte, bytes_to_big_int-big_int_to_bytes, big_int_to_bytes-bytes_to_big_int,
}
use ilr_module.Bls.Residues
use ilr_module.Bls.Residues.{IsScalarOrder, Residue, residues, residue, evaluate_polynomial-eval}
use ilr_module.Bls.Coefficient.{
  Below, AllDistinct, indices, points, Holds, secret_loop-sum, Distinct-points, length-points,
}
use ilr_module.Bls.Dealing.{
  Dealt, share_loop-Dealt, generate_key_shares-Dealing, length-coefficients,
}

module _ {ℓ} {A : Type ℓ} where
  length-take : (n : ℕ) (xs : List A) → n ≤ length xs → length (take n xs) ≡ n
  length-take zero xs h = refl
  length-take (suc n) [] h = absurd (omega arith)
  length-take (suc n) (x ∷ xs) h = ap suc (length-take n xs (omega arith))

module _ (q : ℕ) (prime : IsScalarOrder q) (cs : List ℕ) where
  abbrev value_at : Residue q prime → Residue q prime
  value_at = eval (residues q prime) (map (residue q prime) cs)

  indices-Below :
      (lo hi : ℕ) (ss : List KeyShare) → hi ≤ q → All (Dealt q cs lo hi) ss → Below q (indices ss)
  indices-Below lo hi [] h d = tt
  indices-Below lo hi (s ∷ ss) h d = (omega (arith, d.0.below), indices-Below lo hi ss h d.1)

  Dealt-Holds :
      (lo hi : ℕ) (ss : List KeyShare) (b : Below q (indices ss))
      → All (Dealt q cs lo hi) ss
      → Holds q prime value_at ss b
  Dealt-Holds lo hi [] b d = tt
  Dealt-Holds lo hi (s ∷ ss) b d =
      let x : Residue q prime = (s.index, b.0) in
      let same : evaluate_polynomial q cs s.index ≡ (value_at x).0 =
        evaluate_polynomial-eval q prime cs s.index b.0
        ∙ ap (λ t. (value_at t).0)
            (Residues.Residue-path q prime (residue q prime s.index) x (mod-eq_of_lt b.0)) in
      (
        ap bytes_to_big_int d.0.value
            ∙ bytes_to_big_int-big_int_to_bytes 32 (evaluate_polynomial q cs s.index)
                (fits s.index (value_at x) same)
            ∙ same,
        Dealt-Holds lo hi ss b.1 d.1,
      )
    where
      fits :
          (i : ℕ) (v : Residue q prime)
          → evaluate_polynomial q cs i ≡ v.0
          → evaluate_polynomial q cs i < 256 ^ 32
      fits i v e = omega (arith, e, v.1, prime.fits)

  -- Enough shares with distinct indices sum up to the constant term.
  pub secret_loop-constant :
      (lo hi : ℕ) (ss : List KeyShare)
      → hi ≤ q
      → All (Dealt q cs lo hi) ss
      → AllDistinct (indices ss)
      → length cs ≤ length (indices ss)
      → secret_loop q (indices ss) ss 0 ≡ (value_at (residue q prime 0)).0
  secret_loop-constant lo hi ss h d distinct enough =
      let b = indices-Below lo hi ss h d in
      let pts = points q prime (indices ss) b in
      let F = residues q prime in
      ap (secret_loop q (indices ss) ss) (sym (mod-eq_of_lt (Residues.positive q prime)))
      ∙ secret_loop-sum q prime value_at (indices ss) b ss b (residue q prime 0)
          (Dealt-Holds lo hi ss b d)
      ∙ ap (λ (t : Residue q prime). t.0)
          (Field.zero-add F (weighted_sum F value_at pts pts)
            ∙ interpolation F (map (residue q prime) cs) pts
                (omega (arith, length-points q prime (indices ss) b, length-residues cs, enough))
                (Distinct-points q prime (indices ss) b distinct))
    where
      length-residues : (cs : List ℕ) → length (map (residue q prime) cs) ≡ length cs
      length-residues [] = refl
      length-residues (c ∷ cs) = ap suc (length-residues cs)

pub constant_term :
    (q : ℕ) (prime : IsScalarOrder q) (c : ℕ) (cs : List ℕ)
    → c < q
    → (eval (residues q prime) (map (residue q prime) (c ∷ cs)) (residue q prime 0)).0 ≡ c
unfolding eval
constant_term q prime c cs h =
    let F = residues q prime in
    ap (λ (t : Residue q prime). t.0)
      (ap (Field.add F (residue q prime c))
          (Field.zero-mul F (eval F (map (residue q prime) cs) (residue q prime 0)))
        ∙ Field.add_zero F (residue q prime c))
    ∙ mod-eq_of_lt h

pub map-index : (n : ℕ) (ss : List KeyShare) → length (indices (take n ss)) ≡ length (take n ss)
map-index zero ss = refl
map-index (suc n) [] = refl
map-index (suc n) (s ∷ ss) = ap suc (map-index n ss)

-- Shares of a dealing have the values of its polynomial.
pub chosen-Dealt :
    (curve : Curve) (cs : List ℕ) (total : ℕ) (out : DkgOutput) (chosen : List KeyShare)
    → share_loop curve cs 1 total ≡ some out.shares
    → All (λ s. Memᴰ s out.shares) chosen
    → All (Dealt curve.order cs 1 (1 + total)) chosen
chosen-Dealt curve cs total out [] e m = tt
chosen-Dealt curve cs total out (s ∷ ss) e m =
    (share_loop-Dealt curve cs 1 total out.shares s e m.0, chosen-Dealt curve cs total out ss e m.1)

-- If generateKeyShares, called with a 32-byte master secret below the scalar order and for fewer
-- participants than the order, returns a dealing, then reconstructSecret computes the secret from
-- shares of this dealing, in any order, that are at least as many as the threshold, provided that
-- the first `threshold` of them (those that it reads) have distinct indices. The order is above 2,
-- fits 32 bytes and obeys Fermat's theorem.
pub reconstruct_secret-generate_key_shares :
    (curve : Curve) (random : ℕ → List ℕ) (threshold total : ℕ) (secret : List ℕ) (out : DkgOutput)
    (chosen : List KeyShare)
    → IsScalarOrder curve.order
    → total < curve.order
    → All IsByte secret
    → length secret ≡ 32
    → bytes_to_big_int secret < curve.order
    → generate_key_shares curve random threshold total (some secret) ≡ some out
    → All (λ s. Memᴰ s out.shares) chosen
    → threshold ≤ length chosen
    → AllDistinct (indices (take threshold chosen))
    → reconstruct_secret curve chosen threshold ≡ some secret
unfolding reconstruct_secret generate_polynomial_coefficients
reconstruct_secret-generate_key_shares curve random threshold total secret out chosen prime small
      bytes size range e members enough distinct =
    let q = curve.order in
    let cs = generate_polynomial_coefficients random threshold (some secret) in
    let dealing = generate_key_shares-Dealing curve random threshold total (some secret) out e in
    let used = take threshold chosen in
    let dealt : All (Dealt q cs 1 (1 + total)) used =
      All-take (Dealt q cs 1 (1 + total)) threshold chosen
        (chosen-Dealt curve cs total out chosen dealing.shares members) in
    let test : ltb (length chosen) threshold ≡ false = ground arith in
    rw test (
      ap (λ t. some (big_int_to_bytes t 32))
        (secret_loop-constant q prime cs 1 (1 + total) used (omega arith) dealt distinct (
            omega (
              arith,
              length-coefficients random threshold (some secret) dealing.positive,
              map-index threshold chosen,
              length-take threshold chosen enough,
            ))
          ∙ constant_term q prime (bytes_to_big_int secret) (random_loop random 1 (threshold - 1))
              range)
      ∙ ap some (
          ap (big_int_to_bytes (bytes_to_big_int secret)) (sym size)
          ∙ big_int_to_bytes-bytes_to_big_int secret bytes))
