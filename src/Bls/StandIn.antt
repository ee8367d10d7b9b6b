-- ===== src/Bls/StandIn.antt =====
-- A small curve for runs of the key sharing: the residues of 7, with points as single bytes.
use native.Mathlib.Omega.{arith}
use ilr_module.Prelude.{
  ℕ, zero, suc, ◌<◌, ◌≡◌, ◌*◌, ◌^◌, ◌%◌, refl, List, [], ◌∷◌, ◌++◌, replicate, All, Option, none,
  some, true, ◌&&◌, ◌||◌, ltb, ◌==◌, if◌then◌else◌, every_below, every_below-at,
}
use ilr_module.Bls.{
  Curve, DkgOutput, KeyShare, generate_key_shares, bytes_to_big_int, big_int_to_bytes,
  commitments_of, generate_polynomial_coefficients, bytes_loop, random_loop, share_loop,
  evaluate_polynomial, polynomial_loop, digits_loop,
}
use ilr_module.Bls.Residues.{IsScalarOrder}
use ilr_module.Bls.Codec.{IsByte}

-- The multiple of the base point throws on 0 and from the order on.
abbrev pub point_of : ℕ → Option (List ℕ)
point_of k = if ltb 0 k && ltb k 7 then some (k ∷ []) else none

abbrev pub curve : Curve
curve = record { order = 7; multiply_base = point_of }

inverses_7 : every_below 7 (λ a. (a == 0) || ((a * a ^ 5) % 7 == 1)) ≡ true
unfolding every_below
inverses_7 = refl

pub curve-IsScalarOrder : IsScalarOrder 7
curve-IsScalarOrder = record {
  above = omega arith;
  fits = omega arith;
  fermat = λ a p q.
      ground (arith, every_below-at 7 (λ a. (a == 0) || ((a * a ^ 5) % 7 == 1)) a inverses_7 q);
}

abbrev pub random : ℕ → List ℕ
random k = 5 ∷ []

-- A number below 256 as 32 bytes.
abbrev pub bytes_of : ℕ → List ℕ
bytes_of n = replicate 31 0 ++ n ∷ []

abbrev pub share : ℕ → ℕ → KeyShare
share index n = record { index = index; secret_share = bytes_of n; public_key = n ∷ [] }

abbrev pub dealing : DkgOutput
dealing = record {
  threshold = 2;
  total_participants = 4;
  shares = share 1 1 ∷ share 2 6 ∷ share 3 4 ∷ share 4 2 ∷ [];
  aggregated_public_key = 3 ∷ [];
  commitments = (3 ∷ []) ∷ (5 ∷ []) ∷ [];
}

pub generate_run : generate_key_shares curve random 2 4 (some (bytes_of 3)) ≡ some dealing
unfolding generate_key_shares commitments_of generate_polynomial_coefficients bytes_to_big_int
    bytes_loop random_loop share_loop evaluate_polynomial polynomial_loop big_int_to_bytes
    digits_loop
generate_run = refl

pub bytes_of-IsByte : (n : ℕ) (k : ℕ) → n < 256 → All IsByte (replicate k 0 ++ n ∷ [])
bytes_of-IsByte n zero h = (h, tt)
bytes_of-IsByte n (suc k) h = (omega arith, bytes_of-IsByte n k h)

pub secret_below : bytes_to_big_int (bytes_of 3) < 7
unfolding bytes_to_big_int bytes_loop
secret_below = omega arith
