-- ===== src/Shamir/Scheme.antt =====
-- split and combine of the class ShamirSecretSharing, sdk/shamir.ts.
-- `crypto.randomBytes` is the parameter `random`: `random k n` is the answer of the call made for the
-- byte at position `k` of the secret, which asks for `n` bytes.
use ilr_module.Prelude.{
  ℕ, zero, suc, ◌+◌, ◌-◌, ◌%◌, List, [], ◌∷◌, map, Bool, true, false, ◌&&◌, ◌||◌, not, ltb, ◌==◌,
  if◌then◌else◌, length, get_or, set, replicate,
}
use ilr_module.Shamir.Result.{
  ShamirError, Result, ok, err, ◌>>=◌, ◌>>◌, threshold_too_small, threshold_exceeds_shares,
  too_many_shares, empty_secret, too_few_shares, length_mismatch, duplicate_indices,
}
use ilr_module.Shamir.Gf256.{Tables, gf_add, gf_multiply, gf_divide, evaluate_polynomial}

-- The interface Share; `data` is a reserved word.
pub record Share : Type 0 where
  pub index : ℕ
  pub payload : List ℕ

unfoldable pub guard : Bool → ShamirError → Result (Unit {0})
guard true e = ok tt
guard false e = err e

-- The shares that split pushes first: `left` of them from index `i` on, filled with zeros.
unfoldable pub blank_shares : ℕ → ℕ → ℕ → List Share
blank_shares zero i n = []
blank_shares (suc left) i n =
    record { index = i; payload = replicate n 0 } ∷ blank_shares left (i + 1) n

-- `coefficients[i] = randomCoeffs[i - 1]` for the `left` positions from `i` on.
unfoldable pub copy_random : ℕ → ℕ → List ℕ → List ℕ
copy_random zero i random_coeffs = []
copy_random (suc left) i random_coeffs =
    get_or random_coeffs (i - 1) 0 ∷ copy_random left (i + 1) random_coeffs

-- The polynomial of one byte: the byte, then `threshold - 1` random coefficients.
unfoldable pub coefficients_of : ℕ → ℕ → List ℕ → List ℕ
unfolding copy_random
coefficients_of threshold byte random_coeffs = byte ∷ copy_random (threshold - 1) 1 random_coeffs

-- The inner loop of split for one share: `shares[shareIndex - 1].data[byteIndex] = …`, a store
-- into a Uint8Array.
unfoldable pub fill_share : Tables → List ℕ → ℕ → Share → Share
fill_share t coefficients byte_index s = record s {
  payload = set s.payload byte_index (evaluate_polynomial t coefficients s.index % 256);
}

-- The outer loop of split, over the bytes of the secret from position `byte_index` on.
unfoldable pub split_loop : Tables → (ℕ → ℕ → List ℕ) → ℕ → ℕ → List ℕ → List Share → List Share
unfolding fill_share coefficients_of
split_loop t random threshold byte_index [] shares = shares
split_loop t random threshold byte_index (byte ∷ rest) shares =
    split_loop t random threshold (byte_index + 1) rest (
      map
        (fill_share t (coefficients_of threshold byte (random byte_index (threshold - 1)))
          byte_index)
        shares)

unfoldable pub split : Tables → (ℕ → ℕ → List ℕ) → List ℕ → ℕ → ℕ → Result (List Share)
unfolding guard split_loop blank_shares
split t random secret num_shares threshold = do
  guard (not (ltb threshold 2)) threshold_too_small
  guard (not (ltb num_shares threshold)) threshold_exceeds_shares
  guard (not (ltb 255 num_shares)) too_many_shares
  guard (not (length secret == 0)) empty_secret
  ok (split_loop t random threshold 0 secret (blank_shares num_shares 1 (length secret)))

-- `for (const share of shares) if (share.data.length !== dataLength) throw …`
unfoldable pub same_lengths : ℕ → List Share → Bool
same_lengths n [] = true
same_lengths n (s ∷ ss) = (length s.payload == n) && same_lengths n ss

unfoldable pub has_index : ℕ → List Share → Bool
has_index i [] = false
has_index i (s ∷ ss) = (s.index == i) || has_index i ss

-- `new Set(indices).size !== shares.length`: some index stands twice.
unfoldable pub no_duplicates : List Share → Bool
unfolding has_index
no_duplicates [] = true
no_duplicates (s ∷ ss) = not (has_index s.index ss) && no_duplicates ss

-- The numerator and the denominator of a Lagrange basis polynomial at 0.
pub record Basis : Type 0 where
  pub numerator : ℕ
  pub denominator : ℕ

-- The loop over `j`; `i` is the position that it skips, and `xi` the index of the share there.
unfoldable pub basis_loop : Tables → ℕ → ℕ → ℕ → List Share → Basis → Basis
basis_loop t i xi j [] b = b
basis_loop t i xi j (s ∷ ss) b = basis_loop t i xi (j + 1) ss (
    if i == j then b else record {
      numerator = gf_multiply t b.numerator s.index;
      denominator = gf_multiply t b.denominator (gf_add xi s.index);
    })

-- The loop over `i`, from position `i` on, for one byte position.
unfoldable pub value_loop : Tables → List Share → ℕ → ℕ → List Share → ℕ → Result ℕ
unfolding basis_loop
value_loop t shares byte_index i [] value = ok value
value_loop t shares byte_index i (s ∷ ss) value = do
  let b = basis_loop t i s.index 0 shares (record { numerator = 1; denominator = 1 })
  quotient ← gf_divide t b.numerator b.denominator
  value_loop t shares byte_index (i + 1) ss
      (gf_add value (gf_multiply t (get_or s.payload byte_index 0) quotient))

-- The loop over the byte positions: `left` of them from `byte_index` on.
unfoldable pub combine_loop : Tables → List Share → ℕ → ℕ → Result (List ℕ)
unfolding value_loop
combine_loop t shares zero byte_index = ok []
combine_loop t shares (suc left) byte_index = do
  value ← value_loop t shares byte_index 0 shares 0
  rest ← combine_loop t shares left (byte_index + 1)
  ok ((value % 256) ∷ rest)

-- `shares[0].data.length`
unfoldable pub data_length : List Share → ℕ
data_length [] = 0
data_length (s ∷ ss) = length s.payload

unfoldable pub combine : Tables → List Share → Result (List ℕ)
unfolding guard same_lengths no_duplicates data_length combine_loop
combine t shares = do
  guard (not (ltb (length shares) 2)) too_few_shares
  guard (same_lengths (data_length shares) shares) length_mismatch
  guard (no_duplicates shares) duplicate_indices
  combine_loop t shares (data_length shares) 0
