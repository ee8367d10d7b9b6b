-- ===== src/Shamir/Commitment.antt =====
-- encodeShare, decodeShare and the share commitments of sdk/shamir.ts. The parameters stand for Buffer
-- and ethers: the base 64 codec, solidityPacked(['uint8', 'bytes']), keccak256, and toLowerCase.
use ilr_module.Prelude.{ℕ, List, [], ◌∷◌, Bool, true, false, ◌&&◌, ◌==◌, Option, none, some}
use ilr_module.Prelude.Text.{Text}
use ilr_module.Shamir.Scheme.{Share}

-- The interface EncodedShare.
pub record EncodedShare : Type 0 where
  pub index : ℕ
  pub payload : Text

unfoldable pub encode_share : (List ℕ → Text) → Share → EncodedShare
encode_share to_base64 share = record { index = share.index; payload = to_base64 share.payload }

unfoldable pub decode_share : (Text → List ℕ) → EncodedShare → Share
decode_share from_base64 encoded = record {
  index = encoded.index;
  payload = from_base64 encoded.payload;
}

pub record Hashing : Type 0 where
  -- An index that is no uint8 makes it throw: `none`.
  pub solidity_packed : ℕ → List ℕ → Option (List ℕ)
  pub keccak256 : List ℕ → Text
  pub to_utf8_bytes : Text → List ℕ
  pub to_lower_case : Text → Text

unfoldable pub same_codes : Text → Text → Bool
same_codes [] [] = true
same_codes (a ∷ s) (b ∷ t) = (a == b) && same_codes s t
same_codes [] (b ∷ t) = false
same_codes (a ∷ s) [] = false

module _ (h : Hashing) where
  unfoldable pub packed_hash : Option (List ℕ) → Option Text
  packed_hash none = none
  packed_hash (some packed) = some (h.keccak256 packed)

  unfoldable pub generate_share_commitment : Share → Option Text
  unfolding packed_hash
  generate_share_commitment share = packed_hash (h.solidity_packed share.index share.payload)

  unfoldable pub compare_commitments : Text → Option Text → Option Bool
  unfolding same_codes
  compare_commitments commitment none = none
  compare_commitments commitment (some computed) =
      some (same_codes (h.to_lower_case computed) (h.to_lower_case commitment))

  unfoldable pub verify_share_commitment : Share → Text → Option Bool
  unfolding generate_share_commitment compare_commitments
  verify_share_commitment share commitment =
      compare_commitments commitment (generate_share_commitment share)
