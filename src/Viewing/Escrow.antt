-- ===== src/Viewing/Escrow.antt =====
-- The class ViewingKeysSDK of sdk/viewing-keys.ts. Its calls of generateRandomBytes, and those of the
-- parts that it calls, are numbered in their order from `k` on.
use ilr_module.Prelude.{
  ℕ, ◌+◌, ◌*◌, ◌%◌, List, [], ◌∷◌, map, Bool, true, false, Option, none, some, length,
}
use ilr_module.Prelude.Int.{pos, ◌-ℤ◌}
use ilr_module.Prelude.Text.{Text}
use ilr_module.Hex.{bytes_to_hex, hex_to_bytes}
use ilr_module.Shamir.Gf256.{construct}
use ilr_module.Shamir.Scheme.{Share, split, combine}
use ilr_module.Shamir.Commitment.{generate_share_commitment}
use ilr_module.Ecies.Crypto.{Random}
use ilr_module.Ecies.Cipher.{
  EciesCiphertext, bytes, aes_gcm_encrypt, aes_gcm_decrypt, encrypt, decrypt,
}
use ilr_module.Viewing.Services.{
  Result, ok, err, other_error, ◌>>=◌, shared, ciphered, called, HolderInfo, SealedMetadata,
  Transaction, create_escrow_call, submit_share_commitment_call, request_reveal_call,
  vote_on_reveal_call, submit_share_for_reveal_call, finalize_reveal_call, Services, Effects, send,
  send_bytes,
}

pub record CreateEscrowParams (M : Type 0) : Type 0 where
  pub dispute_id : ℕ
  pub metadata : M
  pub holders : List HolderInfo
  pub threshold : ℕ
  -- Whether an IPFS client is given.
  pub ipfs_client : Bool

-- An address with the share that is encrypted to its holder.
abbrev pub EncryptedShare : Type 0
EncryptedShare = Text × EciesCiphertext

pub record EscrowResult : Type 0 where
  pub escrow_id : ℕ
  pub viewing_key_commitment : Text
  pub encrypted_data_hash : Text
  pub encrypted_shares : List EncryptedShare
  pub viewing_key : Text

pub record RevealData (M : Type 0) : Type 0 where
  pub metadata : M
  pub reconstructed_key_hash : Text

-- A share that decryptShare gives: the index of an empty plaintext is undefined.
pub record ReceivedShare : Type 0 where
  pub index : Option ℕ
  pub payload : List ℕ

-- `new Uint8Array(1 + share.data.length)` with the index in front.
unfoldable pub share_data : Share → List ℕ
share_data share = (share.index % 256) ∷ share.payload

unfoldable pub received_share : List ℕ → ReceivedShare
received_share [] = record { index = none; payload = [] }
received_share (index ∷ payload) = record { index = some index; payload = payload }

-- `event ? Number(…) : 0`
abbrev pub id_or_zero : Option ℕ → ℕ
id_or_zero none = 0
id_or_zero (some id) = id

-- The default parameter `votingPeriodDays = 7`.
abbrev pub days_or_default : Option ℕ → ℕ
days_or_default none = 7
days_or_default (some days) = days

module _ {M : Type 0} (s : Services M) where
  -- The calls are those of the private methods of the class ECIES.
  unfoldable pub encrypt_with_viewing_key : Random → ℕ → List ℕ → List ℕ → Result SealedMetadata
  encrypt_with_viewing_key random k key content = do
    let iv = random k 12
    sealed ← ciphered (aes_gcm_encrypt s.crypto key iv content)
    ok (record {
      iv = bytes_to_hex iv;
      ciphertext = bytes_to_hex sealed.0;
      auth_tag = bytes_to_hex sealed.1;
    })

  unfoldable pub decrypt_with_viewing_key : List ℕ → SealedMetadata → Result (List ℕ)
  decrypt_with_viewing_key key encrypted = ciphered (
      aes_gcm_decrypt s.crypto key (hex_to_bytes encrypted.iv) (hex_to_bytes encrypted.ciphertext)
        (hex_to_bytes encrypted.auth_tag))

  unfoldable pub compute_commitment : List ℕ → Text
  compute_commitment content = s.hashing.keccak256 content

  unfoldable pub cid_to_bytes32 : Text → Text
  cid_to_bytes32 cid = s.hashing.keccak256 (s.hashing.to_utf8_bytes cid)

  -- Step 3 of createEscrow: the hash, and the texts that are added to IPFS.
  unfoldable pub store_metadata : Bool → SealedMetadata → Result (Text × List Text)
  unfolding cid_to_bytes32
  store_metadata true sealed = do
    path ← called (s.ipfs_add (s.stringify_sealed sealed))
    ok (cid_to_bytes32 path, s.stringify_sealed sealed ∷ [])
  store_metadata false sealed =
      ok (s.hashing.keccak256 (s.hashing.to_utf8_bytes (s.stringify_sealed sealed)), [])

  -- Step 5: `shares[i]` is encrypted to `holders[i]`.
  unfoldable pub encrypt_shares :
      Random → ℕ → List HolderInfo → List Share → Result (List EncryptedShare)
  unfolding share_data
  encrypt_shares random k [] shares = ok []
  encrypt_shares random k (holder ∷ holders) [] = err other_error
  encrypt_shares random k (holder ∷ holders) (share ∷ shares) = do
    encrypted_share ←
        ciphered (encrypt s.crypto random k holder.public_key (bytes (share_data share)))
    rest ← encrypt_shares random (k + 2) holders shares
    ok ((holder.address, encrypted_share) ∷ rest)

  -- The call of randomBytes for each byte of the key follows the two calls before.
  unfoldable pub create_escrow : Random → ℕ → CreateEscrowParams M → Result (EscrowResult × Effects)
  unfolding encrypt_with_viewing_key store_metadata encrypt_shares compute_commitment
  create_escrow random k params = do
    let viewing_key_bytes = random k 32
    let metadata_json = s.stringify params.metadata
    encrypted_metadata ←
        encrypt_with_viewing_key random (k + 1) viewing_key_bytes
          (s.crypto.text_encode metadata_json)
    hashed ← store_metadata params.ipfs_client encrypted_metadata
    shares ← shared (
        split construct (λ j n. random (k + 2 + j) n) viewing_key_bytes (length params.holders)
          params.threshold)
    encrypted_shares ←
        encrypt_shares random (k + 2 + length viewing_key_bytes) params.holders shares
    let viewing_key_commitment = compute_commitment viewing_key_bytes
    mined ← send s.chain (
        create_escrow_call params.dispute_id viewing_key_commitment hashed.0 params.threshold
          (length params.holders) (map (λ (h : HolderInfo). h.address) params.holders)
          (map (λ (h : HolderInfo). h.holder_type) params.holders))
    ok (
      record {
        escrow_id = id_or_zero mined.0;
        viewing_key_commitment = viewing_key_commitment;
        encrypted_data_hash = hashed.0;
        encrypted_shares = encrypted_shares;
        viewing_key = bytes_to_hex viewing_key_bytes;
      },
      record { stored = hashed.1; sent = mined.1 },
    )

  unfoldable pub submit_share_commitment : ℕ → Share → Result (Text × List Transaction)
  submit_share_commitment escrow_id share = do
    commitment ← called (generate_share_commitment s.hashing share)
    mined ← send s.chain (submit_share_commitment_call escrow_id commitment)
    ok (commitment, mined.1)

  unfoldable pub request_reveal : ℕ → Text → Text → Option ℕ → Result (ℕ × List Transaction)
  request_reveal escrow_id reason legal_doc_hash voting_period_days = do
    let voting_period_seconds = days_or_default voting_period_days * 24 * 60 * 60
    mined ← send s.chain (request_reveal_call escrow_id reason legal_doc_hash voting_period_seconds)
    ok (id_or_zero mined.0, mined.1)

  unfoldable pub vote_on_reveal : ℕ → Bool → Result (List Transaction)
  vote_on_reveal request_id approve = do
    mined ← send s.chain (vote_on_reveal_call request_id approve)
    ok mined.1

  unfoldable pub submit_share : Random → ℕ → ℕ → Share → Text → Result (List Transaction)
  unfolding share_data
  submit_share random k request_id share coordinator_public_key = do
    encrypted_share ←
        ciphered (encrypt s.crypto random k coordinator_public_key (bytes (share_data share)))
    mined ←
        send_bytes s.chain (s.stringify_ciphertext encrypted_share)
          (submit_share_for_reveal_call request_id (pos share.index -ℤ pos 1))
    ok mined.1

  unfoldable pub reconstruct_and_decrypt : List Share → SealedMetadata → Result (RevealData M)
  unfolding decrypt_with_viewing_key
  reconstruct_and_decrypt shares encrypted_metadata = do
    viewing_key_bytes ← shared (combine construct shares)
    decrypted ← decrypt_with_viewing_key viewing_key_bytes encrypted_metadata
    metadata ← called (s.parse (s.text_decode decrypted))
    ok (record {
      metadata = metadata;
      reconstructed_key_hash = s.hashing.keccak256 viewing_key_bytes;
    })

  unfoldable pub finalize_reveal : ℕ → Text → Result (List Transaction)
  finalize_reveal request_id reconstructed_key_hash = do
    mined ← send s.chain (finalize_reveal_call request_id reconstructed_key_hash)
    ok mined.1

  unfoldable pub decrypt_share : Text → EciesCiphertext → Result ReceivedShare
  unfolding received_share
  decrypt_share private_key encrypted_share = do
    decrypted ← ciphered (decrypt s.crypto private_key encrypted_share)
    ok (received_share decrypted)
