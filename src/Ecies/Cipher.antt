-- ===== src/Ecies/Cipher.antt =====
-- The class ECIES of sdk/ecies.ts. Its calls of randomBytes are numbered; an operation is given the
-- number of its first call.
use ilr_module.Prelude.{
  ℕ, ◌+◌, ◌-◌, List, [], ◌∷◌, ◌++◌, ltb, if◌then◌else◌, Option, none, some, length, take, drop,
  replicate,
}
use ilr_module.Prelude.Text.{Text, codes}
use ilr_module.Hex.{bytes_to_hex, hex_to_bytes}
use ilr_module.Ecies.Crypto.{Crypto, Random}

-- What an operation throws: its own error with the version, or an error of a library.
pub data EciesError : Type 0 where
  unsupported_version : ℕ → EciesError
  library_error : EciesError

pub data Result {ℓ} (A : Type ℓ) : Type ℓ where
  ok : A → Result A
  err : EciesError → Result A

infixl 5 ◌>>=◌ ◌>>◌
abbrev pub ◌>>=◌ {ℓ κ} : {A : Type ℓ} {B : Type κ} → Result A → (A → Result B) → Result B
ok a >>= f = f a
err e >>= f = err e

abbrev pub ◌>>◌ {ℓ κ} : {A : Type ℓ} {B : Type κ} → Result A → Result B → Result B
m >> k = m >>= λ _. k

abbrev pub call {ℓ} : {A : Type ℓ} → Option A → Result A
call none = err library_error
call (some a) = ok a

abbrev pub ecies_version : ℕ
ecies_version = 1

-- The interface ECIESCiphertext. Old data has no field `version`: `none`.
pub record EciesCiphertext : Type 0 where
  pub version : Option ℕ
  pub ephemeral_public_key : Text
  pub iv : Text
  pub ciphertext : Text
  pub auth_tag : Text

pub record EciesKeyPair : Type 0 where
  pub private_key : Text
  pub public_key : Text

-- `Uint8Array | Buffer | string`
pub data Plaintext : Type 0 where
  bytes : List ℕ → Plaintext
  text : Text → Plaintext

abbrev pub info : Text
info = codes "ecies-encryption"

-- `ciphertext.version ?? 0`
abbrev pub version_of : Option ℕ → ℕ
version_of none = 0
version_of (some v) = v

unfoldable pub check_version : ℕ → Result (Unit {0})
check_version v = if ltb ecies_version v then err (unsupported_version v) else ok tt

-- `'0x' + '00'.repeat(65)`
abbrev pub placeholder : Text
placeholder = b'0' ∷ b'x' ∷ replicate 130 b'0'

module _ (c : Crypto) where
  -- `typeof plaintext === 'string' ? new TextEncoder().encode(plaintext) : new Uint8Array(plaintext)`
  unfoldable pub plaintext_bytes : Plaintext → List ℕ
  plaintext_bytes (bytes bs) = bs
  plaintext_bytes (text t) = c.text_encode t

  unfoldable pub hkdf_salt : List ℕ
  hkdf_salt = c.text_encode (codes "natlangchain-ecies-v1-salt")

  unfoldable pub derive_key : List ℕ → Text → List ℕ
  unfolding hkdf_salt
  derive_key shared_secret info =
      if c.has_subtle
      then c.subtle_hkdf (drop 1 shared_secret) hkdf_salt (c.text_encode info)
      else c.node_hkdf (drop 1 shared_secret) hkdf_salt info

  -- The ciphertext and the tag. `slice(0, -16)` and `slice(-16)` split what the Web Crypto API gives.
  unfoldable pub aes_gcm_encrypt : List ℕ → List ℕ → List ℕ → Result (List ℕ × List ℕ)
  aes_gcm_encrypt key iv plaintext =
      if c.has_subtle
      then (do
        result ← call (c.subtle_encrypt key iv plaintext)
        ok (take (length result - 16) result, drop (length result - 16) result))
      else call (c.node_encrypt key iv plaintext)

  unfoldable pub aes_gcm_decrypt : List ℕ → List ℕ → List ℕ → List ℕ → Result (List ℕ)
  aes_gcm_decrypt key iv ciphertext auth_tag =
      if c.has_subtle
      then call (c.subtle_decrypt key iv (ciphertext ++ auth_tag))
      else call (c.node_decrypt key iv ciphertext auth_tag)

  unfoldable pub generate_key_pair : Random → ℕ → Result EciesKeyPair
  generate_key_pair random k = do
    let private_key_bytes = random k 32
    public_key_bytes ← call (c.get_public_key private_key_bytes)
    ok (record {
      private_key = bytes_to_hex private_key_bytes;
      public_key = bytes_to_hex public_key_bytes;
    })

  unfoldable pub public_key_from_private : Text → Result Text
  public_key_from_private private_key = do
    public_key_bytes ← call (c.get_public_key (hex_to_bytes private_key))
    ok (bytes_to_hex public_key_bytes)

  -- Two calls of randomBytes: the ephemeral key, then the initialization vector.
  unfoldable pub encrypt : Random → ℕ → Text → Plaintext → Result EciesCiphertext
  unfolding aes_gcm_encrypt derive_key plaintext_bytes
  encrypt random k recipient_public_key plaintext = do
    let ephemeral_private = random k 32
    ephemeral_public ← call (c.get_public_key ephemeral_private)
    shared_point ← call (c.get_shared_secret ephemeral_private (hex_to_bytes recipient_public_key))
    let iv = random (k + 1) 12
    sealed ← aes_gcm_encrypt (derive_key shared_point info) iv (plaintext_bytes plaintext)
    ok (record {
      version = some ecies_version;
      ephemeral_public_key = bytes_to_hex ephemeral_public;
      iv = bytes_to_hex iv;
      ciphertext = bytes_to_hex sealed.0;
      auth_tag = bytes_to_hex sealed.1;
    })

  unfoldable pub decrypt : Text → EciesCiphertext → Result (List ℕ)
  unfolding check_version aes_gcm_decrypt derive_key
  decrypt private_key sealed = do
    check_version (version_of sealed.version)
    shared_point ←
        call (
          c.get_shared_secret (hex_to_bytes private_key) (hex_to_bytes sealed.ephemeral_public_key))
    aes_gcm_decrypt (derive_key shared_point info) (hex_to_bytes sealed.iv)
        (hex_to_bytes sealed.ciphertext) (hex_to_bytes sealed.auth_tag)

  -- The loop of encryptMulti: the data key, encrypted to each recipient.
  unfoldable pub key_shares_loop : Random → ℕ → List ℕ → List Text → Result (List EciesCiphertext)
  unfolding encrypt
  key_shares_loop random k dek [] = ok []
  key_shares_loop random k dek (pub_key ∷ rest) = do
    encrypted_dek ← encrypt random k pub_key (bytes dek)
    key_shares ← key_shares_loop random (k + 2) dek rest
    ok (encrypted_dek ∷ key_shares)

  -- The shared ciphertext and the key shares.
  unfoldable pub encrypt_multi :
      Random → ℕ → List Text → Plaintext → Result (EciesCiphertext × List EciesCiphertext)
  unfolding aes_gcm_encrypt key_shares_loop plaintext_bytes
  encrypt_multi random k recipient_public_keys plaintext = do
    let dek = random k 32
    let iv = random (k + 1) 12
    sealed ← aes_gcm_encrypt dek iv (plaintext_bytes plaintext)
    key_shares ← key_shares_loop random (k + 2) dek recipient_public_keys
    ok (
      record {
        version = some ecies_version;
        ephemeral_public_key = placeholder;
        iv = bytes_to_hex iv;
        ciphertext = bytes_to_hex sealed.0;
        auth_tag = bytes_to_hex sealed.1;
      },
      key_shares,
    )

  unfoldable pub decrypt_multi : Text → EciesCiphertext → EciesCiphertext → Result (List ℕ)
  unfolding decrypt aes_gcm_decrypt
  decrypt_multi private_key shared_ciphertext my_key_share = do
    dek ← decrypt private_key my_key_share
    aes_gcm_decrypt dek (hex_to_bytes shared_ciphertext.iv)
        (hex_to_bytes shared_ciphertext.ciphertext) (hex_to_bytes shared_ciphertext.auth_tag)
