-- ===== src/Ecies/Crypto.antt =====
-- What sdk/ecies.ts calls and does not contain: @noble/secp256k1, the Web Crypto API, the crypto
-- module of Node.js and TextEncoder. A call that throws is `none`.
use ilr_module.Prelude.{ℕ, ◌≤◌, ◌≡◌, Bool, Option, some, List, All, length}
use ilr_module.Prelude.Text.{Text}
use ilr_module.Hex.RoundTrip.{IsByte}

pub record Crypto : Type 0 where
  -- Whether `crypto.subtle` is there.
  pub has_subtle : Bool
  pub get_public_key : List ℕ → Option (List ℕ)
  pub get_shared_secret : List ℕ → List ℕ → Option (List ℕ)
  -- HKDF with SHA-256 to 32 bytes, of the secret, the salt and the info.
  pub subtle_hkdf : List ℕ → List ℕ → Text → List ℕ
  pub node_hkdf : List ℕ → List ℕ → Text → List ℕ
  -- importKey and encrypt: the ciphertext, with the tag of 16 bytes behind it.
  pub subtle_encrypt : List ℕ → List ℕ → List ℕ → Option (List ℕ)
  pub subtle_decrypt : List ℕ → List ℕ → List ℕ → Option (List ℕ)
  -- createCipheriv: the ciphertext and the tag.
  pub node_encrypt : List ℕ → List ℕ → List ℕ → Option (List ℕ × List ℕ)
  pub node_decrypt : List ℕ → List ℕ → List ℕ → List ℕ → Option (List ℕ)
  -- `new TextEncoder().encode`
  pub text_encode : Text → List ℕ

-- The k-th call of randomBytes, for n bytes.
abbrev pub Random : Type 0
Random = ℕ → ℕ → List ℕ

pub record IsRandom (random : Random) : Type 0 where
  pub drawn_length : (k n : ℕ) → length (random k n) ≡ n
  pub drawn_bytes : (k n : ℕ) → All IsByte (random k n)

abbrev pub Bytes : List ℕ → Type 0
Bytes bs = All IsByte bs

-- The documented behaviour of those libraries.
pub record Laws (c : Crypto) : Type 0 where
  pub public_bytes : (a pa : List ℕ) → c.get_public_key a ≡ some pa → Bytes pa
  -- Diffie and Hellman: both sides have a secret, and the same one.
  pub shared :
      (a pa b pb : List ℕ)
      → c.get_public_key a ≡ some pa
      → c.get_public_key b ≡ some pb
      → (s : List ℕ) × (c.get_shared_secret a pb ≡ some s) × (c.get_shared_secret b pa ≡ some s)
  pub encoded_bytes : (t : Text) → Bytes (c.text_encode t)
  pub subtle_hkdf_length : (s t : List ℕ) (i : Text) → length (c.subtle_hkdf s t i) ≡ 32
  pub node_hkdf_length : (s t : List ℕ) (i : Text) → length (c.node_hkdf s t i) ≡ 32
  -- AES-256-GCM takes a key of 32 bytes and an initialization vector of 12, and decrypts what it encrypted.
  pub subtle_gcm :
      (key iv plain : List ℕ)
      → length key ≡ 32
      → length iv ≡ 12
      → Bytes plain
      → (sealed : List ℕ) × (c.subtle_encrypt key iv plain ≡ some sealed)
        × (c.subtle_decrypt key iv sealed ≡ some plain)
        × Bytes sealed
        × (16 ≤ length sealed)
  pub node_gcm :
      (key iv plain : List ℕ)
      → length key ≡ 32
      → length iv ≡ 12
      → Bytes plain
      → (text : List ℕ) × (tag : List ℕ) × (c.node_encrypt key iv plain ≡ some (text, tag))
        × (c.node_decrypt key iv text tag ≡ some plain)
        × Bytes text
        × Bytes tag
        × (length tag ≡ 16)
