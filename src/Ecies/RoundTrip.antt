-- ===== src/Ecies/RoundTrip.antt =====
-- What encrypt of sdk/ecies.ts gives is decrypted by decrypt.
use ilr_module.Prelude.{
  ℕ, ◌+◌, ◌-◌, ◌≡◌, refl, ap, ◌∙◌, List, true, false, Bool-cases, inl, inr, ltb, if◌then◌else◌,
  Option, none, some, length, take, drop, take-append-drop, All-take, All-drop,
}
use ilr_module.Prelude.Text.{Text}
use ilr_module.Hex.{bytes_to_hex}
use ilr_module.Hex.RoundTrip.{IsByte, hex_to_bytes-bytes_to_hex}
use ilr_module.Ecies.Crypto.{Crypto, Random, IsRandom, Bytes, Laws}
use ilr_module.Ecies.Cipher.{
  Result, ok, err, ◌>>=◌, call, EciesCiphertext, EciesKeyPair, Plaintext, bytes, text,
  ecies_version, plaintext_bytes, derive_key, aes_gcm_encrypt, aes_gcm_decrypt, generate_key_pair,
  public_key_from_private, encrypt, decrypt, check_version, unsupported_version, info,
}

-- The step of a chain after an operation that gave a value.
pub bind_ok {ℓ κ} :
    {A : Type ℓ} {B : Type κ} {m : Result A} {a : A} {r : Result B} (f : A → Result B)
    → m ≡ ok a
    → f a ≡ r
    → (m >>= f) ≡ r
bind_ok f e g = ap (λ t. t >>= f) e ∙ g

pub bind_call {ℓ κ} :
    {A : Type ℓ} {B : Type κ} {o : Option A} {a : A} {r : Result B} (f : A → Result B)
    → o ≡ some a
    → f a ≡ r
    → (call o >>= f) ≡ r
bind_call f e g = ap (λ t. call t >>= f) e ∙ g

bind_call-inverse {ℓ κ} :
    {A : Type ℓ} {B : Type κ} (o : Option A) (g : A → B) (b : B)
    → (call o >>= λ a. ok (g a)) ≡ ok b
    → (a : A) × (o ≡ some a) × (g a ≡ b)
bind_call-inverse none g b e = absurd (cc)
bind_call-inverse (some a) g b e = (a, refl, cc)

-- A private and a public key that belong together, as bytes.
pub record IsPair (c : Crypto) (a : List ℕ) (pa : List ℕ) : Type 0 where
  pub private_bytes : Bytes a
  pub derived : c.get_public_key a ≡ some pa

-- A Uint8Array holds bytes.
abbrev pub IsPlaintext : Plaintext → Type 0
IsPlaintext (bytes bs) = Bytes bs
IsPlaintext (text t) = Unit

pair_of : List ℕ → List ℕ → EciesKeyPair
pair_of a pa = record { private_key = bytes_to_hex a; public_key = bytes_to_hex pa }

-- The two parts of a sealed text that open again.
pub record Sealed (c : Crypto) (key : List ℕ) (iv : List ℕ) (plain : List ℕ) : Type 0 where
  pub parts : List ℕ × List ℕ
  pub seals : aes_gcm_encrypt c key iv plain ≡ ok parts
  pub opens : aes_gcm_decrypt c key iv parts.0 parts.1 ≡ ok plain
  pub text_bytes : Bytes parts.0
  pub tag_bytes : Bytes parts.1

module _ (c : Crypto) (laws : Laws c) where
  pub plaintext_bytes-Bytes :
      (plain : Plaintext) → IsPlaintext plain → Bytes (plaintext_bytes c plain)
  unfolding plaintext_bytes
  plaintext_bytes-Bytes (bytes bs) b = b
  plaintext_bytes-Bytes (text t) b = laws.encoded_bytes t

  subtle-Sealed :
      (key iv plain : List ℕ)
      → c.has_subtle ≡ true
      → length key ≡ 32
      → length iv ≡ 12
      → Bytes plain
      → Sealed c key iv plain
  unfolding aes_gcm_encrypt aes_gcm_decrypt
  subtle-Sealed key iv plain e lk li b =
      let gcm = laws.subtle_gcm key iv plain lk li b in
      let n : ℕ = length gcm.0 - 16 in
      record {
        parts = (take n gcm.0, drop n gcm.0);
        seals = rw e (bind_call _ gcm.1 refl);
        opens = rw (e, take-append-drop n gcm.0) (ap call gcm.2);
        text_bytes = All-take IsByte n gcm.0 gcm.3;
        tag_bytes = All-drop IsByte n gcm.0 gcm.3;
      }

  node-Sealed :
      (key iv plain : List ℕ)
      → c.has_subtle ≡ false
      → length key ≡ 32
      → length iv ≡ 12
      → Bytes plain
      → Sealed c key iv plain
  unfolding aes_gcm_encrypt aes_gcm_decrypt
  node-Sealed key iv plain e lk li b =
      let gcm = laws.node_gcm key iv plain lk li b in
      record {
        parts = (gcm.0, gcm.1);
        seals = rw e (ap call gcm.2);
        opens = rw e (ap call gcm.3);
        text_bytes = gcm.4;
        tag_bytes = gcm.5;
      }

  -- AES-GCM on either path.
  pub gcm-Sealed :
      (key iv plain : List ℕ)
      → length key ≡ 32
      → length iv ≡ 12
      → Bytes plain
      → Sealed c key iv plain
  gcm-Sealed key iv plain lk li b = elim (Bool-cases c.has_subtle) [
    | inl e ↦ subtle-Sealed key iv plain e lk li b
    | inr e ↦ node-Sealed key iv plain e lk li b
  ]

  length-derive_key : (s : List ℕ) (t : Text) → length (derive_key c s t) ≡ 32
  unfolding derive_key
  length-derive_key s t = elim (Bool-cases c.has_subtle) [
    | inl e ↦ rw e (laws.subtle_hkdf_length _ _ _)
    | inr e ↦ rw e (laws.node_hkdf_length _ _ _)
  ]

  generated :
      (random : Random)
      → IsRandom random
      → (m : ℕ) (pair : EciesKeyPair) → generate_key_pair c random m ≡ ok pair
      → (pa : List ℕ) × IsPair c (random m 32) pa × (pair_of (random m 32) pa ≡ pair)
  unfolding generate_key_pair pair_of
  generated random rand m pair gen =
      let found =
        bind_call-inverse (c.get_public_key (random m 32)) (pair_of (random m 32)) pair gen in
      (found.0, record { private_bytes = rand.drawn_bytes m 32; derived = found.1 }, found.2)

  module _ (random : Random) (rand : IsRandom random) where
    open_sealed :
        (k : ℕ) (a pa s eph : List ℕ) (plain : Plaintext)
        → IsPlaintext plain
        → IsPair c a pa
        → c.get_public_key (random k 32) ≡ some eph
        → c.get_shared_secret (random k 32) pa ≡ some s
        → c.get_shared_secret a eph ≡ some s
        → (sealed : EciesCiphertext) × (encrypt c random k (bytes_to_hex pa) plain ≡ ok sealed)
          × (decrypt c (bytes_to_hex a) sealed ≡ ok (plaintext_bytes c plain))
    unfolding encrypt decrypt check_version
    open_sealed k a pa s eph plain b pair ge se sd =
        let iv = random (k + 1) 12 in
        let key = derive_key c s info in
        let body =
          gcm-Sealed key iv (plaintext_bytes c plain) (length-derive_key s info)
            (rand.drawn_length (k + 1) 12) (plaintext_bytes-Bytes plain b) in
        let sealed : EciesCiphertext = record {
          version = some ecies_version;
          ephemeral_public_key = bytes_to_hex eph;
          iv = bytes_to_hex iv;
          ciphertext = bytes_to_hex body.parts.0;
          auth_tag = bytes_to_hex body.parts.1;
        } in
        (
          sealed,
          rw (hex_to_bytes-bytes_to_hex pa (laws.public_bytes a pa pair.derived))
              (bind_call _ ge (bind_call _ se (bind_ok _ body.seals refl))),
          rw
              (
                hex_to_bytes-bytes_to_hex a pair.private_bytes,
                hex_to_bytes-bytes_to_hex eph (laws.public_bytes (random k 32) eph ge),
                hex_to_bytes-bytes_to_hex iv (rand.drawn_bytes (k + 1) 12),
                hex_to_bytes-bytes_to_hex body.parts.0 body.text_bytes,
                hex_to_bytes-bytes_to_hex body.parts.1 body.tag_bytes,
              )
              (bind_call _ sd body.opens),
        )

    -- Encryption to a key gives a ciphertext that its private key opens.
    pub decrypt-encrypt_pair :
        (k : ℕ) (a pa eph : List ℕ) (plain : Plaintext)
        → IsPlaintext plain
        → IsPair c a pa
        → c.get_public_key (random k 32) ≡ some eph
        → (sealed : EciesCiphertext) × (encrypt c random k (bytes_to_hex pa) plain ≡ ok sealed)
          × (decrypt c (bytes_to_hex a) sealed ≡ ok (plaintext_bytes c plain))
    decrypt-encrypt_pair k a pa eph plain b pair ge =
        let secret = laws.shared (random k 32) eph a pa ge pair.derived in
        open_sealed k a pa secret.0 eph plain b pair ge secret.1 secret.2

    -- For each key pair that generateKeyPair gives and each ephemeral key that the library accepts,
    -- encrypt to the public key returns a ciphertext, and decrypt with the private key returns the
    -- bytes of the plaintext. The libraries obey their laws, and randomBytes gives bytes, as many as
    -- are asked for.
    pub decrypt-encrypt :
        (m k : ℕ) (pair : EciesKeyPair) (eph : List ℕ) (plain : Plaintext)
        → IsPlaintext plain
        → generate_key_pair c random m ≡ ok pair
        → c.get_public_key (random k 32) ≡ some eph
        → (sealed : EciesCiphertext) × (encrypt c random k pair.public_key plain ≡ ok sealed)
          × (decrypt c pair.private_key sealed ≡ ok (plaintext_bytes c plain))
    unfolding pair_of
    decrypt-encrypt m k pair eph plain b gen ge =
        let made = generated random rand m pair gen in
        rw (← made.2) (decrypt-encrypt_pair k (random m 32) made.0 eph plain b made.1 ge)

  -- publicKeyFromPrivate derives the public key of a generated pair from its private key, where
  -- randomBytes gives bytes.
  pub public_key_from_private-generate_key_pair :
      (random : Random) (m : ℕ) (pair : EciesKeyPair)
      → IsRandom random
      → generate_key_pair c random m ≡ ok pair
      → public_key_from_private c pair.private_key ≡ ok pair.public_key
  unfolding public_key_from_private pair_of
  public_key_from_private-generate_key_pair random m pair rand gen =
      let made = generated random rand m pair gen in
      rw (← made.2, hex_to_bytes-bytes_to_hex (random m 32) (rand.drawn_bytes m 32))
        (bind_call _ made.1.derived refl)

module _ (c : Crypto) where
  -- decrypt refuses every version above 1 with an error that names it, whatever the rest of the
  -- ciphertext is, and treats every other version like a missing one.
  pub decrypt-versions :
      (private_key : Text) (sealed : EciesCiphertext) (v : ℕ)
      → decrypt c private_key (record sealed { version = some v }) ≡ (
          if ltb 1 v
          then err (unsupported_version v)
          else decrypt c private_key (record sealed { version = none }))
  unfolding decrypt check_version
  decrypt-versions private_key sealed v = elim (Bool-cases (ltb 1 v)) [
    | inl e ↦ rw e refl
    | inr e ↦ rw e refl
  ]
