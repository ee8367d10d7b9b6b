-- ===== src/Ecies/Multi.antt =====
-- encryptMulti and decryptMulti of sdk/ecies.ts.
use ilr_module.Prelude.{ℕ, ◌+◌, ◌≡◌, refl, List, [], ◌∷◌, map, some, All}
use ilr_module.Hex.{bytes_to_hex}
use ilr_module.Hex.RoundTrip.{hex_to_bytes-bytes_to_hex}
use ilr_module.Ecies.Crypto.{Crypto, Random, IsRandom, Bytes, Laws}
use ilr_module.Ecies.Cipher.{
  ok, EciesCiphertext, Plaintext, bytes, ecies_version, placeholder, plaintext_bytes, decrypt,
  key_shares_loop, encrypt_multi, decrypt_multi,
}
use ilr_module.Ecies.RoundTrip.{
  bind_ok, IsPlaintext, plaintext_bytes-Bytes, IsPair, gcm-Sealed, decrypt-encrypt_pair,
}

-- A private key and its public key, as bytes.
abbrev pub Pair : Type 0
Pair = List ℕ × List ℕ

-- Each key share belongs to the recipient at its place.
abbrev pub Matched : (Pair → EciesCiphertext → Type 0) → List Pair → List EciesCiphertext → Type 0
Matched R [] [] = Unit
Matched R (p ∷ ps) (s ∷ ss) = R p s × Matched R ps ss
Matched R [] (s ∷ ss) = ⊥
Matched R (p ∷ ps) [] = ⊥

Matched-map :
    (R S : Pair → EciesCiphertext → Type 0)
    → ((p : Pair) (s : EciesCiphertext) → R p s → S p s)
    → (ps : List Pair) (ss : List EciesCiphertext) → Matched R ps ss
    → Matched S ps ss
Matched-map R S f [] [] h = tt
Matched-map R S f (p ∷ ps) (s ∷ ss) h = (f p s h.0, Matched-map R S f ps ss h.1)
Matched-map R S f [] (s ∷ ss) h = elim h [ ]
Matched-map R S f (p ∷ ps) [] h = elim h [ ]

-- The library accepts every draw of 32 bytes as a private key.
abbrev pub AcceptsDraws : Crypto → Random → Type 0
AcceptsDraws c random = (j : ℕ) → (eph : List ℕ) × (c.get_public_key (random j 32) ≡ some eph)

module _ (c : Crypto) (laws : Laws c) (random : Random) (rand : IsRandom random)
    (accepts : AcceptsDraws c random) where
  loop_opens :
      (k : ℕ) (dek : List ℕ) (ps : List Pair)
      → Bytes dek
      → All (λ (p : Pair). IsPair c p.0 p.1) ps
      → (shares : List EciesCiphertext) × (key_shares_loop c random k dek
            (map (λ (p : Pair). bytes_to_hex p.1) ps)
          ≡ ok shares)
        × Matched (λ p s. decrypt c (bytes_to_hex p.0) s ≡ ok dek) ps shares
  unfolding key_shares_loop
  loop_opens k dek [] b h = ([], refl, tt)
  loop_opens k dek (p ∷ ps) b h =
      let one =
        decrypt-encrypt_pair c laws random rand k p.0 p.1 (accepts k).0 (bytes dek) b h.0
          (accepts k).1 in
      let rest = loop_opens (k + 2) dek ps b h.1 in
      (one.0 ∷ rest.0, bind_ok _ one.1 (bind_ok _ rest.1 refl), (one.2, rest.2))

  -- encryptMulti to any list of public keys returns a shared ciphertext and one key share for each
  -- key, in their order, and each recipient's private key decrypts them by decryptMulti to the bytes
  -- of the plaintext. The libraries obey their laws, randomBytes gives bytes, as many as are asked
  -- for, and the library accepts its draws as private keys.
  pub decrypt_multi-encrypt_multi :
      (k : ℕ) (ps : List Pair) (plain : Plaintext)
      → IsPlaintext plain
      → All (λ (p : Pair). IsPair c p.0 p.1) ps
      → (shared : EciesCiphertext) × (shares : List EciesCiphertext) × (encrypt_multi c random k
            (map (λ (p : Pair). bytes_to_hex p.1) ps)
            plain
          ≡ ok (shared, shares))
        × Matched
            (λ p s. decrypt_multi c (bytes_to_hex p.0) shared s ≡ ok (plaintext_bytes c plain))
            ps
            shares
  unfolding encrypt_multi decrypt_multi
  decrypt_multi-encrypt_multi k ps plain b h =
      let dek = random k 32 in
      let iv = random (k + 1) 12 in
      let body =
        gcm-Sealed c laws dek iv (plaintext_bytes c plain) (rand.drawn_length k 32)
          (rand.drawn_length (k + 1) 12) (plaintext_bytes-Bytes c laws plain b) in
      let loop = loop_opens (k + 2) dek ps (rand.drawn_bytes k 32) h in
      let shared : EciesCiphertext = record {
        version = some ecies_version;
        ephemeral_public_key = placeholder;
        iv = bytes_to_hex iv;
        ciphertext = bytes_to_hex body.parts.0;
        auth_tag = bytes_to_hex body.parts.1;
      } in
      (
        shared,
        loop.0,
        bind_ok _ body.seals (bind_ok _ loop.1 refl),
        Matched-map (λ p s. decrypt c (bytes_to_hex p.0) s ≡ ok dek)
            (λ p s. decrypt_multi c (bytes_to_hex p.0) shared s ≡ ok (plaintext_bytes c plain))
            (λ p s e. bind_ok _ e (
              rw
                (
                  hex_to_bytes-bytes_to_hex iv (rand.drawn_bytes (k + 1) 12),
                  hex_to_bytes-bytes_to_hex body.parts.0 body.text_bytes,
                  hex_to_bytes-bytes_to_hex body.parts.1 body.tag_bytes,
                )
                body.opens))
            ps loop.0 loop.2,
      )
