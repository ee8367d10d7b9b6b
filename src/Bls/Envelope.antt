-- ===== src/Bls/Envelope.antt =====
-- encryptViewingKey and decryptViewingKey of sdk/threshold-bls.ts. SHA-256 and the random bytes are
-- parameters, AES-GCM is that of the record Crypto. An exception is `none`.
use ilr_module.Prelude.{
  ℕ, ◌-◌, ◌≤◌, ◌<◌, ◌≡◌, refl, ap, ◌∙◌, List, ◌++◌, false, Bool-cases, inl, inr, ltb, le→ltb-false,
  if◌then◌else◌, Option, none, some, All, length, length-append, take, drop, take-length-append,
  drop-length-append, replicate, arith,
}
use ilr_module.Ecies.Crypto.{Crypto, Bytes, Laws}
use mathlib.Core.List.{append-nil, Memᴰ}
use ilr_module.Bls.{
  Curve, KeyShare, DkgOutput, ◌>>=◌, reconstruct_secret, generate_key_shares, bytes_to_big_int,
}
use ilr_module.Bls.Residues.{IsScalarOrder}
use ilr_module.Bls.Coefficient.{AllDistinct, indices}
use ilr_module.Bls.Reconstruct.{reconstruct_secret-generate_key_shares}

module _ (c : Crypto) (sha256 : List ℕ → List ℕ) where
  -- `output.set(authTag, …)` into the last 16 places: a longer tag throws, a shorter one leaves zeros.
  unfoldable pub put_tag : List ℕ → Option (List ℕ)
  put_tag tag = if ltb 16 (length tag) then none else some (tag ++ replicate (16 - length tag) 0)

  unfoldable pub encrypt_viewing_key : List ℕ → List ℕ → List ℕ → Option (List ℕ)
  unfolding put_tag
  encrypt_viewing_key iv viewing_key secret =
      let encryption_key = sha256 secret in
      if c.has_subtle
      then (c.subtle_encrypt encryption_key iv viewing_key >>= λ result. some (iv ++ result))
      else (c.node_encrypt encryption_key iv viewing_key >>= λ sealed.
          put_tag sealed.1 >>= λ tag. some (iv ++ (sealed.0 ++ tag)))

  unfoldable pub open_sealed : List ℕ → List ℕ → List ℕ → Option (List ℕ)
  open_sealed encryption_key iv sealed =
      if c.has_subtle
      then c.subtle_decrypt encryption_key iv sealed
      else c.node_decrypt encryption_key iv (take (length sealed - 16) sealed)
          (drop (length sealed - 16) sealed)

  unfoldable pub decrypt_viewing_key : Curve → List ℕ → List KeyShare → ℕ → Option (List ℕ)
  unfolding open_sealed
  decrypt_viewing_key curve encrypted_key shares threshold =
      reconstruct_secret curve shares threshold >>= λ secret.
      if ltb (length encrypted_key) 28
      then none
      else open_sealed (sha256 secret) (take 12 encrypted_key) (drop 12 encrypted_key)

bind_found {ℓ κ} :
    {A : Type ℓ} {B : Type κ} {o : Option A} {a : A} {r : Option B} (f : A → Option B)
    → o ≡ some a
    → f a ≡ r
    → (o >>= f) ≡ r
bind_found f e g = ap (λ t. t >>= f) e ∙ g

-- The two parts of an output are cut where they were joined.
take_front :
    (xs ys : List ℕ) (n : ℕ) → length xs ≡ n → (take n (xs ++ ys) ≡ xs) × (drop n (xs ++ ys) ≡ ys)
take_front xs ys n e = rw (← e) (take-length-append xs ys, drop-length-append xs ys)

module _ (c : Crypto) (sha256 : List ℕ → List ℕ) (laws : Laws c) where
  put_tag-whole : (tag : List ℕ) → length tag ≡ 16 → put_tag c sha256 tag ≡ some tag
  unfolding put_tag
  put_tag-whole tag e = simp e (ap some (append-nil tag))

  -- What encryptViewingKey puts behind the initialization vector.
  record Enclosed (iv plain secret : List ℕ) : Type 0 where
    sealed : List ℕ
    encrypted : encrypt_viewing_key c sha256 iv plain secret ≡ some (iv ++ sealed)
    long : 16 ≤ length sealed
    opens : open_sealed c sha256 (sha256 secret) iv sealed ≡ some plain

  enclosed :
      (iv plain secret : List ℕ)
      → length (sha256 secret) ≡ 32
      → length iv ≡ 12
      → Bytes plain
      → Enclosed iv plain secret
  unfolding encrypt_viewing_key open_sealed
  enclosed iv plain secret lk li b =
      let key = sha256 secret in
      elim (Bool-cases c.has_subtle) [
        | inl on ↦
            let gcm = laws.subtle_gcm key iv plain lk li b in
            record {
              sealed = gcm.0;
              encrypted = simp on (bind_found (λ r. some (iv ++ r)) gcm.1 refl);
              long = gcm.4;
              opens = simp on gcm.2;
            }
        | inr off ↦
            let gcm = laws.node_gcm key iv plain lk li b in
            let all : length (gcm.0 ++ gcm.1) - 16 ≡ length gcm.0 =
              omega (arith, length-append gcm.0 gcm.1, gcm.6) in
            record {
              sealed = gcm.0 ++ gcm.1;
              encrypted =
                  simp off (bind_found _ gcm.2 (bind_found _ (put_tag-whole gcm.1 gcm.6) refl));
              long = omega (arith, length-append gcm.0 gcm.1, gcm.6);
              opens =
                  simp (off, all, take-length-append gcm.0 gcm.1, drop-length-append gcm.0 gcm.1)
                    gcm.3;
            }
      ]

  -- decryptViewingKey opens with its shares what encryptViewingKey sealed under the secret that they
  -- reconstruct.
  decrypts :
      (curve : Curve) (iv plain secret : List ℕ) (shares : List KeyShare) (threshold : ℕ)
      → length iv ≡ 12
      → reconstruct_secret curve shares threshold ≡ some secret
      → (e : Enclosed iv plain secret)
      → decrypt_viewing_key c sha256 curve (iv ++ e.sealed) shares threshold ≡ some plain
  unfolding decrypt_viewing_key
  decrypts curve iv plain secret shares threshold li r e =
      let parts = take_front iv e.sealed 12 li in
      let test : ltb (length (iv ++ e.sealed)) 28 ≡ false =
        le→ltb-false _ _ (omega (arith, length-append iv e.sealed, e.long)) in
      bind_found _ r (simp (test, parts.0, parts.1) e.opens)

  -- Let generateKeyShares deal a 32-byte master secret below the scalar order, for fewer participants
  -- than the order. Then encryptViewingKey under this secret returns a ciphertext of any viewing key,
  -- and decryptViewingKey returns the viewing key, from shares of the dealing that are at least as
  -- many as the threshold, where the first `threshold` of them have distinct indices. The order is
  -- above 2, fits 32 bytes and obeys Fermat's theorem; AES-GCM obeys its laws, SHA-256 gives 32 bytes,
  -- and the initialization vector has 12.
  pub decrypt_viewing_key-encrypt_viewing_key :
      (curve : Curve) (random : ℕ → List ℕ) (threshold total : ℕ) (secret : List ℕ)
      (out : DkgOutput) (chosen : List KeyShare) (iv viewing_key : List ℕ)
      → IsScalarOrder curve.order
      → total < curve.order
      → Bytes secret
      → length secret ≡ 32
      → bytes_to_big_int secret < curve.order
      → generate_key_shares curve random threshold total (some secret) ≡ some out
      → All (λ s. Memᴰ s out.shares) chosen
      → threshold ≤ length chosen
      → AllDistinct (indices (take threshold chosen))
      → length (sha256 secret) ≡ 32
      → length iv ≡ 12
      → Bytes viewing_key
      → (encrypted : List ℕ) × (encrypt_viewing_key c sha256 iv viewing_key secret ≡ some encrypted)
        × (decrypt_viewing_key c sha256 curve encrypted chosen threshold ≡ some viewing_key)
  decrypt_viewing_key-encrypt_viewing_key curve random threshold total secret out chosen iv
        viewing_key prime small sb size range dealt members enough distinct hashed li vb =
      let e = enclosed iv viewing_key secret hashed li vb in
      let r =
        reconstruct_secret-generate_key_shares curve random threshold total secret out chosen prime
          small sb size range dealt members enough distinct in
      (iv ++ e.sealed, e.encrypted, decrypts curve iv viewing_key secret chosen threshold li r e)
