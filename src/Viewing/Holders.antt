-- ===== src/Viewing/Holders.antt =====
-- The shares of an escrow on their way to the holders and to a coordinator, sdk/viewing-keys.ts.
use ilr_module.Prelude.{
  ℕ, ◌+◌, ◌%◌, ◌<◌, ◌≡◌, refl, ap, ◌∙◌, List, [], Option, ◌∷◌, map, some, All, length, arith,
  if◌then◌else◌, Bool, true, false, none,
}
use ilr_module.Prelude.Text.{Text}
use ilr_module.Hex.{bytes_to_hex}
use ilr_module.Shamir.Scheme.{Share}
use ilr_module.Ecies.Crypto.{Random, IsRandom, Bytes, Laws}
use ilr_module.Ecies.Cipher.{EciesCiphertext, bytes, plaintext_bytes, encrypt, decrypt}
use ilr_module.Ecies.Cipher as Ecies
use ilr_module.Ecies.RoundTrip.{IsPair, decrypt-encrypt_pair}
use ilr_module.Ecies.Multi.{AcceptsDraws}
use ilr_module.Viewing.Services.{
  Result, ok, err, other_error, ◌>>=◌, ciphered, HolderInfo, Transaction, Chain, Services,
  ArgumentLaws, send_bytes,
}
use ilr_module.Viewing.Escrow.{
  EncryptedShare, ReceivedShare, share_data, encrypt_shares, submit_share, decrypt_share,
}

-- The steps of a chain of operations.
pub bind_ok {ℓ κ} :
    {A : Type ℓ} {B : Type κ} {m : Result A} {a : A} {r : Result B} (f : A → Result B)
    → m ≡ ok a
    → f a ≡ r
    → (m >>= f) ≡ r
bind_ok f e g = ap (λ t. t >>= f) e ∙ g

-- A holder with its private key and the bytes of its public key.
pub record Member : Type 0 where
  pub holder : HolderInfo
  pub private_key : List ℕ
  pub public_key : List ℕ

pub record IsMember {M : Type 0} (s : Services M) (m : Member) : Type 0 where
  pub pair : IsPair s.crypto m.private_key m.public_key
  pub printed : m.holder.public_key ≡ bytes_to_hex m.public_key

-- A share as its holder receives it.
abbrev pub received : Share → ReceivedShare
received share = record { index = some share.index; payload = share.payload }

-- A share whose index and data are bytes.
pub record IsByteShare (share : Share) : Type 0 where
  pub index-lt : share.index < 256
  pub payload_bytes : Bytes share.payload

-- A call whose argument for `bytes` is refused.
abbrev unsent : Bool → Result (Option ℕ × List Transaction)
unsent can_send = if can_send then err other_error else ok (none, [])

send_bytes-refused :
    (chain : Chain) (text : Text) (tx : List ℕ → Transaction)
    → chain.bytes_argument text ≡ none
    → send_bytes chain text tx ≡ unsent chain.can_send
unfolding send_bytes
send_bytes-refused chain text tx refused = rw refused refl

nothing_sent :
    (can_send : Bool)
    → (unsent can_send >>= λ mined. ok mined.1) ≡ (if can_send then err other_error else ok [])
nothing_sent true = refl
nothing_sent false = refl

module _ {M : Type 0} (s : Services M) where
  -- At each place stands the address of a holder, with a ciphertext that this holder decrypts to the
  -- share at this place.
  abbrev pub Received : List Member → List EncryptedShare → List Share → Type 0
  Received [] [] [] = Unit
  Received (m ∷ ms) (e ∷ es) (share ∷ shares) =
      ((e.0 ≡ m.holder.address)
        × (decrypt_share s (bytes_to_hex m.private_key) e.1 ≡ ok (received share)))
      × Received ms es shares
  Received [] [] (share ∷ shares) = ⊥
  Received [] (e ∷ es) shares = ⊥
  Received (m ∷ ms) [] shares = ⊥
  Received (m ∷ ms) (e ∷ es) [] = ⊥

  module _ (laws : Laws s.crypto) (random : Random) (rand : IsRandom random)
      (accepts : AcceptsDraws s.crypto random) where
    -- A share that is encrypted to a key is what decryptShare gives with its private key.
    pub decrypt_share-encrypt :
        (k : ℕ) (a pa : List ℕ) (share : Share)
        → IsPair s.crypto a pa
        → IsByteShare share
        → (sealed : EciesCiphertext) × (encrypt s.crypto random k
              (bytes_to_hex pa)
              (bytes (share_data share))
            ≡ Ecies.ok sealed)
          × (decrypt_share s (bytes_to_hex a) sealed ≡ ok (received share))
    unfolding decrypt_share share_data plaintext_bytes
    decrypt_share-encrypt k a pa share pair b =
        let made =
          decrypt-encrypt_pair s.crypto laws random rand k a pa (accepts k).0
            (bytes (share_data share)) (omega arith, b.payload_bytes) pair (accepts k).1 in
        let index : share.index % 256 ≡ share.index = omega (arith, b.index-lt) in
        (
          made.0,
          made.1,
          bind_ok _ (ap ciphered made.2)
              (ap (λ i. ok (record { index = some i; payload = share.payload })) index),
        )

    pub encrypt_shares-Received :
        (k : ℕ) (ms : List Member) (shares : List Share)
        → length ms ≡ length shares
        → All (IsMember s) ms
        → All IsByteShare shares
        → (es : List EncryptedShare) × (encrypt_shares s random k
              (map (λ (m : Member). m.holder) ms)
              shares
            ≡ ok es)
          × Received ms es shares
    unfolding encrypt_shares
    encrypt_shares-Received k [] [] l h b = ([], refl, tt)
    encrypt_shares-Received k [] (share ∷ shares) l h b = absurd (omega (arith, l))
    encrypt_shares-Received k (m ∷ ms) [] l h b = absurd (omega (arith, l))
    encrypt_shares-Received k (m ∷ ms) (share ∷ shares) l h b =
        let one = decrypt_share-encrypt k m.private_key m.public_key share h.0.pair b.0 in
        let rest = encrypt_shares-Received (k + 2) ms shares (omega (arith, l)) h.1 b.1 in
        (
          (m.holder.address, one.0) ∷ rest.0,
          rw h.0.printed (bind_ok _ (ap ciphered one.1) (bind_ok _ rest.1 refl)),
          ((refl, one.2), rest.2),
        )

    -- submitShare never submits a share. It encrypts the share to the coordinator, but then it gives
    -- the contract the JSON of the ciphertext for a parameter of type `bytes`: with a runner that can
    -- send, the call fails before a transaction is sent, and with another it does nothing and ends.
    -- The index and the data of the share are bytes, the libraries obey their laws, their draws are
    -- accepted as private keys, and the contract takes as `bytes` only a text that begins with `0x`.
    pub submit_share-unsent :
        (k request_id : ℕ) (share : Share) (a pa : List ℕ)
        → ArgumentLaws s
        → IsPair s.crypto a pa
        → IsByteShare share
        → submit_share s random k request_id share (bytes_to_hex pa)
          ≡ (if s.chain.can_send then err other_error else ok [])
    unfolding submit_share
    submit_share-unsent k request_id share a pa arguments pair b =
        let made = decrypt_share-encrypt k a pa share pair b in
        let object = arguments.object_text made.0 in
        let refused : s.chain.bytes_argument (s.stringify_ciphertext made.0) ≡ none =
          ap s.chain.bytes_argument object.1
          ∙ arguments.refused 123 object.0 (λ e. omega (arith, e)) in
        bind_ok _ (ap ciphered made.1) (
          ap (λ r. r >>= λ mined. ok mined.1)
            (send_bytes-refused s.chain (s.stringify_ciphertext made.0) _ refused)
          ∙ nothing_sent s.chain.can_send)
