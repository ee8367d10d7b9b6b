-- ===== src/Viewing/Creation.antt =====
-- createEscrow of sdk/viewing-keys.ts: what it returns, stores and sends.
use ilr_module.Prelude.{
  ℕ, suc, ◌+◌, ◌≤◌, ◌<◌, ◌≡◌, refl, ap, ◌∙◌, List, [], ◌∷◌, map, Bool, true, false, Bool-cases, inl,
  inr, if◌then◌else◌, Option, none, some, All, length, length-map, get_or, arith,
}
use ilr_module.Prelude.Text.{Text}
use ilr_module.Hex.{bytes_to_hex}
use ilr_module.Hex.RoundTrip.{hex_to_bytes-bytes_to_hex}
use ilr_module.Shamir.Gf256.{construct}
use ilr_module.Shamir.Result as Shamir
use ilr_module.Shamir.Scheme.{Share, split}
use ilr_module.Shamir.Dealt.{IsDealt, split-IsDealt}
use ilr_module.Shamir.Checks.{split-combine}
use ilr_module.Ecies.Crypto.{Random, IsRandom, Bytes, Laws}
use ilr_module.Ecies.RoundTrip.{gcm-Sealed}
use ilr_module.Ecies.Multi.{AcceptsDraws}
use ilr_module.Viewing.Services.{
  ok, ciphered, shared, called, HolderInfo, SealedMetadata, Transaction, create_escrow_call,
  Services, Chain, Effects, send,
}
use ilr_module.Viewing.Escrow.{
  CreateEscrowParams, EscrowResult, encrypt_with_viewing_key, decrypt_with_viewing_key,
  compute_commitment, cid_to_bytes32, store_metadata, encrypt_shares, create_escrow, id_or_zero,
}
use ilr_module.Viewing.Holders.{
  bind_ok, Member, IsMember, IsByteShare, Received, encrypt_shares-Received,
}

-- A list is of bytes if what stands at each place is one.
Bytes-of_places : (xs : List ℕ) → ((k : ℕ) → k < length xs → get_or xs k 0 < 256) → Bytes xs
Bytes-of_places [] h = tt
Bytes-of_places (x ∷ xs) h =
    (h 0 (omega arith), Bytes-of_places xs (λ k l. h (suc k) (omega (arith, l))))

module _ (random : ℕ → ℕ → List ℕ) (threshold : ℕ) (secret : List ℕ) (n : ℕ) (most : n ≤ 255) where
  Dealt-IsByteShare :
      (share : Share) → IsDealt construct random threshold secret n share → IsByteShare share
  Dealt-IsByteShare share d = record {
    index-lt = omega (arith, d.index-le);
    payload_bytes =
        Bytes-of_places share.payload
          (λ k l. rw (d.value k (omega (arith, l, d.same_length))) (omega arith));
  }

  All-IsByteShare :
      (shares : List Share)
      → All (IsDealt construct random threshold secret n) shares
      → All IsByteShare shares
  All-IsByteShare [] h = tt
  All-IsByteShare (share ∷ shares) h = (Dealt-IsByteShare share h.0, All-IsByteShare shares h.1)

-- What sending a transaction gives: nothing is sent without a runner that can send.
abbrev pub sent_by : Chain → Transaction → List Transaction
sent_by chain tx = if chain.can_send then tx ∷ [] else []

send-answers :
    (chain : Chain) (tx : Transaction) (id : Option ℕ)
    → chain.answer tx ≡ some id
    → (mined : Option ℕ) × (send chain tx ≡ ok (mined, sent_by chain tx))
unfolding send
send-answers chain tx id e = elim (Bool-cases chain.can_send) [
  | inl can ↦ (id, rw can (rw e refl))
  | inr not ↦ (none, rw not refl)
]

module _ {M : Type 0} (s : Services M) where
  -- What createEscrow did, by an account of its own: the viewing key is `key`, the metadata is sealed
  -- under it and kept by IPFS if there is a client, and each holder can decrypt its share of the key.
  pub record Created (random : Random) (k : ℕ) (params : CreateEscrowParams M) (ms : List Member)
      (result : EscrowResult) (effects : Effects) : Type 0 where
    pub shares : List Share
    pub dealt :
        split construct
          (λ j n. random (k + 2 + j) n)
          (random k 32)
          (length params.holders)
          params.threshold
        ≡ Shamir.ok shares
    pub held : Received s ms result.encrypted_shares shares
    pub committed : result.viewing_key_commitment ≡ s.hashing.keccak256 (random k 32)
    pub sealed : SealedMetadata
    pub opens :
        decrypt_with_viewing_key s (random k 32) sealed
        ≡ ok (s.crypto.text_encode (s.stringify params.metadata))
    pub announced :
        effects.sent
        ≡ sent_by s.chain (
            create_escrow_call params.dispute_id result.viewing_key_commitment
              result.encrypted_data_hash params.threshold
              (length params.holders)
              (map (λ (h : HolderInfo). h.address) params.holders)
              (map (λ (h : HolderInfo). h.holder_type) params.holders))
    pub kept : effects.stored ≡ (if params.ipfs_client then s.stringify_sealed sealed ∷ [] else [])

  module _ (laws : Laws s.crypto) (random : Random) (rand : IsRandom random) where
    encrypt_with_viewing_key-opens :
        (k : ℕ) (key content : List ℕ)
        → length key ≡ 32
        → Bytes content
        → (sealed : SealedMetadata) × (encrypt_with_viewing_key s random k key content ≡ ok sealed)
          × (decrypt_with_viewing_key s key sealed ≡ ok content)
    unfolding encrypt_with_viewing_key decrypt_with_viewing_key
    encrypt_with_viewing_key-opens k key content l b =
        let iv = random k 12 in
        let body = gcm-Sealed s.crypto laws key iv content l (rand.drawn_length k 12) b in
        (
          record {
            iv = bytes_to_hex iv;
            ciphertext = bytes_to_hex body.parts.0;
            auth_tag = bytes_to_hex body.parts.1;
          },
          bind_ok _ (ap ciphered body.seals) refl,
          rw
              (
                hex_to_bytes-bytes_to_hex iv (rand.drawn_bytes k 12),
                hex_to_bytes-bytes_to_hex body.parts.0 body.text_bytes,
                hex_to_bytes-bytes_to_hex body.parts.1 body.tag_bytes,
              )
              (ap ciphered body.opens),
        )

    store_metadata-keeps :
        (client : Bool) (sealed : SealedMetadata) (path : Text)
        → s.ipfs_add (s.stringify_sealed sealed) ≡ some path
        → (hash : Text) × (store_metadata s client sealed
            ≡ ok (hash, (if client then s.stringify_sealed sealed ∷ [] else [])))
    unfolding store_metadata
    store_metadata-keeps true sealed path e = (cid_to_bytes32 s path, bind_ok _ (ap called e) refl)
    store_metadata-keeps false sealed path e =
        (s.hashing.keccak256 (s.hashing.to_utf8_bytes (s.stringify_sealed sealed)), refl)

    module _ (accepts : AcceptsDraws s.crypto random) where
      -- createEscrow returns a result, for a threshold between 2 and the number of holders, which is
      -- at most 255: its commitment is the hash of the viewing key, each holder decrypts its
      -- encrypted share to the share of the key at its place, and the sealed metadata, which the key
      -- opens, is added to IPFS if and only if there is a client. IPFS and the contract answer, the
      -- libraries obey their laws, and their draws are bytes and accepted as private keys.
      pub create_escrow-Created :
          (k : ℕ) (params : CreateEscrowParams M) (ms : List Member)
          → params.holders ≡ map (λ (m : Member). m.holder) ms
          → All (IsMember s) ms
          → 2 ≤ params.threshold
          → params.threshold ≤ length params.holders
          → length params.holders ≤ 255
          → ((t : Text) → (path : Text) × (s.ipfs_add t ≡ some path))
          → ((tx : Transaction) → (id : Option ℕ) × (s.chain.answer tx ≡ some id))
          → (result : EscrowResult) × (effects : Effects) × (create_escrow s random k params
              ≡ ok (result, effects))
            × Created random k params ms result effects
      unfolding create_escrow compute_commitment
      create_escrow-Created k params ms names members two enough most ipfs answers =
          let key = random k 32 in
          let n = length params.holders in
          let content = s.crypto.text_encode (s.stringify params.metadata) in
          let meta =
            encrypt_with_viewing_key-opens (k + 1) key content (rand.drawn_length k 32)
              (laws.encoded_bytes (s.stringify params.metadata)) in
          let hashed = store_metadata-keeps params.ipfs_client meta.0 (ipfs _).0 (ipfs _).1 in
          let draws : ℕ → ℕ → List ℕ = λ j n. random (k + 2 + j) n in
          let dealt =
            split-combine draws key n params.threshold (λ j m. rand.drawn_bytes (k + 2 + j) m)
              (rand.drawn_bytes k 32) two enough most (omega (arith, rand.drawn_length k 32)) in
          let held =
            encrypt_shares-Received s laws random rand accepts (k + 2 + length key) ms dealt.0
              (omega
                (arith, dealt.1.1.0, ap length names, length-map (λ (m : Member). m.holder) ms))
              members
              (All-IsByteShare draws params.threshold key n most dealt.0
                (split-IsDealt construct draws params.threshold key n dealt.0 dealt.1.0)) in
          let tx =
            create_escrow_call params.dispute_id (s.hashing.keccak256 key) hashed.0 params.threshold
              n (map (λ (h : HolderInfo). h.address) params.holders)
              (map (λ (h : HolderInfo). h.holder_type) params.holders) in
          let mined = send-answers s.chain tx (answers tx).0 (answers tx).1 in
          (
            record {
              escrow_id = id_or_zero mined.0;
              viewing_key_commitment = s.hashing.keccak256 key;
              encrypted_data_hash = hashed.0;
              encrypted_shares = held.0;
              viewing_key = bytes_to_hex key;
            },
            record {
              stored = if params.ipfs_client then s.stringify_sealed meta.0 ∷ [] else [];
              sent = sent_by s.chain tx;
            },
            bind_ok _ meta.1 (
                bind_ok _ hashed.1 (
                  bind_ok _ (ap shared dealt.1.0) (
                    bind_ok _
                      (ap (λ h. encrypt_shares s random (k + 2 + length key) h dealt.0) names
                        ∙ held.1)
                      (bind_ok _ mined.1 refl)))),
            record {
              shares = dealt.0;
              dealt = dealt.1.0;
              held = held.2;
              committed = refl;
              sealed = meta.0;
              opens = meta.2;
              announced = refl;
              kept = refl;
            },
          )
