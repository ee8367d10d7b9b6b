-- ===== src/Viewing/Reveal.antt =====
-- reconstructAndDecrypt of sdk/viewing-keys.ts: enough holders of an escrow reveal its metadata.
use mathlib.Core.List.{Memᴰ}
use ilr_module.Prelude.{
  ℕ, ◌+◌, ◌≤◌, ◌≡◌, refl, sym, subst, ap, ◌∙◌, List, [], ◌∷◌, map, Bool, true, if◌then◌else◌,
  Option, some, All, length,
}
use ilr_module.Prelude.Text.{Text}
use ilr_module.Hex.{bytes_to_hex}
use ilr_module.Shamir.Scheme.{Share}
use ilr_module.Shamir.RoundTrip.{DistinctIndices, combine-split}
use ilr_module.Ecies.Crypto.{Random, IsRandom, Laws}
use ilr_module.Ecies.Multi.{AcceptsDraws}
use ilr_module.Viewing.Services.{
  Result, ok, err, called, shared, SealedMetadata, Transaction, Services, ServiceLaws, Effects,
}
use ilr_module.Viewing.Escrow.{
  CreateEscrowParams, EncryptedShare, EscrowResult, RevealData, ReceivedShare, create_escrow,
  decrypt_share, id_or_zero, reconstruct_and_decrypt,
}
use ilr_module.Viewing.Holders.{bind_ok, Member, IsMember, Received, received}
use ilr_module.Viewing.Creation.{Created, create_escrow-Created}

-- The holders with what createEscrow encrypted to them.
abbrev pub zip : List Member → List EncryptedShare → List (Member × EncryptedShare)
zip (m ∷ ms) (e ∷ es) = (m, e) ∷ zip ms es
zip [] es = []
zip (m ∷ ms) [] = []

unfoldable pub share_of : Result ReceivedShare → Share
share_of (ok r) = record { index = id_or_zero r.index; payload = r.payload }
share_of (err e) = record { index = 0; payload = [] }

received_inj : (a b : Share) → ok (received a) ≡ ok (received b) → a ≡ b
unfolding share_of
received_inj a b e = ap share_of e

ok_inj {ℓ} : {A : Type ℓ} (a b : A) → ok a ≡ ok b → a ≡ b
ok_inj a b e = cc

some_inj {ℓ} : {A : Type ℓ} (a b : A) → some a ≡ some b → a ≡ b
some_inj a b e = cc

-- The only text that is stored with a client.
stored_text :
    (client : Bool) (stored : List Text) (text kept : Text)
    → client ≡ true
    → stored ≡ (if client then kept ∷ [] else [])
    → Memᴰ text stored
    → text ≡ kept
stored_text client stored text kept e k m = only (subst (Memᴰ text) (rw e at k) m)
  where
    only : Memᴰ text (kept ∷ []) → text ≡ kept
    only (Memᴰ.head q) = q
    only (Memᴰ.tail q) = elim q [ ]

-- The metadata that was given, and the commitment to the key.
abbrev pub revealed : {M : Type 0} → CreateEscrowParams M → EscrowResult → RevealData M
revealed params result = record {
  metadata = params.metadata;
  reconstructed_key_hash = result.viewing_key_commitment;
}

module _ {M : Type 0} (s : Services M) where
  -- One of the holders decrypted its encrypted share to this share.
  abbrev pub IsOpened : List Member → List EncryptedShare → Share → Type 0
  IsOpened ms es share =
      (m : Member) × (e : EncryptedShare) × Memᴰ (m, e) (zip ms es)
      × (decrypt_share s (bytes_to_hex m.private_key) e.1 ≡ ok (received share))

  opened_share :
      (ms : List Member) (es : List EncryptedShare) (shares : List Share)
      (p : Member × EncryptedShare)
      → Received s ms es shares
      → Memᴰ p (zip ms es)
      → (share : Share) × Memᴰ share shares
        × (decrypt_share s (bytes_to_hex p.0.private_key) p.1.1 ≡ ok (received share))
  opened_share (m ∷ ms) (e ∷ es) (share ∷ shares) p h (Memᴰ.head q) = (
    share,
    Memᴰ.head refl,
    ap (λ (u : Member × EncryptedShare). decrypt_share s (bytes_to_hex u.0.private_key) u.1.1) q
        ∙ h.0.1,
  )
  opened_share (m ∷ ms) (e ∷ es) (share ∷ shares) p h (Memᴰ.tail q) =
      let rest = opened_share ms es shares p h.1 q in (rest.0, Memᴰ.tail rest.1, rest.2)
  opened_share (m ∷ ms) (e ∷ es) [] p h q = elim h [ ]
  opened_share [] es shares p h q = elim q [ ]
  opened_share (m ∷ ms) [] shares p h q = elim q [ ]

  IsOpened-Memᴰ :
      (ms : List Member) (es : List EncryptedShare) (shares : List Share)
      → Received s ms es shares
      → (share : Share) → IsOpened ms es share
      → Memᴰ share shares
  IsOpened-Memᴰ ms es shares h share o =
      let found = opened_share ms es shares (o.0, o.1) h o.2 in
      subst (λ (u : Share). Memᴰ u shares) (received_inj found.0 share (sym found.2 ∙ o.3)) found.1

  all_opened :
      (ms : List Member) (es : List EncryptedShare) (shares chosen : List Share)
      → Received s ms es shares
      → All (IsOpened ms es) chosen
      → All (λ u. Memᴰ u shares) chosen
  all_opened ms es shares [] h o = tt
  all_opened ms es shares (share ∷ chosen) h o =
      (IsOpened-Memᴰ ms es shares h share o.0, all_opened ms es shares chosen h o.1)

  module _ (laws : Laws s.crypto) (json : ServiceLaws s) (random : Random)
      (rand : IsRandom random) where
    Created-reveals :
        (k : ℕ) (params : CreateEscrowParams M) (ms : List Member) (result : EscrowResult)
        (effects : Effects) (chosen : List Share)
        → (c : Created s random k params ms result effects)
        → All (IsOpened ms result.encrypted_shares) chosen
        → DistinctIndices chosen
        → params.threshold ≤ length chosen
        → reconstruct_and_decrypt s chosen c.sealed ≡ ok (revealed params result)
    unfolding reconstruct_and_decrypt
    Created-reveals k params ms result effects chosen c opened distinct enough =
        let key =
          combine-split (λ j n. random (k + 2 + j) n) (random k 32) (length params.holders)
            params.threshold c.shares chosen (λ j n. rand.drawn_bytes (k + 2 + j) n)
            (rand.drawn_bytes k 32) c.dealt
            (all_opened ms result.encrypted_shares c.shares chosen c.held opened) distinct enough in
        rw c.committed (
          bind_ok _ (ap shared key) (
            bind_ok _ c.opens (
              bind_ok _
                (ap (λ t. called (s.parse t)) (json.decoded params.metadata)
                  ∙ ap called (json.parsed params.metadata))
                refl)))

    module _ (accepts : AcceptsDraws s.crypto random) where
      -- Let createEscrow with an IPFS client return a result. Then reconstructAndDecrypt returns the
      -- metadata, and a key hash equal to the commitment of the result, from any shares with
      -- different indices, at least as many as the threshold, each of which one of the holders
      -- decrypted from its encrypted share in the result, and from the sealed metadata that is read
      -- back from any text that createEscrow added to IPFS. IPFS and the contract answer, the
      -- libraries, JSON and UTF-8 obey their laws, and the draws are bytes and accepted as private
      -- keys.
      pub reconstruct_and_decrypt-create_escrow :
          (k : ℕ) (params : CreateEscrowParams M) (ms : List Member) (result : EscrowResult)
          (effects : Effects) (chosen : List Share) (text : Text) (sealed : SealedMetadata)
          → params.holders ≡ map (λ (m : Member). m.holder) ms
          → All (IsMember s) ms
          → 2 ≤ params.threshold
          → params.threshold ≤ length params.holders
          → length params.holders ≤ 255
          → ((t : Text) → (path : Text) × (s.ipfs_add t ≡ some path))
          → ((tx : Transaction) → (id : Option ℕ) × (s.chain.answer tx ≡ some id))
          → params.ipfs_client ≡ true
          → create_escrow s random k params ≡ ok (result, effects)
          → Memᴰ text effects.stored
          → s.parse_sealed text ≡ some sealed
          → All (IsOpened ms result.encrypted_shares) chosen
          → DistinctIndices chosen
          → params.threshold ≤ length chosen
          → reconstruct_and_decrypt s chosen sealed ≡ ok (revealed params result)
      reconstruct_and_decrypt-create_escrow k params ms result effects chosen text sealed names
            members two enough most ipfs answers client returned stored read opened distinct many =
          let made =
            create_escrow-Created s laws random rand accepts k params ms names members two enough
              most ipfs answers in
          let c =
            subst (λ (u : EscrowResult × Effects). Created s random k params ms u.0 u.1)
              (ok_inj (made.0, made.1) (result, effects) (sym made.2 ∙ returned)) made.3 in
          subst (λ e. reconstruct_and_decrypt s chosen e ≡ ok (revealed params result))
            (some_inj c.sealed sealed (
              sym (json.parsed_sealed c.sealed)
              ∙ ap s.parse_sealed
                  (sym (stored_text params.ipfs_client effects.stored text _ client c.kept stored))
              ∙ read))
            (Created-reveals k params ms result effects chosen c opened distinct many)
