-- ===== src/Viewing/Services.antt =====
-- What sdk/viewing-keys.ts calls and does not contain: JSON and TextDecoder, the IPFS client and the
-- escrow contract; the records of its interfaces; and the errors of the parts that it calls.
use ilr_module.Prelude.{ℕ, ◌≡◌, ◌≢◌, ◌∷◌, Bool, List, [], ◌∷◌, Option, none, some, if◌then◌else◌}
use ilr_module.Prelude.Int.{ℤ}
use ilr_module.Prelude.Text.{Text}
use ilr_module.Shamir.Result.{ShamirError}
use ilr_module.Shamir.Result as Shamir
use ilr_module.Shamir.Commitment.{Hashing}
use ilr_module.Ecies.Crypto.{Crypto}
use ilr_module.Ecies.Cipher.{EciesError, EciesCiphertext}
use ilr_module.Ecies.Cipher as Ecies

pub data ViewingError : Type 0 where
  sharing : ShamirError → ViewingError
  encryption : EciesError → ViewingError
  -- JSON, IPFS, ethers, the contract, or a share that is not there.
  other_error : ViewingError

pub data Result {ℓ} (A : Type ℓ) : Type ℓ where
  ok : A → Result A
  err : ViewingError → Result A

infixl 5 ◌>>=◌
abbrev pub ◌>>=◌ {ℓ κ} : {A : Type ℓ} {B : Type κ} → Result A → (A → Result B) → Result B
ok a >>= f = f a
err e >>= f = err e

abbrev pub shared {ℓ} : {A : Type ℓ} → Shamir.Result A → Result A
shared (Shamir.ok a) = ok a
shared (Shamir.err e) = err (sharing e)

abbrev pub ciphered {ℓ} : {A : Type ℓ} → Ecies.Result A → Result A
ciphered (Ecies.ok a) = ok a
ciphered (Ecies.err e) = err (encryption e)

abbrev pub called {ℓ} : {A : Type ℓ} → Option A → Result A
called none = err other_error
called (some a) = ok a

pub data HolderType : Type 0 where
  user dao auditor legal_counsel regulator : HolderType

pub record HolderInfo : Type 0 where
  pub address : Text
  pub public_key : Text
  pub holder_type : HolderType

-- `{ iv, ciphertext, authTag }`
pub record SealedMetadata : Type 0 where
  pub iv : Text
  pub ciphertext : Text
  pub auth_tag : Text

-- A call of the escrow contract that is sent as a transaction.
pub data Transaction : Type 0 where
  create_escrow_call :
      (dispute_id : ℕ) (viewing_key_commitment encrypted_data_hash : Text)
      (threshold total_shares : ℕ) (holders : List Text) (holder_types : List HolderType)
      → Transaction
  submit_share_commitment_call : (escrow_id : ℕ) (commitment : Text) → Transaction
  request_reveal_call :
      (escrow_id : ℕ) (reason legal_doc_hash : Text) (voting_period : ℕ) → Transaction
  vote_on_reveal_call : (request_id : ℕ) (approve : Bool) → Transaction
  submit_share_for_reveal_call :
      (request_id : ℕ) (share_index : ℤ) (encrypted_share : List ℕ) → Transaction
  finalize_reveal_call : (request_id : ℕ) (reconstructed_key_hash : Text) → Transaction

-- `escrowContract`: whether its runner can send, what it makes of a text that is the argument of a
-- parameter of type `bytes`, if it takes the text, and what a transaction gives once it is mined: an
-- error, or the id in the event that the operation looks for, if that event is there.
pub record Chain : Type 0 where
  pub can_send : Bool
  pub bytes_argument : Text → Option (List ℕ)
  pub answer : Transaction → Option (Option ℕ)

pub record Services (M : Type 0) : Type 0 where
  pub crypto : Crypto
  pub hashing : Hashing
  pub stringify : M → Text
  pub parse : Text → Option M
  pub text_decode : List ℕ → Text
  pub stringify_sealed : SealedMetadata → Text
  pub parse_sealed : Text → Option SealedMetadata
  pub stringify_ciphertext : EciesCiphertext → Text
  -- `ipfsClient.add(…)`, the path of what is added.
  pub ipfs_add : Text → Option Text
  pub chain : Chain

-- JSON and UTF-8 give back what was written.
pub record ServiceLaws {M : Type 0} (s : Services M) : Type 0 where
  pub parsed : (m : M) → s.parse (s.stringify m) ≡ some m
  pub decoded : (m : M) → s.text_decode (s.crypto.text_encode (s.stringify m)) ≡ s.stringify m
  pub parsed_sealed : (e : SealedMetadata) → s.parse_sealed (s.stringify_sealed e) ≡ some e

-- ethers takes as `bytes` only a text that begins with `0x`, and the JSON of an object begins with a
-- brace (code 123, and 48 is the code of 0).
pub record ArgumentLaws {M : Type 0} (s : Services M) : Type 0 where
  pub object_text : (e : EciesCiphertext) → (rest : Text) × (s.stringify_ciphertext e ≡ 123 ∷ rest)
  pub refused : (code : ℕ) (rest : Text) → code ≢ 48 → s.chain.bytes_argument (code ∷ rest) ≡ none

-- The effects of an operation outside the program: what it adds to IPFS, and what it sends.
pub record Effects : Type 0 where
  pub stored : List Text
  pub sent : List Transaction

-- `if (this.escrowContract.runner?.sendTransaction) …`
unfoldable pub send : Chain → Transaction → Result (Option ℕ × List Transaction)
send chain tx =
    if chain.can_send then (called (chain.answer tx) >>= λ id. ok (id, tx ∷ [])) else ok (none, [])

-- The same for a call with a text for `bytes`, which is read before anything is sent.
unfoldable pub send_bytes :
    Chain → Text → (List ℕ → Transaction) → Result (Option ℕ × List Transaction)
unfolding send
send_bytes chain text tx =
    if chain.can_send
    then (called (chain.bytes_argument text) >>= λ argument. send chain (tx argument))
    else ok (none, [])
