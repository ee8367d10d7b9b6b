-- ===== src/Viewing/Tests.antt =====
-- Runs of an escrow with small stand-ins for the services.
use mathlib.Core.List.{Memᴰ}
use ilr_module.Prelude.{
  ℕ, zero, suc, ◌%◌, ◌≡◌, refl, ap, List, [], ◌∷◌, ◌++◌, map, Bool, true, false, ◌==◌,
  if◌then◌else◌, Option, none, some, All, length, get_or, take, drop, take-length-append,
  drop-length-append, arith,
}
use ilr_module.Prelude.Text.{Text, codes}
use ilr_module.Hex.{bytes_to_hex, hex_to_bytes}
use ilr_module.Shamir.Gf256.{construct, gf_multiply, evaluate_polynomial}
use ilr_module.Shamir.Scheme.{Share, split}
use ilr_module.Shamir.RoundTrip.{DistinctIndices}
use ilr_module.Ecies.Cipher.{aes_gcm_encrypt, encrypt, decrypt}
use ilr_module.Ecies.StandIn.{libraries, libraries-Laws, random, random-IsRandom, total}
use ilr_module.Ecies.Multi.{AcceptsDraws}
use ilr_module.Viewing.Services.{
  Result, ok, err, SealedMetadata, Services, ServiceLaws, ArgumentLaws, Effects, other_error, send,
  dao,
}
use ilr_module.Viewing.Escrow.{
  CreateEscrowParams, EncryptedShare, EscrowResult, create_escrow, decrypt_share, submit_share,
  reconstruct_and_decrypt,
}
use ilr_module.Viewing.Holders.{Member, IsMember, submit_share-unsent}
use ilr_module.Viewing.Creation.{Created, create_escrow-Created}
use ilr_module.Viewing.Reveal.{IsOpened, revealed, share_of, reconstruct_and_decrypt-create_escrow}

-- Texts one after the other, each behind its length, stand for JSON.
abbrev packed : List Text → Text
packed [] = []
packed (t ∷ ts) = length t ∷ (t ++ packed ts)

abbrev unpacked : ℕ → Text → List Text
unpacked zero t = []
unpacked (suc n) [] = []
unpacked (suc n) (l ∷ t) = take l t ∷ unpacked n (drop l t)

unpacked-packed : (ts : List Text) → unpacked (length ts) (packed ts) ≡ ts
unpacked-packed [] = refl
unpacked-packed (t ∷ ts) =
    rw (take-length-append t (packed ts), drop-length-append t (packed ts))
      (ap (λ r. t ∷ r) (unpacked-packed ts))

abbrev sealed_of : List Text → Option SealedMetadata
sealed_of (a ∷ b ∷ c ∷ []) = some (record { iv = a; ciphertext = b; auth_tag = c })
sealed_of _ = none

abbrev version_text : Option ℕ → Text
version_text none = []
version_text (some v) = v ∷ []

abbrev bool_of : Text → Option Bool
bool_of [] = none
bool_of (b ∷ t) = some (b == 1)

-- Bytes stand for themselves behind `0x`.
abbrev bytes_of_text : Text → Option (List ℕ)
bytes_of_text [] = none
bytes_of_text (code ∷ rest) = if code == 48 then some (drop 1 rest) else none

-- The metadata is a Boolean, and the hash of some bytes is their sum.
abbrev services : Services Bool
services = record {
  crypto = libraries true;
  hashing = record {
    solidity_packed = λ i bs. some (i ∷ bs);
    keccak256 = λ bs. total bs ∷ [];
    to_utf8_bytes = λ t. t;
    to_lower_case = λ t. t;
  };
  stringify = λ b. (if b then 1 else 0) ∷ [];
  parse = bool_of;
  text_decode = λ t. t;
  stringify_sealed = λ e. packed (e.iv ∷ e.ciphertext ∷ e.auth_tag ∷ []);
  parse_sealed = λ t. sealed_of (unpacked 3 t);
  stringify_ciphertext = λ e.
      123
      ∷ packed
          (version_text e.version ∷ e.ephemeral_public_key ∷ e.iv ∷ e.ciphertext ∷ e.auth_tag ∷ []);
  ipfs_add = λ t. some (total t ∷ []);
  chain = record { can_send = true; bytes_argument = bytes_of_text; answer = λ tx. some (some 7) };
}

parsed_bool : (b : Bool) → services.parse (services.stringify b) ≡ some b
parsed_bool true = refl
parsed_bool false = refl

decoded_bool :
    (b : Bool)
    → services.text_decode (services.crypto.text_encode (services.stringify b))
      ≡ services.stringify b
decoded_bool true = refl
decoded_bool false = refl

services-ServiceLaws : ServiceLaws services
services-ServiceLaws = record {
  parsed = parsed_bool;
  decoded = decoded_bool;
  parsed_sealed = λ e. ap sealed_of (unpacked-packed (e.iv ∷ e.ciphertext ∷ e.auth_tag ∷ []));
}

services-ArgumentLaws : ArgumentLaws services
services-ArgumentLaws = record {
  object_text = λ e. (_, refl);
  refused = λ code rest k. ground (arith, k);
}

accepted : AcceptsDraws (libraries true) random
accepted j = (4 ∷ total (random j 32) % 256 ∷ [], refl)

abbrev member : ℕ → Member
member n = record {
  holder = record {
    address = codes "holder";
    public_key = bytes_to_hex (4 ∷ n % 256 ∷ []);
    holder_type = dao;
  };
  private_key = n ∷ [];
  public_key = 4 ∷ n % 256 ∷ [];
}

abbrev members : List Member
members = member 11 ∷ member 12 ∷ member 13 ∷ []

members-IsMember : All (IsMember services) members
members-IsMember = (
  record { pair = record { private_bytes = omega arith; derived = refl }; printed = refl },
  (
    record { pair = record { private_bytes = omega arith; derived = refl }; printed = refl },
    (record { pair = record { private_bytes = omega arith; derived = refl }; printed = refl }, tt),
  ),
)

abbrev params : CreateEscrowParams Bool
params = record {
  dispute_id = 3;
  metadata = true;
  holders = map (λ (m : Member). m.holder) members;
  threshold = 2;
  ipfs_client = true;
}

create_escrow-Created_example :
    (result : EscrowResult) × (effects : Effects) × (create_escrow services random 0 params
      ≡ ok (result, effects))
    × Created services random 0 params members result effects
create_escrow-Created_example =
    create_escrow-Created services (libraries-Laws true) random random-IsRandom accepted 0 params
      members refl members-IsMember (omega arith) (omega arith) (omega arith)
      (λ t. (total t ∷ [], refl)) (λ tx. (some 7, refl))

a_share : Share
a_share = record { index = 2; payload = 17 ∷ 200 ∷ [] }

submit_share-unsent_example :
    submit_share services random 0 9 a_share (bytes_to_hex (4 ∷ 5 ∷ [])) ≡ err other_error
unfolding a_share
submit_share-unsent_example =
    submit_share-unsent services (libraries-Laws true) random random-IsRandom accepted 0 9 a_share
      (5 ∷ []) (4 ∷ 5 ∷ []) services-ArgumentLaws
      (record { private_bytes = omega arith; derived = refl })
      (record { index-lt = omega arith; payload_bytes = omega arith })

abbrev no_outcome : EscrowResult × Effects
no_outcome = (
  record {
    escrow_id = 0;
    viewing_key_commitment = [];
    encrypted_data_hash = [];
    encrypted_shares = [];
    viewing_key = [];
  },
  record { stored = []; sent = [] },
)

value_or : EscrowResult × Effects → Result (EscrowResult × Effects) → EscrowResult × Effects
value_or d (ok a) = a
value_or d (err e) = d

outcome : EscrowResult × Effects
unfolding value_or create_escrow aes_gcm_encrypt split encrypt send decrypt hex_to_bytes
    bytes_to_hex evaluate_polynomial gf_multiply construct
outcome = value_or no_outcome (create_escrow services random 0 params)

returned : create_escrow services random 0 params ≡ ok outcome
unfolding outcome
returned = refl

abbrev no_share : EncryptedShare
no_share = (
  [],
  record { version = none; ephemeral_public_key = []; iv = []; ciphertext = []; auth_tag = [] },
)

-- The encrypted share at a place, and what the member there makes of it.
sealed_share : ℕ → EncryptedShare
unfolding outcome
sealed_share i = get_or outcome.0.encrypted_shares i no_share

held_share : ℕ → Share
unfolding sealed_share share_of decrypt_share decrypt hex_to_bytes
held_share i = share_of (
    decrypt_share services (bytes_to_hex (get_or members i (member 0)).private_key)
      (sealed_share i).1)

abbrev chosen : List Share
chosen = held_share 2 ∷ held_share 0 ∷ []

chosen-IsOpened : All (IsOpened services members outcome.0.encrypted_shares) chosen
unfolding held_share
chosen-IsOpened = (
  (member 13, sealed_share 2, Memᴰ.tail (Memᴰ.tail (Memᴰ.head refl)), refl),
  ((member 11, sealed_share 0, Memᴰ.head refl, refl), tt),
)

chosen-DistinctIndices : DistinctIndices chosen
unfolding held_share
chosen-DistinctIndices = (((λ e. omega (arith, e)), tt), (tt, tt))

stored_text : Text
unfolding outcome
stored_text = get_or outcome.1.stored 0 []

abbrev no_sealed : SealedMetadata
no_sealed = record { iv = []; ciphertext = []; auth_tag = [] }

abbrev option_or {ℓ} : {A : Type ℓ} → A → Option A → A
option_or a none = a
option_or a (some b) = b

stored_metadata : SealedMetadata
unfolding stored_text
stored_metadata = option_or no_sealed (services.parse_sealed stored_text)

stored_parses : services.parse_sealed stored_text ≡ some stored_metadata
unfolding stored_metadata
stored_parses = refl

stored-Memᴰ : Memᴰ stored_text outcome.1.stored
unfolding stored_text
stored-Memᴰ = Memᴰ.head refl

reconstruct_and_decrypt-create_escrow_example :
    reconstruct_and_decrypt services chosen stored_metadata ≡ ok (revealed params outcome.0)
reconstruct_and_decrypt-create_escrow_example =
    reconstruct_and_decrypt-create_escrow services (libraries-Laws true) services-ServiceLaws random
      random-IsRandom accepted 0 params members outcome.0 outcome.1 chosen stored_text
      stored_metadata refl members-IsMember (omega arith) (omega arith) (omega arith)
      (λ t. (total t ∷ [], refl)) (λ tx. (some 7, refl)) refl returned stored-Memᴰ stored_parses
      chosen-IsOpened chosen-DistinctIndices (omega arith)
