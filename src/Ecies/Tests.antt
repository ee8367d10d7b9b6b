-- ===== src/Ecies/Tests.antt =====
-- Runs of the encryption with small stand-ins for the libraries.
use ilr_module.Prelude.{◌%◌, ◌≡◌, refl, List, [], ◌∷◌, map, Bool, true, false, All, arith}
use ilr_module.Prelude.Text.{codes}
use ilr_module.Hex.{bytes_to_hex, hex_to_bytes}
use ilr_module.Hex.RoundTrip.{hex_to_bytes-bytes_to_hex}
use ilr_module.Ecies.StandIn.{total, libraries, libraries-Laws, random, random-IsRandom}
use ilr_module.Ecies.Cipher.{
  ok, EciesCiphertext, EciesKeyPair, Plaintext, text, plaintext_bytes, encrypt, decrypt,
  generate_key_pair, encrypt_multi, decrypt_multi,
}
use ilr_module.Ecies.RoundTrip.{IsPair, decrypt-encrypt}
use ilr_module.Ecies.Multi.{Pair, Matched, decrypt_multi-encrypt_multi}

abbrev key_pair : EciesKeyPair
key_pair = record {
  private_key = bytes_to_hex (random 5 32);
  public_key = bytes_to_hex (4 ∷ 192 ∷ []);
}

abbrev message : Plaintext
message = text (codes "viewing key")

hex_run : hex_to_bytes (codes "0x00fFg1-1+2 3z") ≡ 0 ∷ 255 ∷ 0 ∷ 255 ∷ 2 ∷ 3 ∷ []
unfolding hex_to_bytes
hex_run = refl

hex_to_bytes-bytes_to_hex_example :
    hex_to_bytes (bytes_to_hex (0 ∷ 171 ∷ 255 ∷ [])) ≡ 0 ∷ 171 ∷ 255 ∷ []
hex_to_bytes-bytes_to_hex_example = hex_to_bytes-bytes_to_hex (0 ∷ 171 ∷ 255 ∷ []) (omega arith)

key_pair-generated :
    (has_subtle : Bool) → generate_key_pair (libraries has_subtle) random 5 ≡ ok key_pair
unfolding generate_key_pair
key_pair-generated has_subtle = refl

decrypt-encrypt_example :
    (sealed : EciesCiphertext) × (encrypt (libraries true) random 1 key_pair.public_key message
      ≡ ok sealed)
    × (decrypt (libraries true) key_pair.private_key sealed
        ≡ ok (plaintext_bytes (libraries true) message))
decrypt-encrypt_example =
    decrypt-encrypt (libraries true) (libraries-Laws true) random random-IsRandom 5 1 key_pair
      (4 ∷ total (random 1 32) % 256 ∷ []) message tt (key_pair-generated true) refl

abbrev recipients : List Pair
recipients = (1 ∷ [], 4 ∷ 1 ∷ []) ∷ (2 ∷ 255 ∷ [], 4 ∷ 1 ∷ []) ∷ []

recipients-IsPair : All (λ (p : Pair). IsPair (libraries false) p.0 p.1) recipients
recipients-IsPair = (
  record { private_bytes = omega arith; derived = refl },
  (record { private_bytes = omega arith; derived = refl }, tt),
)

decrypt_multi-encrypt_multi_example :
    (shared : EciesCiphertext) × (shares : List EciesCiphertext) × (encrypt_multi
        (libraries false)
        random
        0
        (map (λ (p : Pair). bytes_to_hex p.1) recipients)
        message
      ≡ ok (shared, shares))
    × Matched
        (λ p s.
          decrypt_multi (libraries false) (bytes_to_hex p.0) shared s
          ≡ ok (plaintext_bytes (libraries false) message))
        recipients
        shares
decrypt_multi-encrypt_multi_example =
    decrypt_multi-encrypt_multi (libraries false) (libraries-Laws false) random random-IsRandom
      (λ j. (4 ∷ total (random j 32) % 256 ∷ [], refl)) 0 recipients message tt recipients-IsPair
