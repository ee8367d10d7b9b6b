-- ===== src/Hex/RoundTrip.antt =====
-- Bytes that are printed in hexadecimal are read back.
use ilr_module.Prelude.{
  ℕ, ◌/◌, ◌%◌, ◌<◌, ◌≡◌, refl, ap₂, List, [], ◌∷◌, map, true, ◌==◌, All, ==_iff, every_below,
  every_below-at, arith,
}
use ilr_module.Hex.{
  hex_char, to_hex, pad_start, join, bytes_to_hex, parse_byte, hex_pairs, clean_hex, hex_to_bytes,
}

abbrev pub IsByte : ℕ → Type 0
IsByte n = n < 256

high : ℕ → ℕ
high b = hex_char (b / 16)

low : ℕ → ℕ
low b = hex_char (b % 16)

padded : (b : ℕ) → pad_start 2 b'0' (to_hex b) ≡ high b ∷ low b ∷ []
unfolding pad_start to_hex high low hex_char
padded b = ground arith

-- A run over all bytes.
read_all : every_below 256 (λ b. parse_byte (high b ∷ low b ∷ []) == b) ≡ true
unfolding every_below parse_byte high low hex_char
read_all = refl

parse_byte-high-low : (b : ℕ) → b < 256 → parse_byte (high b ∷ low b ∷ []) ≡ b
parse_byte-high-low b h =
    (==_iff (parse_byte (high b ∷ low b ∷ [])) b).0 (every_below-at 256 _ b read_all h)

hex_pairs-join :
    (bs : List ℕ)
    → All IsByte bs
    → hex_pairs (join (map (λ b. pad_start 2 b'0' (to_hex b)) bs)) ≡ bs
unfolding hex_pairs join
hex_pairs-join [] h = refl
hex_pairs-join (b ∷ bs) h =
    rw (padded b)
      (ap₂ (λ (x : ℕ) (t : List ℕ). x ∷ t) (parse_byte-high-low b h.0) (hex_pairs-join bs h.1))

-- Bytes that bytesToHex prints are what hexToBytes reads.
pub hex_to_bytes-bytes_to_hex : (bs : List ℕ) → All IsByte bs → hex_to_bytes (bytes_to_hex bs) ≡ bs
unfolding hex_to_bytes bytes_to_hex clean_hex
hex_to_bytes-bytes_to_hex bs h = hex_pairs-join bs h
