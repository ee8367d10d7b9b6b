-- ===== src/Hex.antt =====
-- hexToBytes and bytesToHex, which sdk/shamir.ts, sdk/ecies.ts and sdk/viewing-keys.ts each declare
-- with the same text. A string is the list of its character codes.
pub mod RoundTrip
use ilr_module.Prelude.{
  ℕ, zero, suc, ◌+◌, ◌-◌, ◌*◌, ◌/◌, ◌%◌, List, [], ◌∷◌, ◌++◌, map, Bool, true, false, ◌&&◌, ◌||◌,
  ltb, leb, ◌==◌, if◌then◌else◌, Option, none, some, length, replicate,
}
use ilr_module.Prelude.Text.{Text}

-- A digit of the number systems up to 16 in what `toString(16)` prints.
unfoldable pub hex_char : ℕ → ℕ
hex_char d = if ltb d 10 then b'0' + d else b'a' + (d - 10)

-- `b.toString(16)` of a number below 256.
unfoldable pub to_hex : ℕ → Text
unfolding hex_char
to_hex b = if ltb b 16 then hex_char b ∷ [] else hex_char (b / 16) ∷ hex_char (b % 16) ∷ []

unfoldable pub pad_start : ℕ → ℕ → Text → Text
pad_start width c t = replicate (width - length t) c ++ t

unfoldable pub join : List Text → Text
join [] = []
join (t ∷ ts) = t ++ join ts

unfoldable pub bytes_to_hex : List ℕ → Text
unfolding join pad_start to_hex
bytes_to_hex bytes = b'0' ∷ b'x' ∷ join (map (λ b. pad_start 2 b'0' (to_hex b)) bytes)

unfoldable pub digit_value : ℕ → Option ℕ
digit_value c =
    if leb b'0' c && leb c b'9'
    then some (c - b'0')
    else if leb b'a' c && leb c b'f'
    then some (c - b'a' + 10)
    else if leb b'A' c && leb c b'F'
    then some (c - b'A' + 10)
    else none

-- The white space and the line ends that parseInt skips, by their codes.
unfoldable pub is_white : ℕ → Bool
is_white c =
    (leb 9 c && leb c 13)
    || (c == 32)
    || (c == 160)
    || (c == 5760)
    || (leb 8192 c && leb c 8202)
    || (c == 8232)
    || (c == 8233)
    || (c == 8239)
    || (c == 8287)
    || (c == 12288)
    || (c == 65279)

unfoldable pub trim_start : Text → Text
unfolding is_white
trim_start [] = []
trim_start (c ∷ t) = let rest = trim_start t in if is_white c then rest else c ∷ t

-- The longest prefix of digits, after those that make `value`. `none` is NaN: no digit at all.
unfoldable pub add_digit : Option ℕ → ℕ → ℕ
add_digit none d = d
add_digit (some v) d = v * 16 + d

unfoldable pub digits_prefix : Option ℕ → Text → Option ℕ
unfolding add_digit digit_value
digits_prefix value [] = value
digits_prefix value (c ∷ t) = elim (digit_value c) [
  | none ↦ value
  | some d ↦ digits_prefix (some (add_digit value d)) t
]

-- The optional `0x` of radix 16.
unfoldable pub strip_prefix : Text → Text
strip_prefix [] = []
strip_prefix (a ∷ []) = a ∷ []
strip_prefix (a ∷ b ∷ t) = if (a == b'0') && ((b == b'x') || (b == b'X')) then t else a ∷ b ∷ t

-- The store of a number into a Uint8Array: NaN is 0, and -v wraps around.
unfoldable pub store_byte : Bool → Option ℕ → ℕ
store_byte negative none = 0
store_byte true (some v) = (256 - v % 256) % 256
store_byte false (some v) = v % 256

unfoldable pub signed_byte : Text → ℕ
unfolding store_byte digits_prefix strip_prefix
signed_byte [] = 0
signed_byte (c ∷ t) =
    if c == b'-'
    then store_byte true (digits_prefix none (strip_prefix t))
    else if c == b'+'
    then store_byte false (digits_prefix none (strip_prefix t))
    else store_byte false (digits_prefix none (strip_prefix (c ∷ t)))

-- `bytes[i] = parseInt(text, 16)`
unfoldable pub parse_byte : Text → ℕ
unfolding signed_byte trim_start
parse_byte t = signed_byte (trim_start t)

-- `new Uint8Array(cleanHex.length / 2)`, filled: the last of an odd number of characters is left.
unfoldable pub hex_pairs : Text → List ℕ
unfolding parse_byte
hex_pairs [] = []
hex_pairs (a ∷ []) = []
hex_pairs (a ∷ b ∷ t) = parse_byte (a ∷ b ∷ []) ∷ hex_pairs t

-- `hex.startsWith('0x') ? hex.slice(2) : hex`
unfoldable pub clean_hex : Text → Text
clean_hex [] = []
clean_hex (a ∷ []) = a ∷ []
clean_hex (a ∷ b ∷ t) = if (a == b'0') && (b == b'x') then t else a ∷ b ∷ t

unfoldable pub hex_to_bytes : Text → List ℕ
unfolding hex_pairs clean_hex
hex_to_bytes hex = hex_pairs (clean_hex hex)
