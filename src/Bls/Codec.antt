-- ===== src/Bls/Codec.antt =====
-- bytesToBigInt and bigIntToBytes are inverse to each other.
use ilr_module.Prelude.{
  ℕ, zero, suc, ◌+◌, ◌*◌, ◌/◌, ◌%◌, ◌^◌, ◌<◌, ◌≡◌, refl, ap, ap₂, ◌∙◌, List, [], ◌∷◌, All, length,
  arith,
}
use native.Mathlib.Nat.{pow-suc, pow-zero}
use ilr_module.Bls.{bytes_loop, bytes_to_big_int, digits_loop, big_int_to_bytes}

abbrev pub IsByte : ℕ → Type 0
IsByte n = n < 256

bytes_loop-digits_loop :
    (n v : ℕ) (acc : List ℕ) → v < 256 ^ n → bytes_loop 0 (digits_loop n v acc) ≡ bytes_loop v acc
unfolding digits_loop bytes_loop
bytes_loop-digits_loop zero v acc h = ap (λ t. bytes_loop t acc) (omega (arith, pow-zero 256))
bytes_loop-digits_loop (suc n) v acc h =
    bytes_loop-digits_loop n (v / 256) (v % 256 ∷ acc) (omega (arith, pow-suc 256 n))
    ∙ ap (λ t. bytes_loop t acc) (omega arith)

-- A number below 256 ^ n that is written into n bytes is read back.
pub bytes_to_big_int-big_int_to_bytes :
    (n v : ℕ) → v < 256 ^ n → bytes_to_big_int (big_int_to_bytes v n) ≡ v
unfolding bytes_to_big_int big_int_to_bytes bytes_loop
bytes_to_big_int-big_int_to_bytes n v h = bytes_loop-digits_loop n v [] h

shift : ℕ → ℕ → ℕ
shift zero v = v
shift (suc n) v = shift n (v / 256)

digits_loop-suc :
    (n v : ℕ) (acc : List ℕ) → digits_loop (suc n) v acc ≡ shift n v % 256 ∷ digits_loop n v acc
unfolding digits_loop shift
digits_loop-suc zero v acc = refl
digits_loop-suc (suc n) v acc = digits_loop-suc n (v / 256) (v % 256 ∷ acc)

shift-suc : (n v : ℕ) → shift (suc n) v ≡ shift n v / 256
unfolding shift
shift-suc zero v = refl
shift-suc (suc n) v = shift-suc n (v / 256)

-- All that was read after `r` is shifted out again.
shift-bytes_loop : (bs : List ℕ) (r : ℕ) → All IsByte bs → shift (length bs) (bytes_loop r bs) ≡ r
unfolding shift bytes_loop
shift-bytes_loop [] r h = refl
shift-bytes_loop (b ∷ bs) r h =
    shift-suc (length bs) (bytes_loop (r * 256 + b) bs)
    ∙ ap (λ t. t / 256) (shift-bytes_loop bs (r * 256 + b) h.1)
    ∙ omega (arith, h.0)

digits_loop-bytes_loop :
    (bs : List ℕ) (r : ℕ) → All IsByte bs → digits_loop (length bs) (bytes_loop r bs) [] ≡ bs
unfolding digits_loop bytes_loop
digits_loop-bytes_loop [] r h = refl
digits_loop-bytes_loop (b ∷ bs) r h =
    digits_loop-suc (length bs) (bytes_loop (r * 256 + b) bs) []
    ∙ ap₂ (λ x xs. x ∷ xs)
        (ap (λ t. t % 256) (shift-bytes_loop bs (r * 256 + b) h.1) ∙ omega (arith, h.0))
        (digits_loop-bytes_loop bs (r * 256 + b) h.1)

-- Bytes that are read as a number are the bytes that it is written into, leading zeros included.
pub big_int_to_bytes-bytes_to_big_int :
    (bs : List ℕ) → All IsByte bs → big_int_to_bytes (bytes_to_big_int bs) (length bs) ≡ bs
unfolding bytes_to_big_int big_int_to_bytes
big_int_to_bytes-bytes_to_big_int bs h = digits_loop-bytes_loop bs 0 h
