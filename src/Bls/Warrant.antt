-- ===== src/Bls/Warrant.antt =====
-- createWarrantMessage of sdk/threshold-bls.ts: which warrants have the same message.
use ilr_module.Prelude.{
  ℕ, zero, suc, ◌+◌, ◌/◌, ◌%◌, ◌^◌, ◌<◌, ◌≡◌, ◌≢◌, refl, sym, ap, ap₂, ◌∙◌, List, [], ◌∷◌, ◌++◌,
  length, take, drop, take-length-append, drop-length-append, length-append, arith,
}
use ilr_module.Prelude.Text.{Text, codes}
use ilr_module.Bls.{big_int_to_bytes, bytes_to_big_int, digits_loop}
use ilr_module.Bls.Codec.{bytes_to_big_int-big_int_to_bytes}

pub record WarrantSigningMessage : Type 0 where
  pub warrant_id : ℕ
  pub target_dispute_id : ℕ
  pub document_hash : List ℕ
  pub execution_time : ℕ

abbrev pub domain_separator : Text
domain_separator = codes "COMPLIANCE_REVEAL"

module _ (text_encode : Text → List ℕ) where
  -- The arguments of concatBytes, one after the other.
  unfoldable pub packed_warrant : WarrantSigningMessage → List ℕ
  packed_warrant warrant =
      text_encode domain_separator
      ++ (big_int_to_bytes warrant.warrant_id 32
          ++ (big_int_to_bytes warrant.target_dispute_id 32
              ++ (warrant.document_hash ++ big_int_to_bytes warrant.execution_time 32)))

  unfoldable pub create_warrant_message : (List ℕ → List ℕ) → WarrantSigningMessage → List ℕ
  create_warrant_message sha256 warrant = sha256 (packed_warrant warrant)

length-digits_loop :
    (i value : ℕ) (acc : List ℕ) → length (digits_loop i value acc) ≡ i + length acc
unfolding digits_loop
length-digits_loop zero value acc = omega arith
length-digits_loop (suc i) value acc =
    length-digits_loop i (value / 256) (value % 256 ∷ acc) ∙ omega arith

length-big_int_to_bytes : (value size : ℕ) → length (big_int_to_bytes value size) ≡ size
unfolding big_int_to_bytes
length-big_int_to_bytes value size = length-digits_loop size value [] ∙ omega arith

big_int_to_bytes-inj :
    (a b size : ℕ)
    → a < 256 ^ size
    → b < 256 ^ size
    → big_int_to_bytes a size ≡ big_int_to_bytes b size
    → a ≡ b
big_int_to_bytes-inj a b size p q e =
    sym (bytes_to_big_int-big_int_to_bytes size a p)
    ∙ ap bytes_to_big_int e
    ∙ bytes_to_big_int-big_int_to_bytes size b q

module _ {ℓ} {A : Type ℓ} where
  append-inj :
      (xs ys cs ds : List A) → length xs ≡ length ys → xs ++ cs ≡ ys ++ ds → (xs ≡ ys) × (cs ≡ ds)
  append-inj xs ys cs ds l e = (
    sym (take-length-append xs cs) ∙ ap₂ take l e ∙ take-length-append ys ds,
    sym (drop-length-append xs cs) ∙ ap₂ drop l e ∙ drop-length-append ys ds,
  )

word-inj :
    (a b : ℕ) (cs ds : List ℕ)
    → a < 256 ^ 32
    → b < 256 ^ 32
    → big_int_to_bytes a 32 ++ cs ≡ big_int_to_bytes b 32 ++ ds
    → (a ≡ b) × (cs ≡ ds)
word-inj a b cs ds p q e =
    let parts =
      append-inj (big_int_to_bytes a 32) (big_int_to_bytes b 32) cs ds
        (length-big_int_to_bytes a 32 ∙ sym (length-big_int_to_bytes b 32)) e in
    (big_int_to_bytes-inj a b 32 p q parts.0, parts.1)

last_word-inj :
    (xs ys : List ℕ) (a b : ℕ)
    → a < 256 ^ 32
    → b < 256 ^ 32
    → xs ++ big_int_to_bytes a 32 ≡ ys ++ big_int_to_bytes b 32
    → (xs ≡ ys) × (a ≡ b)
last_word-inj xs ys a b p q e =
    let parts =
      append-inj xs ys (big_int_to_bytes a 32) (big_int_to_bytes b 32)
        (omega (
          arith,
          ap length e,
          length-append xs (big_int_to_bytes a 32),
          length-append ys (big_int_to_bytes b 32),
          length-big_int_to_bytes a 32,
          length-big_int_to_bytes b 32,
        ))
        e in
    (parts.0, big_int_to_bytes-inj a b 32 p q parts.1)

-- The numbers of a warrant fit 32 bytes, as the numbers of the contracts do.
abbrev pub IsWarrant : WarrantSigningMessage → Type 0
IsWarrant w =
    (w.warrant_id < 256 ^ 32) × ((w.target_dispute_id < 256 ^ 32) × (w.execution_time < 256 ^ 32))

create_warrant_message-inj :
    (text_encode : Text → List ℕ) (sha256 : List ℕ → List ℕ) (w v : WarrantSigningMessage)
    → IsWarrant w
    → IsWarrant v
    → (sha256 (packed_warrant text_encode w) ≡ sha256 (packed_warrant text_encode v)
        → packed_warrant text_encode w ≡ packed_warrant text_encode v)
    → create_warrant_message text_encode sha256 w ≡ create_warrant_message text_encode sha256 v
    → w ≡ v
unfolding packed_warrant create_warrant_message
create_warrant_message-inj text_encode sha256 w v f g collision_free e =
    let domain = text_encode domain_separator in
    let after = append-inj domain domain _ _ refl (collision_free e) in
    let first = word-inj w.warrant_id v.warrant_id _ _ f.0 g.0 after.1 in
    let second = word-inj w.target_dispute_id v.target_dispute_id _ _ f.1.0 g.1.0 first.1 in
    let third =
      last_word-inj w.document_hash v.document_hash w.execution_time v.execution_time f.1.1 g.1.1
        second.1 in
    λ i. record {
      warrant_id = first.0 i;
      target_dispute_id = second.0 i;
      document_hash = third.0 i;
      execution_time = third.1 i;
    }

-- Two different warrants with numbers that fit 32 bytes have different messages, also if their
-- document hashes have other lengths than 32: provided that the hash does not collide on the bytes
-- of these two.
pub create_warrant_message-different :
    (text_encode : Text → List ℕ) (sha256 : List ℕ → List ℕ) (w v : WarrantSigningMessage)
    → IsWarrant w
    → IsWarrant v
    → (sha256 (packed_warrant text_encode w) ≡ sha256 (packed_warrant text_encode v)
        → packed_warrant text_encode w ≡ packed_warrant text_encode v)
    → w ≢ v
    → create_warrant_message text_encode sha256 w ≢ create_warrant_message text_encode sha256 v
create_warrant_message-different text_encode sha256 w v f g collision_free different e =
    different (create_warrant_message-inj text_encode sha256 w v f g collision_free e)
