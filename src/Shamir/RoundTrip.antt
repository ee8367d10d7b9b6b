-- ===== src/Shamir/RoundTrip.antt =====
-- combine rebuilds the secret that split has shared.
use mathlib.Core.List.{Memᴰ}
use ilr_module.Prelude.{
  ℕ, zero, suc, ◌+◌, ◌-◌, ◌%◌, ◌≤◌, ◌<◌, ◌≡◌, ◌≢◌, refl, sym, ap, ◌∙◌, List, [], ◌∷◌, length, arith,
  true, false, get_or, le→ltb-false, All, All-Memᴰ, All-get_or,
}
use ilr_module.Interpolation.Lagrange.{eval, eval-zero}
use ilr_module.Shamir.Result.{ok}
use ilr_module.Shamir.Gf256.{construct, evaluate_polynomial}
use ilr_module.Shamir.Scheme.{
  Share, guard, copy_random, coefficients_of, split, same_lengths, has_index, no_duplicates,
  value_loop, combine_loop, data_length, combine,
}
use ilr_module.Shamir.Bytes.{
  IsByte, Byte, byte_zero, gf, bytes, length-bytes, evaluate_polynomial-eval,
}
use ilr_module.Shamir.Basis.{ByteIndices, Holds}
use ilr_module.Shamir.Values.{value_loop-constant}
use ilr_module.Shamir.Dealt.{polynomial, IsDealt, split-IsAccepted, split-IsDealt}

-- Shares with pairwise different indices.
abbrev pub DistinctIndices : List Share → Type 0
DistinctIndices [] = Unit
DistinctIndices (s ∷ ss) = All (λ u. s.index ≢ u.index) ss × DistinctIndices ss

has_index-eq-false : (i : ℕ) (ss : List Share) → All (λ u. i ≢ u.index) ss → has_index i ss ≡ false
unfolding has_index
has_index-eq-false i [] h = refl
has_index-eq-false i (s ∷ ss) h = ground (arith, h.0, has_index-eq-false i ss h.1)

pub no_duplicates_of : (ss : List Share) → DistinctIndices ss → no_duplicates ss ≡ true
unfolding no_duplicates
no_duplicates_of [] h = refl
no_duplicates_of (s ∷ ss) h = rw (has_index-eq-false s.index ss h.0) (no_duplicates_of ss h.1)

copy_random-bytes : (left i : ℕ) (r : List ℕ) → All IsByte r → All IsByte (copy_random left i r)
unfolding copy_random
copy_random-bytes zero i r h = tt
copy_random-bytes (suc left) i r h =
    (All-get_or IsByte r (i - 1) 0 h (omega arith), copy_random-bytes left (i + 1) r h)

length-copy_random : (left i : ℕ) (r : List ℕ) → length (copy_random left i r) ≡ left
unfolding copy_random
length-copy_random zero i r = refl
length-copy_random (suc left) i r = ap suc (length-copy_random left (i + 1) r)

coefficients-bytes :
    (threshold byte : ℕ) (r : List ℕ)
    → IsByte byte
    → All IsByte r
    → All IsByte (coefficients_of threshold byte r)
unfolding coefficients_of
coefficients-bytes threshold byte r p h = (p, copy_random-bytes (threshold - 1) 1 r h)

length-coefficients :
    (threshold byte : ℕ) (r : List ℕ)
    → 0 < threshold
    → length (coefficients_of threshold byte r) ≡ threshold
unfolding coefficients_of
length-coefficients threshold byte r p = omega (arith, length-copy_random (threshold - 1) 1 r)

constant_term :
    (threshold byte : ℕ) (r : List ℕ) (h : All IsByte (coefficients_of threshold byte r))
    → (eval gf (bytes (coefficients_of threshold byte r) h) byte_zero).0 ≡ byte
unfolding coefficients_of
constant_term threshold byte r h =
    ap (λ (x : Byte). x.0) (eval-zero gf (byte, h.0) (bytes (copy_random (threshold - 1) 1 r) h.1))

module _ (random : ℕ → ℕ → List ℕ) (threshold : ℕ) (secret : List ℕ) (n : ℕ) where
  abbrev Dealt : Share → Type 0
  Dealt = IsDealt construct random threshold secret n

  byte_indices : n ≤ 255 → (ss : List Share) → All Dealt ss → ByteIndices ss
  byte_indices l [] h = tt
  byte_indices l (s ∷ ss) h = (omega (arith, h.0.index-le), byte_indices l ss h.1)

  same_lengths_of : (ss : List Share) → All Dealt ss → same_lengths (length secret) ss ≡ true
  unfolding same_lengths
  same_lengths_of [] h = refl
  same_lengths_of (s ∷ ss) h = ground (arith, h.0.same_length, same_lengths_of ss h.1)

  data_length_of : (ss : List Share) → 0 < length ss → All Dealt ss → data_length ss ≡ length secret
  unfolding data_length
  data_length_of [] p h = absurd (omega arith)
  data_length_of (s ∷ ss) p h = h.0.same_length

  Holds-at :
      (k byte : ℕ) (b : All IsByte (polynomial construct random threshold k byte)) (ss : List Share)
      (g : ByteIndices ss)
      → k < length secret
      → get_or secret k 0 ≡ byte
      → All Dealt ss
      → Holds (eval gf (bytes (polynomial construct random threshold k byte) b)) k ss g
  Holds-at k byte b [] g l e h = tt
  Holds-at k byte b (s ∷ ss) g l e h =
      let x : Byte = (s.index, g.0) in
      let poly : List ℕ = polynomial construct random threshold k byte in
      let v = (eval gf (bytes poly b) x) in
      (
        h.0.value k l
            ∙ ap
                (λ (y : ℕ).
                  evaluate_polynomial construct (polynomial construct random threshold k y) s.index
                  % 256)
                e
            ∙ omega (arith, evaluate_polynomial-eval poly b x h.0.index_pos, v.1),
        Holds-at k byte b ss g.1 l e h.1,
      )

  module _ (random_bytes : (k m : ℕ) → All IsByte (random k m)) (two : 2 ≤ threshold)
      (at_most : n ≤ 255) (chosen : List Share) (dealt : All Dealt chosen)
      (distinct : DistinctIndices chosen) (enough : threshold ≤ length chosen) where
    byte_value :
        (k byte : ℕ)
        → k < length secret
        → get_or secret k 0 ≡ byte
        → IsByte byte
        → value_loop construct chosen k 0 chosen 0 ≡ ok byte
    byte_value k byte l e p =
        let r : List ℕ = random k (threshold - 1) in
        let b : All IsByte (polynomial construct random threshold k byte) =
          coefficients-bytes threshold byte r p (random_bytes k (threshold - 1)) in
        let g = byte_indices at_most chosen dealt in
        value_loop-constant (bytes (polynomial construct random threshold k byte) b) k chosen g
          (no_duplicates_of chosen distinct)
          (omega (
            arith,
            length-bytes (polynomial construct random threshold k byte) b,
            length-coefficients threshold byte r (omega arith),
          ))
          (Holds-at k byte b chosen g l e dealt)
        ∙ ap ok (constant_term threshold byte r b)

    combine_loop-rest :
        (k : ℕ) (rest : List ℕ)
        → k + length rest ≤ length secret
        → ((j : ℕ) → j < length rest → get_or secret (k + j) 0 ≡ get_or rest j 0)
        → All IsByte rest
        → combine_loop construct chosen (length rest) k ≡ ok rest
    unfolding combine_loop
    combine_loop-rest k [] l e h = refl
    combine_loop-rest k (byte ∷ rest) l e h =
        let here : k + 0 ≡ k = omega arith in
        let low : byte % 256 ≡ byte = omega (arith, h.0) in
        rw
          (
            byte_value k byte (omega arith)
                (ap (λ (i : ℕ). get_or secret i 0) (sym here) ∙ e 0 (omega arith)) h.0,
            combine_loop-rest (k + 1) rest (omega arith)
                (λ j q. ap (λ (i : ℕ). get_or secret i 0) (omega arith) ∙ e (suc j) (omega arith))
                h.1,
            low,
          )
          refl

    combine-dealt : All IsByte secret → combine construct chosen ≡ ok secret
    unfolding combine guard data_length
    combine-dealt h =
        rw
          (
            le→ltb-false (length chosen) 2 (omega arith),
            data_length_of chosen (omega arith) dealt,
            same_lengths_of chosen dealt,
            no_duplicates_of chosen distinct,
          )
          (combine_loop-rest 0 secret (omega arith)
            (λ j q. ap (λ (i : ℕ). get_or secret i 0) (omega arith)) h)

members-IsDealt :
    (random : ℕ → ℕ → List ℕ) (threshold : ℕ) (secret : List ℕ) (n : ℕ) (shares : List Share)
    → All (IsDealt construct random threshold secret n) shares
    → (chosen : List Share) → All (λ s. Memᴰ s shares) chosen
    → All (IsDealt construct random threshold secret n) chosen
members-IsDealt random threshold secret n shares h [] m = tt
members-IsDealt random threshold secret n shares h (s ∷ ss) m = (
  All-Memᴰ (IsDealt construct random threshold secret n) shares s h m.0,
  members-IsDealt random threshold secret n shares h ss m.1,
)

-- Any shares with different indices that split returned combine to the secret, if there are at
-- least as many as the threshold. The secret and the random bytes are bytes.
pub combine-split :
    (random : ℕ → ℕ → List ℕ) (secret : List ℕ) (n threshold : ℕ) (shares chosen : List Share)
    → ((k m : ℕ) → All IsByte (random k m))
    → All IsByte secret
    → split construct random secret n threshold ≡ ok shares
    → All (λ s. Memᴰ s shares) chosen
    → DistinctIndices chosen
    → threshold ≤ length chosen
    → combine construct chosen ≡ ok secret
combine-split random secret n threshold shares chosen rb sb e m d l =
    let a = split-IsAccepted construct random threshold secret n shares e in
    let dealt = split-IsDealt construct random threshold secret n shares e in
    combine-dealt random threshold secret n rb a.at_least_two a.at_most chosen
      (members-IsDealt random threshold secret n shares dealt chosen m) d l sb
