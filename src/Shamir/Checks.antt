-- ===== src/Shamir/Checks.antt =====
-- The argument checks of split and combine, and the shape of their results.
use mathlib.Core.List.{Memᴰ}
use ilr_module.Prelude.{
  ℕ, zero, suc, ◌+◌, ◌%◌, ◌≤◌, ◌<◌, ◌≡◌, ◌≢◌, refl, ap, ◌∙◌, List, [], ◌∷◌, map, length, arith,
  true, false, All,
}
use ilr_module.Shamir.Result.{Result, ok, err, ◌>>=◌}
use ilr_module.Shamir.Gf256.{Tables, construct}
use ilr_module.Shamir.Scheme.{
  Share, guard, blank_shares, fill_share, split_loop, split, same_lengths, has_index, no_duplicates,
  value_loop, combine_loop, data_length, combine,
}
use ilr_module.Shamir.Dealt.{split-IsAccepted}
use ilr_module.Shamir.RoundTrip.{DistinctIndices, combine-split}
use ilr_module.Shamir.Bytes.{IsByte}

-- The indices `i`, `i + 1`, … of `left` shares.
abbrev pub indices_from : ℕ → ℕ → List ℕ
indices_from zero i = []
indices_from (suc left) i = i ∷ indices_from left (i + 1)

indices-blank : (left i n : ℕ) → map (λ s. s.index) (blank_shares left i n) ≡ indices_from left i
unfolding blank_shares
indices-blank zero i n = refl
indices-blank (suc left) i n = ap (◌∷◌ i) (indices-blank left (i + 1) n)

indices-fill :
    (t : Tables) (cs : List ℕ) (k : ℕ) (shares : List Share)
    → map (λ s. s.index) (map (fill_share t cs k) shares) ≡ map (λ s. s.index) shares
unfolding fill_share
indices-fill t cs k [] = refl
indices-fill t cs k (s ∷ ss) = ap (◌∷◌ s.index) (indices-fill t cs k ss)

indices-split_loop :
    (t : Tables) (random : ℕ → ℕ → List ℕ) (threshold k : ℕ) (rest : List ℕ) (shares : List Share)
    → map (λ s. s.index) (split_loop t random threshold k rest shares) ≡ map (λ s. s.index) shares
unfolding split_loop
indices-split_loop t random threshold k [] shares = refl
indices-split_loop t random threshold k (byte ∷ rest) shares =
    indices-split_loop t random threshold (k + 1) rest _ ∙ indices-fill t _ k shares

-- If split returns shares, the threshold lies between 2 and the number of shares, there are at most
-- 255 shares, the secret is not empty, and the shares have the indices 1, 2, …, in this order.
pub split-indices :
    (t : Tables) (random : ℕ → ℕ → List ℕ) (secret : List ℕ) (n threshold : ℕ) (shares : List Share)
    → split t random secret n threshold ≡ ok shares
    → (2 ≤ threshold)
      × (threshold ≤ n)
      × (n ≤ 255)
      × (0 < length secret)
      × (map (λ s. s.index) shares ≡ indices_from n 1)
split-indices t random secret n threshold shares e =
    let a = split-IsAccepted t random threshold secret n shares e in
    (
      a.at_least_two,
      a.threshold-le,
      a.at_most,
      a.nonempty,
      ap (map (λ s. s.index)) a.answer
          ∙ indices-split_loop t random threshold 0 secret _
          ∙ indices-blank n 1 (length secret),
    )

has_index-All : (i : ℕ) (ss : List Share) → has_index i ss ≡ false → All (λ u. i ≢ u.index) ss
unfolding has_index
has_index-All i [] h = tt
has_index-All i (s ∷ ss) h = ((λ e. absurd (ground arith)), has_index-All i ss (ground arith))

distinct_of_check : (ss : List Share) → no_duplicates ss ≡ true → DistinctIndices ss
unfolding no_duplicates
distinct_of_check [] h = tt
distinct_of_check (s ∷ ss) h =
    (has_index-All s.index ss (ground arith), distinct_of_check ss (ground arith))

same_lengths-All :
    (n : ℕ) (ss : List Share) → same_lengths n ss ≡ true → All (λ s. length s.payload ≡ n) ss
unfolding same_lengths
same_lengths-All n [] h = tt
same_lengths-All n (s ∷ ss) h = (ground arith, same_lengths-All n ss (ground arith))

length-combine_loop :
    (t : Tables) (shares : List Share) (left k : ℕ) (r : List ℕ)
    → combine_loop t shares left k ≡ ok r
    → length r ≡ left
unfolding combine_loop
length-combine_loop t shares zero k r e = ground arith
length-combine_loop t shares (suc left) k r e =
    from_parts (value_loop t shares k 0 shares 0) (combine_loop t shares left (k + 1))
      (length-combine_loop t shares left (k + 1)) r e
  where
    from_parts :
        (v : Result ℕ) (rest : Result (List ℕ))
        → ((q : List ℕ) → rest ≡ ok q → length q ≡ left)
        → (r : List ℕ) → (v >>= λ value. rest >>= λ tail. ok ((value % 256) ∷ tail)) ≡ ok r
        → length r ≡ suc left
    from_parts (ok v) (ok q) ih r e = ground (arith, ih q)
    from_parts (ok v) (err x) ih r e = cc
    from_parts (err x) rest ih r e = cc

combine-parts :
    (t : Tables) (shares : List Share) (r : List ℕ)
    → combine t shares ≡ ok r
    → (2 ≤ length shares)
      × (same_lengths (data_length shares) shares ≡ true)
      × (no_duplicates shares ≡ true)
      × (combine_loop t shares (data_length shares) 0 ≡ ok r)
unfolding combine guard
combine-parts t shares r e = ground arith

-- If combine returns a secret, it was given at least two shares, with different indices and data
-- of one length, and the secret has this length.
pub combine-checks :
    (t : Tables) (shares : List Share) (r : List ℕ)
    → combine t shares ≡ ok r
    → (2 ≤ length shares) × All (λ s. length s.payload ≡ length r) shares × DistinctIndices shares
combine-checks t shares r e =
    let (two, lengths, distinct, loop) = combine-parts t shares r e in
    let n = length-combine_loop t shares (data_length shares) 0 r loop in
    (two, same_lengths-All (length r) shares (rw n lengths), distinct_of_check shares distinct)

split-succeeds :
    (t : Tables) (random : ℕ → ℕ → List ℕ) (secret : List ℕ) (n threshold : ℕ)
    → 2 ≤ threshold
    → threshold ≤ n
    → n ≤ 255
    → 0 < length secret
    → (shares : List Share) × (split t random secret n threshold ≡ ok shares)
unfolding split guard
split-succeeds t random secret n threshold p q r l =
    (split_loop t random threshold 0 secret (blank_shares n 1 (length secret)), ground arith)

members_of :
    (all part : List Share) → ((s : Share) → Memᴰ s part → Memᴰ s all) → All (λ s. Memᴰ s all) part
members_of all [] f = tt
members_of all (s ∷ ss) f = (f s (Memᴰ.head refl), members_of all ss (λ u m. f u (Memᴰ.tail m)))

first_index : (x y : ℕ) (xs ys : List ℕ) → x ∷ xs ≡ y ∷ ys → (x ≡ y) × (xs ≡ ys)
first_index x y xs ys e = ground (arith, e)

above-ne :
    (i x : ℕ) (ss : List Share) → x ≡ i → All (λ s. i + 1 ≤ s.index) ss → All (λ u. x ≢ u.index) ss
above-ne i x [] e h = tt
above-ne i x (s ∷ ss) e h = ((λ q. absurd (omega (arith, e, q, h.0))), above-ne i x ss e h.1)

weaken : (i : ℕ) (ss : List Share) → All (λ s. i + 1 ≤ s.index) ss → All (λ s. i ≤ s.index) ss
weaken i [] h = tt
weaken i (s ∷ ss) h = (omega (arith, h.0), weaken i ss h.1)

numbered :
    (n i : ℕ) (ss : List Share)
    → map (λ s. s.index) ss ≡ indices_from n i
    → DistinctIndices ss × (All (λ s. i ≤ s.index) ss × (length ss ≡ n))
numbered zero i [] e = (tt, (tt, refl))
numbered (suc n) i [] e = absurd (ground (arith, e))
numbered zero i (s ∷ ss) e = absurd (ground (arith, e))
numbered (suc n) i (s ∷ ss) e =
    let same = first_index s.index i (map (λ u. u.index) ss) (indices_from n (i + 1)) e in
    let rest = numbered n (i + 1) ss same.1 in
    (
      (above-ne i s.index ss same.0 rest.1.0, rest.0),
      ((omega (arith, same.0), weaken i ss rest.1.0), ap suc rest.1.1),
    )

-- For every secret and random source made of bytes, a threshold between 2 and the number of shares,
-- at most 255 shares and a secret that is not empty, split returns as many shares as asked for, and
-- all of them together combine to the secret.
pub split-combine :
    (random : ℕ → ℕ → List ℕ) (secret : List ℕ) (n threshold : ℕ)
    → ((k m : ℕ) → All IsByte (random k m))
    → All IsByte secret
    → 2 ≤ threshold
    → threshold ≤ n
    → n ≤ 255
    → 0 < length secret
    → (shares : List Share) × ((split construct random secret n threshold ≡ ok shares)
        × ((length shares ≡ n) × (combine construct shares ≡ ok secret)))
split-combine random secret n threshold rb sb p q r l =
    let (shares, e) = split-succeeds construct random secret n threshold p q r l in
    let (two, most, bound, full, indices) =
      split-indices construct random secret n threshold shares e in
    let facts = numbered n 1 shares indices in
    (
      shares,
      (
        e,
        (
          facts.1.1,
          combine-split random secret n threshold shares shares rb sb e
              (members_of shares shares (λ s m. m)) facts.0 (omega (arith, facts.1.1)),
        ),
      ),
    )
