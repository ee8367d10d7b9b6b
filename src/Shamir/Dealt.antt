-- ===== src/Shamir/Dealt.antt =====
-- What the shares that split returns hold.
use ilr_module.Prelude.{
  ℕ, zero, suc, ◌+◌, ◌-◌, ◌%◌, ◌≤◌, ◌<◌, ◌≡◌, refl, ap, ◌∙◌, List, [], ◌∷◌, map, length, arith,
  get_or, All, length-set, get_or-set_self, get_or-set_ne, length-replicate,
}
use ilr_module.Shamir.Result.{ok}
use ilr_module.Shamir.Gf256.{Tables, evaluate_polynomial}
use ilr_module.Shamir.Scheme.{
  Share, guard, blank_shares, coefficients_of, fill_share, split_loop, split,
}

module _ (t : Tables) (random : ℕ → ℕ → List ℕ) (threshold : ℕ) where
  -- The polynomial of the byte at position `k`.
  abbrev pub polynomial : ℕ → ℕ → List ℕ
  polynomial k byte = coefficients_of threshold byte (random k (threshold - 1))

  -- The outer loop of split as one share sees it.
  share_loop : ℕ → List ℕ → Share → Share
  share_loop k [] s = s
  share_loop k (byte ∷ rest) s = share_loop (k + 1) rest (fill_share t (polynomial k byte) k s)

  map-share_loop :
      (f : Share → Share) (k : ℕ) (rest : List ℕ) (shares : List Share)
      → map (share_loop k rest) (map f shares) ≡ map (λ s. share_loop k rest (f s)) shares
  map-share_loop f k rest [] = refl
  map-share_loop f k rest (s ∷ ss) = ap (◌∷◌ (share_loop k rest (f s))) (map-share_loop f k rest ss)

  map_id : (shares : List Share) → shares ≡ map (λ s. s) shares
  map_id [] = refl
  map_id (s ∷ ss) = ap (◌∷◌ s) (map_id ss)

  split_loop-map :
      (k : ℕ) (rest : List ℕ) (shares : List Share)
      → split_loop t random threshold k rest shares ≡ map (share_loop k rest) shares
  unfolding split_loop share_loop
  split_loop-map k [] shares = map_id shares
  split_loop-map k (byte ∷ rest) shares =
      split_loop-map (k + 1) rest (map (fill_share t (polynomial k byte) k) shares)
      ∙ map-share_loop (fill_share t (polynomial k byte) k) (k + 1) rest shares

  index-share_loop : (k : ℕ) (rest : List ℕ) (s : Share) → (share_loop k rest s).index ≡ s.index
  unfolding share_loop fill_share
  index-share_loop k [] s = refl
  index-share_loop k (byte ∷ rest) s =
      index-share_loop (k + 1) rest (fill_share t (polynomial k byte) k s)

  length-share_loop :
      (k : ℕ) (rest : List ℕ) (s : Share) → length (share_loop k rest s).payload ≡ length s.payload
  unfolding share_loop fill_share
  length-share_loop k [] s = refl
  length-share_loop k (byte ∷ rest) s =
      length-share_loop (k + 1) rest (fill_share t (polynomial k byte) k s)
      ∙ length-set s.payload k _

  before-share_loop :
      (k : ℕ) (rest : List ℕ) (s : Share) (j : ℕ)
      → j < k
      → get_or (share_loop k rest s).payload j 0 ≡ get_or s.payload j 0
  unfolding share_loop fill_share
  before-share_loop k [] s j h = refl
  before-share_loop k (byte ∷ rest) s j h =
      before-share_loop (k + 1) rest (fill_share t (polynomial k byte) k s) j (omega arith)
      ∙ get_or-set_ne s.payload k j _ 0 (omega arith)

  at-share_loop :
      (k : ℕ) (rest : List ℕ) (s : Share) (j : ℕ)
      → j < length rest
      → k + length rest ≤ length s.payload
      → get_or (share_loop k rest s).payload (k + j) 0
        ≡ evaluate_polynomial t (polynomial (k + j) (get_or rest j 0)) s.index % 256
  unfolding share_loop fill_share
  at-share_loop k [] s j h l = absurd (omega arith)
  at-share_loop k (byte ∷ rest) s zero h l =
      let e : k + 0 ≡ k = omega arith in
      rw e (
        before-share_loop (k + 1) rest (fill_share t (polynomial k byte) k s) k (omega arith)
        ∙ get_or-set_self s.payload k _ 0 (omega arith))
  at-share_loop k (byte ∷ rest) s (suc j) h l =
      let e : k + suc j ≡ k + 1 + j = omega arith in
      rw e (
        at-share_loop (k + 1) rest (fill_share t (polynomial k byte) k s) j (omega arith) (
          omega (
            arith,
            length-set s.payload k (evaluate_polynomial t (polynomial k byte) s.index % 256),
          )))

  -- A share of the secret among `n` shares.
  pub record IsDealt (secret : List ℕ) (n : ℕ) (s : Share) : Type 0 where
    pub index_pos : 0 < s.index
    pub index-le : s.index ≤ n
    pub same_length : length s.payload ≡ length secret
    pub value :
        (k : ℕ)
        → k < length secret
        → get_or s.payload k 0
          ≡ evaluate_polynomial t (polynomial k (get_or secret k 0)) s.index % 256

  IsDealt-share_loop :
      (secret : List ℕ) (n : ℕ) (s : Share)
      → 0 < s.index
      → s.index ≤ n
      → length s.payload ≡ length secret
      → IsDealt secret n (share_loop 0 secret s)
  IsDealt-share_loop secret n s p q l = record {
    index_pos = rw (index-share_loop 0 secret s) p;
    index-le = rw (index-share_loop 0 secret s) q;
    same_length = length-share_loop 0 secret s ∙ l;
    value = λ k h.
        let e : 0 + k ≡ k = omega arith in
        rw (index-share_loop 0 secret s) (rw e at (at-share_loop 0 secret s k h (omega arith)));
  }

  blank-IsDealt :
      (secret : List ℕ) (n left i : ℕ)
      → 0 < i
      → i + left ≡ suc n
      → All (IsDealt secret n) (map (share_loop 0 secret) (blank_shares left i (length secret)))
  unfolding blank_shares
  blank-IsDealt secret n zero i p e = tt
  blank-IsDealt secret n (suc left) i p e = (
    IsDealt-share_loop secret n _ p (omega arith) (length-replicate (length secret) 0),
    blank-IsDealt secret n left (i + 1) (omega arith) (omega arith),
  )

  -- The conditions under which split answers, and its answer.
  pub record IsAccepted (secret : List ℕ) (n : ℕ) (shares : List Share) : Type 0 where
    pub at_least_two : 2 ≤ threshold
    pub threshold-le : threshold ≤ n
    pub at_most : n ≤ 255
    pub nonempty : 0 < length secret
    pub answer : shares ≡ split_loop t random threshold 0 secret (blank_shares n 1 (length secret))

  pub split-IsAccepted :
      (secret : List ℕ) (n : ℕ) (shares : List Share)
      → split t random secret n threshold ≡ ok shares
      → IsAccepted secret n shares
  unfolding split guard
  split-IsAccepted secret n shares h = ground arith

  pub split-IsDealt :
      (secret : List ℕ) (n : ℕ) (shares : List Share)
      → split t random secret n threshold ≡ ok shares
      → All (IsDealt secret n) shares
  split-IsDealt secret n shares h =
      let a = split-IsAccepted secret n shares h in
      rw (a.answer, split_loop-map 0 secret (blank_shares n 1 (length secret)))
        (blank-IsDealt secret n n 1 (omega arith) (omega arith))
