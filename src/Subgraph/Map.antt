-- ===== src/Subgraph/Map.antt =====
-- The entities of one type in graph-node's store: `load` gives what was last saved under an id,
-- and `save` replaces it. The store is not under subgraph/src; this is its documented behaviour.
-- An id is the value that the handler prints (a number, or a pair for `a + "-" + b`): printing is
-- injective, so that the ids of two values differ exactly when the values do.
use mathlib.Core.Bool.{Bool, true, ◌&&◌}
use ilr_module.Prelude.{
  ℕ, ◌≡◌, ◌↔◌, refl, Option, none, some, List, [], ◌∷◌, arith, ◌==◌, ==_iff, if◌then◌else◌,
}

pub record Key (K : Type 0) : Type 0 where
  pub same : K → K → Bool
  pub same_iff : (a b : K) → (same a b ≡ true) ↔ (a ≡ b)

abbrev pub nat_same : ℕ → ℕ → Bool
nat_same a b = a == b

pub nat_same_iff : (a b : ℕ) → (nat_same a b ≡ true) ↔ (a ≡ b)
nat_same_iff a b = ==_iff a b

instance abbrev pub nat_key : Key ℕ
nat_key = record { same = nat_same; same_iff = nat_same_iff }

abbrev pub pair_same : ℕ × ℕ → ℕ × ℕ → Bool
pair_same a b = (a.0 == b.0) && (a.1 == b.1)

pub pair_same_iff : (a b : ℕ × ℕ) → (pair_same a b ≡ true) ↔ (a ≡ b)
pair_same_iff a b = ground arith

instance abbrev pub pair_key : Key (ℕ × ℕ)
pair_key = record { same = pair_same; same_iff = pair_same_iff }

-- The saved entities, each with its id.
abbrev pub Map : Type 0 → Type 0 → Type 0
Map K V = List (K × V)

pub same_refl : {K : Type 0} ⦃k : Key K⦄ (i : K) → k.same i i ≡ true
same_refl ⦃k⦄ i = (k.same_iff i i).1 refl

module _ {K V : Type 0} ⦃k : Key K⦄ where
  unfoldable pub load : Map K V → K → Option V
  load [] j = none
  load ((i, v) ∷ m) j = if k.same i j then some v else load m j

  unfoldable pub save : Map K V → K → V → Map K V
  save [] j v = (j, v) ∷ []
  save ((i, w) ∷ m) j v = if k.same i j then (j, v) ∷ m else (i, w) ∷ save m j v

  pub load-save :
      (m : Map K V) (i j : K) (v : V)
      → load (save m i v) j ≡ (if k.same i j then some v else load m j)
  unfolding load save
  load-save [] i j v = refl
  load-save ((h, w) ∷ m) i j v =
      ground (arith, k.same_iff h i, k.same_iff i j, k.same_iff h j, load-save m i j v)

  pub load-save_self : (m : Map K V) (i : K) (v : V) → load (save m i v) i ≡ some v
  load-save_self m i v = rw (load-save m i i v, same_refl i) refl
