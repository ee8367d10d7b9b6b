-- ===== src/Subgraph/Assets/LastOpen.antt =====
-- The loop of handleAssetUnfrozen finds the last freeze that is not ended.
use native.Mathlib.Decide.{ℕ_discrete}
use ilr_module.Prelude.{
  ℕ, zero, suc, ◌+◌, ◌≤◌, ◌<◌, ◌≡◌, ◌≢◌, refl, sym, ap, ◌∙◌, subst, Option, none, some, arith,
  Option-cases, inl, inr,
}
use ilr_module.Subgraph.Map.{Map, load, nat_key, pair_key}
use ilr_module.Subgraph.Index.{from_index, from_index-lt}
use ilr_module.Subgraph.Schema.{AssetFreeze}
use ilr_module.Subgraph.Assets.{open_or, last_open_loop}

pub loop_step :
    (fuel : ℕ) (m : Map (ℕ × ℕ) AssetFreeze) (id index : ℕ) (last : Option (ℕ × AssetFreeze))
    (f : AssetFreeze)
    → load m (id, index) ≡ some f
    → last_open_loop (suc fuel) m id index last
      ≡ last_open_loop fuel m id (index + 1) (open_or last index f)
unfolding last_open_loop
loop_step fuel m id index last f e = ground arith

pub loop_stop :
    (fuel : ℕ) (m : Map (ℕ × ℕ) AssetFreeze) (id index : ℕ) (last : Option (ℕ × AssetFreeze))
    → load m (id, index) ≡ none
    → last_open_loop fuel m id index last ≡ last
unfolding last_open_loop
loop_stop zero m id index last e = refl
loop_stop (suc fuel) m id index last e = ground arith

open_or-open :
    (last : Option (ℕ × AssetFreeze)) (index : ℕ) (f : AssetFreeze)
    → f.unfrozen_at ≡ none
    → open_or last index f ≡ some (index, f)
open_or-open last index f e = rw e refl

-- An open record that is the last of its asset is the one that the loop finds.
pub last_open_loop-last :
    (fuel : ℕ) (m : Map (ℕ × ℕ) AssetFreeze) (id index n : ℕ) (last : Option (ℕ × AssetFreeze))
    (f : AssetFreeze)
    → from_index m id index < fuel
    → index ≤ n
    → ((j : ℕ) → j < n → load m (id, j) ≢ none)
    → load m (id, n) ≡ some f
    → f.unfrozen_at ≡ none
    → load m (id, n + 1) ≡ none
    → last_open_loop fuel m id index last ≡ some (n, f)
last_open_loop-last zero m id index n last f h l used e o free = absurd (omega arith)
last_open_loop-last (suc fuel) m id index n last f h l used e o free = elim (ℕ_discrete n index) [
  | yes same ↦
      let here : load m (id, index) ≡ some f = subst (λ i. load m (id, i) ≡ some f) same e in
      loop_step fuel m id index last f here
      ∙ loop_stop fuel m id (index + 1) (open_or last index f)
          (subst (λ i. load m (id, i + 1) ≡ none) same free)
      ∙ open_or-open last index f o
      ∙ ap (λ i. some (i, f)) (sym same)
  | no other ↦ elim (Option-cases (load m (id, index))) [
    | inl none_here ↦ absurd (used index (omega arith) none_here)
    | inr (g, here) ↦
        loop_step fuel m id index last g here
        ∙ last_open_loop-last fuel m id (index + 1) n (open_or last index g) f
            (omega (arith, from_index-lt m id index g here)) (omega arith) used e o free
  ]
]

-- The loop gives back a saved record.
abbrev pub Found : Map (ℕ × ℕ) AssetFreeze → ℕ → Option (ℕ × AssetFreeze) → Type 0
Found m id none = Unit
Found m id (some (k, f)) = load m (id, k) ≡ some f

open_or-Found :
    (m : Map (ℕ × ℕ) AssetFreeze) (id index : ℕ) (last : Option (ℕ × AssetFreeze)) (f : AssetFreeze)
    → load m (id, index) ≡ some f
    → Found m id last
    → Found m id (open_or last index f)
open_or-Found m id index last f e h = elim (Option-cases f.unfrozen_at) [
  | inl o ↦ subst (Found m id) (sym (open_or-open last index f o)) e
  | inr (t, o) ↦ subst (Found m id) (sym (closed last index f t o)) h
]
  where
    closed :
        (last : Option (ℕ × AssetFreeze)) (index : ℕ) (f : AssetFreeze) (t : ℕ)
        → f.unfrozen_at ≡ some t
        → open_or last index f ≡ last
    closed last index f t o = rw o refl

pub loop-Found :
    (fuel : ℕ) (m : Map (ℕ × ℕ) AssetFreeze) (id index : ℕ) (last : Option (ℕ × AssetFreeze))
    → Found m id last
    → Found m id (last_open_loop fuel m id index last)
loop-Found zero m id index last h = unfold last_open_loop in h
loop-Found (suc fuel) m id index last h = elim (Option-cases (load m (id, index))) [
  | inl free ↦ subst (Found m id) (sym (loop_stop (suc fuel) m id index last free)) h
  | inr (f, here) ↦ subst (Found m id) (sym (loop_step fuel m id index last f here)) (
      loop-Found fuel m id (index + 1) (open_or last index f)
        (open_or-Found m id index last f here h))
]
