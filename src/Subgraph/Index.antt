-- ===== src/Subgraph/Index.antt =====
-- The loop that three handlers of subgraph/src use to find the next free index of a numbered record:
-- `while (X.load(id + "-" + index) != null) index++`.
use native.Mathlib.Decide.{ℕ_discrete}
use ilr_module.Prelude.{
  ℕ, zero, suc, ◌+◌, ◌≤◌, ◌<◌, ◌≡◌, ◌≢◌, refl, ap, none, some, [], ◌∷◌, length, arith, ◌==◌, ltb,
  leb, if◌then◌else◌, ◌&&◌, Option-cases, inl, inr, Bool-cases, ltb→lt,
}
use ilr_module.Subgraph.Map.{Map, load, pair_key}

module _ {V : Type 0} where
  -- With fuel; each round finds another saved record, so that one round more than there are records
  -- is enough.
  unfoldable pub index_loop : ℕ → Map (ℕ × ℕ) V → ℕ → ℕ → ℕ
  index_loop zero m id index = index
  index_loop (suc fuel) m id index =
      let next = index_loop fuel m id (index + 1) in
      elim (load m (id, index)) [ none ↦ index | some v ↦ next ]

  unfoldable pub next_index : Map (ℕ × ℕ) V → ℕ → ℕ
  unfolding index_loop
  next_index m id = index_loop (length m + 1) m id 0

  -- The records of `id` with an index from `index` on.
  pub from_index : Map (ℕ × ℕ) V → ℕ → ℕ → ℕ
  from_index [] id index = 0
  from_index (((i, j), v) ∷ m) id index =
      from_index m id index + (if (i == id) && leb index j then 1 else 0)

  pub from_index-le : (m : Map (ℕ × ℕ) V) (id index : ℕ) → from_index m id index ≤ length m
  unfolding from_index
  from_index-le [] id index = omega arith
  from_index-le (((i, j), v) ∷ m) id index = ground (arith, from_index-le m id index)

  from_index_mono :
      (m : Map (ℕ × ℕ) V) (id index : ℕ) → from_index m id (index + 1) ≤ from_index m id index
  unfolding from_index
  from_index_mono [] id index = omega arith
  from_index_mono (((i, j), v) ∷ m) id index = ground (arith, from_index_mono m id index)

  -- A record that is found is one of them, and not one of those after it.
  pub from_index-lt :
      (m : Map (ℕ × ℕ) V) (id index : ℕ) (v : V)
      → load m (id, index) ≡ some v
      → from_index m id (index + 1) < from_index m id index
  unfolding from_index load
  from_index-lt [] id index v h = cc
  from_index-lt (((i, j), w) ∷ m) id index v h =
      ground (arith, from_index_mono m id index, from_index-lt m id index v)

  stop :
      (fuel : ℕ) (m : Map (ℕ × ℕ) V) (id index : ℕ)
      → load m (id, index) ≡ none
      → index_loop (suc fuel) m id index ≡ index
  unfolding index_loop
  stop fuel m id index h = ground arith

  step :
      (fuel : ℕ) (m : Map (ℕ × ℕ) V) (id index : ℕ) (v : V)
      → load m (id, index) ≡ some v
      → index_loop (suc fuel) m id index ≡ index_loop fuel m id (index + 1)
  unfolding index_loop
  step fuel m id index v h = ground arith

  index_loop-free :
      (fuel : ℕ) (m : Map (ℕ × ℕ) V) (id index : ℕ)
      → from_index m id index < fuel
      → load m (id, index_loop fuel m id index) ≡ none
  index_loop-free zero m id index h = absurd (omega arith)
  index_loop-free (suc fuel) m id index h = elim (Option-cases (load m (id, index))) [
    | inl free ↦ rw (stop fuel m id index free) free
    | inr (v, used) ↦
        rw (step fuel m id index v used)
          (index_loop-free fuel m id (index + 1) (omega (arith, from_index-lt m id index v used)))
  ]

  index_loop-zero : (m : Map (ℕ × ℕ) V) (id index : ℕ) → index_loop zero m id index ≡ index
  unfolding index_loop
  index_loop-zero m id index = refl

  index_loop-used :
      (fuel : ℕ) (m : Map (ℕ × ℕ) V) (id index j : ℕ)
      → index ≤ j
      → j < index_loop fuel m id index
      → load m (id, j) ≢ none
  index_loop-used zero m id index j p q e = absurd (omega (arith, index_loop-zero m id index))
  index_loop-used (suc fuel) m id index j p q e = elim (Option-cases (load m (id, index))) [
    | inl free ↦ absurd (omega (arith, stop fuel m id index free))
    | inr (v, used) ↦ elim (ℕ_discrete index j) [
      | yes same ↦ cc (used, e, ap (λ (i : ℕ). load m (id, i)) same)
      | no other ↦
          index_loop-used fuel m id (index + 1) j (omega arith)
            (omega (arith, step fuel m id index v used)) e
    ]
  ]

  pub next_index-first :
      (m : Map (ℕ × ℕ) V) (id : ℕ)
      → (load m (id, next_index m id) ≡ none)
        × ((j : ℕ) → j < next_index m id → load m (id, j) ≢ none)
  unfolding next_index
  next_index-first m id = (
    index_loop-free (length m + 1) m id 0 (omega (arith, from_index-le m id 0)),
    λ j h. index_loop-used (length m + 1) m id 0 j (omega arith) h,
  )

  -- For every collection of records and every id, the index that the loop finds is free, and it is
  -- not above any free index.
  pub next_index-least :
      (m : Map (ℕ × ℕ) V) (id j : ℕ)
      → load m (id, j) ≡ none
      → (load m (id, next_index m id) ≡ none) × (next_index m id ≤ j)
  next_index-least m id j free =
      let first = next_index-first m id in
      (
        first.0,
        elim (Bool-cases (ltb j (next_index m id))) [
          | inl t ↦ absurd (first.1 j (ltb→lt j (next_index m id) t) free)
          | inr t ↦ ground (arith, t)
        ],
      )
