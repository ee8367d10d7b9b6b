-- ===== src/Subgraph/Assets/Freezes.antt =====
-- The freeze records of an asset: numbered without gaps, and ended by the unfreezing that follows.
use native.Mathlib.Decide.{ℕ_discrete}
use ilr_module.Prelude.{
  ℕ, ◌+◌, ◌≤◌, ◌<◌, ◌≡◌, refl, sym, ap, ◌∙◌, subst, true, false, Option, none, some, List, [], ◌∷◌,
  length, arith,
}
use ilr_module.Subgraph.Map.{Map, load, save, nat_key, pair_key, load-save, load-save_self}
use ilr_module.Subgraph.Index.{next_index, next_index-first, from_index-le}
use ilr_module.Subgraph.Schema.{Store, Context, Asset, AssetFreeze}
use ilr_module.Subgraph.Ilrm.{on_found}
use ilr_module.Subgraph.Assets.{
  save_asset, new_freeze, handle_asset_frozen, last_open_loop, last_open, end_freeze,
  handle_asset_unfrozen, handle_asset_registered, handle_fallback_license_applied_to_asset,
  find_or_create_party,
}
use ilr_module.Subgraph.Assets.LastOpen.{last_open_loop-last, Found, loop-Found}

-- No record of `id` follows a free index.
pub record IsContiguous (m : Map (ℕ × ℕ) AssetFreeze) (id : ℕ) : Type 0 where
  pub below : (i j : ℕ) → i ≤ j → load m (id, i) ≡ none → load m (id, j) ≡ none

-- Saving at the first free index leaves no gap.
save-IsContiguous :
    (m : Map (ℕ × ℕ) AssetFreeze) (a id : ℕ) (f : AssetFreeze)
    → IsContiguous m id
    → IsContiguous (save m (a, next_index m a) f) id
save-IsContiguous m a id f h = record {
  below = λ i j l e.
      let at_i = load-save m (a, next_index m a) (id, i) f in
      let at_j = load-save m (a, next_index m a) (id, j) f in
      elim (ℕ_discrete a id) [
        | no n ↦ ground (arith, at_i, at_j, h.below i j l, n)
        | yes same ↦
            let first = next_index-first m a in
            elim (ℕ_discrete (next_index m a) i) [
              | yes k ↦ absurd (ground (arith, at_i))
              | no k ↦
                  let free : load m (id, i) ≡ none = ground (arith, at_i) in
                  let above : ¬ (i < next_index m a) =
                    λ p. first.1 i p (ap (λ x. load m (x, i)) same ∙ free) in
                  ground (arith, at_j, h.below i j l free, above)
            ]
      ];
}

replace-IsContiguous :
    (m : Map (ℕ × ℕ) AssetFreeze) (a k id : ℕ) (g f : AssetFreeze)
    → load m (a, k) ≡ some g
    → IsContiguous m id
    → IsContiguous (save m (a, k) f) id
replace-IsContiguous m a k id g f e h = record {
  below = λ i j l free.
      let at_i = load-save m (a, k) (id, i) f in
      let at_j = load-save m (a, k) (id, j) f in
      let was_free : load m (id, i) ≡ none = ground (arith, at_i) in
      ground (arith, at_j, h.below i j l was_free, e);
}

end_freeze-IsContiguous :
    (c : Context) (a id : ℕ) (s : Store) (o : Option (ℕ × AssetFreeze))
    → Found s.freezes a o
    → IsContiguous s.freezes id
    → IsContiguous (end_freeze c a s o).freezes id
end_freeze-IsContiguous c a id s none e h = h
end_freeze-IsContiguous c a id s (some (k, f)) e h =
    replace-IsContiguous s.freezes a k id f (record f { unfrozen_at = some c.timestamp }) e h

on_asset :
    (s : Store) (id : ℕ) (o : Option Asset) (body : Asset → Store)
    → IsContiguous s.freezes id
    → ((asset : Asset) → IsContiguous (body asset).freezes id)
    → IsContiguous (on_found s o body).freezes id
unfolding on_found
on_asset s id none body h k = h
on_asset s id (some asset) body h k = k asset

-- The freeze events of the AssetRegistry contract, and their handlers.
pub data FreezeEvent : Type 0 where
  asset_registered : ℕ → ℕ → ℕ → FreezeEvent
  asset_frozen : ℕ → ℕ → FreezeEvent
  asset_unfrozen : ℕ → FreezeEvent
  fallback_license_applied : ℕ → ℕ → FreezeEvent

unfoldable pub handle : Context → FreezeEvent → Store → Store
handle c (asset_registered a owner h) s = handle_asset_registered c a owner h s
handle c (asset_frozen a d) s = handle_asset_frozen c a d s
handle c (asset_unfrozen a) s = handle_asset_unfrozen c a s
handle c (fallback_license_applied a t) s = handle_fallback_license_applied_to_asset c a t s

unfoldable pub index_all : List (Context × FreezeEvent) → Store → Store
index_all [] s = s
index_all ((c, e) ∷ rest) s = index_all rest (handle c e s)

party-freezes :
    (s : Store) (id timestamp : ℕ) → (find_or_create_party s id timestamp).1.freezes ≡ s.freezes
unfolding find_or_create_party
party-freezes s id timestamp = ground arith

handle-IsContiguous :
    (c : Context) (e : FreezeEvent) (s : Store) (id : ℕ)
    → IsContiguous s.freezes id
    → IsContiguous (handle c e s).freezes id
unfolding handle
handle-IsContiguous c (asset_registered a owner hash) s id h =
    unfold handle_asset_registered in
    subst (λ m. IsContiguous m id) (sym (party-freezes s owner c.timestamp)) h
handle-IsContiguous c (asset_frozen a d) s id h =
    unfold handle_asset_frozen in
    on_asset s id (load s.assets a) _ h
      (λ asset. save-IsContiguous s.freezes a id (new_freeze c a d) h)
handle-IsContiguous c (asset_unfrozen a) s id h =
    unfold handle_asset_unfrozen last_open in
    on_asset s id (load s.assets a) _ h (λ asset.
      end_freeze-IsContiguous c a id
        (save_asset s a (record asset { frozen = false; frozen_by_dispute = none }))
        (last_open_loop (length s.freezes + 1) s.freezes a 0 none)
        (loop-Found (length s.freezes + 1) s.freezes a 0 none tt) h)
handle-IsContiguous c (fallback_license_applied a t) s id h =
    unfold handle_fallback_license_applied_to_asset in
    on_asset s id (load s.assets a) _ h (λ asset. h)

-- Whatever the events of the AssetRegistry contract, the freeze records of an asset that are numbered
-- from 0 without gaps in a store stay so.
pub index_all-IsContiguous :
    (events : List (Context × FreezeEvent)) (s : Store) (id : ℕ)
    → IsContiguous s.freezes id
    → IsContiguous (index_all events s).freezes id
unfolding index_all
index_all-IsContiguous [] s id h = h
index_all-IsContiguous ((c, e) ∷ rest) s id h =
    index_all-IsContiguous rest (handle c e s) id (handle-IsContiguous c e s id h)

-- A freeze of a registered asset that is followed by its unfreezing, in a store without gaps, leaves
-- the asset not frozen, and ends the record that the freeze has made, under the first free index.
pub unfrozen-frozen :
    (c later : Context) (a dispute : ℕ) (s : Store) (asset : Asset)
    → load s.assets a ≡ some asset
    → IsContiguous s.freezes a
    → (load (handle_asset_unfrozen later a (handle_asset_frozen c a dispute s)).assets a
        ≡ some (record asset { frozen = false; frozen_by_dispute = none }))
      × (load
            (handle_asset_unfrozen later a (handle_asset_frozen c a dispute s)).freezes
            (a, next_index s.freezes a)
          ≡ some (record (new_freeze c a dispute) { unfrozen_at = some later.timestamp }))
unfolding handle_asset_unfrozen handle_asset_frozen on_found last_open
unfrozen-frozen c later a dispute s asset e h =
    let n = next_index s.freezes a in
    let f = new_freeze c a dispute in
    let m = save s.freezes (a, n) f in
    let first = next_index-first s.freezes a in
    let frozen : Asset = record asset { frozen = true; frozen_by_dispute = some dispute } in
    let found : last_open_loop (length m + 1) m a 0 none ≡ some (n, f) =
      last_open_loop-last (length m + 1) m a 0 n none f (omega (arith, from_index-le m a 0))
        (omega arith)
        (λ j p q. first.1 j p (ground (arith, load-save s.freezes (a, n) (a, j) f, q)))
        (load-save_self s.freezes (a, n) f) refl
        (ground (
          arith,
          load-save s.freezes (a, n) (a, n + 1) f,
          h.below n (n + 1) (omega arith) first.0,
        )) in
    rw (e, load-save_self s.assets a frozen, found)
      (
        load-save_self (save s.assets a frozen) a
            (record asset { frozen = false; frozen_by_dispute = none }),
        load-save_self m (a, n) (record f { unfrozen_at = some later.timestamp }),
      )
