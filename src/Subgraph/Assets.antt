-- ===== src/Subgraph/Assets.antt =====
-- The handlers of subgraph/src/assetregistry.ts: assets, their freezes and their licences.
mod LastOpen
pub mod Freezes
use ilr_module.Prelude.{
  ℕ, zero, suc, ◌+◌, Bool, true, false, Option, none, some, List, [], ◌∷◌, length,
}
use ilr_module.Subgraph.Map.{Map, load, save, nat_key, pair_key}
use ilr_module.Subgraph.Index.{next_index}
use ilr_module.Subgraph.Schema.{Store, Context, Party, Asset, AssetFreeze, License}
use ilr_module.Subgraph.Ilrm.{new_party, save_party, on_found, or_new_party}

-- getOrCreateParty of assetregistry.ts: a new party is saved at once, a known one is left as it is.
unfoldable pub find_or_create_party : Store → ℕ → ℕ → Party × Store
find_or_create_party s id timestamp = elim (load s.parties id) [
  | none ↦ (new_party timestamp, save_party s id (new_party timestamp))
  | some party ↦ (party, s)
]

abbrev pub save_asset : Store → ℕ → Asset → Store
save_asset s id asset = record s { assets = save s.assets id asset }

abbrev pub save_freeze : Store → ℕ × ℕ → AssetFreeze → Store
save_freeze s id freeze = record s { freezes = save s.freezes id freeze }

unfoldable pub handle_asset_registered : Context → ℕ → ℕ → ℕ → Store → Store
handle_asset_registered c asset_id owner content_hash s =
    let (party, s') = find_or_create_party s owner c.timestamp in
    let s'' = save_party s' owner (record party { last_active = c.timestamp }) in
    save_asset s'' asset_id (record {
      owner = owner;
      content_hash = content_hash;
      registered_at = c.timestamp;
      frozen = false;
      frozen_by_dispute = none;
    })

abbrev pub new_freeze : Context → ℕ → ℕ → AssetFreeze
new_freeze c asset_id dispute_id = record {
  asset = asset_id;
  dispute_id = dispute_id;
  frozen_at = c.timestamp;
  unfrozen_at = none;
  tx_hash = c.tx_hash;
}

unfoldable pub handle_asset_frozen : Context → ℕ → ℕ → Store → Store
handle_asset_frozen c asset_id dispute_id s = on_found s (load s.assets asset_id) λ asset.
    let s' =
      save_asset s asset_id (record asset { frozen = true; frozen_by_dispute = some dispute_id }) in
    save_freeze s' (asset_id, next_index s'.freezes asset_id) (new_freeze c asset_id dispute_id)

-- The last freeze found with no end so far, with its index.
abbrev pub open_or : Option (ℕ × AssetFreeze) → ℕ → AssetFreeze → Option (ℕ × AssetFreeze)
open_or last index freeze = elim freeze.unfrozen_at [ none ↦ some (index, freeze) | some t ↦ last ]

-- The loop of handleAssetUnfrozen on fuel; as in next_index, one round more than there are records
-- is enough.
unfoldable pub last_open_loop :
    ℕ → Map (ℕ × ℕ) AssetFreeze → ℕ → ℕ → Option (ℕ × AssetFreeze) → Option (ℕ × AssetFreeze)
last_open_loop zero m id index last = last
last_open_loop (suc fuel) m id index last = elim (load m (id, index)) [
  | none ↦ last
  | some freeze ↦ last_open_loop fuel m id (index + 1) (open_or last index freeze)
]

unfoldable pub last_open : Map (ℕ × ℕ) AssetFreeze → ℕ → Option (ℕ × AssetFreeze)
last_open m id = last_open_loop (length m + 1) m id 0 none

abbrev pub end_freeze : Context → ℕ → Store → Option (ℕ × AssetFreeze) → Store
end_freeze c asset_id s none = s
end_freeze c asset_id s (some (index, freeze)) =
    save_freeze s (asset_id, index) (record freeze { unfrozen_at = some c.timestamp })

unfoldable pub handle_asset_unfrozen : Context → ℕ → Store → Store
handle_asset_unfrozen c asset_id s = on_found s (load s.assets asset_id) λ asset.
    let s' = save_asset s asset_id (record asset { frozen = false; frozen_by_dispute = none }) in
    end_freeze c asset_id s' (last_open s'.freezes asset_id)

unfoldable pub handle_fallback_license_applied_to_asset : Context → ℕ → ℕ → Store → Store
handle_fallback_license_applied_to_asset c asset_id terms_hash s =
    on_found s (load s.assets asset_id) λ asset. record s {
      licenses =
          save s.licenses (asset_id, next_index s.licenses asset_id)
            (record {
              asset = asset_id;
              terms_hash = terms_hash;
              license_type = "FALLBACK";
              granted_at = c.timestamp;
              is_fallback = true;
            });
    }
