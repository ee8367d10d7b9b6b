-- ===== src/Subgraph/Ilrm/Events.antt =====
-- The events of the ILRM contract, and the handler that subgraph/subgraph.yaml names for each.
use Prim.Native.String.{String}
use ilr_module.Prelude.{ℕ, Bool, List, [], ◌∷◌}
use ilr_module.Subgraph.Schema.{Store, Context}
use ilr_module.Subgraph.Ilrm.{handle_dispute_initiated}
use ilr_module.Subgraph.Ilrm.Lifecycle.{
  handle_stake_deposited, handle_proposal_submitted, handle_acceptance_signaled,
  handle_counter_proposed,
}
use ilr_module.Subgraph.Ilrm.Resolution.{
  handle_stakes_burned, handle_default_license_applied, handle_dispute_resolved,
  handle_harassment_score_updated, handle_zk_identity_registered, handle_fido_acceptance,
  handle_did_associated_with_dispute,
}

pub data Event : Type 0 where
  dispute_initiated : ℕ → ℕ → ℕ → ℕ → Event
  stake_deposited : ℕ → ℕ → ℕ → Event
  proposal_submitted : ℕ → String → Event
  acceptance_signaled : ℕ → ℕ → Event
  counter_proposed : ℕ → ℕ → ℕ → Event
  stakes_burned : ℕ → ℕ → Event
  default_license : ℕ → Event
  dispute_resolved : ℕ → ℕ → Event
  score_updated : ℕ → ℕ → ℕ → Event
  zk_identity : ℕ → ℕ → Bool → Event
  fido_acceptance : ℕ → Event
  did_associated : ℕ → ℕ → Bool → Event

unfoldable pub handle : Context → Event → Store → Store
handle c (dispute_initiated id a b h) s = handle_dispute_initiated c id a b h s
handle c (stake_deposited id party amount) s = handle_stake_deposited c id party amount s
handle c (proposal_submitted id content) s = handle_proposal_submitted c id content s
handle c (acceptance_signaled id party) s = handle_acceptance_signaled c id party s
handle c (counter_proposed id party n) s = handle_counter_proposed c id party n s
handle c (stakes_burned id amount) s = handle_stakes_burned c id amount s
handle c (default_license id) s = handle_default_license_applied c id s
handle c (dispute_resolved id outcome) s = handle_dispute_resolved c id outcome s
handle c (score_updated party old new) s = handle_harassment_score_updated c party old new s
handle c (zk_identity id hash first) s = handle_zk_identity_registered c id hash first s
handle c (fido_acceptance id) s = handle_fido_acceptance c id s
handle c (did_associated id did first) s = handle_did_associated_with_dispute c id did first s

-- The events of a chain, in order.
unfoldable pub index_all : List (Context × Event) → Store → Store
index_all [] s = s
index_all ((c, e) ∷ rest) s = index_all rest (handle c e s)
