-- ===== src/Subgraph/Ilrm/Frame.antt =====
-- Which entities an event of the ILRM contract touches.
use ilr_module.Prelude.{ℕ, ◌≡◌, ap, ◌∙◌, Option, none, some}
use ilr_module.Subgraph.Map.{load, nat_key, pair_key}
use ilr_module.Subgraph.Schema.{Store, Context, Dispute}
use ilr_module.Subgraph.Ilrm.{with_dispute, on_found}
use ilr_module.Subgraph.Ilrm.Lifecycle.{
  handle_stake_deposited, handle_proposal_submitted, handle_acceptance_signaled,
  handle_counter_proposed,
}
use ilr_module.Subgraph.Ilrm.Resolution.{
  handle_stakes_burned, handle_default_license_applied, handle_dispute_resolved,
  handle_zk_identity_registered, handle_fido_acceptance, handle_did_associated_with_dispute,
}
use ilr_module.Subgraph.Ilrm.Events.{
  Event, dispute_initiated, stake_deposited, proposal_submitted, acceptance_signaled,
  counter_proposed, stakes_burned, default_license, dispute_resolved, score_updated, zk_identity,
  fido_acceptance, did_associated, handle,
}

-- The dispute that an event other than the initiation names.
abbrev pub update_of : Event → Option ℕ
update_of (dispute_initiated id a b h) = none
update_of (stake_deposited id party amount) = some id
update_of (proposal_submitted id content) = some id
update_of (acceptance_signaled id party) = some id
update_of (counter_proposed id party n) = some id
update_of (stakes_burned id amount) = some id
update_of (default_license id) = some id
update_of (dispute_resolved id outcome) = some id
update_of (score_updated party old new) = none
update_of (zk_identity id hash first) = some id
update_of (fido_acceptance id) = some id
update_of (did_associated id did first) = some id

unknown_dispute :
    (s : Store) (id j : ℕ) (body : Dispute → Store)
    → load s.disputes id ≡ none
    → some j ≡ some id
    → with_dispute s j body ≡ s
unfolding with_dispute on_found
unknown_dispute s id j body e p =
    let same : j ≡ id = cc in
    ap (λ (o : Option Dispute). on_found s o body) (ap (load s.disputes) same ∙ e)

-- An event about a dispute that was never initiated changes nothing.
pub handle-unknown :
    (c : Context) (e : Event) (s : Store) (id : ℕ)
    → update_of e ≡ some id
    → load s.disputes id ≡ none
    → handle c e s ≡ s
unfolding handle
handle-unknown c (dispute_initiated i a b h) s id p n = cc
handle-unknown c (stake_deposited i party amount) s id p n =
    unfold handle_stake_deposited in unknown_dispute s id i _ n p
handle-unknown c (proposal_submitted i content) s id p n =
    unfold handle_proposal_submitted in unknown_dispute s id i _ n p
handle-unknown c (acceptance_signaled i party) s id p n =
    unfold handle_acceptance_signaled in unknown_dispute s id i _ n p
handle-unknown c (counter_proposed i party k) s id p n =
    unfold handle_counter_proposed in unknown_dispute s id i _ n p
handle-unknown c (stakes_burned i amount) s id p n =
    unfold handle_stakes_burned in unknown_dispute s id i _ n p
handle-unknown c (default_license i) s id p n =
    unfold handle_default_license_applied in unknown_dispute s id i _ n p
handle-unknown c (dispute_resolved i outcome) s id p n =
    unfold handle_dispute_resolved in unknown_dispute s id i _ n p
handle-unknown c (score_updated party old new) s id p n = cc
handle-unknown c (zk_identity i hash first) s id p n =
    unfold handle_zk_identity_registered in unknown_dispute s id i _ n p
handle-unknown c (fido_acceptance i) s id p n =
    unfold handle_fido_acceptance in unknown_dispute s id i _ n p
handle-unknown c (did_associated i did first) s id p n =
    unfold handle_did_associated_with_dispute in unknown_dispute s id i _ n p
