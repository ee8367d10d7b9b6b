-- ===== src/Subgraph/Tests.antt =====
-- Runs of the event handlers.
use ilr_module.Prelude.{
  ℕ, ◌+◌, ◌≤◌, ◌≡◌, refl, true, false, List, [], ◌∷◌, none, some, if◌then◌else◌,
}
use ilr_module.Subgraph.Map.{Map, load, nat_key, pair_key, pair_same}
use ilr_module.Subgraph.Index.{next_index, next_index-least}
use ilr_module.Subgraph.Schema.{Store, Context, Asset, Dispute, Proposal, empty}
use ilr_module.Subgraph.Ilrm.{new_dispute, or_new_protocol, get_or_create_protocol_metric}
use ilr_module.Subgraph.Ilrm.Lifecycle.{handle_proposal_submitted, reset_acceptances}
use ilr_module.Subgraph.Ilrm.Events
use ilr_module.Subgraph.Ilrm.Events.{
  dispute_initiated, dispute_resolved, stakes_burned, stake_deposited,
}
use ilr_module.Subgraph.Ilrm.Accounting.{IsBalanced}
use ilr_module.Subgraph.Ilrm.Known.{tally_of}
use ilr_module.Subgraph.Ilrm.Counts.{replay, disputes_counted}
use ilr_module.Subgraph.Ilrm.Frame.{handle-unknown}
use ilr_module.Subgraph.Ilrm.Proposals.{proposal_submitted-kept}
use ilr_module.Subgraph.Assets.{handle_asset_frozen, handle_asset_unfrozen, new_freeze}
use ilr_module.Subgraph.Assets.Freezes
use ilr_module.Subgraph.Assets.Freezes.{
  IsContiguous, asset_registered, asset_frozen, asset_unfrozen, index_all-IsContiguous,
  unfrozen-frozen,
}
use ilr_module.Subgraph.Oracle
use ilr_module.Subgraph.Oracle.{requested, submitted, withdrawn, handle_proposal_submitted_to_ilrm}
use ilr_module.Subgraph.Oracle.Submissions
use ilr_module.Subgraph.Oracle.Submissions.{
  submission, recorded, expected, is_asked, index_all-submission,
}
use ilr_module.Subgraph.Bridge
use ilr_module.Subgraph.Bridge.{
  batch_submitted, batch_finalized, challenge_initiated, challenge_resolved,
}
use ilr_module.Subgraph.Bridge.Status
use ilr_module.Subgraph.Bridge.Status.{status_of, last_status, index_all-status}
use ilr_module.Subgraph.Treasury
use ilr_module.Subgraph.Treasury.{subsidy_funded, treasury_received, harassment_updated}
use ilr_module.Subgraph.Treasury.Subsidies
use ilr_module.Subgraph.Treasury.Subsidies.{subsidies_agree, received}

abbrev at : ℕ → Context
at n = record { timestamp = 86400 + n; block = n; tx_from = 10; tx_hash = 1000 + n; log_index = 0 }

abbrev events : List (Context × Events.Event)
events =
    (at 1, dispute_initiated 1 10 11 99)
    ∷ (at 2, dispute_initiated 2 10 12 98)
    ∷ (at 3, dispute_resolved 1 1)
    ∷ (at 4, dispute_resolved 7 2)
    ∷ []

disputes_counted_example :
    let m = or_new_protocol (Events.index_all events empty).protocol in
    (tally_of m ≡ replay events (λ id. false) (0, (0, 0))) × IsBalanced m
disputes_counted_example = disputes_counted events

-- The resolution of a dispute that was not initiated is not counted.
events_tally : replay events (λ id. false) (0, (0, 0)) ≡ (2, (1, 0))
events_tally = refl

abbrev asset : Asset
asset = record {
  owner = 10;
  content_hash = 77;
  registered_at = 5;
  frozen = false;
  frozen_by_dispute = none;
}

abbrev one_asset : Store
one_asset = record empty { assets = (3, asset) ∷ [] }

one_asset-load : load one_asset.assets 3 ≡ some asset
unfolding load
one_asset-load = refl

no_freezes : (id : ℕ) → IsContiguous [] id
unfolding load
no_freezes id = record { below = λ i j l e. refl }

unfrozen-frozen_example :
    (load (handle_asset_unfrozen (at 9) 3 (handle_asset_frozen (at 8) 3 1 one_asset)).assets 3
      ≡ some asset)
    × (load
          (handle_asset_unfrozen (at 9) 3 (handle_asset_frozen (at 8) 3 1 one_asset)).freezes
          (3, next_index one_asset.freezes 3)
        ≡ some (record (new_freeze (at 8) 3 1) { unfrozen_at = some 86409 }))
unfrozen-frozen_example =
    unfrozen-frozen (at 8) (at 9) 3 1 one_asset asset one_asset-load (no_freezes 3)

abbrev freezes : List (Context × Freezes.FreezeEvent)
freezes =
    (at 1, asset_registered 3 10 77)
    ∷ (at 2, asset_frozen 3 1)
    ∷ (at 3, asset_unfrozen 3)
    ∷ (at 4, asset_frozen 3 2)
    ∷ []

index_all-IsContiguous_example : IsContiguous (Freezes.index_all freezes empty).freezes 3
index_all-IsContiguous_example = index_all-IsContiguous freezes empty 3 (no_freezes 3)

abbrev grants : List (Context × Treasury.Event)
grants =
    (at 1, subsidy_funded 10 50 700 "hardship")
    ∷ (at 2, harassment_updated 11 0 5)
    ∷ (at 3, subsidy_funded 10 50 300 "hardship")
    ∷ []

subsidies_agree_example :
    (get_or_create_protocol_metric (Subsidies.index_all grants empty)).total_subsidies_distributed
    ≡ received (Subsidies.index_all grants empty).parties
subsidies_agree_example = subsidies_agree grants

abbrev records : Map (ℕ × ℕ) ℕ
records = ((4, 0), 7) ∷ ((5, 0), 6) ∷ ((4, 1), 8) ∷ []

third_free : load records (4, 2) ≡ none
unfolding load
third_free = refl

next_index-least_example :
    (load records (4, next_index records 4) ≡ none) × (next_index records 4 ≤ 2)
next_index-least_example = next_index-least records 4 2 third_free

abbrev dispute : Dispute
dispute = new_dispute (at 0) 10 11 99

abbrev one_dispute : Store
one_dispute = record empty { disputes = (1, dispute) ∷ [] }

one_dispute-load : load one_dispute.disputes 1 ≡ some dispute
unfolding load
one_dispute-load = refl

-- The first proposal of a dispute.
abbrev proposal : Proposal
proposal = record {
  dispute = 1;
  content = "first";
  submitter = 10;
  timestamp = 86405;
  tx_hash = 1005;
  index = next_index one_dispute.proposals 1;
}

proposal_submitted-kept_example :
    let t = handle_proposal_submitted (at 5) 1 "first" one_dispute in
    (load one_dispute.proposals (1, next_index one_dispute.proposals 1) ≡ none)
    × (load t.proposals (1, 0) ≡ (
        if pair_same (1, next_index one_dispute.proposals 1) (1, 0)
        then some proposal
        else load one_dispute.proposals (1, 0)))
    × (load t.disputes 1 ≡ some (record (reset_acceptances dispute) { updated_at = 86405 }))
proposal_submitted-kept_example =
    proposal_submitted-kept (at 5) 1 "first" one_dispute dispute (1, 0) one_dispute-load

no_dispute : load empty.disputes 1 ≡ none
unfolding load
no_dispute = refl

handle-unknown_example : Events.handle (at 2) (stakes_burned 1 500) empty ≡ empty
handle-unknown_example = handle-unknown (at 2) (stakes_burned 1 500) empty 1 refl no_dispute

abbrev answers : List (Context × Oracle.Event)
answers =
    (at 1, requested 1 10 99)
    ∷ (at 2, submitted 1 "split" 20)
    ∷ (at 3, withdrawn 1 "stale")
    ∷ (at 4, submitted 1 "settle" 20)
    ∷ []

index_all-submission_example :
    recorded (Submissions.index_all answers empty) 1
    ≡ expected answers (is_asked empty) 1 (submission empty 1)
index_all-submission_example = index_all-submission answers empty 1

answers_indexed : expected answers (is_asked empty) 1 none ≡ some (some 86404)
unfolding load
answers_indexed = refl

-- An answer to a question that was not asked ends the indexing.
never_asked : recorded (Submissions.index_all ((at 1, submitted 1 "split" 20) ∷ []) empty) 1 ≡ none
unfolding Submissions.index_all Oracle.handle handle_proposal_submitted_to_ilrm load
never_asked = refl

abbrev batches : List (Context × Bridge.Event)
batches =
    (at 1, batch_submitted 1 55 12 20)
    ∷ (at 2, challenge_initiated 1 30)
    ∷ (at 3, challenge_resolved 1 true)
    ∷ (at 4, batch_finalized 2)
    ∷ []

index_all-status_example :
    status_of (Status.index_all batches empty) 1 ≡ last_status batches 1 (status_of empty 1)
index_all-status_example = index_all-status batches empty 1
