-- ===== src/Subgraph/Schema.antt =====
-- The entities of the subgraph (subgraph/schema.graphql, as subgraph/src uses them), and the store.
-- Addresses, hashes and ids are numbers; a BigInt that comes from a uint256 is a number; an i32
-- counter is its bit pattern, a number below 2 ^ 32.
use Prim.Native.String.{String}
use ilr_module.Prelude.{ℕ, ◌+◌, ◌%◌, ◌^◌, ◌/◌, ◌*◌, Bool, Option, none, List, []}
use ilr_module.Prelude.Int.{ℤ}
use ilr_module.Subgraph.Map.{Map}

-- `n + 1` on an i32.
abbrev pub inc : ℕ → ℕ
inc n = (n + 1) % 2 ^ 32

-- `timestamp.div(86400).times(86400)`
abbrev pub day_of : ℕ → ℕ
day_of timestamp = timestamp / 86400 * 86400

pub data DisputeState : Type 0 where
  initiated active resolved : DisputeState

pub data Outcome : Type 0 where
  pending accepted_proposal timeout_with_burn default_license_applied : Outcome

pub record Party : Type 0 where
  pub total_disputes : ℕ
  pub disputes_resolved : ℕ
  pub disputes_timed_out : ℕ
  pub total_staked : ℕ
  pub total_burned : ℕ
  pub harassment_score : ℕ
  pub total_subsidies_received : ℕ
  pub first_seen : ℕ
  pub last_active : ℕ

pub record Dispute : Type 0 where
  pub initiator : ℕ
  pub counterparty : ℕ
  pub initiator_stake : ℕ
  pub counterparty_stake : ℕ
  pub start_time : ℕ
  pub start_block : ℕ
  pub evidence_hash : ℕ
  pub state : DisputeState
  pub outcome : Option Outcome
  pub initiator_accepted : Bool
  pub counterparty_accepted : Bool
  pub counter_count : ℕ
  pub burn_amount : Option ℕ
  pub resolved_at : Option ℕ
  pub resolved_tx : Option ℕ
  pub zk_mode_enabled : Bool
  pub initiator_zk_identity : Option ℕ
  pub counterparty_zk_identity : Option ℕ
  pub initiator_did : Option ℕ
  pub counterparty_did : Option ℕ
  pub fido_used : Bool
  pub created_at : ℕ
  pub updated_at : ℕ

pub record Proposal : Type 0 where
  pub dispute : ℕ
  pub content : String
  pub submitter : ℕ
  pub timestamp : ℕ
  pub tx_hash : ℕ
  pub index : ℕ

-- `evidenceHash` is saved empty and `feePaid` zero: the event does not carry them.
pub record Counter : Type 0 where
  pub dispute : ℕ
  pub party : ℕ
  pub evidence_hash : List ℕ
  pub counter_number : ℕ
  pub fee_paid : ℕ
  pub timestamp : ℕ
  pub tx_hash : ℕ

pub record HarassmentScore : Type 0 where
  pub party : ℕ
  pub old_score : ℕ
  pub new_score : ℕ
  pub timestamp : ℕ
  pub tx_hash : ℕ

pub record DailyMetric : Type 0 where
  pub date : ℕ
  pub disputes_initiated : ℕ
  pub disputes_resolved : ℕ
  pub disputes_timed_out : ℕ
  pub total_staked : ℕ
  pub total_burned : ℕ
  pub total_subsidies : ℕ
  pub unique_participants : ℕ
  pub counter_proposals : ℕ
  pub proposals : ℕ
  pub l3_batches : ℕ

pub record ProtocolMetric : Type 0 where
  pub total_disputes : ℕ
  pub active_disputes : ℤ
  pub resolved_disputes : ℕ
  pub timed_out_disputes : ℕ
  pub total_value_staked : ℕ
  pub total_value_burned : ℕ
  pub total_subsidies_distributed : ℕ
  pub unique_participants : ℕ
  pub total_counter_proposals : ℕ
  pub total_l3_batches : ℕ
  pub avg_resolution_blocks : ℕ
  pub last_updated_block : ℕ

pub record TreasuryMetric : Type 0 where
  pub date : ℕ
  pub total_subsidies : ℕ
  pub total_burns : ℕ
  pub total_received : ℕ
  pub subsidy_count : ℕ
  pub burn_count : ℕ
  pub subsidy_cap : ℕ
  pub burn_cap : ℕ

pub record Subsidy : Type 0 where
  pub recipient : ℕ
  pub distributor : ℕ
  pub amount : ℕ
  pub reason : String
  pub timestamp : ℕ
  pub tx_hash : ℕ

pub record Burn : Type 0 where
  pub amount : ℕ
  pub reason : String
  pub timestamp : ℕ
  pub tx_hash : ℕ

pub record Asset : Type 0 where
  pub owner : ℕ
  pub content_hash : ℕ
  pub registered_at : ℕ
  pub frozen : Bool
  pub frozen_by_dispute : Option ℕ

pub record AssetFreeze : Type 0 where
  pub asset : ℕ
  pub dispute_id : ℕ
  pub frozen_at : ℕ
  pub unfrozen_at : Option ℕ
  pub tx_hash : ℕ

-- `licenseType` is always "FALLBACK" and `isFallback` always true.
pub record License : Type 0 where
  pub asset : ℕ
  pub terms_hash : ℕ
  pub license_type : String
  pub granted_at : ℕ
  pub is_fallback : Bool

-- The fields of a request are absent in a proposal that a handler creates without one.
pub record OracleProposal : Type 0 where
  pub requester : Option ℕ
  pub evidence_hash : Option ℕ
  pub requested_at : ℕ
  pub submitted_at : Option ℕ
  pub proposal : Option String
  pub submitter : Option ℕ
  pub was_reset : Bool
  pub reset_reason : Option String

pub record OracleMetric : Type 0 where
  pub date : ℕ
  pub proposals_requested : ℕ
  pub proposals_submitted : ℕ
  pub proposals_reset : ℕ
  pub avg_response_blocks : ℤ

pub data BatchStatus : Type 0 where
  waiting finalized reverted : BatchStatus

pub record L3Batch : Type 0 where
  pub state_root : ℕ
  pub dispute_count : ℕ
  pub submitter : ℕ
  pub submitted_at : ℕ
  pub finalized_at : Option ℕ
  pub challenged : Bool
  pub challenge_succeeded : Option Bool
  pub status : BatchStatus

pub record L3Metric : Type 0 where
  pub date : ℕ
  pub batches_submitted : ℕ
  pub batches_finalized : ℕ
  pub challenges_initiated : ℕ
  pub challenges_succeeded : ℕ
  pub total_disputes_batched : ℕ

-- `resolvedAt` and `succeeded` are never set.
pub record FraudProofChallenge : Type 0 where
  pub batch : ℕ
  pub challenger : ℕ
  pub initiated_at : ℕ
  pub tx_hash : ℕ

-- The score records of ilrm.ts have the ids `party-block`, those of treasury.ts
-- `party-treasury-block`. The protocol metric is the one entity with the id "protocol".
pub record Store : Type 0 where
  pub parties : Map ℕ Party
  pub disputes : Map ℕ Dispute
  pub proposals : Map (ℕ × ℕ) Proposal
  pub counters : Map (ℕ × ℕ) Counter
  pub scores : Map (ℕ × ℕ) HarassmentScore
  pub treasury_scores : Map (ℕ × ℕ) HarassmentScore
  pub daily : Map ℕ DailyMetric
  pub protocol : Option ProtocolMetric
  pub treasury : Map ℕ TreasuryMetric
  pub subsidies : Map ℕ Subsidy
  pub burns : Map (ℕ × ℕ) Burn
  pub assets : Map ℕ Asset
  pub freezes : Map (ℕ × ℕ) AssetFreeze
  pub licenses : Map (ℕ × ℕ) License
  pub oracle_proposals : Map ℕ OracleProposal
  pub oracle_metrics : Map ℕ OracleMetric
  pub batches : Map ℕ L3Batch
  pub l3_metrics : Map ℕ L3Metric
  pub challenges : Map (ℕ × ℕ) FraudProofChallenge

abbrev pub empty : Store
empty = record {
  parties = [];
  disputes = [];
  proposals = [];
  counters = [];
  scores = [];
  treasury_scores = [];
  daily = [];
  protocol = none;
  treasury = [];
  subsidies = [];
  burns = [];
  assets = [];
  freezes = [];
  licenses = [];
  oracle_proposals = [];
  oracle_metrics = [];
  batches = [];
  l3_metrics = [];
  challenges = [];
}

-- The block and the transaction of an event.
pub record Context : Type 0 where
  pub timestamp : ℕ
  pub block : ℕ
  pub tx_from : ℕ
  pub tx_hash : ℕ
  pub log_index : ℕ
