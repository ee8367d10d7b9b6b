-- ===== src/Subgraph/Ilrm.antt =====
-- subgraph/src/ilrm.ts: helpers, and the handlers up to the counter-proposals.
pub mod Lifecycle
pub mod Resolution
pub mod Events
pub mod Accounting
pub mod Known
pub mod Counts
pub mod Frame
pub mod Proposals
use Prim.Native.String.{String}
use ilr_module.Prelude.{ℕ, ◌+◌, ◌/◌, ◌==◌, if◌then◌else◌, Bool, true, false, Option, none, some, []}
use ilr_module.Prelude.Int.{ℤ, pos, ◌+ℤ◌}
use ilr_module.Subgraph.Map.{Map, load, save, nat_key, pair_key}
use ilr_module.Subgraph.Index.{next_index}
use ilr_module.Subgraph.Schema.{
  Store, Context, Party, Dispute, Proposal, Counter, DailyMetric, ProtocolMetric, inc, day_of,
  initiated, active,
}

abbrev pub new_party : ℕ → Party
new_party timestamp = record {
  total_disputes = 0;
  disputes_resolved = 0;
  disputes_timed_out = 0;
  total_staked = 0;
  total_burned = 0;
  harassment_score = 0;
  total_subsidies_received = 0;
  first_seen = timestamp;
  last_active = timestamp;
}

abbrev pub save_party : Store → ℕ → Party → Store
save_party s id party = record s { parties = save s.parties id party }

abbrev pub or_new_party : Option Party → ℕ → Party
or_new_party none timestamp = new_party timestamp
or_new_party (some party) timestamp = party

-- getOrCreateParty of ilrm.ts saves the party with the time of its activity.
unfoldable pub get_or_create_party : Store → ℕ → ℕ → Party × Store
get_or_create_party s id timestamp =
    let party = record (or_new_party (load s.parties id) timestamp) { last_active = timestamp } in
    (party, save_party s id party)

abbrev pub new_daily : ℕ → DailyMetric
new_daily date = record {
  date = date;
  disputes_initiated = 0;
  disputes_resolved = 0;
  disputes_timed_out = 0;
  total_staked = 0;
  total_burned = 0;
  total_subsidies = 0;
  unique_participants = 0;
  counter_proposals = 0;
  proposals = 0;
  l3_batches = 0;
}

unfoldable pub get_or_create_daily_metric : Store → ℕ → DailyMetric
get_or_create_daily_metric s timestamp = elim (load s.daily (day_of timestamp)) [
  | none ↦ new_daily (day_of timestamp)
  | some metric ↦ metric
]

abbrev pub save_daily : Store → ℕ → DailyMetric → Store
save_daily s timestamp metric = record s { daily = save s.daily (day_of timestamp) metric }

abbrev pub new_protocol : ProtocolMetric
new_protocol = record {
  total_disputes = 0;
  active_disputes = pos 0;
  resolved_disputes = 0;
  timed_out_disputes = 0;
  total_value_staked = 0;
  total_value_burned = 0;
  total_subsidies_distributed = 0;
  unique_participants = 0;
  total_counter_proposals = 0;
  total_l3_batches = 0;
  avg_resolution_blocks = 0;
  last_updated_block = 0;
}

abbrev pub or_new_protocol : Option ProtocolMetric → ProtocolMetric
or_new_protocol none = new_protocol
or_new_protocol (some metric) = metric

unfoldable pub get_or_create_protocol_metric : Store → ProtocolMetric
get_or_create_protocol_metric s = or_new_protocol s.protocol

abbrev pub save_protocol : Store → ProtocolMetric → Store
save_protocol s metric = record s { protocol = some metric }

abbrev pub save_dispute : Store → ℕ → Dispute → Store
save_dispute s id dispute = record s { disputes = save s.disputes id dispute }

-- The entity that handleDisputeInitiated builds.
abbrev pub new_dispute : Context → ℕ → ℕ → ℕ → Dispute
new_dispute c initiator counterparty evidence_hash = record {
  initiator = initiator;
  counterparty = counterparty;
  initiator_stake = 0;
  counterparty_stake = 0;
  start_time = c.timestamp;
  start_block = c.block;
  evidence_hash = evidence_hash;
  state = initiated;
  outcome = none;
  initiator_accepted = false;
  counterparty_accepted = false;
  counter_count = 0;
  burn_amount = none;
  resolved_at = none;
  resolved_tx = none;
  zk_mode_enabled = false;
  initiator_zk_identity = none;
  counterparty_zk_identity = none;
  initiator_did = none;
  counterparty_did = none;
  fido_used = false;
  created_at = c.timestamp;
  updated_at = c.timestamp;
}

-- One party of a new dispute.
unfoldable pub count_dispute : Store → ℕ → ℕ → Store
unfolding get_or_create_party
count_dispute s id timestamp =
    let (party, s') = get_or_create_party s id timestamp in
    save_party s' id (record party { total_disputes = inc party.total_disputes })

-- What is done if an entity was found.
unfoldable pub on_found : {A : Type 0} → Store → Option A → (A → Store) → Store
on_found s none body = s
on_found s (some a) body = body a

-- `let party = Party.load(id); if (party != null) { …; party.save(); }`
unfoldable pub update_party : Store → ℕ → (Party → Party) → Store
unfolding on_found
update_party s id change = on_found s (load s.parties id) λ party. save_party s id (change party)

-- Adds to the metrics of the day.
unfoldable pub update_daily : Store → ℕ → (DailyMetric → DailyMetric) → Store
unfolding get_or_create_daily_metric
update_daily s timestamp change =
    save_daily s timestamp (change (get_or_create_daily_metric s timestamp))

-- Adds to the protocol's metrics, and notes the block.
unfoldable pub update_protocol : Store → ℕ → (ProtocolMetric → ProtocolMetric) → Store
unfolding get_or_create_protocol_metric
update_protocol s block change =
    save_protocol s
      (record (change (get_or_create_protocol_metric s)) { last_updated_block = block })

-- `let dispute = Dispute.load(disputeId); if (dispute == null) return;`
unfoldable pub with_dispute : Store → ℕ → (Dispute → Store) → Store
unfolding on_found
with_dispute s id body = on_found s (load s.disputes id) body

unfoldable pub handle_dispute_initiated : Context → ℕ → ℕ → ℕ → ℕ → Store → Store
handle_dispute_initiated c id initiator counterparty evidence_hash s =
    let s1 = count_dispute s initiator c.timestamp in
    let s2 = count_dispute s1 counterparty c.timestamp in
    let s3 = save_dispute s2 id (new_dispute c initiator counterparty evidence_hash) in
    let s4 =
      update_daily s3 c.timestamp λ m. record m { disputes_initiated = inc m.disputes_initiated } in
    update_protocol s4 c.block λ m. record m {
      total_disputes = m.total_disputes + 1;
      active_disputes = m.active_disputes +ℤ pos 1;
    }
