-- ===== src/Subgraph/Oracle.antt =====
-- The handlers of subgraph/src/oracle.ts: the proposals that are asked of the oracle. A handler that
-- saves an entity without a required field is `none`: the store refuses it, and the indexing ends.
pub mod Submissions
use Prim.Native.String.{String}
use ilr_module.Prelude.{
  ℕ, zero, suc, ◌+◌, ◌/◌, Bool, true, false, ◌&&◌, Option, none, some, if◌then◌else◌, ltb, ◌==◌,
}
use ilr_module.Prelude.Int.{ℤ, pos, negsuc, sub_ℕ, ◌+ℤ◌, ◌-ℤ◌}
use ilr_module.Subgraph.Map.{load, save, nat_key}
use ilr_module.Subgraph.Schema.{Store, Context, OracleProposal, OracleMetric, inc, day_of}

abbrev pub new_oracle_metric : ℕ → OracleMetric
new_oracle_metric date = record {
  date = date;
  proposals_requested = 0;
  proposals_submitted = 0;
  proposals_reset = 0;
  avg_response_blocks = pos 0;
}

abbrev pub or_new_oracle_metric : Option OracleMetric → ℕ → OracleMetric
or_new_oracle_metric none date = new_oracle_metric date
or_new_oracle_metric (some metric) date = metric

unfoldable pub get_or_create_oracle_metric : Store → ℕ → OracleMetric
get_or_create_oracle_metric s timestamp =
    or_new_oracle_metric (load s.oracle_metrics (day_of timestamp)) (day_of timestamp)

unfoldable pub update_oracle : Store → ℕ → (OracleMetric → OracleMetric) → Store
update_oracle s timestamp change = record s {
  oracle_metrics =
      save s.oracle_metrics (day_of timestamp) (change (get_or_create_oracle_metric s timestamp));
}

abbrev pub blank_proposal : ℕ → OracleProposal
blank_proposal requested_at = record {
  requester = none;
  evidence_hash = none;
  requested_at = requested_at;
  submitted_at = none;
  proposal = none;
  submitter = none;
  was_reset = false;
  reset_reason = none;
}

abbrev pub or_blank : Option OracleProposal → ℕ → OracleProposal
or_blank none requested_at = blank_proposal requested_at
or_blank (some proposal) requested_at = proposal

abbrev is_set : Option ℕ → Bool
is_set none = false
is_set (some n) = true

-- The fields of an OracleProposal that subgraph/schema.graphql requires and a handler may not set.
abbrev pub has_required : OracleProposal → Bool
has_required proposal = is_set proposal.requester && is_set proposal.evidence_hash

abbrev pub save_proposal : Store → ℕ → OracleProposal → Option Store
save_proposal s id proposal =
    if has_required proposal
    then some (record s { oracle_proposals = save s.oracle_proposals id proposal })
    else none

-- The rest of a handler, when the store has taken the entity.
abbrev pub once_saved : Option Store → (Store → Store) → Option Store
once_saved none rest = none
once_saved (some s) rest = some (rest s)

abbrev pub asked_proposal : Context → ℕ → ℕ → OracleProposal → OracleProposal
asked_proposal c requester evidence_hash found = record found {
  requester = some requester;
  evidence_hash = some evidence_hash;
  requested_at = c.timestamp;
}

abbrev pub count_request : Context → Store → Store
count_request c s =
    update_oracle s c.timestamp λ m. record m { proposals_requested = inc m.proposals_requested }

unfoldable pub handle_proposal_requested : Context → ℕ → ℕ → ℕ → Store → Option Store
handle_proposal_requested c id requester evidence_hash s =
    let found = or_blank (load s.oracle_proposals id) c.timestamp in
    once_saved (save_proposal s id (asked_proposal c requester evidence_hash found))
      (count_request c)

-- `div` of a BigInt by 2, which rounds towards 0.
abbrev pub half : ℤ → ℤ
half (pos n) = pos (n / 2)
half (negsuc n) = sub_ℕ 0 ((n + 1) / 2)

-- The average of the metric and a response time; an average of 0 counts as absent.
abbrev pub average : ℤ → ℤ → ℤ
average (pos zero) response = response
average (pos (suc n)) response = half (pos (suc n) +ℤ response)
average (negsuc n) response = half (negsuc n +ℤ response)

abbrev pub count_response : ℕ → ℕ → OracleMetric → OracleMetric
count_response timestamp requested_at m =
    if ltb 0 requested_at
    then record m {
      avg_response_blocks = average m.avg_response_blocks (pos timestamp -ℤ pos requested_at);
    }
    else m

abbrev pub answered_proposal : Context → String → ℕ → OracleProposal → OracleProposal
answered_proposal c content submitter found = record found {
  submitted_at = some c.timestamp;
  proposal = some content;
  submitter = some submitter;
}

abbrev pub count_answer : Context → OracleProposal → Store → Store
count_answer c found s = update_oracle s c.timestamp λ m.
    count_response c.timestamp found.requested_at
      (record m { proposals_submitted = inc m.proposals_submitted })

unfoldable pub handle_proposal_submitted_to_ilrm : Context → ℕ → String → ℕ → Store → Option Store
handle_proposal_submitted_to_ilrm c id content submitter s =
    let found = or_blank (load s.oracle_proposals id) c.timestamp in
    once_saved (save_proposal s id (answered_proposal c content submitter found))
      (count_answer c found)

abbrev pub reset_proposal : String → OracleProposal → OracleProposal
reset_proposal reason found = record found {
  was_reset = true;
  reset_reason = some reason;
  submitted_at = none;
  proposal = none;
  submitter = none;
}

abbrev pub count_reset : Context → Store → Store
count_reset c s =
    update_oracle s c.timestamp λ m. record m { proposals_reset = inc m.proposals_reset }

unfoldable pub handle_proposal_reset : Context → ℕ → String → Store → Option Store
handle_proposal_reset c id reason s =
    let found = or_blank (load s.oracle_proposals id) c.timestamp in
    once_saved (save_proposal s id (reset_proposal reason found)) (count_reset c)

-- The events of the Oracle contract, and the handler that subgraph/subgraph.yaml names for each.
pub data Event : Type 0 where
  requested : ℕ → ℕ → ℕ → Event
  submitted : ℕ → String → ℕ → Event
  withdrawn : ℕ → String → Event

unfoldable pub handle : Context → Event → Store → Option Store
handle c (requested id requester evidence_hash) s =
    handle_proposal_requested c id requester evidence_hash s
handle c (submitted id content submitter) s =
    handle_proposal_submitted_to_ilrm c id content submitter s
handle c (withdrawn id reason) s = handle_proposal_reset c id reason s
