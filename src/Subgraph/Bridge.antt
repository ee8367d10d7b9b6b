-- ===== src/Subgraph/Bridge.antt =====
-- The handlers of subgraph/src/l3bridge.ts: batches of the L3 bridge and their challenges.
pub mod Status
use ilr_module.Prelude.{ℕ, ◌+◌, ◌%◌, ◌^◌, Bool, true, false, Option, none, some, if◌then◌else◌}
use ilr_module.Subgraph.Map.{load, save, nat_key, pair_key}
use ilr_module.Subgraph.Schema.{
  Store, Context, L3Batch, L3Metric, FraudProofChallenge, BatchStatus, waiting, finalized, reverted,
  inc, day_of,
}
use ilr_module.Subgraph.Ilrm.{on_found, update_protocol}

abbrev pub new_l3_metric : ℕ → L3Metric
new_l3_metric date = record {
  date = date;
  batches_submitted = 0;
  batches_finalized = 0;
  challenges_initiated = 0;
  challenges_succeeded = 0;
  total_disputes_batched = 0;
}

abbrev pub or_new_l3_metric : Option L3Metric → ℕ → L3Metric
or_new_l3_metric none date = new_l3_metric date
or_new_l3_metric (some metric) date = metric

unfoldable pub get_or_create_l3_metric : Store → ℕ → L3Metric
get_or_create_l3_metric s timestamp =
    or_new_l3_metric (load s.l3_metrics (day_of timestamp)) (day_of timestamp)

unfoldable pub update_l3 : Store → ℕ → (L3Metric → L3Metric) → Store
update_l3 s timestamp change = record s {
  l3_metrics = save s.l3_metrics (day_of timestamp) (change (get_or_create_l3_metric s timestamp));
}

abbrev pub save_batch : Store → ℕ → L3Batch → Store
save_batch s id batch = record s { batches = save s.batches id batch }

abbrev pub new_batch : Context → ℕ → ℕ → ℕ → L3Batch
new_batch c state_root dispute_count submitter = record {
  state_root = state_root;
  dispute_count = dispute_count;
  submitter = submitter;
  submitted_at = c.timestamp;
  finalized_at = none;
  challenged = false;
  challenge_succeeded = none;
  status = waiting;
}

-- `dispute_count` is the i32 that `toI32` gives, and the sum of the counts is one too.
unfoldable pub handle_batch_submitted : Context → ℕ → ℕ → ℕ → ℕ → Store → Store
handle_batch_submitted c id state_root dispute_count submitter s =
    let s1 = save_batch s id (new_batch c state_root dispute_count submitter) in
    let s2 = update_l3 s1 c.timestamp λ m. record m {
      batches_submitted = inc m.batches_submitted;
      total_disputes_batched = (m.total_disputes_batched + dispute_count) % 2 ^ 32;
    } in
    update_protocol s2 c.block λ m. record m { total_l3_batches = m.total_l3_batches + 1 }

unfoldable pub handle_batch_finalized : Context → ℕ → Store → Store
handle_batch_finalized c id s = on_found s (load s.batches id) λ batch.
    let s' =
      save_batch s id (record batch { finalized_at = some c.timestamp; status = finalized }) in
    update_l3 s' c.timestamp λ m. record m { batches_finalized = inc m.batches_finalized }

unfoldable pub handle_challenge_initiated : Context → ℕ → ℕ → Store → Store
handle_challenge_initiated c id challenger s = on_found s (load s.batches id) λ batch.
    let s1 = save_batch s id (record batch { challenged = true }) in
    let s2 = record s1 {
      challenges =
          save s1.challenges (id, challenger)
            (record {
              batch = id;
              challenger = challenger;
              initiated_at = c.timestamp;
              tx_hash = c.tx_hash;
            });
    } in
    update_l3 s2 c.timestamp λ m. record m { challenges_initiated = inc m.challenges_initiated }

abbrev pub resolve_batch : Bool → L3Batch → L3Batch
resolve_batch succeeded batch =
    if succeeded
    then record batch { challenge_succeeded = some succeeded; status = reverted }
    else record batch { challenge_succeeded = some succeeded }

unfoldable pub handle_challenge_resolved : Context → ℕ → Bool → Store → Store
handle_challenge_resolved c id succeeded s = on_found s (load s.batches id) λ batch.
    update_l3 (save_batch s id (resolve_batch succeeded batch)) c.timestamp
      λ m. if succeeded then record m { challenges_succeeded = inc m.challenges_succeeded } else m

-- The events of the L3Bridge contract, and the handler that subgraph/subgraph.yaml names for each.
pub data Event : Type 0 where
  batch_submitted : ℕ → ℕ → ℕ → ℕ → Event
  batch_finalized : ℕ → Event
  challenge_initiated : ℕ → ℕ → Event
  challenge_resolved : ℕ → Bool → Event

unfoldable pub handle : Context → Event → Store → Store
handle c (batch_submitted id root count submitter) s =
    handle_batch_submitted c id root count submitter s
handle c (batch_finalized id) s = handle_batch_finalized c id s
handle c (challenge_initiated id challenger) s = handle_challenge_initiated c id challenger s
handle c (challenge_resolved id succeeded) s = handle_challenge_resolved c id succeeded s
