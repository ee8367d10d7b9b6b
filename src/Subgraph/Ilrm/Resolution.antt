-- ===== src/Subgraph/Ilrm/Resolution.antt =====
-- subgraph/src/ilrm.ts: burns, outcomes, scores, and the identities of a dispute's parties.
use ilr_module.Prelude.{ℕ, ◌+◌, ◌/◌, ◌==◌, if◌then◌else◌, Bool, true, false, some}
use ilr_module.Prelude.Int.{pos, ◌-ℤ◌}
use ilr_module.Subgraph.Map.{load, save, nat_key, pair_key}
use ilr_module.Subgraph.Schema.{
  Store, Context, Party, Dispute, Outcome, pending, accepted_proposal, timeout_with_burn,
  default_license_applied, resolved, inc,
}
use ilr_module.Subgraph.Ilrm.{
  save_party, save_dispute, update_party, update_daily, update_protocol, with_dispute, on_found,
}

unfoldable pub handle_stakes_burned : Context → ℕ → ℕ → Store → Store
handle_stakes_burned c id burn_amount s = with_dispute s id λ d.
    let s1 =
      save_dispute s id (record d { burn_amount = some burn_amount; updated_at = c.timestamp }) in
    let half_burn = burn_amount / 2 in
    let s2 =
      update_party s1 d.initiator λ p. record p { total_burned = p.total_burned + half_burn } in
    let s3 =
      update_party s2 d.counterparty λ p. record p { total_burned = p.total_burned + half_burn } in
    let s4 =
      update_daily s3 c.timestamp λ m. record m { total_burned = m.total_burned + burn_amount } in
    update_protocol s4 c.block
      λ m. record m { total_value_burned = m.total_value_burned + burn_amount }

unfoldable pub handle_default_license_applied : Context → ℕ → Store → Store
handle_default_license_applied c id s = with_dispute s id λ d.
    save_dispute s id
      (record d { outcome = some default_license_applied; updated_at = c.timestamp })

-- The enum of the event, by number.
unfoldable pub outcome_of : ℕ → Outcome
outcome_of value =
    if value == 1
    then accepted_proposal
    else if value == 2
    then timeout_with_burn
    else if value == 3
    then default_license_applied
    else pending

abbrev pub is_accepted : Outcome → Bool
is_accepted accepted_proposal = true
is_accepted _ = false

abbrev pub is_timeout : Outcome → Bool
is_timeout timeout_with_burn = true
is_timeout _ = false

-- What a resolution adds to the statistics of one party.
unfoldable pub count_outcome : Outcome → Party → Party
count_outcome o p =
    if is_accepted o
    then record p { disputes_resolved = inc p.disputes_resolved }
    else if is_timeout o
    then record p { disputes_timed_out = inc p.disputes_timed_out }
    else p

-- The dispute, its parties and the day, before the protocol's metrics.
abbrev pub save_resolution : Context → ℕ → Outcome → Dispute → Store → Store
save_resolution c id outcome d s =
    let s1 = save_dispute s id (record d {
      state = resolved;
      outcome = some outcome;
      resolved_at = some c.block;
      resolved_tx = some c.tx_hash;
      updated_at = c.timestamp;
    }) in
    let s2 = update_party s1 d.initiator (count_outcome outcome) in
    let s3 = update_party s2 d.counterparty (count_outcome outcome) in
    update_daily s3 c.timestamp λ m. record m {
      disputes_resolved = inc m.disputes_resolved;
      disputes_timed_out =
          if is_timeout outcome then inc m.disputes_timed_out else m.disputes_timed_out;
    }

unfoldable pub handle_dispute_resolved : Context → ℕ → ℕ → Store → Store
handle_dispute_resolved c id outcome_value s = with_dispute s id λ d.
    let outcome = outcome_of outcome_value in
    let s4 = save_resolution c id outcome d s in
    update_protocol s4 c.block λ m. record m {
      active_disputes = m.active_disputes -ℤ pos 1;
      resolved_disputes = m.resolved_disputes + 1;
      timed_out_disputes =
          if is_timeout outcome then m.timed_out_disputes + 1 else m.timed_out_disputes;
    }

unfoldable pub handle_harassment_score_updated : Context → ℕ → ℕ → ℕ → Store → Store
handle_harassment_score_updated c participant old_score new_score s =
    on_found s (load s.parties participant) λ party.
      let s1 = record s {
        scores =
            save s.scores (participant, c.block)
              (record {
                party = participant;
                old_score = old_score;
                new_score = new_score;
                timestamp = c.timestamp;
                tx_hash = c.tx_hash;
              });
      } in
      save_party s1 participant
        (record party { harassment_score = new_score; last_active = c.timestamp })

unfoldable pub handle_zk_identity_registered : Context → ℕ → ℕ → Bool → Store → Store
handle_zk_identity_registered c id identity_hash is_initiator s = with_dispute s id λ d.
    save_dispute s id (
      if is_initiator
      then record d {
        zk_mode_enabled = true;
        initiator_zk_identity = some identity_hash;
        updated_at = c.timestamp;
      }
      else record d {
        zk_mode_enabled = true;
        counterparty_zk_identity = some identity_hash;
        updated_at = c.timestamp;
      })

unfoldable pub handle_fido_acceptance : Context → ℕ → Store → Store
handle_fido_acceptance c id s =
    with_dispute s id
      λ d. save_dispute s id (record d { fido_used = true; updated_at = c.timestamp })

unfoldable pub handle_did_associated_with_dispute : Context → ℕ → ℕ → Bool → Store → Store
handle_did_associated_with_dispute c id did is_initiator s = with_dispute s id λ d.
    save_dispute s id (
      if is_initiator
      then record d { initiator_did = some did; updated_at = c.timestamp }
      else record d { counterparty_did = some did; updated_at = c.timestamp })
