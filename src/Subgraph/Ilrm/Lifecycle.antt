-- ===== src/Subgraph/Ilrm/Lifecycle.antt =====
-- subgraph/src/ilrm.ts: stakes, proposals, acceptances and counter-proposals.
use Prim.Native.String.{String}
use ilr_module.Prelude.{ℕ, ◌+◌, ◌==◌, if◌then◌else◌, true, false, []}
use ilr_module.Subgraph.Map.{save, nat_key, pair_key}
use ilr_module.Subgraph.Index.{next_index}
use ilr_module.Subgraph.Schema.{Store, Context, Dispute, inc, active}
use ilr_module.Subgraph.Ilrm.{
  save_dispute, update_party, update_daily, update_protocol, with_dispute,
}

-- `if (depositorId == dispute.initiator) … else if (depositorId == dispute.counterparty) …`
unfoldable pub record_stake : ℕ → ℕ → Dispute → Dispute
record_stake depositor amount d =
    if depositor == d.initiator
    then record d { initiator_stake = amount }
    else if depositor == d.counterparty
    then record d { counterparty_stake = amount; state = active }
    else d

unfoldable pub handle_stake_deposited : Context → ℕ → ℕ → ℕ → Store → Store
handle_stake_deposited c id depositor amount s = with_dispute s id λ d.
    let s1 =
      save_dispute s id (record (record_stake depositor amount d) { updated_at = c.timestamp }) in
    let s2 =
      update_party s1 depositor
        λ p. record p { total_staked = p.total_staked + amount; last_active = c.timestamp } in
    let s3 = update_daily s2 c.timestamp λ m. record m { total_staked = m.total_staked + amount } in
    update_protocol s3 c.block λ m. record m { total_value_staked = m.total_value_staked + amount }

-- `dispute.initiatorAccepted = false; dispute.counterpartyAccepted = false;`
abbrev pub reset_acceptances : Dispute → Dispute
reset_acceptances d = record d { initiator_accepted = false; counterparty_accepted = false }

unfoldable pub handle_proposal_submitted : Context → ℕ → String → Store → Store
handle_proposal_submitted c id content s = with_dispute s id λ d.
    let proposal_index = next_index s.proposals id in
    let s1 = record s {
      proposals =
          save s.proposals (id, proposal_index)
            (record {
              dispute = id;
              content = content;
              submitter = c.tx_from;
              timestamp = c.timestamp;
              tx_hash = c.tx_hash;
              index = proposal_index;
            });
    } in
    let s2 = save_dispute s1 id (record (reset_acceptances d) { updated_at = c.timestamp }) in
    update_daily s2 c.timestamp λ m. record m { proposals = inc m.proposals }

unfoldable pub accept_by : ℕ → Dispute → Dispute
accept_by party d =
    if party == d.initiator
    then record d { initiator_accepted = true }
    else if party == d.counterparty
    then record d { counterparty_accepted = true }
    else d

unfoldable pub handle_acceptance_signaled : Context → ℕ → ℕ → Store → Store
handle_acceptance_signaled c id party s = with_dispute s id λ d.
    let s1 = save_dispute s id (record (accept_by party d) { updated_at = c.timestamp }) in
    update_party s1 party λ p. record p { last_active = c.timestamp }

-- `counterNumber` is the i32 of the event.
unfoldable pub handle_counter_proposed : Context → ℕ → ℕ → ℕ → Store → Store
handle_counter_proposed c id party counter_number s = with_dispute s id λ d.
    let s1 = record s {
      counters =
          save s.counters (id, counter_number)
            (record {
              dispute = id;
              party = party;
              evidence_hash = [];
              counter_number = counter_number;
              fee_paid = 0;
              timestamp = c.timestamp;
              tx_hash = c.tx_hash;
            });
    } in
    let s2 =
      save_dispute s1 id (record (reset_acceptances d) {
        counter_count = counter_number;
        updated_at = c.timestamp;
      }) in
    let s3 =
      update_daily s2 c.timestamp λ m. record m { counter_proposals = inc m.counter_proposals } in
    update_protocol s3 c.block
      λ m. record m { total_counter_proposals = m.total_counter_proposals + 1 }
