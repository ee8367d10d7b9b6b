-- ===== src/Subgraph/Ilrm/Proposals.antt =====
-- The proposals that the subgraph keeps for a dispute.
use Prim.Native.String.{String}
use ilr_module.Prelude.{ℕ, ◌≡◌, none, some, if◌then◌else◌}
use ilr_module.Subgraph.Map.{load, load-save, load-save_self, nat_key, pair_key, pair_same}
use ilr_module.Subgraph.Index.{next_index, next_index-first}
use ilr_module.Subgraph.Schema.{Store, Context, Dispute, Proposal}
use ilr_module.Subgraph.Ilrm.{update_daily, with_dispute, on_found}
use ilr_module.Subgraph.Ilrm.Lifecycle.{handle_proposal_submitted, reset_acceptances}

-- A proposal for a known dispute, the first or a later one, is saved with its content, its sender and
-- its index under the first index that no proposal of the dispute has; under any other id the
-- proposals are what they were, and both acceptances are taken back.
pub proposal_submitted-kept :
    (c : Context) (id : ℕ) (content : String) (s : Store) (d : Dispute) (k : ℕ × ℕ)
    → load s.disputes id ≡ some d
    → let t = handle_proposal_submitted c id content s in
      let free : ℕ × ℕ = (id, next_index s.proposals id) in
      let submitted : Proposal = record {
        dispute = id;
        content = content;
        submitter = c.tx_from;
        timestamp = c.timestamp;
        tx_hash = c.tx_hash;
        index = next_index s.proposals id;
      } in
      (load s.proposals free ≡ none)
      × (load t.proposals k ≡ (if pair_same free k then some submitted else load s.proposals k))
      × (load t.disputes id ≡ some (record (reset_acceptances d) { updated_at = c.timestamp }))
unfolding handle_proposal_submitted with_dispute on_found update_daily
proposal_submitted-kept c id content s d k e =
    rw (e, on_found)
      (
        (next_index-first s.proposals id).0,
        load-save s.proposals (id, next_index s.proposals id) k _,
        load-save_self s.disputes id _,
      )
