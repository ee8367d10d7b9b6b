-- ===== src/Subgraph/Ilrm/Counts.antt =====
-- What the protocol metric counts of the disputes, against the events alone.
use ilr_module.Prelude.{
  ℕ, ◌+◌, ◌≡◌, refl, sym, ap, ◌∙◌, Bool, true, false, ◌||◌, List, [], ◌∷◌, Option, none, some,
  arith, if◌then◌else◌, ◌==◌,
}
use ilr_module.Prelude.Int.{◌-ℤ◌, pos}
use ilr_module.Subgraph.Map.{load, nat_key}
use ilr_module.Subgraph.Schema.{Store, Context, Dispute, Outcome, ProtocolMetric, empty}
use ilr_module.Subgraph.Ilrm.{
  new_dispute, get_or_create_protocol_metric, count_dispute, get_or_create_party,
  handle_dispute_initiated, update_daily, update_protocol, with_dispute, on_found, or_new_protocol,
}
use ilr_module.Subgraph.Ilrm.Lifecycle.{
  handle_stake_deposited, handle_proposal_submitted, handle_acceptance_signaled,
  handle_counter_proposed,
}
use ilr_module.Subgraph.Ilrm.Resolution.{
  handle_stakes_burned, handle_default_license_applied, handle_dispute_resolved,
  handle_harassment_score_updated, handle_zk_identity_registered, handle_fido_acceptance,
  handle_did_associated_with_dispute, is_timeout, outcome_of, save_resolution,
}
use ilr_module.Subgraph.Ilrm.Events.{
  Event, dispute_initiated, stake_deposited, proposal_submitted, acceptance_signaled,
  counter_proposed, stakes_burned, default_license, dispute_resolved, score_updated, zk_identity,
  fido_acceptance, did_associated, handle, index_all,
}
use ilr_module.Subgraph.Ilrm.Frame.{handle-unknown}
use ilr_module.Subgraph.Ilrm.Accounting.{IsBalanced, metric-IsBalanced}
use ilr_module.Subgraph.Ilrm.Known.{
  Tally, tally_of, tally, is_found, is_known, Same, is_found-save, saved_dispute-Same, kept-Same,
  update_party-Same, update_daily-Same, update_protocol-Same, with_dispute-Same, on_found-Same,
}

-- From the events alone: which disputes were initiated, and what is counted. A resolution of a dispute
-- that was not initiated before does not count; a second one of the same dispute counts again.
abbrev pub known_after : Event → (ℕ → Bool) → ℕ → Bool
known_after (dispute_initiated id a b h) known i = (id == i) || known i
known_after _ known i = known i

abbrev pub tally_after : Event → (ℕ → Bool) → Tally → Tally
tally_after (dispute_initiated id a b h) known t = (t.0 + 1, t.1)
tally_after (dispute_resolved id outcome) known t =
    if known id then (t.0, (t.1.0 + 1, if outcome == 2 then t.1.1 + 1 else t.1.1)) else t
tally_after _ known t = t

abbrev pub replay : List (Context × Event) → (ℕ → Bool) → Tally → Tally
replay [] known t = t
replay ((c, e) ∷ rest) known t = replay rest (known_after e known) (tally_after e known t)

-- One event in a store where the disputes of `k` are known.
pub record Counted (c : Context) (e : Event) (s : Store) (k : ℕ → Bool) : Type 0 where
  pub known : (i : ℕ) → is_known (handle c e s) i ≡ known_after e k i
  pub counted : tally (handle c e s) ≡ tally_after e k (tally s)

module _ (c : Context) (s : Store) (k : ℕ → Bool) (h : (i : ℕ) → is_known s i ≡ k i) where
  unchanged : {t : Store} → Same s t → ((i : ℕ) → is_known t i ≡ k i) × (tally t ≡ tally s)
  unchanged a = ((λ i. a.known i ∙ h i), a.counted)

  initiated-Counted : (id a b hash : ℕ) → Counted c (dispute_initiated id a b hash) s k
  unfolding handle handle_dispute_initiated count_dispute get_or_create_party update_daily
      update_protocol get_or_create_protocol_metric
  initiated-Counted id a b hash = record {
    known = λ i.
        is_found-save s.disputes id i (new_dispute c a b hash) ∙ ap (λ t. (id == i) || t) (h i);
    counted = refl;
  }

  saved-Same :
      (id : ℕ) (outcome : Outcome) (d : Dispute)
      → load s.disputes id ≡ some d
      → Same s (save_resolution c id outcome d s)
  saved-Same id outcome d e = update_daily-Same c.timestamp _ (
      update_party-Same d.counterparty _
        (update_party-Same d.initiator _ (saved_dispute-Same id d _ e refl refl)))

  timeout_number :
      (outcome n : ℕ)
      → (if is_timeout (outcome_of outcome) then n + 1 else n) ≡ (if outcome == 2 then n + 1 else n)
  unfolding outcome_of
  timeout_number outcome n = ground arith

  -- What the protocol's metrics become.
  abbrev count_resolution : ℕ → ProtocolMetric → ProtocolMetric
  count_resolution outcome m = record m {
    active_disputes = m.active_disputes -ℤ pos 1;
    resolved_disputes = m.resolved_disputes + 1;
    timed_out_disputes =
        if is_timeout (outcome_of outcome) then m.timed_out_disputes + 1 else m.timed_out_disputes;
  }

  resolved_as :
      (id outcome : ℕ) (d : Dispute)
      → load s.disputes id ≡ some d
      → handle c (dispute_resolved id outcome) s
        ≡ update_protocol
            (save_resolution c id (outcome_of outcome) d s)
            c.block
            (count_resolution outcome)
  unfolding handle handle_dispute_resolved with_dispute
  resolved_as id outcome d e =
      ap
        (λ o. on_found s o λ d.
          update_protocol (save_resolution c id (outcome_of outcome) d s) c.block
            (count_resolution outcome))
        e
      ∙ unfold on_found in refl

  resolved_found :
      (id outcome : ℕ) (o : Option Dispute)
      → load s.disputes id ≡ o
      → Counted c (dispute_resolved id outcome) s k
  unfolding update_protocol get_or_create_protocol_metric
  resolved_found id outcome none e =
      let same = handle-unknown c (dispute_resolved id outcome) s id refl e in
      let unknown : k id ≡ false = sym (h id) ∙ ap is_found e in
      record {
        known = λ i. ap (λ t. is_known t i) same ∙ h i;
        counted = ap tally same ∙ rw unknown refl;
      }
  resolved_found id outcome (some d) e =
      let same = saved-Same id (outcome_of outcome) d e in
      let known_here : k id ≡ true = sym (h id) ∙ ap is_found e in
      record {
        known = λ i. ap (λ u. is_known u i) (resolved_as id outcome d e) ∙ same.known i ∙ h i;
        counted =
            ap tally (resolved_as id outcome d e)
            ∙ ap
                (λ (y : Tally).
                  (y.0, (y.1.0 + 1, if is_timeout (outcome_of outcome) then y.1.1 + 1 else y.1.1)))
                same.counted
            ∙ rw known_here (
                ap (λ n. ((tally s).0, ((tally s).1.0 + 1, n)))
                  (timeout_number outcome (tally s).1.1));
      }

  other-Counted :
      (e : Event)
      → ((i : ℕ) → known_after e k i ≡ k i)
      → tally_after e k (tally s) ≡ tally s
      → Same s (handle c e s)
      → Counted c e s k
  other-Counted e kept uncounted same = record {
    known = λ i. same.known i ∙ h i ∙ sym (kept i);
    counted = same.counted ∙ sym uncounted;
  }

  -- Every handler counts what its event says.
  handle-Counted : (e : Event) → Counted c e s k
  unfolding handle
  handle-Counted (dispute_initiated id a b hash) = initiated-Counted id a b hash
  handle-Counted (stake_deposited id party amount) =
      other-Counted _ (λ i. refl) refl
        (unfold handle_stake_deposited in
          with_dispute-Same id _ λ d e.
            update_protocol-Same c.block _ (λ m. refl)
              (update_daily-Same c.timestamp _
                (update_party-Same party _ (saved_dispute-Same id d _ e refl refl))))
  handle-Counted (proposal_submitted id content) =
      other-Counted _ (λ i. refl) refl
        (unfold handle_proposal_submitted in
          with_dispute-Same id _
            λ d e. update_daily-Same c.timestamp _ (saved_dispute-Same id d _ e refl refl))
  handle-Counted (acceptance_signaled id party) =
      other-Counted _ (λ i. refl) refl
        (unfold handle_acceptance_signaled in
          with_dispute-Same id _
            λ d e. update_party-Same party _ (saved_dispute-Same id d _ e refl refl))
  handle-Counted (counter_proposed id party n) =
      other-Counted _ (λ i. refl) refl
        (unfold handle_counter_proposed in
          with_dispute-Same id _ λ d e.
            update_protocol-Same c.block _ (λ m. refl)
              (update_daily-Same c.timestamp _ (saved_dispute-Same id d _ e refl refl)))
  handle-Counted (stakes_burned id amount) =
      other-Counted _ (λ i. refl) refl
        (unfold handle_stakes_burned in
          with_dispute-Same id _ λ d e.
            update_protocol-Same c.block _ (λ m. refl)
              (update_daily-Same c.timestamp _ (
                update_party-Same d.counterparty _
                  (update_party-Same d.initiator _ (saved_dispute-Same id d _ e refl refl)))))
  handle-Counted (default_license id) =
      other-Counted _ (λ i. refl) refl
        (unfold handle_default_license_applied in
          with_dispute-Same id _ λ d e. saved_dispute-Same id d _ e refl refl)
  handle-Counted (dispute_resolved id outcome) = resolved_found id outcome (load s.disputes id) refl
  handle-Counted (score_updated party old new) =
      other-Counted _ (λ i. refl) refl
        (unfold handle_harassment_score_updated in
          on_found-Same (load s.parties party) _ λ p. kept-Same refl refl)
  handle-Counted (zk_identity id hash first) =
      other-Counted _ (λ i. refl) refl
        (unfold handle_zk_identity_registered in
          with_dispute-Same id _ λ d e. saved_dispute-Same id d _ e refl refl)
  handle-Counted (fido_acceptance id) =
      other-Counted _ (λ i. refl) refl
        (unfold handle_fido_acceptance in
          with_dispute-Same id _ λ d e. saved_dispute-Same id d _ e refl refl)
  handle-Counted (did_associated id did first) =
      other-Counted _ (λ i. refl) refl
        (unfold handle_did_associated_with_dispute in
          with_dispute-Same id _ λ d e. saved_dispute-Same id d _ e refl refl)

index_all-replay :
    (events : List (Context × Event)) (s : Store) (k : ℕ → Bool)
    → ((i : ℕ) → is_known s i ≡ k i)
    → tally (index_all events s) ≡ replay events k (tally s)
unfolding index_all
index_all-replay [] s k h = refl
index_all-replay ((c, e) ∷ rest) s k h =
    let one = handle-Counted c s k h e in
    index_all-replay rest (handle c e s) (known_after e k) one.known
    ∙ ap (replay rest (known_after e k)) one.counted

nothing_known : (i : ℕ) → is_known empty i ≡ false
unfolding load
nothing_known i = refl

-- After any events from the empty store, the protocol metric has counted the initiations, the
-- resolutions that were about a dispute initiated before them, and those of these resolutions that
-- were timeouts; and its active disputes are the initiations less the resolutions counted, over the
-- integers, since a second resolution of one dispute is counted again.
pub disputes_counted :
    (events : List (Context × Event))
    → let m = or_new_protocol (index_all events empty).protocol in
      (tally_of m ≡ replay events (λ id. false) (0, (0, 0))) × IsBalanced m
disputes_counted events =
    (index_all-replay events empty (λ id. false) nothing_known, metric-IsBalanced events)
