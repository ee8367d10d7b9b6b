-- ===== src/Subgraph/Ilrm/Accounting.antt =====
-- The dispute counters of the protocol metric, over any events in any order.
use ilr_module.Prelude.{
  ℕ, ◌+◌, ◌≤◌, ◌≡◌, refl, List, [], ◌∷◌, Option, none, some, arith, Bool, subst, if◌then◌else◌,
}
use ilr_module.Prelude.Int.{pos, pos_part, neg_part, ◌+ℤ◌, ◌-ℤ◌, +ℤ_parts, -ℤ_parts}
use ilr_module.Subgraph.Map.{load, nat_key}
use ilr_module.Subgraph.Schema.{Store, Context, Party, Dispute, DailyMetric, ProtocolMetric, empty}
use ilr_module.Subgraph.Ilrm.{
  get_or_create_protocol_metric, count_dispute, handle_dispute_initiated, update_party,
  update_daily, update_protocol, with_dispute, on_found, or_new_protocol,
}
use ilr_module.Subgraph.Ilrm.Lifecycle.{
  handle_stake_deposited, handle_proposal_submitted, handle_acceptance_signaled,
  handle_counter_proposed,
}
use ilr_module.Subgraph.Ilrm.Resolution.{
  handle_stakes_burned, handle_default_license_applied, handle_dispute_resolved,
  handle_harassment_score_updated, handle_zk_identity_registered, handle_fido_acceptance,
  handle_did_associated_with_dispute, is_timeout, outcome_of,
}
use ilr_module.Subgraph.Ilrm.Events.{
  Event, dispute_initiated, stake_deposited, proposal_submitted, acceptance_signaled,
  counter_proposed, stakes_burned, default_license, dispute_resolved, score_updated, zk_identity,
  fido_acceptance, did_associated, handle, index_all,
}

-- Every dispute counted is counted as active or as resolved, and timeouts are resolutions.
pub record IsBalanced (m : ProtocolMetric) : Type 0 where
  pub balance :
      m.total_disputes + neg_part m.active_disputes
      ≡ pos_part m.active_disputes + m.resolved_disputes
  pub timeouts : m.timed_out_disputes ≤ m.resolved_disputes

abbrev pub MetricIsBalanced : Option ProtocolMetric → Type 0
MetricIsBalanced none = Unit
MetricIsBalanced (some m) = IsBalanced m

pub record StoreIsBalanced (s : Store) : Type 0 where
  pub metric : MetricIsBalanced s.protocol

-- Saving another entity.
saved : {s t : Store} → s.protocol ≡ t.protocol → StoreIsBalanced s → StoreIsBalanced t
saved e h = record { metric = subst MetricIsBalanced e h.metric }

on_found-IsBalanced :
    {A : Type 0} {s : Store} (o : Option A) (body : A → Store)
    → StoreIsBalanced s
    → ((a : A) → StoreIsBalanced (body a))
    → StoreIsBalanced (on_found s o body)
unfolding on_found
on_found-IsBalanced none body h k = h
on_found-IsBalanced (some a) body h k = k a

update_party-IsBalanced :
    {s : Store} (id : ℕ) (f : Party → Party)
    → StoreIsBalanced s
    → StoreIsBalanced (update_party s id f)
unfolding update_party
update_party-IsBalanced {s} id f h = on_found-IsBalanced (load s.parties id) _ h (λ p. saved refl h)

update_daily-IsBalanced :
    {s : Store} (t : ℕ) (f : DailyMetric → DailyMetric)
    → StoreIsBalanced s
    → StoreIsBalanced (update_daily s t f)
unfolding update_daily
update_daily-IsBalanced t f h = saved refl h

current_metric : (o : Option ProtocolMetric) → MetricIsBalanced o → IsBalanced (or_new_protocol o)
current_metric none h = omega arith
current_metric (some m) h = h

update_protocol-IsBalanced :
    {s : Store} (block : ℕ) (f : ProtocolMetric → ProtocolMetric)
    → ((m : ProtocolMetric) → IsBalanced m → IsBalanced (f m))
    → StoreIsBalanced s
    → StoreIsBalanced (update_protocol s block f)
unfolding update_protocol get_or_create_protocol_metric
update_protocol-IsBalanced {s} block f k h =
    let b = k (or_new_protocol s.protocol) (current_metric s.protocol h.metric) in
    record { metric = record { balance = b.balance; timeouts = b.timeouts } }

with_dispute-IsBalanced :
    {s : Store} (id : ℕ) (body : Dispute → Store)
    → StoreIsBalanced s
    → ((d : Dispute) → StoreIsBalanced (body d))
    → StoreIsBalanced (with_dispute s id body)
unfolding with_dispute
with_dispute-IsBalanced {s} id body h k = on_found-IsBalanced (load s.disputes id) body h k

-- Handlers that do not count disputes add to other counters.
abbrev Keeps : (ProtocolMetric → ProtocolMetric) → Type 0
Keeps f = (m : ProtocolMetric) → IsBalanced m → IsBalanced (f m)

balance-initiated :
    (block : ℕ)
    → Keeps (λ m. record m {
      total_disputes = m.total_disputes + 1;
      active_disputes = m.active_disputes +ℤ pos 1;
    })
balance-initiated block m h = record {
  balance = omega (arith, +ℤ_parts m.active_disputes (pos 1), h.balance);
  timeouts = h.timeouts;
}

balance-resolved :
    (timeout : Bool)
    → Keeps (λ m. record m {
      active_disputes = m.active_disputes -ℤ pos 1;
      resolved_disputes = m.resolved_disputes + 1;
      timed_out_disputes = if timeout then m.timed_out_disputes + 1 else m.timed_out_disputes;
    })
balance-resolved timeout m h = record {
  balance = omega (arith, -ℤ_parts m.active_disputes (pos 1), h.balance);
  timeouts = ground (arith, h.timeouts);
}

Keeps-other :
    (f : ProtocolMetric → ProtocolMetric)
    → ((m : ProtocolMetric)
        → ((f m).total_disputes ≡ m.total_disputes)
          × ((f m).active_disputes ≡ m.active_disputes)
          × ((f m).resolved_disputes ≡ m.resolved_disputes)
          × ((f m).timed_out_disputes ≡ m.timed_out_disputes))
    → Keeps f
Keeps-other f e m h = ground (arith, e m)

-- Every handler keeps the balance, whatever the event.
pub handle-IsBalanced :
    (c : Context) (e : Event) (s : Store) → StoreIsBalanced s → StoreIsBalanced (handle c e s)
unfolding handle
handle-IsBalanced c (dispute_initiated id a b hash) s h =
    unfold handle_dispute_initiated count_dispute in
    update_protocol-IsBalanced c.block _ (balance-initiated c.block)
      (update_daily-IsBalanced c.timestamp _ (saved refl h))
handle-IsBalanced c (stake_deposited id party amount) s h =
    unfold handle_stake_deposited in
    with_dispute-IsBalanced id _ h λ d.
      update_protocol-IsBalanced c.block _ (Keeps-other _ (λ m. (refl, refl, refl, refl)))
        (update_daily-IsBalanced c.timestamp _ (update_party-IsBalanced party _ (saved refl h)))
handle-IsBalanced c (proposal_submitted id content) s h =
    unfold handle_proposal_submitted in
    with_dispute-IsBalanced id _ h λ d. update_daily-IsBalanced c.timestamp _ (saved refl h)
handle-IsBalanced c (acceptance_signaled id party) s h =
    unfold handle_acceptance_signaled in
    with_dispute-IsBalanced id _ h λ d. update_party-IsBalanced party _ (saved refl h)
handle-IsBalanced c (counter_proposed id party n) s h =
    unfold handle_counter_proposed in
    with_dispute-IsBalanced id _ h λ d.
      update_protocol-IsBalanced c.block _ (Keeps-other _ (λ m. (refl, refl, refl, refl)))
        (update_daily-IsBalanced c.timestamp _ (saved refl h))
handle-IsBalanced c (stakes_burned id amount) s h =
    unfold handle_stakes_burned in
    with_dispute-IsBalanced id _ h λ d.
      update_protocol-IsBalanced c.block _ (Keeps-other _ (λ m. (refl, refl, refl, refl))) (
        update_daily-IsBalanced c.timestamp _ (
          update_party-IsBalanced d.counterparty _
            (update_party-IsBalanced d.initiator _ (saved refl h))))
handle-IsBalanced c (default_license id) s h =
    unfold handle_default_license_applied in with_dispute-IsBalanced id _ h λ d. saved refl h
handle-IsBalanced c (dispute_resolved id outcome) s h =
    unfold handle_dispute_resolved in
    with_dispute-IsBalanced id _ h λ d.
      update_protocol-IsBalanced c.block _ (balance-resolved (is_timeout (outcome_of outcome))) (
        update_daily-IsBalanced c.timestamp _ (
          update_party-IsBalanced d.counterparty _
            (update_party-IsBalanced d.initiator _ (saved refl h))))
handle-IsBalanced c (score_updated party old new) s h =
    unfold handle_harassment_score_updated in
    on_found-IsBalanced (load s.parties party) _ h λ p. saved refl h
handle-IsBalanced c (zk_identity id hash first) s h =
    unfold handle_zk_identity_registered in with_dispute-IsBalanced id _ h λ d. saved refl h
handle-IsBalanced c (fido_acceptance id) s h =
    unfold handle_fido_acceptance in with_dispute-IsBalanced id _ h λ d. saved refl h
handle-IsBalanced c (did_associated id did first) s h =
    unfold handle_did_associated_with_dispute in with_dispute-IsBalanced id _ h λ d. saved refl h

index_all-IsBalanced :
    (events : List (Context × Event)) (s : Store)
    → StoreIsBalanced s
    → StoreIsBalanced (index_all events s)
unfolding index_all
index_all-IsBalanced [] s h = h
index_all-IsBalanced ((c, e) ∷ rest) s h =
    index_all-IsBalanced rest (handle c e s) (handle-IsBalanced c e s h)

-- After any events from the empty store, the metric that the next handler would read is balanced.
pub metric-IsBalanced :
    (events : List (Context × Event))
    → IsBalanced (or_new_protocol (index_all events empty).protocol)
metric-IsBalanced events =
    current_metric (index_all events empty).protocol
      (index_all-IsBalanced events empty (record { metric = tt })).metric
