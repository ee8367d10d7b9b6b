-- ===== src/Subgraph/Treasury/Subsidies.antt =====
-- The subsidies of the protocol metric are those of the parties.
use ilr_module.Prelude.{
  ℕ, ◌+◌, ◌≡◌, refl, ap, List, [], ◌∷◌, Option, none, some, arith, ◌==◌, Option-cases, inl, inr,
  Bool-cases,
}
use ilr_module.Subgraph.Map.{Map, load, save, nat_key, load-save_self}
use ilr_module.Subgraph.Schema.{Store, Context, Party, ProtocolMetric, TreasuryMetric, empty}
use ilr_module.Subgraph.Ilrm.{
  new_party, update_protocol, get_or_create_protocol_metric, or_new_protocol,
}
use ilr_module.Subgraph.Assets.{find_or_create_party}
use ilr_module.Subgraph.Treasury.{
  update_treasury, subsidise, is_burn, handle_subsidy_funded, handle_treasury_received,
  handle_treasury_harassment_update, handle_caps_updated, Event, subsidy_funded, treasury_received,
  harassment_updated, caps_updated, handle,
}

-- The subsidies that the saved parties have received.
unfoldable pub received : Map ℕ Party → ℕ
received [] = 0
received ((i, party) ∷ m) = party.total_subsidies_received + received m

abbrev of_party : Option Party → ℕ
of_party none = 0
of_party (some party) = party.total_subsidies_received

abbrev distributed : Option ProtocolMetric → ℕ
distributed o = (or_new_protocol o).total_subsidies_distributed

-- Saving a party replaces its share of the sum.
received-save :
    (m : Map ℕ Party) (id : ℕ) (party : Party)
    → received (save m id party) + of_party (load m id)
      ≡ received m + party.total_subsidies_received
unfolding received save load
received-save [] id party = omega arith
received-save ((i, p) ∷ m) id party = elim (Bool-cases (i == id)) [
  | inl t ↦ rw t (omega arith)
  | inr t ↦ rw t (omega (arith, received-save m id party))
]

-- Both totals of a store agree.
pub record SubsidiesAgree (s : Store) : Type 0 where
  pub total : distributed s.protocol ≡ received s.parties

found :
    (s : Store) (id timestamp : ℕ)
    → (of_party (some (find_or_create_party s id timestamp).0)
        ≡ of_party (load (find_or_create_party s id timestamp).1.parties id))
      × ((received (find_or_create_party s id timestamp).1.parties ≡ received s.parties)
          × ((find_or_create_party s id timestamp).1.protocol ≡ s.protocol))
unfolding find_or_create_party
found s id timestamp = elim (Option-cases (load s.parties id)) [
  | inl n ↦ ground (
    arith,
    n,
    received-save s.parties id (new_party timestamp),
    load-save_self s.parties id (new_party timestamp),
  )
  | inr (p, e) ↦ ground (arith, e)
]

abbrev with_status : ℕ → ℕ → Party → Party
with_status score timestamp party = record party {
  harassment_score = score;
  last_active = timestamp;
}

-- A party that is found or created and saved with more subsidies adds them to the sum.
received_change :
    (s : Store) (id timestamp : ℕ) (party : Party) (amount : ℕ)
    → party.total_subsidies_received
      ≡ (find_or_create_party s id timestamp).0.total_subsidies_received + amount
    → received (save (find_or_create_party s id timestamp).1.parties id party)
      ≡ received s.parties + amount
received_change s id timestamp party amount e = omega (
  arith,
  found s id timestamp,
  received-save (find_or_create_party s id timestamp).1.parties id party,
)

-- The total of the protocol metric after an update of the treasury's metric.
treasury-kept :
    (s : Store) (timestamp : ℕ) (f : TreasuryMetric → TreasuryMetric)
    → SubsidiesAgree s
    → SubsidiesAgree (update_treasury s timestamp f)
unfolding update_treasury
treasury-kept s timestamp f h = record { total = h.total }

handle-SubsidiesAgree :
    (c : Context) (e : Event) (s : Store) → SubsidiesAgree s → SubsidiesAgree (handle c e s)
unfolding handle
handle-SubsidiesAgree c (subsidy_funded recipient distributor amount reason) s h =
    let p = find_or_create_party s recipient c.timestamp in
    unfold handle_subsidy_funded update_protocol update_treasury get_or_create_protocol_metric in
    record {
      total = omega (
        arith,
        h.total,
        ap distributed (found s recipient c.timestamp).1.1,
        received_change s recipient c.timestamp (subsidise c amount p.0) amount refl,
      );
    }
handle-SubsidiesAgree c (treasury_received amount reason) s h =
    unfold handle_treasury_received in
    elim (Bool-cases (is_burn reason)) [
      | inl t ↦ rw t (treasury-kept _ c.timestamp _ (record { total = h.total }))
      | inr t ↦ rw t (treasury-kept s c.timestamp _ h)
    ]
handle-SubsidiesAgree c (harassment_updated id old new) s h =
    let p = find_or_create_party s id c.timestamp in
    unfold handle_treasury_harassment_update in
    record {
      total = omega (
        arith,
        h.total,
        ap distributed (found s id c.timestamp).1.1,
        received_change s id c.timestamp (with_status new c.timestamp p.0) 0 (omega arith),
      );
    }
handle-SubsidiesAgree c (caps_updated subsidy_cap burn_cap) s h =
    unfold handle_caps_updated in treasury-kept s c.timestamp _ h

unfoldable pub index_all : List (Context × Event) → Store → Store
index_all [] s = s
index_all ((c, e) ∷ rest) s = index_all rest (handle c e s)

index_all-SubsidiesAgree :
    (events : List (Context × Event)) (s : Store)
    → SubsidiesAgree s
    → SubsidiesAgree (index_all events s)
unfolding index_all
index_all-SubsidiesAgree [] s h = h
index_all-SubsidiesAgree ((c, e) ∷ rest) s h =
    index_all-SubsidiesAgree rest (handle c e s) (handle-SubsidiesAgree c e s h)

-- After any events of the Treasury contract, indexed from an empty store, the subsidies that the
-- protocol metric counts are the sum of those that the parties have received.
pub subsidies_agree :
    (events : List (Context × Event))
    → (get_or_create_protocol_metric (index_all events empty)).total_subsidies_distributed
      ≡ received (index_all events empty).parties
unfolding get_or_create_protocol_metric
subsidies_agree events =
    (index_all-SubsidiesAgree events empty (record { total = unfold received in refl })).total
