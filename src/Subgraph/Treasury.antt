-- ===== src/Subgraph/Treasury.antt =====
-- The handlers of subgraph/src/treasury.ts: subsidies, burns and caps.
pub mod Subsidies
use Prim.Native.String.{String}
use Prim.Native.String
use Prim.Native.Nat.{Ordering}
use ilr_module.Prelude.{ℕ, ◌+◌, Bool, true, false, ◌||◌, Option, none, some, if◌then◌else◌}
use ilr_module.Subgraph.Map.{Map, load, save, nat_key, pair_key}
use ilr_module.Subgraph.Schema.{
  Store, Context, Party, Subsidy, Burn, TreasuryMetric, HarassmentScore, inc, day_of,
}
use ilr_module.Subgraph.Ilrm.{save_party, update_protocol}
use ilr_module.Subgraph.Assets.{find_or_create_party}

-- `a == b` on strings.
abbrev pub same_text : String → String → Bool
same_text a b = elim (String.compare a b) [ Ordering.eq ↦ true | _ ↦ false ]

abbrev pub new_treasury_metric : ℕ → TreasuryMetric
new_treasury_metric date = record {
  date = date;
  total_subsidies = 0;
  total_burns = 0;
  total_received = 0;
  subsidy_count = 0;
  burn_count = 0;
  subsidy_cap = 0;
  burn_cap = 0;
}

abbrev pub or_new_metric : Option TreasuryMetric → ℕ → TreasuryMetric
or_new_metric none date = new_treasury_metric date
or_new_metric (some metric) date = metric

unfoldable pub get_or_create_treasury_metric : Store → ℕ → TreasuryMetric
get_or_create_treasury_metric s timestamp =
    or_new_metric (load s.treasury (day_of timestamp)) (day_of timestamp)

unfoldable pub update_treasury : Store → ℕ → (TreasuryMetric → TreasuryMetric) → Store
unfolding get_or_create_treasury_metric
update_treasury s timestamp change = record s {
  treasury =
      save s.treasury (day_of timestamp) (change (get_or_create_treasury_metric s timestamp));
}

abbrev pub subsidise : Context → ℕ → Party → Party
subsidise c amount party = record party {
  total_subsidies_received = party.total_subsidies_received + amount;
  last_active = c.timestamp;
}

unfoldable pub handle_subsidy_funded : Context → ℕ → ℕ → ℕ → String → Store → Store
handle_subsidy_funded c recipient distributor amount reason s =
    let (party, s1) = find_or_create_party s recipient c.timestamp in
    let s2 = save_party s1 recipient (subsidise c amount party) in
    let s3 = record s2 {
      subsidies = save s2.subsidies c.tx_hash (record {
        recipient = recipient;
        distributor = distributor;
        amount = amount;
        reason = reason;
        timestamp = c.timestamp;
        tx_hash = c.tx_hash;
      });
    } in
    let s4 = update_treasury s3 c.timestamp λ m. record m {
      total_subsidies = m.total_subsidies + amount;
      subsidy_count = inc m.subsidy_count;
    } in
    update_protocol s4 c.block
      λ m. record m { total_subsidies_distributed = m.total_subsidies_distributed + amount }

abbrev pub is_burn : String → Bool
is_burn reason = same_text reason "burn" || same_text reason "timeout_burn"

unfoldable pub handle_treasury_received : Context → ℕ → String → Store → Store
handle_treasury_received c amount reason s =
    let burn : Burn = record {
      amount = amount;
      reason = reason;
      timestamp = c.timestamp;
      tx_hash = c.tx_hash;
    } in
    let burnt = record s { burns = save s.burns (c.tx_hash, c.log_index) burn } in
    if is_burn reason
    then update_treasury burnt c.timestamp
        (λ m. record m { total_burns = m.total_burns + amount; burn_count = inc m.burn_count })
    else update_treasury s c.timestamp
        (λ m. record m { total_received = m.total_received + amount })

-- The party is loaded, or created, before the record is saved.
unfoldable pub handle_treasury_harassment_update : Context → ℕ → ℕ → ℕ → Store → Store
handle_treasury_harassment_update c participant old_score new_score s =
    let (party, s1) = find_or_create_party s participant c.timestamp in
    let s2 = record s1 {
      treasury_scores =
          save s1.treasury_scores (participant, c.block)
            (record {
              party = participant;
              old_score = old_score;
              new_score = new_score;
              timestamp = c.timestamp;
              tx_hash = c.tx_hash;
            });
    } in
    save_party s2 participant
      (record party { harassment_score = new_score; last_active = c.timestamp })

unfoldable pub handle_caps_updated : Context → ℕ → ℕ → Store → Store
handle_caps_updated c subsidy_cap burn_cap s =
    update_treasury s c.timestamp λ m. record m { subsidy_cap = subsidy_cap; burn_cap = burn_cap }

-- The events of the Treasury contract, and the handler that subgraph/subgraph.yaml names for each.
pub data Event : Type 0 where
  subsidy_funded : ℕ → ℕ → ℕ → String → Event
  treasury_received : ℕ → String → Event
  harassment_updated : ℕ → ℕ → ℕ → Event
  caps_updated : ℕ → ℕ → Event

unfoldable pub handle : Context → Event → Store → Store
handle c (subsidy_funded recipient distributor amount reason) s =
    handle_subsidy_funded c recipient distributor amount reason s
handle c (treasury_received amount reason) s = handle_treasury_received c amount reason s
handle c (harassment_updated party old new) s = handle_treasury_harassment_update c party old new s
handle c (caps_updated subsidy_cap burn_cap) s = handle_caps_updated c subsidy_cap burn_cap s
