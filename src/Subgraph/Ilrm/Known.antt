-- ===== src/Subgraph/Ilrm/Known.antt =====
-- Changes of the store that initiate no dispute and count none.
use ilr_module.Prelude.{
  ℕ, ◌≡◌, refl, sym, ap, ◌∙◌, Bool, true, false, ◌||◌, Option, none, some, ◌==◌, inl, inr,
  Bool-cases, ==_iff,
}
use ilr_module.Subgraph.Map.{Map, load, save, load-save, nat_key}
use ilr_module.Subgraph.Schema.{Store, Party, Dispute, DailyMetric, ProtocolMetric}
use ilr_module.Subgraph.Ilrm.{
  get_or_create_protocol_metric, update_party, update_daily, update_protocol, with_dispute,
  on_found, or_new_protocol,
}

-- The disputes counted, the resolutions, and those of them that are timeouts.
abbrev pub Tally : Type 0
Tally = ℕ × (ℕ × ℕ)

abbrev pub tally_of : ProtocolMetric → Tally
tally_of m = (m.total_disputes, (m.resolved_disputes, m.timed_out_disputes))

abbrev pub tally : Store → Tally
tally s = tally_of (or_new_protocol s.protocol)

abbrev pub is_found : Option Dispute → Bool
is_found none = false
is_found (some d) = true

abbrev pub is_known : Store → ℕ → Bool
is_known s id = is_found (load s.disputes id)

-- A change of the store that initiates no dispute and counts nothing.
pub record Same (s t : Store) : Type 0 where
  pub known : (i : ℕ) → is_known t i ≡ is_known s i
  pub counted : tally t ≡ tally s

pub kept-Same : {s t : Store} → t.disputes ≡ s.disputes → t.protocol ≡ s.protocol → Same s t
kept-Same e f = record {
  known = λ i. ap (λ m. is_found (load m i)) e;
  counted = ap (λ o. tally_of (or_new_protocol o)) f;
}

Same-trans : {s t u : Store} → Same s t → Same t u → Same s u
Same-trans a b = record { known = λ i. b.known i ∙ a.known i; counted = b.counted ∙ a.counted }

pub is_found-save :
    (m : Map ℕ Dispute) (id i : ℕ) (d : Dispute)
    → is_found (load (save m id d) i) ≡ ((id == i) || is_found (load m i))
is_found-save m id i d = elim (Bool-cases (id == i)) [
  | inl same ↦ ap is_found (load-save m id i d) ∙ rw same refl
  | inr other ↦ ap is_found (load-save m id i d) ∙ rw other refl
]

pub saved_dispute-Same :
    {s t : Store} (id : ℕ) (d new : Dispute)
    → load s.disputes id ≡ some d
    → t.disputes ≡ save s.disputes id new
    → t.protocol ≡ s.protocol
    → Same s t
saved_dispute-Same {s} id d new e saved f = record {
  known = λ i.
      ap (λ m. is_found (load m i)) saved
      ∙ ap is_found (load-save s.disputes id i new)
      ∙ elim (Bool-cases (id == i)) [
        | inl same ↦
            rw same (sym (ap is_found (ap (load s.disputes) (sym ((==_iff id i).0 same)) ∙ e)))
        | inr other ↦ rw other refl
      ];
  counted = ap (λ o. tally_of (or_new_protocol o)) f;
}

pub on_found-Same :
    {A : Type 0} {s : Store} (o : Option A) (body : A → Store)
    → ((a : A) → Same s (body a))
    → Same s (on_found s o body)
unfolding on_found
on_found-Same none body k = kept-Same refl refl
on_found-Same (some a) body k = k a

pub update_party-Same :
    {s t : Store} (id : ℕ) (f : Party → Party) → Same s t → Same s (update_party t id f)
unfolding update_party
update_party-Same {s} {t} id f h =
    Same-trans h (on_found-Same (load t.parties id) _ (λ party. kept-Same refl refl))

pub update_daily-Same :
    {s t : Store} (at : ℕ) (f : DailyMetric → DailyMetric) → Same s t → Same s (update_daily t at f)
unfolding update_daily
update_daily-Same at f h = Same-trans h (kept-Same refl refl)

pub update_protocol-Same :
    {s t : Store} (block : ℕ) (f : ProtocolMetric → ProtocolMetric)
    → ((m : ProtocolMetric) → tally_of (f m) ≡ tally_of m)
    → Same s t
    → Same s (update_protocol t block f)
unfolding update_protocol get_or_create_protocol_metric
update_protocol-Same {s} {t} block f k h = record {
  known = h.known;
  counted = k (or_new_protocol t.protocol) ∙ h.counted;
}

found_dispute-Same :
    {s : Store} (o found : Option Dispute) (body : Dispute → Store)
    → found ≡ o
    → ((d : Dispute) → found ≡ some d → Same s (body d))
    → Same s (on_found s o body)
unfolding on_found
found_dispute-Same none found body e k = kept-Same refl refl
found_dispute-Same (some d) found body e k = k d e

pub with_dispute-Same :
    {s : Store} (id : ℕ) (body : Dispute → Store)
    → ((d : Dispute) → load s.disputes id ≡ some d → Same s (body d))
    → Same s (with_dispute s id body)
unfolding with_dispute
with_dispute-Same {s} id body k =
    found_dispute-Same (load s.disputes id) (load s.disputes id) body refl k
