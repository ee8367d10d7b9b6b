-- ===== src/Subgraph/Bridge/Status.antt =====
-- The status of a batch is what the events about it say, in their order.
use ilr_module.Prelude.{
  ℕ, ◌≡◌, refl, sym, ap, ◌∙◌, Bool, true, false, List, [], ◌∷◌, Option, none, some, if◌then◌else◌,
  ◌==◌, inl, inr, Bool-cases, ==_iff,
}
use ilr_module.Subgraph.Map.{Map, load, save, load-save, nat_key, pair_key}
use ilr_module.Subgraph.Schema.{Store, Context, L3Batch, BatchStatus, waiting, finalized, reverted}
use ilr_module.Subgraph.Ilrm.{on_found, update_protocol}
use ilr_module.Subgraph.Bridge.{
  resolve_batch, handle_batch_submitted, handle_batch_finalized, update_l3,
  handle_challenge_initiated, handle_challenge_resolved, Event, batch_submitted, batch_finalized,
  challenge_initiated, challenge_resolved, handle,
}

unfoldable pub index_all : List (Context × Event) → Store → Store
index_all [] s = s
index_all ((c, e) ∷ rest) s = index_all rest (handle c e s)

abbrev pub status_in : Option L3Batch → Option BatchStatus
status_in none = none
status_in (some batch) = some batch.status

abbrev pub status_of : Store → ℕ → Option BatchStatus
status_of s id = status_in (load s.batches id)

abbrev pub if_known : Option BatchStatus → BatchStatus → Option BatchStatus
if_known none status = none
if_known (some old) status = some status

-- The status from the events alone: a submission starts a batch, also one known before; what
-- concerns an unknown batch has no effect; a finalization and a successful challenge set the
-- status whatever it was.
abbrev pub after_event : Event → ℕ → Option BatchStatus → Option BatchStatus
after_event (batch_submitted b root count submitter) id known =
    if b == id then some waiting else known
after_event (batch_finalized b) id known = if b == id then if_known known finalized else known
after_event (challenge_initiated b challenger) id known = known
after_event (challenge_resolved b succeeded) id known =
    if b == id then (if succeeded then if_known known reverted else known) else known

abbrev pub last_status : List (Context × Event) → ℕ → Option BatchStatus → Option BatchStatus
last_status [] id known = known
last_status ((c, e) ∷ rest) id known = last_status rest id (after_event e id known)

saved_status :
    (m : Map ℕ L3Batch) (b id : ℕ) (batch : L3Batch)
    → status_in (load (save m b batch) id)
      ≡ (if b == id then some batch.status else status_in (load m id))
saved_status m b id batch = elim (Bool-cases (b == id)) [
  | inl t ↦ ap status_in (load-save m b id batch) ∙ rw t refl
  | inr t ↦ ap status_in (load-save m b id batch) ∙ rw t refl
]

abbrev map_found : (L3Batch → L3Batch) → Option L3Batch → Option L3Batch
map_found change none = none
map_found change (some batch) = some (change batch)

-- A handler that changes a batch which it finds.
found_status :
    (s : Store) (b id : ℕ) (o : Option L3Batch) (change : L3Batch → L3Batch)
    (body : L3Batch → Store)
    → load s.batches b ≡ o
    → ((batch : L3Batch) → (body batch).batches ≡ save s.batches b (change batch))
    → status_of (on_found s o body) id
      ≡ (if b == id then status_in (map_found change o) else status_of s id)
unfolding on_found
found_status s b id none change body e k = elim (Bool-cases (b == id)) [
  | inl t ↦ rw t (ap status_in (ap (load s.batches) (sym ((==_iff b id).0 t)) ∙ e))
  | inr t ↦ rw t refl
]
found_status s b id (some batch) change body e k =
    ap (λ m. status_in (load m id)) (k batch) ∙ saved_status s.batches b id (change batch)

-- What the change does to the status is what the event says of it.
same_change :
    (s : Store) (b id : ℕ) (change : L3Batch → L3Batch)
    (says : Option BatchStatus → Option BatchStatus)
    → ((o : Option L3Batch) → status_in (map_found change o) ≡ says (status_in o))
    → (if b == id then status_in (map_found change (load s.batches b)) else status_of s id)
      ≡ (if b == id then says (status_of s id) else status_of s id)
same_change s b id change says k = elim (Bool-cases (b == id)) [
  | inl t ↦ rw t (k (load s.batches b) ∙ ap (λ i. says (status_of s i)) ((==_iff b id).0 t))
  | inr t ↦ rw t refl
]

finalized_status :
    (c : Context) (o : Option L3Batch)
    → status_in (
        map_found (λ batch. record batch { finalized_at = some c.timestamp; status = finalized }) o)
      ≡ if_known (status_in o) finalized
finalized_status c none = refl
finalized_status c (some batch) = refl

challenged_status :
    (o : Option L3Batch)
    → status_in (map_found (λ batch. record batch { challenged = true }) o) ≡ status_in o
challenged_status none = refl
challenged_status (some batch) = refl

resolved_status :
    (succeeded : Bool) (o : Option L3Batch)
    → status_in (map_found (resolve_batch succeeded) o)
      ≡ (if succeeded then if_known (status_in o) reverted else status_in o)
resolved_status true none = refl
resolved_status true (some batch) = refl
resolved_status false none = refl
resolved_status false (some batch) = refl

either_way : (b : Bool) (o : Option BatchStatus) → (if b then o else o) ≡ o
either_way true o = refl
either_way false o = refl

step :
    (c : Context) (e : Event) (s : Store) (id : ℕ)
    → status_of (handle c e s) id ≡ after_event e id (status_of s id)
unfolding handle handle_batch_submitted handle_batch_finalized handle_challenge_initiated
    handle_challenge_resolved update_l3 update_protocol
step c (batch_submitted b root count submitter) s id = saved_status s.batches b id _
step c (batch_finalized b) s id =
    found_status s b id (load s.batches b)
      (λ batch. record batch { finalized_at = some c.timestamp; status = finalized }) _ refl
      (λ t. refl)
    ∙ same_change s b id _ (λ o. if_known o finalized) (finalized_status c)
step c (challenge_initiated b challenger) s id =
    found_status s b id (load s.batches b) (λ batch. record batch { challenged = true }) _ refl
      (λ t. refl)
    ∙ same_change s b id _ (λ o. o) challenged_status
    ∙ either_way (b == id) (status_of s id)
step c (challenge_resolved b succeeded) s id =
    found_status s b id (load s.batches b) (resolve_batch succeeded) _ refl (λ t. refl)
    ∙ same_change s b id (resolve_batch succeeded)
        (λ o. if succeeded then if_known o reverted else o) (resolved_status succeeded)

-- After any events of the L3Bridge contract, the saved status of a batch is the one that the events
-- about it set, taken in order from the status that was saved before.
pub index_all-status :
    (events : List (Context × Event)) (s : Store) (id : ℕ)
    → status_of (index_all events s) id ≡ last_status events id (status_of s id)
unfolding index_all
index_all-status [] s id = refl
index_all-status ((c, e) ∷ rest) s id =
    index_all-status rest (handle c e s) id ∙ ap (last_status rest id) (step c e s id)
