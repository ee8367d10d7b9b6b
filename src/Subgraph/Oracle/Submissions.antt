-- ===== src/Subgraph/Oracle/Submissions.antt =====
-- When the events of the oracle are indexed, and which submission a proposal then records.
use Prim.Native.String.{String}
use ilr_module.Prelude.{
  ℕ, ◌≡◌, refl, sym, ap, ◌∙◌, Bool, true, false, ◌||◌, ◌&&◌, List, [], ◌∷◌, Option, none, some,
  if◌then◌else◌, ◌==◌, inl, inr, Bool-cases, ==_iff,
}
use ilr_module.Subgraph.Map.{Map, load, save, load-save, nat_key}
use ilr_module.Subgraph.Schema.{Store, Context, OracleProposal}
use ilr_module.Subgraph.Oracle.{
  or_blank, asked_proposal, answered_proposal, reset_proposal, count_request, count_answer,
  count_reset, has_required, save_proposal, once_saved, handle_proposal_requested,
  handle_proposal_submitted_to_ilrm, handle_proposal_reset, update_oracle, Event, requested,
  submitted, withdrawn, handle,
}

abbrev next_of : Option Store → (Store → Option Store) → Option Store
next_of none rest = none
next_of (some s) rest = rest s

-- The events of a chain, in order, until the store refuses an entity.
unfoldable pub index_all : List (Context × Event) → Store → Option Store
index_all [] s = some s
index_all ((c, e) ∷ rest) s = next_of (handle c e s) (index_all rest)

abbrev pub submission_in : Option OracleProposal → Option ℕ
submission_in none = none
submission_in (some p) = p.submitted_at

-- The time of the submission that the store records for a dispute.
abbrev pub submission : Store → ℕ → Option ℕ
submission s id = submission_in (load s.oracle_proposals id)

-- The same from the events alone: a submission sets the time, a reset takes it back.
abbrev pub after_event : Context → Event → ℕ → Option ℕ → Option ℕ
after_event c (requested d requester evidence_hash) id known = known
after_event c (submitted d content submitter) id known = if d == id then some c.timestamp else known
after_event c (withdrawn d reason) id known = if d == id then none else known

abbrev pub last_submission : List (Context × Event) → ℕ → Option ℕ → Option ℕ
last_submission [] id known = known
last_submission ((c, e) ∷ rest) id known = last_submission rest id (after_event c e id known)

abbrev complete_in : Option OracleProposal → Bool
complete_in none = false
complete_in (some p) = has_required p

-- Whether the store has a proposal for a dispute with the fields that are required.
abbrev pub is_asked : Store → ℕ → Bool
is_asked s id = complete_in (load s.oracle_proposals id)

-- From the events alone: each submission and each reset is about a dispute that was asked before.
abbrev pub all_asked : List (Context × Event) → (ℕ → Bool) → Bool
all_asked [] asked = true
all_asked ((c, requested d requester evidence_hash) ∷ rest) asked =
    all_asked rest (λ id. (d == id) || asked id)
all_asked ((c, submitted d content submitter) ∷ rest) asked = asked d && all_asked rest asked
all_asked ((c, withdrawn d reason) ∷ rest) asked = asked d && all_asked rest asked

saved_submission :
    (m : Map ℕ OracleProposal) (d id : ℕ) (p : OracleProposal)
    → submission_in (load (save m d p) id)
      ≡ (if d == id then p.submitted_at else submission_in (load m id))
saved_submission m d id p = elim (Bool-cases (d == id)) [
  | inl t ↦ ap submission_in (load-save m d id p) ∙ rw t refl
  | inr t ↦ ap submission_in (load-save m d id p) ∙ rw t refl
]

saved_complete :
    (m : Map ℕ OracleProposal) (d id : ℕ) (p : OracleProposal)
    → has_required p ≡ true
    → complete_in (load (save m d p) id) ≡ ((d == id) || complete_in (load m id))
saved_complete m d id p h = elim (Bool-cases (d == id)) [
  | inl t ↦ ap complete_in (load-save m d id p) ∙ rw t h
  | inr t ↦ ap complete_in (load-save m d id p) ∙ rw t refl
]

kept_by_or_blank :
    (o : Option OracleProposal) (timestamp : ℕ)
    → (or_blank o timestamp).submitted_at ≡ submission_in o
kept_by_or_blank none timestamp = refl
kept_by_or_blank (some p) timestamp = refl

required_by_or_blank :
    (o : Option OracleProposal) (timestamp : ℕ)
    → has_required (or_blank o timestamp) ≡ complete_in o
required_by_or_blank none timestamp = refl
required_by_or_blank (some p) timestamp = refl

same_either_way :
    (m : Map ℕ OracleProposal) (d id timestamp : ℕ)
    → (if d == id then (or_blank (load m d) timestamp).submitted_at else submission_in (load m id))
      ≡ submission_in (load m id)
same_either_way m d id timestamp = elim (Bool-cases (d == id)) [
  | inl t ↦ rw t (
      kept_by_or_blank (load m d) timestamp
      ∙ ap (λ i. submission_in (load m i)) ((==_iff d id).0 t))
  | inr t ↦ rw t refl
]

already_asked : (asked : ℕ → Bool) (d id : ℕ) → asked d ≡ true → ((d == id) || asked id) ≡ asked id
already_asked asked d id h = elim (Bool-cases (d == id)) [
  | inl t ↦ rw t (sym h ∙ ap asked ((==_iff d id).0 t))
  | inr t ↦ rw t refl
]

-- What the event leaves, if the store takes the proposal.
pub record Indexed (c : Context) (e : Event) (s : Store) (known : ℕ → Bool) : Type 0 where
  pub after : Store
  pub result : handle c e s ≡ some after
  pub submissions : (id : ℕ) → submission after id ≡ after_event c e id (submission s id)
  pub asked : (id : ℕ) → is_asked after id ≡ known id

module _ (s : Store) (d : ℕ) (p : OracleProposal) (rest : Store → Store) where
  once_saved-taken :
      has_required p ≡ true
      → once_saved (save_proposal s d p) rest
        ≡ some (rest (record s { oracle_proposals = save s.oracle_proposals d p }))
  once_saved-taken h = rw h refl

  once_saved-refused : has_required p ≡ false → once_saved (save_proposal s d p) rest ≡ none
  once_saved-refused h = rw h refl

requested-Indexed :
    (c : Context) (d requester evidence_hash : ℕ) (s : Store) (known : ℕ → Bool)
    → ((id : ℕ) → is_asked s id ≡ known id)
    → Indexed c (requested d requester evidence_hash) s (λ id. (d == id) || known id)
unfolding handle handle_proposal_requested update_oracle
requested-Indexed c d requester evidence_hash s known h =
    let p =
      asked_proposal c requester evidence_hash (or_blank (load s.oracle_proposals d) c.timestamp) in
    record {
      after = count_request c (record s { oracle_proposals = save s.oracle_proposals d p });
      result = once_saved-taken s d p (count_request c) refl;
      submissions = λ id.
          saved_submission s.oracle_proposals d id p
          ∙ same_either_way s.oracle_proposals d id c.timestamp;
      asked = λ id. saved_complete s.oracle_proposals d id p refl ∙ ap (λ t. (d == id) || t) (h id);
    }

module _ (c : Context) (d : ℕ) (s : Store) (known : ℕ → Bool)
    (h : (id : ℕ) → is_asked s id ≡ known id) where
  abbrev found : OracleProposal
  found = or_blank (load s.oracle_proposals d) c.timestamp

  found_required : has_required found ≡ known d
  found_required = required_by_or_blank (load s.oracle_proposals d) c.timestamp ∙ h d

  still_asked :
      (p : OracleProposal)
      → has_required p ≡ known d
      → known d ≡ true
      → (id : ℕ) → complete_in (load (save s.oracle_proposals d p) id) ≡ known id
  still_asked p e t id =
      saved_complete s.oracle_proposals d id p (e ∙ t)
      ∙ ap (λ b. (d == id) || b) (h id)
      ∙ already_asked known d id t

  submitted-Indexed :
      (content : String) (submitter : ℕ)
      → known d ≡ true
      → Indexed c (submitted d content submitter) s known
  unfolding handle handle_proposal_submitted_to_ilrm update_oracle
  submitted-Indexed content submitter t =
      let p = answered_proposal c content submitter found in
      record {
        after = count_answer c found (record s { oracle_proposals = save s.oracle_proposals d p });
        result = once_saved-taken s d p (count_answer c found) (found_required ∙ t);
        submissions = λ id. saved_submission s.oracle_proposals d id p;
        asked = still_asked p found_required t;
      }

  withdrawn-Indexed : (reason : String) → known d ≡ true → Indexed c (withdrawn d reason) s known
  unfolding handle handle_proposal_reset update_oracle
  withdrawn-Indexed reason t =
      let p = reset_proposal reason found in
      record {
        after = count_reset c (record s { oracle_proposals = save s.oracle_proposals d p });
        result = once_saved-taken s d p (count_reset c) (found_required ∙ t);
        submissions = λ id. saved_submission s.oracle_proposals d id p;
        asked = still_asked p found_required t;
      }

  submitted-refused :
      (content : String) (submitter : ℕ)
      → known d ≡ false
      → handle c (submitted d content submitter) s ≡ none
  unfolding handle handle_proposal_submitted_to_ilrm
  submitted-refused content submitter t =
      once_saved-refused s d (answered_proposal c content submitter found) (count_answer c found)
        (found_required ∙ t)

  withdrawn-refused : (reason : String) → known d ≡ false → handle c (withdrawn d reason) s ≡ none
  unfolding handle handle_proposal_reset
  withdrawn-refused reason t =
      once_saved-refused s d (reset_proposal reason found) (count_reset c) (found_required ∙ t)

abbrev pub recorded : Option Store → ℕ → Option (Option ℕ)
recorded none id = none
recorded (some s) id = some (submission s id)

-- What the events say: nothing is indexed if one of them is about a dispute that was not asked before.
abbrev pub expected : List (Context × Event) → (ℕ → Bool) → ℕ → Option ℕ → Option (Option ℕ)
expected events asked id known =
    if all_asked events asked then some (last_submission events id known) else none

-- One event that the store takes, and then the rest.
onward :
    (c : Context) (e : Event) (s : Store) (k : ℕ → Bool) (rest : List (Context × Event)) (id : ℕ)
    → Indexed c e s k
    → ((t : Store)
        → ((i : ℕ) → is_asked t i ≡ k i)
        → recorded (index_all rest t) id ≡ expected rest k id (submission t id))
    → recorded (next_of (handle c e s) (index_all rest)) id
      ≡ expected rest k id (after_event c e id (submission s id))
onward c e s k rest id ix ih =
    ap (λ o. recorded (next_of o (index_all rest)) id) ix.result
    ∙ ih ix.after ix.asked
    ∙ ap (expected rest k id) (ix.submissions id)

index_all-expected :
    (events : List (Context × Event)) (s : Store) (known : ℕ → Bool) (id : ℕ)
    → ((i : ℕ) → is_asked s i ≡ known i)
    → recorded (index_all events s) id ≡ expected events known id (submission s id)
unfolding index_all
index_all-expected [] s known id h = refl
index_all-expected ((c, requested d requester evidence_hash) ∷ rest) s known id h =
    let k : ℕ → Bool = λ i. (d == i) || known i in
    onward c (requested d requester evidence_hash) s k rest id
      (requested-Indexed c d requester evidence_hash s known h)
      (λ t. index_all-expected rest t k id)
index_all-expected ((c, submitted d content submitter) ∷ rest) s known id h =
    elim (Bool-cases (known d)) [
      | inl t ↦
          onward c (submitted d content submitter) s known rest id
            (submitted-Indexed c d s known h content submitter t)
            (λ u. index_all-expected rest u known id)
          ∙ rw t refl
      | inr t ↦
          ap (λ o. recorded (next_of o (index_all rest)) id)
            (submitted-refused c d s known h content submitter t)
          ∙ rw t refl
    ]
index_all-expected ((c, withdrawn d reason) ∷ rest) s known id h = elim (Bool-cases (known d)) [
  | inl t ↦
      onward c (withdrawn d reason) s known rest id (withdrawn-Indexed c d s known h reason t)
        (λ u. index_all-expected rest u known id)
      ∙ rw t refl
  | inr t ↦
      ap (λ o. recorded (next_of o (index_all rest)) id) (withdrawn-refused c d s known h reason t)
      ∙ rw t refl
]

-- The events of the Oracle contract are indexed to their end exactly if each submission and each reset
-- is about a dispute that an event before, or the store at the start, asked for: else the store
-- refuses an entity. When they are, the submission time that is saved for a dispute is that of the
-- last submission to it that no reset of it follows, or what was saved before when there is no
-- submission and no reset.
pub index_all-submission :
    (events : List (Context × Event)) (s : Store) (id : ℕ)
    → recorded (index_all events s) id ≡ expected events (is_asked s) id (submission s id)
index_all-submission events s id = index_all-expected events s (is_asked s) id (λ i. refl)
