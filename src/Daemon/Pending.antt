-- ===== src/Daemon/Pending.antt =====
-- Runs of the protocol of sdk/security/boundary-daemon.ts, and how its requests are counted.
use ilr_module.Prelude.{
  ℕ, ◌+◌, ◌≤◌, ◌<◌, ◌≡◌, refl, ap, List, [], ◌∷◌, ◌++◌, Bool, true, false, Bool-cases, inl, inr,
  ◌==◌, if◌then◌else◌, Option, All, arith,
}
use ilr_module.Prelude.Text.{Text}
use ilr_module.Daemon.Protocol.{
  RequestId, same_id, DaemonMessage, Effect, issued, resolved, rejected, Protocol, Step, is_pending,
  remove, handle_data, send_request, request_timer, disconnect, socket_created, socket_connected,
  socket_closed,
}

pub data Op : Type 0 where
  requests : (now : ℕ) (written : Bool) → Op
  receives : Text → Op
  timer_fires : RequestId → Op
  creates_socket connects closes disconnects : Op

-- How many of the requests have the number `n`.
abbrev pub count : ℕ → List RequestId → ℕ
count n [] = 0
count n (p ∷ ps) = (if p.number == n then 1 else 0) + count n ps

-- The requests that were issued, and those that were resolved or rejected.
abbrev pub issued_ids : List Effect → List RequestId
issued_ids [] = []
issued_ids (issued id ∷ es) = id ∷ issued_ids es
issued_ids (_ ∷ es) = issued_ids es

abbrev pub settled_ids : List Effect → List RequestId
settled_ids [] = []
settled_ids (resolved id payload ∷ es) = id ∷ settled_ids es
settled_ids (rejected id e ∷ es) = id ∷ settled_ids es
settled_ids (_ ∷ es) = settled_ids es

module _ (parse : Text → Option DaemonMessage) where
  unfoldable pub step : Op → Protocol → Step
  unfolding send_request handle_data request_timer disconnect socket_created socket_connected
      socket_closed
  step (requests now written) s = send_request now written s
  step (receives chunk) s = handle_data parse chunk s
  step (timer_fires id) s = request_timer id s
  step creates_socket s = record { after = socket_created s; effects = [] }
  step connects s = record { after = socket_connected s; effects = [] }
  step closes s = record { after = socket_closed s; effects = [] }
  step disconnects s = disconnect s

  unfoldable pub run : List Op → Protocol → Step
  unfolding step
  run [] s = record { after = s; effects = [] }
  run (op ∷ ops) s =
      let first = step op s in
      let rest = run ops first.after in
      record { after = rest.after; effects = first.effects ++ rest.effects }

pub count-append : (n : ℕ) (ps qs : List RequestId) → count n (ps ++ qs) ≡ count n ps + count n qs
count-append n [] qs = omega arith
count-append n (p ∷ ps) qs = omega (arith, count-append n ps qs)

pub issued_ids-append :
    (es fs : List Effect) → issued_ids (es ++ fs) ≡ issued_ids es ++ issued_ids fs
issued_ids-append [] fs = refl
issued_ids-append (issued id ∷ es) fs = ap (λ t. id ∷ t) (issued_ids-append es fs)
issued_ids-append (_ ∷ es) fs = issued_ids-append es fs

pub settled_ids-append :
    (es fs : List Effect) → settled_ids (es ++ fs) ≡ settled_ids es ++ settled_ids fs
settled_ids-append [] fs = refl
settled_ids-append (resolved id payload ∷ es) fs = ap (λ t. id ∷ t) (settled_ids-append es fs)
settled_ids-append (rejected id e ∷ es) fs = ap (λ t. id ∷ t) (settled_ids-append es fs)
settled_ids-append (_ ∷ es) fs = settled_ids-append es fs

abbrev pub one_if : Bool → ℕ
one_if b = if b then 1 else 0

-- The requests bear numbers up to the counter.
abbrev pub Numbered : ℕ → List RequestId → Type 0
Numbered counter ps = All (λ (p : RequestId). p.number ≤ counter) ps

same_id-number : (a b : RequestId) → same_id a b ≡ true → a.number ≡ b.number
unfolding same_id
same_id-number a b h = ground arith

pub count-remove :
    (n : ℕ) (id : RequestId) (ps : List RequestId)
    → is_pending id ps ≡ true
    → one_if (id.number == n) + count n (remove id ps) ≡ count n ps
unfolding is_pending remove
count-remove n id [] h = absurd (cc)
count-remove n id (p ∷ ps) h = ground (arith, count-remove n id ps)

pub Numbered-remove :
    (k : ℕ) (id : RequestId) (ps : List RequestId) → Numbered k ps → Numbered k (remove id ps)
unfolding remove
Numbered-remove k id [] h = tt
Numbered-remove k id (p ∷ ps) h = elim (Bool-cases (same_id id p)) [
  | inl same ↦ simp same h.1
  | inr other ↦ simp other (h.0, Numbered-remove k id ps h.1)
]

-- A number above all of them is not pending.
pub new-is_pending :
    (id : RequestId) (ps : List RequestId)
    → (k : ℕ) → Numbered k ps
    → k < id.number
    → is_pending id ps ≡ false
unfolding is_pending
new-is_pending id [] k h l = refl
new-is_pending id (p ∷ ps) k h l = ground (arith, new-is_pending id ps k h.1 l, h.0)

pub is_pending-added : (id : RequestId) (ps : List RequestId) → is_pending id (ps ++ id ∷ []) ≡ true
unfolding is_pending same_id
is_pending-added id [] = ground arith
is_pending-added id (p ∷ ps) = ground (arith, is_pending-added id ps)

pub Numbered-mono : (j k : ℕ) (ps : List RequestId) → j ≤ k → Numbered j ps → Numbered k ps
Numbered-mono j k [] l h = tt
Numbered-mono j k (p ∷ ps) l h = (omega (arith, l, h.0), Numbered-mono j k ps l h.1)
