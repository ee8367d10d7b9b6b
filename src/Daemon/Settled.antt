-- ===== src/Daemon/Settled.antt =====
-- Every request of sdk/security/boundary-daemon.ts is settled once, or still pending.
use ilr_module.Prelude.{
  ℕ, ◌+◌, ◌≤◌, ◌≡◌, refl, ap, List, [], ◌∷◌, ◌++◌, map, Bool, true, false, ◌&&◌, ◌||◌, not,
  Bool-cases, inl, inr, leb, ◌==◌, if◌then◌else◌, Option, none, some, length, All-append, arith,
}
use ilr_module.Prelude.Text.{Text}
use ilr_module.Hex.{trim_start}
use ilr_module.Daemon.Protocol.{
  RequestId, MessageType, request, response, event, other_type, DaemonMessage, Effect, issued,
  resolved, rejected, not_connected, write_failed, parse_failed, daemon_event, request_timeout,
  connection_closed, Protocol, new_protocol, Step, is_pending, remove, insert, settle, handle_typed,
  handle_message, handle_parsed, handle_line, handle_lines, handle_data, split_lines, send_request,
  request_timer, disconnect, socket_created, socket_connected, socket_closed,
}
use ilr_module.Daemon.Pending.{
  Op, requests, receives, timer_fires, creates_socket, connects, closes, disconnects, count,
  issued_ids, settled_ids, step, run, count-append, issued_ids-append, settled_ids-append, one_if,
  Numbered, count-remove, Numbered-remove, new-is_pending, is_pending-added, Numbered-mono,
}

-- A step that settles what it takes from the pending requests, and issues the next numbers.
record Accounted (s : Protocol) (st : Step) : Type 0 where
  balance :
      (n : ℕ)
      → count n (settled_ids st.effects) + count n st.after.pending
        ≡ count n s.pending + count n (issued_ids st.effects)
  numbers :
      (n : ℕ)
      → count n (issued_ids st.effects) + one_if (leb n s.request_counter)
        ≡ one_if (leb n st.after.request_counter)
  numbered : Numbered st.after.request_counter st.after.pending

quiet :
    (s t : Protocol)
    → Numbered s.request_counter s.pending
    → t.pending ≡ s.pending
    → t.request_counter ≡ s.request_counter
    → (es : List Effect) → issued_ids es ≡ []
    → settled_ids es ≡ []
    → Accounted s (record { after = t; effects = es })
quiet s t h p c es i q = record {
  balance = λ n. rw (p, i, q) (omega arith);
  numbers = λ n. rw (c, i) (omega arith);
  numbered = rw (p, c) h;
}

composed :
    (s : Protocol) (first rest : Step)
    → Accounted s first
    → Accounted first.after rest
    → Accounted s (record { after = rest.after; effects = first.effects ++ rest.effects })
composed s first rest a b = record {
  balance = λ n.
      rw
        (
          settled_ids-append first.effects rest.effects,
          issued_ids-append first.effects rest.effects,
          count-append n (settled_ids first.effects) (settled_ids rest.effects),
          count-append n (issued_ids first.effects) (issued_ids rest.effects),
        )
        (omega (arith, a.balance n, b.balance n));
  numbers = λ n.
      rw
        (
          issued_ids-append first.effects rest.effects,
          count-append n (issued_ids first.effects) (issued_ids rest.effects),
        )
        (omega (arith, a.numbers n, b.numbers n));
  numbered = b.numbered;
}

-- A pending request leaves the map and is settled.
settled :
    (id : RequestId) (s : Protocol) (e : Effect)
    → Numbered s.request_counter s.pending
    → is_pending id s.pending ≡ true
    → issued_ids (e ∷ []) ≡ []
    → settled_ids (e ∷ []) ≡ id ∷ []
    → Accounted s (record { after = record s { pending = remove id s.pending }; effects = e ∷ [] })
settled id s e h is i q = record {
  balance = λ n. rw (i, q) (omega (arith, count-remove n id s.pending is));
  numbers = λ n. rw i (omega arith);
  numbered = Numbered-remove s.request_counter id s.pending h;
}

settle-Accounted :
    (o : Option RequestId) (payload : Text) (s : Protocol)
    → Numbered s.request_counter s.pending
    → Accounted s (settle o payload s)
unfolding settle
settle-Accounted none payload s h = quiet s s h refl refl [] refl refl
settle-Accounted (some id) payload s h = elim (Bool-cases (is_pending id s.pending)) [
  | inl is ↦ simp is (settled id s (resolved id payload) h is refl refl)
  | inr not ↦ simp not (quiet s s h refl refl [] refl refl)
]

timer-Accounted :
    (id : RequestId) (s : Protocol)
    → Numbered s.request_counter s.pending
    → Accounted s (request_timer id s)
unfolding request_timer
timer-Accounted id s h = elim (Bool-cases (is_pending id s.pending)) [
  | inl is ↦ simp is (settled id s (rejected id request_timeout) h is refl refl)
  | inr not ↦ simp not (quiet s s h refl refl [] refl refl)
]

typed-Accounted :
    (t : MessageType) (message : DaemonMessage) (s : Protocol)
    → Numbered s.request_counter s.pending
    → Accounted s (handle_typed t message s)
unfolding handle_typed
typed-Accounted response message s h = settle-Accounted message.id message.payload s h
typed-Accounted event message s h = quiet s s h refl refl (daemon_event message ∷ []) refl refl
typed-Accounted request message s h = quiet s s h refl refl [] refl refl
typed-Accounted other_type message s h = quiet s s h refl refl [] refl refl

all_rejected :
    (ps : List RequestId)
    → (settled_ids (map (λ id. rejected id connection_closed) ps) ≡ ps)
      × (issued_ids (map (λ id. rejected id connection_closed) ps) ≡ [])
all_rejected [] = (refl, refl)
all_rejected (p ∷ ps) = (ap (λ t. p ∷ t) (all_rejected ps).0, (all_rejected ps).1)

disconnect-Accounted :
    (s : Protocol) → Numbered s.request_counter s.pending → Accounted s (disconnect s)
unfolding disconnect
disconnect-Accounted s h = record {
  balance = λ n. rw ((all_rejected s.pending).0, (all_rejected s.pending).1) (omega arith);
  numbers = λ n. rw (all_rejected s.pending).1 (omega arith);
  numbered = tt;
}

module _ (s : Protocol) (now : ℕ) (h : Numbered s.request_counter s.pending) where
  abbrev id : RequestId
  id = record { number = s.request_counter + 1; time = now }

  inserted : insert id s.pending ≡ s.pending ++ id ∷ []
  unfolding insert
  inserted = simp (new-is_pending id s.pending s.request_counter h (omega arith))

  issued-Accounted : Accounted s (record {
    after = record s { request_counter = s.request_counter + 1; pending = insert id s.pending };
    effects = issued id ∷ [];
  })
  issued-Accounted = rw inserted (record {
    balance = λ n. omega (arith, count-append n s.pending (id ∷ []));
    numbers = λ n. ground arith;
    numbered =
        All-append (λ (p : RequestId). p.number ≤ s.request_counter + 1) s.pending (id ∷ [])
          (Numbered-mono s.request_counter (s.request_counter + 1) s.pending (omega arith) h)
          (omega arith, tt);
  })

send-Accounted :
    (now : ℕ) (written : Bool) (s : Protocol)
    → Numbered s.request_counter s.pending
    → Accounted s (send_request now written s)
unfolding send_request
send-Accounted now written s h = elim (Bool-cases (not s.connected || not s.has_socket)) [
  | inl off ↦ simp off (quiet s s h refl refl (not_connected ∷ []) refl refl)
  | inr on ↦ simp on (sent written)
]
  where
    entered : Protocol
    entered = record s {
      request_counter = s.request_counter + 1;
      pending = insert (id s now h) s.pending;
    }

    sent :
        (w : Bool)
        → Accounted s (
            if w then record { after = entered; effects = issued (id s now h) ∷ [] } else record {
              after = record entered { pending = remove (id s now h) entered.pending };
              effects = issued (id s now h) ∷ rejected (id s now h) write_failed ∷ [];
            })
    sent true = issued-Accounted s now h
    sent false =
        composed s (record { after = entered; effects = issued (id s now h) ∷ [] })
          (record {
            after = record entered { pending = remove (id s now h) entered.pending };
            effects = rejected (id s now h) write_failed ∷ [];
          })
          (issued-Accounted s now h)
          (settled (id s now h) entered (rejected (id s now h) write_failed)
            (issued-Accounted s now h).numbered
            (rw (inserted s now h) (is_pending-added (id s now h) s.pending)) refl refl)

module _ (parse : Text → Option DaemonMessage) where
  line-Accounted :
      (l : Text) (s : Protocol)
      → Numbered s.request_counter s.pending
      → Accounted s (handle_line parse l s)
  unfolding handle_line handle_parsed handle_message
  line-Accounted l s h = elim (Bool-cases (length (trim_start l) == 0)) [
    | inl blank ↦ simp blank (quiet s s h refl refl [] refl refl)
    | inr full ↦ simp full (parsed (parse l))
  ]
    where
      parsed : (m : Option DaemonMessage) → Accounted s (handle_parsed parse l m s)
      parsed none = quiet s s h refl refl (parse_failed l ∷ []) refl refl
      parsed (some m) = typed-Accounted m.message_type m s h

  lines-Accounted :
      (ls : List Text) (s : Protocol)
      → Numbered s.request_counter s.pending
      → Accounted s (handle_lines parse ls s)
  unfolding handle_lines
  lines-Accounted [] s h = quiet s s h refl refl [] refl refl
  lines-Accounted (l ∷ ls) s h =
      let first = line-Accounted l s h in
      composed s (handle_line parse l s) (handle_lines parse ls (handle_line parse l s).after) first
        (lines-Accounted ls (handle_line parse l s).after first.numbered)

  step-Accounted :
      (op : Op) (s : Protocol)
      → Numbered s.request_counter s.pending
      → Accounted s (step parse op s)
  unfolding step handle_data socket_created socket_connected socket_closed
  step-Accounted (requests now written) s h = send-Accounted now written s h
  step-Accounted (receives chunk) s h =
      let lines = split_lines (s.message_buffer ++ chunk) in
      let a = lines-Accounted lines.complete (record s { message_buffer = lines.rest }) h in
      record { balance = a.balance; numbers = a.numbers; numbered = a.numbered }
  step-Accounted (timer_fires id) s h = timer-Accounted id s h
  step-Accounted creates_socket s h = quiet s (socket_created s) h refl refl [] refl refl
  step-Accounted connects s h = quiet s (socket_connected s) h refl refl [] refl refl
  step-Accounted closes s h = quiet s (socket_closed s) h refl refl [] refl refl
  step-Accounted disconnects s h = disconnect-Accounted s h

  run-Accounted :
      (ops : List Op) (s : Protocol)
      → Numbered s.request_counter s.pending
      → Accounted s (run parse ops s)
  unfolding run
  run-Accounted [] s h = quiet s s h refl refl [] refl refl
  run-Accounted (op ∷ ops) s h =
      let first = step-Accounted op s h in
      composed s (step parse op s) (run parse ops (step parse op s).after) first
        (run-Accounted ops (step parse op s).after first.numbered)

  -- After any operations of a new client, answers, timeouts and losses of the connection, for each
  -- number: the requests with this number that were resolved or rejected, together with those that
  -- are pending, are those that were issued, and exactly one was issued if the number lies between 1
  -- and the counter, none otherwise. So no request is settled twice, and none is lost.
  pub run-settled :
      (ops : List Op) (n : ℕ)
      → (count n (settled_ids (run parse ops new_protocol).effects)
            + count n (run parse ops new_protocol).after.pending
          ≡ count n (issued_ids (run parse ops new_protocol).effects))
        × (count n (issued_ids (run parse ops new_protocol).effects)
            ≡ one_if (leb 1 n && leb n (run parse ops new_protocol).after.request_counter))
  run-settled ops n =
      let a = run-Accounted ops new_protocol tt in
      (omega (arith, a.balance n), ground (arith, a.numbers n))
