-- ===== src/Siem/Batches.antt =====
-- The batching of sdk/security/boundary-siem.ts: no event is lost between the calls and the posts.
use ilr_module.Prelude.{
  ℕ, ◌≡◌, refl, sym, ap, ap₂, ◌∙◌, List, [], ◌∷◌, ◌++◌, Bool, true, false, Bool-cases, inl, inr,
  ◌&&◌, ltb, leb, if◌then◌else◌, length, arith,
}
use mathlib.Core.List.{append-nil, append_assoc}
use ilr_module.Prelude.Text.{Text}
use ilr_module.Siem.Events.{SecurityEvent, severity_value}
use ilr_module.Siem.Queue.{take_batch, flush, add, timer_fires}
use ilr_module.Siem.Post.{Posted, response, throws}
use ilr_module.Siem.Client.{
  Client, Effect, events_path, batch_path, posted, Server, Step, batch_outcome, send_batch,
  send_batches, send_event, send_immediate, flushed_step, flush_client, queue_timer,
}
use ilr_module.Siem.Connection.{
  SocketSupport, undefined_socket, refused_socket, new_socket, connect, connect_web_socket,
  end_disconnect, on_open, on_close, schedule_reconnect, reconnect_timer, on_alert,
  max_reconnect_attempts, is_in,
}
use ilr_module.Siem.Runs.{
  Op, sends, flushes, queue_timer_fires, begins_disconnect, ends_disconnect, socket_opens,
  socket_closes, connects, reconnect_timer_fires, adds_callback, removes_callback, step, run,
  batched, urgent, connected_after, normal_events, urgent_events,
}

batched-append : (es fs : List Effect) → batched (es ++ fs) ≡ batched es ++ batched fs
batched-append [] fs = refl
batched-append (posted batch_path events payload r ∷ es) fs =
    ap (λ t. events ++ t) (batched-append es fs)
    ∙ sym (append_assoc events (batched es) (batched fs))
batched-append (posted events_path events payload r ∷ es) fs = batched-append es fs
batched-append (_ ∷ es) fs = batched-append es fs

urgent-append : (es fs : List Effect) → urgent (es ++ fs) ≡ urgent es ++ urgent fs
urgent-append [] fs = refl
urgent-append (posted events_path events payload r ∷ es) fs =
    ap (λ t. events ++ t) (urgent-append es fs) ∙ sym (append_assoc events (urgent es) (urgent fs))
urgent-append (posted batch_path events payload r ∷ es) fs = urgent-append es fs
urgent-append (_ ∷ es) fs = urgent-append es fs

normal_events-cons :
    (b : Bool) (op : Op) (ops : List Op)
    → normal_events b (op ∷ ops)
      ≡ normal_events b (op ∷ []) ++ normal_events (connected_after b op) ops
normal_events-cons b (sends server event) ops =
    ap (λ t. t ++ normal_events b ops)
      (sym (append-nil (if b && ltb (severity_value event.severity) 7 then event ∷ [] else [])))
normal_events-cons b _ ops = refl

urgent_events-cons :
    (b : Bool) (op : Op) (ops : List Op)
    → urgent_events b (op ∷ ops)
      ≡ urgent_events b (op ∷ []) ++ urgent_events (connected_after b op) ops
urgent_events-cons b (sends server event) ops =
    ap (λ t. t ++ urgent_events b ops)
      (sym (append-nil (if b && leb 7 (severity_value event.severity) then event ∷ [] else [])))
urgent_events-cons b _ ops = refl

-- What one operation does with the events: those that it posts in a batch and those that wait after
-- it are those that waited before, then those that it brings.
record Accounted (op : Op) (c : Client) (s : Step) : Type 0 where
  handed :
      batched s.effects ++ s.client.queue.queue
      ≡ c.queue.queue ++ normal_events c.connected (op ∷ [])
  prompt : urgent s.effects ≡ urgent_events c.connected (op ∷ [])
  link : s.client.connected ≡ connected_after c.connected op

ge→ltb-false : (a b : ℕ) → leb a b ≡ true → ltb b a ≡ false
ge→ltb-false a b h = ground arith

leb-false→ltb : (a b : ℕ) → leb a b ≡ false → ltb b a ≡ true
leb-false→ltb a b h = ground arith

module _ (date_time : Text → Text) where
  batched-outcome :
      (n : ℕ) (p : Posted)
      → (batched (batch_outcome date_time n p ∷ []) ≡ [])
        × (urgent (batch_outcome date_time n p ∷ []) ≡ [])
  unfolding batch_outcome
  batched-outcome n (response r) = (refl, refl)
  batched-outcome n (throws e) = (refl, refl)

  send_batches-taken :
      (c : Client) (server : Server) (q : List SecurityEvent)
      → (batched (send_batches date_time c server (take_batch q)) ≡ q)
        × (urgent (send_batches date_time c server (take_batch q)) ≡ [])
  unfolding send_batches send_batch take_batch
  send_batches-taken c server [] = (refl, refl)
  send_batches-taken c server (e ∷ es) = (
    ap (λ t. (e ∷ es) ++ t) (batched-outcome _ _).0 ∙ append-nil (e ∷ es),
    (batched-outcome _ _).1,
  )

  -- The three operations that flush what waits.
  flushed :
      (c : Client) (server : Server)
      → (batched (flush_client date_time c server).effects ≡ c.queue.queue)
        × (urgent (flush_client date_time c server).effects ≡ [])
  unfolding flush_client flush flushed_step
  flushed c server = send_batches-taken c server c.queue.queue

  add_batched :
      (c : Client) (server : Server) (event : SecurityEvent)
      → (batched (flushed_step date_time c server (add c.config.batch_size event c.queue)).effects
            ++ (add c.config.batch_size event c.queue).after.queue
          ≡ c.queue.queue ++ event ∷ [])
        × (urgent (flushed_step date_time c server (add c.config.batch_size event c.queue)).effects
            ≡ [])
  unfolding flushed_step add flush send_batches
  add_batched c server event =
      elim (Bool-cases (leb c.config.batch_size (length (c.queue.queue ++ event ∷ [])))) [
        | inl full ↦
            simp (full, append-nil) (send_batches-taken c server (c.queue.queue ++ event ∷ []))
        | inr room ↦ (simp room, simp room)
      ]

  sends-Accounted :
      (c : Client) (server : Server) (event : SecurityEvent)
      → Accounted (sends server event) c (send_event date_time c server event)
  unfolding send_event send_immediate severity_value
  sends-Accounted c server event = elim (Bool-cases c.connected) [
    | inl on ↦ elim (Bool-cases (leb 7 (severity_value event.severity))) [
      | inl up ↦ record {
        handed = simp (on, up, ge→ltb-false _ _ up, append-nil);
        prompt = simp (on, up);
        link = simp (on, up);
      }
      | inr down ↦ record {
        handed = simp (on, down, leb-false→ltb _ _ down, append-nil) (add_batched c server event).0;
        prompt = simp (on, down) (add_batched c server event).1;
        link = simp (on, down);
      }
    ]
    | inr off ↦ record { handed = simp (off, append-nil); prompt = simp off; link = simp off }
  ]

  timer-Accounted :
      (c : Client) (server : Server)
      → Accounted (queue_timer_fires server) c (queue_timer date_time c server)
  unfolding queue_timer timer_fires flushed_step flush send_batches
  timer-Accounted c server = elim (Bool-cases c.queue.flush_timer) [
    | inl set ↦ record {
      handed = simp (set, append-nil) (send_batches-taken c server c.queue.queue).0;
      prompt = simp set (send_batches-taken c server c.queue.queue).1;
      link = refl;
    }
    | inr unset ↦ record { handed = simp (unset, append-nil); prompt = simp unset; link = refl }
  ]

  socket-Accounted :
      (c : Client) (up : Client) (support : SocketSupport) (op : Op)
      → up.queue.queue ≡ c.queue.queue ++ normal_events c.connected (op ∷ [])
      → [] ≡ urgent_events c.connected (op ∷ [])
      → up.connected ≡ connected_after c.connected op
      → (awaited : Bool) → Accounted op c (connect_web_socket awaited support up)
  unfolding connect_web_socket
  socket-Accounted c up undefined_socket op q u l true = record { handed = q; prompt = u; link = l }
  socket-Accounted c up undefined_socket op q u l false = record {
    handed = q;
    prompt = u;
    link = l;
  }
  socket-Accounted c up refused_socket op q u l true = record { handed = q; prompt = u; link = l }
  socket-Accounted c up refused_socket op q u l false = record { handed = q; prompt = u; link = l }
  socket-Accounted c up new_socket op q u l awaited = record { handed = q; prompt = u; link = l }

  step-Accounted : (op : Op) (c : Client) → Accounted op c (step date_time op c)
  unfolding step end_disconnect on_open on_close schedule_reconnect connect reconnect_timer on_alert
  step-Accounted (sends server event) c = sends-Accounted c server event
  step-Accounted (flushes server) c = record {
    handed = simp append-nil (flushed c server).0;
    prompt = (flushed c server).1;
    link = refl;
  }
  step-Accounted (begins_disconnect server) c = record {
    handed = simp append-nil (flushed c server).0;
    prompt = (flushed c server).1;
    link = refl;
  }
  step-Accounted (queue_timer_fires server) c = timer-Accounted c server
  step-Accounted ends_disconnect c = elim (Bool-cases c.has_ws) [
    | inl has ↦ record { handed = simp (has, append-nil); prompt = simp has; link = refl }
    | inr has ↦ record { handed = simp (has, append-nil); prompt = simp has; link = refl }
  ]
  step-Accounted socket_opens c = elim (Bool-cases c.connecting) [
    | inl on ↦ record { handed = simp (on, append-nil); prompt = simp on; link = refl }
    | inr off ↦ record { handed = simp (off, append-nil); prompt = simp off; link = refl }
  ]
  step-Accounted socket_closes c =
      elim (Bool-cases (leb max_reconnect_attempts c.reconnect_attempts)) [
        | inl on ↦ record { handed = simp (on, append-nil); prompt = simp on; link = simp on }
        | inr off ↦ record { handed = simp (off, append-nil); prompt = simp off; link = simp off }
      ]
  step-Accounted (connects false support) c = record {
    handed = sym (append-nil c.queue.queue);
    prompt = refl;
    link = refl;
  }
  step-Accounted (connects true support) c = elim (Bool-cases c.config.enable_web_socket) [
    | inl on ↦ simp on (
        socket-Accounted c (record c { connected = true }) support (connects true support)
          (sym (append-nil c.queue.queue)) refl refl true)
    | inr off ↦ record { handed = simp (off, append-nil); prompt = simp off; link = simp off }
  ]
  step-Accounted (reconnect_timer_fires support) c = elim (Bool-cases c.connected) [
    | inl on ↦ simp on (
        socket-Accounted c c support (reconnect_timer_fires support)
          (sym (append-nil c.queue.queue)) refl refl false)
    | inr off ↦ record { handed = simp (off, append-nil); prompt = simp off; link = simp off }
  ]
  step-Accounted (adds_callback n) c = elim (Bool-cases (is_in n c.alert_callbacks)) [
    | inl on ↦ record { handed = simp (on, append-nil); prompt = refl; link = simp on }
    | inr off ↦ record { handed = simp (off, append-nil); prompt = refl; link = simp off }
  ]
  step-Accounted (removes_callback n) c = record {
    handed = sym (append-nil c.queue.queue);
    prompt = refl;
    link = refl;
  }

  -- From any state of the client and for any operations: the events of the posted batches, then those
  -- that still wait, are those that waited before, then the events below the severity HIGH that were
  -- sent while the client was connected, each once and in this order; and the events that were posted
  -- alone are those from the severity HIGH on, in their order.
  pub run-events :
      (ops : List Op) (c : Client)
      → (batched (run date_time ops c).effects ++ (run date_time ops c).client.queue.queue
          ≡ c.queue.queue ++ normal_events c.connected ops)
        × (urgent (run date_time ops c).effects ≡ urgent_events c.connected ops)
  unfolding run
  run-events [] c = (sym (append-nil c.queue.queue), refl)
  run-events (op ∷ ops) c =
      let s = step date_time op c in
      let one = step-Accounted op c in
      let rest = run-events ops s.client in
      (
        ap₂ (λ t u. t ++ u) (batched-append s.effects (run date_time ops s.client).effects) refl
            ∙ append_assoc (batched s.effects) _ _
            ∙ ap (λ t. batched s.effects ++ t) rest.0
            ∙ sym (append_assoc (batched s.effects) s.client.queue.queue _)
            ∙ ap₂ (λ t u. t ++ normal_events u ops) one.handed one.link
            ∙ append_assoc c.queue.queue _ _
            ∙ ap (λ t. c.queue.queue ++ t) (sym (normal_events-cons c.connected op ops)),
        urgent-append s.effects (run date_time ops s.client).effects
            ∙ ap₂ (λ t u. t ++ u) one.prompt (rest.1 ∙ ap (λ b. urgent_events b ops) one.link)
            ∙ sym (urgent_events-cons c.connected op ops),
      )
