-- ===== src/Siem/Bounds.antt =====
-- The bounds of the queue and of the batches in sdk/security/boundary-siem.ts.
use ilr_module.Prelude.{
  ℕ, ◌≤◌, ◌<◌, ◌≡◌, refl, sym, subst, List, [], ◌∷◌, ◌++◌, Option, none, some, Bool, true, false,
  Bool-cases, inl, inr, leb, length, length-append, All, All-append, arith,
}
use ilr_module.Prelude.Text.{Text}
use ilr_module.Siem.Events.{SecurityEvent, SiemConfig, severity_value, number_or, full_config}
use ilr_module.Siem.Queue.{EventQueue, take_batch, flush, add, timer_fires, shutdown}
use ilr_module.Siem.Post.{Posted, response, throws}
use ilr_module.Siem.Client.{
  Client, Effect, batch_path, posted, Server, Step, new_client, batch_outcome, send_batch,
  send_batches, send_event, send_immediate, flushed_step, flush_client, queue_timer,
  begin_disconnect,
}
use ilr_module.Siem.Connection.{
  SocketSupport, undefined_socket, refused_socket, new_socket, connect, connect_web_socket,
  end_disconnect, on_open, on_close, schedule_reconnect, reconnect_timer, on_alert,
  max_reconnect_attempts, is_in,
}
use ilr_module.Siem.Runs.{
  Op, sends, flushes, queue_timer_fires, begins_disconnect, ends_disconnect, socket_opens,
  socket_closes, connects, reconnect_timer_fires, adds_callback, removes_callback, step, run,
}

abbrev pub waits : List SecurityEvent → Bool
waits [] = false
waits (e ∷ es) = true

-- Fewer events wait than make a batch, and the timer is set exactly while some do.
pub record IsBatching (n : ℕ) (q : EventQueue) : Type 0 where
  pub below : length q.queue < n
  pub timer : q.flush_timer ≡ waits q.queue

-- A batch that is posted is not empty, and not larger than `n`.
abbrev pub IsWithin : ℕ → Effect → Type 0
IsWithin n (posted batch_path events payload r) = (0 < length events) × (length events ≤ n)
IsWithin n _ = Unit

-- An operation that keeps all of this.
record IsBounded (c : Client) (s : Step) : Type 0 where
  same_size : s.client.config.batch_size ≡ c.config.batch_size
  queue : IsBatching c.config.batch_size s.client.queue
  batches : All (IsWithin c.config.batch_size) s.effects

number_or_pos : (o : Option ℕ) (d : ℕ) → 0 < d → 0 < number_or o d
unfolding number_or
number_or_pos none d h = h
number_or_pos (some n) d h = ground arith

not_full : (n k : ℕ) → leb n k ≡ false → k < n
not_full n k h = ground arith

waits-pushed : (q : List SecurityEvent) (e : SecurityEvent) → waits (q ++ e ∷ []) ≡ true
waits-pushed [] e = refl
waits-pushed (x ∷ q) e = refl

module _ (date_time : Text → Text) where
  outcome-IsWithin : (n k : ℕ) (p : Posted) → IsWithin n (batch_outcome date_time k p)
  unfolding batch_outcome
  outcome-IsWithin n k (response r) = tt
  outcome-IsWithin n k (throws e) = tt

  taken-IsWithin :
      (c : Client) (server : Server) (q : List SecurityEvent)
      → length q ≤ c.config.batch_size
      → All (IsWithin c.config.batch_size) (send_batches date_time c server (take_batch q))
  unfolding send_batches send_batch take_batch
  taken-IsWithin c server [] l = tt
  taken-IsWithin c server (e ∷ es) l = ((omega arith, l), (outcome-IsWithin _ _ _, tt))

  flushed-IsBounded :
      (c : Client) (server : Server)
      → IsBatching c.config.batch_size c.queue
      → IsBounded c (flushed_step date_time c server (flush c.queue))
  unfolding flushed_step flush
  flushed-IsBounded c server h = record {
    same_size = refl;
    queue = record { below = omega (arith, h.below); timer = refl };
    batches = taken-IsWithin c server c.queue.queue (omega (arith, h.below));
  }

  added-IsBounded :
      (c : Client) (server : Server) (event : SecurityEvent)
      → IsBatching c.config.batch_size c.queue
      → IsBounded c (flushed_step date_time c server (add c.config.batch_size event c.queue))
  unfolding flushed_step flush add send_batches
  added-IsBounded c server event h =
      let pushed : List SecurityEvent = c.queue.queue ++ event ∷ [] in
      let one_more = length-append c.queue.queue (event ∷ []) in
      elim (Bool-cases (leb c.config.batch_size (length pushed))) [
        | inl full ↦ record {
          same_size = refl;
          queue = simp full (record { below = omega (arith, h.below); timer = refl });
          batches = simp full (taken-IsWithin c server pushed (omega (arith, h.below, one_more)));
        }
        | inr room ↦ record {
          same_size = refl;
          queue = simp room (record {
            below = not_full _ _ room;
            timer = sym (waits-pushed c.queue.queue event);
          });
          batches = simp room tt;
        }
      ]

  sends-IsBounded :
      (c : Client) (server : Server) (event : SecurityEvent)
      → IsBatching c.config.batch_size c.queue
      → IsBounded c (send_event date_time c server event)
  unfolding send_event send_immediate
  sends-IsBounded c server event h = elim (Bool-cases c.connected) [
    | inl on ↦ elim (Bool-cases (leb 7 (severity_value event.severity))) [
      | inl up ↦ simp (on, up) (record { same_size = refl; queue = h; batches = (tt, tt) })
      | inr down ↦
          let added = added-IsBounded c server event h in
          record {
            same_size = simp (on, down);
            queue = simp (on, down) added.queue;
            batches = simp (on, down) added.batches;
          }
    ]
    | inr off ↦ simp off (record { same_size = refl; queue = h; batches = tt })
  ]

  socket-IsBounded :
      (c : Client) (up : Client) (support : SocketSupport)
      → up.config.batch_size ≡ c.config.batch_size
      → IsBatching c.config.batch_size up.queue
      → (awaited : Bool) → IsBounded c (connect_web_socket awaited support up)
  unfolding connect_web_socket
  socket-IsBounded c up undefined_socket q h true = record {
    same_size = q;
    queue = h;
    batches = (tt, tt);
  }
  socket-IsBounded c up undefined_socket q h false = record {
    same_size = q;
    queue = h;
    batches = tt;
  }
  socket-IsBounded c up refused_socket q h true = record {
    same_size = q;
    queue = h;
    batches = (tt, tt);
  }
  socket-IsBounded c up refused_socket q h false = record { same_size = q; queue = h; batches = tt }
  socket-IsBounded c up new_socket q h awaited = record {
    same_size = q;
    queue = h;
    batches = (tt, tt);
  }

  step-IsBounded :
      (op : Op) (c : Client)
      → IsBatching c.config.batch_size c.queue
      → IsBounded c (step date_time op c)
  unfolding step end_disconnect on_open on_close schedule_reconnect connect reconnect_timer on_alert
      flush_client begin_disconnect shutdown queue_timer timer_fires
  step-IsBounded (sends server event) c h = sends-IsBounded c server event h
  step-IsBounded (flushes server) c h = flushed-IsBounded c server h
  step-IsBounded (begins_disconnect server) c h = flushed-IsBounded c server h
  step-IsBounded (queue_timer_fires server) c h = elim (Bool-cases c.queue.flush_timer) [
    | inl set ↦ simp set (flushed-IsBounded c server h)
    | inr unset ↦ simp unset (record { same_size = refl; queue = h; batches = tt })
  ]
  step-IsBounded ends_disconnect c h = elim (Bool-cases c.has_ws) [
    | inl has ↦ record { same_size = refl; queue = h; batches = simp has (tt, (tt, tt)) }
    | inr has ↦ record { same_size = refl; queue = h; batches = simp has (tt, tt) }
  ]
  step-IsBounded socket_opens c h = elim (Bool-cases c.connecting) [
    | inl on ↦ record { same_size = refl; queue = h; batches = simp on (tt, (tt, tt)) }
    | inr off ↦ record { same_size = refl; queue = h; batches = simp off (tt, tt) }
  ]
  step-IsBounded socket_closes c h =
      elim (Bool-cases (leb max_reconnect_attempts c.reconnect_attempts)) [
        | inl on ↦ simp on (record { same_size = refl; queue = h; batches = (tt, (tt, tt)) })
        | inr off ↦ simp off (record { same_size = refl; queue = h; batches = (tt, (tt, tt)) })
      ]
  step-IsBounded (connects false support) c h = record {
    same_size = refl;
    queue = h;
    batches = (tt, tt);
  }
  step-IsBounded (connects true support) c h = elim (Bool-cases c.config.enable_web_socket) [
    | inl on ↦ simp on (socket-IsBounded c (record c { connected = true }) support refl h true)
    | inr off ↦ simp off (record { same_size = refl; queue = h; batches = (tt, tt) })
  ]
  step-IsBounded (reconnect_timer_fires support) c h = elim (Bool-cases c.connected) [
    | inl on ↦ simp on (socket-IsBounded c c support refl h false)
    | inr off ↦ simp off (record { same_size = refl; queue = h; batches = tt })
  ]
  step-IsBounded (adds_callback n) c h = elim (Bool-cases (is_in n c.alert_callbacks)) [
    | inl on ↦ simp on (record { same_size = refl; queue = h; batches = tt })
    | inr off ↦ simp off (record { same_size = refl; queue = h; batches = tt })
  ]
  step-IsBounded (removes_callback n) c h = record { same_size = refl; queue = h; batches = tt }

  run_bounds :
      (ops : List Op) (c : Client)
      → IsBatching c.config.batch_size c.queue
      → IsBatching c.config.batch_size (run date_time ops c).client.queue
        × All (IsWithin c.config.batch_size) (run date_time ops c).effects
  unfolding run
  run_bounds [] c h = (h, tt)
  run_bounds (op ∷ ops) c h =
      let s = step date_time op c in
      let one = step-IsBounded op c h in
      let rest =
        run_bounds ops s.client
          (subst (λ n. IsBatching n s.client.queue) (sym one.same_size) one.queue) in
      let kept =
        subst
          (λ n.
            IsBatching n (run date_time ops s.client).client.queue
            × All (IsWithin n) (run date_time ops s.client).effects)
          one.same_size rest in
      (kept.0, All-append (IsWithin c.config.batch_size) s.effects _ one.batches kept.1)

  -- Whatever the configuration and the operations of a new client, fewer events wait than make a
  -- batch, the timer of the queue is set exactly while some wait, and every batch that was posted
  -- has at least one event and at most the batch size of the configuration, which is 100 where the
  -- configuration gives none or 0.
  pub run_bounded :
      (config : SiemConfig) (ops : List Op)
      → IsBatching
          (number_or config.batch_size 100)
          (run date_time ops (new_client config)).client.queue
        × All
            (IsWithin (number_or config.batch_size 100))
            (run date_time ops (new_client config)).effects
  unfolding new_client full_config
  run_bounded config ops =
      run_bounds ops (new_client config)
        (record { below = number_or_pos config.batch_size 100 (omega arith); timer = refl })
