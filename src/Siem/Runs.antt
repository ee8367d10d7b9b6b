-- ===== src/Siem/Runs.antt =====
-- Runs of the client of sdk/security/boundary-siem.ts: any sequence of its operations, of its timers
-- and of what happens to its socket.
use ilr_module.Prelude.{ℕ, List, [], ◌∷◌, ◌++◌, Bool, true, false, ◌&&◌, ltb, leb, if◌then◌else◌}
use ilr_module.Prelude.Text.{Text}
use ilr_module.Siem.Events.{SecurityEvent, severity_value}
use ilr_module.Siem.Client.{
  Client, Effect, events_path, batch_path, posted, Server, Step, send_event, flush_client,
  queue_timer, begin_disconnect,
}
use ilr_module.Siem.Connection.{
  SocketSupport, end_disconnect, connect, on_open, on_close, reconnect_timer, on_alert, off_alert,
}

pub data Op : Type 0 where
  sends : Server → SecurityEvent → Op
  flushes queue_timer_fires begins_disconnect : Server → Op
  ends_disconnect socket_opens socket_closes : Op
  connects : Bool → SocketSupport → Op
  reconnect_timer_fires : SocketSupport → Op
  adds_callback removes_callback : ℕ → Op

module _ (date_time : Text → Text) where
  unfoldable pub step : Op → Client → Step
  unfolding send_event flush_client queue_timer begin_disconnect end_disconnect connect on_open
      on_close reconnect_timer on_alert off_alert
  step (sends server event) c = send_event date_time c server event
  step (flushes server) c = flush_client date_time c server
  step (queue_timer_fires server) c = queue_timer date_time c server
  step (begins_disconnect server) c = begin_disconnect date_time c server
  step ends_disconnect c = end_disconnect c
  step (connects healthy support) c = connect healthy support c
  step socket_opens c = on_open c
  step socket_closes c = on_close c
  step (reconnect_timer_fires support) c = reconnect_timer support c
  step (adds_callback n) c = record { client = on_alert n c; effects = [] }
  step (removes_callback n) c = record { client = off_alert n c; effects = [] }

  unfoldable pub run : List Op → Client → Step
  unfolding step
  run [] c = record { client = c; effects = [] }
  run (op ∷ ops) c =
      let first = step op c in
      let rest = run ops first.client in
      record { client = rest.client; effects = first.effects ++ rest.effects }

-- The events of the batches that were posted, whatever the answer, and of the single events.
abbrev pub batched : List Effect → List SecurityEvent
batched [] = []
batched (posted batch_path events payload r ∷ es) = events ++ batched es
batched (_ ∷ es) = batched es

abbrev pub urgent : List Effect → List SecurityEvent
urgent [] = []
urgent (posted events_path events payload r ∷ es) = events ++ urgent es
urgent (_ ∷ es) = urgent es

-- An account of the operations alone: whether the client is connected, and the events below the
-- severity HIGH, and from it on, that are sent while it is.
abbrev pub connected_after : Bool → Op → Bool
connected_after b ends_disconnect = false
connected_after b (connects true support) = true
connected_after b _ = b

abbrev pub normal_events : Bool → List Op → List SecurityEvent
normal_events b [] = []
normal_events b (sends server event ∷ ops) =
    (if b && ltb (severity_value event.severity) 7 then event ∷ [] else []) ++ normal_events b ops
normal_events b (op ∷ ops) = normal_events (connected_after b op) ops

abbrev pub urgent_events : Bool → List Op → List SecurityEvent
urgent_events b [] = []
urgent_events b (sends server event ∷ ops) =
    (if b && leb 7 (severity_value event.severity) then event ∷ [] else []) ++ urgent_events b ops
urgent_events b (op ∷ ops) = urgent_events (connected_after b op) ops
