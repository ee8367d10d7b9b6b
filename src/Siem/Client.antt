-- ===== src/Siem/Client.antt =====
-- The class BoundarySIEM of sdk/security/boundary-siem.ts. An operation gives the client after it and
-- its effects in their order: what it posts, emits and schedules. An operation that waits changes the
-- client before it waits, apart from `disconnect`, which is two operations here, before and after the
-- wait for its flush.
use ilr_module.Prelude.{ℕ, List, [], ◌∷◌, ◌++◌, map, Bool, false, leb, if◌then◌else◌, length}
use ilr_module.Prelude.Text.{Text}
use ilr_module.Siem.Events.{
  severity_value, high, SecurityEvent, Format, json, cef, FullConfig, SiemConfig, full_config,
}
use ilr_module.Siem.Cef.{cef_format, join_by}
use ilr_module.Siem.Queue.{EventQueue, empty_queue, Flushed, flush, add, timer_fires, shutdown}
use ilr_module.Siem.Post.{Fetched, Posted, response, throws, PostError, Run, post_with_retry}

pub data Route : Type 0 where
  events_path batch_path : Route

pub data Payload : Type 0 where
  text_payload : Text → Payload
  events_payload : List SecurityEvent → Payload

pub data Effect : Type 0 where
  posted : Route → List SecurityEvent → Payload → Run → Effect
  batch_sent : ℕ → Effect
  batch_failed : ℕ → PostError → Effect
  emit_connected emit_disconnected connect_throws : Effect
  ws_opened : Text → Effect
  ws_closed emit_ws_connected emit_ws_disconnected emit_ws_max_reconnect : Effect
  reconnect_in : ℕ → Effect
  emit_alert : Text → Effect
  call_back : ℕ → Text → Effect

-- A callback of `alertCallbacks` is its number.
pub record Client : Type 0 where
  pub config : FullConfig
  pub queue : EventQueue
  pub has_ws : Bool
  -- A call of `connect` waits for the socket to open.
  pub connecting : Bool
  pub connected : Bool
  pub reconnect_attempts : ℕ
  pub alert_callbacks : List ℕ

unfoldable pub new_client : SiemConfig → Client
new_client config = record {
  config = full_config config;
  queue = empty_queue;
  has_ws = false;
  connecting = false;
  connected = false;
  reconnect_attempts = 0;
  alert_callbacks = [];
}

-- The answer of fetch to each attempt of a post.
abbrev pub Server : Type 0
Server = ℕ → Fetched

pub record Step : Type 0 where
  pub client : Client
  pub effects : List Effect

module _ (date_time : Text → Text) where
  unfoldable pub format_payload : Format → List SecurityEvent → Payload
  format_payload cef events = text_payload (join_by 10 (map (cef_format date_time) events))
  format_payload json events = events_payload events

  unfoldable pub post_events : Client → Server → Run
  post_events c server = post_with_retry c.config.max_retries c.config.retry_delay server

  unfoldable pub batch_outcome : ℕ → Posted → Effect
  batch_outcome count (response r) = batch_sent count
  batch_outcome count (throws e) = batch_failed count e

  unfoldable pub send_batch : Client → Server → List SecurityEvent → List Effect
  unfolding format_payload post_events batch_outcome
  send_batch c server [] = []
  send_batch c server (e ∷ es) =
      let run = post_events c server in
      posted batch_path (e ∷ es) (format_payload c.config.format (e ∷ es)) run
      ∷ batch_outcome (length (e ∷ es)) run.result
      ∷ []

  unfoldable pub send_batches : Client → Server → List (List SecurityEvent) → List Effect
  unfolding send_batch
  send_batches c server [] = []
  send_batches c server (b ∷ bs) = send_batch c server b ++ send_batches c server bs

  unfoldable pub flushed_step : Client → Server → Flushed → Step
  unfolding send_batches
  flushed_step c server f = record {
    client = record c { queue = f.after };
    effects = send_batches c server f.flushed;
  }

  unfoldable pub send_immediate : Client → Server → SecurityEvent → Step
  unfolding format_payload post_events
  send_immediate c server event = record {
    client = c;
    effects =
        posted events_path (event ∷ []) (format_payload c.config.format (event ∷ []))
          (post_events c server)
        ∷ [];
  }

  -- A client that is not connected throws, and does nothing else.
  unfoldable pub send_event : Client → Server → SecurityEvent → Step
  unfolding send_immediate flushed_step add severity_value
  send_event c server event =
      if c.connected
      then (if leb (severity_value high) (severity_value event.severity)
          then send_immediate c server event
          else flushed_step c server (add c.config.batch_size event c.queue))
      else record { client = c; effects = [] }

  unfoldable pub flush_client : Client → Server → Step
  unfolding flushed_step flush
  flush_client c server = flushed_step c server (flush c.queue)

  unfoldable pub queue_timer : Client → Server → Step
  unfolding flushed_step timer_fires
  queue_timer c server = flushed_step c server (timer_fires c.queue)

  unfoldable pub begin_disconnect : Client → Server → Step
  unfolding flushed_step shutdown
  begin_disconnect c server = flushed_step c server (shutdown c.queue)
