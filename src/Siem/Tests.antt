-- ===== src/Siem/Tests.antt =====
-- Runs of the SIEM client.
use ilr_module.Prelude.{
  ◌-◌, ◌≡◌, refl, List, [], ◌∷◌, ◌++◌, true, if◌then◌else◌, ltb, none, some, All, take, drop, arith,
}
use ilr_module.Prelude.Text.{Text, codes}
use ilr_module.Siem.Events.{
  Severity, information, medium, high, success, SecurityEvent, SiemConfig, full_config, number_or,
}
use ilr_module.Siem.Cef.{cef_format}
use ilr_module.Siem.Post.{rejects, answers, post_with_retry}
use ilr_module.Siem.Post.Attempts.{Ended, post_with_retry-Ended}
use ilr_module.Siem.Client.{Client, Server, new_client}
use ilr_module.Siem.Connection.{ws_url, new_socket, undefined_socket}
use ilr_module.Siem.Runs.{
  Op, sends, queue_timer_fires, connects, run, batched, urgent, normal_events, urgent_events,
}
use ilr_module.Siem.Batches.{run-events}
use ilr_module.Siem.Bounds.{IsBatching, IsWithin, run_bounded}
use ilr_module.Siem.Reconnects.{closes, rounds, giving_up, all_delays, closes-effects}

abbrev event : Severity → Text → SecurityEvent
event severity message = record {
  timestamp = codes "2026-01-01";
  source = record {
    product = codes "SDK";
    host = codes "h1";
    version = codes "1";
    component = none;
  };
  action = codes "login";
  outcome = success;
  severity = severity;
  message = message;
  fields = some ((codes "user", codes "u1") ∷ []);
  correlation_id = none;
  session_id = some (codes "s9");
}

abbrev date_time : Text → Text
date_time t = codes "17"

cef_run :
    cef_format date_time (event high (codes "m"))
    ≡ codes
        "CEF:0|NatLangChain|ILRM|0.1.0-alpha|login|m|7|rt=17 outcome=success src=h1 sproc=SDK cs1=s9 cs1Label=SessionID cs2=u1 cs2Label=user"
unfolding cef_format
cef_run = refl

abbrev config : SiemConfig
config = record {
  endpoint = codes "https://siem";
  api_key = none;
  format = none;
  batch_size = some 2;
  flush_interval = none;
  max_retries = none;
  retry_delay = none;
  timeout = none;
  enable_web_socket = none;
  ws_endpoint = none;
  tls_verify = none;
}

ws_endpoint_run : (full_config config).ws_endpoint ≡ codes "wss://siem/ws/alerts"
unfolding full_config
ws_endpoint_run = refl

-- The first two attempts fail.
abbrev server : Server
server n = if ltb n 2 then rejects (codes "timeout") else answers true 200 none

abbrev ops : List Op
ops =
    sends server (event medium (codes "before"))
    ∷ connects true undefined_socket
    ∷ sends server (event medium (codes "a"))
    ∷ sends server (event high (codes "b"))
    ∷ sends server (event information (codes "c"))
    ∷ sends server (event information (codes "d"))
    ∷ queue_timer_fires server
    ∷ []

post_with_retry-Ended_example : Ended server 3 1000 0 (post_with_retry 3 1000 server)
post_with_retry-Ended_example = post_with_retry-Ended 3 1000 server

run-events_example :
    (batched (run date_time ops (new_client config)).effects
        ++ (run date_time ops (new_client config)).client.queue.queue
      ≡ (new_client config).queue.queue ++ normal_events (new_client config).connected ops)
    × (urgent (run date_time ops (new_client config)).effects
        ≡ urgent_events (new_client config).connected ops)
run-events_example = run-events date_time ops (new_client config)

run_bounded_example :
    IsBatching
      (number_or config.batch_size 100)
      (run date_time ops (new_client config)).client.queue
    × All
        (IsWithin (number_or config.batch_size 100))
        (run date_time ops (new_client config)).effects
run_bounded_example = run_bounded date_time config ops

-- A client that was connected before its socket closes.
abbrev connected_client : Client
connected_client = record (new_client config) { connected = true }

closes-effects_example :
    (closes new_socket 7 connected_client).effects
    ≡ rounds
        (ws_url connected_client.config)
        (take 7 (drop connected_client.reconnect_attempts all_delays))
      ++ giving_up (5 - connected_client.reconnect_attempts) 7
unfolding new_client
closes-effects_example = closes-effects 7 connected_client refl (omega arith)
