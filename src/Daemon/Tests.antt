-- ===== src/Daemon/Tests.antt =====
-- Runs of the daemon client.
use ilr_module.Prelude.{
  ◌+◌, ◌-◌, ◌≡◌, refl, List, [], ◌∷◌, ◌++◌, true, false, ◌&&◌, leb, ◌==◌, if◌then◌else◌, Option,
  none, some,
}
use ilr_module.Prelude.Text.{Text, codes}
use ilr_module.Hex.{join}
use ilr_module.Daemon.Audit.{AuditEvent, deny, cef, leef, format_event}
use ilr_module.Daemon.Protocol.{DaemonMessage, response, event, Protocol, new_protocol, handle_data}
use ilr_module.Daemon.Framing.{handle_chunks, handle_chunks-join}
use ilr_module.Daemon.Pending.{
  Op, requests, receives, timer_fires, creates_socket, connects, disconnects, count, issued_ids,
  settled_ids, run, one_if,
}
use ilr_module.Daemon.Settled.{run-settled}
use ilr_module.Daemon.Connection.{
  DaemonConfig, new_daemon, on_close, disconnect, emit_disconnected, reconnect_in, reconnect_delay,
  on_close-disconnect,
}

-- A line with a digit answers the request with this number, made at the time 9; another line that
-- begins with `e` is an event.
abbrev parse : Text → Option DaemonMessage
parse [] = none
parse (c ∷ t) =
    if leb b'1' c && leb c b'9'
    then some (record {
      id = some (record { number = c - b'0'; time = 9 });
      message_type = response;
      command = [];
      payload = t;
    })
    else if c == b'e'
    then some (record { id = none; message_type = event; command = []; payload = t })
    else none

-- The requests 1 and 2 are pending.
abbrev two_pending : Protocol
two_pending = record new_protocol {
  connected = true;
  has_socket = true;
  pending = record { number = 1; time = 9 } ∷ record { number = 2; time = 9 } ∷ [];
  message_buffer = codes "1o";
  request_counter = 2;
}

-- The answer to the request 1 ends in the third chunk.
abbrev chunks : List Text
chunks = codes "k" ∷ (10 ∷ codes "e") ∷ (10 ∷ 10 ∷ codes "2") ∷ []

handle_chunks-join_example :
    handle_chunks parse (codes "" ∷ chunks) two_pending
    ≡ handle_data parse (codes "" ++ join chunks) two_pending
handle_chunks-join_example = handle_chunks-join parse (codes "") chunks two_pending

abbrev ops : List Op
ops =
    requests 9 true
    ∷ creates_socket
    ∷ connects
    ∷ requests 9 true
    ∷ requests 9 true
    ∷ requests 9 false
    ∷ receives (codes "2ok")
    ∷ receives (10 ∷ [])
    ∷ timer_fires (record { number = 2; time = 9 })
    ∷ disconnects
    ∷ []

run-settled_example :
    (count 2 (settled_ids (run parse ops new_protocol).effects)
        + count 2 (run parse ops new_protocol).after.pending
      ≡ count 2 (issued_ids (run parse ops new_protocol).effects))
    × (count 2 (issued_ids (run parse ops new_protocol).effects)
        ≡ one_if (leb 1 2 && leb 2 (run parse ops new_protocol).after.request_counter))
run-settled_example = run-settled parse ops 2

run_issues :
    issued_ids (run parse ops new_protocol).effects
    ≡ record { number = 1; time = 9 }
      ∷ record { number = 2; time = 9 }
      ∷ record { number = 3; time = 9 }
      ∷ []
unfolding run
run_issues = refl

abbrev config : DaemonConfig
config = record {
  socket_path = none;
  host = none;
  port = none;
  timeout = none;
  reconnect_interval = none;
  max_reconnect_attempts = none;
  enable_audit = none;
  audit_format = none;
}

daemon-attempts :
    leb (new_daemon config).config.max_reconnect_attempts (new_daemon config).reconnect_attempts
    ≡ false
unfolding new_daemon
daemon-attempts = refl

reconnects_when_disconnected :
    (on_close (disconnect (new_daemon config)).after).effects
    ≡ emit_disconnected
      ∷ reconnect_in (
          reconnect_delay
            (new_daemon config).config.reconnect_interval
            ((new_daemon config).reconnect_attempts + 1))
      ∷ []
reconnects_when_disconnected = on_close-disconnect (new_daemon config) daemon-attempts

abbrev audit_event : AuditEvent
audit_event = record {
  timestamp = codes "t0";
  event_type = codes "policy.check";
  decision = deny;
  context = record {
    action = codes "login";
    context = codes "{}";
    severity = none;
    source = none;
    destination = none;
    protocol = none;
    port = none;
  };
  rule_id = some (codes "r7");
  source = none;
}

cef_run :
    format_event (λ t. codes "17") (λ e. []) cef audit_event
    ≡ codes
        "CEF:0|NatLangChain|BoundaryDaemon|1.0|policy.check|Policy Decision|8|rt=17 act=login outcome=DENY cs1=r7 cs1Label=RuleID"
unfolding format_event
cef_run = refl

leef_run :
    format_event (λ t. codes "17") (λ e. []) leef audit_event
    ≡ codes "LEEF:2.0|NatLangChain|BoundaryDaemon|1.0|policy.check|"
      ++ (codes "devTime=t0"
          ++ (9 ∷ codes "cat=policy.check"
              ++ (9 ∷ codes "action=login"
                  ++ (9 ∷ codes "policy=DENY" ++ (9 ∷ codes "ruleId=r7")))))
unfolding format_event
leef_run = refl
