-- ===== src/Daemon/Connection.antt =====
-- The connection of the class BoundaryDaemon, sdk/security/boundary-daemon.ts: connect, the events of
-- its socket, disconnect and scheduleReconnect.
use ilr_module.Prelude.{
  ℕ, ◌+◌, ◌-◌, ◌*◌, ◌^◌, ◌≡◌, List, [], ◌∷◌, ◌++◌, Bool, true, false, ◌&&◌, not, ltb, leb, ◌==◌,
  if◌then◌else◌, Option, length,
}
use ilr_module.Prelude.Text.{Text, codes}
use ilr_module.Siem.Events.{number_or, text_or, value_or}
use ilr_module.Daemon.Audit.{AuditFormat, json}
use ilr_module.Daemon.Protocol as Protocol
use ilr_module.Daemon.Protocol.{
  Protocol, new_protocol, socket_created, socket_connected, socket_closed,
}

pub record DaemonConfig : Type 0 where
  pub socket_path : Option Text
  pub host : Option Text
  pub port : Option ℕ
  pub timeout : Option ℕ
  pub reconnect_interval : Option ℕ
  pub max_reconnect_attempts : Option ℕ
  pub enable_audit : Option Bool
  pub audit_format : Option AuditFormat

-- `Required<DaemonConfig>`
pub record FullConfig : Type 0 where
  pub socket_path : Text
  pub host : Text
  pub port : ℕ
  pub timeout : ℕ
  pub reconnect_interval : ℕ
  pub max_reconnect_attempts : ℕ
  pub enable_audit : Bool
  pub audit_format : AuditFormat

unfoldable pub full_config : DaemonConfig → FullConfig
unfolding number_or text_or value_or
full_config config = record {
  socket_path = text_or config.socket_path (codes "/var/run/boundary-daemon/daemon.sock");
  host = text_or config.host [];
  port = number_or config.port 0;
  timeout = number_or config.timeout 5000;
  reconnect_interval = number_or config.reconnect_interval 5000;
  max_reconnect_attempts = number_or config.max_reconnect_attempts 10;
  enable_audit = value_or config.enable_audit true;
  audit_format = value_or config.audit_format json;
}

-- The number `numerator / 2 ^ halvings` of milliseconds.
pub record Delay : Type 0 where
  pub numerator : ℕ
  pub halvings : ℕ

pub data Effect : Type 0 where
  connect_resolves connect_rejects : Effect
  socket_not_found : Text → Effect
  opens_path : Text → Effect
  opens_port : Text → ℕ → Effect
  emit_connected emit_disconnected emit_error emit_max_reconnect : Effect
  destroys_socket ends_socket : Effect
  reconnect_in : Delay → Effect
  on_protocol : Protocol.Effect → Effect

pub record Daemon : Type 0 where
  pub config : FullConfig
  pub protocol : Protocol
  pub reconnecting : Bool
  pub reconnect_attempts : ℕ

unfoldable pub new_daemon : DaemonConfig → Daemon
unfolding full_config
new_daemon config = record {
  config = full_config config;
  protocol = new_protocol;
  reconnecting = false;
  reconnect_attempts = 0;
}

pub record Step : Type 0 where
  pub after : Daemon
  pub effects : List Effect

-- `this.config.socketPath && !this.config.host`
unfoldable pub use_unix_socket : FullConfig → Bool
use_unix_socket config = not (length config.socket_path == 0) && (length config.host == 0)

-- `exists` is what `fs.existsSync` says of the path.
unfoldable pub open_socket : Bool → Daemon → Step
unfolding use_unix_socket socket_created
open_socket exists d =
    let created : Daemon = record d { protocol = socket_created d.protocol } in
    if use_unix_socket d.config
    then (if exists
        then record { after = created; effects = opens_path d.config.socket_path ∷ [] }
        else record { after = d; effects = socket_not_found d.config.socket_path ∷ [] })
    else record { after = created; effects = opens_port d.config.host d.config.port ∷ [] }

unfoldable pub connect : Bool → Daemon → Step
unfolding open_socket
connect exists d =
    if d.protocol.connected
    then record { after = d; effects = connect_resolves ∷ [] }
    else open_socket exists d

-- The events of the socket.
unfoldable pub on_connect : Daemon → Step
unfolding socket_connected
on_connect d = record {
  after = record d {
    protocol = socket_connected d.protocol;
    reconnecting = false;
    reconnect_attempts = 0;
  };
  effects = emit_connected ∷ connect_resolves ∷ [];
}

unfoldable pub on_error : Daemon → Step
on_error d = record {
  after = d;
  effects = emit_error ∷ (if d.protocol.connected then [] else connect_rejects ∷ []);
}

-- `Math.min(interval * Math.pow(1.5, attempts - 1), 60000)`; 1.5 ^ k is 3 ^ k / 2 ^ k.
unfoldable pub reconnect_delay : ℕ → ℕ → Delay
reconnect_delay interval attempts =
    let k : ℕ = attempts - 1 in
    if ltb (interval * 3 ^ k) (60000 * 2 ^ k)
    then record { numerator = interval * 3 ^ k; halvings = k }
    else record { numerator = 60000; halvings = 0 }

unfoldable pub schedule_reconnect : Daemon → Step
unfolding reconnect_delay
schedule_reconnect d =
    if d.reconnecting
    then record { after = d; effects = [] }
    else if leb d.config.max_reconnect_attempts d.reconnect_attempts
    then record { after = d; effects = emit_max_reconnect ∷ [] }
    else record {
      after = record d { reconnecting = true; reconnect_attempts = d.reconnect_attempts + 1 };
      effects =
          reconnect_in (reconnect_delay d.config.reconnect_interval (d.reconnect_attempts + 1))
          ∷ [];
    }

unfoldable pub on_close : Daemon → Step
unfolding schedule_reconnect socket_closed
on_close d =
    let s = schedule_reconnect (record d { protocol = socket_closed d.protocol }) in
    record { after = s.after; effects = emit_disconnected ∷ s.effects }

-- The timer of `connect`.
unfoldable pub connect_timer : Daemon → List Effect
connect_timer d =
    if d.protocol.connected
    then []
    else (if d.protocol.has_socket then destroys_socket ∷ [] else []) ++ connect_rejects ∷ []

-- The timer of scheduleReconnect.
unfoldable pub reconnect_timer : Bool → Daemon → Step
unfolding connect
reconnect_timer exists d = connect exists (record d { reconnecting = false })

unfoldable pub lift_effects : List Protocol.Effect → List Effect
lift_effects [] = []
lift_effects (e ∷ es) = on_protocol e ∷ lift_effects es

unfoldable pub disconnect : Daemon → Step
unfolding Protocol.disconnect lift_effects
disconnect d =
    let s = Protocol.disconnect d.protocol in
    record {
      after = record d { protocol = s.after; reconnecting = false };
      effects =
          (if d.protocol.has_socket then ends_socket ∷ destroys_socket ∷ [] else [])
          ++ lift_effects s.effects;
    }

-- The socket that `disconnect` destroys closes, and this schedules a reconnection.
pub on_close-disconnect :
    (d : Daemon)
    → leb d.config.max_reconnect_attempts d.reconnect_attempts ≡ false
    → (on_close (disconnect d).after).effects
      ≡ emit_disconnected
        ∷ reconnect_in (reconnect_delay d.config.reconnect_interval (d.reconnect_attempts + 1))
        ∷ []
unfolding on_close disconnect
on_close-disconnect d more = simp more
