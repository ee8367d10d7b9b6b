-- ===== src/Siem/Connection.antt =====
-- The connection and the alerts of the class BoundarySIEM of sdk/security/boundary-siem.ts.
use ilr_module.Prelude.{
  ℕ, ◌+◌, ◌*◌, ◌^◌, List, [], ◌∷◌, ◌++◌, map, Bool, true, false, ◌||◌, ltb, leb, ◌==◌,
  if◌then◌else◌, length,
}
use ilr_module.Prelude.Text.{Text, codes}
use ilr_module.Siem.Events.{FullConfig}
use ilr_module.Siem.Client.{
  Client, Effect, Step, emit_connected, emit_disconnected, connect_throws, ws_opened, ws_closed,
  emit_ws_connected, emit_ws_disconnected, emit_ws_max_reconnect, reconnect_in, emit_alert,
  call_back,
}

abbrev pub max_reconnect_attempts : ℕ
max_reconnect_attempts = 5

-- What `new WebSocket(url)` does: the name is not defined, the call throws, or it gives a socket.
pub data SocketSupport : Type 0 where
  undefined_socket refused_socket new_socket : SocketSupport

unfoldable pub end_disconnect : Client → Step
end_disconnect c = record {
  client = record c { has_ws = false; connected = false };
  effects = (if c.has_ws then ws_closed ∷ [] else []) ++ emit_disconnected ∷ [];
}

-- The address, with the key as the token.
unfoldable pub ws_url : FullConfig → Text
ws_url config =
    if length config.api_key == 0
    then config.ws_endpoint
    else config.ws_endpoint ++ codes "?token=" ++ config.api_key

-- `connectWebSocket`, called by `connect` if `awaited`, else by the reconnection.
unfoldable pub connect_web_socket : Bool → SocketSupport → Client → Step
unfolding ws_url
connect_web_socket awaited undefined_socket c = record {
  client = c;
  effects = if awaited then emit_connected ∷ [] else [];
}
connect_web_socket awaited refused_socket c = record {
  client = c;
  effects = if awaited then connect_throws ∷ [] else [];
}
connect_web_socket awaited new_socket c = record {
  client = record c { has_ws = true; connecting = awaited || c.connecting };
  effects = ws_opened (ws_url c.config) ∷ [];
}

-- `connect`; `healthy` is what the health check gives.
unfoldable pub connect : Bool → SocketSupport → Client → Step
unfolding connect_web_socket
connect false support c = record { client = c; effects = connect_throws ∷ [] }
connect true support c =
    let up : Client = record c { connected = true } in
    if c.config.enable_web_socket
    then connect_web_socket true support up
    else record { client = up; effects = emit_connected ∷ [] }

unfoldable pub on_open : Client → Step
on_open c = record {
  client = record c { reconnect_attempts = 0; connecting = false };
  effects = emit_ws_connected ∷ (if c.connecting then emit_connected ∷ [] else []);
}

unfoldable pub schedule_reconnect : Client → Step
schedule_reconnect c =
    if leb max_reconnect_attempts c.reconnect_attempts
    then record { client = c; effects = emit_ws_max_reconnect ∷ [] }
    else (let delay : ℕ = 1000 * 2 ^ c.reconnect_attempts in
        record {
          client = record c { reconnect_attempts = c.reconnect_attempts + 1 };
          effects = reconnect_in (if ltb delay 30000 then delay else 30000) ∷ [];
        })

unfoldable pub on_close : Client → Step
unfolding schedule_reconnect
on_close c =
    let s = schedule_reconnect c in
    record { client = s.client; effects = emit_ws_disconnected ∷ s.effects }

-- What the timer of scheduleReconnect does.
unfoldable pub reconnect_timer : SocketSupport → Client → Step
unfolding connect_web_socket
reconnect_timer support c =
    if c.connected then connect_web_socket false support c else record { client = c; effects = [] }

unfoldable pub is_in : ℕ → List ℕ → Bool
is_in n [] = false
is_in n (m ∷ ms) = (n == m) || is_in n ms

-- `Set.add` and `Set.delete`
unfoldable pub on_alert : ℕ → Client → Client
unfolding is_in
on_alert callback c =
    if is_in callback c.alert_callbacks
    then c
    else record c { alert_callbacks = c.alert_callbacks ++ callback ∷ [] }

unfoldable pub without : ℕ → List ℕ → List ℕ
without n [] = []
without n (m ∷ ms) = let rest = without n ms in if n == m then rest else m ∷ rest

unfoldable pub off_alert : ℕ → Client → Client
unfolding without
off_alert callback c = record c { alert_callbacks = without callback c.alert_callbacks }

unfoldable pub handle_alert : Text → Client → List Effect
handle_alert alert c = emit_alert alert ∷ map (λ n. call_back n alert) c.alert_callbacks
