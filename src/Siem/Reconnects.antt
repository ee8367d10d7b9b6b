-- ===== src/Siem/Reconnects.antt =====
-- The reconnections of the socket in sdk/security/boundary-siem.ts.
use ilr_module.Prelude.{
  ℕ, zero, suc, ◌+◌, ◌-◌, ◌*◌, ◌^◌, ◌≤◌, ◌<◌, ◌≡◌, refl, ap, ◌∙◌, List, [], ◌∷◌, ◌++◌, Bool, true,
  false, Bool-cases, inl, inr, leb, ltb, if◌then◌else◌, get_or, take, drop, arith,
}
use ilr_module.Prelude.Text.{Text}
use ilr_module.Siem.Client.{
  Client, Effect, Step, reconnect_in, ws_opened, emit_ws_disconnected, emit_ws_max_reconnect,
}
use ilr_module.Siem.Connection.{
  SocketSupport, new_socket, on_close, schedule_reconnect, reconnect_timer, connect_web_socket,
  ws_url,
}

-- Whether an operation has set the timer of a reconnection.
abbrev is_scheduled : List Effect → Bool
is_scheduled [] = false
is_scheduled (reconnect_in d ∷ es) = true
is_scheduled (_ ∷ es) = is_scheduled es

-- Whether an operation has made a new socket.
abbrev has_opened : List Effect → Bool
has_opened [] = false
has_opened (ws_opened url ∷ es) = true
has_opened (_ ∷ es) = has_opened es

-- The timer runs only if it was set.
abbrev after_delay : SocketSupport → Step → Step
after_delay support closed =
    if is_scheduled closed.effects
    then reconnect_timer support closed.client
    else record { client = closed.client; effects = [] }

-- The socket closes without having opened, and so does each socket that a reconnection makes, up to
-- `count` of them.
unfoldable pub closes : SocketSupport → ℕ → Client → Step
unfolding on_close reconnect_timer
closes support zero c = record { client = c; effects = [] }
closes support (suc count) c =
    let closed = on_close c in
    let tried = after_delay support closed in
    let rest = closes support count tried.client in
    record {
      client = if has_opened tried.effects then rest.client else tried.client;
      effects =
          closed.effects
          ++ (tried.effects ++ (if has_opened tried.effects then rest.effects else []));
    }

abbrev pub all_delays : List ℕ
all_delays = 1000 ∷ 2000 ∷ 4000 ∷ 8000 ∷ 16000 ∷ []

delay_at :
    (a : ℕ)
    → a < 5
    → (if ltb (1000 * 2 ^ a) 30000 then 1000 * 2 ^ a else 30000) ≡ get_or all_delays a 0
delay_at zero l = refl
delay_at (suc zero) l = refl
delay_at (suc (suc zero)) l = refl
delay_at (suc (suc (suc zero))) l = refl
delay_at (suc (suc (suc (suc zero)))) l = refl
delay_at (suc (suc (suc (suc (suc a))))) l = absurd (omega arith)

drop_delays : (a : ℕ) → a < 5 → drop a all_delays ≡ get_or all_delays a 0 ∷ drop (a + 1) all_delays
drop_delays zero l = refl
drop_delays (suc zero) l = refl
drop_delays (suc (suc zero)) l = refl
drop_delays (suc (suc (suc zero))) l = refl
drop_delays (suc (suc (suc (suc zero)))) l = refl
drop_delays (suc (suc (suc (suc (suc a))))) l = absurd (omega arith)

-- What a reconnection after each of the delays does.
abbrev pub rounds : Text → List ℕ → List Effect
rounds url [] = []
rounds url (delay ∷ delays) =
    emit_ws_disconnected ∷ reconnect_in delay ∷ ws_opened url ∷ rounds url delays

-- The last close, when `left` reconnections were left.
abbrev pub giving_up : ℕ → ℕ → List Effect
giving_up left count =
    if ltb left count then emit_ws_disconnected ∷ emit_ws_max_reconnect ∷ [] else []

last_round :
    (count : ℕ) (c : Client)
    → leb 5 c.reconnect_attempts ≡ true
    → (closes new_socket (suc count) c).effects ≡ emit_ws_disconnected ∷ emit_ws_max_reconnect ∷ []
unfolding closes on_close schedule_reconnect
last_round count c full = rw full refl

-- The client while it waits for its next socket.
abbrev tried_again : Client → Client
tried_again c = record c { has_ws = true; reconnect_attempts = c.reconnect_attempts + 1 }

next_round :
    (count : ℕ) (c : Client)
    → leb 5 c.reconnect_attempts ≡ false
    → c.connected ≡ true
    → (closes new_socket (suc count) c).effects
      ≡ emit_ws_disconnected
        ∷ reconnect_in (
            if ltb (1000 * 2 ^ c.reconnect_attempts) 30000
            then 1000 * 2 ^ c.reconnect_attempts
            else 30000)
        ∷ ws_opened (ws_url c.config)
        ∷ (closes new_socket count (tried_again c)).effects
unfolding closes on_close schedule_reconnect reconnect_timer connect_web_socket
next_round count c more up = rw more (rw up refl)

-- A socket of a connected client that closes without having opened, as do the sockets of all its
-- reconnections, up to `count` of them, is replaced by a new one, opened at the address of the client
-- after the next of the delays of 1, 2, 4, 8 and 16 seconds. With `a` attempts made before there are
-- 5 - a such reconnections at most, each with the event of the lost socket; the close after the last
-- gives up instead, with the event of the maximum, and nothing else happens.
pub closes-effects :
    (count : ℕ) (c : Client)
    → c.connected ≡ true
    → c.reconnect_attempts ≤ 5
    → (closes new_socket count c).effects
      ≡ rounds (ws_url c.config) (take count (drop c.reconnect_attempts all_delays))
        ++ giving_up (5 - c.reconnect_attempts) count
closes-effects zero c up l =
    let none_left : ltb (5 - c.reconnect_attempts) 0 ≡ false = ground arith in
    rw none_left (unfold closes in refl)
closes-effects (suc count) c up l = elim (Bool-cases (leb 5 c.reconnect_attempts)) [
  | inl full ↦
      let five : c.reconnect_attempts ≡ 5 = ground arith in
      let over : ltb 0 (suc count) ≡ true = ground arith in
      last_round count c full ∙ rw five (rw over refl)
  | inr more ↦
      let a = c.reconnect_attempts in
      let less : a < 5 = ground arith in
      let left : ltb (5 - a) (suc count) ≡ ltb (5 - (a + 1)) count = ground arith in
      next_round count c more up
      ∙ rw (drop_delays a less, left, delay_at a less)
          (ap
            (λ es.
              emit_ws_disconnected
              ∷ reconnect_in (get_or all_delays a 0)
              ∷ ws_opened (ws_url c.config)
              ∷ es)
            (closes-effects count (tried_again c) up (omega arith)))
]
