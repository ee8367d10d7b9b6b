-- ===== src/Daemon/Protocol.antt =====
-- The message protocol of the class BoundaryDaemon, sdk/security/boundary-daemon.ts: handleData,
-- handleMessage, sendRequest with its timeout, and the part of disconnect that rejects requests. JSON
-- is a parameter. The text `req_<counter>_<time>` of a request is the pair of its two numbers; an id
-- in a response that has another form is `none`.
use ilr_module.Prelude.{
  ℕ, ◌+◌, List, [], ◌∷◌, ◌++◌, map, Bool, true, false, ◌&&◌, ◌||◌, not, ◌==◌, if◌then◌else◌, Option,
  none, some, length,
}
use ilr_module.Prelude.Text.{Text}
use ilr_module.Hex.{trim_start}

pub record RequestId : Type 0 where
  pub number : ℕ
  pub time : ℕ

unfoldable pub same_id : RequestId → RequestId → Bool
same_id a b = (a.number == b.number) && (a.time == b.time)

pub data MessageType : Type 0 where
  request response event other_type : MessageType

pub record DaemonMessage : Type 0 where
  pub id : Option RequestId
  pub message_type : MessageType
  pub command : Text
  pub payload : Text

-- What a request is rejected for.
pub data RequestError : Type 0 where
  connection_closed write_failed : RequestError
  request_timeout : RequestError

pub data Effect : Type 0 where
  -- A request is entered into `pendingRequests`, and its message written.
  issued : RequestId → Effect
  resolved : RequestId → Text → Effect
  rejected : RequestId → RequestError → Effect
  -- sendRequest throws, since there is no connection.
  not_connected : Effect
  daemon_event : DaemonMessage → Effect
  parse_failed : Text → Effect

-- The fields of the class that the protocol uses; `pending` has the keys of `pendingRequests` in the
-- order of their insertion.
pub record Protocol : Type 0 where
  pub connected : Bool
  pub has_socket : Bool
  pub pending : List RequestId
  pub message_buffer : Text
  pub request_counter : ℕ

abbrev pub new_protocol : Protocol
new_protocol = record {
  connected = false;
  has_socket = false;
  pending = [];
  message_buffer = [];
  request_counter = 0;
}

pub record Step : Type 0 where
  pub after : Protocol
  pub effects : List Effect

-- `Map.has`, `Map.delete` and `Map.set`
unfoldable pub is_pending : RequestId → List RequestId → Bool
unfolding same_id
is_pending id [] = false
is_pending id (p ∷ ps) = same_id id p || is_pending id ps

unfoldable pub remove : RequestId → List RequestId → List RequestId
unfolding same_id
remove id [] = []
remove id (p ∷ ps) = let rest = remove id ps in if same_id id p then ps else p ∷ rest

unfoldable pub insert : RequestId → List RequestId → List RequestId
unfolding is_pending
insert id ps = if is_pending id ps then ps else ps ++ id ∷ []

-- `pendingRequests.get(message.id)`: nothing stands under an id of another form.
unfoldable pub settle : Option RequestId → Text → Protocol → Step
unfolding is_pending remove
settle none payload s = record { after = s; effects = [] }
settle (some id) payload s =
    if is_pending id s.pending
    then record {
      after = record s { pending = remove id s.pending };
      effects = resolved id payload ∷ [];
    }
    else record { after = s; effects = [] }

unfoldable pub handle_typed : MessageType → DaemonMessage → Protocol → Step
unfolding settle
handle_typed response message s = settle message.id message.payload s
handle_typed event message s = record { after = s; effects = daemon_event message ∷ [] }
handle_typed request message s = record { after = s; effects = [] }
handle_typed other_type message s = record { after = s; effects = [] }

unfoldable pub handle_message : DaemonMessage → Protocol → Step
unfolding handle_typed
handle_message message s = handle_typed message.message_type message s

-- `buffer.split('\n')`, as the lines before the last and the last.
pub record Lines : Type 0 where
  pub complete : List Text
  pub rest : Text

unfoldable pub push_char : ℕ → List Text → Text → Lines
push_char c [] rest = record { complete = []; rest = c ∷ rest }
push_char c (l ∷ ls) rest = record { complete = (c ∷ l) ∷ ls; rest = rest }

unfoldable pub split_lines : Text → Lines
unfolding push_char
split_lines [] = record { complete = []; rest = [] }
split_lines (c ∷ t) =
    let lines = split_lines t in
    if c == 10
    then record { complete = [] ∷ lines.complete; rest = lines.rest }
    else push_char c lines.complete lines.rest

module _ (parse : Text → Option DaemonMessage) where
  unfoldable pub handle_parsed : Text → Option DaemonMessage → Protocol → Step
  unfolding handle_message
  handle_parsed line none s = record { after = s; effects = parse_failed line ∷ [] }
  handle_parsed line (some message) s = handle_message message s

  -- One turn of the loop; `!line.trim()` holds where nothing but white space stands.
  unfoldable pub handle_line : Text → Protocol → Step
  unfolding handle_parsed trim_start
  handle_line line s =
      if length (trim_start line) == 0
      then record { after = s; effects = [] }
      else handle_parsed line (parse line) s

  unfoldable pub handle_lines : List Text → Protocol → Step
  unfolding handle_line
  handle_lines [] s = record { after = s; effects = [] }
  handle_lines (line ∷ lines) s =
      let first = handle_line line s in
      let rest = handle_lines lines first.after in
      record { after = rest.after; effects = first.effects ++ rest.effects }

  unfoldable pub handle_data : Text → Protocol → Step
  unfolding handle_lines split_lines
  handle_data chunk s =
      let lines = split_lines (s.message_buffer ++ chunk) in
      handle_lines lines.complete (record s { message_buffer = lines.rest })

-- `now` is the time, and `written` tells whether the socket takes the message or throws.
unfoldable pub send_request : ℕ → Bool → Protocol → Step
unfolding insert remove
send_request now written s =
    if not s.connected || not s.has_socket
    then record { after = s; effects = not_connected ∷ [] }
    else (let id : RequestId = record { number = s.request_counter + 1; time = now } in
        let entered : Protocol = record s {
          request_counter = s.request_counter + 1;
          pending = insert id s.pending;
        } in
        if written then record { after = entered; effects = issued id ∷ [] } else record {
          after = record entered { pending = remove id entered.pending };
          effects = issued id ∷ rejected id write_failed ∷ [];
        })

-- The timer of a request fires; it is cleared when the request leaves the map.
unfoldable pub request_timer : RequestId → Protocol → Step
unfolding is_pending remove
request_timer id s =
    if is_pending id s.pending
    then record {
      after = record s { pending = remove id s.pending };
      effects = rejected id request_timeout ∷ [];
    }
    else record { after = s; effects = [] }

-- `disconnect`: the loop over the map rejects each request and deletes it.
unfoldable pub disconnect : Protocol → Step
disconnect s = record {
  after = record s { connected = false; has_socket = false; pending = [] };
  effects = map (λ id. rejected id connection_closed) s.pending;
}

-- The socket is created, connects, and closes.
unfoldable pub socket_created : Protocol → Protocol
socket_created s = record s { has_socket = true }

unfoldable pub socket_connected : Protocol → Protocol
socket_connected s = record s { connected = true }

unfoldable pub socket_closed : Protocol → Protocol
socket_closed s = record s { connected = false }
