-- ===== src/Connection.antt =====
-- The state machine of `WebsocketConnection` (frontend/src/lib/WebsocketConnection.tsx). A browser
-- object is a number: a socket has one, with the fact that it has opened, and so has a timer; `made`
-- counts them. What the code asks of the browser and of its owner is recorded in `effects`, the
-- latest last. The owner's callbacks do not call the connection back. A handler returns what it
-- throws. That the ping of `Connection/Ping` succeeds is an event.
pub mod Dispatch
pub mod Ping
pub mod Rounds
pub mod Manager
pub mod Mirror
pub mod Reachable
pub mod Steps
pub mod Safety
pub mod Recovers
pub mod InOrder
mod Tests
use streamlit.Prelude.{
  Bool, List, Option, String, [], false, if◌then◌else◌, is_some, none, not, some, true, ℕ, ◌++◌,
  ◌+◌, ◌==◌, ◌∷◌,
}

pub data ConnectionState : Type 0 where
  connected disconnected_forever initial pinging_server connecting static : ConnectionState

pub data FsmEvent : Type 0 where
  initialized connection_closed connection_error connection_succeeded : FsmEvent
  connection_timed_out server_ping_succeeded fatal_error : FsmEvent

pub data FsmError : Type 0 where
  unsupported_transition : ConnectionState → FsmEvent → FsmError
  websocket_exists timeout_set : FsmError

pub record Socket : Type 0 where
  pub id : ℕ
  pub opened : Bool

pub data Effect : Type 0 where
  state_changed : ConnectionState → Option String → Effect
  ping : Effect
  open_socket : ℕ → ℕ → Effect
  close_socket : ℕ → Effect
  start_timer : ℕ → Effect
  clear_timer : ℕ → Effect
  send : ℕ → String → Effect

pub record WebsocketConnection : Type 0 where
  pub uri_index : ℕ
  pub state : ConnectionState
  pub websocket : Option Socket
  pub ws_connection_timeout_id : Option ℕ
  pub made : ℕ
  pub effects : List Effect

-- What a handler throws, if it does, and the connection after it.
abbrev pub Handled : Type 0
Handled = Option FsmError × WebsocketConnection

abbrev pub emit : Effect → WebsocketConnection → WebsocketConnection
emit e w = record w { effects = w.effects ++ (e ∷ []) }

unfoldable pub cancel_socket : WebsocketConnection → WebsocketConnection
cancel_socket w = elim w.websocket [
  | none ↦ w
  | some s ↦ record (emit (close_socket s.id) w) { websocket = none }
]

unfoldable pub cancel_timeout : WebsocketConnection → WebsocketConnection
cancel_timeout w = elim w.ws_connection_timeout_id [
  | none ↦ w
  | some t ↦ record (emit (clear_timer t) w) { ws_connection_timeout_id = none }
]

unfoldable pub cancel_connection_attempt : WebsocketConnection → WebsocketConnection
cancel_connection_attempt w = cancel_timeout (cancel_socket w)

unfoldable pub set_connection_timeout : WebsocketConnection → Handled
set_connection_timeout w = elim w.ws_connection_timeout_id [
  | some t ↦ (some timeout_set, w)
  | none ↦ (
    none,
    record (emit (start_timer w.made) w) {
      ws_connection_timeout_id = some w.made;
      made = w.made + 1;
    },
  )
]

-- The socket is opened for the URI at `uriIndex`.
unfoldable pub connect_to_web_socket : WebsocketConnection → Handled
connect_to_web_socket w = elim w.websocket [
  | some s ↦ (some websocket_exists, w)
  | none ↦ set_connection_timeout (record (emit (open_socket w.made w.uri_index) w) {
    websocket = some (record { id = w.made; opened = false });
    made = w.made + 1;
  })
]

-- What is done on entering a state, before the callback and after it.
unfoldable pub enter_before : ConnectionState → WebsocketConnection → WebsocketConnection
enter_before pinging_server w = emit ping w
enter_before state w = w

unfoldable pub enter_after : ConnectionState → WebsocketConnection → Handled
enter_after connecting w = connect_to_web_socket w
enter_after disconnected_forever w = (none, cancel_connection_attempt w)
enter_after state w = (none, w)

unfoldable pub set_fsm_state : ConnectionState → Option String → WebsocketConnection → Handled
set_fsm_state state err_msg w =
    enter_after state
      (emit (state_changed state err_msg) (enter_before state (record w { state = state })))

-- The state that an event leads to; `none` where the combination is not supported.
unfoldable pub next_state : ConnectionState → FsmEvent → Option ConnectionState
next_state initial initialized = some connecting
next_state connecting connection_succeeded = some connected
next_state connecting connection_timed_out = some pinging_server
next_state connecting connection_error = some pinging_server
next_state connecting connection_closed = some pinging_server
next_state connected connection_closed = some pinging_server
next_state connected connection_error = some pinging_server
next_state pinging_server server_ping_succeeded = some connecting
next_state state event = none

unfoldable pub step_known :
    ConnectionState → FsmEvent → Option String → WebsocketConnection → Handled
step_known disconnected_forever event err_msg w = (none, w)
step_known state fatal_error err_msg w = set_fsm_state disconnected_forever err_msg w
step_known state event err_msg w = elim (next_state state event) [
  | none ↦ (some (unsupported_transition state event), w)
  | some state' ↦ set_fsm_state state' none w
]

unfoldable pub step_fsm : FsmEvent → Option String → WebsocketConnection → Handled
step_fsm event err_msg w = step_known w.state event err_msg w

-- The constructor.
unfoldable pub new_connection : Handled
new_connection = step_fsm initialized none (record {
  uri_index = 0;
  state = initial;
  websocket = none;
  ws_connection_timeout_id = none;
  made = 0;
  effects = [];
})

-- The end of `pingServer`.
unfoldable pub ping_succeeded : ℕ → WebsocketConnection → Handled
ping_succeeded uri_index w =
    step_fsm server_ping_succeeded none (record w { uri_index = uri_index })

-- `localWebsocket === this.websocket`, by the socket's number.
unfoldable pub check_websocket : ℕ → Option Socket → Bool
check_websocket local none = false
check_websocket local (some s) = local == s.id

-- The browser opens a socket and calls its `onopen`.
unfoldable pub open_in : ℕ → WebsocketConnection → WebsocketConnection
open_in local w = elim w.websocket [
  | none ↦ w
  | some s ↦ record w { websocket = some (record s { opened = true }) }
]

unfoldable pub on_open : ℕ → WebsocketConnection → Handled
on_open local w =
    if check_websocket local w.websocket
    then step_fsm connection_succeeded none (open_in local w)
    else (none, w)

unfoldable pub on_close : ℕ → WebsocketConnection → Handled
on_close local w =
    if check_websocket local w.websocket
    then step_fsm connection_closed none (cancel_connection_attempt w)
    else (none, w)

unfoldable pub on_error : ℕ → WebsocketConnection → Handled
on_error local w =
    if check_websocket local w.websocket
    then step_fsm connection_error none (cancel_connection_attempt w)
    else (none, w)

-- A message that could not be processed; the socket was the current one when it came.
unfoldable pub on_message_failed : String → WebsocketConnection → Handled
on_message_failed reason w = step_fsm fatal_error (some reason) w

-- A timer fires, with the socket that was current when it was set, if there was one.
unfoldable pub on_timeout_of : Option Socket → WebsocketConnection → Handled
on_timeout_of none w =
    step_fsm fatal_error (some "Null Websocket in setConnectionTimeout")
      (cancel_connection_attempt w)
on_timeout_of (some s) w =
    if s.opened then (none, w) else step_fsm connection_timed_out none (cancel_connection_attempt w)

unfoldable pub same_websocket : Option ℕ → Option Socket → Bool
same_websocket none none = true
same_websocket none (some s) = false
same_websocket (some local) o = check_websocket local o

unfoldable pub on_timeout : Option ℕ → WebsocketConnection → Handled
on_timeout local w =
    if not (same_websocket local w.websocket)
    then (none, w)
    else if not (is_some w.ws_connection_timeout_id)
    then (none, w)
    else on_timeout_of w.websocket w

-- The encoded message goes to the socket, if there is one.
unfoldable pub send_message : String → WebsocketConnection → WebsocketConnection
send_message msg w = elim w.websocket [ none ↦ w | some s ↦ emit (send s.id msg) w ]

-- The URI that messages are fetched from, by its index.
unfoldable pub get_base_uri_parts : WebsocketConnection → Option ℕ
get_base_uri_parts w = elim w.state [ connected ↦ some w.uri_index | _ ↦ none ]
