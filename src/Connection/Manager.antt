-- ===== src/Connection/Manager.antt =====
-- `ConnectionManager` of frontend/src/lib/ConnectionManager.ts: the owner of a connection. A static
-- connection (frontend/src/lib/StaticConnection.ts) has no state here. What the manager calls is
-- recorded, the latest last; how the manifest is fetched is not modelled.
use streamlit.Prelude.{
  Bool, List, Option, String, [], false, if◌then◌else◌, none, some, true, ℕ, ◌++◌, ◌==◌, ◌∷◌,
}
use streamlit.Connection.{
  ConnectionState, WebsocketConnection, connected, connecting, disconnected_forever, initial,
  pinging_server, send_message, static,
}

pub data ServerConnection : Type 0 where
  websocket_connection : WebsocketConnection → ServerConnection
  static_connection : ServerConnection

pub data ManagerCall : Type 0 where
  connection_state_changed : ConnectionState → ManagerCall
  connection_error_shown : String → ManagerCall
  send_refused : String → ManagerCall

pub record ConnectionManager : Type 0 where
  pub connection : Option ServerConnection
  pub connection_state : ConnectionState
  pub calls : List ManagerCall

unfoldable pub same_state : ConnectionState → ConnectionState → Bool
same_state connected connected = true
same_state disconnected_forever disconnected_forever = true
same_state initial initial = true
same_state pinging_server pinging_server = true
same_state connecting connecting = true
same_state static static = true
same_state a b = false

-- The fields of a new manager, before it connects.
unfoldable pub new_connection_manager : ConnectionManager
new_connection_manager = record { connection = none; connection_state = initial; calls = [] }

unfoldable pub is_connected : ConnectionManager → Bool
is_connected m = same_state m.connection_state connected

unfoldable pub is_static_connection : ConnectionManager → Bool
is_static_connection m = same_state m.connection_state static

abbrev pub call : ManagerCall → ConnectionManager → ConnectionManager
call c m = record m { calls = m.calls ++ (c ∷ []) }

-- `errMsg || "unknown"`, where it is shown; the empty text is no message.
unfoldable pub shown_error : ConnectionState → Option String → Option String
shown_error state (some (String.◌∷◌ c s)) = some (String.◌∷◌ c s)
shown_error state err_msg = if same_state state disconnected_forever then some "unknown" else none

unfoldable pub report_error : Option String → ConnectionManager → ConnectionManager
report_error none m = m
report_error (some text) m = call (connection_error_shown text) m

unfoldable pub set_connection_state :
    ConnectionState → Option String → ConnectionManager → ConnectionManager
set_connection_state state err_msg m = report_error (shown_error state err_msg) (
    if same_state m.connection_state state
    then m
    else call (connection_state_changed state) (record m { connection_state = state }))

-- The warning comes with the thirtieth round of tries.
unfoldable pub show_retry_error : ℕ → String → ConnectionManager → ConnectionManager
show_retry_error total_retries latest_error m =
    if total_retries == 30 then call (connection_error_shown latest_error) m else m

-- The message goes to a websocket connection, while it is connected.
unfoldable pub send_to : String → Option ServerConnection → ConnectionManager → ConnectionManager
send_to msg (some (websocket_connection w)) m =
    if is_connected m
    then record m { connection = some (websocket_connection (send_message msg w)) }
    else call (send_refused msg) m
send_to msg o m = call (send_refused msg) m

unfoldable pub send_back_message : String → ConnectionManager → ConnectionManager
send_back_message msg m = send_to msg m.connection m

-- The hosts that a manifest names, in the order in which they are tried.
unfoldable pub hosts_of_manifest : String → String → String → List String
hosts_of_manifest String.[] external internal = external ∷ internal ∷ []
hosts_of_manifest (String.◌∷◌ c s) external internal = String.◌∷◌ c s ∷ []
