-- ===== src/Connection/Recovers.antt =====
-- A connection that has not given up connects again.
use streamlit.Prelude.{List, Option, arith, none, refl, some, true, ℕ, ◌==◌, ◌≡◌, ◌≢◌}
use streamlit.Connection.{
  ConnectionState, Effect, Handled, Socket, WebsocketConnection, check_websocket,
  connect_to_web_socket, connected, connecting, disconnected_forever, enter_after, enter_before,
  initial, next_state, on_open, open_in, ping_succeeded, pinging_server, set_connection_timeout,
  set_fsm_state, static, step_fsm, step_known,
}
use streamlit.Connection.Reachable.{IsSettled, Reached, pings}
use streamlit.Connection.Safety.{Reached-IsConsistent}

-- What the connection waits for comes: the answer to its ping, or the opening of its socket.
unfoldable pub awaited : WebsocketConnection → Handled
awaited w = elim w.state [
  | pinging_server ↦ ping_succeeded w.uri_index w
  | connecting ↦ elim w.websocket [ none ↦ (none, w) | some s ↦ on_open s.id w ]
  | _ ↦ (none, w)
]

eq_refl_nat : (n : ℕ) → (n == n) ≡ true
eq_refl_nat n = ground arith

module _ (u made : ℕ) (es : List Effect) where
  abbrev at_state : ConnectionState → Option Socket → Option ℕ → WebsocketConnection
  at_state state o t = record {
    uri_index = u;
    state = state;
    websocket = o;
    ws_connection_timeout_id = t;
    made = made;
    effects = es;
  }

  -- Nothing is thrown, and the connection is there after a second step at the latest.
  abbrev IsRecovered : WebsocketConnection → Type 0
  IsRecovered w =
      ((awaited w).0 ≡ none)
      × ((awaited (awaited w).1).0 ≡ none)
      × ((awaited (awaited w).1).1.state ≡ connected)

  recovers :
      (state : ConnectionState) (o : Option Socket) (t : Option ℕ) (sent answered : ℕ)
      → IsSettled state o t sent answered
      → state ≢ disconnected_forever
      → IsRecovered (at_state state o t)
  unfolding awaited ping_succeeded on_open check_websocket open_in step_fsm step_known next_state
      set_fsm_state enter_before enter_after connect_to_web_socket set_connection_timeout
  recovers connecting (some s) (some t) sent answered settled going =
      rw (eq_refl_nat s.id) (refl, refl, refl)
  recovers connected (some s) (some t) sent answered settled going = (refl, refl, refl)
  recovers pinging_server none none sent answered settled going =
      rw (eq_refl_nat made) (refl, refl, refl)
  recovers disconnected_forever none none sent answered settled going = absurd (going refl)
  recovers connected none t sent answered settled going = elim settled [ ]
  recovers connected (some s) none sent answered settled going = elim settled [ ]
  recovers disconnected_forever none (some t) sent answered settled going = elim settled [ ]
  recovers disconnected_forever (some s) t sent answered settled going = elim settled [ ]
  recovers initial o t sent answered settled going = elim settled [ ]
  recovers pinging_server none (some t) sent answered settled going = elim settled [ ]
  recovers pinging_server (some s) t sent answered settled going = elim settled [ ]
  recovers connecting none t sent answered settled going = elim settled [ ]
  recovers connecting (some s) none sent answered settled going = elim settled [ ]
  recovers static o t sent answered settled going = elim settled [ ]

-- However a connection has come where it is, unless it has been disconnected forever: when what it
-- waits for comes, at most the answer to its ping and the opening of its socket, it is connected,
-- and no handler has thrown.
pub Reached-recovers :
    (w : WebsocketConnection) (answered : ℕ)
    → Reached w answered
    → w.state ≢ disconnected_forever
    → ((awaited w).0 ≡ none)
      × ((awaited (awaited w).1).0 ≡ none)
      × ((awaited (awaited w).1).1.state ≡ connected)
Reached-recovers w answered reached going =
    recovers w.uri_index w.made w.effects w.state w.websocket w.ws_connection_timeout_id
      (pings w.effects) answered (Reached-IsConsistent reached) going
