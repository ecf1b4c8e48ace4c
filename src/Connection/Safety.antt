-- ===== src/Connection/Safety.antt =====
-- What is true of every connection that can be reached.
use streamlit.Prelude.{List, Option, String, arith, false, none, refl, some, ℕ, ◌<◌, ◌≡◌}
use streamlit.Connection.{
  Effect, Handled, Socket, WebsocketConnection, check_websocket, connect_to_web_socket,
  disconnected_forever, enter_after, enter_before, new_connection, next_state, on_close, on_error,
  on_message_failed, on_open, on_timeout, ping_succeeded, same_websocket, set_connection_timeout,
  set_fsm_state, step_fsm, step_known,
}
use streamlit.Connection.Reachable.{
  IsConsistent, Reached, answers, closes, constructed, fails, message_fails, opens, pings, sends,
  timer_fires,
}
use streamlit.Connection.Steps.{
  connection, consistent_cases, on_close-IsHandled, on_error-IsHandled, on_message_failed-IsHandled,
  on_open-IsHandled, on_timeout-IsHandled, ping_succeeded-IsHandled, send_message-IsConsistent,
}

-- A connection has a socket and its timer exactly while it connects or is connected, and the socket
-- has opened exactly when it is connected. No ping is unanswered while it connects or is connected,
-- one while it pings the server, and at most one when it is disconnected for ever. It is never in
-- the initial or the static state.
pub Reached-IsConsistent :
    {w : WebsocketConnection} {answered : ℕ} → Reached w answered → IsConsistent answered w
unfolding new_connection step_fsm step_known next_state set_fsm_state enter_before enter_after
    connect_to_web_socket set_connection_timeout pings
Reached-IsConsistent constructed = (refl, refl)
Reached-IsConsistent (opens local r once) =
    (on_open-IsHandled _ local _ (Reached-IsConsistent r) once).1
Reached-IsConsistent (closes local r) = (on_close-IsHandled _ local _ (Reached-IsConsistent r)).1
Reached-IsConsistent (fails local r) = (on_error-IsHandled _ local _ (Reached-IsConsistent r)).1
Reached-IsConsistent (message_fails reason r) =
    (on_message_failed-IsHandled _ reason _ (Reached-IsConsistent r)).1
Reached-IsConsistent (timer_fires local r) =
    (on_timeout-IsHandled _ local _ (Reached-IsConsistent r)).1
Reached-IsConsistent (answers uri_index r sent) =
    (ping_succeeded-IsHandled _ uri_index _ (Reached-IsConsistent r) sent).1
Reached-IsConsistent (sends msg r) = send_message-IsConsistent _ msg _ (Reached-IsConsistent r)

-- What can happen to a connection, with what the handler returns. A socket opens once, and a ping
-- that is answered was sent.
pub data Happens (w : WebsocketConnection) (answered : ℕ) : Handled → Type 0 where
  socket_opens :
      (local : ℕ)
      → ((s : Socket) → w.websocket ≡ some s → s.id ≡ local → s.opened ≡ false)
      → Happens w answered (on_open local w)
  socket_closes : (local : ℕ) → Happens w answered (on_close local w)
  socket_fails : (local : ℕ) → Happens w answered (on_error local w)
  message_failed : (reason : String) → Happens w answered (on_message_failed reason w)
  timer_fired : (local : Option ℕ) → Happens w answered (on_timeout local w)
  ping_answered :
      (uri_index : ℕ) → answered < pings w.effects → Happens w answered (ping_succeeded uri_index w)

-- Whatever happens to a connection that can be reached, its handler does not throw: no transition
-- is unsupported, and neither "Websocket already exists" nor "WS timeout is already set" comes up.
pub Reached-throws_nothing :
    {w : WebsocketConnection} {answered : ℕ} {h : Handled}
    → Reached w answered
    → Happens w answered h
    → h.0 ≡ none
Reached-throws_nothing r (socket_opens local once) =
    (on_open-IsHandled _ local _ (Reached-IsConsistent r) once).0
Reached-throws_nothing r (socket_closes local) =
    (on_close-IsHandled _ local _ (Reached-IsConsistent r)).0
Reached-throws_nothing r (socket_fails local) =
    (on_error-IsHandled _ local _ (Reached-IsConsistent r)).0
Reached-throws_nothing r (message_failed reason) =
    (on_message_failed-IsHandled _ reason _ (Reached-IsConsistent r)).0
Reached-throws_nothing r (timer_fired local) =
    (on_timeout-IsHandled _ local _ (Reached-IsConsistent r)).0
Reached-throws_nothing r (ping_answered uri_index sent) =
    (ping_succeeded-IsHandled _ uri_index _ (Reached-IsConsistent r) sent).0

-- The handlers return without a change of the connection, but for the URI's index.
abbrev pub IgnoresEvents : WebsocketConnection → Type 0
IgnoresEvents w =
    (local : ℕ) (timer : Option ℕ) (reason : String) (uri_index : ℕ)
    → (on_open local w ≡ (none, w))
      × (on_close local w ≡ (none, w))
      × (on_error local w ≡ (none, w))
      × (on_message_failed reason w ≡ (none, w))
      × (on_timeout timer w ≡ (none, w))
      × (ping_succeeded uri_index w ≡ (none, record w { uri_index = uri_index }))

disconnected_ignores :
    (u n : ℕ) (es : List Effect) → IgnoresEvents (connection u disconnected_forever none none n es)
unfolding on_open on_close on_error on_message_failed on_timeout ping_succeeded check_websocket
    same_websocket step_fsm step_known
disconnected_ignores u n es local none reason uri_index = (refl, refl, refl, refl, refl, refl)
disconnected_ignores u n es local (some t) reason uri_index = (refl, refl, refl, refl, refl, refl)

-- A fatal error is final: whatever a handler of a connection that is disconnected forever is called
-- with, it throws nothing and leaves the state, the socket and the effects as they are.
pub disconnected_forever-final :
    {w : WebsocketConnection} {answered : ℕ}
    → Reached w answered
    → w.state ≡ disconnected_forever
    → IgnoresEvents w
disconnected_forever-final {w} {answered} r =
    consistent_cases answered (λ w. w.state ≡ disconnected_forever → IgnoresEvents w)
      (λ u s t n es closed h e. absurd (ground (arith, e)))
      (λ u s t n es opened h e. absurd (ground (arith, e)))
      (λ u n es h e. absurd (ground (arith, e))) (λ u n es h e. disconnected_ignores u n es) w
      (Reached-IsConsistent r)
