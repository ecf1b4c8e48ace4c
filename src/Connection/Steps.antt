-- ===== src/Connection/Steps.antt =====
-- Every handler of the connection keeps the invariant, and throws nothing.
use streamlit.Prelude.{
  Bool-cases, List, Option, String, arith, false, inl, inr, none, refl, some, true, ℕ, ◌+◌, ◌<◌,
  ◌==◌, ◌≡◌, ◌≤◌,
}
use streamlit.Connection.{
  ConnectionState, Effect, Socket, WebsocketConnection, cancel_connection_attempt, cancel_socket,
  cancel_timeout, check_websocket, connect_to_web_socket, connected, connecting,
  disconnected_forever, enter_after, enter_before, next_state, on_close, on_error,
  on_message_failed, on_open, on_timeout, on_timeout_of, open_in, ping_succeeded, pinging_server,
  same_websocket, send_message, set_connection_timeout, set_fsm_state, step_fsm, step_known,
}
use streamlit.Connection.Reachable.{IsConsistent, IsHandled, IsSettled, pings, pings-append}

-- The connection with its fields given one by one.
abbrev pub connection :
    ℕ → ConnectionState → Option Socket → Option ℕ → ℕ → List Effect → WebsocketConnection
connection u st ws t n es = record {
  uri_index = u;
  state = st;
  websocket = ws;
  ws_connection_timeout_id = t;
  made = n;
  effects = es;
}

pinging_entered :
    (answered u : ℕ) (st : ConnectionState) (s : Socket) (t n : ℕ) (es : List Effect)
    → pings es ≡ answered
    → IsHandled answered (
        set_fsm_state pinging_server none
          (cancel_connection_attempt (connection u st (some s) (some t) n es)))
unfolding set_fsm_state enter_before enter_after cancel_connection_attempt cancel_socket
    cancel_timeout pings
pinging_entered answered u st s t n es h = (refl, simp (pings-append, h) (omega arith))

connecting_entered :
    (answered u : ℕ) (st : ConnectionState) (n : ℕ) (es : List Effect)
    → pings es ≡ answered + 1
    → IsHandled (answered + 1) (set_fsm_state connecting none (connection u st none none n es))
unfolding set_fsm_state enter_before enter_after connect_to_web_socket set_connection_timeout pings
connecting_entered answered u st n es h = (refl, (refl, simp (pings-append, h) (omega arith)))

disconnected_entered :
    (answered u : ℕ) (st : ConnectionState) (o : Option Socket) (t : Option ℕ) (n : ℕ)
    (es : List Effect) (m : Option String)
    → answered ≤ pings es
    → pings es ≤ answered + 1
    → IsHandled answered (set_fsm_state disconnected_forever m (connection u st o t n es))
unfolding set_fsm_state enter_before enter_after cancel_connection_attempt cancel_socket
    cancel_timeout pings
disconnected_entered answered u st none none n es m le ge =
    (refl, (simp pings-append (omega (arith, le)), simp pings-append (omega (arith, ge))))
disconnected_entered answered u st none (some t) n es m le ge =
    (refl, (simp pings-append (omega (arith, le)), simp pings-append (omega (arith, ge))))
disconnected_entered answered u st (some s) none n es m le ge =
    (refl, (simp pings-append (omega (arith, le)), simp pings-append (omega (arith, ge))))
disconnected_entered answered u st (some s) (some t) n es m le ge =
    (refl, (simp pings-append (omega (arith, le)), simp pings-append (omega (arith, ge))))

-- The four kinds of consistent connections.
module _ (answered : ℕ) (P : WebsocketConnection → Type 0)
    (when_connecting : (u : ℕ) (s : Socket) (t n : ℕ) (es : List Effect)
      → s.opened ≡ false
      → pings es ≡ answered
      → P (connection u connecting (some s) (some t) n es))
    (when_connected : (u : ℕ) (s : Socket) (t n : ℕ) (es : List Effect)
      → s.opened ≡ true
      → pings es ≡ answered
      → P (connection u connected (some s) (some t) n es))
    (when_pinging : (u n : ℕ) (es : List Effect)
      → pings es ≡ answered + 1
      → P (connection u pinging_server none none n es))
    (when_disconnected : (u n : ℕ) (es : List Effect)
      → (answered ≤ pings es) × (pings es ≤ answered + 1)
      → P (connection u disconnected_forever none none n es)) where
  field_cases :
      (u : ℕ) (st : ConnectionState) (o : Option Socket) (t : Option ℕ) (n : ℕ) (es : List Effect)
      → IsSettled st o t (pings es) answered
      → P (connection u st o t n es)
  field_cases u connecting (some s) (some t) n es h = when_connecting u s t n es h.0 h.1
  field_cases u connected (some s) (some t) n es h = when_connected u s t n es h.0 h.1
  field_cases u pinging_server none none n es h = when_pinging u n es h
  field_cases u disconnected_forever none none n es h = when_disconnected u n es h
  field_cases u st o t n es h = absurd h

  pub consistent_cases : (w : WebsocketConnection) → IsConsistent answered w → P w
  consistent_cases w h =
      field_cases w.uri_index w.state w.websocket w.ws_connection_timeout_id w.made w.effects h

pub on_open-IsHandled :
    (answered local : ℕ) (w : WebsocketConnection)
    → IsConsistent answered w
    → ((s : Socket) → w.websocket ≡ some s → s.id ≡ local → s.opened ≡ false)
    → IsHandled answered (on_open local w)
unfolding on_open check_websocket open_in step_fsm step_known next_state set_fsm_state enter_before
    enter_after pings
on_open-IsHandled answered local =
    consistent_cases answered
      (λ w.
        ((s : Socket) → w.websocket ≡ some s → s.id ≡ local → s.opened ≡ false)
        → IsHandled answered (on_open local w))
      (λ u s t n es closed h once. elim (Bool-cases (local == s.id)) [
        | inl same ↦ rw same (refl, (refl, simp (pings-append, h) (omega arith)))
        | inr other ↦ rw other (refl, (closed, h))
      ])
      (λ u s t n es opened h once. elim (Bool-cases (local == s.id)) [
        | inl same ↦ absurd (ground (arith, same, opened, once s refl))
        | inr other ↦ rw other (refl, (opened, h))
      ])
      (λ u n es h once. (refl, h)) (λ u n es h once. (refl, h))

pub on_close-IsHandled :
    (answered local : ℕ) (w : WebsocketConnection)
    → IsConsistent answered w
    → IsHandled answered (on_close local w)
unfolding on_close check_websocket step_fsm step_known next_state cancel_connection_attempt
    cancel_socket cancel_timeout
on_close-IsHandled answered local =
    consistent_cases answered (λ w. IsHandled answered (on_close local w))
      (λ u s t n es closed h. elim (Bool-cases (local == s.id)) [
        | inl same ↦ rw same (pinging_entered answered u connecting s t n es h)
        | inr other ↦ rw other (refl, (closed, h))
      ])
      (λ u s t n es opened h. elim (Bool-cases (local == s.id)) [
        | inl same ↦ rw same (pinging_entered answered u connected s t n es h)
        | inr other ↦ rw other (refl, (opened, h))
      ])
      (λ u n es h. (refl, h)) (λ u n es h. (refl, h))

pub on_error-IsHandled :
    (answered local : ℕ) (w : WebsocketConnection)
    → IsConsistent answered w
    → IsHandled answered (on_error local w)
unfolding on_error check_websocket step_fsm step_known next_state cancel_connection_attempt
    cancel_socket cancel_timeout
on_error-IsHandled answered local =
    consistent_cases answered (λ w. IsHandled answered (on_error local w))
      (λ u s t n es closed h. elim (Bool-cases (local == s.id)) [
        | inl same ↦ rw same (pinging_entered answered u connecting s t n es h)
        | inr other ↦ rw other (refl, (closed, h))
      ])
      (λ u s t n es opened h. elim (Bool-cases (local == s.id)) [
        | inl same ↦ rw same (pinging_entered answered u connected s t n es h)
        | inr other ↦ rw other (refl, (opened, h))
      ])
      (λ u n es h. (refl, h)) (λ u n es h. (refl, h))

pub on_message_failed-IsHandled :
    (answered : ℕ) (reason : String) (w : WebsocketConnection)
    → IsConsistent answered w
    → IsHandled answered (on_message_failed reason w)
unfolding on_message_failed step_fsm step_known
on_message_failed-IsHandled answered reason =
    consistent_cases answered (λ w. IsHandled answered (on_message_failed reason w))
      (λ u s t n es closed h.
        disconnected_entered answered u connecting (some s) (some t) n es _ (omega (arith, h))
          (omega (arith, h)))
      (λ u s t n es opened h.
        disconnected_entered answered u connected (some s) (some t) n es _ (omega (arith, h))
          (omega (arith, h)))
      (λ u n es h.
        disconnected_entered answered u pinging_server none none n es _ (omega (arith, h))
          (omega (arith, h)))
      (λ u n es h. (refl, h))

-- A timer that was set for a socket.
socket_timeout-IsHandled :
    (answered local : ℕ) (w : WebsocketConnection)
    → IsConsistent answered w
    → IsHandled answered (on_timeout (some local) w)
unfolding on_timeout on_timeout_of same_websocket check_websocket step_fsm step_known next_state
    cancel_connection_attempt cancel_socket cancel_timeout
socket_timeout-IsHandled answered local =
    consistent_cases answered (λ w. IsHandled answered (on_timeout (some local) w))
      (λ u s t n es closed h. elim (Bool-cases (local == s.id)) [
        | inl same ↦ rw (same, closed) (pinging_entered answered u connecting s t n es h)
        | inr other ↦ rw other (refl, (closed, h))
      ])
      (λ u s t n es opened h. elim (Bool-cases (local == s.id)) [
        | inl same ↦ rw (same, opened) (refl, (refl, h))
        | inr other ↦ rw other (refl, (opened, h))
      ])
      (λ u n es h. (refl, h)) (λ u n es h. (refl, h))

pub on_timeout-IsHandled :
    (answered : ℕ) (local : Option ℕ) (w : WebsocketConnection)
    → IsConsistent answered w
    → IsHandled answered (on_timeout local w)
unfolding on_timeout same_websocket
on_timeout-IsHandled answered (some local) w h = socket_timeout-IsHandled answered local w h
on_timeout-IsHandled answered none w h =
    consistent_cases answered (λ w. IsHandled answered (on_timeout none w))
      (λ u s t n es closed h. (refl, (closed, h))) (λ u s t n es opened h. (refl, (opened, h)))
      (λ u n es h. (refl, h)) (λ u n es h. (refl, h)) w h

pub ping_succeeded-IsHandled :
    (answered uri_index : ℕ) (w : WebsocketConnection)
    → IsConsistent answered w
    → answered < pings w.effects
    → IsHandled (answered + 1) (ping_succeeded uri_index w)
unfolding ping_succeeded step_fsm step_known next_state
ping_succeeded-IsHandled answered uri_index =
    consistent_cases answered
      (λ w. answered < pings w.effects → IsHandled (answered + 1) (ping_succeeded uri_index w))
      (λ u s t n es closed h sent. absurd (omega (arith, h, sent)))
      (λ u s t n es opened h sent. absurd (omega (arith, h, sent)))
      (λ u n es h sent. connecting_entered answered uri_index pinging_server n es h)
      (λ u n es h sent. (refl, (omega (arith, sent), omega (arith, h.1))))

pub send_message-IsConsistent :
    (answered : ℕ) (msg : String) (w : WebsocketConnection)
    → IsConsistent answered w
    → IsConsistent answered (send_message msg w)
unfolding send_message pings
send_message-IsConsistent answered msg =
    consistent_cases answered (λ w. IsConsistent answered (send_message msg w))
      (λ u s t n es closed h. (closed, simp (pings-append, h) (omega arith)))
      (λ u s t n es opened h. (opened, simp (pings-append, h) (omega arith))) (λ u n es h. h)
      (λ u n es h. h)
