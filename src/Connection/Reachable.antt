-- ===== src/Connection/Reachable.antt =====
-- The states of the connection that can be reached, and what holds in them.
use streamlit.Prelude.{
  List, Option, String, [], arith, false, none, some, suc, true, ℕ, ◌++◌, ◌+◌, ◌<◌, ◌∷◌, ◌≡◌, ◌≤◌,
}
use streamlit.Connection.{
  ConnectionState, Effect, Handled, Socket, WebsocketConnection, clear_timer, close_socket,
  connected, connecting, disconnected_forever, new_connection, on_close, on_error,
  on_message_failed, on_open, on_timeout, open_socket, ping, ping_succeeded, pinging_server, send,
  send_message, start_timer, state_changed,
}

-- How many pings have started.
unfoldable pub pings : List Effect → ℕ
pings [] = 0
pings (ping ∷ es) = suc (pings es)
pings (state_changed s m ∷ es) = pings es
pings (open_socket i u ∷ es) = pings es
pings (close_socket i ∷ es) = pings es
pings (start_timer i ∷ es) = pings es
pings (clear_timer i ∷ es) = pings es
pings (send i m ∷ es) = pings es

pub pings-append : (xs ys : List Effect) → pings (xs ++ ys) ≡ pings xs + pings ys
unfolding pings
pings-append [] ys = omega arith
pings-append (ping ∷ es) ys = omega (arith, pings-append es ys)
pings-append (state_changed s m ∷ es) ys = pings-append es ys
pings-append (open_socket i u ∷ es) ys = pings-append es ys
pings-append (close_socket i ∷ es) ys = pings-append es ys
pings-append (start_timer i ∷ es) ys = pings-append es ys
pings-append (clear_timer i ∷ es) ys = pings-append es ys
pings-append (send i m ∷ es) ys = pings-append es ys

-- In each state: the socket, the timer, and the pings that were sent and answered.
abbrev pub IsSettled : ConnectionState → Option Socket → Option ℕ → ℕ → ℕ → Type 0
IsSettled connecting (some s) (some t) sent answered = (s.opened ≡ false) × (sent ≡ answered)
IsSettled connected (some s) (some t) sent answered = (s.opened ≡ true) × (sent ≡ answered)
IsSettled pinging_server none none sent answered = sent ≡ answered + 1
IsSettled disconnected_forever none none sent answered = (answered ≤ sent) × (sent ≤ answered + 1)
IsSettled state o t sent answered = ⊥

abbrev pub IsConsistent : ℕ → WebsocketConnection → Type 0
IsConsistent answered w =
    IsSettled w.state w.websocket w.ws_connection_timeout_id (pings w.effects) answered

-- Nothing was thrown, and the connection is consistent.
abbrev pub IsHandled : ℕ → Handled → Type 0
IsHandled answered h = (h.0 ≡ none) × IsConsistent answered h.1

-- The connections that can be reached, with the number of pings that were answered. A socket opens
-- once, and a ping is answered once; all else may happen at any time, and also for old sockets and
-- cleared timers.
pub data Reached : WebsocketConnection → ℕ → Type 0 where
  constructed : Reached new_connection.1 0
  opens :
      {w : WebsocketConnection} {answered : ℕ} (local : ℕ)
      → Reached w answered
      → ((s : Socket) → w.websocket ≡ some s → s.id ≡ local → s.opened ≡ false)
      → Reached (on_open local w).1 answered
  closes :
      {w : WebsocketConnection} {answered : ℕ} (local : ℕ)
      → Reached w answered
      → Reached (on_close local w).1 answered
  fails :
      {w : WebsocketConnection} {answered : ℕ} (local : ℕ)
      → Reached w answered
      → Reached (on_error local w).1 answered
  message_fails :
      {w : WebsocketConnection} {answered : ℕ} (reason : String)
      → Reached w answered
      → Reached (on_message_failed reason w).1 answered
  timer_fires :
      {w : WebsocketConnection} {answered : ℕ} (local : Option ℕ)
      → Reached w answered
      → Reached (on_timeout local w).1 answered
  answers :
      {w : WebsocketConnection} {answered : ℕ} (uri_index : ℕ)
      → Reached w answered
      → answered < pings w.effects
      → Reached (ping_succeeded uri_index w).1 (answered + 1)
  sends :
      {w : WebsocketConnection} {answered : ℕ} (msg : String)
      → Reached w answered
      → Reached (send_message msg w) answered
