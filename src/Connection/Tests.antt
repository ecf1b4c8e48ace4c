-- ===== src/Connection/Tests.antt =====
-- Runs of frontend/src/lib/WebsocketConnection.tsx at concrete inputs.
use streamlit.Prelude.{
  Option, String, [], arith, false, get_elem?, if◌then◌else◌, length, ltb, none, refl, some, ℕ, ◌*◌,
  ◌<◌, ◌==◌, ◌∷◌, ◌≡◌, ◌≢◌,
}
use streamlit.Connection.{
  Socket, WebsocketConnection, cancel_connection_attempt, cancel_socket, cancel_timeout,
  check_websocket, connect_to_web_socket, connected, disconnected_forever, enter_after,
  enter_before, new_connection, next_state, on_close, on_message_failed, on_open, open_in,
  pinging_server, set_connection_timeout, set_fsm_state, step_fsm, step_known,
}
use streamlit.Connection.Dispatch.{
  Inbox, dequeue, dispatch, dispatch_pending, enqueue, message_decoded, new_inbox, queued, receive,
}
use streamlit.Connection.Reachable.{
  IsConsistent, Reached, closes, constructed, message_fails, opens, pings,
}
use streamlit.Connection.Safety.{
  IgnoresEvents, Reached-IsConsistent, Reached-throws_nothing, disconnected_forever-final,
  socket_closes,
}
use streamlit.Connection.Recovers.{Reached-recovers, awaited}
use streamlit.Connection.InOrder.{Received, Received-in_order, comes, decodes, nothing_yet}
use streamlit.Connection.Ping.{
  attempts, connection_aborted, no_response, responded, retry_timeout, start_ping,
}
use streamlit.Connection.Rounds.{IsRound, attempts-IsRound, retry_timeout-still_waits}
use streamlit.Connection.Manager.{ConnectionManager, websocket_connection}

abbrev opened_once : WebsocketConnection
opened_once = (on_open 0 new_connection.1).1

started_connecting : new_connection.0 ≡ none
unfolding new_connection step_fsm step_known next_state set_fsm_state enter_before enter_after
    connect_to_web_socket set_connection_timeout
started_connecting = refl

-- The first socket has not opened.
first_socket : (s : Socket) → new_connection.1.websocket ≡ some s → s.id ≡ 0 → s.opened ≡ false
unfolding new_connection step_fsm step_known next_state set_fsm_state enter_before enter_after
    connect_to_web_socket set_connection_timeout
first_socket s e same = ground (arith, e)

opened-Reached : Reached opened_once 0
opened-Reached = opens 0 constructed first_socket

closed-Reached : Reached (on_close 0 opened_once).1 0
closed-Reached = closes 0 opened-Reached

Reached-IsConsistent_example : IsConsistent 0 (on_close 0 opened_once).1
Reached-IsConsistent_example = Reached-IsConsistent (closes 0 opened-Reached)

-- A second close of the same socket.
Reached-throws_nothing_example : (on_close 0 (on_close 0 opened_once).1).0 ≡ none
Reached-throws_nothing_example = Reached-throws_nothing closed-Reached (socket_closes 0)

-- The closed connection pings the server.
closed_pings :
    ((on_close 0 opened_once).1.state ≡ pinging_server)
    × (pings (on_close 0 opened_once).1.effects ≡ 1)
unfolding new_connection step_fsm step_known next_state set_fsm_state enter_before enter_after
    connect_to_web_socket set_connection_timeout on_open on_close check_websocket open_in
    cancel_connection_attempt cancel_socket cancel_timeout pings
closed_pings = (refl, refl)

abbrev failed : WebsocketConnection
failed = (on_message_failed "reason" opened_once).1

failed_forever : failed.state ≡ disconnected_forever
unfolding new_connection step_fsm step_known next_state set_fsm_state enter_before enter_after
    connect_to_web_socket set_connection_timeout on_open check_websocket open_in on_message_failed
    cancel_connection_attempt cancel_socket cancel_timeout
failed_forever = refl

failed-Reached : Reached failed 0
failed-Reached = message_fails "reason" opened-Reached

disconnected_forever-final_example : IgnoresEvents failed
disconnected_forever-final_example = disconnected_forever-final failed-Reached failed_forever

-- Two messages come, and the second is decoded first.
abbrev two_came : Inbox String
two_came = (receive (receive new_inbox).1).1

abbrev second_decoded : Inbox String
second_decoded = message_decoded 1 "b" two_came

came : Received String (λ i. none) two_came
came = comes (comes nothing_yet)

abbrev decoded_text : ℕ → Option String
decoded_text i = if 0 == i then some "a" else if 1 == i then some "b" else none

Received-in_order_example :
    (get_elem? (message_decoded 0 "a" second_decoded).dispatched 1 ≡ (
      if ltb 1 (length (message_decoded 0 "a" second_decoded).dispatched)
      then decoded_text 1
      else none))
    × (decoded_text (length (message_decoded 0 "a" second_decoded).dispatched) ≡ none)
unfolding receive new_inbox message_decoded dispatch_pending dispatch queued enqueue
Received-in_order_example =
    Received-in_order (decodes 0 "a" (decodes 1 "b" came (omega arith) refl) (omega arith) refl) 1

both_dispatched : (message_decoded 0 "a" second_decoded).dispatched ≡ "a" ∷ "b" ∷ []
unfolding receive new_inbox message_decoded dispatch_pending dispatch queued enqueue dequeue
both_dispatched = refl

attempts-IsRound_example :
    IsRound 2 3 (
      attempts
        (λ i. i == 0)
        2
        (no_response ∷ connection_aborted ∷ responded 403 "" ∷ [])
        start_ping)
attempts-IsRound_example =
    attempts-IsRound (λ i. i == 0) 2 (no_response ∷ connection_aborted ∷ responded 403 "" ∷ [])
      (omega arith)

-- 500 ms is the timeout of the code.
retry_timeout-still_waits_example : 500 * 500 < retry_timeout 500 500
retry_timeout-still_waits_example =
    retry_timeout-still_waits 500 500 (omega arith) (omega arith) (omega arith)

abbrev owner : ConnectionManager
owner = record {
  connection = some (websocket_connection opened_once);
  connection_state = connected;
  calls = [];
}

closed_once-pinging : (on_close 0 opened_once).1.state ≢ disconnected_forever
unfolding on_close check_websocket cancel_connection_attempt cancel_socket cancel_timeout step_fsm
    step_known next_state set_fsm_state enter_before enter_after on_open open_in new_connection
    connect_to_web_socket set_connection_timeout
closed_once-pinging e = cc e

-- The socket closes once, and then what is awaited comes.
Reached-recovers_example :
    let w = (on_close 0 opened_once).1 in
    ((awaited w).0 ≡ none)
    × ((awaited (awaited w).1).0 ≡ none)
    × ((awaited (awaited w).1).1.state ≡ connected)
Reached-recovers_example =
    Reached-recovers (on_close 0 opened_once).1 0 closed-Reached closed_once-pinging
