-- ===== src/Connection/Mirror.antt =====
-- What the owner of a connection hears of it, and what it sends.
use streamlit.Prelude.{
  Bool-cases, List, Option, String, [], ap, append-nil, append_assoc, arith, false, if◌then◌else◌,
  inl, inr, none, refl, some, sym, true, ℕ, ◌++◌, ◌∙◌, ◌∷◌, ◌≡◌,
}
use streamlit.Connection.{
  ConnectionState, Socket, WebsocketConnection, connected, connecting, disconnected_forever, emit,
  initial, pinging_server, send, send_message, static,
}
use streamlit.Connection.Reachable.{Reached}
use streamlit.Connection.Steps.{connection, consistent_cases}
use streamlit.Connection.Safety.{Reached-IsConsistent}
use streamlit.Connection.Manager.{
  ConnectionManager, ManagerCall, call, connection_error_shown, connection_state_changed,
  is_connected, report_error, same_state, send_back_message, send_refused, send_to,
  set_connection_state, shown_error, websocket_connection,
}

-- The states that a connection reports, with their messages, one after the other.
abbrev pub reports : List (ConnectionState × Option String) → ConnectionManager → ConnectionManager
reports [] m = m
reports ((state, err_msg) ∷ rest) m = reports rest (set_connection_state state err_msg m)

-- The reported states without those that are no change, from a state on.
abbrev pub changes : ConnectionState → List (ConnectionState × Option String) → List ConnectionState
changes current [] = []
changes current ((state, err_msg) ∷ rest) =
    (if same_state current state then [] else state ∷ []) ++ changes state rest

abbrev pub last_state : ConnectionState → List (ConnectionState × Option String) → ConnectionState
last_state current [] = current
last_state current ((state, err_msg) ∷ rest) = last_state state rest

-- The states that the manager's owner was told.
unfoldable pub told : List ManagerCall → List ConnectionState
told [] = []
told (connection_state_changed state ∷ calls) = state ∷ told calls
told (connection_error_shown text ∷ calls) = told calls
told (send_refused msg ∷ calls) = told calls

told-append : (xs ys : List ManagerCall) → told (xs ++ ys) ≡ told xs ++ told ys
unfolding told
told-append [] ys = refl
told-append (connection_state_changed state ∷ calls) ys = ap (λ t. state ∷ t) (told-append calls ys)
told-append (connection_error_shown text ∷ calls) ys = told-append calls ys
told-append (send_refused msg ∷ calls) ys = told-append calls ys

same_state-true : (a b : ConnectionState) → same_state a b ≡ true → a ≡ b
unfolding same_state
same_state-true connected connected e = refl
same_state-true disconnected_forever disconnected_forever e = refl
same_state-true initial initial e = refl
same_state-true pinging_server pinging_server e = refl
same_state-true connecting connecting e = refl
same_state-true static static e = refl
same_state-true a b e = absurd (ground (arith, e))

report_error_frame :
    (shown : Option String) (m : ConnectionManager)
    → ((report_error shown m).connection_state ≡ m.connection_state)
      × (told (report_error shown m).calls ≡ told m.calls)
unfolding report_error
report_error_frame none m = (refl, refl)
report_error_frame (some text) m =
    (refl, unfold told in told-append m.calls _ ∙ append-nil (told m.calls))

-- One report.
told-set_connection_state :
    (state : ConnectionState) (err_msg : Option String) (m : ConnectionManager)
    → ((set_connection_state state err_msg m).connection_state ≡ state)
      × (told (set_connection_state state err_msg m).calls
          ≡ told m.calls ++ (if same_state m.connection_state state then [] else state ∷ []))
unfolding set_connection_state told
told-set_connection_state state err_msg m =
    elim (Bool-cases (same_state m.connection_state state)) [
      | inl same ↦
          let (state_kept, told_kept) = report_error_frame (shown_error state err_msg) m in
          rw same (
            state_kept ∙ same_state-true m.connection_state state same,
            told_kept ∙ sym (append-nil (told m.calls)),
          )
      | inr differ ↦
          let (state_kept, told_kept) =
            report_error_frame (shown_error state err_msg)
              (call (connection_state_changed state) (record m { connection_state = state })) in
          rw differ (state_kept, told_kept ∙ told-append m.calls _)
    ]

-- Whatever states a connection reports, the manager is in the last of them, and its owner was told
-- of each report that is a change, in their order, and of no other.
pub reports-told :
    (states : List (ConnectionState × Option String)) (m : ConnectionManager)
    → ((reports states m).connection_state ≡ last_state m.connection_state states)
      × (told (reports states m).calls ≡ told m.calls ++ changes m.connection_state states)
reports-told [] m = (refl, sym (append-nil (told m.calls)))
reports-told ((state, err_msg) ∷ rest) m =
    let m' = set_connection_state state err_msg m in
    let (at_state, one_told) = told-set_connection_state state err_msg m in
    let (at_last, all_told) = reports-told rest m' in
    (
      at_last ∙ ap (λ x. last_state x rest) at_state,
      all_told
          ∙ ap (λ x. told m'.calls ++ changes x rest) at_state
          ∙ ap (λ t. t ++ changes state rest) one_told
          ∙ append_assoc (told m.calls)
              (if same_state m.connection_state state then [] else state ∷ []) (changes state rest),
    )

same_state-false : (a : ConnectionState) → ¬ (a ≡ connected) → same_state a connected ≡ false
same_state-false a differ = elim (Bool-cases (same_state a connected)) [
  | inl same ↦ absurd (differ (same_state-true a connected same))
  | inr differs ↦ differs
]

-- The socket that takes messages.
abbrev pub opened_socket : Option Socket → Option ℕ
opened_socket none = none
opened_socket (some s) = if s.opened then some s.id else none

-- What sending does, by the socket that takes messages.
abbrev pub sent_or_refused :
    String → Option ℕ → WebsocketConnection → ConnectionManager → ConnectionManager
sent_or_refused msg none w m = call (send_refused msg) m
sent_or_refused msg (some id) w m = record m {
  connection = some (websocket_connection (emit (send id msg) w));
}

sent_connected :
    (msg : String) (s : Socket) (w : WebsocketConnection) (m : ConnectionManager)
    → m.connection ≡ some (websocket_connection w)
    → m.connection_state ≡ connected
    → w.websocket ≡ some s
    → send_back_message msg m
      ≡ record m { connection = some (websocket_connection (emit (send s.id msg) w)) }
unfolding send_back_message send_to is_connected same_state send_message
sent_connected msg s w m conn state socket = ground (arith, conn, state, socket)

refused :
    (msg : String) (w : WebsocketConnection) (m : ConnectionManager)
    → m.connection ≡ some (websocket_connection w)
    → ¬ (m.connection_state ≡ connected)
    → send_back_message msg m ≡ call (send_refused msg) m
unfolding send_back_message send_to is_connected
refused msg w m conn differ = ground (arith, conn, same_state-false m.connection_state differ)

-- A manager that is in the state of its connection, which can be reached, gives a message to the
-- socket of the connection if that has opened, and else refuses it.
pub send_back_message-opened :
    {w : WebsocketConnection} {answered : ℕ}
    → Reached w answered
    → (msg : String) (m : ConnectionManager) → m.connection ≡ some (websocket_connection w)
    → m.connection_state ≡ w.state
    → send_back_message msg m ≡ sent_or_refused msg (opened_socket w.websocket) w m
send_back_message-opened {w} {answered} r msg m =
    consistent_cases answered
      (λ w.
        m.connection ≡ some (websocket_connection w)
        → m.connection_state ≡ w.state
        → send_back_message msg m ≡ sent_or_refused msg (opened_socket w.websocket) w m)
      (λ u s t n es closed h conn state.
        refused msg _ m conn (λ e. ground (arith, state, e))
        ∙ ap
            (λ b.
              sent_or_refused msg (if b then some s.id else none)
                (connection u connecting (some s) (some t) n es) m)
            (sym closed))
      (λ u s t n es opened h conn state.
        sent_connected msg s _ m conn state refl
        ∙ ap
            (λ b.
              sent_or_refused msg (if b then some s.id else none)
                (connection u connected (some s) (some t) n es) m)
            (sym opened))
      (λ u n es h conn state. refused msg _ m conn (λ e. ground (arith, state, e)))
      (λ u n es h conn state. refused msg _ m conn (λ e. ground (arith, state, e))) w
      (Reached-IsConsistent r)
