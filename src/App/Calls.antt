-- ===== src/App/Calls.antt =====
-- The calls that the operations of the application (frontend/src/App.tsx) share: dialogs, metrics,
-- messages to the server, and the widget manager with its callbacks.
use streamlit.Prelude.{
  Bool, List, Option, String, [], false, if◌then◌else◌, none, some, str_eq, ◌++◌, ◌∷◌,
}
use streamlit.Connection.Manager.{is_connected}
use streamlit.Metrics.{enqueue}
use streamlit.Report.Frames.{Frames}
use streamlit.Widgets.Values.{WidgetState}
use streamlit.Widgets.Manager.{
  Call, WidgetStateManager, form_cleared, forms_data_changed, send_rerun_back_msg,
}
use streamlit.App.{
  Action, App, BackMsg, DialogProps, EventData, Page, call_form_cleared, deploy_error, error_logged,
  host_modal_reset, rerun_script_msg, send_message_to_server, warning,
}

-- `queryString.substring(1)`, where it starts with a question mark.
unfoldable pub without_question_mark : String → String
without_question_mark String.[] = String.[]
without_question_mark (String.◌∷◌ c s) =
    if str_eq (String.◌∷◌ c String.[]) "?" then s else String.◌∷◌ c s

unfoldable pub query_string : Page → String
query_string p =
    without_question_mark (if str_eq p.query_params "" then p.location_search else p.query_params)

module _ {F : Frames} where
  abbrev pub act : Action → App F → App F
  act x a = record a { actions = a.actions ++ (x ∷ []) }

  unfoldable pub is_server_connected : App F → Bool
  is_server_connected a = elim a.connection_manager [ none ↦ false | some m ↦ is_connected m ]

  unfoldable pub send_back_msg : BackMsg → App F → App F
  send_back_msg msg a = elim a.connection_manager [
    | none ↦ act (error_logged "Not connected. Cannot send back message") a
    | some m ↦ act (send_message_to_server msg) a
  ]

  -- An event of the metrics, in this session or before one.
  unfoldable pub enqueue_event : String → EventData → App F → App F
  enqueue_event name d a = record a {
    metrics =
        enqueue a.page.is_dev_env a.session (record { name = name; event_data = d }) a.metrics;
  }

  unfoldable pub open_dialog : DialogProps → App F → App F
  open_dialog d a = record a { dialog = some d }

  unfoldable pub close_dialog : App F → App F
  close_dialog a = act host_modal_reset (record a { dialog = none })

  unfoldable pub show_error : String → String → App F → App F
  show_error title error a = open_dialog (warning title error) (act (error_logged error) a)

  unfoldable pub show_deploy_error : String → String → App F → App F
  show_deploy_error title error a = open_dialog (deploy_error title error) a

  unfoldable pub handle_connection_error : String → App F → App F
  handle_connection_error error a = show_error "Connection error" error a

  unfoldable pub send_rerun_back_message : Option (List WidgetState) → App F → App F
  send_rerun_back_message widget_states a =
      send_back_msg (rerun_script_msg (query_string a.page) widget_states) a

  -- The callbacks of the widget manager.
  unfoldable pub on_widget_call : Call → App F → App F
  on_widget_call (send_rerun_back_msg states) a = send_rerun_back_message (some states) a
  on_widget_call (forms_data_changed d) a = record a { forms_data = d }
  on_widget_call (form_cleared l) a = act (call_form_cleared l) a

  unfoldable pub on_widget_calls : List Call → App F → App F
  on_widget_calls [] a = a
  on_widget_calls (c ∷ cs) a = on_widget_calls cs (on_widget_call c a)

  -- A call of the widget manager, with the callbacks that it makes. These do not read the manager.
  unfoldable pub with_widgets : (WidgetStateManager → WidgetStateManager) → App F → App F
  with_widgets change a =
      let m = change (record a.widget_mgr { calls = [] }) in
      on_widget_calls m.calls (record a { widget_mgr = m })
