-- ===== src/App/Happenings.antt =====
-- What can happen to the application once it is mounted: messages, timeouts, the connection, its
-- user and its parts.
use streamlit.Prelude.{Bool, List, Option, String, [], if◌then◌else◌, none, some, true, ℕ, ◌∷◌}
use streamlit.Connection.{ConnectionState}
use streamlit.Connection.Manager.{same_state}
use streamlit.Widgets.Ops.{Op, apply}
use streamlit.Report.Proto.{Element}
use streamlit.Report.Frames.{Frames}
use streamlit.App.{App, UserSettings}
use streamlit.App.Calls.{close_dialog, handle_connection_error, with_widgets}
use streamlit.App.Commands.{
  about_callback, add_report_finished_handler, clear_cache, close_connection, component_did_update,
  handle_full_screen, open_clear_cache_dialog, open_theme_creator_dialog,
  remove_report_finished_handler, rerun_script, save_settings, send_load_git_info_back_msg,
  settings_callback, share_report, stop_report,
}
use streamlit.App.Session.{handle_connection_state_changed}
use streamlit.App.Elements.{next_timeout}
use streamlit.App.Messages.{ServerMsg, handle_message}

pub data Happening (F : Frames) : Type 0 where
  message_comes : ServerMsg F → Happening F
  timeout_comes : Happening F
  connection_changes : ConnectionState → Happening F
  connection_fails : String → Happening F
  user_reruns : Bool → Happening F
  user_stops user_clears_cache user_opens_clear_cache user_shares : Happening F
  user_closes_dialog user_opens_settings user_opens_about : Happening F
  user_opens_themes loads_git_info closes_connection : Happening F
  user_saves_settings : UserSettings → Happening F
  shows_full_screen : Bool → Happening F
  handler_added handler_removed : ℕ → Happening F
  -- The query of the host has changed, and it closes the dialog.
  updates : Bool → Bool → Happening F
  -- A part of the application calls the widget manager.
  widgets_change : Op → Happening F

module _ {F : Frames} where
  -- `setConnectionState` of the manager, where there is one: a new state is kept, and told.
  unfoldable pub manager_state_changed : ConnectionState → App F → App F
  manager_state_changed s a = elim a.connection_manager [
    | none ↦ a
    | some m ↦
        if same_state m.connection_state s
        then a
        else handle_connection_state_changed s
            (record a { connection_manager = some (record m { connection_state = s }) })
  ]

module _ (F : Frames) (widget_id : Element F.Payload → Option String)
    (hash_string : String → String) (join_entries : List (String × String) → String) where
  abbrev pub happen : Happening F → App F → App F
  happen (message_comes msg) a = handle_message F widget_id hash_string join_entries msg a
  happen timeout_comes a = next_timeout F widget_id a
  happen (connection_changes s) a = manager_state_changed s a
  happen (connection_fails error) a = handle_connection_error error a
  happen (user_reruns always) a = rerun_script always a
  happen user_stops a = stop_report a
  happen user_clears_cache a = clear_cache a
  happen user_opens_clear_cache a = open_clear_cache_dialog a
  happen user_shares a = share_report a
  happen user_closes_dialog a = close_dialog a
  happen user_opens_settings a = settings_callback true a
  happen user_opens_about a = about_callback a
  happen user_opens_themes a = open_theme_creator_dialog a
  happen loads_git_info a = send_load_git_info_back_msg a
  happen closes_connection a = close_connection a
  happen (user_saves_settings s) a = save_settings s a
  happen (shows_full_screen full) a = handle_full_screen full a
  happen (handler_added h) a = add_report_finished_handler h a
  happen (handler_removed h) a = remove_report_finished_handler h a
  happen (updates query_changed forced) a = component_did_update query_changed forced a
  happen (widgets_change op) a = with_widgets (apply op) a

  abbrev pub happen_all : List (Happening F) → App F → App F
  happen_all [] a = a
  happen_all (h ∷ hs) a = happen_all hs (happen h a)
