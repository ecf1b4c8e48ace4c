-- ===== src/App/Stops.antt =====
-- Requests to stop are not queued up.
use streamlit.Prelude.{
  List, Option, String, [], ap, arith, false, if◌then◌else◌, true, ◌+◌, ◌∷◌, ◌≡◌, ◌≤◌,
}
use streamlit.Widgets.Ops.{apply}
use streamlit.Report.Proto.{Element}
use streamlit.Report.Frames.{Frames}
use streamlit.Report.Root.{apply_delta, clear_stale_root}
use streamlit.App.{
  App, report_changed_on_disk, report_was_manually_stopped, script_compilation_exception,
}
use streamlit.App.Elements.{may_show}
use streamlit.App.Messages.{
  ServerMsg, cannot_handle_type, delta, git_info_changed, handle_message, new_report,
  page_config_changed, page_info_changed, report_finished, report_uploaded, session_event,
  session_state_changed, unknown_message, upload_report_progress,
}
use streamlit.App.Happenings.{
  Happening, closes_connection, connection_changes, connection_fails, handler_added,
  handler_removed, happen, happen_all, loads_git_info, message_comes, shows_full_screen,
  timeout_comes, updates, user_clears_cache, user_closes_dialog, user_opens_about,
  user_opens_clear_cache, user_opens_settings, user_opens_themes, user_reruns, user_saves_settings,
  user_shares, user_stops, widgets_change,
}
use streamlit.App.Core.{Core, core, core-close_dialog, core-with_widgets, stops_sent}
use streamlit.App.CommandCores.{
  core-about_callback, core-add_report_finished_handler, core-clear_cache, core-close_connection,
  core-component_did_update, core-handle_connection_error, core-handle_full_screen,
  core-open_clear_cache_dialog, core-open_theme_creator_dialog, core-remove_report_finished_handler,
  core-rerun_script, core-save_settings, core-send_load_git_info_back_msg, core-settings_callback,
  core-share_report, core-stop_report,
}
use streamlit.App.MessageCores.{
  core-handle_git_info_changed, core-handle_page_config_changed, core-handle_page_info_changed,
  core-handle_report_uploaded, core-handle_session_event, core-handle_session_state_changed,
  core-handle_upload_report_progress, core-manager_state_changed, core-show_message_error,
}
use streamlit.App.TreeCores.{
  core-handle_delta_msg, core-handle_report_finished, core-next_timeout, core-report_failed,
}
use streamlit.App.ReportCores.{control, handle_new_report-control}
use streamlit.App.Requests.{
  MayControl-le, allowed, allows_stop, delta_taken-control, finish_taken-control, how_many,
  next_run_state-allowed, reruns-le, stops-le, timeout_taken-control, total,
}

module _ {F : Frames} where
  module _ (widget_id : Element F.Payload → Option String) (hash_string : String → String)
      (join_entries : List (String × String) → String) where
    -- One happening adds to the requests no more than it allows.
    abbrev IsAllowed : Happening F → App F → Type 0
    IsAllowed h a =
        total (control (core (happen F widget_id hash_string join_entries h a)))
        ≤ total (control (core a)) + (if allows_stop h then 1 else 0)

    quiet-IsAllowed :
        (h : Happening F) (a : App F)
        → core (happen F widget_id hash_string join_entries h a) ≡ core a
        → IsAllowed h a
    quiet-IsAllowed h a e = omega (arith, ap (λ (c : Core F). total (control c)) e)

    state-IsAllowed :
        (h : Happening F) (a : App F) (c : Core F)
        → core (happen F widget_id hash_string join_entries h a) ≡ c
        → total (control c) ≤ total (control (core a)) + (if allows_stop h then 1 else 0)
        → IsAllowed h a
    state-IsAllowed h a c e le = omega (arith, le, ap (λ (c : Core F). total (control c)) e)

    message-IsAllowed : (msg : ServerMsg F) (a : App F) → IsAllowed (message_comes msg) a
    unfolding handle_message core
    message-IsAllowed (new_report msg) a =
        MayControl-le msg (core a) _ (handle_new_report-control hash_string join_entries msg a)
    message-IsAllowed (session_state_changed msg) a =
        state-IsAllowed (message_comes (session_state_changed msg)) a _
          (core-handle_session_state_changed msg a)
          (omega (arith, next_run_state-allowed msg.report_is_running a.report_run_state))
    message-IsAllowed (session_event (script_compilation_exception error)) a =
        state-IsAllowed (message_comes (session_event (script_compilation_exception error))) a _
          (core-handle_session_event (script_compilation_exception error) a) (omega arith)
    message-IsAllowed (session_event report_changed_on_disk) a =
        quiet-IsAllowed (message_comes (session_event report_changed_on_disk)) a
          (core-handle_session_event report_changed_on_disk a)
    message-IsAllowed (session_event report_was_manually_stopped) a =
        quiet-IsAllowed (message_comes (session_event report_was_manually_stopped)) a
          (core-handle_session_event report_was_manually_stopped a)
    message-IsAllowed (delta d metadata) a =
        state-IsAllowed (message_comes (delta d metadata)) a _
          (core-handle_delta_msg F widget_id d metadata a)
          (omega (
            arith,
            ap total (
                delta_taken-control widget_id (may_show F widget_id a)
                  (apply_delta F a.report_id d metadata a.pending_elements_buffer a.metrics).0
                  (core a)),
          ))
    message-IsAllowed (page_config_changed c) a =
        quiet-IsAllowed (message_comes (page_config_changed c)) a
          (core-handle_page_config_changed c a)
    message-IsAllowed (page_info_changed query) a =
        quiet-IsAllowed (message_comes (page_info_changed query)) a
          (core-handle_page_info_changed query a)
    message-IsAllowed (git_info_changed g) a =
        quiet-IsAllowed (message_comes (git_info_changed g)) a (core-handle_git_info_changed g a)
    message-IsAllowed (report_finished true) a =
        state-IsAllowed (message_comes (report_finished true)) a _
          (core-handle_report_finished F widget_id a)
          (omega (
            arith,
            ap total (
                finish_taken-control widget_id
                  (clear_stale_root a.report_id a.pending_elements_buffer) (core a)),
          ))
    message-IsAllowed (report_finished false) a =
        quiet-IsAllowed (message_comes (report_finished false)) a (core-report_failed F widget_id a)
    message-IsAllowed (upload_report_progress progress) a =
        quiet-IsAllowed (message_comes (upload_report_progress progress)) a
          (core-handle_upload_report_progress progress a)
    message-IsAllowed (report_uploaded url) a =
        quiet-IsAllowed (message_comes (report_uploaded url)) a (core-handle_report_uploaded url a)
    message-IsAllowed (unknown_message type) a =
        quiet-IsAllowed (message_comes (unknown_message type)) a
          (core-show_message_error (cannot_handle_type type) a)

    happen-IsAllowed : (h : Happening F) (a : App F) → IsAllowed h a
    happen-IsAllowed (message_comes msg) a = message-IsAllowed msg a
    happen-IsAllowed timeout_comes a =
        state-IsAllowed timeout_comes a _ (core-next_timeout F widget_id a)
          (omega (arith, ap total (timeout_taken-control widget_id a.timeouts (core a))))
    happen-IsAllowed (connection_changes s) a =
        let (b, e) = core-manager_state_changed s a in
        state-IsAllowed (connection_changes s) a (record (core a) { connected_server = b }) e
          (omega arith)
    happen-IsAllowed (connection_fails error) a =
        quiet-IsAllowed (connection_fails error) a (core-handle_connection_error error a)
    happen-IsAllowed (user_reruns always) a =
        state-IsAllowed (user_reruns always) a _ (core-rerun_script always a) (reruns-le (core a))
    happen-IsAllowed user_stops a =
        state-IsAllowed user_stops a _ (core-stop_report a) (omega (arith, stops-le (core a)))
    happen-IsAllowed user_clears_cache a = quiet-IsAllowed user_clears_cache a (core-clear_cache a)
    happen-IsAllowed user_opens_clear_cache a =
        quiet-IsAllowed user_opens_clear_cache a (core-open_clear_cache_dialog a)
    happen-IsAllowed user_shares a = quiet-IsAllowed user_shares a (core-share_report a)
    happen-IsAllowed user_closes_dialog a =
        quiet-IsAllowed user_closes_dialog a (core-close_dialog a)
    happen-IsAllowed user_opens_settings a =
        quiet-IsAllowed user_opens_settings a (core-settings_callback true a)
    happen-IsAllowed user_opens_about a = quiet-IsAllowed user_opens_about a (core-about_callback a)
    happen-IsAllowed (user_saves_settings s) a =
        quiet-IsAllowed (user_saves_settings s) a (core-save_settings s a)
    happen-IsAllowed user_opens_themes a =
        quiet-IsAllowed user_opens_themes a (core-open_theme_creator_dialog a)
    happen-IsAllowed loads_git_info a =
        quiet-IsAllowed loads_git_info a (core-send_load_git_info_back_msg a)
    happen-IsAllowed closes_connection a =
        quiet-IsAllowed closes_connection a (core-close_connection a)
    happen-IsAllowed (shows_full_screen full) a =
        quiet-IsAllowed (shows_full_screen full) a (core-handle_full_screen full a)
    happen-IsAllowed (handler_added h) a =
        quiet-IsAllowed (handler_added h) a (core-add_report_finished_handler h a)
    happen-IsAllowed (handler_removed h) a =
        quiet-IsAllowed (handler_removed h) a (core-remove_report_finished_handler h a)
    happen-IsAllowed (updates query_changed forced) a =
        quiet-IsAllowed (updates query_changed forced) a
          (core-component_did_update query_changed forced a)
    happen-IsAllowed (widgets_change op) a =
        quiet-IsAllowed (widgets_change op) a (core-with_widgets (apply op) a)

    happen_all-IsAllowed :
        (hs : List (Happening F)) (a : App F)
        → total (control (core (happen_all F widget_id hash_string join_entries hs a)))
          ≤ total (control (core a)) + how_many allows_stop hs
    happen_all-IsAllowed [] a = omega arith
    happen_all-IsAllowed (h ∷ hs) a = omega (
      arith,
      happen_all-IsAllowed hs (happen F widget_id hash_string join_entries h a),
      happen-IsAllowed h a,
    )

    -- Whatever happens, in whatever order: the requests to stop that are sent are at most as many as
    -- the times that a run is reported ended, fails to compile or is rerun by the user, and one more
    -- unless one was pending at the start.
    pub stops_sent-happen_all :
        (hs : List (Happening F)) (a : App F)
        → stops_sent (happen_all F widget_id hash_string join_entries hs a).actions
          ≤ stops_sent a.actions + allowed a.report_run_state + how_many allows_stop hs
    unfolding core
    stops_sent-happen_all hs a = omega (arith, happen_all-IsAllowed hs a)
