-- ===== src/App/Commands.antt =====
-- What the user of the application can do (frontend/src/App.tsx).
use streamlit.Prelude.{
  Bool, [], false, filter, if◌then◌else◌, none, not, some, true, ℕ, ◌&&◌, ◌++◌, ◌==◌, ◌∷◌,
}
use streamlit.Connection.Manager.{new_connection_manager}
use streamlit.Report.Frames.{Frames}
use streamlit.Widgets.Manager.{send_update_widgets_message}
use streamlit.App.{
  App, ReportRunState, UserSettings, about, clear_cache_dialog, clear_cache_msg,
  close_connection_msg, cloud_upload_msg, error_logged, load_git_info_msg, no_data, not_running,
  rerun_requested, running, set_run_on_save_msg, settings, stop_report_msg, stop_requested,
  theme_creator, warning,
}
use streamlit.App.Calls.{
  act, close_dialog, enqueue_event, is_server_connected, open_dialog, send_back_msg,
  send_rerun_back_message, with_widgets,
}

-- Reruns are not queued up.
unfoldable pub may_rerun : ReportRunState → Bool
may_rerun running = false
may_rerun rerun_requested = false
may_rerun s = true

-- Stops are not queued up.
unfoldable pub may_stop : ReportRunState → Bool
may_stop not_running = false
may_stop stop_requested = false
may_stop s = true

abbrev pub same_bool : Bool → Bool → Bool
same_bool true b = b
same_bool false b = not b

module _ {F : Frames} where
  -- `componentDidMount`, but for the class of an embedded page.
  unfoldable pub component_did_mount : App F → App F
  component_did_mount a =
      enqueue_event "viewReport" no_data
        (record a { connection_manager = some new_connection_manager })

  -- `componentDidUpdate`: the query of the host has changed, or it closes the dialog.
  unfoldable pub component_did_update : Bool → Bool → App F → App F
  component_did_update query_changed forced_modal_close a =
      let a' = if query_changed then send_rerun_back_message none a else a in
      if forced_modal_close then close_dialog a' else a'

  unfoldable pub save_settings : UserSettings → App F → App F
  save_settings new_settings a =
      let changed =
        not (same_bool a.user_settings.run_on_save new_settings.run_on_save)
        && is_server_connected a in
      let a' = record a { user_settings = new_settings } in
      if changed then send_back_msg (set_run_on_save_msg new_settings.run_on_save) a' else a'

  unfoldable pub request_rerun : Bool → App F → App F
  request_rerun always_run_on_save a =
      let a' = record (enqueue_event "rerunScript" no_data a) {
        report_run_state = rerun_requested;
      } in
      with_widgets send_update_widgets_message (
        if always_run_on_save
        then save_settings (record a'.user_settings { run_on_save = true }) a'
        else a')

  unfoldable pub rerun_script : Bool → App F → App F
  rerun_script always_run_on_save a =
      let a' = close_dialog a in
      if not (is_server_connected a')
      then act (error_logged "Cannot rerun script when disconnected from server.") a'
      else if not (may_rerun a'.report_run_state)
      then a'
      else request_rerun always_run_on_save a'

  unfoldable pub stop_report : App F → App F
  stop_report a =
      if not (is_server_connected a)
      then act (error_logged "Cannot stop app when disconnected from server.") a
      else if not (may_stop a.report_run_state)
      then a
      else record (send_back_msg stop_report_msg a) { report_run_state = stop_requested }

  unfoldable pub open_clear_cache_dialog : App F → App F
  open_clear_cache_dialog a =
      if is_server_connected a
      then open_dialog clear_cache_dialog a
      else act (error_logged "Cannot clear cache: disconnected from server") a

  unfoldable pub clear_cache : App F → App F
  clear_cache a =
      let a' = close_dialog a in
      if is_server_connected a'
      then send_back_msg clear_cache_msg (enqueue_event "clearCache" no_data a')
      else act (error_logged "Cannot clear cache: disconnected from server") a'

  unfoldable pub close_connection : App F → App F
  close_connection a = if is_server_connected a then send_back_msg close_connection_msg a else a

  unfoldable pub share_report : App F → App F
  share_report a =
      if is_server_connected a
      then (if a.sharing_enabled
          then send_back_msg cloud_upload_msg (enqueue_event "shareReport" no_data a)
          else open_dialog
              (warning "Error sharing app"
                "You do not have sharing configured. Please contact Streamlit Support to setup sharing.")
              a)
      else act (error_logged "Cannot save app when disconnected from server") a

  unfoldable pub send_load_git_info_back_msg : App F → App F
  send_load_git_info_back_msg a =
      if is_server_connected a
      then send_back_msg load_git_info_msg a
      else act (error_logged "Cannot load git information when disconnected from server.") a

  unfoldable pub settings_callback : Bool → App F → App F
  settings_callback animate_modal a =
      open_dialog
        (settings (is_server_connected a) a.user_settings a.allow_run_on_save a.developer_mode
          animate_modal)
        a

  unfoldable pub about_callback : App F → App F
  about_callback a = open_dialog about a

  unfoldable pub open_theme_creator_dialog : App F → App F
  open_theme_creator_dialog a = open_dialog theme_creator a

  unfoldable pub handle_full_screen : Bool → App F → App F
  handle_full_screen full a = record a { is_full_screen = full }

  unfoldable pub add_report_finished_handler : ℕ → App F → App F
  add_report_finished_handler h a = record a {
    report_finished_handlers = a.report_finished_handlers ++ (h ∷ []);
  }

  -- `without` of lodash removes every one.
  unfoldable pub remove_report_finished_handler : ℕ → App F → App F
  remove_report_finished_handler h a = record a {
    report_finished_handlers = filter (λ k. not (k == h)) a.report_finished_handlers;
  }
