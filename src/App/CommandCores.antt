-- ===== src/App/CommandCores.antt =====
-- What the commands of the user make of the core of the application.
use streamlit.Prelude.{
  Bool, String, ap, false, if◌then◌else◌, none, not, refl, some, true, ℕ, ◌&&◌, ◌+◌, ◌∙◌, ◌≡◌,
}
use streamlit.Widgets.Manager.{send_update_widgets_message}
use streamlit.Report.Frames.{Frames}
use streamlit.App.{
  App, UserSettings, about, clear_cache_dialog, clear_cache_msg, close_connection_msg,
  cloud_upload_msg, error_logged, load_git_info_msg, no_data, rerun_requested, set_run_on_save_msg,
  stop_report_msg, stop_requested,
}
use streamlit.App.Calls.{
  act, close_dialog, enqueue_event, handle_connection_error, is_server_connected, open_dialog,
  send_back_msg, send_rerun_back_message,
}
use streamlit.App.Commands.{
  about_callback, add_report_finished_handler, clear_cache, close_connection, component_did_update,
  handle_full_screen, may_rerun, may_stop, open_clear_cache_dialog, open_theme_creator_dialog,
  remove_report_finished_handler, request_rerun, rerun_script, same_bool, save_settings,
  send_load_git_info_back_msg, settings_callback, share_report, stop_report,
}
use streamlit.App.Core.{
  Core, core, core-act_quiet, core-close_dialog, core-enqueue_event, core-open_dialog,
  core-send_back_msg, core-send_stop, core-show_error, core-with_widgets,
}

module _ {F : Frames} where
  pub core-if :
      (b : Bool) (x y a : App F)
      → core x ≡ core a
      → core y ≡ core a
      → core (if b then x else y) ≡ core a
  core-if true x y a p q = p
  core-if false x y a p q = q

  pub core-save_settings : (s : UserSettings) (a : App F) → core (save_settings s a) ≡ core a
  unfolding save_settings core is_server_connected
  core-save_settings s a =
      let a' : App F = record a { user_settings = s } in
      core-if (not (same_bool a.user_settings.run_on_save s.run_on_save) && is_server_connected a)
        (send_back_msg (set_run_on_save_msg s.run_on_save) a') a' a
        (core-send_back_msg (set_run_on_save_msg s.run_on_save) a' refl) refl

  pub core-clear_cache : (a : App F) → core (clear_cache a) ≡ core a
  unfolding clear_cache
  core-clear_cache a =
      core-if (is_server_connected (close_dialog a)) _ _ a
        (core-send_back_msg clear_cache_msg (enqueue_event "clearCache" no_data (close_dialog a))
            refl
          ∙ core-enqueue_event "clearCache" no_data (close_dialog a)
          ∙ core-close_dialog a)
        (core-act_quiet (error_logged "Cannot clear cache: disconnected from server")
            (close_dialog a) refl
          ∙ core-close_dialog a)

  pub core-open_clear_cache_dialog : (a : App F) → core (open_clear_cache_dialog a) ≡ core a
  unfolding open_clear_cache_dialog open_dialog core is_server_connected
  core-open_clear_cache_dialog a =
      core-if (is_server_connected a) (record a { dialog = some clear_cache_dialog }) _ a refl
        (core-act_quiet (error_logged "Cannot clear cache: disconnected from server") a refl)

  pub core-share_report : (a : App F) → core (share_report a) ≡ core a
  unfolding share_report
  core-share_report a =
      core-if (is_server_connected a) _ _ a
        (core-if a.sharing_enabled _ _ a
          (core-send_back_msg cloud_upload_msg (enqueue_event "shareReport" no_data a) refl
            ∙ core-enqueue_event "shareReport" no_data a)
          (core-open_dialog _ a))
        (core-act_quiet (error_logged "Cannot save app when disconnected from server") a refl)

  -- A rerun is requested by a connected user, unless one is requested or runs.
  abbrev pub reruns : Core F → Bool
  reruns c = c.connected_server && may_rerun c.run_state

  abbrev pub stops_now : Core F → Bool
  stops_now c = c.connected_server && may_stop c.run_state

  core-choice :
      (b c : Bool) (x y z a : App F) (r : Core F)
      → core x ≡ core a
      → core y ≡ core a
      → (b ≡ true → core z ≡ r)
      → core (if not b then x else if not c then y else z) ≡ (if b && c then r else core a)
  core-choice false c x y z a r p q t = p
  core-choice true false x y z a r p q t = q
  core-choice true true x y z a r p q t = t refl

  core-request_rerun :
      (always : Bool) (a : App F)
      → core (request_rerun always a) ≡ record (core a) { run_state = rerun_requested }
  unfolding request_rerun enqueue_event core is_server_connected
  core-request_rerun always a =
      let a' : App F = record (enqueue_event "rerunScript" no_data a) {
        report_run_state = rerun_requested;
      } in
      core-with_widgets send_update_widgets_message _
      ∙ core-if always _ a' a'
          (core-save_settings (record a'.user_settings { run_on_save = true }) a') refl

  pub core-rerun_script :
      (always : Bool) (a : App F)
      → core (rerun_script always a)
        ≡ (if reruns (core a) then record (core a) { run_state = rerun_requested } else core a)
  unfolding rerun_script close_dialog is_server_connected core
  core-rerun_script always a =
      core-choice (is_server_connected a) (may_rerun a.report_run_state)
        (act (error_logged "Cannot rerun script when disconnected from server.") (close_dialog a))
        (close_dialog a) (request_rerun always (close_dialog a)) a
        (record (core a) { run_state = rerun_requested })
        (core-act_quiet (error_logged "Cannot rerun script when disconnected from server.")
            (close_dialog a) refl
          ∙ core-close_dialog a)
        (core-close_dialog a)
        (λ on.
          core-request_rerun always (close_dialog a)
          ∙ ap (λ (c : Core F). record c { run_state = rerun_requested }) (core-close_dialog a))

  pub core-stop_report :
      (a : App F)
      → core (stop_report a) ≡ (
          if stops_now (core a)
          then record (core a) { run_state = stop_requested; stops = (core a).stops + 1 }
          else core a)
  unfolding stop_report core is_server_connected
  core-stop_report a =
      core-choice (is_server_connected a) (may_stop a.report_run_state)
        (act (error_logged "Cannot stop app when disconnected from server.") a) a
        (record (send_back_msg stop_report_msg a) { report_run_state = stop_requested }) a
        (record (core a) { run_state = stop_requested; stops = (core a).stops + 1 })
        (core-act_quiet (error_logged "Cannot stop app when disconnected from server.") a refl) refl
        (λ on. ap (λ (c : Core F). record c { run_state = stop_requested }) (core-send_stop a on))

  pub core-settings_callback :
      (animate : Bool) (a : App F) → core (settings_callback animate a) ≡ core a
  unfolding settings_callback
  core-settings_callback animate a = core-open_dialog _ a

  pub core-open_theme_creator_dialog : (a : App F) → core (open_theme_creator_dialog a) ≡ core a
  unfolding open_theme_creator_dialog
  core-open_theme_creator_dialog a = core-open_dialog _ a

  pub core-send_load_git_info_back_msg : (a : App F) → core (send_load_git_info_back_msg a) ≡ core a
  unfolding send_load_git_info_back_msg
  core-send_load_git_info_back_msg a =
      core-if (is_server_connected a) _ _ a (core-send_back_msg load_git_info_msg a refl) (
        core-act_quiet (error_logged "Cannot load git information when disconnected from server.") a
          refl)

  pub core-close_connection : (a : App F) → core (close_connection a) ≡ core a
  unfolding close_connection
  core-close_connection a =
      core-if (is_server_connected a) _ _ a (core-send_back_msg close_connection_msg a refl) refl

  pub core-handle_full_screen :
      (full : Bool) (a : App F) → core (handle_full_screen full a) ≡ core a
  unfolding handle_full_screen core is_server_connected
  core-handle_full_screen full a = refl

  pub core-add_report_finished_handler :
      (h : ℕ) (a : App F) → core (add_report_finished_handler h a) ≡ core a
  unfolding add_report_finished_handler core is_server_connected
  core-add_report_finished_handler h a = refl

  pub core-remove_report_finished_handler :
      (h : ℕ) (a : App F) → core (remove_report_finished_handler h a) ≡ core a
  unfolding remove_report_finished_handler core is_server_connected
  core-remove_report_finished_handler h a = refl

  pub core-component_did_update :
      (query_changed forced : Bool) (a : App F)
      → core (component_did_update query_changed forced a) ≡ core a
  unfolding component_did_update send_rerun_back_message
  core-component_did_update query_changed forced a =
      let a' = if query_changed then send_rerun_back_message none a else a in
      let sent : core a' ≡ core a =
        core-if query_changed _ a a (core-send_back_msg _ a refl) refl in
      core-if forced (close_dialog a') a' a (core-close_dialog a' ∙ sent) sent

  pub core-about_callback : (a : App F) → core (about_callback a) ≡ core a
  unfolding about_callback
  core-about_callback a = core-open_dialog about a

  pub core-handle_connection_error :
      (error : String) (a : App F) → core (handle_connection_error error a) ≡ core a
  unfolding handle_connection_error
  core-handle_connection_error error a = core-show_error "Connection error" error a
