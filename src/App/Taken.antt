-- ===== src/App/Taken.antt =====
-- What one happening makes of the tree that is not shown yet.
use streamlit.Prelude.{
  Bool, List, Option, String, [], ap, false, if◌then◌else◌, refl, sym, true, ◌++◌, ◌∙◌, ◌∷◌, ◌≡◌,
}
use streamlit.Widgets.Ops.{apply}
use streamlit.Prelude.Result.{Result, err, ok}
use streamlit.Report.Proto.{Delta, Element, Error, ForwardMsgMetadata}
use streamlit.Metrics.{new_metrics_manager}
use streamlit.Report.Frames.{Frames}
use streamlit.Report.Root.{Root, apply_delta}
use streamlit.App.{
  App, Timeout, call_finished_handlers, report_changed_on_disk, report_was_manually_stopped,
  script_compilation_exception, show_pending,
}
use streamlit.App.Elements.{may_show}
use streamlit.App.Messages.{
  ServerMsg, cannot_handle_type, delta, git_info_changed, handle_message, new_report,
  page_config_changed, page_info_changed, report_finished, report_uploaded, session_event,
  session_state_changed, unknown_message, upload_report_progress,
}
use streamlit.App.Happenings.{
  Happening, closes_connection, connection_changes, connection_fails, handler_added,
  handler_removed, happen, loads_git_info, message_comes, shows_full_screen, timeout_comes, updates,
  user_clears_cache, user_closes_dialog, user_opens_about, user_opens_clear_cache,
  user_opens_settings, user_opens_themes, user_reruns, user_saves_settings, user_shares, user_stops,
  widgets_change,
}
use streamlit.App.Core.{Core, core, core-close_dialog, core-with_widgets}
use streamlit.App.CommandCores.{
  core-about_callback, core-add_report_finished_handler, core-clear_cache, core-close_connection,
  core-component_did_update, core-handle_connection_error, core-handle_full_screen,
  core-open_clear_cache_dialog, core-open_theme_creator_dialog, core-remove_report_finished_handler,
  core-rerun_script, core-save_settings, core-send_load_git_info_back_msg, core-settings_callback,
  core-share_report, core-stop_report, reruns, stops_now,
}
use streamlit.App.MessageCores.{
  core-handle_git_info_changed, core-handle_page_config_changed, core-handle_page_info_changed,
  core-handle_report_uploaded, core-handle_session_event, core-handle_session_state_changed,
  core-handle_upload_report_progress, core-manager_state_changed, core-show_message_error,
}
use streamlit.App.TreeCores.{
  core-handle_delta_msg, core-next_timeout, core-report_failed, delta_taken, timeout_taken,
}
use streamlit.App.Batching.{apply_delta-metrics, goes_on, or_root, receive, received}

module _ (F : Frames) where
  open F use {Payload, Rows}

  module _ (widget_id : Element Payload → Option String) (hash_string : String → String)
      (join_entries : List (String × String) → String) where
    taken-buffer :
        (shown : Bool) (o : Result Error (Root F)) (c : Core F)
        → ((delta_taken F widget_id shown o c).buffer ≡ or_root F c.buffer o)
          × ((delta_taken F widget_id shown o c).report_id ≡ c.report_id)
    taken-buffer shown (ok r) c = go c.timer_running
      where
        go :
            (b : Bool)
            → ((if b then record c { buffer = r } else record c {
              buffer = r;
              timer_running = true;
              timeouts = c.timeouts ++ (show_pending shown ∷ []);
            }).buffer
                ≡ r)
              × ((if b then record c { buffer = r } else record c {
                buffer = r;
                timer_running = true;
                timeouts = c.timeouts ++ (show_pending shown ∷ []);
              }).report_id
                  ≡ c.report_id)
        go true = (refl, refl)
        go false = (refl, refl)
    taken-buffer shown (err e) c = (refl, refl)

    abbrev pub IsTaken : Happening F → App F → Type 0
    IsTaken h a =
        ((core (happen F widget_id hash_string join_entries h a)).buffer
          ≡ receive F a.report_id h a.pending_elements_buffer)
        × ((core (happen F widget_id hash_string join_entries h a)).report_id ≡ a.report_id)

    -- What happens leaves the buffer and the report alone.
    same-IsTaken :
        (h : Happening F) (a : App F) (c : Core F)
        → receive F a.report_id h a.pending_elements_buffer ≡ a.pending_elements_buffer
        → core (happen F widget_id hash_string join_entries h a) ≡ c
        → (c.buffer ≡ a.pending_elements_buffer) × (c.report_id ≡ a.report_id)
        → IsTaken h a
    same-IsTaken h a c nothing e kept = (
      ap (λ (c : Core F). c.buffer) e ∙ kept.0 ∙ sym nothing,
      ap (λ (c : Core F). c.report_id) e ∙ kept.1,
    )

    delta-IsTaken :
        (d : Delta Payload Rows) (metadata : ForwardMsgMetadata) (a : App F)
        → IsTaken (message_comes (delta d metadata)) a
    unfolding handle_message receive received core
    delta-IsTaken d metadata a =
        let e = core-handle_delta_msg F widget_id d metadata a in
        let taken = (apply_delta F a.report_id d metadata a.pending_elements_buffer a.metrics).0 in
        let kept = taken-buffer (may_show F widget_id a) taken (core a) in
        (
          ap (λ (c : Core F). c.buffer) e
              ∙ kept.0
              ∙ ap (or_root F a.pending_elements_buffer) (
                  apply_delta-metrics F a.report_id d metadata a.pending_elements_buffer a.metrics
                    (new_metrics_manager {D = Unit {0}})),
          ap (λ (c : Core F). c.report_id) e ∙ kept.1,
        )

    timeout_taken-buffer :
        (ts : List Timeout) (c : Core F)
        → ((timeout_taken F widget_id ts c).buffer ≡ c.buffer)
          × ((timeout_taken F widget_id ts c).report_id ≡ c.report_id)
    timeout_taken-buffer [] c = (refl, refl)
    timeout_taken-buffer (call_finished_handlers ∷ ts) c = (refl, refl)
    timeout_taken-buffer (show_pending shown ∷ ts) c = (refl, refl)

    if_kept :
        (b : Bool) (c c' : Core F)
        → (c'.buffer ≡ c.buffer) × (c'.report_id ≡ c.report_id)
        → ((if b then c' else c).buffer ≡ c.buffer)
          × ((if b then c' else c).report_id ≡ c.report_id)
    if_kept true c c' kept = kept
    if_kept false c c' kept = (refl, refl)

    message-IsTaken :
        (msg : ServerMsg F) (a : App F)
        → goes_on F (message_comes msg) ≡ true
        → IsTaken (message_comes msg) a
    unfolding handle_message receive core
    message-IsTaken (new_report msg) a on = cc on
    message-IsTaken (session_state_changed msg) a on =
        same-IsTaken (message_comes (session_state_changed msg)) a _ refl
          (core-handle_session_state_changed msg a) (refl, refl)
    message-IsTaken (session_event (script_compilation_exception error)) a on =
        same-IsTaken (message_comes (session_event (script_compilation_exception error))) a _ refl
          (core-handle_session_event (script_compilation_exception error) a) (refl, refl)
    message-IsTaken (session_event report_changed_on_disk) a on =
        same-IsTaken (message_comes (session_event report_changed_on_disk)) a _ refl
          (core-handle_session_event report_changed_on_disk a) (refl, refl)
    message-IsTaken (session_event report_was_manually_stopped) a on =
        same-IsTaken (message_comes (session_event report_was_manually_stopped)) a _ refl
          (core-handle_session_event report_was_manually_stopped a) (refl, refl)
    message-IsTaken (delta d metadata) a on = delta-IsTaken d metadata a
    message-IsTaken (page_config_changed c) a on =
        same-IsTaken (message_comes (page_config_changed c)) a _ refl
          (core-handle_page_config_changed c a) (refl, refl)
    message-IsTaken (page_info_changed query) a on =
        same-IsTaken (message_comes (page_info_changed query)) a _ refl
          (core-handle_page_info_changed query a) (refl, refl)
    message-IsTaken (git_info_changed g) a on =
        same-IsTaken (message_comes (git_info_changed g)) a _ refl
          (core-handle_git_info_changed g a) (refl, refl)
    message-IsTaken (report_finished true) a on = cc on
    message-IsTaken (report_finished false) a on =
        same-IsTaken (message_comes (report_finished false)) a _ refl
          (core-report_failed F widget_id a) (refl, refl)
    message-IsTaken (upload_report_progress progress) a on =
        same-IsTaken (message_comes (upload_report_progress progress)) a _ refl
          (core-handle_upload_report_progress progress a) (refl, refl)
    message-IsTaken (report_uploaded url) a on =
        same-IsTaken (message_comes (report_uploaded url)) a _ refl
          (core-handle_report_uploaded url a) (refl, refl)
    message-IsTaken (unknown_message type) a on =
        same-IsTaken (message_comes (unknown_message type)) a _ refl
          (core-show_message_error (cannot_handle_type type) a) (refl, refl)

    pub happen-IsTaken : (h : Happening F) (a : App F) → goes_on F h ≡ true → IsTaken h a
    unfolding receive core
    happen-IsTaken (message_comes msg) a on = message-IsTaken msg a on
    happen-IsTaken timeout_comes a on =
        same-IsTaken timeout_comes a _ refl (core-next_timeout F widget_id a)
          (timeout_taken-buffer a.timeouts (core a))
    happen-IsTaken (connection_changes s) a on =
        let (b, e) = core-manager_state_changed s a in
        same-IsTaken (connection_changes s) a (record (core a) { connected_server = b }) refl e
          (refl, refl)
    happen-IsTaken (connection_fails error) a on =
        same-IsTaken (connection_fails error) a _ refl (core-handle_connection_error error a)
          (refl, refl)
    happen-IsTaken (user_reruns always) a on =
        same-IsTaken (user_reruns always) a _ refl (core-rerun_script always a)
          (if_kept (reruns (core a)) (core a) _ (refl, refl))
    happen-IsTaken user_stops a on =
        same-IsTaken user_stops a _ refl (core-stop_report a)
          (if_kept (stops_now (core a)) (core a) _ (refl, refl))
    happen-IsTaken user_clears_cache a on =
        same-IsTaken user_clears_cache a _ refl (core-clear_cache a) (refl, refl)
    happen-IsTaken user_opens_clear_cache a on =
        same-IsTaken user_opens_clear_cache a _ refl (core-open_clear_cache_dialog a) (refl, refl)
    happen-IsTaken user_shares a on =
        same-IsTaken user_shares a _ refl (core-share_report a) (refl, refl)
    happen-IsTaken user_closes_dialog a on =
        same-IsTaken user_closes_dialog a _ refl (core-close_dialog a) (refl, refl)
    happen-IsTaken user_opens_settings a on =
        same-IsTaken user_opens_settings a _ refl (core-settings_callback true a) (refl, refl)
    happen-IsTaken user_opens_about a on =
        same-IsTaken user_opens_about a _ refl (core-about_callback a) (refl, refl)
    happen-IsTaken (user_saves_settings s) a on =
        same-IsTaken (user_saves_settings s) a _ refl (core-save_settings s a) (refl, refl)
    happen-IsTaken user_opens_themes a on =
        same-IsTaken user_opens_themes a _ refl (core-open_theme_creator_dialog a) (refl, refl)
    happen-IsTaken loads_git_info a on =
        same-IsTaken loads_git_info a _ refl (core-send_load_git_info_back_msg a) (refl, refl)
    happen-IsTaken closes_connection a on =
        same-IsTaken closes_connection a _ refl (core-close_connection a) (refl, refl)
    happen-IsTaken (shows_full_screen full) a on =
        same-IsTaken (shows_full_screen full) a _ refl (core-handle_full_screen full a) (refl, refl)
    happen-IsTaken (handler_added h) a on =
        same-IsTaken (handler_added h) a _ refl (core-add_report_finished_handler h a) (refl, refl)
    happen-IsTaken (handler_removed h) a on =
        same-IsTaken (handler_removed h) a _ refl (core-remove_report_finished_handler h a)
          (refl, refl)
    happen-IsTaken (updates query_changed forced) a on =
        same-IsTaken (updates query_changed forced) a _ refl
          (core-component_did_update query_changed forced a) (refl, refl)
    happen-IsTaken (widgets_change op) a on =
        same-IsTaken (widgets_change op) a _ refl (core-with_widgets (apply op) a) (refl, refl)
