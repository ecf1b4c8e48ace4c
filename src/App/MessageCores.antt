-- ===== src/App/MessageCores.antt =====
-- What the messages of the server make of the core of the application, but for new reports and the
-- end of reports.
use streamlit.Prelude.{
  Bool, Bool-cases, List, Option, String, [], ap, if◌then◌else◌, inl, inr, none, refl, some, str_eq,
  ℕ, ◌∙◌, ◌∷◌, ◌≡◌,
}
use streamlit.Connection.Manager.{ConnectionManager, same_state}
use streamlit.App.Happenings.{manager_state_changed}
use streamlit.Connection.{
  ConnectionState, connected, connecting, disconnected_forever, initial, pinging_server, static,
}
use streamlit.Report.Proto.{Error}
use streamlit.Widgets.Manager.{send_update_widgets_message}
use streamlit.Report.Frames.{Frames}
use streamlit.App.{
  App, GitInfo, Layout, SessionEventType, clear_xsrf_cookie, compilation_error,
  custom_component_stats, dispatch_session_event, error_logged, host_query_params, host_title,
  push_url, report_changed_on_disk, report_was_manually_stopped, script_compilation_exception,
  set_document_title, set_favicon, upload_progress, uploaded,
}
use streamlit.App.Calls.{act, enqueue_event, is_server_connected, open_dialog}
use streamlit.App.Session.{
  SessionState, enqueue_component_stats, enqueue_stats, handle_connection_state_changed,
  handle_session_event, handle_session_state_changed, next_run_state, run_has_ended,
}
use streamlit.App.Messages.{
  PageConfig, handle_git_info_changed, handle_page_config_changed, handle_page_info_changed,
  handle_report_uploaded, handle_upload_report_progress, or_show_error, same_layout, set_layout,
  set_page_favicon, set_title, show_message_error,
}
use streamlit.App.Core.{
  Core, core, core-act_quiet, core-enqueue_event, core-open_dialog, core-show_error,
  core-with_widgets,
}
use streamlit.App.CommandCores.{core-if}

module _ {F : Frames} where
  pub core-handle_connection_state_changed :
      (s : ConnectionState) (a : App F) → core (handle_connection_state_changed s a) ≡ core a
  unfolding handle_connection_state_changed core is_server_connected
  core-handle_connection_state_changed connected a =
      core-with_widgets send_update_widgets_message (record a { connection_state = connected })
  core-handle_connection_state_changed disconnected_forever a =
      core-act_quiet clear_xsrf_cookie a refl
  core-handle_connection_state_changed initial a = core-act_quiet clear_xsrf_cookie a refl
  core-handle_connection_state_changed pinging_server a = core-act_quiet clear_xsrf_cookie a refl
  core-handle_connection_state_changed connecting a = core-act_quiet clear_xsrf_cookie a refl
  core-handle_connection_state_changed static a = core-act_quiet clear_xsrf_cookie a refl

  -- Only whether there is a server changes.
  pub core-manager_state_changed :
      (s : ConnectionState) (a : App F)
      → (b : Bool) × (core (manager_state_changed s a) ≡ record (core a) { connected_server = b })
  unfolding manager_state_changed core is_server_connected
  core-manager_state_changed s a = by_manager a.connection_manager
    where
      by_manager :
          (o : Option ConnectionManager)
          → (b : Bool) × (core (elim o [
            | none ↦ a
            | some m ↦
                if same_state m.connection_state s
                then a
                else handle_connection_state_changed s
                    (record a { connection_manager = some (record m { connection_state = s }) })
          ])
              ≡ record (core a) { connected_server = b })
      by_manager none = (is_server_connected a, refl)
      by_manager (some m) = elim (Bool-cases (same_state m.connection_state s)) [
        | inl same ↦ (is_server_connected a, rw same refl)
        | inr new ↦
            let a' : App F = record a {
              connection_manager = some (record m { connection_state = s });
            } in
            (is_server_connected a', rw new (core-handle_connection_state_changed s a'))
      ]

  core-enqueue_component_stats :
      (counts : List (String × ℕ)) (a : App F) → core (enqueue_component_stats counts a) ≡ core a
  unfolding enqueue_component_stats
  core-enqueue_component_stats [] a = refl
  core-enqueue_component_stats ((name, count) ∷ counts) a =
      core-enqueue_component_stats counts _
      ∙ core-enqueue_event "customComponentStats" (custom_component_stats name count) a

  core-enqueue_stats : (a : App F) → core (enqueue_stats a) ≡ core a
  unfolding enqueue_stats core is_server_connected enqueue_event
  core-enqueue_stats a = core-enqueue_component_stats _ _

  pub core-handle_session_state_changed :
      (msg : SessionState) (a : App F)
      → core (handle_session_state_changed msg a)
        ≡ record (core a) { run_state = next_run_state msg.report_is_running a.report_run_state }
  unfolding handle_session_state_changed core is_server_connected
  core-handle_session_state_changed msg a =
      ap
        (λ (c : Core F). record c {
          run_state = next_run_state msg.report_is_running a.report_run_state;
        })
        (core-if (run_has_ended msg.report_is_running a.report_run_state) (enqueue_stats a) a a
          (core-enqueue_stats a) refl)

  abbrev pub after_event : SessionEventType → Core F → Core F
  after_event (script_compilation_exception e) c = record c { run_state = compilation_error }
  after_event e c = c

  pub core-handle_session_event :
      (e : SessionEventType) (a : App F) → core (handle_session_event e a) ≡ after_event e (core a)
  unfolding handle_session_event core is_server_connected open_dialog
  core-handle_session_event (script_compilation_exception error) a =
      ap (λ (c : Core F). record c { run_state = compilation_error })
        (core-act_quiet (dispatch_session_event (script_compilation_exception error)) a refl)
  core-handle_session_event report_changed_on_disk a =
      core-if a.page.rerun_prompt_modal_dialog _ _ a
        (core-act_quiet (dispatch_session_event report_changed_on_disk) a refl)
        (core-act_quiet (dispatch_session_event report_changed_on_disk) a refl)
  core-handle_session_event report_was_manually_stopped a =
      core-act_quiet (dispatch_session_event report_was_manually_stopped) a refl

  core-set_title : (title : String) (a : App F) → core (set_title title a) ≡ core a
  unfolding set_title
  core-set_title title a =
      core-if (str_eq title "") a _ a refl (
        core-act_quiet (set_document_title title) _ refl ∙ core-act_quiet (host_title title) a refl)

  core-set_page_favicon :
      (favicon : String) (a : App F) → core (set_page_favicon favicon a) ≡ core a
  unfolding set_page_favicon
  core-set_page_favicon favicon a =
      core-if (str_eq favicon "") a _ a refl (core-act_quiet (set_favicon favicon) a refl)

  core-set_layout : (l : Layout) (a : App F) → core (set_layout l a) ≡ core a
  unfolding set_layout core is_server_connected
  core-set_layout l a = core-if (same_layout l a.layout) a _ a refl refl

  pub core-handle_page_config_changed :
      (c : PageConfig) (a : App F) → core (handle_page_config_changed c a) ≡ core a
  unfolding handle_page_config_changed core is_server_connected
  core-handle_page_config_changed c a =
      core-set_layout c.layout (set_page_favicon c.favicon (set_title c.title a))
      ∙ core-set_page_favicon c.favicon (set_title c.title a)
      ∙ core-set_title c.title a

  pub core-handle_page_info_changed :
      (query : String) (a : App F) → core (handle_page_info_changed query a) ≡ core a
  unfolding handle_page_info_changed
  core-handle_page_info_changed query a =
      core-act_quiet (host_query_params _) _ refl ∙ core-act_quiet (push_url _) a refl

  pub core-show_message_error :
      (text : String) (a : App F) → core (show_message_error text a) ≡ core a
  unfolding show_message_error
  core-show_message_error text a =
      core-show_error "Bad message format" text (act (error_logged text) a)
      ∙ core-act_quiet (error_logged text) a refl

  pub core-or_show_error : (o : Option Error) (a : App F) → core (or_show_error (o, a)) ≡ core a
  unfolding or_show_error
  core-or_show_error none a = refl
  core-or_show_error (some e) a = core-show_message_error (F.message e) a

  pub core-handle_git_info_changed :
      (g : GitInfo) (a : App F) → core (handle_git_info_changed g a) ≡ core a
  unfolding handle_git_info_changed core is_server_connected
  core-handle_git_info_changed g a = refl

  pub core-handle_upload_report_progress :
      (progress : ℕ) (a : App F) → core (handle_upload_report_progress progress a) ≡ core a
  unfolding handle_upload_report_progress
  core-handle_upload_report_progress progress a = core-open_dialog (upload_progress progress) a

  pub core-handle_report_uploaded :
      (url : String) (a : App F) → core (handle_report_uploaded url a) ≡ core a
  unfolding handle_report_uploaded
  core-handle_report_uploaded url a = core-open_dialog (uploaded url) a
