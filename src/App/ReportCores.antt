-- ===== src/App/ReportCores.antt =====
-- What new reports make of the run state of the application, and of its requests to stop.
use Prim.Native.String.{◌++◌ as append_text}
use streamlit.Prelude.{
  Bool, List, Option, String, [], ap, false, if◌then◌else◌, inl, inr, none, not, refl, some, true,
  ℕ, ◌||◌, ◌∙◌, ◌≡◌, ◌⊎◌,
}
use streamlit.Widgets.Manager.{remove_inactive}
use streamlit.Report.Frames.{Frames}
use streamlit.App.{
  App, CustomThemeConfig, ReportRunState, SessionInfo, add_custom_theme, host_connected,
  reload_page, remove_custom_themes, set_auto_theme, set_custom_theme, set_document_title,
  set_favicon,
}
use streamlit.App.Calls.{act, enqueue_event, is_server_connected}
use streamlit.App.Session.{
  NewReport, SessionState, from_new_report_message, handle_one_time_initialization,
  handle_session_state_changed, has_streamlit_version_changed, next_run_state, same_hash,
  set_session,
}
use streamlit.App.Reports.{
  begin_report, change_themes, clear_app_state, configure, create_theme_hash, handle_new_report,
  process_theme_input, report_in_session,
}
use streamlit.App.Core.{Core, core, core-act_quiet, core-with_widgets}
use streamlit.App.CommandCores.{core-if}
use streamlit.App.MessageCores.{core-handle_session_state_changed}

module _ {F : Frames} where
  core-handle_session_state_changed' :
      (msg : SessionState) (a : App F)
      → core (handle_session_state_changed msg a)
        ≡ record (core a) { run_state = next_run_state msg.report_is_running (core a).run_state }
  unfolding core
  core-handle_session_state_changed' = core-handle_session_state_changed

  core-set_session : (msg : NewReport) (a : App F) → core (set_session msg a) ≡ core a
  unfolding set_session core is_server_connected enqueue_event
  core-set_session msg a = refl

  core-one_time_initialization :
      (msg : NewReport) (a : App F)
      → core (handle_one_time_initialization msg a) ≡ record (core a) {
        run_state =
            next_run_state msg.initialize.session_state.report_is_running (core a).run_state;
      }
  unfolding handle_one_time_initialization
  core-one_time_initialization msg a =
      let state = msg.initialize.session_state in
      core-handle_session_state_changed' state (act host_connected (set_session msg a))
      ∙ ap
          (λ (c : Core F). record c {
            run_state = next_run_state state.report_is_running c.run_state;
          })
          (core-act_quiet host_connected (set_session msg a) refl ∙ core-set_session msg a)

  -- The run state and the number of requests to stop.
  abbrev pub control : Core F → ReportRunState × ℕ
  control c = (c.run_state, c.stops)

  -- A first report of a session tells whether it runs; other reports do not change the run state.
  abbrev pub MayControl : NewReport → Core F → ReportRunState × ℕ → Type 0
  MayControl msg c k =
      (k ≡ control c)
      ⊎ (k ≡ (next_run_state msg.initialize.session_state.report_is_running c.run_state, c.stops))

  module _ (hash_string : String → String) (join_entries : List (String × String) → String) where
    core-change_themes :
        (t : Option CustomThemeConfig) (a : App F)
        → core (change_themes hash_string join_entries t a) ≡ core a
    unfolding change_themes
    core-change_themes none a =
        core-if a.page.using_custom_theme _ _ a
          (core-act_quiet set_auto_theme _ refl ∙ core-act_quiet remove_custom_themes a refl)
          (core-act_quiet remove_custom_themes a refl)
    core-change_themes (some t) a =
        core-if (not a.page.has_theme_preference || a.page.using_custom_theme) _ _ a
          (core-act_quiet (set_custom_theme t) _ refl ∙ core-act_quiet (add_custom_theme t) a refl)
          (core-act_quiet (add_custom_theme t) a refl)

    core-configure :
        (msg : NewReport) (a : App F) → core (configure hash_string join_entries msg a) ≡ core a
    unfolding configure process_theme_input core is_server_connected
    core-configure msg a =
        let hash = create_theme_hash hash_string join_entries msg.custom_theme in
        core-if (same_hash a.theme_hash hash) a _ a refl
          (core-change_themes msg.custom_theme (record a { theme_hash = some hash }))

    control-if :
        (b : Bool) (x y : App F) (k : ReportRunState × ℕ)
        → control (core x) ≡ k
        → control (core y) ≡ k
        → control (core (if b then x else y)) ≡ k
    control-if true x y k p q = p
    control-if false x y k p q = q

    core-begin_report :
        (s : SessionInfo) (msg : NewReport) (a : App F)
        → control (core (begin_report hash_string join_entries s msg a)) ≡ control (core a)
    unfolding begin_report clear_app_state core is_server_connected enqueue_event
    core-begin_report s msg a =
        let hash = hash_string (append_text s.installation_id msg.script_path) in
        let title = set_document_title (append_text msg.name " · Streamlit") in
        let quiet = ap control (
          core-act_quiet (set_favicon "favicon.png") (act title a) refl
          ∙ core-act_quiet title a refl) in
        control-if (same_hash a.report_hash hash) _ _ (control (core a)) quiet
          (ap control (core-with_widgets (remove_inactive []) _) ∙ quiet)

    report_in_session-control :
        (o : Option SessionInfo) (msg : NewReport) (a : App F)
        → MayControl msg
            (core a)
            (control (core (report_in_session hash_string join_entries o msg a)))
    unfolding report_in_session
    report_in_session-control none msg a =
        let a' = handle_one_time_initialization msg a in
        inr (
          core-begin_report (from_new_report_message msg) msg
            (configure hash_string join_entries msg a')
          ∙ ap control (core-configure msg a' ∙ core-one_time_initialization msg a))
    report_in_session-control (some s) msg a = inl (
        core-begin_report s msg (configure hash_string join_entries msg a)
        ∙ ap control (core-configure msg a))

    pub handle_new_report-control :
        (msg : NewReport) (a : App F)
        → MayControl msg
            (core a)
            (control (core (handle_new_report hash_string join_entries msg a)))
    unfolding handle_new_report
    handle_new_report-control msg a = go (has_streamlit_version_changed a.session msg.initialize)
      where
        go :
            (b : Bool)
            → MayControl msg (core a) (
                control (
                  core (
                    if b
                    then act reload_page a
                    else report_in_session hash_string join_entries a.session msg a)))
        go true = inl (ap control (core-act_quiet reload_page a refl))
        go false = report_in_session-control a.session msg a
