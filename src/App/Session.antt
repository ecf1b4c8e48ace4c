-- ===== src/App/Session.antt =====
-- The handlers of the application (frontend/src/App.tsx) for the connection and the session, and
-- the protobuf of a new report (proto/streamlit/proto/NewReport.proto).
use Prim.Native.Nat.{Ordering}
use Prim.Native.String.{compare as compare_texts}
use streamlit.Metrics.{initialize as initialize_metrics}
use streamlit.Prelude.{
  Bool, List, Option, String, [], false, if◌then◌else◌, none, some, str_eq, true, ℕ, ◌∷◌,
}
use streamlit.Connection.{ConnectionState, connected}
use streamlit.Metrics.{get_and_reset_custom_component_counter, get_and_reset_delta_counter}
use streamlit.Report.Frames.{Frames}
use streamlit.Widgets.Manager.{send_update_widgets_message}
use streamlit.App.{
  App, CustomThemeConfig, DialogProps, ReportRunState, SessionEventType, SessionInfo,
  clear_xsrf_cookie, compilation_error, create_report, custom_component_stats, delta_stats,
  dispatch_session_event, host_connected, not_running, report_changed_on_disk,
  report_was_manually_stopped, rerun_requested, running, script_changed,
  script_compilation_exception, script_compile_error, stop_requested, theme_stats,
}
use streamlit.App.Calls.{act, enqueue_event, open_dialog, with_widgets}

pub record SessionState : Type 0 where
  pub report_is_running : Bool
  pub run_on_save : Bool

pub record UserInfo : Type 0 where
  pub installation_id : String
  pub installation_id_v1 : String
  pub installation_id_v2 : String
  pub installation_id_v3 : String
  pub email : String

pub record EnvironmentInfo : Type 0 where
  pub streamlit_version : String
  pub python_version : String

pub record Initialize : Type 0 where
  pub user_info : UserInfo
  pub environment_info : EnvironmentInfo
  pub session_state : SessionState
  pub session_id : String
  pub command_line : String

pub record Config : Type 0 where
  pub gather_usage_stats : Bool
  pub max_cached_message_age : ℕ
  pub mapbox_token : String
  pub allow_run_on_save : Bool
  pub sharing_enabled : Bool

pub record NewReport : Type 0 where
  pub initialize : Initialize
  pub config : Config
  pub custom_theme : Option CustomThemeConfig
  pub report_id : String
  pub name : String
  pub script_path : String

-- `SessionInfo.fromNewReportMessage`
unfoldable pub from_new_report_message : NewReport → SessionInfo
from_new_report_message msg = record {
  session_id = msg.initialize.session_id;
  streamlit_version = msg.initialize.environment_info.streamlit_version;
  python_version = msg.initialize.environment_info.python_version;
  installation_id = msg.initialize.user_info.installation_id;
  installation_id_v1 = msg.initialize.user_info.installation_id_v1;
  installation_id_v2 = msg.initialize.user_info.installation_id_v2;
  installation_id_v3 = msg.initialize.user_info.installation_id_v3;
  author_email = msg.initialize.user_info.email;
  max_cached_message_age = msg.config.max_cached_message_age;
  command_line = msg.initialize.command_line;
  user_mapbox_token = msg.config.mapbox_token;
}

-- `<` on texts, by their characters.
unfoldable pub text_lt : String → String → Bool
text_lt s t = elim (compare_texts s t) [ Ordering.lt ↦ true | _ ↦ false ]

unfoldable pub has_streamlit_version_changed : Option SessionInfo → Initialize → Bool
has_streamlit_version_changed none msg = false
has_streamlit_version_changed (some s) msg =
    text_lt s.streamlit_version msg.environment_info.streamlit_version

-- The run state that the server's state makes of the current one: a running report does not undo a
-- request to stop, and one that does not run undoes neither a request to rerun nor an error.
unfoldable pub next_run_state : Bool → ReportRunState → ReportRunState
next_run_state true stop_requested = stop_requested
next_run_state true s = running
next_run_state false rerun_requested = rerun_requested
next_run_state false compilation_error = compilation_error
next_run_state false s = not_running

-- A dialog about an error of compilation is closed when the report runs.
unfoldable pub next_dialog : Bool → ReportRunState → Option DialogProps → Option DialogProps
next_dialog true stop_requested d = d
next_dialog true s (some (script_compile_error e)) = none
next_dialog is_running s d = d

-- Whether the statistics of a run are sent.
unfoldable pub run_has_ended : Bool → ReportRunState → Bool
run_has_ended true s = false
run_has_ended false rerun_requested = false
run_has_ended false compilation_error = false
run_has_ended false s = true

unfoldable pub same_hash : Option String → String → Bool
same_hash none hash = false
same_hash (some h) hash = str_eq h hash

module _ {F : Frames} where
  unfoldable pub handle_connection_state_changed : ConnectionState → App F → App F
  handle_connection_state_changed new_state a = elim new_state [
    | connected ↦
        record (with_widgets send_update_widgets_message
          (record a { connection_state = connected })) { dialog = none }
    | other ↦ record (act clear_xsrf_cookie a) { connection_state = other; session = none }
  ]

  unfoldable pub enqueue_component_stats : List (String × ℕ) → App F → App F
  enqueue_component_stats [] a = a
  enqueue_component_stats ((name, count) ∷ counts) a =
      enqueue_component_stats counts
        (enqueue_event "customComponentStats" (custom_component_stats name count) a)

  unfoldable pub enqueue_stats : App F → App F
  enqueue_stats a =
      let (deltas, m) = get_and_reset_delta_counter a.metrics in
      let a₁ = enqueue_event "deltaStats" (delta_stats deltas) (record a { metrics = m }) in
      let a₂ =
        enqueue_event "themeStats"
          (theme_stats a.page.active_theme_name a.page.custom_theme_defined) a₁ in
      let (components, m') = get_and_reset_custom_component_counter a₂.metrics in
      enqueue_component_stats components (record a₂ { metrics = m' })

  unfoldable pub handle_session_state_changed : SessionState → App F → App F
  handle_session_state_changed msg a =
      let a' =
        if run_has_ended msg.report_is_running a.report_run_state then enqueue_stats a else a in
      record a' {
        user_settings = record a.user_settings { run_on_save = msg.run_on_save };
        dialog = next_dialog msg.report_is_running a.report_run_state a.dialog;
        report_run_state = next_run_state msg.report_is_running a.report_run_state;
      }

  unfoldable pub handle_session_event : SessionEventType → App F → App F
  handle_session_event e a =
      let a' = act (dispatch_session_event e) a in
      elim e [
        | script_compilation_exception error ↦
            open_dialog (script_compile_error error)
              (record a' { report_run_state = compilation_error })
        | report_changed_on_disk ↦
            if a'.page.rerun_prompt_modal_dialog
            then open_dialog (script_changed a'.allow_run_on_save) a'
            else a'
        | report_was_manually_stopped ↦ a'
      ]

  -- The session is set just before, so that the metrics can be initialised.
  unfoldable pub set_session : NewReport → App F → App F
  set_session msg a =
      let s = from_new_report_message msg in
      let (done, m) =
        initialize_metrics a.page.is_dev_env a.page.is_shared_report (some s)
          msg.config.gather_usage_stats a.metrics in
      enqueue_event "createReport" (create_report s.python_version)
        (record a { session = some s; metrics = m })

  unfoldable pub handle_one_time_initialization : NewReport → App F → App F
  handle_one_time_initialization msg a =
      handle_session_state_changed msg.initialize.session_state
        (act host_connected (set_session msg a))
