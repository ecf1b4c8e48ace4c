-- ===== src/App.antt =====
-- The state of the application (frontend/src/App.tsx). `setState`
-- is applied at once, as it is in the callbacks of sockets and timers; in the handlers of the
-- browser's events no operation below reads what it has just set. What the operations ask of the
-- browser, the host and the connection is recorded in `actions`, and the timeouts that they set in
-- `timeouts`, the latest last. `App/Calls` has the calls that the operations share, `App/Commands` the
-- operations of the user, `App/Session` and `App/Reports` have the handlers for sessions and reports, `App/Elements` those
-- for the deltas, `App/Messages` the dispatch of messages; the other modules prove.
pub mod Calls
pub mod Commands
pub mod Session
pub mod Reports
pub mod Elements
pub mod Messages
pub mod Happenings
pub mod Core
pub mod CommandCores
pub mod MessageCores
pub mod TreeCores
pub mod ReportCores
pub mod Requests
pub mod Stops
pub mod Batching
pub mod Taken
pub mod Finished
pub mod Active
pub mod Reconnected
pub mod Shown
mod Tests
pub use streamlit.SessionInfo.{SessionInfo}
use streamlit.Prelude.{Bool, List, Option, String, [], false, none, true, ℕ}
use streamlit.Connection.{ConnectionState, initial}
use streamlit.Connection.Manager.{ConnectionManager}
use streamlit.Metrics.{MetricsManager, StreamlitShareMetadata, new_metrics_manager}
use streamlit.Report.Frames.{Frames}
use streamlit.Report.Root.{Root}
use streamlit.Widgets.Values.{WidgetState}
use streamlit.Widgets.Manager.{
  FormsData, Listener, WidgetStateManager, create_forms_data, new_manager,
}

pub data ReportRunState : Type 0 where
  not_running running rerun_requested stop_requested compilation_error : ReportRunState

unfoldable pub same_run_state : ReportRunState → ReportRunState → Bool
same_run_state not_running not_running = true
same_run_state running running = true
same_run_state rerun_requested rerun_requested = true
same_run_state stop_requested stop_requested = true
same_run_state compilation_error compilation_error = true
same_run_state a b = false

pub record UserSettings : Type 0 where
  pub wide_mode : Bool
  pub run_on_save : Bool

pub data Layout : Type 0 where
  centered wide : Layout

pub data SidebarState : Type 0 where
  auto expanded collapsed : SidebarState

pub data GitStates : Type 0 where
  default_state head_detached ahead_of_remote : GitStates

pub record GitInfo : Type 0 where
  pub repository : String
  pub branch : String
  pub git_module : String
  pub untracked_files : List String
  pub uncommitted_files : List String
  pub state : GitStates

-- A dialog, by its type; its callbacks are the operations of the same name.
pub data DialogProps : Type 0 where
  about theme_creator clear_cache_dialog : DialogProps
  settings : Bool → UserSettings → Bool → Bool → Bool → DialogProps
  script_changed : Bool → DialogProps
  script_compile_error : String → DialogProps
  upload_progress : ℕ → DialogProps
  uploaded : String → DialogProps
  deploy_error : String → String → DialogProps
  warning : String → String → DialogProps

-- A message to the server.
pub data BackMsg : Type 0 where
  rerun_script_msg : String → Option (List WidgetState) → BackMsg
  stop_report_msg clear_cache_msg cloud_upload_msg close_connection_msg : BackMsg
  load_git_info_msg : BackMsg
  set_run_on_save_msg : Bool → BackMsg

-- A theme, by the entries of the object.
pub record CustomThemeConfig : Type 0 where
  pub entries : List (String × String)

pub data SessionEventType : Type 0 where
  report_changed_on_disk report_was_manually_stopped : SessionEventType
  script_compilation_exception : String → SessionEventType

pub data Action : Type 0 where
  -- `connectionManager.sendMessage`
  send_message_to_server : BackMsg → Action
  increment_message_cache_run_count : ℕ → Action
  error_logged : String → Action
  clear_xsrf_cookie reload_page : Action
  set_document_title set_favicon push_url : String → Action
  -- The host of the page, `s4aCommunication`.
  host_title host_query_params : String → Action
  host_connected host_modal_reset : Action
  add_custom_theme set_custom_theme : CustomThemeConfig → Action
  remove_custom_themes set_auto_theme : Action
  dispatch_session_event : SessionEventType → Action
  call_form_cleared : Listener → Action
  call_report_finished_handler : ℕ → Action

-- The data of a metrics event.
pub data EventData : Type 0 where
  no_data : EventData
  delta_stats : List (String × ℕ) → EventData
  theme_stats : String → Bool → EventData
  custom_component_stats : String → ℕ → EventData
  create_report : String → EventData

-- What a timeout does: it calls the handlers of a finished report, or shows the pending elements
-- where that was allowed when it was set.
pub data Timeout : Type 0 where
  call_finished_handlers : Timeout
  show_pending : Bool → Timeout

-- What is read of the page, its host and its themes.
pub record Page : Type 0 where
  pub location_search : String
  pub path_name : String
  pub query_params : String
  pub is_dev_env : Bool
  pub is_shared_report : Bool
  pub rerun_prompt_modal_dialog : Bool
  pub active_theme_name : String
  pub custom_theme_defined : Bool
  pub using_custom_theme : Bool
  pub has_theme_preference : Bool
  pub share_metadata : StreamlitShareMetadata

pub record App (F : Frames) : Type 0 where
  pub connection_state : ConnectionState
  pub elements : Root F
  pub is_full_screen : Bool
  pub report_id : String
  pub report_name : String
  pub report_hash : Option String
  pub report_run_state : ReportRunState
  pub user_settings : UserSettings
  pub dialog : Option DialogProps
  pub sharing_enabled : Bool
  pub layout : Layout
  pub initial_sidebar_state : SidebarState
  pub allow_run_on_save : Bool
  -- A handler is a number that stands for the function.
  pub report_finished_handlers : List ℕ
  pub developer_mode : Bool
  pub theme_hash : Option String
  pub git_info : Option GitInfo
  pub forms_data : FormsData
  pub connection_manager : Option ConnectionManager
  pub widget_mgr : WidgetStateManager
  pub pending_elements_buffer : Root F
  pub pending_elements_timer_running : Bool
  -- The singletons.
  pub session : Option SessionInfo
  pub metrics : MetricsManager EventData
  pub page : Page
  pub timeouts : List Timeout
  pub actions : List Action

-- A new application, with a tree that says that one has to wait.
unfoldable pub new_app : {F : Frames} → Root F → Page → Bool → App F
new_app waiting page is_localhost = record {
  connection_state = initial;
  elements = waiting;
  is_full_screen = false;
  report_id = "<null>";
  report_name = "";
  report_hash = none;
  report_run_state = not_running;
  user_settings = record { wide_mode = false; run_on_save = false };
  dialog = none;
  sharing_enabled = false;
  layout = centered;
  initial_sidebar_state = auto;
  allow_run_on_save = true;
  report_finished_handlers = [];
  developer_mode = is_localhost;
  theme_hash = none;
  git_info = none;
  forms_data = create_forms_data;
  connection_manager = none;
  widget_mgr = new_manager;
  pending_elements_buffer = waiting;
  pending_elements_timer_running = false;
  session = none;
  metrics = new_metrics_manager;
  page = page;
  timeouts = [];
  actions = [];
}
