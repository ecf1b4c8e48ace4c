-- ===== src/App/Messages.antt =====
-- The messages from the server to the application (frontend/src/App.tsx).
use Prim.Native.String.{◌++◌ as append_text}
use streamlit.Prelude.{
  Bool, List, Option, String, false, if◌then◌else◌, none, some, str_eq, true, ℕ,
}
use streamlit.Report.Proto.{Delta, Element, Error, ForwardMsgMetadata}
use streamlit.Report.Frames.{Frames}
use streamlit.App.{
  App, GitInfo, Layout, SessionEventType, SidebarState, centered, error_logged, host_query_params,
  host_title, push_url, set_document_title, set_favicon, upload_progress, uploaded, wide,
}
use streamlit.App.Calls.{act, open_dialog, show_error}
use streamlit.App.Session.{
  NewReport, SessionState, handle_session_event, handle_session_state_changed,
}
use streamlit.App.Reports.{handle_new_report}
use streamlit.App.Elements.{handle_delta_msg, handle_report_finished}

pub record PageConfig : Type 0 where
  pub title : String
  pub favicon : String
  pub layout : Layout
  pub initial_sidebar_state : SidebarState

-- A message, by its type; a report has finished successfully or not.
pub data ServerMsg (F : Frames) : Type 0 where
  new_report : NewReport → ServerMsg F
  session_state_changed : SessionState → ServerMsg F
  session_event : SessionEventType → ServerMsg F
  delta : Delta F.Payload F.Rows → ForwardMsgMetadata → ServerMsg F
  page_config_changed : PageConfig → ServerMsg F
  page_info_changed : String → ServerMsg F
  git_info_changed : GitInfo → ServerMsg F
  report_finished : Bool → ServerMsg F
  upload_report_progress : ℕ → ServerMsg F
  report_uploaded : String → ServerMsg F
  unknown_message : String → ServerMsg F

abbrev pub cannot_handle_type : String → String
cannot_handle_type type = append_text "Cannot handle type \"" (append_text type "\".")

unfoldable pub same_layout : Layout → Layout → Bool
same_layout centered centered = true
same_layout wide wide = true
same_layout a b = false

unfoldable pub is_wide : Layout → Bool
is_wide wide = true
is_wide centered = false

module _ {F : Frames} where
  unfoldable pub handle_upload_report_progress : ℕ → App F → App F
  handle_upload_report_progress progress a = open_dialog (upload_progress progress) a

  unfoldable pub handle_report_uploaded : String → App F → App F
  handle_report_uploaded url a = open_dialog (uploaded url) a

  unfoldable pub handle_git_info_changed : GitInfo → App F → App F
  handle_git_info_changed g a = record a { git_info = some g }

  unfoldable pub set_title : String → App F → App F
  set_title title a =
      if str_eq title "" then a else act (set_document_title title) (act (host_title title) a)

  unfoldable pub set_page_favicon : String → App F → App F
  set_page_favicon favicon a = if str_eq favicon "" then a else act (set_favicon favicon) a

  -- The wide mode follows the layout only where that changes.
  unfoldable pub set_layout : Layout → App F → App F
  set_layout layout a = if same_layout layout a.layout then a else record a {
    layout = layout;
    user_settings = record a.user_settings { wide_mode = is_wide layout };
  }

  unfoldable pub handle_page_config_changed : PageConfig → App F → App F
  handle_page_config_changed c a =
      record (set_layout c.layout (set_page_favicon c.favicon (set_title c.title a))) {
        initial_sidebar_state = c.initial_sidebar_state;
      }

  unfoldable pub handle_page_info_changed : String → App F → App F
  handle_page_info_changed query a =
      let q = if str_eq query "" then "" else append_text "?" query in
      act (host_query_params q) (act (push_url (append_text a.page.path_name q)) a)

  -- The `catch` of `handleMessage`, which logs the error before it is shown.
  unfoldable pub show_message_error : String → App F → App F
  show_message_error text a = show_error "Bad message format" text (act (error_logged text) a)

  -- An error of a handler is shown.
  unfoldable pub or_show_error : Option Error × App F → App F
  or_show_error (none, a) = a
  or_show_error (some e, a) = show_message_error (F.message e) a

module _ (F : Frames) (widget_id : Element F.Payload → Option String)
    (hash_string : String → String) (join_entries : List (String × String) → String) where
  unfoldable pub handle_message : ServerMsg F → App F → App F
  handle_message (new_report msg) a = handle_new_report hash_string join_entries msg a
  handle_message (session_state_changed msg) a = handle_session_state_changed msg a
  handle_message (session_event e) a = handle_session_event e a
  handle_message (delta d metadata) a = or_show_error (handle_delta_msg F widget_id d metadata a)
  handle_message (page_config_changed c) a = handle_page_config_changed c a
  handle_message (page_info_changed query) a = handle_page_info_changed query a
  handle_message (git_info_changed g) a = handle_git_info_changed g a
  handle_message (report_finished successfully) a =
      or_show_error (handle_report_finished F widget_id successfully a)
  handle_message (upload_report_progress progress) a = handle_upload_report_progress progress a
  handle_message (report_uploaded url) a = handle_report_uploaded url a
  handle_message (unknown_message type) a = show_message_error (cannot_handle_type type) a
