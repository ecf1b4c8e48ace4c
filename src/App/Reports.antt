-- ===== src/App/Reports.antt =====
-- The handler of the application (frontend/src/App.tsx) for new reports. Texts are hashed by a
-- library; the themes are the host's.
use Prim.Native.String.{◌++◌ as append_text}
use streamlit.Prelude.{List, Option, String, [], if◌then◌else◌, none, not, some, ◌||◌}
use streamlit.Prelude.Result.{err, ok}
use streamlit.Metrics.{clear_delta_counter, set_metadata, set_report_hash}
use streamlit.Report.Frames.{Frames}
use streamlit.Report.Root.{Root, empty}
use streamlit.Widgets.Manager.{remove_inactive}
use streamlit.App.{
  App, CustomThemeConfig, SessionInfo, add_custom_theme, no_data, reload_page, remove_custom_themes,
  set_auto_theme, set_custom_theme, set_document_title, set_favicon,
}
use streamlit.App.Calls.{act, enqueue_event, with_widgets}
use streamlit.App.Session.{
  NewReport, from_new_report_message, handle_one_time_initialization, has_streamlit_version_changed,
  same_hash,
}

module _ (hash_string : String → String) (join_entries : List (String × String) → String) where
  -- The entries are sorted before they are joined.
  unfoldable pub create_theme_hash : Option CustomThemeConfig → String
  create_theme_hash none = "hash_for_undefined_custom_theme"
  create_theme_hash (some t) = hash_string (join_entries t.entries)

module _ {F : Frames} (hash_string : String → String)
    (join_entries : List (String × String) → String) where
  -- A custom theme becomes the active one, unless the user has chosen a preset one.
  unfoldable pub change_themes : Option CustomThemeConfig → App F → App F
  change_themes none a =
      let a' = act remove_custom_themes a in
      if a.page.using_custom_theme then act set_auto_theme a' else a'
  change_themes (some t) a =
      let a' = act (add_custom_theme t) a in
      if not a.page.has_theme_preference || a.page.using_custom_theme
      then act (set_custom_theme t) a'
      else a'

  unfoldable pub process_theme_input : Option CustomThemeConfig → App F → App F
  process_theme_input t a =
      let hash = create_theme_hash hash_string join_entries t in
      if same_hash a.theme_hash hash
      then a
      else change_themes t (record a { theme_hash = some hash })

  -- `ReportRoot.empty()` does not throw: it makes the two sections itself.
  unfoldable pub cleared : Root F → Root F
  cleared r = elim (empty F none) [ ok r' ↦ r' | err e ↦ r ]

  unfoldable pub clear_app_state : String → String → String → App F → App F
  clear_app_state hash id name a =
      let r = cleared a.elements in
      with_widgets (remove_inactive []) (record a {
        report_id = id;
        report_name = name;
        report_hash = some hash;
        elements = r;
        pending_elements_buffer = r;
      })

  -- The report that a message begins is set up; `s` is the session.
  unfoldable pub begin_report : SessionInfo → NewReport → App F → App F
  begin_report s msg a =
      let hash = hash_string (append_text s.installation_id msg.script_path) in
      let m =
        clear_delta_counter
          (set_report_hash hash (set_metadata (some a.page.share_metadata) a.metrics)) in
      let a' =
        enqueue_event "updateReport" no_data
          (record (act (set_favicon "favicon.png")
            (act (set_document_title (append_text msg.name " · Streamlit")) a)) { metrics = m }) in
      if same_hash a.report_hash hash
      then record a' { report_id = msg.report_id }
      else clear_app_state hash msg.report_id msg.name a'

  unfoldable pub configure : NewReport → App F → App F
  configure msg a = record (process_theme_input msg.custom_theme a) {
    sharing_enabled = msg.config.sharing_enabled;
    allow_run_on_save = msg.config.allow_run_on_save;
  }

  -- A session that is not set yet is set first.
  unfoldable pub report_in_session : Option SessionInfo → NewReport → App F → App F
  report_in_session none msg a =
      begin_report (from_new_report_message msg) msg
        (configure msg (handle_one_time_initialization msg a))
  report_in_session (some s) msg a = begin_report s msg (configure msg a)

  unfoldable pub handle_new_report : NewReport → App F → App F
  handle_new_report msg a =
      if has_streamlit_version_changed a.session msg.initialize
      then act reload_page a
      else report_in_session a.session msg a
