-- ===== src/App/Tests.antt =====
-- Runs of the application at concrete inputs.
use streamlit.Prelude.{
  List, Option, String, [], false, if◌then◌else◌, length, none, refl, some, true, ℕ, ◌+◌, ◌∷◌, ◌≡◌,
  ◌≤◌,
}
use streamlit.Prelude.Result.{err, ok}
use streamlit.JsMap
use streamlit.JsMap.{JsMap, has}
use streamlit.Connection.Manager.{is_connected, new_connection_manager, same_state}
use streamlit.Connection.{connected, pinging_server}
use streamlit.Report.Proto.{
  Element, ForwardMsgMetadata, element_type, new_element, other_element, type_error,
}
use streamlit.Metrics.{no_metadata}
use streamlit.Report.Node.{
  Nodes, block_node, clear_stale_children, clear_stale_nodes, cons, element_node, get_elements, nil,
  set_in,
}
use streamlit.Report.Frames.{Frames}
use streamlit.Report.ElementNode.{ElementNode, new_element_node}
use streamlit.Report.Root.{
  Root, add_element, apply_delta, clear_or_new, clear_stale_root, dispatch_delta,
  get_optional_elements, get_root_container_name, get_root_elements, main, new_report_root,
  root_block_proto, sidebar,
}
use streamlit.Widgets.Values.{bool_value}
use streamlit.Widgets.Forms.{form_of}
use streamlit.Widgets.Manager.{new_manager}
use streamlit.App.{App, Page, new_app, running, stop_requested}
use streamlit.App.Calls.{is_server_connected, send_back_msg}
use streamlit.App.Commands.{may_stop, stop_report}
use streamlit.App.Session.{NewReport}
use streamlit.App.Elements.{
  active_widget_ids, add_id, get_element_widget_id, handle_report_finished,
}
use streamlit.App.Messages.{delta, or_show_error, report_finished}
use streamlit.App.Happenings.{
  Happening, happen, happen_all, message_comes, timeout_comes, user_stops,
}
use streamlit.App.Core.{stops_sent}
use streamlit.App.Requests.{allowed, allows_stop, how_many}
use streamlit.App.Stops.{stops_sent-happen_all}
use streamlit.App.Batching.{receive_all}
use streamlit.App.Finished.{finished-receive_all}
use streamlit.App.Active.{finished-widget_states}
use streamlit.App.Reconnected.{reconnect, reconnected-still_stopped}
use streamlit.App.Shown.{delta-IsShown, timeouts_come}

abbrev no_frames : Frames
no_frames = record {
  Payload = String;
  Quiver = ℕ;
  new_quiver = λ p. err type_error;
  quiver_add_rows = λ q r. err type_error;
  Rows = ℕ;
  Immutable = ℕ;
  to_immutable = λ e. 0;
  immutable_add_rows = λ i r. err type_error;
  message = λ e. "error";
}

abbrev id_of : Element String → Option String
id_of (other_element type id) = some id
id_of e = none

abbrev no_hash : String → String
no_hash text = text

abbrev no_entries : List (String × String) → String
no_entries entries = ""

abbrev page : Page
page = record {
  location_search = "?a=1";
  path_name = "/";
  query_params = "";
  is_dev_env = false;
  is_shared_report = false;
  rerun_prompt_modal_dialog = false;
  active_theme_name = "Light";
  custom_theme_defined = false;
  using_custom_theme = false;
  has_theme_preference = false;
  share_metadata = no_metadata;
}

abbrev sections : Nodes (ElementNode no_frames) → Root no_frames
sections ns = record {
  root =
      block_node
        (cons (block_node ns root_block_proto "") (cons (block_node nil root_block_proto "") nil))
        root_block_proto "";
}

-- A connected application whose report "r" runs.
abbrev running_app : App no_frames
running_app = record (new_app {F = no_frames} (sections nil) page false) {
  report_id = "r";
  report_run_state = running;
  connection_manager = some (record new_connection_manager { connection_state = connected });
}

abbrev slider : Element String
slider = other_element "slider" "w"

abbrev at_first : ForwardMsgMetadata
at_first = record { cacheable = false; delta_path = 0 ∷ 0 ∷ []; element_dimension_spec = none }

-- A slider comes, the user stops, the slider is shown after the timeout.
abbrev stopped_run : List (Happening no_frames)
stopped_run = message_comes (delta (new_element slider) at_first) ∷ user_stops ∷ timeout_comes ∷ []

finished-receive_all_example :
    let a₁ = happen_all no_frames id_of no_hash no_entries stopped_run running_app in
    let a' = happen no_frames id_of no_hash no_entries (message_comes (report_finished true)) a₁ in
    (r : Root no_frames) × (clear_stale_root "r"
        (receive_all no_frames "r" stopped_run (sections nil))
      ≡ ok r)
    × (a'.elements ≡ r)
    × (a'.pending_elements_buffer ≡ r)
unfolding new_app
finished-receive_all_example =
    finished-receive_all no_frames id_of no_hash no_entries stopped_run running_app refl (
      block_node nil root_block_proto "",
      block_node nil root_block_proto "",
      root_block_proto,
      "",
      refl,
    )

-- The user asks three times.
abbrev impatient : List (Happening no_frames)
impatient = user_stops ∷ user_stops ∷ user_stops ∷ []

stops_sent-happen_all_example :
    stops_sent (happen_all no_frames id_of no_hash no_entries impatient running_app).actions
    ≤ stops_sent running_app.actions
      + allowed running_app.report_run_state
      + how_many allows_stop impatient
stops_sent-happen_all_example = stops_sent-happen_all id_of no_hash no_entries impatient running_app

asked_once :
    stops_sent (happen_all no_frames id_of no_hash no_entries impatient running_app).actions ≡ 1
unfolding stops_sent stop_report is_server_connected is_connected same_state may_stop send_back_msg
    new_app new_connection_manager
asked_once = refl

-- The tree of report "r" with the slider in it.
abbrev with_slider : Root no_frames
with_slider = record {
  root =
      block_node
        (cons
          (block_node (cons (element_node (new_element_node no_frames slider at_first) "r") nil)
            root_block_proto "r")
          (cons (block_node nil root_block_proto "r") nil))
        root_block_proto "r";
}

-- The slider "w" is in the tree, and a widget "gone" is not.
abbrev two_widgets : App no_frames
two_widgets = record running_app {
  pending_elements_buffer = with_slider;
  widget_mgr = record new_manager {
    widget_states =
        ("w", record { id = "w"; value = some (bool_value true) })
        ∷ ("gone", record { id = "gone"; value = some (bool_value true) })
        ∷ [];
  };
}

slider_stays : clear_stale_root "r" with_slider ≡ ok with_slider
unfolding clear_stale_root clear_or_new clear_stale_nodes clear_stale_children new_report_root main
    sidebar new_element_node
slider_stays = refl

slider_is_active : active_widget_ids no_frames id_of (get_root_elements with_slider) ≡ ok ("w" ∷ [])
unfolding active_widget_ids get_element_widget_id add_id get_root_elements get_optional_elements
    main sidebar get_elements new_element_node element_type
slider_is_active = refl

finished-widget_states_example :
    let m = (or_show_error (handle_report_finished no_frames id_of true two_widgets)).widget_mgr in
    (JsMap.get "gone" m.widget_states ≡ (
      if has "gone" ("w" ∷ [])
      then JsMap.get "gone" two_widgets.widget_mgr.widget_states
      else none))
    × ((f : String)
        → JsMap.get "gone" (form_of f m).widget_states ≡ (
            if has "gone" ("w" ∷ [])
            then JsMap.get "gone" (form_of f two_widgets.widget_mgr).widget_states
            else none))
unfolding new_app
finished-widget_states_example =
    finished-widget_states no_frames id_of two_widgets with_slider ("w" ∷ []) "gone" slider_stays
      slider_is_active

abbrev second_session : NewReport
second_session = record {
  initialize = record {
    user_info = record {
      installation_id = "i";
      installation_id_v1 = "i";
      installation_id_v2 = "i";
      installation_id_v3 = "i";
      email = "";
    };
    environment_info = record { streamlit_version = "0.84.0"; python_version = "3.9" };
    session_state = record { report_is_running = true; run_on_save = false };
    session_id = "s";
    command_line = "streamlit run";
  };
  config = record {
    gather_usage_stats = false;
    max_cached_message_age = 2;
    mapbox_token = "";
    allow_run_on_save = true;
    sharing_enabled = false;
  };
  custom_theme = none;
  report_id = "r2";
  name = "app";
  script_path = "app.py";
}

abbrev stopping_app : App no_frames
stopping_app = record running_app { report_run_state = stop_requested }

reconnected-still_stopped_example :
    let a' =
      happen_all no_frames id_of no_hash no_entries
        (reconnect no_frames id_of no_hash no_entries pinging_server second_session)
        stopping_app in
    (a'.report_run_state ≡ stop_requested) × (may_stop a'.report_run_state ≡ false)
reconnected-still_stopped_example =
    reconnected-still_stopped no_frames id_of no_hash no_entries pinging_server second_session
      stopping_app refl refl

-- The tree with the slider, in sections of an earlier report.
abbrev slider_added : Root no_frames
slider_added = record {
  root =
      block_node
        (cons
          (block_node (cons (element_node (new_element_node no_frames slider at_first) "r") nil)
            root_block_proto "r")
          (cons (block_node nil root_block_proto "") nil))
        root_block_proto "r";
}

slider_taken :
    (apply_delta no_frames "r" (new_element slider) at_first (sections nil) running_app.metrics).0
    ≡ ok slider_added
unfolding apply_delta get_root_container_name dispatch_delta add_element set_in new_report_root
    new_element_node new_app
slider_taken = refl

delta-IsShown_example :
    let a₁ =
      happen no_frames id_of no_hash no_entries
        (message_comes (delta (new_element slider) at_first))
        running_app in
    let a' =
      happen_all no_frames id_of no_hash no_entries (timeouts_come (length a₁.timeouts)) a₁ in
    (a'.elements ≡ slider_added) × (a'.pending_elements_timer_running ≡ false) × (a'.timeouts ≡ [])
unfolding new_app
delta-IsShown_example =
    delta-IsShown no_frames id_of no_hash no_entries (new_element slider) at_first running_app refl
      refl slider_taken
