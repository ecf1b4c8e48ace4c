-- ===== src/App/Core.antt =====
-- The core of the application's state: its trees, its run state, its timeouts and the requests to
-- stop that it has sent; and what the shared calls and the user's commands make of it.
use streamlit.Prelude.{
  Bool, List, Option, String, [], ap, arith, false, none, refl, some, true, ℕ, ◌++◌, ◌+◌, ◌∙◌, ◌∷◌,
  ◌≡◌,
}
use streamlit.Connection.Manager.{ConnectionManager, is_connected}
use streamlit.Report.Frames.{Frames}
use streamlit.Report.Root.{Root}
use streamlit.Widgets.Manager.{
  Call, WidgetStateManager, form_cleared, forms_data_changed, send_rerun_back_msg,
}
use streamlit.App.{
  Action, App, BackMsg, DialogProps, EventData, ReportRunState, Timeout, call_form_cleared,
  error_logged, host_modal_reset, send_message_to_server, stop_report_msg,
}
use streamlit.App.Calls.{
  act, close_dialog, enqueue_event, is_server_connected, on_widget_call, on_widget_calls,
  open_dialog, send_back_msg, send_rerun_back_message, show_error, with_widgets,
}

pub record Core (F : Frames) : Type 0 where
  pub elements : Root F
  pub buffer : Root F
  pub report_id : String
  pub run_state : ReportRunState
  pub timer_running : Bool
  pub timeouts : List Timeout
  pub connected_server : Bool
  pub stops : ℕ

abbrev pub stops_of : Action → ℕ
stops_of (send_message_to_server stop_report_msg) = 1
stops_of x = 0

-- The number of requests to stop.
unfoldable pub stops_sent : List Action → ℕ
stops_sent [] = 0
stops_sent (x ∷ xs) = stops_of x + stops_sent xs

stops_sent-append :
    (xs : List Action) (x : Action) → stops_sent (xs ++ x ∷ []) ≡ stops_sent xs + stops_of x
unfolding stops_sent
stops_sent-append [] x = omega arith
stops_sent-append (y ∷ ys) x = omega (arith, stops_sent-append ys x)

module _ {F : Frames} where
  unfoldable pub core : App F → Core F
  core a = record {
    elements = a.elements;
    buffer = a.pending_elements_buffer;
    report_id = a.report_id;
    run_state = a.report_run_state;
    timer_running = a.pending_elements_timer_running;
    timeouts = a.timeouts;
    connected_server = is_server_connected a;
    stops = stops_sent a.actions;
  }

  abbrev pub stop_more : ℕ → Core F → Core F
  stop_more n c = record c { stops = c.stops + n }

  pub core-act : (x : Action) (a : App F) → core (act x a) ≡ stop_more (stops_of x) (core a)
  unfolding core is_server_connected
  core-act x a = ap (λ n. record (core a) { stops = n }) (stops_sent-append a.actions x)

  pub core-act_quiet : (x : Action) (a : App F) → stops_of x ≡ 0 → core (act x a) ≡ core a
  unfolding core is_server_connected
  core-act_quiet x a none_sent =
      ap (λ n. record (core a) { stops = n })
        (omega (arith, stops_sent-append a.actions x, none_sent))

  pub core-enqueue_event :
      (name : String) (d : EventData) (a : App F) → core (enqueue_event name d a) ≡ core a
  unfolding core enqueue_event is_server_connected
  core-enqueue_event name d a = refl

  pub core-send_back_msg :
      (msg : BackMsg) (a : App F)
      → stops_of (send_message_to_server msg) ≡ 0
      → core (send_back_msg msg a) ≡ core a
  unfolding send_back_msg
  core-send_back_msg msg a quiet = go a.connection_manager
    where
      go :
          (o : Option ConnectionManager)
          → core (elim o [
            | none ↦ act (error_logged "Not connected. Cannot send back message") a
            | some m ↦ act (send_message_to_server msg) a
          ])
            ≡ core a
      go none = core-act_quiet (error_logged "Not connected. Cannot send back message") a refl
      go (some m) = core-act_quiet (send_message_to_server msg) a quiet

  pub core-on_widget_call : (c : Call) (a : App F) → core (on_widget_call c a) ≡ core a
  unfolding on_widget_call send_rerun_back_message core is_server_connected
  core-on_widget_call (send_rerun_back_msg states) a = core-send_back_msg _ a refl
  core-on_widget_call (forms_data_changed d) a = refl
  core-on_widget_call (form_cleared l) a = core-act_quiet (call_form_cleared l) a refl

  pub core-on_widget_calls : (cs : List Call) (a : App F) → core (on_widget_calls cs a) ≡ core a
  unfolding on_widget_calls
  core-on_widget_calls [] a = refl
  core-on_widget_calls (c ∷ cs) a =
      core-on_widget_calls cs (on_widget_call c a) ∙ core-on_widget_call c a

  pub core-with_widgets :
      (change : WidgetStateManager → WidgetStateManager) (a : App F)
      → core (with_widgets change a) ≡ core a
  unfolding with_widgets core is_server_connected
  core-with_widgets change a =
      let m = change (record a.widget_mgr { calls = [] }) in
      core-on_widget_calls m.calls (record a { widget_mgr = m })

  pub core-close_dialog : (a : App F) → core (close_dialog a) ≡ core a
  unfolding close_dialog core is_server_connected
  core-close_dialog a = core-act_quiet host_modal_reset (record a { dialog = none }) refl

  pub core-show_error :
      (title error : String) (a : App F) → core (show_error title error a) ≡ core a
  unfolding show_error open_dialog core is_server_connected
  core-show_error title error a = core-act_quiet (error_logged error) a refl

  pub core-open_dialog : (d : DialogProps) (a : App F) → core (open_dialog d a) ≡ core a
  unfolding open_dialog core is_server_connected
  core-open_dialog d a = refl

  -- A connected application has a manager.
  pub core-send_stop :
      (a : App F)
      → is_server_connected a ≡ true
      → core (send_back_msg stop_report_msg a) ≡ stop_more 1 (core a)
  unfolding send_back_msg is_server_connected
  core-send_stop a = go a.connection_manager
    where
      go :
          (o : Option ConnectionManager)
          → (elim o [ none ↦ false | some m ↦ is_connected m ]) ≡ true
          → core (elim o [
            | none ↦ act (error_logged "Not connected. Cannot send back message") a
            | some m ↦ act (send_message_to_server stop_report_msg) a
          ])
            ≡ stop_more 1 (core a)
      go none e = cc e
      go (some m) e = core-act (send_message_to_server stop_report_msg) a
