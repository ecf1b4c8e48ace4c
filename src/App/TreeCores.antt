-- ===== src/App/TreeCores.antt =====
-- What deltas, timeouts and reports make of the core of the application.
use streamlit.Prelude.{
  Bool, List, Option, String, [], false, if◌then◌else◌, none, refl, some, true, ℕ, ◌++◌, ◌∙◌, ◌∷◌,
  ◌≡◌,
}
use streamlit.Prelude.Result.{Result, err, ok}
use streamlit.Connection.Manager.{ConnectionManager}
use streamlit.Report.Proto.{Delta, Element, Error, ForwardMsgMetadata, type_error}
use streamlit.Metrics.{MetricsManager}
use streamlit.Widgets.Manager.{remove_inactive}
use streamlit.Report.Frames.{Frames}
use streamlit.Report.Root.{Root, apply_delta, clear_stale_root, get_root_elements}
use streamlit.App.{
  App, EventData, SessionInfo, Timeout, call_finished_handlers, call_report_finished_handler,
  increment_message_cache_run_count, show_pending,
}
use streamlit.App.Calls.{act, is_server_connected, with_widgets}
use streamlit.App.Elements.{
  active_widget_ids, call_handlers, count_run, drop_inactive, handle_delta_msg,
  handle_report_finished, may_show, next_timeout, run_timeout, schedule_show, show_cleared,
  take_delta, take_timeout,
}
use streamlit.App.Messages.{or_show_error}
use streamlit.App.Core.{Core, core, core-act_quiet, core-with_widgets}
use streamlit.App.MessageCores.{core-or_show_error}

module _ (F : Frames) (widget_id : Element F.Payload → Option String) where
  open F use {Payload, Rows}

  abbrev pub scheduled : Bool → Core F → Core F
  scheduled shown c =
      if c.timer_running
      then c
      else record c { timer_running = true; timeouts = c.timeouts ++ (show_pending shown ∷ []) }

  -- A delta that is refused changes nothing.
  abbrev pub delta_taken : Bool → Result Error (Root F) → Core F → Core F
  delta_taken shown (ok r) c = scheduled shown (record c { buffer = r })
  delta_taken shown (err e) c = c

  core-schedule_show :
      (a : App F) → core (schedule_show F widget_id a) ≡ scheduled (may_show F widget_id a) (core a)
  unfolding schedule_show core is_server_connected
  core-schedule_show a = go a.pending_elements_timer_running
    where
      go :
          (b : Bool)
          → core (
              if b then a else record a {
                pending_elements_timer_running = true;
                timeouts = a.timeouts ++ (show_pending (may_show F widget_id a) ∷ []);
              })
            ≡ (if b then core a else record (core a) {
              timer_running = true;
              timeouts = a.timeouts ++ (show_pending (may_show F widget_id a) ∷ []);
            })
      go true = refl
      go false = refl

  core-take_delta :
      (result : Result Error (Root F)) (m : MetricsManager EventData) (a : App F)
      → core (or_show_error (take_delta F widget_id (result, m) a))
        ≡ delta_taken (may_show F widget_id a) result (core a)
  unfolding take_delta may_show core is_server_connected or_show_error schedule_show
  core-take_delta (ok r) m a =
      core-schedule_show (record a { pending_elements_buffer = r; metrics = m })
  core-take_delta (err e) m a = core-or_show_error (some e) (record a { metrics = m })

  pub core-handle_delta_msg :
      (d : Delta Payload Rows) (metadata : ForwardMsgMetadata) (a : App F)
      → core (or_show_error (handle_delta_msg F widget_id d metadata a))
        ≡ delta_taken
            (may_show F widget_id a)
            (apply_delta F a.report_id d metadata a.pending_elements_buffer a.metrics).0
            (core a)
  unfolding handle_delta_msg
  core-handle_delta_msg d metadata a = core-take_delta _ _ a

  -- The earliest timeout comes.
  abbrev pub timeout_taken : List Timeout → Core F → Core F
  timeout_taken [] c = c
  timeout_taken (call_finished_handlers ∷ ts) c = record c { timeouts = ts }
  timeout_taken (show_pending shown ∷ ts) c = record c {
    timeouts = ts;
    timer_running = false;
    elements = if shown then c.buffer else c.elements;
  }

  core-call_handlers : (hs : List ℕ) (a : App F) → core (call_handlers F widget_id hs a) ≡ core a
  unfolding call_handlers
  core-call_handlers [] a = refl
  core-call_handlers (h ∷ hs) a =
      core-call_handlers hs _ ∙ core-act_quiet (call_report_finished_handler h) a refl

  core-run_timeout :
      (t : Timeout) (ts : List Timeout) (a : App F)
      → core (run_timeout F widget_id t (record a { timeouts = ts }))
        ≡ timeout_taken (t ∷ ts) (core a)
  unfolding run_timeout core is_server_connected
  core-run_timeout call_finished_handlers ts a =
      core-call_handlers a.report_finished_handlers (record a { timeouts = ts })
  core-run_timeout (show_pending true) ts a = refl
  core-run_timeout (show_pending false) ts a = refl

  core-take_timeout :
      (ts : List Timeout) (a : App F)
      → core (take_timeout F widget_id ts a) ≡ timeout_taken ts (core a)
  unfolding take_timeout
  core-take_timeout [] a = refl
  core-take_timeout (t ∷ ts) a = core-run_timeout t ts a

  pub core-next_timeout :
      (a : App F) → core (next_timeout F widget_id a) ≡ timeout_taken a.timeouts (core a)
  unfolding next_timeout
  core-next_timeout a = core-take_timeout a.timeouts a

  -- The end of a report shows what its own deltas have left.
  abbrev pub finish_taken : Result Error (Root F) → Core F → Core F
  finish_taken (ok r) c = record c {
    elements = r;
    buffer = r;
    timeouts = c.timeouts ++ (call_finished_handlers ∷ []);
  }
  finish_taken (err e) c = record c { timeouts = c.timeouts ++ (call_finished_handlers ∷ []) }

  core-count_run : (a : App F) → core (or_show_error (count_run F widget_id a)) ≡ core a
  unfolding count_run
  core-count_run a = go a.connection_manager a.session
    where
      go :
          (o : Option ConnectionManager) (s : Option SessionInfo)
          → core (
              or_show_error (elim o [
                | none ↦ (none, a)
                | some m ↦ elim s [
                  | none ↦ (some type_error, a)
                  | some s ↦
                      (none, act (increment_message_cache_run_count s.max_cached_message_age) a)
                ]
              ]))
            ≡ core a
      go none s = core-or_show_error none a
      go (some m) none = core-or_show_error (some type_error) a
      go (some m) (some s) =
          core-or_show_error none _
          ∙ core-act_quiet (increment_message_cache_run_count s.max_cached_message_age) a refl

  core-drop_inactive :
      (ids : Result Error (List String)) (a : App F)
      → core (or_show_error (drop_inactive F widget_id ids a)) ≡ core a
  unfolding drop_inactive
  core-drop_inactive (err e) a = core-or_show_error (some e) a
  core-drop_inactive (ok ids) a =
      core-count_run (with_widgets (remove_inactive ids) a)
      ∙ core-with_widgets (remove_inactive ids) a

  core-show_cleared :
      (o : Result Error (Root F)) (a : App F)
      → core (
          or_show_error (
            show_cleared F widget_id o
              (record a { timeouts = a.timeouts ++ (call_finished_handlers ∷ []) })))
        ≡ finish_taken o (core a)
  unfolding show_cleared core is_server_connected
  core-show_cleared (err e) a = core-or_show_error (some e) _
  core-show_cleared (ok r) a =
      core-drop_inactive (active_widget_ids F widget_id (get_root_elements r)) _

  pub core-handle_report_finished :
      (a : App F)
      → core (or_show_error (handle_report_finished F widget_id true a))
        ≡ finish_taken (clear_stale_root a.report_id a.pending_elements_buffer) (core a)
  unfolding handle_report_finished
  core-handle_report_finished a = core-show_cleared _ a

  pub core-report_failed :
      (a : App F) → core (or_show_error (handle_report_finished F widget_id false a)) ≡ core a
  unfolding handle_report_finished
  core-report_failed a = core-or_show_error none a
