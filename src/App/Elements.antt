-- ===== src/App/Elements.antt =====
-- The handlers of the application (frontend/src/App.tsx) for deltas and the end of a report. Deltas
-- are applied to `pending_elements_buffer`, which a timeout shows.
use streamlit.Prelude.{
  Bool, List, Option, String, [], false, if◌then◌else◌, none, some, true, ℕ, ◌++◌, ◌||◌, ◌∷◌,
}
use streamlit.Prelude.Result.{Result, err, ok, ◌>>=◌}
use streamlit.Connection.Manager.{is_static_connection}
use streamlit.Report.Proto.{Delta, Element, Error, ForwardMsgMetadata, element_type, type_error}
use streamlit.Metrics.{MetricsManager}
use streamlit.Report.Frames.{Frames}
use streamlit.Report.Root.{Root, apply_delta, clear_stale_root, get_root_elements}
use streamlit.Report.ElementNode.{ElementNode}
use streamlit.Widgets.Manager.{remove_inactive}
use streamlit.App.{
  App, EventData, Timeout, call_finished_handlers, call_report_finished_handler,
  increment_message_cache_run_count, running, same_run_state, show_pending,
}
use streamlit.App.Calls.{act, with_widgets}

module _ (F : Frames) (widget_id : Element F.Payload → Option String) where
  open F use {Payload, Rows}

  -- A static connection shows all elements, a server's those of a running report.
  unfoldable pub may_show : App F → Bool
  may_show a =
      (elim a.connection_manager [ none ↦ false | some m ↦ is_static_connection m ])
      || same_run_state a.report_run_state running

  unfoldable pub schedule_show : App F → App F
  schedule_show a = if a.pending_elements_timer_running then a else record a {
    pending_elements_timer_running = true;
    timeouts = a.timeouts ++ (show_pending (may_show a) ∷ []);
  }

  -- The counters of the metrics have changed also where the delta is refused.
  unfoldable pub take_delta :
      Result Error (Root F) × MetricsManager EventData → App F → Option Error × App F
  take_delta (ok r, m) a =
      (none, schedule_show (record a { pending_elements_buffer = r; metrics = m }))
  take_delta (err e, m) a = (some e, record a { metrics = m })

  unfoldable pub handle_delta_msg :
      Delta Payload Rows → ForwardMsgMetadata → App F → Option Error × App F
  handle_delta_msg delta metadata a =
      take_delta (apply_delta F a.report_id delta metadata a.pending_elements_buffer a.metrics) a

  unfoldable pub call_handlers : List ℕ → App F → App F
  call_handlers [] a = a
  call_handlers (h ∷ hs) a = call_handlers hs (act (call_report_finished_handler h) a)

  -- A timeout comes; it has been taken off the list.
  unfoldable pub run_timeout : Timeout → App F → App F
  run_timeout call_finished_handlers a = call_handlers a.report_finished_handlers a
  run_timeout (show_pending shown) a =
      let a' = record a { pending_elements_timer_running = false } in
      if shown then record a' { elements = a'.pending_elements_buffer } else a'

  unfoldable pub take_timeout : List Timeout → App F → App F
  take_timeout [] a = a
  take_timeout (t ∷ ts) a = run_timeout t (record a { timeouts = ts })

  -- The earliest timeout of the list comes.
  unfoldable pub next_timeout : App F → App F
  next_timeout a = take_timeout a.timeouts a

  -- `getElementWidgetID`: an element without a type is an error.
  unfoldable pub get_element_widget_id : Element Payload → Result Error (Option String)
  get_element_widget_id e = elim (element_type e) [
    | none ↦ err type_error
    | some type ↦ ok (widget_id e)
  ]

  unfoldable pub add_id : Option String → List String → List String
  add_id none ids = ids
  add_id (some id) ids = id ∷ ids

  unfoldable pub active_widget_ids : List (ElementNode F) → Result Error (List String)
  active_widget_ids [] = ok []
  active_widget_ids (l ∷ ls) = do
    id ← get_element_widget_id l.element
    ids ← active_widget_ids ls
    ok (add_id id ids)

  -- The cache is told of the end of a run by its owner.
  unfoldable pub count_run : App F → Option Error × App F
  count_run a = elim a.connection_manager [
    | none ↦ (none, a)
    | some m ↦ elim a.session [
      | none ↦ (some type_error, a)
      | some s ↦ (none, act (increment_message_cache_run_count s.max_cached_message_age) a)
    ]
  ]

  unfoldable pub drop_inactive : Result Error (List String) → App F → Option Error × App F
  drop_inactive (err e) a = (some e, a)
  drop_inactive (ok ids) a = count_run (with_widgets (remove_inactive ids) a)

  unfoldable pub show_cleared : Result Error (Root F) → App F → Option Error × App F
  show_cleared (err e) a = (some e, a)
  show_cleared (ok r) a =
      drop_inactive (active_widget_ids (get_root_elements r))
        (record a { elements = r; pending_elements_buffer = r })

  unfoldable pub handle_report_finished : Bool → App F → Option Error × App F
  handle_report_finished false a = (none, a)
  handle_report_finished true a =
      show_cleared (clear_stale_root a.report_id a.pending_elements_buffer)
        (record a { timeouts = a.timeouts ++ (call_finished_handlers ∷ []) })
