-- ===== src/App/Active.antt =====
-- The end of a report tells the widget manager which widgets there are still.
use streamlit.Prelude.{
  List, Option, String, [], ap, if◌then◌else◌, none, refl, some, subst, sym, true, ◌++◌, ◌∙◌, ◌∷◌,
  ◌≡◌,
}
use streamlit.Prelude.Result.{ok}
use streamlit.JsMap
use streamlit.JsMap.{JsMap, has}
use streamlit.Connection.Manager.{ConnectionManager}
use streamlit.Report.Proto.{Element, Error, type_error}
use streamlit.Report.Frames.{Frames}
use streamlit.Report.Root.{Root, clear_stale_root, get_root_elements}
use streamlit.Widgets.Manager.{
  Call, WidgetStateManager, form_cleared, forms_data_changed, remove_inactive, send_rerun_back_msg,
}
use streamlit.Widgets.Forms.{form_of}
use streamlit.Widgets.Counts.{get-remove_inactive}
use streamlit.App.{
  App, BackMsg, SessionInfo, call_finished_handlers, error_logged,
  increment_message_cache_run_count, send_message_to_server,
}
use streamlit.App.Calls.{
  act, on_widget_call, on_widget_calls, open_dialog, send_back_msg, send_rerun_back_message,
  show_error, with_widgets,
}
use streamlit.App.Elements.{
  active_widget_ids, count_run, drop_inactive, handle_report_finished, show_cleared,
}
use streamlit.App.Messages.{or_show_error, show_message_error}

module _ {F : Frames} where
  send_back_msg-widget_mgr :
      (msg : BackMsg) (a : App F) → (send_back_msg msg a).widget_mgr ≡ a.widget_mgr
  unfolding send_back_msg
  send_back_msg-widget_mgr msg a = go a.connection_manager
    where
      go :
          (o : Option ConnectionManager)
          → (elim o as (λ _. App F) [
            | none ↦ act (error_logged "Not connected. Cannot send back message") a
            | some m ↦ act (send_message_to_server msg) a
          ]).widget_mgr
            ≡ a.widget_mgr
      go none = refl
      go (some m) = refl

  on_widget_call-widget_mgr :
      (c : Call) (a : App F) → (on_widget_call c a).widget_mgr ≡ a.widget_mgr
  unfolding on_widget_call send_rerun_back_message
  on_widget_call-widget_mgr (send_rerun_back_msg states) a = send_back_msg-widget_mgr _ a
  on_widget_call-widget_mgr (forms_data_changed d) a = refl
  on_widget_call-widget_mgr (form_cleared l) a = refl

  on_widget_calls-widget_mgr :
      (cs : List Call) (a : App F) → (on_widget_calls cs a).widget_mgr ≡ a.widget_mgr
  unfolding on_widget_calls
  on_widget_calls-widget_mgr [] a = refl
  on_widget_calls-widget_mgr (c ∷ cs) a =
      on_widget_calls-widget_mgr cs (on_widget_call c a) ∙ on_widget_call-widget_mgr c a

  -- The callbacks do not change the manager.
  with_widgets-widget_mgr :
      (change : WidgetStateManager → WidgetStateManager) (a : App F)
      → (with_widgets change a).widget_mgr ≡ change (record a.widget_mgr { calls = [] })
  unfolding with_widgets
  with_widgets-widget_mgr change a =
      let m = change (record a.widget_mgr { calls = [] }) in
      on_widget_calls-widget_mgr m.calls (record a { widget_mgr = m })

module _ (F : Frames) (widget_id : Element F.Payload → Option String) where
  or_show_error-widget_mgr :
      (o : Option Error) (a : App F) → (or_show_error (o, a)).widget_mgr ≡ a.widget_mgr
  unfolding or_show_error show_message_error show_error open_dialog
  or_show_error-widget_mgr none a = refl
  or_show_error-widget_mgr (some e) a = refl

  count_run-widget_mgr :
      (a : App F) → (or_show_error (count_run F widget_id a)).widget_mgr ≡ a.widget_mgr
  unfolding count_run
  count_run-widget_mgr a = go a.connection_manager a.session
    where
      go :
          (o : Option ConnectionManager) (s : Option SessionInfo)
          → (or_show_error {F = F} (elim o [
            | none ↦ (none, a)
            | some m ↦ elim s [
              | none ↦ (some type_error, a)
              | some s ↦ (none, act (increment_message_cache_run_count s.max_cached_message_age) a)
            ]
          ])).widget_mgr
            ≡ a.widget_mgr
      go none s = or_show_error-widget_mgr none a
      go (some m) none = or_show_error-widget_mgr (some type_error) a
      go (some m) (some s) = or_show_error-widget_mgr none _

  finished-widget_mgr :
      (a : App F) (r : Root F) (ids : List String)
      → clear_stale_root a.report_id a.pending_elements_buffer ≡ ok r
      → active_widget_ids F widget_id (get_root_elements r) ≡ ok ids
      → (or_show_error (handle_report_finished F widget_id true a)).widget_mgr
        ≡ remove_inactive ids (record a.widget_mgr { calls = [] })
  unfolding handle_report_finished show_cleared drop_inactive
  finished-widget_mgr a r ids cleared active =
      let a₁ : App F = record a { timeouts = a.timeouts ++ (call_finished_handlers ∷ []) } in
      let a₂ : App F = record a₁ { elements = r; pending_elements_buffer = r } in
      ap (λ o. (or_show_error (show_cleared F widget_id o a₁)).widget_mgr) cleared
      ∙ ap (λ o. (or_show_error (drop_inactive F widget_id o a₂)).widget_mgr) active
      ∙ count_run-widget_mgr (with_widgets (remove_inactive ids) a₂)
      ∙ with_widgets-widget_mgr (remove_inactive ids) a₂

  -- When a report has ended successfully, and its elements all have types, the values of the widgets
  -- whose ids stand in the elements that are left are kept, outside and inside of forms, and all
  -- others are dropped.
  pub finished-widget_states :
      (a : App F) (r : Root F) (ids : List String) (k : String)
      → clear_stale_root a.report_id a.pending_elements_buffer ≡ ok r
      → active_widget_ids F widget_id (get_root_elements r) ≡ ok ids
      → let m = (or_show_error (handle_report_finished F widget_id true a)).widget_mgr in
        (JsMap.get k m.widget_states
          ≡ (if has k ids then JsMap.get k a.widget_mgr.widget_states else none))
        × ((f : String)
            → JsMap.get k (form_of f m).widget_states
              ≡ (if has k ids then JsMap.get k (form_of f a.widget_mgr).widget_states else none))
  finished-widget_states a r ids k cleared active =
      subst
        (λ (m : WidgetStateManager).
          (JsMap.get k m.widget_states
            ≡ (if has k ids then JsMap.get k a.widget_mgr.widget_states else none))
          × ((f : String)
              → JsMap.get k (form_of f m).widget_states
                ≡ (if has k ids then JsMap.get k (form_of f a.widget_mgr).widget_states else none)))
        (sym (finished-widget_mgr a r ids cleared active))
        (get-remove_inactive ids (record a.widget_mgr { calls = [] }) k)
