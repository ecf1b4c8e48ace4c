-- ===== src/Widgets/Sending.antt =====
-- When the manager talks to the server.
use mathlib.Core.List.{append-nil}
use streamlit.Prelude.{
  Bool, Option, [], arith, eq_refl, false, if◌then◌else◌, refl, some, sym, true, ◌++◌, ◌∙◌, ◌∷◌,
  ◌≡◌,
}
use streamlit.JsMap
use streamlit.JsMap.{JsMap}
use streamlit.JsMap.Laws.{delete-set, get-set}
use streamlit.Widgets.Values.{Source, WidgetInfo, WidgetValue, is_valid_form_id, trigger_value}
use streamlit.Widgets.StateDict
use streamlit.Widgets.Manager.{
  Call, FormState, WidgetStateManager, create_widget_state, delete_widget_state, emit,
  get_form_widget_state, on_widget_value_changed, send_update_widgets_message,
  sync_forms_with_pending_changes, update_forms_data,
}
use streamlit.Widgets.Forms.{form_of, sent, sent-append, update_form-eq-set}
use streamlit.Widgets.Accessors.{set_trigger_value, set_value}

sent-one :
    (m : WidgetStateManager) (c : Call) → sent (emit c m).calls ≡ sent m.calls ++ sent (c ∷ [])
unfolding emit
sent-one m c = sent-append m.calls (c ∷ [])

sent-sync : (m : WidgetStateManager) → sent (sync_forms_with_pending_changes m).calls ≡ sent m.calls
unfolding sync_forms_with_pending_changes update_forms_data
sent-sync m = sent-one _ _ ∙ append-nil (sent m.calls)

abbrev with_state : WidgetInfo → Option WidgetValue → FormState → FormState
with_state w v form = record form {
  widget_states = StateDict.create_state w.id v form.widget_states;
}

set_value-in_form :
    (w : WidgetInfo) (v : Option WidgetValue) (s : Source) (m : WidgetStateManager)
    → is_valid_form_id (some w.form_id) ≡ true
    → s.from_ui ≡ true
    → set_value w v s m
      ≡ sync_forms_with_pending_changes
          (record m { forms = JsMap.set w.form_id (with_state w v (form_of w.form_id m)) m.forms })
unfolding set_value on_widget_value_changed create_widget_state
set_value-in_form w v s m in_form user =
    ground (arith, update_form-eq-set w.form_id (with_state w v) m)

set_value-outside :
    (w : WidgetInfo) (v : Option WidgetValue) (s : Source) (m : WidgetStateManager)
    → is_valid_form_id (some w.form_id) ≡ false
    → let set_top = record m { widget_states = StateDict.create_state w.id v m.widget_states } in
      set_value w v s m ≡ (if s.from_ui then send_update_widgets_message set_top else set_top)
unfolding set_value on_widget_value_changed create_widget_state
set_value-outside w v s m no_form = ground arith

-- A value that the user sets inside a form stays in the form: the server is sent nothing, and the
-- values outside the form are those from before.
pub set_value_in_form_stays :
    (w : WidgetInfo) (v : Option WidgetValue) (s : Source) (m : WidgetStateManager)
    → is_valid_form_id (some w.form_id) ≡ true
    → s.from_ui ≡ true
    → let m' = set_value w v s m in
      (sent m'.calls ≡ sent m.calls)
      × (m'.widget_states ≡ m.widget_states)
      × (get_form_widget_state w m' ≡ some (record { id = w.id; value = v }))
unfolding get_form_widget_state StateDict.get_state StateDict.create_state
set_value_in_form_stays w v s m in_form user =
    let form = form_of w.form_id m in
    rw (set_value-in_form w v s m in_form user) (
      sent-sync (record m { forms = JsMap.set w.form_id (with_state w v form) m.forms }),
      unfold sync_forms_with_pending_changes update_forms_data emit in refl,
      unfold sync_forms_with_pending_changes update_forms_data emit in
          ground (
            arith,
            get-set w.form_id w.form_id (with_state w v form) m.forms,
            get-set w.id w.id (record { id = w.id; value = v }) form.widget_states,
            eq_refl w.id,
            eq_refl w.form_id,
          ),
    )

-- One message with all the top-level states, or none.
sent-if :
    (user : Bool) (m : WidgetStateManager)
    → let m' = if user then send_update_widgets_message m else m in
      (m'.widget_states ≡ m.widget_states)
      × (sent m'.calls
          ≡ sent m.calls
            ++ (if user then StateDict.create_widget_states_msg m'.widget_states ∷ [] else []))
unfolding send_update_widgets_message emit
sent-if true m = (refl, sent-append m.calls _)
sent-if false m = (refl, sym (append-nil (sent m.calls)))

set_top : WidgetInfo → Option WidgetValue → WidgetStateManager → WidgetStateManager
set_top w v m = record m { widget_states = StateDict.create_state w.id v m.widget_states }

-- A value that the user sets outside every form is sent at once, in one message with the states of
-- all the widgets outside forms; one that code sets is not sent.
pub set_value_outside_form :
    (w : WidgetInfo) (v : Option WidgetValue) (s : Source) (m : WidgetStateManager)
    → is_valid_form_id (some w.form_id) ≡ false
    → let m' = set_value w v s m in
      (JsMap.get w.id m'.widget_states ≡ some (record { id = w.id; value = v }))
      × (sent m'.calls
          ≡ sent m.calls
            ++ (if s.from_ui then StateDict.create_widget_states_msg m'.widget_states ∷ [] else []))
unfolding set_top StateDict.create_state
set_value_outside_form w v s m no_form =
    let (states, message) = sent-if s.from_ui (set_top w v m) in
    rw (set_value-outside w v s m no_form) (
      rw (
        states,
        get-set w.id w.id (record { id = w.id; value = v }) m.widget_states,
        eq_refl w.id,
      ),
      message,
    )

-- A trigger outside every form is sent as `true` and is gone afterwards.
pub set_trigger_value_outside_form :
    (w : WidgetInfo) (s : Source) (m : WidgetStateManager)
    → is_valid_form_id (some w.form_id) ≡ false
    → s.from_ui ≡ true
    → let m' = set_trigger_value w s m in
      let with_trigger =
        JsMap.set w.id (record { id = w.id; value = some (trigger_value true) }) m.widget_states in
      (sent m'.calls ≡ sent m.calls ++ JsMap.values with_trigger ∷ [])
      × (m'.widget_states ≡ JsMap.delete w.id m.widget_states)
unfolding set_trigger_value delete_widget_state set_top StateDict.create_state
    StateDict.create_widget_states_msg StateDict.delete_state JsMap.set send_update_widgets_message
    emit
set_trigger_value_outside_form w s m no_form user =
    let v = some (trigger_value true) in
    let (states, message) = sent-if true (set_top w v m) in
    simp (set_value-outside w v s m no_form, user)
      (message, rw (states) (delete-set w.id (record { id = w.id; value = v }) m.widget_states))

-- A trigger that the user sets inside a form is not sent, and it is not taken back: it stays in the
-- form's pending values, as `true`.
pub set_trigger_value_in_form_stays :
    (w : WidgetInfo) (s : Source) (m : WidgetStateManager)
    → is_valid_form_id (some w.form_id) ≡ true
    → s.from_ui ≡ true
    → let m' = set_trigger_value w s m in
      (sent m'.calls ≡ sent m.calls)
      × (get_form_widget_state w m'
          ≡ some (record { id = w.id; value = some (trigger_value true) }))
unfolding set_trigger_value delete_widget_state get_form_widget_state
set_trigger_value_in_form_stays w s m in_form user =
    let (message, _, pending) =
      set_value_in_form_stays w (some (trigger_value true)) s m in_form user in
    (message, pending)
