-- ===== src/Widgets/Valid.antt =====
-- Every public method keeps the manager made of dictionaries whose states are filed under their ids.
use streamlit.Prelude.{
  Bool-cases, List, Option, String, [], arith, if_both, inl, inr, none, refl, some, ◌&&◌, ◌∷◌, ◌≡◌,
}
use streamlit.Prelude.Int.{negsuc, pos, ℤ}
use streamlit.JsMap
use streamlit.JsMap.{JsMap, JsSet}
use streamlit.JsMap.Distinct.{IsDistinct, set-IsDistinct}
use streamlit.JsMap.Each.{Each}
use streamlit.Widgets.Values.{Source, WidgetInfo, WidgetValue, is_valid_form_id}
use streamlit.Widgets.Manager
use streamlit.Widgets.Manager.{
  FormState, Listener, WidgetStateManager, create_widget_state, delete_widget_state, emit,
  form_cleared, on_widget_value_changed, remove_inactive_in_forms, send_update_widgets_message,
  sync_forms_with_pending_changes,
}
use streamlit.Widgets.Accessors
use streamlit.Widgets.Accessors.{set_value}
use streamlit.Widgets.Submit.{
  clear_form_values, commit_form, copy_form_values, emit_form_cleared, send_committed, submit_form,
}
use streamlit.Widgets.Buttons
use streamlit.Widgets.Buttons.{set_submit_button_count, with_submit_button_count}
use streamlit.Widgets.Ops.{Op, apply, or_same}
use streamlit.Widgets.Dicts.{
  FormIsDict, IsDict-empty, IsValid, copy_from-IsDict, create_state-IsDict, delete_state-IsDict,
  emit-IsValid, form_of-IsDict, get_or_create-IsValid, remove_inactive-IsDict, set_states-IsValid,
  update_form-IsValid, update_forms_data-IsValid,
}

sync-IsValid : (m : WidgetStateManager) → IsValid m → IsValid (sync_forms_with_pending_changes m)
unfolding sync_forms_with_pending_changes
sync-IsValid m h = update_forms_data-IsValid _ m h.counts_distinct h

send-IsValid : (m : WidgetStateManager) → IsValid m → IsValid (send_update_widgets_message m)
unfolding send_update_widgets_message
send-IsValid m h = emit-IsValid _ m h

create_widget_state-IsValid :
    (w : WidgetInfo) (v : Option WidgetValue) (s : Source) (m : WidgetStateManager)
    → IsValid m
    → IsValid (create_widget_state w s v m)
unfolding create_widget_state
create_widget_state-IsValid w v s m h =
    elim (Bool-cases (is_valid_form_id (some w.form_id) && s.from_ui)) [
      | inl in_form ↦ rw in_form (
          update_form-IsValid w.form_id _ m
            (create_state-IsDict w.id v _ (form_of-IsDict w.form_id m h)) h)
      | inr top ↦ rw top (set_states-IsValid _ m (create_state-IsDict w.id v _ h.states) h)
    ]

pub set_value-IsValid :
    (w : WidgetInfo) (v : Option WidgetValue) (s : Source) (m : WidgetStateManager)
    → IsValid m
    → IsValid (set_value w v s m)
unfolding set_value on_widget_value_changed
set_value-IsValid w v s m h =
    let created = create_widget_state-IsValid w v s m h in
    if_both IsValid (is_valid_form_id (some w.form_id)) (sync-IsValid _ created)
      (if_both IsValid s.from_ui (send-IsValid _ created) created)

-- The invariant does not read a form's flag and listeners.
remove_inactive_in_forms-Each :
    (ids : JsSet) (forms : JsMap FormState)
    → Each FormIsDict forms
    → Each FormIsDict (remove_inactive_in_forms ids forms)
unfolding remove_inactive_in_forms
remove_inactive_in_forms-Each ids [] h = tt
remove_inactive_in_forms-Each ids ((k, form) ∷ forms) h =
    (remove_inactive-IsDict ids form.widget_states h.0, remove_inactive_in_forms-Each ids forms h.1)

get-remove_inactive_in_forms-none :
    (k : String) (ids : JsSet) (forms : JsMap FormState)
    → JsMap.get k forms ≡ none
    → JsMap.get k (remove_inactive_in_forms ids forms) ≡ none
unfolding remove_inactive_in_forms JsMap.get
get-remove_inactive_in_forms-none k ids [] h = refl
get-remove_inactive_in_forms-none k ids ((j, form) ∷ forms) h =
    ground (arith, get-remove_inactive_in_forms-none k ids forms)

remove_inactive_in_forms-IsDistinct :
    (ids : JsSet) (forms : JsMap FormState)
    → IsDistinct forms
    → IsDistinct (remove_inactive_in_forms ids forms)
unfolding remove_inactive_in_forms
remove_inactive_in_forms-IsDistinct ids [] h = tt
remove_inactive_in_forms-IsDistinct ids ((k, form) ∷ forms) h = (
  get-remove_inactive_in_forms-none k ids forms h.0,
  remove_inactive_in_forms-IsDistinct ids forms h.1,
)

remove_inactive-IsValid :
    (ids : JsSet) (m : WidgetStateManager) → IsValid m → IsValid (Manager.remove_inactive ids m)
unfolding Manager.remove_inactive
remove_inactive-IsValid ids m h = record {
  states = remove_inactive-IsDict ids m.widget_states h.states;
  forms_distinct = remove_inactive_in_forms-IsDistinct ids m.forms h.forms_distinct;
  form_states = remove_inactive_in_forms-Each ids m.forms h.form_states;
  counts_distinct = h.counts_distinct;
}

delete_widget_state-IsValid :
    (k : String) (m : WidgetStateManager) → IsValid m → IsValid (delete_widget_state k m)
unfolding delete_widget_state
delete_widget_state-IsValid k m h =
    set_states-IsValid _ m (delete_state-IsDict k m.widget_states h.states) h

set_submit_button_count-IsValid :
    (k : String) (z : ℤ) (m : WidgetStateManager)
    → IsValid m
    → IsValid (or_same (set_submit_button_count k z m) m)
unfolding set_submit_button_count with_submit_button_count
set_submit_button_count-IsValid k (pos n) m h =
    update_forms_data-IsValid _ m
      (set-IsDistinct k n m.forms_data.submit_button_count h.counts_distinct) h
set_submit_button_count-IsValid k (negsuc n) m h = h

copy_form_values-IsValid :
    (k : String) (m : WidgetStateManager) → IsValid m → IsValid (copy_form_values k m)
unfolding copy_form_values
copy_form_values-IsValid k m h =
    let (valid, same) = get_or_create-IsValid k m h in
    set_states-IsValid _ _ (copy_from-IsDict _ _ (rw same (form_of-IsDict k m h)) valid.states)
      valid

emit_form_cleared-IsValid :
    (ls : List Listener) (m : WidgetStateManager) → IsValid m → IsValid (emit_form_cleared ls m)
unfolding emit_form_cleared
emit_form_cleared-IsValid [] m h = h
emit_form_cleared-IsValid (l ∷ ls) m h =
    emit_form_cleared-IsValid ls (emit (form_cleared l) m) (emit-IsValid (form_cleared l) m h)

commit_form-IsValid :
    (w : WidgetInfo) (m : WidgetStateManager) → IsValid m → IsValid (commit_form w m)
unfolding commit_form clear_form_values
commit_form-IsValid w m h =
    update_form-IsValid w.form_id _ _ IsDict-empty
      (copy_form_values-IsValid w.form_id _ (create_widget_state-IsValid w _ _ m h))

submit_form-IsValid :
    (w : WidgetInfo) (m : WidgetStateManager) → IsValid m → IsValid (or_same (submit_form w m) m)
unfolding submit_form send_committed
submit_form-IsValid w m h =
    let (valid, _) = get_or_create-IsValid w.form_id m h in
    let committed = commit_form-IsValid w _ valid in
    let done = delete_widget_state-IsValid w.id _ (sync-IsValid _ (send-IsValid _ committed)) in
    elim (Bool-cases (is_valid_form_id (some w.form_id))) [
      | inl ok_id ↦ rw ok_id (if_both IsValid _ (emit_form_cleared-IsValid _ _ done) done)
      | inr bad_id ↦ rw bad_id h
    ]

-- Every public method keeps the invariant: the dictionaries hold each id once, and every state
-- under its own id; a form is listed once, and so is a submit button count.
pub apply-IsValid : (op : Op) (m : WidgetStateManager) → IsValid m → IsValid (apply op m)
unfolding apply Manager.add_form_cleared_listener Manager.set_form_clear_on_submit
    Accessors.set_trigger_value Manager.set_forms_with_uploads Buttons.increment_submit_button_count
    Buttons.decrement_submit_button_count
apply-IsValid (Op.add_form_cleared_listener f l) m h =
    update_form-IsValid f _ m (form_of-IsDict f m h) h
apply-IsValid (Op.set_form_clear_on_submit f b) m h =
    update_form-IsValid f _ m (form_of-IsDict f m h) h
apply-IsValid (Op.submit_form w) m h = submit_form-IsValid w m h
apply-IsValid (Op.set_trigger_value w s) m h =
    delete_widget_state-IsValid w.id _ (set_value-IsValid w _ s m h)
apply-IsValid (Op.set_value w v s) m h = set_value-IsValid w v s m h
apply-IsValid Op.send_update_widgets_message m h = send-IsValid m h
apply-IsValid (Op.remove_inactive ids) m h = remove_inactive-IsValid ids m h
apply-IsValid (Op.set_forms_with_uploads ids) m h =
    update_forms_data-IsValid _ m h.counts_distinct h
apply-IsValid (Op.increment_submit_button_count f) m h = set_submit_button_count-IsValid f _ m h
apply-IsValid (Op.decrement_submit_button_count f) m h = set_submit_button_count-IsValid f _ m h
