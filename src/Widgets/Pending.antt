-- ===== src/Widgets/Pending.antt =====
-- `formsData.formsWithPendingChanges` against the forms themselves.
use mathlib.Core.Option
use streamlit.Prelude.{
  Bool-cases, List, Option, String, [], ap, arith, eq_iff, false, if_both, inl, inr, none, not,
  refl, some, str_eq, sym, true, ◌∙◌, ◌∷◌, ◌≡◌,
}
use streamlit.Prelude.Int.{negsuc, pos, ℤ}
use streamlit.JsMap
use streamlit.JsMap.{JsMap, JsSet, has}
use streamlit.JsMap.Distinct.{IsDistinct}
use streamlit.Widgets.Values.{Source, WidgetInfo, WidgetValue, is_valid_form_id}
use streamlit.Widgets.StateDict
use streamlit.Widgets.Manager
use streamlit.Widgets.Manager.{
  FormState, Listener, WidgetStateManager, create_widget_state, delete_widget_state, emit,
  form_cleared, has_pending_changes, new_form_state, on_widget_value_changed, pending_form_ids,
  remove_inactive_in_forms, send_update_widgets_message, sync_forms_with_pending_changes,
  update_form, update_forms_data,
}
use streamlit.Widgets.Forms.{form_of, form_or_new, update_form-eq-set}
use streamlit.Widgets.Accessors
use streamlit.Widgets.Accessors.{set_value}
use streamlit.Widgets.Submit.{emit_form_cleared, send_committed, submit_form}
use streamlit.Widgets.Buttons
use streamlit.Widgets.Buttons.{set_submit_button_count, with_submit_button_count}
use streamlit.Widgets.Ops.{Op, apply, or_same}

-- The public set of pending forms is the set of the forms with pending changes.
abbrev pub IsSynced : WidgetStateManager → Type 0
IsSynced m = m.forms_data.forms_with_pending_changes ≡ pending_form_ids m.forms

-- The forms that the set names, under distinct ids.
pub has-pending_form_ids :
    (k : String) (forms : JsMap FormState)
    → IsDistinct forms
    → has k (pending_form_ids forms) ≡ has_pending_changes (form_or_new (JsMap.get k forms))
unfolding has pending_form_ids JsMap.get has_pending_changes StateDict.is_empty JsMap.is_empty
has-pending_form_ids k [] h = refl
has-pending_form_ids k ((j, form) ∷ forms) h =
    ground (arith, has-pending_form_ids k forms h.1, eq_iff j k)

-- Putting a form back with as many pending changes changes nothing.
pending_form_ids-set :
    (k : String) (form form' : FormState) (forms : JsMap FormState)
    → JsMap.get k forms ≡ some form
    → has_pending_changes form' ≡ has_pending_changes form
    → pending_form_ids (JsMap.set k form' forms) ≡ pending_form_ids forms
unfolding pending_form_ids JsMap.get JsMap.set
pending_form_ids-set k form form' [] e p = cc
pending_form_ids-set k form form' ((j, f) ∷ forms) e p =
    ground (arith, pending_form_ids-set k form form' forms)

pending_form_ids-set_new :
    (k : String) (form : FormState) (forms : JsMap FormState)
    → JsMap.get k forms ≡ none
    → has_pending_changes form ≡ false
    → pending_form_ids (JsMap.set k form forms) ≡ pending_form_ids forms
unfolding pending_form_ids JsMap.get JsMap.set
pending_form_ids-set_new k form [] e p = ground arith
pending_form_ids-set_new k form ((j, f) ∷ forms) e p =
    ground (arith, pending_form_ids-set_new k form forms)

new_form-pending : has_pending_changes new_form_state ≡ false
unfolding has_pending_changes StateDict.is_empty JsMap.is_empty
new_form-pending = refl

-- A change of a form's flag or listeners.
update_form-IsSynced :
    (k : String) (g : FormState → FormState) (m : WidgetStateManager)
    → ((form : FormState) → (g form).widget_states ≡ form.widget_states)
    → IsSynced m
    → IsSynced (update_form k g m)
update_form-IsSynced k g m same h =
    rw (update_form-eq-set k g m) (h ∙ sym (kept (JsMap.get k m.forms) refl))
  where
    pending_same : (form : FormState) → has_pending_changes (g form) ≡ has_pending_changes form
    pending_same form =
        unfold has_pending_changes in ap (λ d. not (StateDict.is_empty d)) (same form)

    kept :
        (o : Option FormState)
        → JsMap.get k m.forms ≡ o
        → pending_form_ids (JsMap.set k (g (form_or_new o)) m.forms) ≡ pending_form_ids m.forms
    kept none e =
        pending_form_ids-set_new k (g new_form_state) m.forms e
          (pending_same new_form_state ∙ new_form-pending)
    kept (some form) e = pending_form_ids-set k form (g form) m.forms e (pending_same form)

sync-IsSynced : (m : WidgetStateManager) → IsSynced (sync_forms_with_pending_changes m)
unfolding sync_forms_with_pending_changes update_forms_data emit
sync-IsSynced m = refl

emit_form_cleared-IsSynced :
    (ls : List Listener) (m : WidgetStateManager) → IsSynced m → IsSynced (emit_form_cleared ls m)
unfolding emit_form_cleared emit
emit_form_cleared-IsSynced [] m h = h
emit_form_cleared-IsSynced (l ∷ ls) m h = emit_form_cleared-IsSynced ls (emit (form_cleared l) m) h

set_value-IsSynced :
    (w : WidgetInfo) (v : Option WidgetValue) (s : Source) (m : WidgetStateManager)
    → IsSynced m
    → IsSynced (set_value w v s m)
unfolding set_value on_widget_value_changed create_widget_state send_update_widgets_message emit
set_value-IsSynced w v s m h = elim (Bool-cases (is_valid_form_id (some w.form_id))) [
  | inl in_form ↦ rw in_form (sync-IsSynced _)
  | inr no_form ↦ rw no_form (if_both IsSynced s.from_ui h h)
]

set_submit_button_count-IsSynced :
    (k : String) (z : ℤ) (m : WidgetStateManager)
    → IsSynced m
    → IsSynced (or_same (set_submit_button_count k z m) m)
unfolding set_submit_button_count with_submit_button_count update_forms_data emit
set_submit_button_count-IsSynced k (pos n) m h = h
set_submit_button_count-IsSynced k (negsuc n) m h = h

submit_form-IsSynced :
    (w : WidgetInfo) (m : WidgetStateManager) → IsSynced m → IsSynced (or_same (submit_form w m) m)
unfolding submit_form send_committed delete_widget_state
submit_form-IsSynced w m h = elim (Bool-cases (is_valid_form_id (some w.form_id))) [
  | inl ok_id ↦
      rw ok_id
        (if_both IsSynced _ (emit_form_cleared-IsSynced _ _ (sync-IsSynced _)) (sync-IsSynced _))
  | inr bad_id ↦ rw bad_id h
]

-- All calls but `removeInactive`.
abbrev pub KeepsForms : Op → Type 0
KeepsForms (Op.remove_inactive ids) = ⊥
KeepsForms _ = Unit

-- Every public method but `removeInactive` leaves `formsData.formsWithPendingChanges` equal to the
-- set of the forms with pending changes, if it was.
pub apply-IsSynced :
    (op : Op) (m : WidgetStateManager) → KeepsForms op → IsSynced m → IsSynced (apply op m)
unfolding apply Manager.add_form_cleared_listener Manager.set_form_clear_on_submit
    Accessors.set_trigger_value delete_widget_state Manager.send_update_widgets_message emit
    Manager.set_forms_with_uploads update_forms_data Buttons.increment_submit_button_count
    Buttons.decrement_submit_button_count
apply-IsSynced (Op.add_form_cleared_listener f l) m k h =
    update_form-IsSynced f _ m (λ form. refl) h
apply-IsSynced (Op.set_form_clear_on_submit f b) m k h = update_form-IsSynced f _ m (λ form. refl) h
apply-IsSynced (Op.submit_form w) m k h = submit_form-IsSynced w m h
apply-IsSynced (Op.set_trigger_value w s) m k h = set_value-IsSynced w _ s m h
apply-IsSynced (Op.set_value w v s) m k h = set_value-IsSynced w v s m h
apply-IsSynced Op.send_update_widgets_message m k h = h
apply-IsSynced (Op.remove_inactive ids) m k h = elim k [ ]
apply-IsSynced (Op.set_forms_with_uploads ids) m k h = h
apply-IsSynced (Op.increment_submit_button_count f) m k h = set_submit_button_count-IsSynced f _ m h
apply-IsSynced (Op.decrement_submit_button_count f) m k h = set_submit_button_count-IsSynced f _ m h

-- The form that is left under an id.
abbrev pub pruned : JsSet → FormState → FormState
pruned ids form = record form { widget_states = StateDict.remove_inactive ids form.widget_states }

pub get-remove_inactive_in_forms :
    (k : String) (ids : JsSet) (forms : JsMap FormState)
    → JsMap.get k (remove_inactive_in_forms ids forms) ≡ Option.map (pruned ids) (JsMap.get k forms)
unfolding remove_inactive_in_forms JsMap.get
get-remove_inactive_in_forms k ids [] = refl
get-remove_inactive_in_forms k ids ((j, f) ∷ forms) = elim (Bool-cases (str_eq j k)) [
  | inl same ↦ rw same
  | inr different ↦ rw different (get-remove_inactive_in_forms k ids forms)
]

-- When `removeInactive` removes the last pending value of a form that is listed as pending, the
-- form stays listed although it has no pending changes.
pub remove_inactive_leaves_pending :
    (k : String) (ids : JsSet) (m : WidgetStateManager) {form : FormState}
    → IsDistinct m.forms
    → IsSynced m
    → JsMap.get k m.forms ≡ some form
    → has_pending_changes form ≡ true
    → StateDict.remove_inactive ids form.widget_states ≡ []
    → let m' = Manager.remove_inactive ids m in
      (has k m'.forms_data.forms_with_pending_changes ≡ true)
      × (has_pending_changes (form_of k m') ≡ false)
unfolding Manager.remove_inactive has_pending_changes StateDict.is_empty JsMap.is_empty
remove_inactive_leaves_pending k ids m {form} distinct synced found pending gone = (
  rw (synced, has-pending_form_ids k m.forms distinct, found) pending,
  rw (get-remove_inactive_in_forms k ids m.forms, found, gone) refl,
)
