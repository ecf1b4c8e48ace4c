-- ===== src/Widgets/Submission.antt =====
-- Submitting a form, from its call to the state and the calls that it leaves.
use mathlib.Core.List.{append-nil, append_assoc}
use streamlit.Prelude.{
  Bool, Bool-cases, String, [], ap, false, if◌then◌else◌, inl, inr, map, none, refl, some, str_eq,
  str_ne_symm, sym, true, ◌++◌, ◌∙◌, ◌≡◌,
}
use streamlit.Prelude.Result.{ok}
use streamlit.JsMap
use streamlit.JsMap.{JsMap, has, values}
use streamlit.JsMap.Distinct.{get-set_all, or_else, set-IsDistinct}
use streamlit.JsMap.Laws.{get-delete, get-set}
use streamlit.Widgets.Values.{WidgetInfo, is_valid_form_id}
use streamlit.Widgets.StateDict
use streamlit.Widgets.Manager.{
  WidgetStateManager, delete_widget_state, emit, form_cleared, get_or_create_form_state,
  has_pending_changes, send_update_widgets_message, sync_forms_with_pending_changes,
  update_forms_data,
}
use streamlit.Widgets.Forms.{form_of}
use streamlit.Widgets.Dicts.{IsValid, form_of-IsDict}
use streamlit.Widgets.Submit.{emit_form_cleared, send_committed, submit_form}
use streamlit.Widgets.Pending.{has-pending_form_ids}
use streamlit.Widgets.Commit.{
  Submitted, clicked, commit_form-eq-committed, committed, committed-get_or_create,
  committed_states, emit_form_cleared-frame, emptied, get-set_self,
}

module _ (w : WidgetInfo) (m : WidgetStateManager) (h : IsValid m) where
  get-committed_states :
      (k : String)
      → JsMap.get k (committed_states w m) ≡ (
          if str_eq w.id k
          then some (clicked w)
          else or_else
              (JsMap.get k (form_of w.form_id m).widget_states)
              (JsMap.get k m.widget_states))
  unfolding committed_states
  get-committed_states k =
      let form = form_of w.form_id m in
      rw
        (
          get-set_all k (JsMap.set w.id (clicked w) form.widget_states) m.widget_states (
              set-IsDistinct w.id (clicked w) form.widget_states
                (form_of-IsDict w.form_id m h).distinct),
          get-set k w.id (clicked w) form.widget_states,
        )
        (elim (Bool-cases (str_eq w.id k)) [ inl same ↦ rw same | inr other_id ↦ rw other_id ])

  -- The end of a submission, before the listeners are called.
  sent_committed : WidgetStateManager
  sent_committed = send_committed w (committed w m)

  get-sent_committed :
      (k : String)
      → JsMap.get k sent_committed.widget_states ≡ (
          if str_eq w.id k
          then none
          else or_else
              (JsMap.get k (form_of w.form_id m).widget_states)
              (JsMap.get k m.widget_states))
  unfolding sent_committed send_committed delete_widget_state StateDict.delete_state
      sync_forms_with_pending_changes update_forms_data send_update_widgets_message emit committed
  get-sent_committed k =
      rw (get-delete k w.id (committed_states w m), get-committed_states k)
        (elim (Bool-cases (str_eq w.id k)) [ inl same ↦ rw same | inr other_id ↦ rw other_id ])

  not_pending-sent_committed :
      has w.form_id sent_committed.forms_data.forms_with_pending_changes ≡ false
  unfolding sent_committed send_committed delete_widget_state sync_forms_with_pending_changes
      update_forms_data send_update_widgets_message emit committed has_pending_changes
      StateDict.is_empty JsMap.is_empty
  not_pending-sent_committed =
      let form = emptied (form_of w.form_id m) in
      rw
        (
          has-pending_form_ids w.form_id (JsMap.set w.form_id form m.forms)
              (set-IsDistinct w.form_id form m.forms h.forms_distinct),
          get-set_self w.form_id form m.forms,
        )
        refl

  -- A manager that differs from it by calls of the listeners alone.
  Submitted-of_frame :
      (m' : WidgetStateManager)
      → m'.widget_states ≡ sent_committed.widget_states
      → m'.forms ≡ sent_committed.forms
      → m'.forms_data ≡ sent_committed.forms_data
      → m'.calls
        ≡ sent_committed.calls
          ++ (if (form_of w.form_id m).clear_on_submit
              then map form_cleared (form_of w.form_id m).form_cleared
              else [])
      → Submitted w m m'
  unfolding sent_committed send_committed delete_widget_state sync_forms_with_pending_changes
      update_forms_data send_update_widgets_message emit committed
      StateDict.create_widget_states_msg
  Submitted-of_frame m' states forms forms_data calls =
      let form = emptied (form_of w.form_id m) in
      let listeners =
        if (form_of w.form_id m).clear_on_submit
        then map form_cleared (form_of w.form_id m).form_cleared
        else [] in
      record {
        values = λ k. rw states (get-sent_committed k);
        form_emptied = rw forms (get-set_self w.form_id form m.forms);
        other_forms =
            λ k ne. rw (forms, get-set k w.form_id form m.forms, str_ne_symm k w.form_id ne) refl;
        not_pending = rw forms_data not_pending-sent_committed;
        message = committed_states w m;
        calls = rw forms_data (calls ∙ ap (λ cs. cs ++ listeners) (append_assoc m.calls _ _));
        message_values = get-committed_states;
      }

  listeners_told : Bool → WidgetStateManager
  listeners_told clear =
      if clear
      then emit_form_cleared (form_of w.form_id m).form_cleared sent_committed
      else sent_committed

  listeners_told-Submitted : Submitted w m (listeners_told (form_of w.form_id m).clear_on_submit)
  unfolding listeners_told
  listeners_told-Submitted = go (form_of w.form_id m).clear_on_submit refl
    where
      go :
          (clear : Bool)
          → (form_of w.form_id m).clear_on_submit ≡ clear
          → Submitted w m (listeners_told clear)
      go true e =
          let (states, forms, forms_data, calls) =
            emit_form_cleared-frame (form_of w.form_id m).form_cleared sent_committed in
          Submitted-of_frame _ states forms forms_data (rw e calls)
      go false e =
          Submitted-of_frame _ refl refl refl (rw e (sym (append-nil sent_committed.calls)))

-- Submitting a form with a valid id succeeds, and does all that `Submitted` lists: the form's
-- values are committed and sent with the click, the form is emptied and no longer listed as
-- pending, the click is taken back, and a form that clears on submit tells its listeners.
pub submit_form-Submitted :
    (w : WidgetInfo) (m : WidgetStateManager)
    → IsValid m
    → is_valid_form_id (some w.form_id) ≡ true
    → (m' : WidgetStateManager) × (submit_form w m ≡ ok m') × Submitted w m m'
submit_form-Submitted w m h ok_id = (
  listeners_told w m h (form_of w.form_id m).clear_on_submit,
  submitted,
  listeners_told-Submitted w m h,
)
  where
    submitted : submit_form w m ≡ ok (listeners_told w m h (form_of w.form_id m).clear_on_submit)
    submitted =
        let opened = (get_or_create_form_state w.form_id m).1 in
        let (same, found) = committed-get_or_create w m in
        unfold submit_form listeners_told sent_committed in
        rw (ok_id, found, commit_form-eq-committed w opened ok_id, same) refl
