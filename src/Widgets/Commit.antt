-- ===== src/Widgets/Commit.antt =====
-- What submitting a form does to the values, the forms and the calls.
use mathlib.Core.List.{append-nil, append_assoc}
use streamlit.Prelude.{
  List, String, [], arith, eq_refl, false, if◌then◌else◌, map, none, refl, some, str_eq, sym, true,
  ◌++◌, ◌∙◌, ◌∷◌, ◌≡◌, ◌≢◌,
}
use streamlit.JsMap
use streamlit.JsMap.{JsMap, has}
use streamlit.JsMap.Distinct.{or_else}
use streamlit.JsMap.Laws.{get-set, set-set}
use streamlit.Widgets.Values.{WidgetInfo, WidgetState, is_valid_form_id, trigger_value}
use streamlit.Widgets.StateDict
use streamlit.Widgets.StateDict.{WidgetStateDict}
use streamlit.Widgets.Manager.{
  FormState, Listener, WidgetStateManager, create_widget_state, emit, form_cleared,
  forms_data_changed, get_or_create_form_state, new_form_state, send_rerun_back_msg, update_form,
}
use streamlit.Widgets.Forms.{form_of, update_form-eq-set}
use streamlit.Widgets.Submit.{
  clear_form_values, commit_form, copy_form_values, emit_form_cleared, from_ui_source,
}

-- The state of a button that was clicked.
abbrev pub clicked : WidgetInfo → WidgetState
clicked w = record { id = w.id; value = some (trigger_value true) }

-- The form's values with the click, over the values outside forms.
unfoldable pub committed_states : WidgetInfo → WidgetStateManager → WidgetStateDict
committed_states w m =
    JsMap.set_all (JsMap.set w.id (clicked w) (form_of w.form_id m).widget_states) m.widget_states

abbrev pub emptied : FormState → FormState
emptied form = record form { widget_states = [] }

unfoldable pub committed : WidgetInfo → WidgetStateManager → WidgetStateManager
committed w m = record m {
  widget_states = committed_states w m;
  forms = JsMap.set w.form_id (emptied (form_of w.form_id m)) m.forms;
}

module _ (k : String) (m : WidgetStateManager) {form : FormState}
    (present : JsMap.get k m.forms ≡ some form) where
  update_form-present :
      (g : FormState → FormState)
      → update_form k g m ≡ record m { forms = JsMap.set k (g form) m.forms }
  update_form-present g = rw (update_form-eq-set k g m, present)

  copy_form_values-present :
      copy_form_values k m
      ≡ record m { widget_states = JsMap.set_all form.widget_states m.widget_states }
  unfolding copy_form_values get_or_create_form_state StateDict.copy_from
  copy_form_values-present = ground arith

pub get-set_self :
    (k : String) (form : FormState) (forms : JsMap FormState)
    → JsMap.get k (JsMap.set k form forms) ≡ some form
get-set_self k form forms = simp (get-set, eq_refl)

create-clicked :
    (w : WidgetInfo) (m : WidgetStateManager)
    → is_valid_form_id (some w.form_id) ≡ true
    → create_widget_state w from_ui_source (some (trigger_value true)) m
      ≡ update_form w.form_id
          (λ form. record form { widget_states = JsMap.set w.id (clicked w) form.widget_states })
          m
unfolding create_widget_state StateDict.create_state
create-clicked w m ok_id = rw ok_id

pub commit_form-eq-committed :
    (w : WidgetInfo) (m : WidgetStateManager)
    → is_valid_form_id (some w.form_id) ≡ true
    → commit_form w m ≡ committed w m
unfolding commit_form committed committed_states clear_form_values
commit_form-eq-committed w m ok_id =
    let k = w.form_id in
    let form = form_of k m in
    let filled = record form { widget_states = JsMap.set w.id (clicked w) form.widget_states } in
    let m₁ = record m { forms = JsMap.set k filled m.forms } in
    let m₂ = record m₁ { widget_states = JsMap.set_all filled.widget_states m.widget_states } in
    rw (
      create-clicked w m ok_id,
      update_form-eq-set k _ m,
      copy_form_values-present k m₁ (get-set_self k filled m.forms),
      update_form-present k m₂ (get-set_self k filled m.forms) _,
      set-set k (emptied filled) filled m.forms,
    )

-- Creating the form first makes no difference.
pub committed-get_or_create :
    (w : WidgetInfo) (m : WidgetStateManager)
    → (committed w (get_or_create_form_state w.form_id m).1 ≡ committed w m)
      × ((get_or_create_form_state w.form_id m).0 ≡ form_of w.form_id m)
unfolding committed committed_states get_or_create_form_state
committed-get_or_create w m = ground (
  arith,
  get-set_self w.form_id new_form_state m.forms,
  set-set w.form_id (emptied new_form_state) new_form_state m.forms,
)

pub emit_form_cleared-frame :
    (ls : List Listener) (m : WidgetStateManager)
    → ((emit_form_cleared ls m).widget_states ≡ m.widget_states)
      × ((emit_form_cleared ls m).forms ≡ m.forms)
      × ((emit_form_cleared ls m).forms_data ≡ m.forms_data)
      × ((emit_form_cleared ls m).calls ≡ m.calls ++ map form_cleared ls)
unfolding emit_form_cleared emit
emit_form_cleared-frame [] m = (refl, refl, refl, sym (append-nil m.calls))
emit_form_cleared-frame (l ∷ ls) m =
    let (states, forms, forms_data, calls) = emit_form_cleared-frame ls (emit (form_cleared l) m) in
    (
      states,
      forms,
      forms_data,
      calls ∙ append_assoc m.calls (form_cleared l ∷ []) (map form_cleared ls),
    )

-- The manager after a submission, against the one from before.
pub record Submitted (w : WidgetInfo) (m m' : WidgetStateManager) : Type 0 where
  -- Outside forms, the button has no value, and every other widget has its value of the form, if
  -- the form had one, and its old value if not.
  pub values :
      (k : String)
      → JsMap.get k m'.widget_states ≡ (
          if str_eq w.id k
          then none
          else or_else
              (JsMap.get k (form_of w.form_id m).widget_states)
              (JsMap.get k m.widget_states))
  -- The form has no pending values, and keeps its flag and its listeners.
  pub form_emptied :
      JsMap.get w.form_id m'.forms ≡ some (record (form_of w.form_id m) { widget_states = [] })
  pub other_forms : (k : String) → k ≢ w.form_id → JsMap.get k m'.forms ≡ JsMap.get k m.forms
  pub not_pending : has w.form_id m'.forms_data.forms_with_pending_changes ≡ false
  -- One message went to the server, then the new `FormsData` to its callback, then, if the form is
  -- to be cleared, its listeners were called in order.
  pub message : WidgetStateDict
  pub calls :
      m'.calls
      ≡ (m.calls
          ++ send_rerun_back_msg (JsMap.values message) ∷ forms_data_changed m'.forms_data ∷ [])
        ++ (if (form_of w.form_id m).clear_on_submit
            then map form_cleared (form_of w.form_id m).form_cleared
            else [])
  -- In the message the button is clicked.
  pub message_values :
      (k : String)
      → JsMap.get k message ≡ (
          if str_eq w.id k
          then some (clicked w)
          else or_else
              (JsMap.get k (form_of w.form_id m).widget_states)
              (JsMap.get k m.widget_states))
