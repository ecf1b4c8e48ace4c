-- ===== src/Widgets/Tests.antt =====
-- Runs of the widget manager, and the theorems at inputs that meet their hypotheses.
use streamlit.Prelude.{[], false, inl, none, refl, some, true, ◌∷◌, ◌≡◌}
use streamlit.Prelude.Result.{ok}
use streamlit.Prelude.Int.{pos}
use streamlit.JsMap
use streamlit.JsMap.{JsMap, has}
use streamlit.Widgets.Values.{
  Source, WidgetInfo, int, int_value, is_valid_form_id, number, require_number_int, trigger_value,
}
use streamlit.Widgets.StateDict
use streamlit.Widgets.Manager
use streamlit.Widgets.Manager.{
  FormState, WidgetStateManager, add_form_cleared_listener, create_forms_data, create_widget_state,
  delete_widget_state, emit, form_cleared, get_form_widget_state, get_or_create_form_state,
  get_widget_state, has_pending_changes, new_manager, on_widget_value_changed, pending_form_ids,
  send_update_widgets_message, set_form_clear_on_submit, sync_forms_with_pending_changes,
  update_form, update_forms_data,
}
use streamlit.Widgets.Forms.{form_of, sent}
use streamlit.Widgets.Dicts.{IsValid}
use streamlit.Widgets.Accessors.{
  get_bool_value, get_int_value, get_value, set_bool_value, set_value,
}
use streamlit.Widgets.Submit.{
  clear_form_values, commit_form, copy_form_values, emit_form_cleared, send_committed, submit_form,
}
use streamlit.Widgets.Ops.{Op, apply, or_same}
use streamlit.Widgets.RoundTrip.{getters-setters}
use streamlit.Widgets.Valid.{apply-IsValid}
use streamlit.Widgets.Pending.{IsSynced, apply-IsSynced, remove_inactive_leaves_pending}
use streamlit.Widgets.Sending.{set_value_in_form_stays}
use streamlit.Widgets.Commit.{Submitted}
use streamlit.Widgets.Submission.{submit_form-Submitted}

abbrev user : Source
user = record { from_ui = true }

abbrev slider : WidgetInfo
slider = record { id = "slider"; form_id = "form" }

abbrev checkbox : WidgetInfo
checkbox = record { id = "checkbox"; form_id = "" }

abbrev button : WidgetInfo
button = record { id = "button"; form_id = "form" }

abbrev listening : WidgetStateManager
listening =
    apply (Op.set_form_clear_on_submit "form" true)
      (apply (Op.add_form_cleared_listener "form" 7) new_manager)

-- A slider in a form has a pending value.
abbrev filled : WidgetStateManager
filled = apply (Op.set_value slider (some (int_value (number (int (pos 5))))) user) listening

listening-IsValid : IsValid listening
unfolding new_manager create_forms_data
listening-IsValid = apply-IsValid (Op.set_form_clear_on_submit "form" true) _ (
    apply-IsValid (Op.add_form_cleared_listener "form" 7) new_manager (record {
      states = record { distinct = tt; ids = tt };
      forms_distinct = tt;
      form_states = tt;
      counts_distinct = tt;
    }))

filled-IsValid : IsValid filled
filled-IsValid =
    apply-IsValid (Op.set_value slider (some (int_value (number (int (pos 5))))) user) listening
      listening-IsValid

form_id-valid : is_valid_form_id (some "form") ≡ true
unfolding is_valid_form_id
form_id-valid = refl

no_form_id : is_valid_form_id (some "") ≡ false
unfolding is_valid_form_id
no_form_id = refl

-- The calls of a submission, in order.
submit-runs :
    (sent (or_same (submit_form button filled) filled).calls
      ≡ (record { id = "slider"; value = some (int_value (number (int (pos 5)))) }
          ∷ record { id = "button"; value = some (trigger_value true) }
          ∷ [])
        ∷ [])
    × (get_int_value (λ l. int (pos 0)) slider (or_same (submit_form button filled) filled)
        ≡ ok (some (int (pos 5))))
unfolding submit_form send_committed commit_form copy_form_values clear_form_values
    emit_form_cleared apply set_value create_widget_state on_widget_value_changed
    sync_forms_with_pending_changes update_forms_data emit update_form get_or_create_form_state
    add_form_cleared_listener set_form_clear_on_submit new_manager create_forms_data
    is_valid_form_id pending_form_ids send_update_widgets_message delete_widget_state get_int_value
    get_value get_widget_state get_form_widget_state require_number_int StateDict.create_state
    StateDict.get_state StateDict.copy_from StateDict.delete_state
    StateDict.create_widget_states_msg has_pending_changes StateDict.is_empty JsMap.get JsMap.set
    JsMap.set_all JsMap.delete JsMap.values JsMap.is_empty
submit-runs = (refl, refl)

getters-setters_example : get_bool_value slider (set_bool_value slider true user filled) ≡ some true
getters-setters_example =
    (getters-setters slider user filled (inl refl) (λ l. int (pos 0)) true (int (pos 1)) "s" [] []
      (record { table_data = []; index = []; columns = []; styler = none }) [] some "s" refl).0

abbrev start : WidgetStateManager
start = record {
  widget_states = [];
  forms = [];
  forms_data = record {
    forms_with_pending_changes = [];
    forms_with_uploads = [];
    submit_button_count = [];
  };
  calls = [];
}

apply-IsSynced_example : IsSynced (apply (Op.set_value slider none user) start)
apply-IsSynced_example =
    apply-IsSynced (Op.set_value slider none user) start tt (unfold pending_form_ids in refl)

-- One form with the value of one widget, which is listed as pending.
abbrev one_pending : FormState
one_pending = record {
  widget_states = ("slider", record { id = "slider"; value = none }) ∷ [];
  clear_on_submit = false;
  form_cleared = [];
}

abbrev pending_form : WidgetStateManager
pending_form = record start {
  forms = ("form", one_pending) ∷ [];
  forms_data = record {
    forms_with_pending_changes = "form" ∷ [];
    forms_with_uploads = [];
    submit_button_count = [];
  };
}

remove_inactive_leaves_pending_example :
    let m' = Manager.remove_inactive [] pending_form in
    (has "form" m'.forms_data.forms_with_pending_changes ≡ true)
    × (has_pending_changes (form_of "form" m') ≡ false)
unfolding pending_form_ids JsMap.get has_pending_changes StateDict.is_empty JsMap.is_empty
    StateDict.remove_inactive JsMap.retain has
remove_inactive_leaves_pending_example =
    remove_inactive_leaves_pending "form" [] pending_form {form = one_pending} (refl, tt) refl refl
      refl refl

set_value_in_form_stays_example :
    let m' = set_value slider none user filled in
    (sent m'.calls ≡ sent filled.calls)
    × (m'.widget_states ≡ filled.widget_states)
    × (get_form_widget_state slider m' ≡ some (record { id = "slider"; value = none }))
set_value_in_form_stays_example = set_value_in_form_stays slider none user filled form_id-valid refl

submit_form-Submitted_example :
    (m' : WidgetStateManager) × (submit_form button filled ≡ ok m') × Submitted button filled m'
submit_form-Submitted_example = submit_form-Submitted button filled filled-IsValid form_id-valid
