-- ===== src/Widgets/Manager.antt =====
-- `FormState`, `FormsData` and `WidgetStateManager` of frontend/src/lib/WidgetStateManager.ts. A
-- method returns the new manager; the callbacks and listeners that it calls are added to `calls`,
-- the latest last.
use streamlit.Prelude.{
  ℕ, String, Bool, false, not, ◌&&◌, Option, none, some, List, [], ◌∷◌, ◌++◌, if◌then◌else◌,
}
use streamlit.JsMap
use streamlit.JsMap.{JsMap, JsSet}
use streamlit.Widgets.Values.{WidgetState, WidgetValue, WidgetInfo, Source, is_valid_form_id}
use streamlit.Widgets.StateDict
use streamlit.Widgets.StateDict.{WidgetStateDict}

-- A listener of a form's `formCleared` signal, by a number that stands for the function.
abbrev pub Listener : Type 0
Listener = ℕ

pub record FormState : Type 0 where
  pub widget_states : WidgetStateDict
  pub clear_on_submit : Bool
  pub form_cleared : List Listener

abbrev pub new_form_state : FormState
new_form_state = record { widget_states = []; clear_on_submit = false; form_cleared = [] }

unfoldable pub has_pending_changes : FormState → Bool
has_pending_changes form = not (StateDict.is_empty form.widget_states)

pub record FormsData : Type 0 where
  pub forms_with_pending_changes : JsSet
  pub forms_with_uploads : JsSet
  pub submit_button_count : JsMap ℕ

unfoldable pub create_forms_data : FormsData
create_forms_data = record {
  forms_with_pending_changes = [];
  forms_with_uploads = [];
  submit_button_count = [];
}

-- A call that leaves the manager: the two callbacks of its props, and a form's listeners.
pub data Call : Type 0 where
  send_rerun_back_msg : List WidgetState → Call
  forms_data_changed : FormsData → Call
  form_cleared : Listener → Call

pub record WidgetStateManager : Type 0 where
  pub widget_states : WidgetStateDict
  pub forms : JsMap FormState
  pub forms_data : FormsData
  pub calls : List Call

unfoldable pub new_manager : WidgetStateManager
new_manager = record { widget_states = []; forms = []; forms_data = create_forms_data; calls = [] }

unfoldable pub emit : Call → WidgetStateManager → WidgetStateManager
emit c m = record m { calls = m.calls ++ (c ∷ []) }

unfoldable pub get_or_create_form_state :
    String → WidgetStateManager → FormState × WidgetStateManager
get_or_create_form_state form_id m = elim (JsMap.get form_id m.forms) [
  | some form ↦ (form, m)
  | none ↦ (new_form_state, record m { forms = JsMap.set form_id new_form_state m.forms })
]

-- A change of the object that `getOrCreateFormState` returns.
unfoldable pub update_form :
    String → (FormState → FormState) → WidgetStateManager → WidgetStateManager
update_form form_id change m =
    let (form, m') = get_or_create_form_state form_id m in
    record m' { forms = JsMap.set form_id (change form) m'.forms }

unfoldable pub add_form_cleared_listener :
    String → Listener → WidgetStateManager → WidgetStateManager
add_form_cleared_listener form_id listener m =
    update_form form_id
      (λ form. record form { form_cleared = form.form_cleared ++ (listener ∷ []) }) m

unfoldable pub set_form_clear_on_submit : String → Bool → WidgetStateManager → WidgetStateManager
set_form_clear_on_submit form_id clear m =
    update_form form_id (λ form. record form { clear_on_submit = clear }) m

-- A recipe that assigns to the draft makes a new `FormsData`, so that the callback is called; one
-- that changes nothing (`none`) does not.
unfoldable pub update_forms_data : Option FormsData → WidgetStateManager → WidgetStateManager
update_forms_data none m = m
update_forms_data (some new_data) m =
    emit (forms_data_changed new_data) (record m { forms_data = new_data })

-- The ids of the forms with pending changes, collected by `forms.forEach`.
unfoldable pub pending_form_ids : JsMap FormState → JsSet
pending_form_ids [] = []
pending_form_ids ((form_id, form) ∷ forms) =
    let rest = pending_form_ids forms in if has_pending_changes form then form_id ∷ rest else rest

unfoldable pub sync_forms_with_pending_changes : WidgetStateManager → WidgetStateManager
sync_forms_with_pending_changes m =
    update_forms_data
      (some (record m.forms_data { forms_with_pending_changes = pending_form_ids m.forms })) m

unfoldable pub send_update_widgets_message : WidgetStateManager → WidgetStateManager
send_update_widgets_message m =
    emit (send_rerun_back_msg (StateDict.create_widget_states_msg m.widget_states)) m

unfoldable pub on_widget_value_changed :
    Option String → Source → WidgetStateManager → WidgetStateManager
on_widget_value_changed form_id source m =
    if is_valid_form_id form_id
    then sync_forms_with_pending_changes m
    else if source.from_ui
    then send_update_widgets_message m
    else m

-- `createWidgetState`, and the assignment of a value to the state that it returns.
unfoldable pub create_widget_state :
    WidgetInfo → Source → Option WidgetValue → WidgetStateManager → WidgetStateManager
create_widget_state widget source v m =
    if is_valid_form_id (some widget.form_id) && source.from_ui
    then update_form widget.form_id
        (λ form. record form {
          widget_states = StateDict.create_state widget.id v form.widget_states;
        })
        m
    else record m { widget_states = StateDict.create_state widget.id v m.widget_states }

-- `this.forms.get(formId)?.widgetStates.getState(id)`
unfoldable pub get_form_widget_state : WidgetInfo → WidgetStateManager → Option WidgetState
get_form_widget_state widget m = elim (JsMap.get widget.form_id m.forms) [
  | none ↦ none
  | some form ↦ StateDict.get_state widget.id form.widget_states
]

unfoldable pub get_widget_state : WidgetInfo → WidgetStateManager → Option WidgetState
get_widget_state widget m =
    if is_valid_form_id (some widget.form_id)
    then (elim (get_form_widget_state widget m) [
      | some state ↦ some state
      | none ↦ StateDict.get_state widget.id m.widget_states
    ])
    else StateDict.get_state widget.id m.widget_states

unfoldable pub delete_widget_state : String → WidgetStateManager → WidgetStateManager
delete_widget_state widget_id m = record m {
  widget_states = StateDict.delete_state widget_id m.widget_states;
}

-- `this.forms.forEach(form => form.widgetStates.removeInactive(activeIds))`
unfoldable pub remove_inactive_in_forms : JsSet → JsMap FormState → JsMap FormState
remove_inactive_in_forms active_ids [] = []
remove_inactive_in_forms active_ids ((form_id, form) ∷ forms) =
    (
      form_id,
      record form { widget_states = StateDict.remove_inactive active_ids form.widget_states },
    )
    ∷ remove_inactive_in_forms active_ids forms

unfoldable pub remove_inactive : JsSet → WidgetStateManager → WidgetStateManager
remove_inactive active_ids m = record m {
  widget_states = StateDict.remove_inactive active_ids m.widget_states;
  forms = remove_inactive_in_forms active_ids m.forms;
}

-- The argument is a new `Set`, as the only caller passes it.
unfoldable pub set_forms_with_uploads : JsSet → WidgetStateManager → WidgetStateManager
set_forms_with_uploads ids m =
    update_forms_data (some (record m.forms_data { forms_with_uploads = ids })) m

unfoldable pub get_submit_button_count : FormsData → String → ℕ
get_submit_button_count d form_id = elim (JsMap.get form_id d.submit_button_count) [
  | some count ↦ count
  | none ↦ 0
]
