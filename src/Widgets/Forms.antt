-- ===== src/Widgets/Forms.antt =====
-- What the parts of the manager's methods leave in its forms and in its other fields.
use streamlit.Prelude.{
  List, Option, String, [], ap, arith, if◌then◌else◌, none, refl, some, str_eq, ◌++◌, ◌∷◌, ◌≡◌,
}
use streamlit.JsMap
use streamlit.JsMap.{JsMap}
use streamlit.JsMap.Laws.{get-set, set-set}
use streamlit.Widgets.Values.{Source, WidgetState}
use streamlit.Widgets.Manager.{
  Call, FormState, WidgetStateManager, emit, form_cleared, forms_data_changed,
  get_or_create_form_state, new_form_state, on_widget_value_changed, send_rerun_back_msg,
  send_update_widgets_message, sync_forms_with_pending_changes, update_form, update_forms_data,
}

-- The form that `getOrCreateFormState` returns.
abbrev pub form_or_new : Option FormState → FormState
form_or_new none = new_form_state
form_or_new (some form) = form

abbrev pub form_of : String → WidgetStateManager → FormState
form_of form_id m = form_or_new (JsMap.get form_id m.forms)

pub update_form-eq-set :
    (k : String) (g : FormState → FormState) (m : WidgetStateManager)
    → update_form k g m ≡ record m { forms = JsMap.set k (g (form_of k m)) m.forms }
unfolding update_form get_or_create_form_state
update_form-eq-set k g m = ground (arith, set-set k (g new_form_state) new_form_state m.forms)

pub get-update_form :
    (j k : String) (g : FormState → FormState) (m : WidgetStateManager)
    → JsMap.get j (update_form k g m).forms
      ≡ (if str_eq k j then some (g (form_of k m)) else JsMap.get j m.forms)
unfolding update_form get_or_create_form_state
get-update_form j k g m = ground (
  arith,
  get-set j k (g new_form_state) (JsMap.set k new_form_state m.forms),
  get-set j k new_form_state m.forms,
  get-set j k (g (form_of k m)) m.forms,
)

pub update_form_frame :
    (k : String) (g : FormState → FormState) (m : WidgetStateManager)
    → ((update_form k g m).widget_states ≡ m.widget_states)
      × ((update_form k g m).forms_data ≡ m.forms_data)
      × ((update_form k g m).calls ≡ m.calls)
unfolding update_form get_or_create_form_state
update_form_frame k g m = ground arith

-- Handling a change leaves the values alone.
pub on_widget_value_changed_frame :
    (o : Option String) (s : Source) (m : WidgetStateManager)
    → ((on_widget_value_changed o s m).widget_states ≡ m.widget_states)
      × ((on_widget_value_changed o s m).forms ≡ m.forms)
unfolding on_widget_value_changed sync_forms_with_pending_changes update_forms_data
    send_update_widgets_message emit
on_widget_value_changed_frame o s m = ground arith

-- The messages to the server among the calls.
abbrev pub sent : List Call → List (List WidgetState)
sent [] = []
sent (send_rerun_back_msg msg ∷ cs) = msg ∷ sent cs
sent (forms_data_changed d ∷ cs) = sent cs
sent (form_cleared l ∷ cs) = sent cs

pub sent-append : (cs ds : List Call) → sent (cs ++ ds) ≡ sent cs ++ sent ds
sent-append [] ds = refl
sent-append (send_rerun_back_msg msg ∷ cs) ds = ap (λ r. msg ∷ r) (sent-append cs ds)
sent-append (forms_data_changed d ∷ cs) ds = sent-append cs ds
sent-append (form_cleared l ∷ cs) ds = sent-append cs ds
