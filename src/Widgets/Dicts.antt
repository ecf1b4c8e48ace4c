-- ===== src/Widgets/Dicts.antt =====
-- Dictionaries of states filed under their own ids, and the manager that is made of them.
use streamlit.Prelude.{Option, Option-cases, String, [], inl, inr, none, refl, some, ◌≡◌}
use streamlit.JsMap
use streamlit.JsMap.{JsMap, JsSet, has}
use streamlit.JsMap.Distinct.{
  IsDistinct, delete-IsDistinct, retain-IsDistinct, set-IsDistinct, set_all-IsDistinct,
}
use streamlit.JsMap.Each.{Each, delete-Each, get-Each, retain-Each, set-Each, set_all-Each}
use streamlit.Widgets.Values.{WidgetState, WidgetValue}
use streamlit.Widgets.StateDict
use streamlit.Widgets.StateDict.{WidgetStateDict}
use streamlit.Widgets.Manager.{
  Call, FormState, FormsData, WidgetStateManager, emit, forms_data_changed,
  get_or_create_form_state, new_form_state, update_form, update_forms_data,
}
use streamlit.Widgets.Forms.{form_of, form_or_new}

-- A state is filed under its own id.
abbrev pub HasId : String → WidgetState → Type 0
HasId k state = state.id ≡ k

pub record IsDict (d : WidgetStateDict) : Type 0 where
  pub distinct : IsDistinct d
  pub ids : Each HasId d

abbrev pub FormIsDict : String → FormState → Type 0
FormIsDict form_id form = IsDict form.widget_states

pub record IsValid (m : WidgetStateManager) : Type 0 where
  pub states : IsDict m.widget_states
  pub forms_distinct : IsDistinct m.forms
  pub form_states : Each FormIsDict m.forms
  pub counts_distinct : IsDistinct m.forms_data.submit_button_count

pub IsDict-empty : IsDict []
IsDict-empty = record { distinct = tt; ids = tt }

pub create_state-IsDict :
    (k : String) (v : Option WidgetValue) (d : WidgetStateDict)
    → IsDict d
    → IsDict (StateDict.create_state k v d)
unfolding StateDict.create_state
create_state-IsDict k v d h = record {
  distinct = set-IsDistinct k (record { id = k; value = v }) d h.distinct;
  ids = set-Each HasId k (record { id = k; value = v }) d refl h.ids;
}

pub delete_state-IsDict :
    (k : String) (d : WidgetStateDict) → IsDict d → IsDict (StateDict.delete_state k d)
unfolding StateDict.delete_state
delete_state-IsDict k d h = record {
  distinct = delete-IsDistinct k d h.distinct;
  ids = delete-Each HasId k d h.ids;
}

pub remove_inactive-IsDict :
    (active : JsSet) (d : WidgetStateDict) → IsDict d → IsDict (StateDict.remove_inactive active d)
unfolding StateDict.remove_inactive
remove_inactive-IsDict active d h = record {
  distinct = retain-IsDistinct (λ k _. has k active) d h.distinct;
  ids = retain-Each HasId (λ k _. has k active) d h.ids;
}

pub copy_from-IsDict :
    (from d : WidgetStateDict) → IsDict from → IsDict d → IsDict (StateDict.copy_from from d)
unfolding StateDict.copy_from
copy_from-IsDict from d ho h = record {
  distinct = set_all-IsDistinct from d h.distinct;
  ids = set_all-Each HasId from d ho.ids h.ids;
}

pub form_or_new-IsDict :
    (k : String) (m : WidgetStateManager) (o : Option FormState)
    → Each FormIsDict m.forms
    → JsMap.get k m.forms ≡ o
    → IsDict (form_or_new o).widget_states
form_or_new-IsDict k m none h e = IsDict-empty
form_or_new-IsDict k m (some form) h e = get-Each FormIsDict k m.forms h e

pub form_of-IsDict :
    (k : String) (m : WidgetStateManager) → IsValid m → IsDict (form_of k m).widget_states
form_of-IsDict k m h = form_or_new-IsDict k m (JsMap.get k m.forms) h.form_states refl

-- Putting a form in the map.
pub set_form-IsValid :
    (k : String) (form : FormState) (m : WidgetStateManager)
    → IsDict form.widget_states
    → IsValid m
    → IsValid (record m { forms = JsMap.set k form m.forms })
set_form-IsValid k form m d h = record {
  states = h.states;
  forms_distinct = set-IsDistinct k form m.forms h.forms_distinct;
  form_states = set-Each FormIsDict k form m.forms d h.form_states;
  counts_distinct = h.counts_distinct;
}

pub get_or_create-IsValid :
    (k : String) (m : WidgetStateManager)
    → IsValid m
    → IsValid (get_or_create_form_state k m).1 × ((get_or_create_form_state k m).0 ≡ form_of k m)
unfolding get_or_create_form_state
get_or_create-IsValid k m h = elim (Option-cases (JsMap.get k m.forms)) [
  | inl absent ↦
      rw (absent, get_or_create_form_state)
        (set_form-IsValid k new_form_state m IsDict-empty h, refl)
  | inr (form, e) ↦ rw (e, get_or_create_form_state) (h, refl)
]

-- Changing one form to one whose states are a dictionary.
pub update_form-IsValid :
    (k : String) (g : FormState → FormState) (m : WidgetStateManager)
    → IsDict (g (form_of k m)).widget_states
    → IsValid m
    → IsValid (update_form k g m)
unfolding update_form
update_form-IsValid k g m d h =
    let (valid, same) = get_or_create-IsValid k m h in
    set_form-IsValid k (g (get_or_create_form_state k m).0) (get_or_create_form_state k m).1
      (rw same d) valid

-- Changing the top-level states to a dictionary.
pub set_states-IsValid :
    (d : WidgetStateDict) (m : WidgetStateManager)
    → IsDict d
    → IsValid m
    → IsValid (record m { widget_states = d })
set_states-IsValid d m hd h = record {
  states = hd;
  forms_distinct = h.forms_distinct;
  form_states = h.form_states;
  counts_distinct = h.counts_distinct;
}

-- The invariant does not read the calls.
pub emit-IsValid : (c : Call) (m : WidgetStateManager) → IsValid m → IsValid (emit c m)
unfolding emit
emit-IsValid c m h = record {
  states = h.states;
  forms_distinct = h.forms_distinct;
  form_states = h.form_states;
  counts_distinct = h.counts_distinct;
}

pub update_forms_data-IsValid :
    (d : FormsData) (m : WidgetStateManager)
    → IsDistinct d.submit_button_count
    → IsValid m
    → IsValid (update_forms_data (some d) m)
unfolding update_forms_data
update_forms_data-IsValid d m counts h =
    emit-IsValid (forms_data_changed d) (record m { forms_data = d })
      (record {
        states = h.states;
        forms_distinct = h.forms_distinct;
        form_states = h.form_states;
        counts_distinct = counts;
      })
