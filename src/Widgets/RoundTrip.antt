-- ===== src/Widgets/RoundTrip.antt =====
-- A value that a setter stores is what the getter of its kind returns, and nothing else changes.
use mathlib.Core.Option
use streamlit.Prelude.{
  Bool, List, Option, String, [], arith, eq_iff, eq_refl, false, map, none, refl, some, true, ℕ,
  ◌∷◌, ◌≡◌, ◌≢◌, ◌⊎◌,
}
use streamlit.Prelude.Result.{ok, ◌>>=◌}
use streamlit.JsMap
use streamlit.JsMap.{JsMap}
use streamlit.JsMap.Laws.{get-set}
use streamlit.Widgets.Values.{
  ArrowTable, Long, Number, Source, WidgetInfo, WidgetValue, arrow_value, bool_value, bytes_value,
  double_array_value, double_value, int_array_value, int_value, is_valid_form_id, json_value,
  number, require_number_int, require_number_ints, string_array_value, string_value,
}
use streamlit.Widgets.StateDict
use streamlit.Widgets.Manager.{
  FormState, WidgetStateManager, create_widget_state, get_form_widget_state, get_widget_state,
  on_widget_value_changed, update_form,
}
use streamlit.Widgets.Forms.{
  form_of, get-update_form, on_widget_value_changed_frame, update_form_frame,
}
use streamlit.Widgets.Accessors.{
  get_arrow_value, get_bool_value, get_bytes_value, get_double_array_value, get_double_value,
  get_int_array_value, get_int_value, get_json_value, get_string_array_value, get_string_value,
  get_value, set_arrow_value, set_bool_value, set_bytes_value, set_double_array_value,
  set_double_value, set_int_array_value, set_int_value, set_json_value, set_string_array_value,
  set_string_value, set_value,
}

-- The value that is set is the one that a getter looks at first: it comes from the user, or the
-- widget has no value in a form.
abbrev pub IsVisible : WidgetInfo → Source → WidgetStateManager → Type 0
IsVisible widget source m =
    (source.from_ui ≡ true)
    ⊎ (is_valid_form_id (some widget.form_id) ≡ false)
    ⊎ (get_form_widget_state widget m ≡ none)

-- The form of a widget and its value, inside `createWidgetState`.
abbrev with_state : WidgetInfo → Option WidgetValue → FormState → FormState
with_state widget v form = record form {
  widget_states = StateDict.create_state widget.id v form.widget_states;
}

get_widget_state-create :
    (widget : WidgetInfo) (v : Option WidgetValue) (source : Source) (m : WidgetStateManager)
    → IsVisible widget source m
    → get_widget_state widget (create_widget_state widget source v m)
      ≡ some (record { id = widget.id; value = v })
unfolding get_widget_state get_form_widget_state create_widget_state StateDict.get_state
    StateDict.create_state
get_widget_state-create widget v source m h = ground (
  arith,
  get-update_form widget.form_id widget.form_id (with_state widget v) m,
  get-set widget.id widget.id (record { id = widget.id; value = v }) m.widget_states,
  get-set widget.id widget.id (record { id = widget.id; value = v })
      (form_of widget.form_id m).widget_states,
  eq_refl widget.id,
  eq_refl widget.form_id,
)

get_widget_state-changed :
    (widget : WidgetInfo) (o : Option String) (source : Source) (m : WidgetStateManager)
    → get_widget_state widget (on_widget_value_changed o source m) ≡ get_widget_state widget m
unfolding get_widget_state get_form_widget_state
get_widget_state-changed widget o source m =
    ground (arith, on_widget_value_changed_frame o source m)

pub get_value-set_value :
    (widget : WidgetInfo) (v : Option WidgetValue) (source : Source) (m : WidgetStateManager)
    → IsVisible widget source m
    → get_value widget (set_value widget v source m) ≡ v
unfolding get_value set_value
get_value-set_value widget v source m h = ground (
  arith,
  get_widget_state-changed widget (some widget.form_id) source
      (create_widget_state widget source v m),
  get_widget_state-create widget v source m h,
)

-- A list of runtime numbers needs no conversion.
require_number_ints-numbers :
    (to_number : Long → Number) (ns : List Number)
    → require_number_ints to_number (map number ns) ≡ ok ns
unfolding require_number_ints
require_number_ints-numbers to_number [] = refl
require_number_ints-numbers to_number (n ∷ ns) =
    rw (require_number_ints-numbers to_number ns, ◌>>=◌) refl

-- Numbers that are set visibly are those that are read.
pub get_int_array_value-set :
    (widget : WidgetInfo) (ns : List Number) (to_number : Long → Number) (source : Source)
    (m : WidgetStateManager)
    → IsVisible widget source m
    → get_int_array_value to_number widget (set_int_array_value widget ns source m) ≡ ok (some ns)
unfolding get_int_array_value set_int_array_value
get_int_array_value-set widget ns to_number source m h = ground (
  arith,
  get_value-set_value widget (some (int_array_value (map number ns))) source m h,
  require_number_ints-numbers to_number ns,
)

module _ (widget : WidgetInfo) (source : Source) (m : WidgetStateManager)
    (h : IsVisible widget source m) where
  -- Each getter returns what the setter of its kind has stored, numbers whole, provided that the
  -- setter's value is the visible one: it comes from the user, or the widget has no form, or no
  -- value in its form.
  pub getters-setters :
      (to_number : Long → Number) (b : Bool) (n : Number) (s : String) (ss : List String)
      (ns : List Number) (t : ArrowTable) (bytes : List ℕ) {A : Type 0}
      (stringify : A → Option String) (v : A)
      → stringify v ≡ some s
      → (get_bool_value widget (set_bool_value widget b source m) ≡ some b)
        × (get_int_value to_number widget (set_int_value widget n source m) ≡ ok (some n))
        × (get_double_value widget (set_double_value widget n source m) ≡ some n)
        × (get_string_value widget (set_string_value widget s source m) ≡ some s)
        × (get_string_array_value widget (set_string_array_value widget ss source m) ≡ some ss)
        × (get_double_array_value widget (set_double_array_value widget ns source m) ≡ some ns)
        × (get_int_array_value to_number widget (set_int_array_value widget ns source m)
            ≡ ok (some ns))
        × (get_json_value widget (set_json_value stringify widget v source m) ≡ some s)
        × (get_arrow_value widget (set_arrow_value widget t source m) ≡ some t)
        × (get_bytes_value widget (set_bytes_value widget bytes source m) ≡ some bytes)
  unfolding get_bool_value set_bool_value get_int_value set_int_value get_double_value
      set_double_value get_string_value set_string_value get_string_array_value
      set_string_array_value get_double_array_value set_double_array_value get_int_array_value
      set_int_array_value get_json_value set_json_value get_arrow_value set_arrow_value
      get_bytes_value set_bytes_value require_number_int
  getters-setters to_number b n s ss ns t bytes stringify v text =
      let stored = λ (w : Option WidgetValue). get_value-set_value widget w source m h in
      (
        ground (arith, stored (some (bool_value b))),
        ground (arith, stored (some (int_value (number n)))),
        ground (arith, stored (some (double_value n))),
        ground (arith, stored (some (string_value s))),
        ground (arith, stored (some (string_array_value ss))),
        ground (arith, stored (some (double_array_value ns))),
        ground (
          arith,
          stored (some (int_array_value (map number ns))),
          require_number_ints-numbers to_number ns,
        ),
        rw (text, Option.map) (ground (arith, stored (some (json_value s)))),
        ground (arith, stored (some (arrow_value t))),
        ground (arith, stored (some (bytes_value bytes))),
      )

get_form_widget_state-update_ne :
    (j k : WidgetInfo) (v : Option WidgetValue) (m : WidgetStateManager)
    → j.id ≢ k.id
    → get_form_widget_state j (update_form k.form_id (with_state k v) m) ≡ get_form_widget_state j m
unfolding get_form_widget_state JsMap.get StateDict.get_state StateDict.create_state
get_form_widget_state-update_ne j k v m h = ground (
  arith,
  get-update_form j.form_id k.form_id (with_state k v) m,
  get-set j.id k.id (record { id = k.id; value = v }) (form_of k.form_id m).widget_states,
  eq_iff k.id j.id,
  eq_iff k.form_id j.form_id,
)

-- The values in the forms are looked up in the forms alone.
get_form_widget_state-frame :
    (j : WidgetInfo) (m : WidgetStateManager) (d : StateDict.WidgetStateDict)
    → get_form_widget_state j (record m { widget_states = d }) ≡ get_form_widget_state j m
unfolding get_form_widget_state
get_form_widget_state-frame j m d = refl

get_state-create_ne :
    (j k : WidgetInfo) (v : Option WidgetValue) (d : StateDict.WidgetStateDict)
    → j.id ≢ k.id
    → StateDict.get_state j.id (StateDict.create_state k.id v d) ≡ StateDict.get_state j.id d
unfolding StateDict.get_state StateDict.create_state
get_state-create_ne j k v d h =
    ground (arith, get-set j.id k.id (record { id = k.id; value = v }) d, eq_iff k.id j.id)

get_widget_state-create_ne :
    (j k : WidgetInfo) (v : Option WidgetValue) (source : Source) (m : WidgetStateManager)
    → j.id ≢ k.id
    → get_widget_state j (create_widget_state k source v m) ≡ get_widget_state j m
unfolding get_widget_state create_widget_state
get_widget_state-create_ne j k v source m h = ground (
  arith,
  get_form_widget_state-update_ne j k v m h,
  get_state-create_ne j k v m.widget_states h,
  get_form_widget_state-frame j m (StateDict.create_state k.id v m.widget_states),
  update_form_frame k.form_id (with_state k v) m,
)

-- A widget keeps its value when the value of a widget with another id is set.
pub get_value-set_value_ne :
    (j k : WidgetInfo) (v : Option WidgetValue) (source : Source) (m : WidgetStateManager)
    → j.id ≢ k.id
    → get_value j (set_value k v source m) ≡ get_value j m
unfolding get_value set_value
get_value-set_value_ne j k v source m h = ground (
  arith,
  get_widget_state-changed j (some k.form_id) source (create_widget_state k source v m),
  get_widget_state-create_ne j k v source m h,
)
