-- ===== src/Widgets/Accessors.antt =====
-- The typed getters and setters of `WidgetStateManager` in
-- frontend/src/lib/WidgetStateManager.ts.
use streamlit.Prelude.{ℕ, String, Bool, true, Option, none, some, List, map}
use mathlib.Core.Option
use streamlit.Prelude.Result.{Result, ok, ◌>>=◌}
use streamlit.Widgets.Values.{
  Error, Number, Long, number, ArrowTable, WidgetInfo, WidgetValue, Source, trigger_value,
  bool_value, double_value, int_value, string_value, double_array_value, int_array_value,
  string_array_value, json_value, arrow_value, bytes_value, require_number_int, require_number_ints,
}
use streamlit.Widgets.Manager.{
  WidgetStateManager, create_widget_state, on_widget_value_changed, get_widget_state,
  delete_widget_state,
}

-- What every setter does: the state is created and given its value, then the change is handled.
unfoldable pub set_value :
    WidgetInfo → Option WidgetValue → Source → WidgetStateManager → WidgetStateManager
set_value widget v source m =
    on_widget_value_changed (some widget.form_id) source (create_widget_state widget source v m)

-- The oneof of the widget's state, if the widget has a state.
unfoldable pub get_value : WidgetInfo → WidgetStateManager → Option WidgetValue
get_value widget m = elim (get_widget_state widget m) [ none ↦ none | some state ↦ state.value ]

unfoldable pub set_trigger_value : WidgetInfo → Source → WidgetStateManager → WidgetStateManager
unfolding delete_widget_state
set_trigger_value widget source m =
    delete_widget_state widget.id (set_value widget (some (trigger_value true)) source m)

unfoldable pub set_bool_value : WidgetInfo → Bool → Source → WidgetStateManager → WidgetStateManager
set_bool_value widget b = set_value widget (some (bool_value b))

unfoldable pub get_bool_value : WidgetInfo → WidgetStateManager → Option Bool
get_bool_value widget m = elim (get_value widget m) [ some (bool_value b) ↦ some b | _ ↦ none ]

-- `setIntValue` stores a `number`, and so does `setIntArrayValue`.
unfoldable pub set_int_value :
    WidgetInfo → Number → Source → WidgetStateManager → WidgetStateManager
set_int_value widget n = set_value widget (some (int_value (number n)))

unfoldable pub get_int_value :
    (Long → Number) → WidgetInfo → WidgetStateManager → Result Error (Option Number)
unfolding require_number_int
get_int_value to_number widget m = elim (get_value widget m) [
  | some (int_value n) ↦ require_number_int to_number n >>= λ k. ok (some k)
  | _ ↦ ok none
]

unfoldable pub set_double_value :
    WidgetInfo → Number → Source → WidgetStateManager → WidgetStateManager
set_double_value widget n = set_value widget (some (double_value n))

unfoldable pub get_double_value : WidgetInfo → WidgetStateManager → Option Number
get_double_value widget m = elim (get_value widget m) [ some (double_value n) ↦ some n | _ ↦ none ]

unfoldable pub set_string_value :
    WidgetInfo → String → Source → WidgetStateManager → WidgetStateManager
set_string_value widget s = set_value widget (some (string_value s))

unfoldable pub get_string_value : WidgetInfo → WidgetStateManager → Option String
get_string_value widget m = elim (get_value widget m) [ some (string_value s) ↦ some s | _ ↦ none ]

unfoldable pub set_string_array_value :
    WidgetInfo → List String → Source → WidgetStateManager → WidgetStateManager
set_string_array_value widget ss = set_value widget (some (string_array_value ss))

unfoldable pub get_string_array_value : WidgetInfo → WidgetStateManager → Option (List String)
get_string_array_value widget m = elim (get_value widget m) [
  | some (string_array_value ss) ↦ some ss
  | _ ↦ none
]

unfoldable pub set_double_array_value :
    WidgetInfo → List Number → Source → WidgetStateManager → WidgetStateManager
set_double_array_value widget ns = set_value widget (some (double_array_value ns))

unfoldable pub get_double_array_value : WidgetInfo → WidgetStateManager → Option (List Number)
get_double_array_value widget m = elim (get_value widget m) [
  | some (double_array_value ns) ↦ some ns
  | _ ↦ none
]

unfoldable pub set_int_array_value :
    WidgetInfo → List Number → Source → WidgetStateManager → WidgetStateManager
set_int_array_value widget ns = set_value widget (some (int_array_value (map number ns)))

unfoldable pub get_int_array_value :
    (Long → Number) → WidgetInfo → WidgetStateManager → Result Error (Option (List Number))
unfolding require_number_ints
get_int_array_value to_number widget m = elim (get_value widget m) [
  | some (int_array_value ns) ↦ require_number_ints to_number ns >>= λ ks. ok (some ks)
  | _ ↦ ok none
]

-- `stringify` is the runtime's `JSON.stringify`, which has no text for some values; a member of
-- the oneof that is assigned `undefined` is not set.
unfoldable pub set_json_value {ℓ} :
    {A : Type ℓ}
    → (A → Option String)
    → WidgetInfo
    → A
    → Source
    → WidgetStateManager
    → WidgetStateManager
set_json_value stringify widget v = set_value widget (Option.map json_value (stringify v))

unfoldable pub get_json_value : WidgetInfo → WidgetStateManager → Option String
get_json_value widget m = elim (get_value widget m) [ some (json_value s) ↦ some s | _ ↦ none ]

unfoldable pub set_arrow_value :
    WidgetInfo → ArrowTable → Source → WidgetStateManager → WidgetStateManager
set_arrow_value widget t = set_value widget (some (arrow_value t))

unfoldable pub get_arrow_value : WidgetInfo → WidgetStateManager → Option ArrowTable
get_arrow_value widget m = elim (get_value widget m) [ some (arrow_value t) ↦ some t | _ ↦ none ]

unfoldable pub set_bytes_value :
    WidgetInfo → List ℕ → Source → WidgetStateManager → WidgetStateManager
set_bytes_value widget bytes = set_value widget (some (bytes_value bytes))

unfoldable pub get_bytes_value : WidgetInfo → WidgetStateManager → Option (List ℕ)
get_bytes_value widget m = elim (get_value widget m) [ some (bytes_value b) ↦ some b | _ ↦ none ]
