-- ===== src/Widgets/StateDict.antt =====
-- `WidgetStateDict` of frontend/src/lib/WidgetStateManager.ts. A state that is created is given
-- its value at once by every caller, so `create_state` takes the value too.
use streamlit.Prelude.{String, Bool, Option, List}
use streamlit.JsMap
use streamlit.JsMap.{JsMap, JsSet}
use streamlit.Widgets.Values.{WidgetState, WidgetValue}

abbrev pub WidgetStateDict : Type 0
WidgetStateDict = JsMap WidgetState

unfoldable pub create_state : String → Option WidgetValue → WidgetStateDict → WidgetStateDict
create_state widget_id v d = JsMap.set widget_id (record { id = widget_id; value = v }) d

unfoldable pub get_state : String → WidgetStateDict → Option WidgetState
get_state widget_id d = JsMap.get widget_id d

unfoldable pub delete_state : String → WidgetStateDict → WidgetStateDict
delete_state widget_id d = JsMap.delete widget_id d

unfoldable pub remove_inactive : JsSet → WidgetStateDict → WidgetStateDict
remove_inactive active_ids d = JsMap.retain (λ k _. JsMap.has k active_ids) d

unfoldable pub is_empty : WidgetStateDict → Bool
is_empty d = JsMap.is_empty d

-- The `widgets` of the WidgetStates message.
unfoldable pub create_widget_states_msg : WidgetStateDict → List WidgetState
create_widget_states_msg d = JsMap.values d

-- `d.copyFrom(other)`
unfoldable pub copy_from : WidgetStateDict → WidgetStateDict → WidgetStateDict
copy_from other d = JsMap.set_all other d
