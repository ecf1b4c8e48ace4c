-- ===== src/Widgets/Buttons.antt =====
-- The count of submit buttons that each form has, of frontend/src/lib/WidgetStateManager.ts.
use streamlit.Prelude.{ℕ, ◌+◌, String, some}
use streamlit.Prelude.Int.{ℤ, pos, negsuc, sub_ℕ}
use streamlit.Prelude.Result.{Result, ok, err}
use streamlit.JsMap
use streamlit.Widgets.Values.{Error, bad_submit_button_count}
use streamlit.Widgets.Manager.{
  FormsData, WidgetStateManager, update_forms_data, get_submit_button_count,
}

-- The recipe that sets the count: every caller changes it by one, so the draft is changed.
unfoldable pub with_submit_button_count : String → ℕ → FormsData → FormsData
with_submit_button_count form_id count d = record d {
  submit_button_count = JsMap.set form_id count d.submit_button_count;
}

unfoldable pub set_submit_button_count :
    String → ℤ → WidgetStateManager → Result Error WidgetStateManager
set_submit_button_count form_id (negsuc n) m = err (bad_submit_button_count (negsuc n))
set_submit_button_count form_id (pos n) m =
    ok (update_forms_data (some (with_submit_button_count form_id n m.forms_data)) m)

unfoldable pub increment_submit_button_count :
    String → WidgetStateManager → Result Error WidgetStateManager
increment_submit_button_count form_id m =
    set_submit_button_count form_id (pos (get_submit_button_count m.forms_data form_id + 1)) m

unfoldable pub decrement_submit_button_count :
    String → WidgetStateManager → Result Error WidgetStateManager
decrement_submit_button_count form_id m =
    set_submit_button_count form_id (sub_ℕ (get_submit_button_count m.forms_data form_id) 1) m
