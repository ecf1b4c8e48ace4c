-- ===== src/Widgets/Submit.antt =====
-- `submitForm` of frontend/src/lib/WidgetStateManager.ts.
use streamlit.Prelude.{String, true, some, List, [], ◌∷◌, if◌then◌else◌}
use streamlit.Prelude.Result.{Result, ok, err}
use streamlit.Widgets.Values.{
  Error, invalid_form_id, WidgetInfo, Source, trigger_value, is_valid_form_id,
}
use streamlit.Widgets.StateDict
use streamlit.Widgets.Manager.{
  Listener, form_cleared, WidgetStateManager, emit, get_or_create_form_state, update_form,
  create_widget_state, delete_widget_state, send_update_widgets_message,
  sync_forms_with_pending_changes,
}

abbrev pub from_ui_source : Source
from_ui_source = record { from_ui = true }

-- `form.formCleared.emit()` calls the listeners in the order in which they were connected.
unfoldable pub emit_form_cleared : List Listener → WidgetStateManager → WidgetStateManager
emit_form_cleared [] m = m
emit_form_cleared (l ∷ ls) m = emit_form_cleared ls (emit (form_cleared l) m)

-- The copy of the form's values into the top-level dictionary.
unfoldable pub copy_form_values : String → WidgetStateManager → WidgetStateManager
copy_form_values form_id m =
    let (form, m') = get_or_create_form_state form_id m in
    record m' { widget_states = StateDict.copy_from form.widget_states m'.widget_states }

-- `form.widgetStates.clear()`
unfoldable pub clear_form_values : String → WidgetStateManager → WidgetStateManager
clear_form_values form_id = update_form form_id (λ form. record form { widget_states = [] })

-- The click, and the form's values moved into the top-level dictionary.
unfoldable pub commit_form : WidgetInfo → WidgetStateManager → WidgetStateManager
commit_form submit_button m = clear_form_values submit_button.form_id (
    copy_form_values submit_button.form_id
      (create_widget_state submit_button from_ui_source (some (trigger_value true)) m))

-- The message to the server, the callback, and the reset of the button.
unfoldable pub send_committed : WidgetInfo → WidgetStateManager → WidgetStateManager
send_committed submit_button m =
    delete_widget_state submit_button.id
      (sync_forms_with_pending_changes (send_update_widgets_message m))

unfoldable pub submit_form : WidgetInfo → WidgetStateManager → Result Error WidgetStateManager
submit_form submit_button m =
    if is_valid_form_id (some submit_button.form_id)
    then (let (form, opened) = get_or_create_form_state submit_button.form_id m in
        let done = send_committed submit_button (commit_form submit_button opened) in
        ok (if form.clear_on_submit then emit_form_cleared form.form_cleared done else done))
    else err (invalid_form_id submit_button.form_id)
