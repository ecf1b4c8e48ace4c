-- ===== src/Widgets/Ops.antt =====
-- The public methods of `WidgetStateManager` that change its state, as one type of calls.
use streamlit.Prelude.{Bool, Option, String}
use streamlit.Prelude.Result.{Result, err, ok}
use streamlit.JsMap.{JsSet}
use streamlit.Widgets.Values.{Error, Source, WidgetInfo, WidgetValue}
use streamlit.Widgets.Manager
use streamlit.Widgets.Manager.{Listener, WidgetStateManager}
use streamlit.Widgets.Accessors
use streamlit.Widgets.Submit
use streamlit.Widgets.Buttons

-- A setter is named by the value that it stores.
pub data Op : Type 0 where
  add_form_cleared_listener : String → Listener → Op
  set_form_clear_on_submit : String → Bool → Op
  submit_form : WidgetInfo → Op
  set_trigger_value : WidgetInfo → Source → Op
  set_value : WidgetInfo → Option WidgetValue → Source → Op
  send_update_widgets_message : Op
  remove_inactive : JsSet → Op
  set_forms_with_uploads : JsSet → Op
  increment_submit_button_count : String → Op
  decrement_submit_button_count : String → Op

-- Each method that throws does so before it changes anything.
abbrev pub or_same : Result Error WidgetStateManager → WidgetStateManager → WidgetStateManager
or_same (ok m') m = m'
or_same (err e) m = m

unfoldable pub apply : Op → WidgetStateManager → WidgetStateManager
apply (Op.add_form_cleared_listener f l) m = Manager.add_form_cleared_listener f l m
apply (Op.set_form_clear_on_submit f b) m = Manager.set_form_clear_on_submit f b m
apply (Op.submit_form w) m = or_same (Submit.submit_form w m) m
apply (Op.set_trigger_value w s) m = Accessors.set_trigger_value w s m
apply (Op.set_value w v s) m = Accessors.set_value w v s m
apply Op.send_update_widgets_message m = Manager.send_update_widgets_message m
apply (Op.remove_inactive ids) m = Manager.remove_inactive ids m
apply (Op.set_forms_with_uploads ids) m = Manager.set_forms_with_uploads ids m
apply (Op.increment_submit_button_count f) m = or_same (Buttons.increment_submit_button_count f m) m
apply (Op.decrement_submit_button_count f) m = or_same (Buttons.decrement_submit_button_count f m) m
