-- ===== src/Uploader/Reset.antt =====
-- What is left of the reset of an uploader that is disconnected.
use streamlit.Prelude.{
  Bool, List, Option, [], arith, false, inl, inr, refl, some, true, ◌<◌, ◌==◌, ◌∷◌, ◌≡◌,
}
use streamlit.Prelude.Result.{Result, ok}
use streamlit.Widgets.Values.{Error, Long, Number, is_valid_form_id}
use streamlit.Widgets.Manager.{WidgetStateManager}
use streamlit.Widgets.Accessors.{set_int_array_value}
use streamlit.Widgets.RoundTrip.{get_int_array_value-set}
use streamlit.Uploader.{
  Browser, FileUploader, FileUploaderProto, as_numbers, create_widget_value, is_updating, reset,
  server_file_ids,
}
use streamlit.Uploader.Events.{component_did_update, send_new_value}

module _ {B : Browser} (is_equal : List Number → Option (List Number) → Bool)
    (to_number : Long → Number) (element : FileUploaderProto) where
  abbrev pub update_of :
      Bool
      → Bool
      → FileUploader B × WidgetStateManager
      → Result Error (FileUploader B × WidgetStateManager)
  update_of = component_did_update is_equal to_number element

  -- Where the uploader is in no form and an upload has completed, and lodash tells a list of one
  -- number from the empty list: the update that disables the widget forgets the files and sets the
  -- empty value, but the next one sets the newest number as the value again, as if the user had.
  pub reset_undone :
      (u : FileUploader B) (m : WidgetStateManager)
      → is_valid_form_id (some element.info.form_id) ≡ false
      → 0 < u.newest_server_file_id
      → is_equal (as_numbers (u.newest_server_file_id ∷ [])) (some []) ≡ false
      → let emptied = set_int_array_value element.info [] (record { from_ui = false }) m in
        (update_of false true (u, m) ≡ ok (reset u, emptied))
        × (update_of true true (reset u, emptied)
            ≡ ok (
              reset u,
              set_int_array_value element.info
                  (as_numbers (u.newest_server_file_id ∷ []))
                  (record { from_ui = true })
                  emptied,
            ))
  unfolding component_did_update create_widget_value reset send_new_value is_updating
      server_file_ids
  reset_undone u m formless some_upload differs =
      let once : (u.newest_server_file_id == 0) ≡ false = ground (arith, some_upload) in
      let got =
        get_int_array_value-set element.info [] to_number (record { from_ui = false }) m
          (inr (inl formless)) in
      (refl, rw (once, got, differs) refl)
