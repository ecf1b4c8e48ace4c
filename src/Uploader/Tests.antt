-- ===== src/Uploader/Tests.antt =====
-- An uploader whose files are numbers, with their names as types.
use streamlit.JsMap.{get}
use streamlit.Widgets.StateDict.{get_state}
use streamlit.Prelude.{
  Bool, Bool-cases, List, Option, [], ap, arith, false, inl, inr, leb, none, not, refl, some, sym,
  true, ℕ, ◌&&◌, ◌==◌, ◌∷◌, ◌≡◌, ◌⊎◌,
}
use streamlit.Prelude.Int.{pos}
use streamlit.Prelude.Result.{ok}
use streamlit.Widgets.Values.{Long, Number, int, is_valid_form_id}
use streamlit.Widgets.Manager.{
  WidgetStateManager, get_form_widget_state, get_widget_state, new_manager,
}
use streamlit.Widgets.Accessors.{get_int_array_value, get_value, set_int_array_value}
use streamlit.Uploader.{
  Browser, FileRejection, FileUploader, FileUploaderProto, add_files, as_numbers,
  create_widget_value, error_status, find_file, get_file, is_file_updating, is_updating,
  new_uploader, remove_file, reset, server_file_ids, set_status, update_file, upload_file_call,
  uploaded, uploading,
}
use streamlit.Uploader.Events.{
  UploaderEvent, accept_one, add_rejected, completes, component_did_update, delete_file,
  drop_handler, drops, get_error_message, make_room, on_upload_complete, rejected_infos, run,
  send_new_value, upload_each, upload_file,
}
use streamlit.Uploader.Changes.{IsNumbered}
use streamlit.Uploader.Numbered.{run-IsNumbered}
use streamlit.Uploader.Deleted.{deleted_stays_gone}
use streamlit.Uploader.Sent.{
  component_did_update-sent, component_did_update-synced, has_uploaded, orphaned,
}
use streamlit.Uploader.Reset.{reset_undone}
use streamlit.Uploader.Single.{drop_handler-single}

abbrev browser : Browser
browser = record {
  File = ℕ;
  file_type = λ f. "text/plain";
  ProgressEvent = ℕ;
  Progress = ℕ;
  begun = 1;
  percent = λ e. e;
  same_progress = λ p q. p == q;
  size_display = λ mb. "200.0MB";
}

abbrev single_file : FileUploaderProto
single_file = record {
  info = record { id = "uploader"; form_id = "" };
  multiple_files = false;
  max_upload_size_mb = 200;
}

abbrev many_files : FileUploaderProto
many_files = record single_file { multiple_files = true }

abbrev too_large : FileRejection browser
too_large = record { file = 8; code = "file-too-large"; more_codes = [] }

-- Two files are dropped, and a third is too large; the second upload completes before the first.
abbrev two_uploads : List (UploaderEvent browser)
two_uploads = drops (5 ∷ 6 ∷ []) (too_large ∷ []) ∷ completes 2 11 ∷ completes 1 10 ∷ []

abbrev after_uploads : FileUploader browser
after_uploads = record {
  files =
      record { file = 5; id = 1; status = uploaded 10 }
      ∷ record { file = 6; id = 2; status = uploaded 11 }
      ∷ record { file = 8; id = 3; status = error_status "File must be 200.0MB or smaller." }
      ∷ [];
  newest_server_file_id = 11;
  local_file_id_counter = 4;
  calls = upload_file_call 1 ∷ upload_file_call 2 ∷ [];
}

two_uploads_done : run many_files two_uploads new_uploader ≡ after_uploads
unfolding drop_handler accept_one make_room upload_each upload_file add_files add_rejected
    rejected_infos get_error_message on_upload_complete get_file find_file is_file_updating
    update_file set_status
two_uploads_done = refl

run-IsNumbered_example : IsNumbered (run many_files two_uploads new_uploader)
run-IsNumbered_example = run-IsNumbered many_files two_uploads

deleted_stays_gone_example :
    get_file 1 (run many_files (completes 1 12 ∷ []) (delete_file 1 after_uploads)) ≡ none
deleted_stays_gone_example =
    deleted_stays_gone many_files 1 after_uploads (completes 1 12 ∷ []) (omega arith)

-- `isEqual` of lists of numbers that are not negative.
abbrev same_number : Number → Number → Bool
same_number (int (pos m)) (int (pos n)) = m == n
same_number m n = false

abbrev same_numbers : List Number → List Number → Bool
same_numbers [] [] = true
same_numbers (m ∷ ms) (n ∷ ns) = same_number m n && same_numbers ms ns
same_numbers ms ns = false

abbrev is_equal : List Number → Option (List Number) → Bool
is_equal ns none = false
is_equal ns (some ms) = same_numbers ns ms

same_number-eq : (m n : Number) → same_number m n ≡ true → n ≡ m
same_number-eq (int (pos m)) (int (pos n)) e =
    let e' : m ≡ n = ground (arith, e) in ap (λ k. int (pos k)) (sym e')
same_number-eq m n e = cc e

same_numbers-eq : (ms ns : List Number) → same_numbers ms ns ≡ true → ns ≡ ms
same_numbers-eq [] [] e = refl
same_numbers-eq (m ∷ ms) (n ∷ ns) e = elim (Bool-cases (same_number m n)) [
  | inl alike ↦ cc (same_number-eq m n alike, same_numbers-eq ms ns (rw alike at e))
  | inr differs ↦ absurd (cc (rw differs at e))
]
same_numbers-eq ms ns e = cc e

is_equal-eq : (ns : List Number) (o : Option (List Number)) → is_equal ns o ≡ true → o ≡ some ns
is_equal-eq ns none e = cc e
is_equal-eq ns (some ms) e = ap some (same_numbers-eq ns ms e)

abbrev no_long : Long → Number
no_long l = int (pos 0)

abbrev after_update : WidgetStateManager
after_update =
    set_int_array_value many_files.info (int (pos 11) ∷ int (pos 10) ∷ int (pos 11) ∷ [])
      (record { from_ui = true }) new_manager

updated :
    component_did_update is_equal no_long many_files false false (after_uploads, new_manager)
    ≡ ok (after_uploads, after_update)
unfolding component_did_update create_widget_value send_new_value is_updating is_file_updating
    server_file_ids get_int_array_value get_value get_widget_state get_form_widget_state new_manager
    get get_state is_valid_form_id
updated = refl

component_did_update-synced_example :
    get_int_array_value no_long many_files.info after_update
    ≡ ok (some (int (pos 11) ∷ int (pos 10) ∷ int (pos 11) ∷ []))
unfolding is_updating is_file_updating server_file_ids
component_did_update-synced_example =
    component_did_update-synced is_equal no_long many_files false false after_uploads after_uploads
      new_manager after_update is_equal-eq refl refl (omega arith) updated

component_did_update-sent_example :
    (after_uploads ≡ after_uploads)
    × ((after_update ≡ new_manager)
        ⊎ ((value : List ℕ) × (after_update
              ≡ set_int_array_value many_files.info
                  (as_numbers value)
                  (record { from_ui = true })
                  new_manager)
            × (is_updating after_uploads ≡ false)
            × ((server_id : ℕ)
                → orphaned value server_id
                  ≡ (leb server_id 11 && not (has_uploaded server_id after_uploads.files)))))
component_did_update-sent_example =
    component_did_update-sent is_equal no_long many_files false false after_uploads after_uploads
      new_manager after_update refl updated

reset_undone_example :
    let emptied =
      set_int_array_value many_files.info [] (record { from_ui = false }) after_update in
    (component_did_update is_equal no_long many_files false true (after_uploads, after_update)
      ≡ ok (reset after_uploads, emptied))
    × (component_did_update is_equal no_long many_files true true (reset after_uploads, emptied)
        ≡ ok (
          reset after_uploads,
          set_int_array_value many_files.info
              (int (pos 11) ∷ [])
              (record { from_ui = true })
              emptied,
        ))
reset_undone_example =
    reset_undone is_equal no_long many_files after_uploads after_update
      (unfold is_valid_form_id in refl) (omega arith) refl

-- Two files that are too large are dropped on a single-file uploader, then a file, and a second one
-- after the upload: both are there.
abbrev rejected_before : List (UploaderEvent browser)
rejected_before =
    drops [] (too_large ∷ []) ∷ drops [] (too_large ∷ []) ∷ drops (5 ∷ []) [] ∷ completes 3 10 ∷ []

abbrev beside : FileUploader browser
beside = record {
  files =
      record { file = 8; id = 2; status = error_status "File must be 200.0MB or smaller." }
      ∷ record { file = 5; id = 3; status = uploaded 10 }
      ∷ [];
  newest_server_file_id = 10;
  local_file_id_counter = 4;
  calls = upload_file_call 3 ∷ [];
}

rejected_stay : run single_file rejected_before new_uploader ≡ beside
unfolding drop_handler accept_one make_room remove_file upload_each upload_file add_files
    add_rejected rejected_infos get_error_message on_upload_complete get_file find_file
    is_file_updating update_file set_status
rejected_stay = refl

drop_handler-single_example :
    (drop_handler single_file (6 ∷ []) [] beside).files
    ≡ record { file = 5; id = 3; status = uploaded 10 }
      ∷ record { file = 6; id = 4; status = uploading 4 1 }
      ∷ []
drop_handler-single_example =
    drop_handler-single single_file beside 6 refl
      ((omega arith, (omega arith, omega arith)), (tt, (omega arith, tt)))
