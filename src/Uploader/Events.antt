-- ===== src/Uploader/Events.antt =====
-- The handlers of the widget that uploads files (frontend/src/components/widgets/FileUploader), and
-- what changes its files.
use Prim.Native.String.{◌++◌ as append_text}
use streamlit.Prelude.{
  Bool, List, Option, String, [], false, if◌then◌else◌, length, ltb, none, not, some, str_eq, true,
  ℕ, ◌&&◌, ◌++◌, ◌+◌, ◌==◌, ◌∷◌,
}
use streamlit.Prelude.Result.{Result, ok, ◌>>=◌}
use streamlit.Widgets.Values.{Error, Long, Number}
use streamlit.Widgets.Manager.{WidgetStateManager}
use streamlit.Widgets.Accessors.{get_int_array_value, set_int_array_value}
use streamlit.Uploader.{
  Browser, FileRejection, FileStatus, FileUploader, FileUploaderProto, UploadFileInfo, add_file,
  add_files, as_numbers, cancel_call, create_widget_value, error_status, get_file, is_file_updating,
  is_updating, max, remove_file, reset, set_status, update_file, upload_file_call, uploaded,
  uploading,
}

-- `is_equal` is lodash's, and the manager throws on a value that it cannot read.
unfoldable pub send_new_value :
    (List Number → Option (List Number) → Bool)
    → (Long → Number)
    → FileUploaderProto
    → List ℕ
    → WidgetStateManager
    → Result Error WidgetStateManager
send_new_value is_equal to_number element value m =
    get_int_array_value to_number element.info m >>= λ prev. ok (
      if is_equal (as_numbers value) prev
      then m
      else set_int_array_value element.info (as_numbers value) (record { from_ui = true }) m)

module _ (B : Browser) where
  open B use {File, file_type, ProgressEvent, size_display}

  unfoldable pub get_error_message : FileUploaderProto → String → File → String
  get_error_message element error_code file =
      if str_eq error_code "file-too-large"
      then append_text "File must be "
          (append_text (size_display element.max_upload_size_mb) " or smaller.")
      else if str_eq error_code "file-invalid-type"
      then append_text (file_type file) " files are not allowed."
      else if str_eq error_code "file-too-small"
      then "File size is too small."
      else if str_eq error_code "too-many-files"
      then "Only one file is allowed."
      else "Unexpected error. Please try again."

  -- What changes the files; `resets` is that of an update and of a form that is cleared.
  pub data UploaderEvent : Type 0 where
    drops : List File → List (FileRejection B) → UploaderEvent
    completes : ℕ → ℕ → UploaderEvent
    fails : UploadFileInfo B → Bool → Option String → UploaderEvent
    progresses : ProgressEvent → ℕ → UploaderEvent
    deletes : ℕ → UploaderEvent
    resets : UploaderEvent

module _ {B : Browser} where
  open B use {File, ProgressEvent, begun, percent, same_progress}

  -- `uploadFile` until the request is sent; how it settles is an event.
  unfoldable pub upload_file : File → FileUploader B → FileUploader B
  upload_file file u =
      let id = u.local_file_id_counter in
      let added = add_file (record { file = file; id = id; status = uploading id begun }) u in
      record added { local_file_id_counter = id + 1; calls = u.calls ++ (upload_file_call id ∷ []) }

  unfoldable pub upload_each : List File → FileUploader B → FileUploader B
  upload_each [] u = u
  upload_each (f ∷ fs) u = upload_each fs (upload_file f u)

  unfoldable pub on_upload_complete : ℕ → ℕ → FileUploader B → FileUploader B
  on_upload_complete local_file_id server_file_id u =
      let newer = max u.newest_server_file_id server_file_id in
      let u' = record u { newest_server_file_id = newer } in
      elim (get_file local_file_id u') [
        | none ↦ u'
        | some cur_file ↦
            if is_file_updating cur_file.status
            then update_file cur_file.id (set_status (uploaded server_file_id) cur_file) u'
            else u'
      ]

  -- The `catch` of an upload: its file as it was added, whether it was cancelled, and the error.
  unfoldable pub on_upload_failed :
      UploadFileInfo B → Bool → Option String → FileUploader B → FileUploader B
  on_upload_failed uploading_file is_cancel error u =
      let message : String = elim error [ none ↦ "Unknown error" | some text ↦ text ] in
      if is_cancel
      then u
      else update_file uploading_file.id (set_status (error_status message) uploading_file) u

  -- `cancelToken.cancel()`, where the file is uploading.
  abbrev pub cancelled : FileStatus B → FileUploader B → FileUploader B
  cancelled (uploading token progress) u = record u { calls = u.calls ++ (cancel_call token ∷ []) }
  cancelled (uploaded server_file_id) u = u
  cancelled (error_status message) u = u

  unfoldable pub delete_file : ℕ → FileUploader B → FileUploader B
  delete_file file_id u = elim (get_file file_id u) [
    | none ↦ u
    | some file ↦ remove_file file_id (cancelled file.status u)
  ]

  -- The file with its progress, where it is uploading.
  abbrev pub with_progress :
      ProgressEvent → ℕ → UploadFileInfo B → FileStatus B → FileUploader B → FileUploader B
  with_progress event file_id file (uploading token progress) u =
      if same_progress progress (percent event)
      then u
      else update_file file_id (set_status (uploading token (percent event)) file) u
  with_progress event file_id file (uploaded server_file_id) u = u
  with_progress event file_id file (error_status message) u = u

  unfoldable pub on_upload_progress : ProgressEvent → ℕ → FileUploader B → FileUploader B
  on_upload_progress event file_id u = elim (get_file file_id u) [
    | none ↦ u
    | some file ↦ with_progress event file_id file file.status u
  ]

  -- `errors.length === 1 && errors[0].code === "too-many-files"`
  abbrev too_many_only : FileRejection B → Bool
  too_many_only r = elim r.more_codes [ [] ↦ str_eq r.code "too-many-files" | c ∷ cs ↦ false ]

  -- `findIndex` and `splice`: the first such file, and the rejections without it.
  unfoldable pub pull_out : List (FileRejection B) → Option (File × List (FileRejection B))
  pull_out [] = none
  pull_out (r ∷ rs) =
      let rest = pull_out rs in
      if too_many_only r
      then some (r.file, rs)
      else elim rest [ none ↦ none | some (file, others) ↦ some (file, r ∷ others) ]

  -- Where several files are dropped on a single-file uploader, and all rejected, one is accepted.
  unfoldable pub accept_one :
      Bool → List File → List (FileRejection B) → List File × List (FileRejection B)
  accept_one multiple_files accepted rejected =
      if not multiple_files && (length accepted == 0) && ltb 1 (length rejected)
      then elim (pull_out rejected) [
        | none ↦ (accepted, rejected)
        | some (file, others) ↦ (accepted ++ (file ∷ []), others)
      ]
      else (accepted, rejected)

  unfoldable pub rejected_infos :
      FileUploaderProto → ℕ → List (FileRejection B) → List (UploadFileInfo B)
  rejected_infos element next [] = []
  rejected_infos element next (r ∷ rs) =
      let message = get_error_message B element r.code r.file in
      record { file = r.file; id = next; status = error_status message }
      ∷ rejected_infos element (next + 1) rs

  unfoldable pub add_rejected :
      FileUploaderProto → List (FileRejection B) → FileUploader B → FileUploader B
  add_rejected element rejected u =
      let next = u.local_file_id_counter in
      let numbered = record u { local_file_id_counter = next + length rejected } in
      if ltb 0 (length rejected)
      then add_files (rejected_infos element next rejected) numbered
      else u

  -- The first file makes room in a single-file uploader.
  unfoldable pub make_room : Bool → List File → FileUploader B → FileUploader B
  make_room multiple_files accepted u =
      if not multiple_files && ltb 0 (length accepted)
      then elim u.files [ [] ↦ u | first ∷ rest ↦ remove_file first.id u ]
      else u

  unfoldable pub drop_handler :
      FileUploaderProto → List File → List (FileRejection B) → FileUploader B → FileUploader B
  drop_handler element accepted rejected u =
      let (accepted', rejected') = accept_one element.multiple_files accepted rejected in
      add_rejected element rejected'
        (upload_each accepted' (make_room element.multiple_files accepted' u))

  unfoldable pub component_did_update :
      (List Number → Option (List Number) → Bool)
      → (Long → Number)
      → FileUploaderProto
      → Bool
      → Bool
      → FileUploader B × WidgetStateManager
      → Result Error (FileUploader B × WidgetStateManager)
  component_did_update is_equal to_number element prev_disabled disabled (u, m) =
      let sent : Result Error (FileUploader B × WidgetStateManager) = elim (create_widget_value u) [
        | none ↦ ok (u, m)
        | some value ↦ send_new_value is_equal to_number element value m >>= λ m'. ok (u, m')
      ] in
      if not prev_disabled && disabled
      then ok (reset u, set_int_array_value element.info [] (record { from_ui = false }) m)
      else if is_updating u
      then ok (u, m)
      else sent

  unfoldable pub on_form_cleared :
      FileUploaderProto → FileUploader B × WidgetStateManager → FileUploader B × WidgetStateManager
  on_form_cleared element (u, m) = (
    reset u,
    elim (create_widget_value (reset u)) [
      | none ↦ m
      | some value ↦
          set_int_array_value element.info (as_numbers value) (record { from_ui = true }) m
    ],
  )

  abbrev pub step : FileUploaderProto → UploaderEvent B → FileUploader B → FileUploader B
  step element (drops accepted rejected) u = drop_handler element accepted rejected u
  step element (completes id server_id) u = on_upload_complete id server_id u
  step element (fails f is_cancel error) u = on_upload_failed f is_cancel error u
  step element (progresses event id) u = on_upload_progress event id u
  step element (deletes id) u = delete_file id u
  step element resets u = reset u

  abbrev pub run : FileUploaderProto → List (UploaderEvent B) → FileUploader B → FileUploader B
  run element [] u = u
  run element (e ∷ es) u = run element es (step element e u)
