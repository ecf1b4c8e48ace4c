-- ===== src/Uploader.antt =====
-- The widget that uploads files (frontend/src/components/widgets/FileUploader/FileUploader.tsx and
-- UploadFileInfo.ts). An updater that is given to `setState` is applied at once: each handler reads
-- the state before it sets what it has read, so that the order of its updaters is all that counts.
-- `componentDidUpdate` is an event of its own, since React may call it after every change or once
-- for several. A cancel token is the number of its file, and the texts of sizes and the percentage
-- of progress are parameters.
pub mod Events
pub mod Changes
pub mod Numbered
pub mod Deleted
pub mod Sent
pub mod Reset
pub mod Single
mod Tests
use streamlit.Prelude.{
  Bool, List, Option, String, [], false, filter, if◌then◌else◌, ltb, map, none, not, some, true, ℕ,
  ◌++◌, ◌==◌, ◌∷◌,
}
use streamlit.Prelude.Int.{pos}
use streamlit.Widgets.Values.{Number, WidgetInfo, int}

-- A file of the browser, its progress events and their percentages; `===` of percentages.
pub record Browser : Type 1 where
  pub File : Type 0
  pub file_type : File → String
  pub ProgressEvent : Type 0
  pub Progress : Type 0
  pub begun : Progress
  pub percent : ProgressEvent → Progress
  pub same_progress : Progress → Progress → Bool
  -- The display of the largest size in bytes, from the megabytes.
  pub size_display : ℕ → String

-- What the widget asks of its surroundings.
pub data UploadCall : Type 0 where
  upload_file_call cancel_call : ℕ → UploadCall

pub record FileUploaderProto : Type 0 where
  pub info : WidgetInfo
  pub multiple_files : Bool
  pub max_upload_size_mb : ℕ

-- A value as the runtime's numbers.
abbrev pub as_numbers : List ℕ → List Number
as_numbers ns = map (λ n. int (pos n)) ns

abbrev pub max : ℕ → ℕ → ℕ
max a b = if ltb a b then b else a

module _ (B : Browser) where
  open B use {File, Progress}

  pub data FileStatus : Type 0 where
    uploading : ℕ → Progress → FileStatus
    uploaded : ℕ → FileStatus
    error_status : String → FileStatus

  pub record UploadFileInfo : Type 0 where
    pub file : File
    pub id : ℕ
    pub status : FileStatus

  -- The library of the drop zone gives at least one error: the code of the first, and of the rest.
  pub record FileRejection : Type 0 where
    pub file : File
    pub code : String
    pub more_codes : List String

  pub record FileUploader : Type 0 where
    pub files : List UploadFileInfo
    pub newest_server_file_id : ℕ
    pub local_file_id_counter : ℕ
    pub calls : List UploadCall

module _ {B : Browser} where
  abbrev pub new_uploader : FileUploader B
  new_uploader = record {
    files = [];
    newest_server_file_id = 0;
    local_file_id_counter = 1;
    calls = [];
  }

  unfoldable pub set_status : FileStatus B → UploadFileInfo B → UploadFileInfo B
  set_status status f = record f { status = status }

  unfoldable pub is_file_updating : FileStatus B → Bool
  is_file_updating (uploading token progress) = true
  is_file_updating (uploaded server_file_id) = false
  is_file_updating (error_status message) = false

  -- `this.status !== "ready"`
  abbrev pub some_updating : List (UploadFileInfo B) → Bool
  some_updating [] = false
  some_updating (f ∷ fs) = if is_file_updating f.status then true else some_updating fs

  unfoldable pub is_updating : FileUploader B → Bool
  is_updating u = some_updating u.files

  -- The server's numbers of the uploaded files, in their order.
  unfoldable pub server_file_ids : List (UploadFileInfo B) → List ℕ
  server_file_ids [] = []
  server_file_ids (f ∷ fs) =
      let rest = server_file_ids fs in
      elim f.status [
        | uploading token progress ↦ rest
        | uploaded server_file_id ↦ server_file_id ∷ rest
        | error_status message ↦ rest
      ]

  unfoldable pub create_widget_value : FileUploader B → Option (List ℕ)
  create_widget_value u =
      if u.newest_server_file_id == 0
      then none
      else some (u.newest_server_file_id ∷ server_file_ids u.files)

  unfoldable pub reset : FileUploader B → FileUploader B
  reset u = record u { files = [] }

  unfoldable pub add_files : List (UploadFileInfo B) → FileUploader B → FileUploader B
  add_files fs u = record u { files = u.files ++ fs }

  abbrev pub add_file : UploadFileInfo B → FileUploader B → FileUploader B
  add_file f u = add_files (f ∷ []) u

  unfoldable pub remove_file : ℕ → FileUploader B → FileUploader B
  remove_file id_to_remove u = record u { files = filter (λ f. not (f.id == id_to_remove)) u.files }

  -- `files.find(file => file.id === fileId)`
  unfoldable pub find_file : ℕ → List (UploadFileInfo B) → Option (UploadFileInfo B)
  find_file file_id [] = none
  find_file file_id (f ∷ fs) = if f.id == file_id then some f else find_file file_id fs

  unfoldable pub get_file : ℕ → FileUploader B → Option (UploadFileInfo B)
  get_file file_id u = find_file file_id u.files

  unfoldable pub update_file : ℕ → UploadFileInfo B → FileUploader B → FileUploader B
  update_file cur_file_id new_file u = record u {
    files = map (λ f. if f.id == cur_file_id then new_file else f) u.files;
  }
