-- ===== src/Uploader/Changes.antt =====
-- What an event does to the files of the widget that uploads them, in single changes.
use streamlit.Prelude.{
  All, Bool, Bool-cases, List, Option, [], arith, filter, if_both, inl, inr, length, ltb, none, not,
  refl, some, subst, suc, ℕ, ◌&&◌, ◌++◌, ◌+◌, ◌==◌, ◌∷◌, ◌≡◌, ◌≤◌,
}
use streamlit.Uploader.{
  Browser, FileRejection, FileStatus, FileUploader, FileUploaderProto, UploadCall, UploadFileInfo,
  add_files, cancel_call, error_status, find_file, get_file, is_file_updating, max, remove_file,
  reset, set_status, update_file, uploaded, uploading,
}
use streamlit.Uploader.Events.{
  UploaderEvent, accept_one, add_rejected, cancelled, completes, delete_file, deletes, drop_handler,
  drops, fails, make_room, on_upload_complete, on_upload_failed, on_upload_progress, progresses,
  rejected_infos, resets, step, upload_each, upload_file, with_progress,
}

pub found_or {ℓ κ μ} :
    {A : Type ℓ} {T : Type κ} (P : T → Type μ) (o : Option A) (missing : T) (found : A → T)
    → (o ≡ none → P missing)
    → ((a : A) → o ≡ some a → P (found a))
    → P (elim o [ none ↦ missing | some a ↦ found a ])
found_or P none missing found p q = p refl
found_or P (some a) missing found p q = q a refl

module _ {B : Browser} where
  open B use {File}

  -- The numbers go up, from `lo` on and below `hi`.
  abbrev pub IsAscending : ℕ → ℕ → List (UploadFileInfo B) → Type 0
  IsAscending lo hi [] = lo ≤ hi
  IsAscending lo hi (f ∷ fs) = (lo ≤ f.id) × IsAscending (suc f.id) hi fs

  -- A number of the server is at most the newest.
  abbrev pub IsKnown : ℕ → FileStatus B → Type 0
  IsKnown n (uploading token progress) = Unit
  IsKnown n (uploaded server_file_id) = server_file_id ≤ n
  IsKnown n (error_status message) = Unit

  abbrev pub IsNumbered : FileUploader B → Type 0
  IsNumbered u =
      IsAscending 1 u.local_file_id_counter u.files
      × All (λ f. IsKnown u.newest_server_file_id f.status) u.files

  pub data Changes : FileUploader B → FileUploader B → Type 0 where
    same : {u : FileUploader B} → Changes u u
    both : {u v w : FileUploader B} → Changes u v → Changes v w → Changes u w
    adds :
        {u : FileUploader B} (hi : ℕ) (cs : List UploadCall) (fs : List (UploadFileInfo B))
        → IsAscending u.local_file_id_counter hi fs
        → All (λ f. IsKnown 0 f.status) fs
        → Changes u (record u { files = u.files ++ fs; local_file_id_counter = hi; calls = cs })
    keeps :
        {u : FileUploader B} (p : UploadFileInfo B → Bool) (cs : List UploadCall)
        → Changes u (record u { files = filter p u.files; calls = cs })
    updates :
        {u : FileUploader B} (k : ℕ) (new : UploadFileInfo B)
        → new.id ≡ k
        → IsKnown u.newest_server_file_id new.status
        → Changes u (update_file k new u)
    newer :
        {u : FileUploader B} (n : ℕ)
        → u.newest_server_file_id ≤ n
        → Changes u (record u { newest_server_file_id = n })
    clears : {u : FileUploader B} → Changes u (reset u)

  find_file-id :
      (k : ℕ) (fs : List (UploadFileInfo B)) {f : UploadFileInfo B}
      → find_file k fs ≡ some f
      → f.id ≡ k
  unfolding find_file
  find_file-id k [] e = cc e
  find_file-id k (g ∷ fs) e = elim (Bool-cases (g.id == k)) [
    | inl here ↦ ground (arith, here, e)
    | inr elsewhere ↦ find_file-id k fs (rw elsewhere at e)
  ]

  make_room-Changes :
      (multiple : Bool) (accepted : List File) (u : FileUploader B)
      → Changes u (make_room multiple accepted u)
  unfolding make_room remove_file
  make_room-Changes multiple accepted u =
      if_both (Changes u) (not multiple && ltb 0 (length accepted)) (first_removed u.files) same
    where
      first_removed :
          (fs : List (UploadFileInfo B))
          → Changes u (elim fs [ [] ↦ u | first ∷ rest ↦ remove_file first.id u ])
      first_removed [] = same
      first_removed (f ∷ fs) = keeps (λ g. not (g.id == f.id)) u.calls

  upload_each-Changes : (fs : List File) (u : FileUploader B) → Changes u (upload_each fs u)
  unfolding upload_each upload_file add_files
  upload_each-Changes [] u = same
  upload_each-Changes (f ∷ fs) u =
      both (adds _ _ _ (omega arith, omega arith) (tt, tt))
        (upload_each-Changes fs (upload_file f u))

  rejected_infos-IsAscending :
      (element : FileUploaderProto) (n : ℕ) (rs : List (FileRejection B))
      → IsAscending n (n + length rs) (rejected_infos element n rs)
        × All (λ f. IsKnown 0 f.status) (rejected_infos element n rs)
  unfolding rejected_infos
  rejected_infos-IsAscending element n [] = (omega arith, tt)
  rejected_infos-IsAscending element n (r ∷ rs) =
      let (above, no_number) = rejected_infos-IsAscending element (n + 1) rs in
      let next : n + 1 ≡ suc n = omega arith in
      let last : n + 1 + length rs ≡ n + suc (length rs) = omega arith in
      (
        (
          omega arith,
          subst (λ hi. IsAscending (suc n) hi (rejected_infos element (n + 1) rs)) last
              (subst (λ lo. IsAscending lo (n + 1 + length rs) (rejected_infos element (n + 1) rs))
                next above),
        ),
        (tt, no_number),
      )

  on_upload_complete-Changes :
      (id server_id : ℕ) (u : FileUploader B) → Changes u (on_upload_complete id server_id u)
  unfolding on_upload_complete set_status
  on_upload_complete-Changes id server_id u =
      both (newer (max u.newest_server_file_id server_id) newest) (
        found_or (Changes u') (get_file id u') _ _ (λ _. same)
          λ cur_file _.
            if_both (Changes u') (is_file_updating cur_file.status)
              (updates cur_file.id (set_status (uploaded server_id) cur_file) refl known) same)
    where
      u' : FileUploader B
      u' = record u { newest_server_file_id = max u.newest_server_file_id server_id }

      newest : u.newest_server_file_id ≤ max u.newest_server_file_id server_id
      newest = ground arith

      known : server_id ≤ max u.newest_server_file_id server_id
      known = ground arith

  delete_file-Changes : (id : ℕ) (u : FileUploader B) → Changes u (delete_file id u)
  unfolding delete_file remove_file
  delete_file-Changes id u =
      found_or (Changes u) (get_file id u) _ _ (λ _. same) (λ f _. removed f.status)
    where
      removed : (status : FileStatus B) → Changes u (remove_file id (cancelled status u))
      removed (uploading token progress) =
          keeps (λ f. not (f.id == id)) (u.calls ++ (cancel_call token ∷ []))
      removed (uploaded server_file_id) = keeps (λ f. not (f.id == id)) u.calls
      removed (error_status message) = keeps (λ f. not (f.id == id)) u.calls

  on_upload_progress-Changes :
      (event : B.ProgressEvent) (id : ℕ) (u : FileUploader B)
      → Changes u (on_upload_progress event id u)
  unfolding on_upload_progress get_file set_status
  on_upload_progress-Changes event id u =
      found_or (Changes u) (get_file id u) _ _ (λ _. same)
        (λ f found. changed f f.status (find_file-id id u.files found))
    where
      changed :
          (f : UploadFileInfo B) (status : FileStatus B)
          → f.id ≡ id
          → Changes u (with_progress event id f status u)
      changed f (uploading token progress) e =
          if_both (Changes u) (B.same_progress progress (B.percent event)) same
            (updates id (set_status (uploading token (B.percent event)) f) e tt)
      changed f (uploaded server_file_id) e = same
      changed f (error_status message) e = same

  add_rejected-Changes :
      (element : FileUploaderProto) (rejected : List (FileRejection B)) (u : FileUploader B)
      → Changes u (add_rejected element rejected u)
  unfolding add_rejected add_files
  add_rejected-Changes element rejected u =
      let next = u.local_file_id_counter in
      let (above, no_number) = rejected_infos-IsAscending element next rejected in
      if_both (Changes u) (ltb 0 (length rejected)) (adds _ u.calls _ above no_number) same

  pub step-Changes :
      (element : FileUploaderProto) (e : UploaderEvent B) (u : FileUploader B)
      → Changes u (step element e u)
  unfolding drop_handler on_upload_failed set_status
  step-Changes element (drops accepted rejected) u =
      let (accepted', rejected') = accept_one element.multiple_files accepted rejected in
      let roomy = make_room element.multiple_files accepted' u in
      both
        (both (make_room-Changes element.multiple_files accepted' u)
          (upload_each-Changes accepted' roomy))
        (add_rejected-Changes element rejected' (upload_each accepted' roomy))
  step-Changes element (completes id server_id) u = on_upload_complete-Changes id server_id u
  step-Changes element (fails f is_cancel error) u =
      if_both (Changes u) is_cancel same (updates f.id _ refl tt)
  step-Changes element (progresses event id) u = on_upload_progress-Changes event id u
  step-Changes element (deletes id) u = delete_file-Changes id u
  step-Changes element resets u = clears
