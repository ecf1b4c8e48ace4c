-- ===== src/Uploader/Deleted.antt =====
-- A file that is deleted stays deleted: its number is not given again, and what comes of its upload
-- finds no file.
use streamlit.Prelude.{
  All, All-append, Bool-cases, List, [], arith, filter, if◌then◌else◌, inl, inr, map, none, not,
  refl, suc, sym, ℕ, ◌<◌, ◌==◌, ◌∙◌, ◌∷◌, ◌≡◌, ◌≢◌,
}
use streamlit.Uploader.{
  Browser, FileStatus, FileUploader, FileUploaderProto, UploadFileInfo, error_status, find_file,
  get_file, remove_file, reset, update_file, uploaded, uploading,
}
use streamlit.Uploader.Events.{UploaderEvent, cancelled, delete_file, run, step}
use streamlit.Uploader.Changes.{
  Changes, IsAscending, adds, both, clears, found_or, keeps, newer, same, step-Changes, updates,
}
use streamlit.Uploader.Numbered.{All-keep, IsAscending-le, replaced_id}

module _ {B : Browser} where
  abbrev Lacks : ℕ → List (UploadFileInfo B) → Type 0
  Lacks k = All (λ f. f.id ≢ k)

  -- The number has been given, to no file that is still here.
  abbrev IsGone : ℕ → FileUploader B → Type 0
  IsGone k u = (k < u.local_file_id_counter) × Lacks k u.files

  find_file-Lacks : (k : ℕ) (fs : List (UploadFileInfo B)) → Lacks k fs → find_file k fs ≡ none
  unfolding find_file
  find_file-Lacks k [] h = refl
  find_file-Lacks k (f ∷ fs) (differs, rest) = ground (arith, differs, find_file-Lacks k fs rest)

  Lacks-find_file : (k : ℕ) (fs : List (UploadFileInfo B)) → find_file k fs ≡ none → Lacks k fs
  unfolding find_file
  Lacks-find_file k [] e = tt
  Lacks-find_file k (f ∷ fs) e = elim (Bool-cases (f.id == k)) [
    | inl here ↦ absurd (ground (arith, here, e))
    | inr elsewhere ↦ (ground (arith, elsewhere), Lacks-find_file k fs (rw elsewhere at e))
  ]

  Lacks-filter : (k : ℕ) (fs : List (UploadFileInfo B)) → Lacks k (filter (λ f. not (f.id == k)) fs)
  Lacks-filter k [] = tt
  Lacks-filter k (f ∷ fs) = elim (Bool-cases (f.id == k)) [
    | inl here ↦ rw here (Lacks-filter k fs)
    | inr elsewhere ↦ rw elsewhere (ground (arith, elsewhere), Lacks-filter k fs)
  ]

  IsAscending-Lacks :
      (fs : List (UploadFileInfo B)) (k lo hi : ℕ) → k < lo → IsAscending lo hi fs → Lacks k fs
  IsAscending-Lacks [] k lo hi h a = tt
  IsAscending-Lacks (f ∷ fs) k lo hi h (above, a) = (
    (λ e. absurd (omega (arith, h, above, e))),
    IsAscending-Lacks fs k (suc f.id) hi (omega (arith, h, above)) a,
  )

  Lacks-replace :
      (k i : ℕ) (new : UploadFileInfo B) (fs : List (UploadFileInfo B))
      → new.id ≡ i
      → Lacks k fs
      → Lacks k (map (λ f. if f.id == i then new else f) fs)
  Lacks-replace k i new [] e h = tt
  Lacks-replace k i new (f ∷ fs) e (differs, rest) = (
    (λ same_id. differs (sym (replaced_id i new f e) ∙ same_id)),
    Lacks-replace k i new fs e rest,
  )

  Changes-IsGone : (k : ℕ) {u v : FileUploader B} → Changes u v → IsGone k u → IsGone k v
  unfolding update_file reset
  Changes-IsGone k same h = h
  Changes-IsGone k (both c d) h = Changes-IsGone k d (Changes-IsGone k c h)
  Changes-IsGone k (adds {u} hi cs fs above no_number) (before, h) = (
    omega (arith, before, IsAscending-le fs u.local_file_id_counter hi above),
    All-append _ u.files fs h (IsAscending-Lacks fs k u.local_file_id_counter hi before above),
  )
  Changes-IsGone k (keeps {u} p cs) (before, h) = (before, All-keep _ p u.files h)
  Changes-IsGone k (updates {u} i new e known) (before, h) =
      (before, Lacks-replace k i new u.files e h)
  Changes-IsGone k (newer n above) h = h
  Changes-IsGone k clears (before, h) = (before, tt)

  delete_file-IsGone :
      (k : ℕ) (u : FileUploader B) → k < u.local_file_id_counter → IsGone k (delete_file k u)
  unfolding delete_file remove_file get_file
  delete_file-IsGone k u before =
      found_or (IsGone k) (find_file k u.files) _ _
        (λ missing. (before, Lacks-find_file k u.files missing)) (λ f found. removed f.status)
    where
      removed : (status : FileStatus B) → IsGone k (remove_file k (cancelled status u))
      removed (uploading token progress) = (before, Lacks-filter k u.files)
      removed (uploaded server_file_id) = (before, Lacks-filter k u.files)
      removed (error_status message) = (before, Lacks-filter k u.files)

  -- A file that has been added and is deleted is not found again, whatever happens afterwards: also
  -- when its upload still goes on, completes or fails.
  pub deleted_stays_gone :
      (element : FileUploaderProto) (k : ℕ) (u : FileUploader B) (es : List (UploaderEvent B))
      → k < u.local_file_id_counter
      → get_file k (run element es (delete_file k u)) ≡ none
  unfolding get_file
  deleted_stays_gone element k u es before =
      from es (delete_file k u) (delete_file-IsGone k u before)
    where
      from :
          (es : List (UploaderEvent B)) (u : FileUploader B)
          → IsGone k u
          → find_file k (run element es u).files ≡ none
      from [] u (given, h) = find_file-Lacks k u.files h
      from (e ∷ es) u h = from es (step element e u) (Changes-IsGone k (step-Changes element e u) h)
