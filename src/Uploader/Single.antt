-- ===== src/Uploader/Single.antt =====
-- What a single-file uploader makes of a file that is dropped on it.
use streamlit.Prelude.{
  List, [], ap, arith, false, filter, not, refl, suc, true, ℕ, ◌++◌, ◌<◌, ◌==◌, ◌∷◌, ◌≡◌,
}
use streamlit.Uploader.{
  Browser, FileUploader, FileUploaderProto, UploadFileInfo, add_files, remove_file, uploading,
}
use streamlit.Uploader.Events.{
  accept_one, add_rejected, drop_handler, make_room, upload_each, upload_file,
}
use streamlit.Uploader.Changes.{IsAscending, IsNumbered}

module _ {B : Browser} where
  open B use {File, begun}

  filter-above :
      (k : ℕ) (fs : List (UploadFileInfo B)) (lo hi : ℕ)
      → k < lo
      → IsAscending lo hi fs
      → filter (λ f. not (f.id == k)) fs ≡ fs
  filter-above k [] lo hi h a = refl
  filter-above k (f ∷ fs) lo hi h (above, a) =
      let other : (f.id == k) ≡ false = ground (arith, h, above) in
      rw other (ap (λ rest. f ∷ rest) (filter-above k fs (suc f.id) hi (omega (arith, h, above)) a))

  abbrev pub without_first : List (UploadFileInfo B) → List (UploadFileInfo B)
  without_first [] = []
  without_first (f ∷ fs) = fs

  -- A file whose upload begins.
  abbrev pub begins : File → ℕ → UploadFileInfo B
  begins file id = record { file = file; id = id; status = uploading id begun }

  remove_first :
      (f : UploadFileInfo B) (fs : List (UploadFileInfo B)) (lo hi : ℕ)
      → IsAscending lo hi (f ∷ fs)
      → filter (λ g. not (g.id == f.id)) (f ∷ fs) ≡ fs
  remove_first f fs lo hi (above, a) =
      let here : (f.id == f.id) ≡ true = ground arith in
      rw here (filter-above f.id fs (suc f.id) hi (omega arith) a)

  make_room-files :
      (u : FileUploader B) (file : File)
      → IsNumbered u
      → make_room false (file ∷ []) u ≡ record u { files = without_first u.files }
  unfolding make_room remove_file
  make_room-files u file (a, known) = at u.files a
    where
      at :
          (fs : List (UploadFileInfo B))
          → IsAscending 1 u.local_file_id_counter fs
          → make_room false (file ∷ []) (record u { files = fs })
            ≡ record u { files = without_first fs }
      at [] a = refl
      at (f ∷ fs) a =
          ap (λ gs. record u { files = gs }) (remove_first f fs 1 u.local_file_id_counter a)

  -- A single file that is dropped on a single-file uploader, whose files are numbered as in every
  -- run, takes the place of the first file, and of no other: all later ones stay, uploaded or not.
  pub drop_handler-single :
      (element : FileUploaderProto) (u : FileUploader B) (file : File)
      → element.multiple_files ≡ false
      → IsNumbered u
      → (drop_handler element (file ∷ []) [] u).files
        ≡ without_first u.files ++ (begins file u.local_file_id_counter ∷ [])
  unfolding drop_handler accept_one upload_each upload_file add_files add_rejected
  drop_handler-single element u file single numbered = rw single (
      ap (λ (v : FileUploader B). v.files ++ (begins file v.local_file_id_counter ∷ []))
        (make_room-files u file numbered))
