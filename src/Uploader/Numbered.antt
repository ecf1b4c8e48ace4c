-- ===== src/Uploader/Numbered.antt =====
-- The numbers of the files: those of the widget are in the order in which the files came, and those
-- of the server are at most the newest.
use streamlit.Prelude.{
  All, All-append, Bool, List, [], arith, filter, if_both, if◌then◌else◌, map, subst, suc, sym, ℕ,
  ◌++◌, ◌==◌, ◌∷◌, ◌≡◌, ◌≤◌,
}
use streamlit.Uploader.{
  Browser, FileStatus, FileUploader, FileUploaderProto, UploadFileInfo, error_status, new_uploader,
  reset, update_file, uploaded, uploading,
}
use streamlit.Uploader.Events.{UploaderEvent, run, step}
use streamlit.Uploader.Changes.{
  Changes, IsAscending, IsKnown, IsNumbered, adds, both, clears, keeps, newer, same, step-Changes,
  updates,
}

module _ {B : Browser} where
  IsAscending-weaken :
      (fs : List (UploadFileInfo B)) (lo lo' hi : ℕ)
      → lo ≤ lo'
      → IsAscending lo' hi fs
      → IsAscending lo hi fs
  IsAscending-weaken [] lo lo' hi h a = omega (arith, h, a)
  IsAscending-weaken (f ∷ fs) lo lo' hi h (above, rest) = (omega (arith, h, above), rest)

  IsAscending-append :
      (fs gs : List (UploadFileInfo B)) (lo m hi : ℕ)
      → IsAscending lo m fs
      → IsAscending m hi gs
      → IsAscending lo hi (fs ++ gs)
  IsAscending-append [] gs lo m hi a b = IsAscending-weaken gs lo m hi a b
  IsAscending-append (f ∷ fs) gs lo m hi (above, a) b =
      (above, IsAscending-append fs gs (suc f.id) m hi a b)

  IsAscending-filter :
      (p : UploadFileInfo B → Bool) (fs : List (UploadFileInfo B)) (lo hi : ℕ)
      → IsAscending lo hi fs
      → IsAscending lo hi (filter p fs)
  IsAscending-filter p [] lo hi a = a
  IsAscending-filter p (f ∷ fs) lo hi (above, a) =
      let rest = IsAscending-filter p fs (suc f.id) hi a in
      if_both (IsAscending lo hi) (p f) (above, rest)
        (IsAscending-weaken (filter p fs) lo (suc f.id) hi (omega (arith, above)) rest)

  pub IsAscending-le : (fs : List (UploadFileInfo B)) (lo hi : ℕ) → IsAscending lo hi fs → lo ≤ hi
  IsAscending-le [] lo hi a = a
  IsAscending-le (f ∷ fs) lo hi (above, a) = omega (arith, above, IsAscending-le fs (suc f.id) hi a)

  -- The number of a file whose entry is replaced.
  pub replaced_id :
      (k : ℕ) (new f : UploadFileInfo B) → new.id ≡ k → (if f.id == k then new else f).id ≡ f.id
  replaced_id k new f e = ground (arith, e)

  IsAscending-replace :
      (k : ℕ) (new : UploadFileInfo B) (fs : List (UploadFileInfo B)) (lo hi : ℕ)
      → new.id ≡ k
      → IsAscending lo hi fs
      → IsAscending lo hi (map (λ f. if f.id == k then new else f) fs)
  IsAscending-replace k new [] lo hi e a = a
  IsAscending-replace k new (f ∷ fs) lo hi e (above, a) =
      subst (λ n. (lo ≤ n) × IsAscending (suc n) hi (map (λ f. if f.id == k then new else f) fs))
        (sym (replaced_id k new f e)) (above, IsAscending-replace k new fs (suc f.id) hi e a)

  All-replace :
      (P : UploadFileInfo B → Type 0) (k : ℕ) (new : UploadFileInfo B)
      (fs : List (UploadFileInfo B))
      → P new
      → All P fs
      → All P (map (λ f. if f.id == k then new else f) fs)
  All-replace P k new [] p a = tt
  All-replace P k new (f ∷ fs) p (h, a) = (if_both P (f.id == k) p h, All-replace P k new fs p a)

  pub All-keep :
      (P : UploadFileInfo B → Type 0) (p : UploadFileInfo B → Bool) (fs : List (UploadFileInfo B))
      → All P fs
      → All P (filter p fs)
  All-keep P p [] a = tt
  All-keep P p (f ∷ fs) (h, a) = if_both (All P) (p f) (h, All-keep P p fs a) (All-keep P p fs a)

  All-weaken :
      (P Q : UploadFileInfo B → Type 0) (fs : List (UploadFileInfo B))
      → ((f : UploadFileInfo B) → P f → Q f)
      → All P fs
      → All Q fs
  All-weaken P Q [] i a = tt
  All-weaken P Q (f ∷ fs) i (h, a) = (i f h, All-weaken P Q fs i a)

  IsKnown-le : {m n : ℕ} (status : FileStatus B) → m ≤ n → IsKnown m status → IsKnown n status
  IsKnown-le (uploading token progress) h k = tt
  IsKnown-le (uploaded server_file_id) h k = omega (arith, h, k)
  IsKnown-le (error_status message) h k = tt

  pub Changes-IsNumbered : {u v : FileUploader B} → Changes u v → IsNumbered u → IsNumbered v
  unfolding update_file reset
  Changes-IsNumbered same h = h
  Changes-IsNumbered (both c d) h = Changes-IsNumbered d (Changes-IsNumbered c h)
  Changes-IsNumbered (adds {u} hi cs fs above no_number) (a, k) = (
    IsAscending-append u.files fs _ _ _ a above,
    All-append _ u.files fs k
        (All-weaken _ _ fs (λ f. IsKnown-le {m = 0} f.status (omega arith)) no_number),
  )
  Changes-IsNumbered (keeps {u} p cs) (a, k) =
      (IsAscending-filter p u.files _ _ a, All-keep _ p u.files k)
  Changes-IsNumbered (updates {u} i new e known) (a, k) =
      (IsAscending-replace i new u.files _ _ e a, All-replace _ i new u.files known k)
  Changes-IsNumbered (newer {u} n h) (a, k) =
      (a, All-weaken _ _ u.files (λ f. IsKnown-le f.status h) k)
  Changes-IsNumbered (clears {u}) (a, k) = (IsAscending-le u.files _ _ a, tt)

  -- Whatever happens to a new uploader: its files stand in the order of their numbers, which are
  -- all different and below the next one, and no file has a number of the server above the newest.
  pub run-IsNumbered :
      (element : FileUploaderProto) (es : List (UploaderEvent B))
      → IsNumbered (run element es new_uploader)
  run-IsNumbered element es = from es new_uploader (omega arith, tt)
    where
      from :
          (es : List (UploaderEvent B)) (u : FileUploader B)
          → IsNumbered u
          → IsNumbered (run element es u)
      from [] u h = h
      from (e ∷ es) u h =
          from es (step element e u) (Changes-IsNumbered (step-Changes element e u) h)
