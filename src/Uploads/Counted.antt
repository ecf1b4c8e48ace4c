-- ===== src/Uploads/Counted.antt =====
-- The counts of a file upload client are those of the uploads that have begun and not ended, among
-- them those that never end.
use streamlit.Prelude.{
  Bool, Bool-cases, List, Option, String, [], ap, arith, eq_iff, eq_refl, false, if_both,
  if◌then◌else◌, inl, inr, none, refl, some, str_eq, subst, suc, sym, true, zero, ℕ, ◌++◌, ◌+◌, ◌∙◌,
  ◌∷◌, ◌≡◌,
}
use streamlit.Prelude.Int.{pos}
use streamlit.Prelude.Result.{Result, ok}
use streamlit.JsMap
use streamlit.JsMap.{JsMap, JsSet}
use streamlit.JsMap.Laws.{get-delete, get-set}
use streamlit.Widgets.Values.{is_valid_form_id}
use streamlit.Uploads.{
  FileUploadClient, UploadError, new_client, no_session, not_connected,
  offset_pending_request_count, pending_request_count, store_count, upload_begins, upload_ends,
}

abbrev pub occurrences : String → List String → ℕ
occurrences k [] = 0
occurrences k (j ∷ js) = if str_eq j k then suc (occurrences k js) else occurrences k js

abbrev pub entry_of : ℕ → Option ℕ
entry_of zero = none
entry_of (suc n) = some (suc n)

-- Each form has the number of its uploads, and no entry if it has none; the empty id names no form.
abbrev pub IsCounted : List String → FileUploadClient → Type 0
IsCounted uploads c =
    (form_id : String)
    → JsMap.get form_id c.forms_with_pending_requests
      ≡ (if is_valid_form_id (some form_id) then entry_of (occurrences form_id uploads) else none)

occurrences-append :
    (k : String) (xs ys : List String)
    → occurrences k (xs ++ ys) ≡ occurrences k xs + occurrences k ys
occurrences-append k [] ys = omega arith
occurrences-append k (x ∷ xs) ys = ground (arith, occurrences-append k xs ys)

occurrences-insert :
    (k j : String) (xs ys : List String)
    → occurrences k (xs ++ (j ∷ ys))
      ≡ (if str_eq j k then suc (occurrences k (xs ++ ys)) else occurrences k (xs ++ ys))
occurrences-insert k j xs ys =
    ground (arith, occurrences-append k xs (j ∷ ys), occurrences-append k xs ys)

append_twice :
    (xs ys zs : List String) (k : String)
    → occurrences k ((xs ++ ys) ++ zs) ≡ occurrences k (xs ++ (ys ++ zs))
append_twice [] ys zs k = refl
append_twice (x ∷ xs) ys zs k = ground (arith, append_twice xs ys zs k)

module _ (is_equal : JsSet → JsSet → Bool) where
  -- The uploads that are under way and those that were counted when there was no server, by their
  -- forms, and the client.
  pub data Uploading : List String → List String → FileUploadClient → Type 0 where
    idle : Uploading [] [] new_client
    begins :
        {uploads lost : List String} {c c' : FileUploadClient} (form_id : String)
        → Uploading uploads lost c
        → upload_begins is_equal true true form_id c ≡ (none, c')
        → Uploading (form_id ∷ uploads) lost c'
    not_sent :
        {uploads lost : List String} {c c' : FileUploadClient} (form_id : String)
        → Uploading uploads lost c
        → upload_begins is_equal true false form_id c ≡ (some not_connected, c')
        → Uploading uploads (form_id ∷ lost) c'
    not_begun :
        {uploads lost : List String} {c c' : FileUploadClient} (is_connected : Bool)
        (form_id : String)
        → Uploading uploads lost c
        → upload_begins is_equal false is_connected form_id c ≡ (some no_session, c')
        → Uploading uploads lost c'
    ends :
        {lost : List String} {c c' : FileUploadClient} (before after : List String)
        (form_id : String)
        → Uploading (before ++ (form_id ∷ after)) lost c
        → upload_ends is_equal form_id c ≡ ok c'
        → Uploading (before ++ after) lost c'

  get-store_count :
      (j form_id : String) (n : ℕ) (c : FileUploadClient)
      → JsMap.get j (store_count is_equal form_id n c).forms_with_pending_requests
        ≡ (if str_eq form_id j then entry_of n else JsMap.get j c.forms_with_pending_requests)
  unfolding store_count
  get-store_count j form_id zero c =
      ground (arith, get-delete j form_id c.forms_with_pending_requests)
  get-store_count j form_id (suc n) c =
      ground (arith, get-set j form_id (suc n) c.forms_with_pending_requests)

  begin_valid :
      (form_id : String) (uploads : List String) (c : FileUploadClient)
      → is_valid_form_id (some form_id) ≡ true
      → IsCounted uploads c
      → offset_pending_request_count is_equal form_id (pos 1) c
        ≡ ok (store_count is_equal form_id (suc (occurrences form_id uploads)) c)
  unfolding offset_pending_request_count pending_request_count
  begin_valid form_id uploads c valid counted = ground (arith, valid, counted form_id)

  end_valid :
      (form_id : String) (n : ℕ) (c : FileUploadClient)
      → is_valid_form_id (some form_id) ≡ true
      → JsMap.get form_id c.forms_with_pending_requests ≡ some (suc n)
      → upload_ends is_equal form_id c ≡ ok (store_count is_equal form_id n c)
  unfolding upload_ends offset_pending_request_count pending_request_count
  end_valid form_id n c valid e = ground (arith, valid, e)

  invalid_ignored :
      (form_id : String) (c : FileUploadClient)
      → is_valid_form_id (some form_id) ≡ false
      → (offset_pending_request_count is_equal form_id (pos 1) c ≡ ok c)
        × (upload_ends is_equal form_id c ≡ ok c)
  unfolding upload_ends offset_pending_request_count
  invalid_ignored form_id c invalid = (rw invalid refl, rw invalid refl)

  -- A client whose count of one form is stored.
  store_count-IsCounted :
      (form_id : String) (before after : List String) (n : ℕ) (c : FileUploadClient)
      → is_valid_form_id (some form_id) ≡ true
      → IsCounted before c
      → occurrences form_id after ≡ n
      → ((j : String) → str_eq form_id j ≡ false → occurrences j after ≡ occurrences j before)
      → IsCounted after (store_count is_equal form_id n c)
  store_count-IsCounted form_id before after n c good counted here there j =
      elim (Bool-cases (str_eq form_id j)) [
        | inl same ↦
            ground
              (arith, same, get-store_count j form_id n c, (eq_iff form_id j).0 same, here, good)
        | inr differ ↦
            ground (arith, differ, get-store_count j form_id n c, there j differ, counted j)
      ]

  -- No upload is counted under an id that is not valid.
  other_form :
      (form_id j : String) (n m : ℕ)
      → is_valid_form_id (some form_id) ≡ false
      → (str_eq form_id j ≡ false → n ≡ m)
      → (if is_valid_form_id (some j) then entry_of n else none)
        ≡ (if is_valid_form_id (some j) then entry_of m else none)
  other_form form_id j n m invalid same_count = elim (Bool-cases (str_eq form_id j)) [
    | inl same ↦
        let bad : is_valid_form_id (some j) ≡ false =
          subst (λ k. is_valid_form_id (some k) ≡ false) ((eq_iff form_id j).0 same) invalid in
        rw bad refl
    | inr differ ↦
        ap (λ k. if is_valid_form_id (some j) then entry_of k else none) (same_count differ)
  ]

  begun :
      (form_id : String) (uploads : List String) (c : FileUploadClient)
      → IsCounted uploads c
      → (c' : FileUploadClient) × (offset_pending_request_count is_equal form_id (pos 1) c ≡ ok c')
        × IsCounted (form_id ∷ uploads) c'
  begun form_id uploads c counted = elim (Bool-cases (is_valid_form_id (some form_id))) [
    | inl valid ↦ (
      store_count is_equal form_id (suc (occurrences form_id uploads)) c,
      begin_valid form_id uploads c valid counted,
      store_count-IsCounted form_id uploads (form_id ∷ uploads) _ c valid counted
          (ground (arith, eq_refl form_id)) (λ j differ. ground (arith, differ)),
    )
    | inr invalid ↦ (
      c,
      (invalid_ignored form_id c invalid).0,
      λ j.
          counted j
          ∙ other_form form_id j (occurrences j uploads) (occurrences j (form_id ∷ uploads)) invalid
              (λ differ. ground (arith, differ)),
    )
  ]

  ended :
      (form_id : String) (before after : List String) (c : FileUploadClient)
      → IsCounted (before ++ (form_id ∷ after)) c
      → (c' : FileUploadClient) × (upload_ends is_equal form_id c ≡ ok c')
        × IsCounted (before ++ after) c'
  ended form_id before after c counted = elim (Bool-cases (is_valid_form_id (some form_id))) [
    | inl valid ↦ (
      store_count is_equal form_id (occurrences form_id (before ++ after)) c,
      end_valid form_id (occurrences form_id (before ++ after)) c valid (
          ground (
            arith,
            counted form_id,
            valid,
            occurrences-insert form_id form_id before after,
            eq_refl form_id,
          )),
      store_count-IsCounted form_id (before ++ (form_id ∷ after)) (before ++ after) _ c valid
          counted refl
          (λ j differ. ground (arith, differ, occurrences-insert j form_id before after)),
    )
    | inr invalid ↦ (
      c,
      (invalid_ignored form_id c invalid).1,
      λ j.
          counted j
          ∙ other_form form_id j (occurrences j (before ++ (form_id ∷ after)))
              (occurrences j (before ++ after)) invalid
              (λ differ. ground (arith, differ, occurrences-insert j form_id before after)),
    )
  ]

  same_result :
      {x : Result UploadError FileUploadClient} {c c' : FileUploadClient}
      → x ≡ ok c
      → x ≡ ok c'
      → c ≡ c'
  same_result e e' = ground (arith, e, e')

  IsCounted-same :
      (xs ys : List String) (c : FileUploadClient)
      → ((k : String) → occurrences k xs ≡ occurrences k ys)
      → IsCounted xs c
      → IsCounted ys c
  IsCounted-same xs ys c same counted k =
      counted k ∙ ap (λ n. if is_valid_form_id (some k) then entry_of n else none) (same k)

  -- An upload that is counted, whether it can be sent or not.
  begins-IsCounted :
      (is_connected : Bool) (form_id : String) (uploads : List String) (c : FileUploadClient)
      {e : Option UploadError} {c' : FileUploadClient}
      → IsCounted uploads c
      → upload_begins is_equal true is_connected form_id c ≡ (e, c')
      → IsCounted (form_id ∷ uploads) c'
  unfolding upload_begins
  begins-IsCounted true form_id uploads c counted begin =
      let (d, done, counted') = begun form_id uploads c counted in
      subst (IsCounted (form_id ∷ uploads)) (ap (λ x. x.1) (rw done at begin)) counted'
  begins-IsCounted false form_id uploads c counted begin =
      let (d, done, counted') = begun form_id uploads c counted in
      subst (IsCounted (form_id ∷ uploads)) (ap (λ x. x.1) (rw done at begin)) counted'

  -- However uploads begin and end, the client counts for each form exactly the uploads under way
  -- and those that were begun without a server, which never end, and has no entry for a form
  -- without any.
  pub Uploading-IsCounted :
      {uploads lost : List String} {c : FileUploadClient}
      → Uploading uploads lost c
      → IsCounted (uploads ++ lost) c
  unfolding new_client JsMap.get upload_begins
  Uploading-IsCounted idle = λ form_id.
      if_both (λ (o : Option ℕ). none ≡ o) (is_valid_form_id (some form_id)) {x = none} {y = none}
        refl refl
  Uploading-IsCounted (begins {uploads} {lost} {c} {c'} form_id u e) =
      begins-IsCounted true form_id (uploads ++ lost) c (Uploading-IsCounted u) e
  Uploading-IsCounted (not_sent {uploads} {lost} {c} {c'} form_id u e) =
      IsCounted-same (form_id ∷ (uploads ++ lost)) (uploads ++ (form_id ∷ lost)) c'
        (λ k. sym (occurrences-insert k form_id uploads lost))
        (begins-IsCounted false form_id (uploads ++ lost) c (Uploading-IsCounted u) e)
  Uploading-IsCounted (not_begun {uploads} {lost} {c} {c'} is_connected form_id u e) =
      subst (IsCounted (uploads ++ lost)) (ap (λ x. x.1) e) (Uploading-IsCounted u)
  Uploading-IsCounted (ends {lost} {c} {c'} before after form_id u e) =
      let counted =
        IsCounted-same ((before ++ (form_id ∷ after)) ++ lost)
          (before ++ (form_id ∷ (after ++ lost))) c (append_twice before (form_id ∷ after) lost)
          (Uploading-IsCounted u) in
      let (d, done, counted') = ended form_id before (after ++ lost) c counted in
      IsCounted-same (before ++ (after ++ lost)) ((before ++ after) ++ lost) c'
        (λ k. sym (append_twice before after lost k))
        (subst (IsCounted (before ++ (after ++ lost))) (same_result done e) counted')

  -- While an upload is under way, it can end without a throw, so that no count goes below zero, and
  -- another can begin.
  pub Uploading-throws_nothing :
      {lost : List String} {c : FileUploadClient} (before after : List String)
      (form_id other_id : String)
      → Uploading (before ++ (form_id ∷ after)) lost c
      → ((c' : FileUploadClient) × (upload_begins is_equal true true other_id c ≡ (none, c')))
        × ((c' : FileUploadClient) × (upload_ends is_equal form_id c ≡ ok c'))
  unfolding upload_begins
  Uploading-throws_nothing {lost} {c} before after form_id other_id u =
      let counted = Uploading-IsCounted u in
      let (c', begin_done, _) = begun other_id ((before ++ (form_id ∷ after)) ++ lost) c counted in
      let (c'', end_done, _) = ended form_id before (after ++ lost) c (
        IsCounted-same ((before ++ (form_id ∷ after)) ++ lost)
          (before ++ (form_id ∷ (after ++ lost))) c (append_twice before (form_id ∷ after) lost)
          counted) in
      ((c', rw begin_done refl), (c'', end_done))
