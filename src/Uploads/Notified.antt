-- ===== src/Uploads/Notified.antt =====
-- The owner of a file upload client knows which forms wait for uploads.
use streamlit.Prelude.{
  Bool, Bool-cases, List, Option, String, [], ap, false, if_both, if◌then◌else◌, inl, inr, none,
  not, refl, some, subst, sym, true, ℕ, ◌++◌, ◌∙◌, ◌∷◌, ◌≡◌,
}
use streamlit.Prelude.Int.{negsuc, pos, ℤ}
use streamlit.Prelude.Result.{Result, err, ok}
use streamlit.JsMap.{JsSet, has}
use streamlit.Widgets.Values.{is_valid_form_id}
use streamlit.Uploads.{
  FileUploadClient, UploadError, add_offset, below_zero, get_form_id_set, is_zero, keys, new_client,
  not_connected, offset_pending_request_count, pending_request_count, store_count, upload_begins,
  upload_ends,
}
use streamlit.Uploads.Counted.{Uploading, begins, ends, idle, not_begun, not_sent}

-- The set of the latest call, and the empty set before any call.
abbrev pub latest : List JsSet → JsSet
latest [] = []
latest (s ∷ []) = s
latest (s ∷ t ∷ sets) = latest (t ∷ sets)

latest-append : (sets : List JsSet) (s : JsSet) → latest (sets ++ (s ∷ [])) ≡ s
latest-append [] s = refl
latest-append (t ∷ []) s = refl
latest-append (t ∷ t' ∷ sets) s = latest-append (t' ∷ sets) s

-- The same forms are in the latest set and in the map.
abbrev pub IsNotified : FileUploadClient → Type 0
IsNotified c = (k : String) → has k (latest c.notified) ≡ has k (get_form_id_set c)

module _ (is_equal : JsSet → JsSet → Bool)
    (same_members : (a b : JsSet) → is_equal a b ≡ true → (k : String) → has k a ≡ has k b) where
  notified_or_same :
      (sets : List JsSet) (old new : JsSet)
      → ((k : String) → has k (latest sets) ≡ has k old)
      → (k : String)
      → has k (latest (if is_equal new old then sets else sets ++ (new ∷ []))) ≡ has k new
  notified_or_same sets old new known k = elim (Bool-cases (is_equal new old)) [
    | inl same ↦ rw same (known k ∙ sym (same_members new old same k))
    | inr changed ↦ rw (changed, latest-append sets new) refl
  ]

  store_count-IsNotified :
      (form_id : String) (n : ℕ) (c : FileUploadClient)
      → IsNotified c
      → IsNotified (store_count is_equal form_id n c)
  unfolding store_count get_form_id_set
  store_count-IsNotified form_id n c known k =
      notified_or_same c.notified (keys c.forms_with_pending_requests) _ known k

  -- Of the client, where nothing was thrown.
  abbrev IfOk : Result UploadError FileUploadClient → Type 0
  IfOk (ok c) = IsNotified c
  IfOk (err e) = Unit

  stored-IfOk :
      (form_id : String) (count : ℕ) (offset z : ℤ) (c : FileUploadClient)
      → IsNotified c
      → IfOk (elim z as (λ _. Result UploadError FileUploadClient) [
        | pos new_count ↦ ok (store_count is_equal form_id new_count c)
        | negsuc n ↦ err (below_zero form_id count offset)
      ])
  stored-IfOk form_id count offset (pos n) c known = store_count-IsNotified form_id n c known
  stored-IfOk form_id count offset (negsuc n) c known = tt

  offset-IfOk :
      (form_id : String) (offset : ℤ) (c : FileUploadClient)
      → IsNotified c
      → IfOk (offset_pending_request_count is_equal form_id offset c)
  unfolding offset_pending_request_count
  offset-IfOk form_id offset c known = if_both IfOk (is_zero offset) known (
      if_both IfOk (not (is_valid_form_id (some form_id))) known (
        stored-IfOk form_id (pending_request_count form_id c) offset
          (add_offset (pending_request_count form_id c) offset) c known))

  offset-IsNotified :
      (form_id : String) (offset : ℤ) (c : FileUploadClient) {c' : FileUploadClient}
      → IsNotified c
      → offset_pending_request_count is_equal form_id offset c ≡ ok c'
      → IsNotified c'
  offset-IsNotified form_id offset c known e = subst IfOk e (offset-IfOk form_id offset c known)

  -- `request` changes nothing of the client, whether it throws or not.
  begins-IsNotified :
      (is_connected : Bool) (form_id : String) (c : FileUploadClient) {e : Option UploadError}
      {c' : FileUploadClient}
      → IsNotified c
      → upload_begins is_equal true is_connected form_id c ≡ (e, c')
      → IsNotified c'
  unfolding upload_begins
  begins-IsNotified is_connected form_id c {e} {c'} known begin =
      by_result (offset_pending_request_count is_equal form_id (pos 1) c) is_connected
        (offset-IfOk form_id (pos 1) c known) begin
    where
      by_result :
          (x : Result UploadError FileUploadClient) (is_connected : Bool)
          → IfOk x
          → elim x as (λ _. Option UploadError × FileUploadClient) [
            | ok d ↦ if is_connected then (none, d) else (some not_connected, d)
            | err error ↦ (some error, c)
          ]
            ≡ (e, c')
          → IsNotified c'
      by_result (ok d) true known' same = subst IsNotified (ap (λ y. y.1) same) known'
      by_result (ok d) false known' same = subst IsNotified (ap (λ y. y.1) same) known'
      by_result (err error) is_connected known' same = subst IsNotified (ap (λ y. y.1) same) known

  -- After any uploads have begun and ended, with a server or without, the owner was told, last of
  -- all, of a set with exactly the forms that wait for uploads. `isEqual` is true only of sets with
  -- the same members.
  pub Uploading-IsNotified :
      {uploads lost : List String} {c : FileUploadClient}
      → Uploading is_equal uploads lost c
      → IsNotified c
  unfolding new_client get_form_id_set upload_ends keys upload_begins
  Uploading-IsNotified idle = λ k. refl
  Uploading-IsNotified (begins {uploads} {lost} {c} {c'} form_id u e) =
      begins-IsNotified true form_id c (Uploading-IsNotified u) e
  Uploading-IsNotified (not_sent {uploads} {lost} {c} {c'} form_id u e) =
      begins-IsNotified false form_id c (Uploading-IsNotified u) e
  Uploading-IsNotified (not_begun {uploads} {lost} {c} {c'} is_connected form_id u e) =
      subst IsNotified (ap (λ y. y.1) e) (Uploading-IsNotified u)
  Uploading-IsNotified (ends {lost} {c} {c'} before after form_id u e) =
      offset-IsNotified form_id (negsuc 0) c (Uploading-IsNotified u) e
