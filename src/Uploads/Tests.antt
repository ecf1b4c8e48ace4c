-- ===== src/Uploads/Tests.antt =====
-- Runs of frontend/src/lib/FileUploadClient.ts at concrete inputs.
use streamlit.Prelude.{
  Bool, Bool-cases, String, [], arith, eq_iff, false, inl, inr, none, refl, some, str_eq, true,
  ◌&&◌, ◌∷◌, ◌≡◌,
}
use streamlit.Prelude.Result.{ok}
use streamlit.JsMap
use streamlit.JsMap.{JsMap, JsSet, has}
use streamlit.Widgets.Values.{is_valid_form_id}
use streamlit.Uploads.{
  FileUploadClient, get_form_id_set, keys, new_client, not_connected, offset_pending_request_count,
  pending_request_count, store_count, upload_begins, upload_ends,
}
use streamlit.Uploads.Counted.{IsCounted, Uploading-IsCounted, begins, ends, idle, not_sent}
use streamlit.Uploads.Notified.{IsNotified, Uploading-IsNotified}

-- Sets whose members stand in the same order.
abbrev is_equal : JsSet → JsSet → Bool
is_equal [] [] = true
is_equal (j ∷ js) (k ∷ ks) = str_eq j k && is_equal js ks
is_equal js ks = false

is_equal-has : (a b : JsSet) → is_equal a b ≡ true → (k : String) → has k a ≡ has k b
unfolding has
is_equal-has [] [] e k = refl
is_equal-has [] (j ∷ b) e k = cc e
is_equal-has (i ∷ a) [] e k = cc e
is_equal-has (i ∷ a) (j ∷ b) e k = elim (Bool-cases (str_eq i j)) [
  | inl same ↦ elim (Bool-cases (is_equal a b)) [
    | inl rest ↦ ground (arith, (eq_iff i j).0 same, is_equal-has a b rest k)
    | inr changed ↦ absurd (ground (arith, e, changed))
  ]
  | inr differ ↦ absurd (ground (arith, e, differ))
]

abbrev one_upload : FileUploadClient
one_upload = record {
  forms_with_pending_requests = ("form", 1) ∷ [];
  notified = ("form" ∷ []) ∷ [];
}

upload_begun : upload_begins is_equal true true "form" new_client ≡ (none, one_upload)
unfolding upload_begins offset_pending_request_count pending_request_count store_count new_client
    get_form_id_set keys JsMap.get JsMap.set is_valid_form_id
upload_begun = refl

-- The end of the upload is notified too.
upload_ended :
    upload_ends is_equal "form" one_upload
    ≡ ok (record { forms_with_pending_requests = []; notified = ("form" ∷ []) ∷ [] ∷ [] })
unfolding upload_ends offset_pending_request_count pending_request_count store_count get_form_id_set
    keys JsMap.get JsMap.delete is_valid_form_id
upload_ended = refl

-- Without a server the count is raised, and stays.
abbrev two_uploads : FileUploadClient
two_uploads = record {
  forms_with_pending_requests = ("form", 2) ∷ [];
  notified = ("form" ∷ []) ∷ [];
}

second_not_sent :
    upload_begins is_equal true false "form" one_upload ≡ (some not_connected, two_uploads)
unfolding upload_begins offset_pending_request_count pending_request_count store_count
    get_form_id_set keys JsMap.get JsMap.set is_valid_form_id
second_not_sent = refl

first_ended : upload_ends is_equal "form" two_uploads ≡ ok one_upload
unfolding upload_ends offset_pending_request_count pending_request_count store_count get_form_id_set
    keys JsMap.get JsMap.set is_valid_form_id
first_ended = refl

-- No upload is under way, and the form waits.
Uploading-IsCounted_example : IsCounted ("form" ∷ []) one_upload
Uploading-IsCounted_example = Uploading-IsCounted is_equal (
    ends [] [] "form" (not_sent "form" (begins "form" idle upload_begun) second_not_sent)
      first_ended)

Uploading-IsNotified_example : IsNotified one_upload
Uploading-IsNotified_example =
    Uploading-IsNotified is_equal is_equal-has (begins "form" idle upload_begun)
