-- ===== src/Uploads.antt =====
-- frontend/src/lib/FileUploadClient.ts: how many uploads each form waits for. The request itself
-- (frontend/src/lib/HttpClient.ts) is not modelled but for its throw where there is no server. An
-- upload that begins with a server ends, however its promise settles; one that begins without stays
-- counted. lodash's `isEqual` of two sets is a parameter, and the calls of
-- `pendingFormUploadsChanged` are recorded in `notified`, the latest last.
pub mod Counted
pub mod Notified
mod Tests
use streamlit.Prelude.{
  Bool, List, Option, String, [], false, if◌then◌else◌, none, not, some, suc, true, zero, ℕ, ◌++◌,
  ◌+◌, ◌==◌, ◌∷◌,
}
use streamlit.Prelude.Int.{negsuc, pos, sub_ℕ, ℤ}
use streamlit.Prelude.Result.{Result, err, ok}
use streamlit.JsMap
use streamlit.JsMap.{JsMap, JsSet}
use streamlit.Widgets.Values.{is_valid_form_id}

pub data UploadError : Type 0 where
  below_zero : String → ℕ → ℤ → UploadError
  -- Of `SessionInfo.current` and of `request`.
  no_session not_connected : UploadError

pub record FileUploadClient : Type 0 where
  pub forms_with_pending_requests : JsMap ℕ
  pub notified : List JsSet

unfoldable pub new_client : FileUploadClient
new_client = record { forms_with_pending_requests = []; notified = [] }

-- `new Set(m.keys())`
unfoldable pub keys : {V : Type 0} → JsMap V → JsSet
keys [] = []
keys ((k, v) ∷ m) = k ∷ keys m

unfoldable pub get_form_id_set : FileUploadClient → JsSet
get_form_id_set c = keys c.forms_with_pending_requests

-- `curCount`
unfoldable pub pending_request_count : String → FileUploadClient → ℕ
pending_request_count form_id c = elim (JsMap.get form_id c.forms_with_pending_requests) [
  | none ↦ 0
  | some n ↦ n
]

-- `curCount + offset`
abbrev pub add_offset : ℕ → ℤ → ℤ
add_offset n (pos k) = pos (n + k)
add_offset n (negsuc k) = sub_ℕ n (k + 1)

abbrev pub is_zero : ℤ → Bool
is_zero (pos zero) = true
is_zero (pos (suc n)) = false
is_zero (negsuc n) = false

module _ (is_equal : JsSet → JsSet → Bool) where
  -- The new count is stored, and the callback is called if the set of forms has changed.
  unfoldable pub store_count : String → ℕ → FileUploadClient → FileUploadClient
  store_count form_id new_count c =
      let forms =
        if new_count == 0
        then JsMap.delete form_id c.forms_with_pending_requests
        else JsMap.set form_id new_count c.forms_with_pending_requests in
      record {
        forms_with_pending_requests = forms;
        notified =
            if is_equal (keys forms) (get_form_id_set c)
            then c.notified
            else c.notified ++ (keys forms ∷ []);
      }

  unfoldable pub offset_pending_request_count :
      String → ℤ → FileUploadClient → Result UploadError FileUploadClient
  offset_pending_request_count form_id offset c =
      let cur_count = pending_request_count form_id c in
      let stored : Result UploadError FileUploadClient = elim (add_offset cur_count offset) [
        | pos new_count ↦ ok (store_count form_id new_count c)
        | negsuc n ↦ err (below_zero form_id cur_count offset)
      ] in
      if is_zero offset
      then ok c
      else if not (is_valid_form_id (some form_id))
      then ok c
      else stored

  -- `uploadFile` until its request is under way. Without a session it throws before anything has
  -- changed; without a server `request` throws when the upload is already counted, and before the
  -- `finally` is attached, so that no end follows.
  unfoldable pub upload_begins :
      Bool → Bool → String → FileUploadClient → Option UploadError × FileUploadClient
  upload_begins has_session is_connected form_id c =
      let request : FileUploadClient → Option UploadError × FileUploadClient =
        λ c'. if is_connected then (none, c') else (some not_connected, c') in
      let counted : Option UploadError × FileUploadClient =
        elim (offset_pending_request_count form_id (pos 1) c) [
          | ok c' ↦ request c'
          | err e ↦ (some e, c)
        ] in
      if has_session then counted else (some no_session, c)

  -- The `finally` of a request, however it settles.
  unfoldable pub upload_ends : String → FileUploadClient → Result UploadError FileUploadClient
  upload_ends form_id c = offset_pending_request_count form_id (negsuc 0) c
