-- ===== src/Uploader/Sent.antt =====
-- The value that the uploader sends, and what the server deletes by it.
use streamlit.Prelude.{
  Bool, Bool-cases, List, Option, [], ap, arith, false, if◌then◌else◌, inl, inr, leb, not, refl,
  some, subst, sym, true, ℕ, ◌&&◌, ◌<◌, ◌==◌, ◌∙◌, ◌∷◌, ◌≡◌, ◌⊎◌,
}
use streamlit.Prelude.Result.{Result, bind_ok, ok, ok_inj}
use streamlit.Widgets.Values.{Error, Long, Number, Source}
use streamlit.Widgets.Manager.{WidgetStateManager}
use streamlit.Widgets.Accessors.{get_int_array_value, set_int_array_value}
use streamlit.Widgets.RoundTrip.{get_int_array_value-set}
use streamlit.Uploader.{
  Browser, FileStatus, FileUploader, FileUploaderProto, UploadFileInfo, as_numbers,
  create_widget_value, error_status, is_updating, server_file_ids, uploaded, uploading,
}
use streamlit.Uploader.Events.{component_did_update, send_new_value}

abbrev pub includes : ℕ → List ℕ → Bool
includes n [] = false
includes n (m ∷ ms) = if m == n then true else includes n ms

-- The server deletes an uploaded file by a value: its number is at most the newest, and not listed.
abbrev pub orphaned : List ℕ → ℕ → Bool
orphaned [] server_id = false
orphaned (newest ∷ ids) server_id = leb server_id newest && not (includes server_id ids)

abbrev pub from_user : Source
from_user = record { from_ui = true }

module _ (is_equal : List Number → Option (List Number) → Bool) (to_number : Long → Number)
    (element : FileUploaderProto) where
  -- A value is sent unless the manager has it.
  send_new_value-cases :
      (value : List ℕ) (m m' : WidgetStateManager)
      → send_new_value is_equal to_number element value m ≡ ok m'
      → ((prev : Option (List Number)) × (get_int_array_value to_number element.info m ≡ ok prev)
          × (is_equal (as_numbers value) prev ≡ true)
          × (m' ≡ m))
        ⊎ (m' ≡ set_int_array_value element.info (as_numbers value) from_user m)
  unfolding send_new_value
  send_new_value-cases value m m' e =
      let (prev, got, sent) = bind_ok (get_int_array_value to_number element.info m) _ e in
      elim (Bool-cases (is_equal (as_numbers value) prev)) [
        | inl equal ↦ inl (prev, got, equal, sym (ok_inj (rw equal at sent)))
        | inr differs ↦ inr (sym (ok_inj (rw differs at sent)))
      ]

module _ {B : Browser} where
  abbrev pub has_uploaded : ℕ → List (UploadFileInfo B) → Bool
  has_uploaded n [] = false
  has_uploaded n (f ∷ fs) = if status_has n f.status then true else has_uploaded n fs
    where
      status_has : ℕ → FileStatus B → Bool
      status_has n (uploading token progress) = false
      status_has n (uploaded server_file_id) = server_file_id == n
      status_has n (error_status message) = false

  includes-server_file_ids :
      (n : ℕ) (fs : List (UploadFileInfo B)) → includes n (server_file_ids fs) ≡ has_uploaded n fs
  unfolding server_file_ids
  includes-server_file_ids n [] = refl
  includes-server_file_ids n (f ∷ fs) = by_status f.status (includes-server_file_ids n fs)
    where
      by_status :
          (status : FileStatus B)
          → includes n (server_file_ids fs) ≡ has_uploaded n fs
          → includes n (server_file_ids (record f { status = status } ∷ fs))
            ≡ has_uploaded n (record f { status = status } ∷ fs)
      by_status (uploading token progress) rest = rest
      by_status (uploaded server_file_id) rest =
          ap (λ b. if server_file_id == n then true else b) rest
      by_status (error_status message) rest = rest

  module _ (is_equal : List Number → Option (List Number) → Bool) (to_number : Long → Number)
      (element : FileUploaderProto) where
    abbrev pub update :
        Bool
        → Bool
        → FileUploader B × WidgetStateManager
        → Result Error (FileUploader B × WidgetStateManager)
    update = component_did_update is_equal to_number element

    -- An update that does not disable the widget.
    pub data Updated (u : FileUploader B) (m : WidgetStateManager)
        : WidgetStateManager → Type 0 where
      waits : is_updating u ≡ true → Updated u m m
      no_upload : u.newest_server_file_id ≡ 0 → Updated u m m
      sends :
          {m' : WidgetStateManager}
          → is_updating u ≡ false
          → send_new_value is_equal to_number element
              (u.newest_server_file_id ∷ server_file_ids u.files)
              m
            ≡ ok m'
          → Updated u m m'

    pub component_did_update-Updated :
        (prev_disabled disabled : Bool) (u u' : FileUploader B) (m m' : WidgetStateManager)
        → (not prev_disabled && disabled) ≡ false
        → update prev_disabled disabled (u, m) ≡ ok (u', m')
        → (u' ≡ u) × Updated u m m'
    unfolding component_did_update create_widget_value
    component_did_update-Updated prev_disabled disabled u u' m m' still e =
        elim (Bool-cases (is_updating u)) [
          | inl busy ↦
              let same = ok_inj (rw (still, busy) at e) in
              (sym (ap (λ p. p.0) same), subst (Updated u m) (ap (λ p. p.1) same) (waits busy))
          | inr ready ↦ elim (Bool-cases (u.newest_server_file_id == 0)) [
            | inl never ↦
                let same = ok_inj (rw (still, ready, never) at e) in
                (
                  sym (ap (λ p. p.0) same),
                  subst (Updated u m) (ap (λ p. p.1) same) (no_upload (ground (arith, never))),
                )
            | inr once ↦
                let (m'', sent, found) = bind_ok _ _ (rw (still, ready, once) at e) in
                let same = ok_inj found in
                (
                  sym (ap (λ p. p.0) same),
                  subst (Updated u m) (ap (λ p. p.1) same) (sends ready sent),
                )
          ]
        ]

    -- Where an update that does not disable the widget succeeds, the files stay, and either no
    -- value is sent, or one that is sent when no file is being uploaded, and by which the server
    -- deletes the uploads up to the newest that are not listed as uploaded, and no others.
    pub component_did_update-sent :
        (prev_disabled disabled : Bool) (u u' : FileUploader B) (m m' : WidgetStateManager)
        → (not prev_disabled && disabled) ≡ false
        → update prev_disabled disabled (u, m) ≡ ok (u', m')
        → (u' ≡ u)
          × ((m' ≡ m)
              ⊎ ((value : List ℕ) × (m'
                    ≡ set_int_array_value element.info (as_numbers value) from_user m)
                  × (is_updating u ≡ false)
                  × ((server_id : ℕ)
                      → orphaned value server_id ≡ (
                          leb server_id u.newest_server_file_id
                          && not (has_uploaded server_id u.files)))))
    component_did_update-sent prev_disabled disabled u u' m m' still e =
        let (same_files, updated) =
          component_did_update-Updated prev_disabled disabled u u' m m' still e in
        (same_files, what_is_sent updated)
      where
        value : List ℕ
        value = u.newest_server_file_id ∷ server_file_ids u.files

        what_is_sent :
            {m' : WidgetStateManager}
            → Updated u m m'
            → (m' ≡ m)
              ⊎ ((value : List ℕ) × (m'
                    ≡ set_int_array_value element.info (as_numbers value) from_user m)
                  × (is_updating u ≡ false)
                  × ((server_id : ℕ)
                      → orphaned value server_id ≡ (
                          leb server_id u.newest_server_file_id
                          && not (has_uploaded server_id u.files))))
        what_is_sent (waits busy) = inl refl
        what_is_sent (no_upload never) = inl refl
        what_is_sent {m'} (sends ready sent) =
            elim (send_new_value-cases is_equal to_number element value m m' sent) [
              | inl (prev, got, equal, unchanged) ↦ inl unchanged
              | inr set ↦ inr (
                value,
                set,
                ready,
                λ server_id.
                    ap (λ b. leb server_id u.newest_server_file_id && not b)
                      (includes-server_file_ids server_id u.files),
              )
            ]

    -- Where lodash finds only equal values equal, and nothing is being uploaded after some upload
    -- has completed: an update that succeeds leaves the manager with the value of the uploader.
    pub component_did_update-synced :
        (prev_disabled disabled : Bool) (u u' : FileUploader B) (m m' : WidgetStateManager)
        → ((ns : List Number) (o : Option (List Number)) → is_equal ns o ≡ true → o ≡ some ns)
        → (not prev_disabled && disabled) ≡ false
        → is_updating u ≡ false
        → 0 < u.newest_server_file_id
        → update prev_disabled disabled (u, m) ≡ ok (u', m')
        → get_int_array_value to_number element.info m'
          ≡ ok (some (as_numbers (u.newest_server_file_id ∷ server_file_ids u.files)))
    component_did_update-synced prev_disabled disabled u u' m m' sound still ready some_upload e =
        stored (component_did_update-Updated prev_disabled disabled u u' m m' still e).1
      where
        value : List ℕ
        value = u.newest_server_file_id ∷ server_file_ids u.files

        stored :
            {m' : WidgetStateManager}
            → Updated u m m'
            → get_int_array_value to_number element.info m' ≡ ok (some (as_numbers value))
        stored (waits busy) = cc (busy, ready)
        stored (no_upload never) = absurd (omega (arith, never, some_upload))
        stored {m'} (sends ready sent) =
            elim (send_new_value-cases is_equal to_number element value m m' sent) [
              | inl (prev, got, equal, unchanged) ↦
                  ap (get_int_array_value to_number element.info) unchanged
                  ∙ got
                  ∙ ap ok (sound (as_numbers value) prev equal)
              | inr set ↦
                  ap (get_int_array_value to_number element.info) set
                  ∙ get_int_array_value-set element.info (as_numbers value) to_number from_user m
                      (inl refl)
            ]
