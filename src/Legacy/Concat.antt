-- ===== src/Legacy/Concat.antt =====
-- Lengths and concatenation of arrays and indexes (frontend/src/lib/dataFrameProto.ts).
use streamlit.Prelude.{List, Option, [], if◌then◌else◌, length, none, some, ℕ, ◌++◌, ◌==◌, ◌∷◌}
use streamlit.Prelude.Result.{Result, err, ok, ◌>>=◌}
use streamlit.Legacy.{
  AnyArray, CellStyle, DataFrame, Index, LegacyError, Numbers, Table, TableStyle,
  cannot_concatenate, cannot_handle, datetime_index, datetimes, doubles, float_64_index, int64s,
  int_64_index, multi_index, null_value, plain_index, range_index, strings, timedelta_index,
  timedeltas, untyped_array, untyped_index,
}

module _ {N : Type 0} where
  unfoldable pub any_array_len : AnyArray N → Result LegacyError ℕ
  any_array_len (strings xs) = ok (length xs)
  any_array_len (datetimes xs) = ok (length xs)
  any_array_len (doubles xs) = ok (length xs)
  any_array_len (int64s xs) = ok (length xs)
  any_array_len (timedeltas xs) = ok (length xs)
  any_array_len untyped_array = err cannot_handle

  -- Both have the same type.
  unfoldable pub append_arrays : AnyArray N → AnyArray N → Result LegacyError (AnyArray N)
  append_arrays (strings xs) (strings ys) = ok (strings (xs ++ ys))
  append_arrays (datetimes xs) (datetimes ys) = ok (datetimes (xs ++ ys))
  append_arrays (doubles xs) (doubles ys) = ok (doubles (xs ++ ys))
  append_arrays (int64s xs) (int64s ys) = ok (int64s (xs ++ ys))
  append_arrays (timedeltas xs) (timedeltas ys) = ok (timedeltas (xs ++ ys))
  append_arrays a b = err cannot_concatenate

  unfoldable pub concat_any_array : AnyArray N → AnyArray N → Result LegacyError (AnyArray N)
  concat_any_array a b = do n ← any_array_len a; if n == 0 then ok b else append_arrays a b

-- The immutable list of the styles has no `length`, so that an empty one is no special case.
unfoldable pub concat_cell_style_array :
    List CellStyle → List CellStyle → Result LegacyError (List CellStyle)
concat_cell_style_array a b = ok (a ++ b)

-- `zipWith`: as long as the shorter list.
abbrev pub zip_with :
    {S T : Type 0} → (S → S → Result LegacyError T) → List S → List S → Result LegacyError (List T)
zip_with f [] ys = ok []
zip_with f (x ∷ xs) [] = ok []
zip_with f (x ∷ xs) (y ∷ ys) = do z ← f x y; zs ← zip_with f xs ys; ok (z ∷ zs)

module _ (M : Numbers) where
  open M use {Number, of_ℕ, add, sub, is_zero, zip_missing}

  -- The labels of a level of a multi-index are a map with one field.
  unfoldable pub index_len : Index Number → Result LegacyError Number
  index_len (plain_index a) = any_array_len a >>= λ n. ok (of_ℕ n)
  index_len (range_index start stop) = ok (sub stop start)
  index_len (multi_index levels []) = ok (of_ℕ 0)
  index_len (multi_index levels (l ∷ ls)) = ok (of_ℕ 1)
  index_len (int_64_index xs) = ok (of_ℕ (length xs))
  index_len (float_64_index xs) = ok (of_ℕ (length xs))
  index_len (timedelta_index xs) = ok (of_ℕ (length xs))
  index_len (datetime_index xs) = ok (of_ℕ (length xs))
  index_len untyped_index = err cannot_handle

  -- Multi-indexes are not supported.
  unfoldable pub append_indexes : Index Number → Index Number → Result LegacyError (Index Number)
  append_indexes (plain_index a) (plain_index b) = concat_any_array a b >>= λ c. ok (plain_index c)
  append_indexes (range_index start stop) (range_index start' stop') =
      index_len (range_index start' stop') >>= λ n. ok (range_index start (add stop n))
  append_indexes (int_64_index xs) (int_64_index ys) = ok (int_64_index (xs ++ ys))
  append_indexes (float_64_index xs) (float_64_index ys) = ok (float_64_index (xs ++ ys))
  append_indexes (timedelta_index xs) (timedelta_index ys) = ok (timedelta_index (xs ++ ys))
  append_indexes (datetime_index xs) (datetime_index ys) = ok (datetime_index (xs ++ ys))
  append_indexes (multi_index levels ls) (multi_index levels' ls') = err cannot_handle
  append_indexes i j = err cannot_concatenate

  unfoldable pub concat_index :
      Option (Index Number) → Option (Index Number) → Result LegacyError (Option (Index Number))
  concat_index none j = err null_value
  concat_index (some i) j = do n ← index_len i; if is_zero n then ok j else append_some i j
    where
      append_some :
          Index Number → Option (Index Number) → Result LegacyError (Option (Index Number))
      append_some i none = err null_value
      append_some i (some j) = append_indexes i j >>= λ k. ok (some k)

  unfoldable pub zip_cols :
      List (AnyArray Number) → Option (Table Number) → Result LegacyError (List (AnyArray Number))
  zip_cols cols none = zip_missing
  zip_cols cols (some t) = zip_with concat_any_array cols t.cols

  unfoldable pub zip_styles :
      Option TableStyle → Option TableStyle → Result LegacyError (List (List CellStyle))
  zip_styles none t = err null_value
  zip_styles (some s) none = zip_missing
  zip_styles (some s) (some t) = zip_with concat_cell_style_array s.cols t.cols

  unfoldable pub concat_frames :
      DataFrame Number
      → List (AnyArray Number)
      → Option (DataFrame Number)
      → Result LegacyError (DataFrame Number)
  concat_frames df cols none = err null_value
  concat_frames df cols (some new_rows) = do
    index ← concat_index df.index new_rows.index
    cols' ← zip_cols cols new_rows.cells
    styles ← zip_styles df.style new_rows.style
    ok (record df {
      index = index;
      cells = some (record { cols = cols' });
      style = some (record { cols = styles });
    })
