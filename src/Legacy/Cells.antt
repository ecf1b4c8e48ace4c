-- ===== src/Legacy/Cells.antt =====
-- The values of a legacy data frame, and its dimensions (frontend/src/lib/dataFrameProto.ts).
use streamlit.Prelude.{
  Bool, List, Option, String, [], get_elem?, if◌then◌else◌, length, none, not, some, suc, zero, ℕ,
  ◌&&◌, ◌+◌, ◌==◌, ◌||◌, ◌∷◌,
}
use streamlit.Prelude.Result.{Result, err, ok, ◌>>=◌}
use streamlit.Legacy.{
  AnyArray, DataFrame, Index, Indexes, LegacyError, Numbers, Table, bad_level, cannot_handle,
  datetime_index, datetimes, doubles, float_64_index, int64s, int_64_index, more_indexes,
  multi_index, no_indexes, not_aligned, null_value, plain_index, range_index, strings,
  timedelta_index, timedeltas, untyped_array, untyped_index,
}
use streamlit.Legacy.Concat.{any_array_len}

-- The values of cells: `undefined` is what is read beyond the end of a list, and the formatting of
-- frontend/src/lib/format.ts and the casing of CSS names are other code.
pub record Display (M : Numbers) : Type 1 where
  pub Value : Type 0
  pub undefined : Value
  pub of_text : String → Value
  pub of_number : M.Number → Value
  pub moment : Option String → Value
  pub duration : Option M.Number → Value
  -- `start + i`
  pub plus : M.Number → Option ℕ → Value
  pub is_number : Value → Bool
  -- `===` of numbers.
  pub same : M.Number → M.Number → Bool
  -- A label that is negative has no position.
  pub is_negative : M.Number → Bool
  pub position : M.Number → ℕ
  pub camelcase : String → String
  pub as_key : Value → String

-- `get(i)`, where `i` may be undefined.
abbrev pub read : {T : Type 0} → List T → Option ℕ → Option T
read xs none = none
read xs (some i) = get_elem? xs i

module _ (M : Numbers) (D : Display M) where
  open M use {Number, of_ℕ, add, sub, is_zero}
  open D use {
    Value, undefined, of_text, of_number, moment, duration, plus, same, is_negative, position,
  }

  pub record LegacyDimensions : Type 0 where
    pub header_rows : ℕ
    pub header_cols : ℕ
    pub data_rows : ℕ
    pub data_cols : Number
    pub all_cols : Number
    pub all_rows : ℕ

  abbrev pub or_undefined : {T : Type 0} → (T → Value) → Option T → Value
  or_undefined f none = undefined
  or_undefined f (some x) = f x

  unfoldable pub table_get_rows_and_cols : Option (Table Number) → Result LegacyError (ℕ × ℕ)
  table_get_rows_and_cols none = ok (0, 0)
  table_get_rows_and_cols (some t) = first_column t.cols
    where
      first_column : List (AnyArray Number) → Result LegacyError (ℕ × ℕ)
      first_column [] = ok (0, 0)
      first_column (c ∷ cs) = do rows ← any_array_len c; ok (rows, length (c ∷ cs))

  unfoldable pub index_get_levels_and_length : Index Number → Result LegacyError (ℕ × Number)
  index_get_levels_and_length (plain_index a) = any_array_len a >>= λ n. ok (1, of_ℕ n)
  index_get_levels_and_length (range_index start stop) = ok (1, sub stop start)
  index_get_levels_and_length (multi_index levels []) = ok (0, of_ℕ 0)
  index_get_levels_and_length (multi_index levels (l ∷ ls)) = ok (length (l ∷ ls), of_ℕ (length l))
  index_get_levels_and_length (int_64_index xs) = ok (1, of_ℕ (length xs))
  index_get_levels_and_length (float_64_index xs) = ok (1, of_ℕ (length xs))
  index_get_levels_and_length (timedelta_index xs) = ok (1, of_ℕ (length xs))
  index_get_levels_and_length (datetime_index xs) = ok (1, of_ℕ (length xs))
  index_get_levels_and_length untyped_index = err cannot_handle

  unfoldable pub any_array_get : AnyArray Number → Option ℕ → Result LegacyError Value
  any_array_get (strings xs) i = ok (or_undefined of_text (read xs i))
  any_array_get (doubles xs) i = ok (or_undefined of_number (read xs i))
  any_array_get (int64s xs) i = ok (or_undefined of_number (read xs i))
  any_array_get (datetimes xs) i = ok (moment (read xs i))
  any_array_get (timedeltas xs) i = ok (duration (read xs i))
  any_array_get untyped_array i = err cannot_handle

  -- `anyArrayGet` of a column that may be missing.
  abbrev pub column_get : Option (AnyArray Number) → ℕ → Result LegacyError Value
  column_get none r = err null_value
  column_get (some a) r = any_array_get a (some r)

  unfoldable pub table_get : Option (Table Number) → ℕ → ℕ → Result LegacyError Value
  table_get none c r = err null_value
  table_get (some t) c r = column_get (get_elem? t.cols c) r

  -- `levels.get(level)` is `level_get`, which reads the first level of that index.
  unfoldable mutual
    pub index_get : Index Number → ℕ → Option ℕ → Result LegacyError Value
    index_get (plain_index a) zero i = any_array_get a i
    index_get (range_index start stop) zero i = ok (plus start i)
    index_get (int_64_index xs) zero i = ok (or_undefined of_number (read xs i))
    index_get (float_64_index xs) zero i = ok (or_undefined of_number (read xs i))
    index_get (datetime_index xs) zero i = ok (moment (read xs i))
    index_get (timedelta_index xs) zero i = ok (duration (read xs i))
    index_get (multi_index levels labels) level i = elim (get_elem? labels level) [
      | none ↦ err null_value
      | some row ↦ elim (read row i) [
        | none ↦ level_get levels level none
        | some label ↦
            if is_negative label
            then ok (of_text "NaN")
            else level_get levels level (some (position label))
      ]
    ]
    index_get untyped_index zero i = err cannot_handle
    index_get index level i = err bad_level

    pub level_get : Indexes Number → ℕ → Option ℕ → Result LegacyError Value
    level_get no_indexes level i = err null_value
    level_get (more_indexes index rest) zero i = index_get index 0 i
    level_get (more_indexes index rest) (suc level) i = level_get rest level i

  unfoldable pub get_from : Option (Index Number) → ℕ → ℕ → Result LegacyError Value
  get_from none level i = err null_value
  get_from (some index) level i = index_get index level (some i)

  unfoldable pub levels_of : Option (Index Number) → Result LegacyError (ℕ × Number)
  levels_of none = ok (0, of_ℕ 0)
  levels_of (some index) = index_get_levels_and_length index

  unfoldable pub size_of : Option (Table Number) → Number → Result LegacyError (ℕ × Number)
  size_of none cols_check = ok (0, cols_check)
  size_of (some t) cols_check = table_get_rows_and_cols (some t) >>= λ s. ok (s.0, of_ℕ s.1)

  -- The dimensions, where they are those of the headers.
  unfoldable pub aligned : Number → Number → LegacyDimensions → Result LegacyError LegacyDimensions
  aligned rows_check cols_check d =
      if (not (d.data_rows == 0) && not (same (of_ℕ d.data_rows) rows_check))
        || (not (is_zero d.data_cols) && not (same d.data_cols cols_check))
      then err not_aligned
      else ok d

  unfoldable pub data_frame_get_dimensions : DataFrame Number → Result LegacyError LegacyDimensions
  data_frame_get_dimensions df = do
    (header_cols, rows_check) ← levels_of df.index
    (header_rows, cols_check) ← levels_of df.columns
    (data_rows, data_cols) ← size_of df.cells cols_check
    aligned rows_check cols_check (record {
      header_rows = header_rows;
      header_cols = header_cols;
      data_rows = data_rows;
      data_cols = data_cols;
      all_cols = add (of_ℕ header_cols) data_cols;
      all_rows = header_rows + data_rows;
    })
