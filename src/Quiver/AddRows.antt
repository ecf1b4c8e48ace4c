-- ===== src/Quiver/AddRows.antt =====
-- `addRows` of `Quiver` (frontend/src/lib/Quiver.ts), which changes the receiver. An error is
-- thrown before anything is changed, so that it stands for the unchanged receiver.
use streamlit.Prelude.{
  Bool, List, [], if◌then◌else◌, is_some, map, not, suc, zero, ℕ, ◌++◌, ◌||◌, ◌∷◌,
}
use streamlit.Prelude.Result.{Result, err, ok, ◌>>=◌}
use streamlit.Quiver.{
  Arrow, ColumnType, Frame, Quiver, QuiverError, column_types_differ, is_empty, is_nil,
  styler_unsupported,
}
use streamlit.Quiver.Cells.{dimensions}
use streamlit.Quiver.Concat.{concat_indexes, concat_types, same_data_types}

-- `row.slice(0, n)`
abbrev pub take : {T : Type 0} → ℕ → List T → List T
take zero xs = []
take (suc n) [] = []
take (suc n) (x ∷ xs) = x ∷ take n xs

module _ (A : Arrow) where
  open A use {Value, Number}

  unfoldable pub data_types_error :
      List (ColumnType Number) → List (ColumnType Number) → QuiverError
  data_types_error types other_types =
      column_types_differ (map (λ (t : ColumnType Number). t.pandas_type) other_types)
        (map (λ (t : ColumnType Number). t.pandas_type) types)

  -- Extra columns of the rows that are added are dropped.
  unfoldable pub concat_data :
      Frame A
      → List (List Value)
      → List (ColumnType Number)
      → Result QuiverError (List (List Value))
  concat_data f other_cells other_types =
      let joined : Result QuiverError (List (List Value)) =
        if not (same_data_types f.types.columns other_types)
        then err (data_types_error f.types.columns other_types)
        else (dimensions A f >>= λ d. ok (f.cells ++ map (take d.data_columns) other_cells)) in
      if is_nil other_cells then ok f.cells else if is_nil f.cells then ok other_cells else joined

  unfoldable pub concat_frames : Frame A → Frame A → Result QuiverError (Frame A)
  concat_frames f other = do
    index ← concat_indexes A f.index f.types.index other.index other.types.index
    cells ← concat_data f other.cells other.types.columns
    types ← concat_types A f.types other.types
    ok (record f { index = index; cells = cells; types = types })

  unfoldable pub has_styler : Quiver A → Bool
  has_styler q = is_some q.styler

  unfoldable pub add_rows_to_frame : Frame A → Frame A → Result QuiverError (Frame A)
  add_rows_to_frame f other =
      if is_empty other then ok f else if is_empty f then ok other else concat_frames f other

  unfoldable pub add_rows_to_quiver : Quiver A → Quiver A → Result QuiverError (Quiver A)
  add_rows_to_quiver q other =
      if has_styler q || has_styler other
      then err styler_unsupported
      else (add_rows_to_frame q.frame other.frame >>= λ f. ok (record q { frame = f }))
