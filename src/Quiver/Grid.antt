-- ===== src/Quiver/Grid.antt =====
-- The whole grid of a frame, headers included, and the cells that `getCell` finds in it.
use streamlit.Prelude.{
  List, Option, String, arith, get_elem?, length, map, none, refl, some, ℕ, ◌++◌, ◌<◌, ◌≡◌, ◌≤◌,
}
use streamlit.Prelude.Result.{Result, err, ok, ◌>>=◌}
use streamlit.Quiver.{Arrow, Frame, QuiverError, column_out_of_range, row_out_of_range}
use streamlit.Quiver.Cells.{
  DataFrameCell, DataFrameDimensions, at, columns_of, dimensions, frame_cell, part_cell, rows,
}
use streamlit.Quiver.Lookup.{beside, get_elem?-none, replicate}

module _ (A : Arrow) where
  open A use {Value, of_text}

  -- A row of labels, behind as many empty texts as the index has levels.
  abbrev pub header_row : ℕ → List String → List Value
  header_row index_width labels = replicate index_width (of_text "") ++ map of_text labels

  -- The rows of labels, and the rows of the index beside those of the data.
  unfoldable pub whole_grid : Frame A → ℕ → List (List Value)
  whole_grid f index_width = map (header_row index_width) f.columns ++ beside f.index f.cells

  -- A place of a grid, and the error for a row or a column that it has not.
  unfoldable pub in_row : Option Value → Result QuiverError (Option Value)
  in_row none = err column_out_of_range
  in_row (some v) = ok (some v)

  unfoldable pub in_grid : Option (List Value) → ℕ → Result QuiverError (Option Value)
  in_grid none j = err row_out_of_range
  in_grid (some r) j = in_row (get_elem? r j)

  unfoldable pub grid_at : List (List Value) → ℕ → ℕ → Result QuiverError (Option Value)
  grid_at grid i j = in_grid (get_elem? grid i) j

  unfoldable pub content_of :
      Result QuiverError (DataFrameCell A) → Result QuiverError (Option Value)
  content_of r = r >>= λ cell. ok cell.content

  pub grid_at-some :
      (grid : List (List Value)) (i j : ℕ) {r : List Value} {v : Value}
      → get_elem? grid i ≡ some r
      → get_elem? r j ≡ some v
      → grid_at grid i j ≡ ok (some v)
  unfolding grid_at in_grid in_row
  grid_at-some grid i j found found' = rw (found, found') refl

  pub grid_at-wide :
      (grid : List (List Value)) (i j : ℕ) {r : List Value}
      → get_elem? grid i ≡ some r
      → length r ≤ j
      → grid_at grid i j ≡ err column_out_of_range
  unfolding grid_at in_grid in_row
  grid_at-wide grid i j {r} found wide = rw (found, get_elem?-none r j wide) refl

  pub grid_at-high :
      (grid : List (List Value)) (i j : ℕ)
      → length grid ≤ i
      → grid_at grid i j ≡ err row_out_of_range
  unfolding grid_at in_grid in_row
  grid_at-high grid i j high = rw (get_elem?-none grid i high) refl

  pub at-some :
      {T : Type 0} (grid : List (List T)) (i j : ℕ) {r : List T}
      → get_elem? grid i ≡ some r
      → at grid i j ≡ ok (get_elem? r j)
  unfolding at
  at-some grid i j found = rw (found, at) refl

  -- The dimensions of a frame, and where a place stands to them.
  pub frame_cell-part :
      (f : Frame A) (prefix : Option String) (d : DataFrameDimensions) (i j : ℕ)
      → dimensions A f ≡ ok d
      → i < rows d
      → j < columns_of d
      → frame_cell A f prefix i j ≡ part_cell A f prefix d i j
  unfolding frame_cell
  frame_cell-part f prefix d i j e low left = rw e (ground (arith, low, left))

  pub frame_cell-high :
      (f : Frame A) (prefix : Option String) (d : DataFrameDimensions) (i j : ℕ)
      → dimensions A f ≡ ok d
      → rows d ≤ i
      → frame_cell A f prefix i j ≡ err row_out_of_range
  unfolding frame_cell
  frame_cell-high f prefix d i j e high = rw e (ground (arith, high))

  pub frame_cell-wide :
      (f : Frame A) (prefix : Option String) (d : DataFrameDimensions) (i j : ℕ)
      → dimensions A f ≡ ok d
      → i < rows d
      → columns_of d ≤ j
      → frame_cell A f prefix i j ≡ err column_out_of_range
  unfolding frame_cell
  frame_cell-wide f prefix d i j e low wide = rw e (ground (arith, low, wide))
