-- ===== src/Quiver/Misaligned.antt =====
-- `addRows` of a frame that has columns and no rows.
use streamlit.Prelude.{List, String, [], ap, arith, false, length, refl, ℕ, ◌<◌, ◌∷◌, ◌≡◌, ◌≢◌}
use streamlit.Prelude.Result.{err, ok}
use streamlit.Quiver.{Arrow, ColumnType, Frame, Types, dimensions_misaligned, is_empty}
use streamlit.Quiver.Cells.{dimensions}
use streamlit.Quiver.Concat.{concat_indexes, concat_types}
use streamlit.Quiver.AddRows.{add_rows_to_frame, concat_data, concat_frames}
use streamlit.Quiver.Aligned.{IsAligned, grid_size-wide, is_nil-some}

module _ (A : Arrow) where
  concat_indexes-nil :
      (mine index : List (List A.Value)) (types other_types : List (ColumnType A.Number))
      → mine ≡ []
      → concat_indexes A mine types index other_types ≡ ok index
  unfolding concat_indexes
  concat_indexes-nil mine [] types other_types none_yet = ap ok none_yet
  concat_indexes-nil mine (i ∷ is) types other_types none_yet = rw none_yet refl

  is_empty-labels : (f : Frame A) → 0 < length f.columns → is_empty f ≡ false
  unfolding is_empty
  is_empty-labels f labels = rw (is_nil-some f.columns labels) (ground arith)

  concat_frames-joined :
      (f other : Frame A) {index cells : List (List A.Value)} {types : Types A.Number}
      → concat_indexes A f.index f.types.index other.index other.types.index ≡ ok index
      → concat_data A f other.cells other.types.columns ≡ ok cells
      → concat_types A f.types other.types ≡ ok types
      → concat_frames A f other ≡ ok (record f { index = index; cells = cells; types = types })
  unfolding concat_frames
  concat_frames-joined f other index_found cells_found types_found =
      rw (index_found, cells_found, types_found) refl

  concat_data-nil :
      (f : Frame A) (cells : List (List A.Value)) (types : List (ColumnType A.Number))
      → f.cells ≡ []
      → concat_data A f cells types ≡ ok cells
  unfolding concat_data
  concat_data-nil f [] types none_yet = ap ok none_yet
  concat_data-nil f (c ∷ cs) types none_yet = rw none_yet refl

  -- The rows of another frame become the rows of a frame without index and data, whatever their
  -- width, as long as the types of the indexes can be joined. Where the width is not that of the
  -- columns, the frame has no dimensions from then on.
  pub add_rows_to_frame-misaligned :
      (f other : Frame A) (first : List String) (rest : List (List String)) (types : Types A.Number)
      (iw h w : ℕ)
      → f.index ≡ []
      → f.cells ≡ []
      → f.columns ≡ first ∷ rest
      → IsAligned A other iw h w
      → length first ≢ w
      → concat_types A f.types other.types ≡ ok types
      → let joined : Frame A = record f {
        index = other.index;
        cells = other.cells;
        types = types;
      } in
        (add_rows_to_frame A f other ≡ ok joined)
        × (dimensions A joined ≡ err (dimensions_misaligned h h w (length first)))
  unfolding add_rows_to_frame dimensions
  add_rows_to_frame-misaligned f other first rest types iw h w no_index no_cells labels fits differ
        typed =
      let cells_size =
        grid_size-wide A (length first, 0) w h other.cells fits.cells_wide fits.cells_height
          fits.some_rows in
      let index_size =
        grid_size-wide A (1, 0) iw h other.index fits.index_wide fits.index_height fits.some_rows in
      (
        rw
            (
              is_empty-labels other fits.some_levels,
              is_empty-labels f (omega (arith, ap length labels)),
            )
            (concat_frames-joined f other
              (concat_indexes-nil f.index other.index f.types.index other.types.index no_index)
              (concat_data-nil f other.cells other.types.columns no_cells) typed),
        rw (labels, cells_size, index_size) (ground (arith, differ, fits.some_columns)),
      )
