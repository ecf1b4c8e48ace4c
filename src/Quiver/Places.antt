-- ===== src/Quiver/Places.antt =====
-- The rows of the whole grid of a frame whose grids fit.
use streamlit.Prelude.{
  List, Option, String, ap, arith, get_elem?, get_elem?-append_lt, length, length-append, map, some,
  ℕ, ◌++◌, ◌-◌, ◌<◌, ◌∙◌, ◌≡◌, ◌≤◌,
}
use streamlit.Quiver.{Arrow, Frame}
use streamlit.Quiver.Cells.{DataFrameDimensions, rows}
use streamlit.Quiver.Aligned.{IsAligned, length-map}
use streamlit.Quiver.Lookup.{
  beside, get_elem?-All, get_elem?-append_ge, get_elem?-beside, get_elem?-map, get_elem?-some,
  length-beside,
}
use streamlit.Quiver.Grid.{header_row, whole_grid}

module _ (A : Arrow) where
  open A use {Value, of_text}

  -- What every place of a frame holds whose grids fit.
  module _ (f : Frame A) (prefix : Option String) (iw h w : ℕ) (fits : IsAligned A f iw h w) where
    unfoldable pub size : DataFrameDimensions
    size = record {
      header_rows = length f.columns;
      header_columns = iw;
      data_rows = h;
      data_columns = w;
    }

    unfoldable headers : List (List Value)
    headers = map (header_row A iw) f.columns

    pub length-whole_grid : length (whole_grid A f iw) ≡ rows size
    unfolding whole_grid size headers
    length-whole_grid =
        length-append headers (beside f.index f.cells)
        ∙ omega (
          arith,
          length-map A (header_row A iw) f.columns,
          length-beside f.index f.cells (omega (arith, fits.index_height, fits.cells_height)),
          fits.cells_height,
        )

    -- A row of the headers.
    pub header_found :
        (i : ℕ)
        → i < length f.columns
        → (labels : List String) × (get_elem? f.columns i ≡ some labels)
          × (length labels ≡ w)
          × (get_elem? (whole_grid A f iw) i ≡ some (header_row A iw labels))
    unfolding whole_grid headers
    header_found i low =
        let (labels, found) = get_elem?-some f.columns i low in
        (
          labels,
          found,
          get_elem?-All (λ r. length r ≡ w) f.columns i fits.columns_wide found,
          get_elem?-append_lt headers (beside f.index f.cells) i
                (omega (arith, low, length-map A (header_row A iw) f.columns))
              ∙ get_elem?-map (header_row A iw) f.columns i found,
        )

    -- A row behind the headers.
    pub row_found :
        (i : ℕ)
        → length f.columns ≤ i
        → i < rows size
        → (index cells : List Value) × (get_elem? f.index (i - length f.columns) ≡ some index)
          × (get_elem? f.cells (i - length f.columns) ≡ some cells)
          × (length index ≡ iw)
          × (length cells ≡ w)
          × (get_elem? (whole_grid A f iw) i ≡ some (index ++ cells))
    unfolding whole_grid headers size
    row_found i high low =
        let n : ℕ = i - length f.columns in
        let (index, found) =
          get_elem?-some f.index n (omega (arith, fits.index_height, high, low)) in
        let (cells, found') =
          get_elem?-some f.cells n (omega (arith, fits.cells_height, high, low)) in
        let long = length-map A (header_row A iw) f.columns in
        (
          index,
          cells,
          found,
          found',
          get_elem?-All (λ r. length r ≡ iw) f.index n fits.index_wide found,
          get_elem?-All (λ r. length r ≡ w) f.cells n fits.cells_wide found',
          get_elem?-append_ge headers (beside f.index f.cells) i (omega (arith, high, long))
              ∙ ap (λ n. get_elem? (beside f.index f.cells) (i - n)) long
              ∙ get_elem?-beside f.index f.cells n found found',
        )
