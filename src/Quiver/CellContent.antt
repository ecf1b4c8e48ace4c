-- ===== src/Quiver/CellContent.antt =====
-- `getCell` reads the whole grid of a frame.
use native.Mathlib.Decide.{dec_lt}
use streamlit.Prelude.{
  List, Option, String, ap, arith, get_elem?, get_elem?-append_lt, length, length-append, map, refl,
  some, sym, ℕ, ◌++◌, ◌+◌, ◌-◌, ◌<◌, ◌∙◌, ◌≡◌, ◌≤◌,
}
use streamlit.Prelude.Result.{err, ok}
use streamlit.Quiver.{Arrow, Frame, QuiverError, column_out_of_range, row_out_of_range}
use streamlit.Quiver.Cells.{
  DataFrameDimensions, blank_cell_at, columns_cell_at, data_cell_at, dimensions, frame_cell,
  index_cell_at, part_cell, rows,
}
use streamlit.Quiver.Aligned.{IsAligned, dimensions-aligned, length-map}
use streamlit.Quiver.Lookup.{
  get_elem?-append_ge, get_elem?-map, get_elem?-replicate, get_elem?-some, length-replicate,
  replicate,
}
use streamlit.Quiver.Grid.{
  at-some, content_of, frame_cell-high, frame_cell-part, frame_cell-wide, grid_at, grid_at-high,
  grid_at-some, grid_at-wide, header_row, whole_grid,
}
use streamlit.Quiver.Places.{header_found, length-whole_grid, row_found, size}

module _ (A : Arrow) (f : Frame A) (prefix : Option String) (iw h w : ℕ)
    (fits : IsAligned A f iw h w) where
  open A use {Value, of_text}

  d : DataFrameDimensions
  d = size A f prefix iw h w fits

  sized : dimensions A f ≡ ok d
  unfolding d size
  sized = dimensions-aligned A f iw h w fits

  -- Which of the four parts a place is in.
  module _ (i j : ℕ) where
    blank_part :
        i < length f.columns → j < iw → part_cell A f prefix d i j ≡ ok (blank_cell_at A i j)
    unfolding part_cell d size
    blank_part low left = ground (arith, low, left)

    columns_part :
        i < length f.columns → iw ≤ j → part_cell A f prefix d i j ≡ columns_cell_at A f i (j - iw)
    unfolding part_cell d size
    columns_part low right = ground (arith, low, right)

    index_part :
        length f.columns ≤ i
        → j < iw
        → part_cell A f prefix d i j ≡ index_cell_at A f prefix (i - length f.columns) j
    unfolding part_cell d size
    index_part high left = ground (arith, high, left)

    data_part :
        length f.columns ≤ i
        → iw ≤ j
        → part_cell A f prefix d i j ≡ data_cell_at A f prefix (i - length f.columns) (j - iw)
    unfolding part_cell d size
    data_part high right = ground (arith, high, right)

  columns_content :
      (i j : ℕ) {labels : List String} {text : String}
      → get_elem? f.columns i ≡ some labels
      → get_elem? labels j ≡ some text
      → content_of A (columns_cell_at A f i j) ≡ ok (some (of_text text))
  unfolding content_of columns_cell_at
  columns_content i j found found' = rw (at-some A f.columns i j found, found') refl

  index_content :
      (i j : ℕ) {index : List Value} {v : Value}
      → get_elem? f.index i ≡ some index
      → get_elem? index j ≡ some v
      → content_of A (index_cell_at A f prefix i j) ≡ ok (some v)
  unfolding content_of index_cell_at
  index_content i j found found' = rw (at-some A f.index i j found, found') refl

  data_content :
      (i j : ℕ) {cells : List Value} {v : Value}
      → get_elem? f.cells i ≡ some cells
      → get_elem? cells j ≡ some v
      → content_of A (data_cell_at A f prefix i j) ≡ ok (some v)
  unfolding content_of data_cell_at
  data_content i j found found' = rw (at-some A f.cells i j found, found') refl

  -- Above the data.
  header_content :
      (i j : ℕ)
      → i < length f.columns
      → j < iw + w
      → content_of A (part_cell A f prefix d i j) ≡ grid_at A (whole_grid A f iw) i j
  unfolding content_of blank_cell_at
  header_content i j low left =
      let (labels, found, wide, whole) = header_found A f prefix iw h w fits i low in
      let blanks = replicate iw (of_text "") in
      let long = length-replicate iw (of_text "") in
      elim (dec_lt j iw) [
        | yes before ↦ rw (blank_part i j low before) (
            sym (
              grid_at-some A (whole_grid A f iw) i j whole (
                get_elem?-append_lt blanks (map of_text labels) j (omega (arith, before, long))
                ∙ get_elem?-replicate iw (of_text "") j before)))
        | no behind ↦
            let (text, found') =
              get_elem?-some labels (j - iw) (omega (arith, behind, left, wide)) in
            rw (columns_part i j low (omega (arith, behind))) (
              columns_content i (j - iw) found found'
              ∙ sym (
                  grid_at-some A (whole_grid A f iw) i j whole (
                    get_elem?-append_ge blanks (map of_text labels) j (omega (arith, behind, long))
                    ∙ ap (λ n. get_elem? (map of_text labels) (j - n)) long
                    ∙ get_elem?-map of_text labels (j - iw) found')))
      ]

  -- Beside and in the data.
  row_content :
      (i j : ℕ)
      → length f.columns ≤ i
      → i < rows d
      → j < iw + w
      → content_of A (part_cell A f prefix d i j) ≡ grid_at A (whole_grid A f iw) i j
  unfolding d
  row_content i j high low left =
      let (index, cells, found, found', long, wide, whole) =
        row_found A f prefix iw h w fits i high low in
      elim (dec_lt j iw) [
        | yes before ↦
            let (v, there) = get_elem?-some index j (omega (arith, before, long)) in
            rw (index_part i j high before) (
              index_content (i - length f.columns) j found there
              ∙ sym (
                  grid_at-some A (whole_grid A f iw) i j whole
                    (get_elem?-append_lt index cells j (omega (arith, before, long)) ∙ there)))
        | no behind ↦
            let (v, there) = get_elem?-some cells (j - iw) (omega (arith, behind, left, wide)) in
            rw (data_part i j high (omega (arith, behind))) (
              data_content (i - length f.columns) (j - iw) found' there
              ∙ sym (
                  grid_at-some A (whole_grid A f iw) i j whole (
                    get_elem?-append_ge index cells j (omega (arith, behind, long))
                    ∙ ap (λ n. get_elem? cells (j - n)) long
                    ∙ there)))
      ]

  -- Every row of the whole grid is as wide.
  whole_grid_row :
      (i : ℕ)
      → i < rows d
      → (r : List Value) × (get_elem? (whole_grid A f iw) i ≡ some r) × (length r ≡ iw + w)
  unfolding d size
  whole_grid_row i low = elim (dec_lt i (length f.columns)) [
    | yes header ↦
        let (labels, found, wide, whole) = header_found A f prefix iw h w fits i header in
        (
          header_row A iw labels,
          whole,
          length-append (replicate iw (of_text "")) (map of_text labels)
              ∙ omega (arith, length-replicate iw (of_text ""), length-map A of_text labels, wide),
        )
    | no behind ↦
        let (index, cells, found, found', long, wide, whole) =
          row_found A f prefix iw h w fits i (omega (arith, behind)) low in
        (index ++ cells, whole, length-append index cells ∙ omega (arith, long, wide))
  ]

  thrown : (e : QuiverError) → content_of A (err e) ≡ err e
  unfolding content_of
  thrown e = refl

  inside :
      (i j : ℕ)
      → i < rows d
      → j < iw + w
      → content_of A (part_cell A f prefix d i j) ≡ grid_at A (whole_grid A f iw) i j
  inside i j low left = elim (dec_lt i (length f.columns)) [
    | yes header ↦ header_content i j header left
    | no behind ↦ row_content i j (omega (arith, behind)) low left
  ]

  inside_row :
      (i j : ℕ)
      → i < rows d
      → content_of A (frame_cell A f prefix i j) ≡ grid_at A (whole_grid A f iw) i j
  unfolding d size
  inside_row i j low = elim (dec_lt j (iw + w)) [
    | yes left ↦
        ap (content_of A) (frame_cell-part A f prefix d i j sized low left) ∙ inside i j low left
    | no beyond ↦
        let (r, whole, wide) = whole_grid_row i low in
        ap (content_of A) (frame_cell-wide A f prefix d i j sized low (omega (arith, beyond)))
        ∙ thrown column_out_of_range
        ∙ sym (grid_at-wide A (whole_grid A f iw) i j whole (omega (arith, wide, beyond)))
  ]

  -- In a frame whose grids fit, `getCell` answers at every place what stands there in the whole
  -- grid: the rows of labels, indented by the levels of the index, over the rows of the index beside
  -- those of the data. It throws for the row where that grid has no such row, and for the column
  -- where that row is not so long.
  pub frame_cell-whole_grid :
      (i j : ℕ) → content_of A (frame_cell A f prefix i j) ≡ grid_at A (whole_grid A f iw) i j
  unfolding d
  frame_cell-whole_grid i j = elim (dec_lt i (rows d)) [
    | yes low ↦ inside_row i j low
    | no high ↦
        ap (content_of A) (frame_cell-high A f prefix d i j sized (omega (arith, high)))
        ∙ thrown row_out_of_range
        ∙ sym (
            grid_at-high A (whole_grid A f iw) i j
              (omega (arith, high, length-whole_grid A f prefix iw h w fits)))
  ]
