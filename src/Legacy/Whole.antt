-- ===== src/Legacy/Whole.antt =====
-- A legacy data frame as one table (`dataFrameGet` of frontend/src/lib/dataFrameProto.ts) and as an
-- array of dictionaries.
use streamlit.Prelude.{
  List, Option, String, [], get_elem?, if◌then◌else◌, ltb, none, some, suc, zero, ℕ, ◌-◌, ◌∷◌,
}
use streamlit.Prelude.Result.{Result, ok, ◌>>=◌}
use streamlit.JsMap
use streamlit.JsMap.{JsMap}
use streamlit.Legacy.{CellStyle, CssStyle, DataFrame, LegacyError, Numbers, TableStyle}
use streamlit.Legacy.Cells.{
  Display, LegacyDimensions, data_frame_get_dimensions, get_from, table_get,
  table_get_rows_and_cols,
}

pub data LegacyCellType : Type 0 where
  corner col_header row_header data_type : LegacyCellType

-- The results for `i`, `i + 1`, and so on.
abbrev pub each_from :
    {T : Type 0} → (ℕ → Result LegacyError T) → ℕ → ℕ → Result LegacyError (List T)
each_from f zero i = ok []
each_from f (suc n) i = do x ← f i; xs ← each_from f n (suc i); ok (x ∷ xs)

-- `getIn(["cols", columnIndex, "styles", rowIndex])`
unfoldable pub cell_style : TableStyle → ℕ → ℕ → Option CellStyle
cell_style t c r = elim (get_elem? t.cols c) [ none ↦ none | some styles ↦ get_elem? styles r ]

unfoldable pub table_style_get_display_value : Option TableStyle → ℕ → ℕ → Option String
table_style_get_display_value none c r = none
table_style_get_display_value (some t) c r = elim (cell_style t c r) [
  | none ↦ none
  | some cell ↦ if cell.has_display_value then some cell.display_value else none
]

module _ (M : Numbers) (D : Display M) where
  open M use {Number}
  open D use {Value, of_text, is_number, camelcase, as_key}

  pub record LegacyCell : Type 0 where
    pub contents : Value
    pub styles : JsMap String
    pub type : LegacyCellType

  unfoldable pub css_dictionary : List CssStyle → JsMap String → JsMap String
  css_dictionary [] styles = styles
  css_dictionary (item ∷ items) styles =
      css_dictionary items (JsMap.set (camelcase item.property) item.css_value styles)

  unfoldable pub table_style_get_css : Option TableStyle → ℕ → ℕ → Option (JsMap String)
  table_style_get_css none c r = none
  table_style_get_css (some t) c r = elim (cell_style t c r) [
    | none ↦ none
    | some cell ↦ some (css_dictionary cell.css [])
  ]

  abbrev left_aligned : Value → JsMap String → JsMap String
  left_aligned v styles = if is_number v then styles else JsMap.set "textAlign" "left" styles

  -- The styles of a cell of the columns: the data are read in the row of the cell itself.
  unfoldable pub header_styles :
      DataFrame Number → LegacyDimensions M D → ℕ → ℕ → Result LegacyError (JsMap String)
  header_styles df d col row =
      if ltb 0 d.data_rows
      then (do v ← table_get M D df.cells (col - d.header_cols) row; ok (left_aligned v []))
      else ok []

  abbrev shown : Option String → Value → Value
  shown none raw = raw
  shown (some text) raw = of_text text

  abbrev or_empty : Option (JsMap String) → JsMap String
  or_empty none = []
  or_empty (some styles) = styles

  -- A cell of the data, by its place among them.
  unfoldable pub data_cell_of : DataFrame Number → ℕ → ℕ → Result LegacyError LegacyCell
  data_cell_of df c r = table_get M D df.cells c r >>= λ raw. ok (record {
    contents = shown (table_style_get_display_value df.style c r) raw;
    styles = left_aligned raw (or_empty (table_style_get_css df.style c r));
    type = data_type;
  })

  -- The cell, by the dimensions.
  unfoldable pub cell_in :
      DataFrame Number → ℕ → ℕ → LegacyDimensions M D → Result LegacyError LegacyCell
  cell_in df col row d =
      if ltb col d.header_cols
      then (if ltb row d.header_rows
          then ok (record { contents = of_text ""; styles = []; type = corner })
          else (get_from M D df.index col (row - d.header_rows) >>= λ v.
              ok (record { contents = v; styles = []; type = col_header })))
      else (if ltb row d.header_rows
          then (header_styles df d col row >>= λ styles.
              get_from M D df.columns row (col - d.header_cols) >>= λ v.
              ok (record { contents = v; styles = styles; type = row_header }))
          else data_cell_of df (col - d.header_cols) (row - d.header_rows))

  unfoldable pub data_frame_get : DataFrame Number → ℕ → ℕ → Result LegacyError LegacyCell
  data_frame_get df col row = data_frame_get_dimensions M D df >>= cell_in df col row

  unfoldable pub row_dict :
      DataFrame Number → ℕ → ℕ → ℕ → JsMap Value → Result LegacyError (JsMap Value)
  row_dict df r zero c dict = ok dict
  row_dict df r (suc n) c dict = do
    label ← get_from M D df.columns 0 c
    v ← table_get M D df.cells c r
    row_dict df r n (suc c) (JsMap.set (as_key label) v dict)

  unfoldable pub data_frame_to_array_of_dicts :
      DataFrame Number → Result LegacyError (List (JsMap Value))
  data_frame_to_array_of_dicts df = do
    (rows, cols) ← table_get_rows_and_cols M D df.cells
    each_from (λ r. row_dict df r cols 0 []) rows 0
