-- ===== src/Quiver/Cells.antt =====
-- The dimensions and the cells of `Quiver` (frontend/src/lib/Quiver.ts). The classes and ids of CSS
-- are kept as data: `level 2` is the class `level2`.
use streamlit.Prelude.{
  List, Option, String, [], get_elem?, if◌then◌else◌, leb, length, ltb, none, not, some, str_eq, ℕ,
  ◌&&◌, ◌+◌, ◌-◌, ◌==◌, ◌||◌, ◌∷◌,
}
use streamlit.Prelude.Result.{Result, err, ok, ◌>>=◌}
use streamlit.Quiver.{
  Arrow, ColumnType, Frame, Quiver, QuiverError, Styler, column_out_of_range, dimensions_misaligned,
  not_an_object, row_out_of_range,
}

pub record DataFrameDimensions : Type 0 where
  pub header_rows : ℕ
  pub header_columns : ℕ
  pub data_rows : ℕ
  pub data_columns : ℕ

abbrev pub rows : DataFrameDimensions → ℕ
rows d = d.header_rows + d.data_rows

abbrev pub columns_of : DataFrameDimensions → ℕ
columns_of d = d.header_columns + d.data_columns

pub data DataFrameCellType : Type 0 where
  blank_cell index_cell columns_cell data_cell : DataFrameCellType

pub data CssClass : Type 0 where
  blank row_heading col_heading data_class : CssClass
  level : ℕ → CssClass
  row : ℕ → CssClass
  col : ℕ → CssClass

-- An id begins with that of the styler.
pub data CssId : Type 0 where
  level_row : String → ℕ → ℕ → CssId
  row_col : String → ℕ → ℕ → CssId

-- The width and the height of a grid, by its first row, or what stands for an empty one.
abbrev pub grid_size : {T : Type 0} → ℕ × ℕ → List (List T) → ℕ × ℕ
grid_size empty [] = empty
grid_size empty (first ∷ rest) = (length first, length (first ∷ rest))

-- `grid[i][j]`; the row has to be there.
unfoldable pub at : {T : Type 0} → List (List T) → ℕ → ℕ → Result QuiverError (Option T)
at grid i j = elim (get_elem? grid i) [ none ↦ err not_an_object | some r ↦ ok (get_elem? r j) ]

unfoldable pub non_empty : Option String → Option String
non_empty none = none
non_empty (some text) = if str_eq text "" then none else some text

module _ (A : Arrow) where
  open A use {Value, Number, of_text}

  pub record DataFrameCell : Type 0 where
    pub type : DataFrameCellType
    pub css_id : Option CssId
    pub css_class : List CssClass
    -- `undefined` where a row is too short.
    pub content : Option Value
    pub content_type : Option (ColumnType Number)
    pub display_content : Option Value

  unfoldable pub dimensions : Frame A → Result QuiverError DataFrameDimensions
  dimensions f =
      let (header_columns, data_rows_check) = grid_size (1, 0) f.index in
      let (data_columns_check, header_rows) = grid_size (0, 1) f.columns in
      let (data_columns, data_rows) = grid_size (data_columns_check, 0) f.cells in
      if (not (data_rows == 0) && not (data_rows == data_rows_check))
        || (not (data_columns == 0) && not (data_columns == data_columns_check))
      then err (dimensions_misaligned data_rows data_rows_check data_columns data_columns_check)
      else ok (record {
        header_rows = header_rows;
        header_columns = header_columns;
        data_rows = data_rows;
        data_columns = data_columns;
      })

  -- `this.cssId`, where it begins another id: a styler with an empty uuid gives none.
  unfoldable pub id_prefix : Option (Styler A) → Option String
  id_prefix none = none
  id_prefix (some s) = if str_eq s.uuid "" then none else some s.uuid

  -- `cssId`, `cssStyles` and `caption`: the id is the uuid, behind `T_`.
  unfoldable pub css_id_of : Quiver A → Option String
  css_id_of q = elim q.styler [ none ↦ none | some s ↦ some s.uuid ]

  unfoldable pub css_styles : Quiver A → Option String
  css_styles q = elim q.styler [ none ↦ none | some s ↦ non_empty s.styles ]

  unfoldable pub caption_of : Quiver A → Option String
  caption_of q = elim q.styler [ none ↦ none | some s ↦ non_empty s.caption ]

  unfoldable pub blank_cell_at : ℕ → ℕ → DataFrameCell
  blank_cell_at i j = record {
    type = blank_cell;
    css_id = none;
    css_class = if j == 0 then blank ∷ [] else blank ∷ level i ∷ [];
    content = some (of_text "");
    content_type = none;
    display_content = none;
  }

  -- A cell of the index, by its position among the data rows.
  unfoldable pub index_cell_at : Frame A → Option String → ℕ → ℕ → Result QuiverError DataFrameCell
  index_cell_at f prefix i j = do
    content ← at f.index i j
    ok (record {
      type = index_cell;
      css_id = elim prefix [ none ↦ none | some p ↦ some (level_row p j i) ];
      css_class = row_heading ∷ level j ∷ row i ∷ [];
      content = content;
      content_type = get_elem? f.types.index j;
      display_content = none;
    })

  -- A cell of the columns, by its position among the data columns.
  unfoldable pub columns_cell_at : Frame A → ℕ → ℕ → Result QuiverError DataFrameCell
  columns_cell_at f i j = do
    content ← at f.columns i j
    ok (record {
      type = columns_cell;
      css_id = none;
      css_class = col_heading ∷ level i ∷ col j ∷ [];
      content = elim content [ none ↦ none | some text ↦ some (of_text text) ];
      content_type = some (record { pandas_type = "unicode"; numpy_type = "object"; meta = none });
      display_content = none;
    })

  unfoldable pub data_cell_at : Frame A → Option String → ℕ → ℕ → Result QuiverError DataFrameCell
  data_cell_at f prefix i j = do
    content ← at f.cells i j
    ok (record {
      type = data_cell;
      css_id = elim prefix [ none ↦ none | some p ↦ some (row_col p i j) ];
      css_class = data_class ∷ row i ∷ col j ∷ [];
      content = content;
      content_type = get_elem? f.types.columns j;
      display_content = none;
    })

  -- The cell of one of the four parts, whose positions are told from the dimensions.
  unfoldable pub part_cell :
      Frame A → Option String → DataFrameDimensions → ℕ → ℕ → Result QuiverError DataFrameCell
  part_cell f prefix d i j =
      if ltb i d.header_rows
      then (if ltb j d.header_columns
          then ok (blank_cell_at i j)
          else columns_cell_at f i (j - d.header_columns))
      else (if ltb j d.header_columns
          then index_cell_at f prefix (i - d.header_rows) j
          else data_cell_at f prefix (i - d.header_rows) (j - d.header_columns))

  -- `getCell` without the display content; a row or column is not negative here.
  unfoldable pub frame_cell : Frame A → Option String → ℕ → ℕ → Result QuiverError DataFrameCell
  frame_cell f prefix i j = dimensions f >>= λ d.
      if leb (rows d) i
      then err row_out_of_range
      else if leb (columns_of d) j
      then err column_out_of_range
      else part_cell f prefix d i j

  -- The display content of a data cell is the content of the styler's cell at the same place.
  unfoldable pub with_display :
      Option (Styler A) → ℕ → ℕ → DataFrameCell → Result QuiverError DataFrameCell
  with_display none i j cell = ok cell
  with_display (some s) i j cell = elim cell.type [
    | data_cell ↦ frame_cell s.display_values none i j >>= λ shown.
        ok (record cell { display_content = shown.content })
    | _ ↦ ok cell
  ]

  unfoldable pub get_cell : Quiver A → ℕ → ℕ → Result QuiverError DataFrameCell
  get_cell q i j = frame_cell q.frame (id_prefix q.styler) i j >>= with_display q.styler i j
