-- ===== src/Quiver/Parse.antt =====
-- The constructor of `Quiver` (frontend/src/lib/Quiver.ts): a table of ArrowJS becomes the grids. A
-- `Table` is what the library answers: the schema, which is the parsed text of the metadata, the
-- columns by name and by position, and the number of rows. `parse_labels` parses the text of a
-- tuple, which may throw.
use streamlit.Prelude.{
  Bool, List, Option, String, [], false, filter, get_elem?, if◌then◌else◌, length, ltb, map, none,
  not, some, str_eq, suc, true, zero, ℕ, ◌+◌, ◌==◌, ◌||◌, ◌∷◌,
}
use streamlit.Prelude.Result.{Result, err, ok, ◌>>=◌}
use streamlit.Quiver.{
  Arrow, ColumnType, Frame, Meta, Quiver, QuiverError, RangeIndex, Styler, Types, index_not_found,
  not_an_object, range_meta, range_type, schema_missing,
}

pub record ColumnSchema (N : Type 0) : Type 0 where
  pub field_name : String
  pub metadata : Option (Meta N)
  pub name : Option String
  pub pandas_type : String
  pub numpy_type : String

pub data IndexColumn (N : Type 0) : Type 0 where
  named_column : String → IndexColumn N
  range_column : RangeIndex N → IndexColumn N

pub record Schema (N : Type 0) : Type 0 where
  pub index_columns : List (IndexColumn N)
  pub columns : List (ColumnSchema N)
  pub column_indexes : List (ColumnSchema N)

pub record Table (A : Arrow) : Type 0 where
  -- The metadata under "pandas", parsed from JSON.
  pub pandas : Option (Result QuiverError (Schema A.Number))
  pub row_count : ℕ
  pub get_column : String → Option (List A.Value)
  pub get_column_at : ℕ → Option (List A.Value)

-- The Arrow part of an element: its table, and the styler with the table of its display values.
pub record StylerProto (A : Arrow) : Type 0 where
  pub uuid : String
  pub caption : Option String
  pub styles : Option String
  pub display_values : Table A

pub record ArrowElement (A : Arrow) : Type 0 where
  pub table : Table A
  pub styler : Option (StylerProto A)

-- `range(0, n).map(f)`
abbrev pub tabulate_from : {T : Type 0} → ℕ → ℕ → (ℕ → T) → List T
tabulate_from i zero f = []
tabulate_from i (suc n) f = f i ∷ tabulate_from (i + 1) n f

abbrev pub map_result :
    {S T : Type 0} → (S → Result QuiverError T) → List S → Result QuiverError (List T)
map_result f [] = ok []
map_result f (x ∷ xs) = do y ← f x; ys ← map_result f xs; ok (y ∷ ys)

module _ {N : Type 0} where
  -- `index_columns.includes(fieldName)`
  unfoldable pub is_index_column : List (IndexColumn N) → String → Bool
  is_index_column [] field_name = false
  is_index_column (named_column n ∷ cs) field_name =
      if str_eq n field_name then true else is_index_column cs field_name
  is_index_column (range_column r ∷ cs) field_name = is_index_column cs field_name

  unfoldable pub data_columns_of : Schema N → List (ColumnSchema N)
  data_columns_of s =
      filter (λ (c : ColumnSchema N). not (is_index_column s.index_columns c.field_name)) s.columns

  unfoldable pub find_column : String → List (ColumnSchema N) → Option (ColumnSchema N)
  find_column field_name [] = none
  find_column field_name (c ∷ cs) =
      if str_eq c.field_name field_name then some c else find_column field_name cs

  unfoldable pub type_of_column : ColumnSchema N → ColumnType N
  type_of_column c = record {
    pandas_type = c.pandas_type;
    numpy_type = c.numpy_type;
    meta = c.metadata;
  }

  unfoldable pub index_type : Schema N → IndexColumn N → Result QuiverError (ColumnType N)
  index_type s (range_column r) =
      ok (record { pandas_type = range_type; numpy_type = range_type; meta = some (range_meta r) })
  index_type s (named_column n) = elim (find_column n s.columns) [
    | none ↦ err (index_not_found n)
    | some c ↦ ok (type_of_column c)
  ]

  unfoldable pub parse_index_type : Schema N → Result QuiverError (List (ColumnType N))
  parse_index_type s = map_result (index_type s) s.index_columns

module _ (A : Arrow) (parse_labels : String → Result QuiverError (List String)) where
  open A use {Value, Number, of_number, range, unzip}

  -- The text is parsed where it is there.
  unfoldable pub required_schema :
      Option (Result QuiverError (Schema Number)) → Result QuiverError (Schema Number)
  required_schema none = err schema_missing
  required_schema (some parsed) = parsed

  unfoldable pub parse_schema : Table A → Result QuiverError (Schema Number)
  parse_schema t = required_schema t.pandas

  unfoldable pub column_values : Option (List Value) → Result QuiverError (List Value)
  column_values none = err not_an_object
  column_values (some column) = ok column

  unfoldable pub index_values : Table A → IndexColumn Number → Result QuiverError (List Value)
  index_values t (range_column r) = ok (map of_number (range r.start r.stop r.step))
  index_values t (named_column n) = column_values (t.get_column n)

  unfoldable pub parse_index : Table A → Schema Number → Result QuiverError (List (List Value))
  parse_index t s = do columns ← map_result (index_values t) s.index_columns; ok (unzip columns)

  unfoldable pub labels_of : Bool → ColumnSchema Number → Result QuiverError (List String)
  labels_of is_multi_index c =
      if is_multi_index then parse_labels c.field_name else ok (c.field_name ∷ [])

  unfoldable pub parse_columns : Schema Number → Result QuiverError (List (List String))
  parse_columns s = do
    labels ← map_result (labels_of (ltb 1 (length s.column_indexes))) (data_columns_of s)
    ok (unzip labels)

  -- A value that is missing is `undefined`.
  unfoldable pub value_at : Table A → ℕ → ℕ → Option Value
  value_at t i j = elim (t.get_column_at j) [ none ↦ none | some column ↦ get_elem? column i ]

  -- `missing` stands for `undefined`.
  unfoldable pub parse_data : Value → Table A → List (List String) → List (List Value)
  parse_data missing t columns =
      let width : ℕ = elim columns [ [] ↦ 0 | first ∷ rest ↦ length first ] in
      if t.row_count == 0 || width == 0
      then []
      else tabulate_from 0 t.row_count
          (λ i. tabulate_from 0 width (λ j. elim (value_at t i j) [ none ↦ missing | some v ↦ v ]))

  unfoldable pub parse_data_type : Table A → Schema Number → List (ColumnType Number)
  parse_data_type t s = if ltb 0 t.row_count then map type_of_column (data_columns_of s) else []

  unfoldable pub parse_types : Table A → Schema Number → Result QuiverError (Types Number)
  parse_types t s = do
    index ← parse_index_type s
    ok (record { index = index; columns = parse_data_type t s })

  unfoldable pub parse_frame : Value → Table A → Result QuiverError (Frame A)
  parse_frame missing t = do
    s ← parse_schema t
    index ← parse_index t s
    columns ← parse_columns s
    types ← parse_types t s
    ok (record {
      index = index;
      columns = columns;
      cells = parse_data missing t columns;
      types = types;
    })

  unfoldable pub parse_styler : Value → StylerProto A → Result QuiverError (Styler A)
  parse_styler missing s = do
    display_values ← parse_frame missing s.display_values
    ok (record {
      uuid = s.uuid;
      caption = s.caption;
      styles = s.styles;
      display_values = display_values;
    })

  unfoldable pub parse_optional_styler :
      Value → Option (StylerProto A) → Result QuiverError (Option (Styler A))
  parse_optional_styler missing none = ok none
  parse_optional_styler missing (some s) = do q ← parse_styler missing s; ok (some q)

  -- `new Quiver(element)`
  unfoldable pub new_quiver_of : Value → ArrowElement A → Result QuiverError (Quiver A)
  new_quiver_of missing e = do
    frame ← parse_frame missing e.table
    styler ← parse_optional_styler missing e.styler
    ok (record { frame = frame; styler = styler })
