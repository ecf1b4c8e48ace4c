-- ===== src/Quiver/Constructed.antt =====
-- The constructor does not throw where the table has what its schema names.
use streamlit.Prelude.{
  All, List, Option, String, [], ap, length, ltb, map, none, refl, some, subst, sym, ℕ, ◌<◌, ◌∷◌,
  ◌≡◌,
}
use streamlit.Prelude.Result.{Result, err, ok}
use streamlit.Quiver.{Arrow, ColumnType, Frame, QuiverError}
use streamlit.Quiver.Parse.{
  IndexColumn, Schema, Table, column_values, data_columns_of, index_values, labels_of, map_result,
  named_column, parse_columns, parse_data, parse_data_type, parse_frame, parse_index,
  parse_index_type, parse_schema, parse_types, range_column, required_schema,
}
use streamlit.Quiver.Aligned.{IsAligned, IsSingleRange, IsWide}
use streamlit.Quiver.Counted.{column_length, label_count, value_count}
use streamlit.Quiver.Parsed.{parse_frame_ok-IsAligned}

-- A result without an error.
abbrev IsDone : {T : Type 0} → Result QuiverError T → Type 0
IsDone {T} r = (x : T) × (r ≡ ok x)

map_result-IsDone :
    {S T : Type 0} (f : S → Result QuiverError T) (xs : List S)
    → All (λ x. IsDone (f x)) xs
    → IsDone (map_result f xs)
map_result-IsDone f [] all = ([], refl)
map_result-IsDone f (x ∷ xs) all =
    let ((y, first), others) = all in
    let (ys, rest) = map_result-IsDone f xs others in (y ∷ ys, rw (first, rest) refl)

All-map :
    {T : Type 0} {P Q : T → Type 0} (xs : List T) → ((x : T) → P x → Q x) → All P xs → All Q xs
All-map [] f all = tt
All-map (x ∷ xs) f all = (f x all.0, All-map xs f all.1)

label_count-IsDone :
    (k : ℕ) (r : Result QuiverError (List String)) → label_count r ≡ some k → IsDone r
label_count-IsDone k (ok labels) counted = (labels, refl)
label_count-IsDone k (err e) counted = cc counted

module _ (A : Arrow) (parse_labels : String → Result QuiverError (List String)) where
  open A use {Value, Number, unzip}

  column_values-IsDone :
      (n : ℕ) (o : Option (List Value))
      → column_length o ≡ some n
      → IsDone (column_values A parse_labels o)
  unfolding column_values
  column_values-IsDone n none counted = cc counted
  column_values-IsDone n (some column) counted = (column, refl)

  index_values-IsDone :
      (t : Table A) (n : ℕ) (c : IndexColumn Number)
      → value_count A t c ≡ some n
      → IsDone (index_values A parse_labels t c)
  unfolding index_values
  index_values-IsDone t n (named_column name) counted =
      column_values-IsDone n (t.get_column name) counted
  index_values-IsDone t n (range_column r) counted =
      (map A.of_number (A.range r.start r.stop r.step), refl)

  parse_index-IsDone :
      (t : Table A) (s : Schema Number)
      → All (λ c. value_count A t c ≡ some t.row_count) s.index_columns
      → IsDone (parse_index A parse_labels t s)
  unfolding parse_index
  parse_index-IsDone t s counted =
      let (columns, found) =
        map_result-IsDone (index_values A parse_labels t) s.index_columns
          (All-map s.index_columns (index_values-IsDone t t.row_count) counted) in
      (unzip columns, rw found refl)

  parse_columns-IsDone :
      (s : Schema Number) (k : ℕ)
      → All
          (λ c. label_count (labels_of A parse_labels (ltb 1 (length s.column_indexes)) c) ≡ some k)
          (data_columns_of s)
      → IsDone (parse_columns A parse_labels s)
  unfolding parse_columns
  parse_columns-IsDone s k labelled =
      let f = labels_of A parse_labels (ltb 1 (length s.column_indexes)) in
      let (labels, found) =
        map_result-IsDone f (data_columns_of s)
          (All-map (data_columns_of s) (λ c. label_count-IsDone k (f c)) labelled) in
      (unzip labels, rw found refl)

  schema_read :
      (t : Table A) (s : Schema Number)
      → t.pandas ≡ some (ok s)
      → parse_schema A parse_labels t ≡ ok s
  unfolding parse_schema required_schema
  schema_read t s given = ap (required_schema A parse_labels) given

  parse_frame-IsDone :
      (missing : Value) (t : Table A) (s : Schema Number) (k : ℕ) (types : List (ColumnType Number))
      → t.pandas ≡ some (ok s)
      → All (λ c. value_count A t c ≡ some t.row_count) s.index_columns
      → All
          (λ c. label_count (labels_of A parse_labels (ltb 1 (length s.column_indexes)) c) ≡ some k)
          (data_columns_of s)
      → parse_index_type s ≡ ok types
      → (f : Frame A) × (parse_frame A parse_labels missing t ≡ ok f) × (f.types.index ≡ types)
  unfolding parse_frame parse_types
  parse_frame-IsDone missing t s k types given counted labelled typed =
      let (index, found) = parse_index-IsDone t s counted in
      let (columns, found') = parse_columns-IsDone s k labelled in
      (
        record {
          index = index;
          columns = columns;
          cells = parse_data A parse_labels missing t columns;
          types = record { index = types; columns = parse_data_type A parse_labels t s };
        },
        rw (schema_read t s given, found, found', typed) refl,
        refl,
      )

  -- Where a table has rows, its index and data columns have as many values, there is a level of the
  -- index and a data column, the labels of the data columns have as many levels, and the types of
  -- the index are found, a range alone: the constructor does not throw, and its grids fit together,
  -- as high as the table and as wide as the schema says. What is relied on of `unzip` is that it
  -- transposes a grid whose columns are of one length.
  pub parse_frame-IsAligned :
      (unzip-wide : (T : Type 0) (n : ℕ) (grid : List (List T))
        → 0 < length grid
        → IsWide n grid
        → (length (A.unzip grid) ≡ n) × IsWide (length grid) (A.unzip grid))
      (missing : Value) (t : Table A) (s : Schema Number) (k : ℕ) (types : List (ColumnType Number))
      → t.pandas ≡ some (ok s)
      → 0 < t.row_count
      → 0 < length s.index_columns
      → All (λ c. value_count A t c ≡ some t.row_count) s.index_columns
      → 0 < length (data_columns_of s)
      → 0 < k
      → All
          (λ c. label_count (labels_of A parse_labels (ltb 1 (length s.column_indexes)) c) ≡ some k)
          (data_columns_of s)
      → parse_index_type s ≡ ok types
      → IsSingleRange types
      → (f : Frame A) × (parse_frame A parse_labels missing t ≡ ok f)
        × IsAligned A f (length s.index_columns) t.row_count (length (data_columns_of s))
        × (length f.columns ≡ k)
  parse_frame-IsAligned unzip-wide missing t s k types given some_rows some_indexes counted
        some_columns some_levels labelled typed alone =
      let (f, done, same) = parse_frame-IsDone missing t s k types given counted labelled typed in
      let (fits, levels) =
        parse_frame_ok-IsAligned A parse_labels unzip-wide missing t s k given some_rows
          some_indexes counted some_columns some_levels labelled
          (subst IsSingleRange (sym same) alone) done in
      (f, done, fits, levels)
