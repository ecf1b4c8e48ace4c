-- ===== src/Quiver/Parsed.antt =====
-- The grids that the constructor makes of a table whose columns have the rows of the table.
use streamlit.Prelude.{
  All, List, Option, String, [], ap, arith, length, ltb, none, refl, some, subst, sym, ℕ, ◌<◌, ◌∙◌,
  ◌∷◌, ◌≡◌,
}
use streamlit.Prelude.Result.{Result, bind_ok, ok, ok_inj}
use streamlit.Quiver.{Arrow, Frame, QuiverError, Types}
use streamlit.Quiver.Parse.{
  ColumnSchema, IndexColumn, Schema, Table, column_values, data_columns_of, index_type,
  index_values, labels_of, map_result, named_column, parse_columns, parse_data, parse_data_type,
  parse_frame, parse_index, parse_index_type, parse_schema, parse_types, range_column,
  required_schema, type_of_column,
}
use streamlit.Quiver.Aligned.{IsAligned, IsSingleRange, IsWide, length-map}
use streamlit.Quiver.Counted.{
  Ensures, column_length, counted-Ensures, is_more, label_count, map_result-All, map_result-length,
  positive, some_inj, tabulate_from-All, tabulate_from-length, value_count,
}

module _ (A : Arrow) (parse_labels : String → Result QuiverError (List String))
    (unzip-wide : (T : Type 0) (n : ℕ) (grid : List (List T))
      → 0 < length grid
      → IsWide n grid
      → (length (A.unzip grid) ≡ n) × IsWide (length grid) (A.unzip grid)) where
  open A use {Value, Number}

  column_values-length :
      (n : ℕ) (o : Option (List Value))
      → column_length o ≡ some n
      → Ensures (λ (values : List Value). length values ≡ n) (column_values A parse_labels o)
  unfolding column_values
  column_values-length n none counted = tt
  column_values-length n (some column) counted = some_inj counted

  index_values-length :
      (t : Table A) (n : ℕ) (c : IndexColumn Number)
      → value_count A t c ≡ some n
      → Ensures (λ (values : List Value). length values ≡ n) (index_values A parse_labels t c)
  unfolding index_values
  index_values-length t n (named_column name) counted =
      column_values-length n (t.get_column name) counted
  index_values-length t n (range_column r) counted =
      length-map A A.of_number (A.range r.start r.stop r.step) ∙ some_inj counted

  index_values-All :
      (t : Table A) (n : ℕ) (cs : List (IndexColumn Number))
      → All (λ c. value_count A t c ≡ some n) cs
      → All
          (λ c.
            Ensures (λ (values : List Value). length values ≡ n) (index_values A parse_labels t c))
          cs
  index_values-All t n [] all = tt
  index_values-All t n (c ∷ cs) all =
      (index_values-length t n c all.0, index_values-All t n cs all.1)

  parse_index-IsWide :
      (t : Table A) (s : Schema Number) {index : List (List Value)}
      → 0 < length s.index_columns
      → All (λ c. value_count A t c ≡ some t.row_count) s.index_columns
      → parse_index A parse_labels t s ≡ ok index
      → (length index ≡ t.row_count) × IsWide (length s.index_columns) index
  unfolding parse_index
  parse_index-IsWide t s {index} some_levels counted e =
      let (columns, found, same) =
        bind_ok (map_result (index_values A parse_labels t) s.index_columns) _ e in
      let many = map_result-length (index_values A parse_labels t) s.index_columns found in
      let (high, wide) = unzip-wide Value t.row_count columns (omega (arith, many, some_levels)) (
        map_result-All (λ values. length values ≡ t.row_count) (index_values A parse_labels t)
          s.index_columns (index_values-All t t.row_count s.index_columns counted) found) in
      subst (λ index. (length index ≡ t.row_count) × IsWide (length s.index_columns) index)
        (ok_inj same) (high, subst (λ n. IsWide n (A.unzip columns)) many wide)

  counted-All :
      (k : ℕ) (f : ColumnSchema Number → Result QuiverError (List String))
      (cs : List (ColumnSchema Number))
      → All (λ c. label_count (f c) ≡ some k) cs
      → All (λ c. Ensures (λ (labels : List String). length labels ≡ k) (f c)) cs
  counted-All k f [] all = tt
  counted-All k f (c ∷ cs) all = (counted-Ensures k (f c) all.0, counted-All k f cs all.1)

  parse_columns-IsWide :
      (s : Schema Number) (k : ℕ) {columns : List (List String)}
      → 0 < length (data_columns_of s)
      → All
          (λ c. label_count (labels_of A parse_labels (ltb 1 (length s.column_indexes)) c) ≡ some k)
          (data_columns_of s)
      → parse_columns A parse_labels s ≡ ok columns
      → (length columns ≡ k) × IsWide (length (data_columns_of s)) columns
  unfolding parse_columns
  parse_columns-IsWide s k {columns} some_columns counted e =
      let f = labels_of A parse_labels (ltb 1 (length s.column_indexes)) in
      let (labels, found, same) = bind_ok (map_result f (data_columns_of s)) _ e in
      let many = map_result-length f (data_columns_of s) found in
      let (high, wide) = unzip-wide String k labels (omega (arith, many, some_columns)) (
        map_result-All (λ labels. length labels ≡ k) f (data_columns_of s)
          (counted-All k f (data_columns_of s) counted) found) in
      subst (λ columns. (length columns ≡ k) × IsWide (length (data_columns_of s)) columns)
        (ok_inj same) (high, subst (λ n. IsWide n (A.unzip labels)) many wide)

  parse_data-IsWide :
      (missing : Value) (t : Table A) (columns : List (List String)) (k w : ℕ)
      → 0 < t.row_count
      → 0 < k
      → 0 < w
      → length columns ≡ k
      → IsWide w columns
      → (length (parse_data A parse_labels missing t columns) ≡ t.row_count)
        × IsWide w (parse_data A parse_labels missing t columns)
  unfolding parse_data
  parse_data-IsWide missing t [] k w some_rows some_levels some_columns high wide =
      absurd (omega arith)
  parse_data-IsWide missing t (first ∷ rest) k w some_rows some_levels some_columns high wide =
      rw
        (
          positive t.row_count some_rows,
          positive (length first) (omega (arith, wide.0, some_columns)),
        )
        (
          tabulate_from-length 0 t.row_count _,
          tabulate_from-All (λ r. length r ≡ w) 0 t.row_count _
              (λ i. tabulate_from-length 0 (length first) _ ∙ wide.0),
        )

  parse_types-ok :
      (t : Table A) (s : Schema Number) {types : Types Number}
      → 0 < t.row_count
      → parse_types A parse_labels t s ≡ ok types
      → (length types.index ≡ length s.index_columns)
        × (length types.columns ≡ length (data_columns_of s))
  unfolding parse_types parse_index_type parse_data_type
  parse_types-ok t s {types} some_rows e =
      let (index, found, same) = bind_ok (map_result (index_type s) s.index_columns) _ e in
      (
        ap (λ (types : Types Number). length types.index) (sym (ok_inj same))
            ∙ map_result-length (index_type s) s.index_columns found,
        ap (λ (types : Types Number). length types.columns) (sym (ok_inj same))
            ∙ (rw (is_more t.row_count some_rows)
                (length-map A type_of_column (data_columns_of s))),
      )

  parse_schema-given :
      (t : Table A) {s : Schema Number}
      → t.pandas ≡ some (ok s)
      → parse_schema A parse_labels t ≡ ok s
  unfolding parse_schema required_schema
  parse_schema-given t given = ap (required_schema A parse_labels) given

  -- The parts of what the constructor makes.
  parse_frame_parts :
      (missing : Value) (t : Table A) (s : Schema Number) {f : Frame A}
      → t.pandas ≡ some (ok s)
      → parse_frame A parse_labels missing t ≡ ok f
      → (parse_index A parse_labels t s ≡ ok f.index)
        × (parse_columns A parse_labels s ≡ ok f.columns)
        × (parse_types A parse_labels t s ≡ ok f.types)
        × (f.cells ≡ parse_data A parse_labels missing t f.columns)
  unfolding parse_frame
  parse_frame_parts missing t s {f} given e =
      let (index, index_found, rest) =
        bind_ok (parse_index A parse_labels t s) _ (rw (parse_schema-given t given) at e) in
      let (columns, columns_found, rest') = bind_ok (parse_columns A parse_labels s) _ rest in
      let (types, types_found, same) = bind_ok (parse_types A parse_labels t s) _ rest' in
      subst
        (λ (f : Frame A).
          (parse_index A parse_labels t s ≡ ok f.index)
          × (parse_columns A parse_labels s ≡ ok f.columns)
          × (parse_types A parse_labels t s ≡ ok f.types)
          × (f.cells ≡ parse_data A parse_labels missing t f.columns))
        (ok_inj same) (index_found, columns_found, types_found, refl)

  -- Where a table has rows, its index and data columns have as many values, there is a level of the
  -- index and a data column, and the labels of the data columns have as many levels, the
  -- constructor's grids fit together: as high as the table, and as wide as the schema says. What is
  -- relied on of `unzip` is that it transposes a grid whose columns are of one length.
  pub parse_frame_ok-IsAligned :
      (missing : Value) (t : Table A) (s : Schema Number) (k : ℕ) {f : Frame A}
      → t.pandas ≡ some (ok s)
      → 0 < t.row_count
      → 0 < length s.index_columns
      → All (λ c. value_count A t c ≡ some t.row_count) s.index_columns
      → 0 < length (data_columns_of s)
      → 0 < k
      → All
          (λ c. label_count (labels_of A parse_labels (ltb 1 (length s.column_indexes)) c) ≡ some k)
          (data_columns_of s)
      → IsSingleRange f.types.index
      → parse_frame A parse_labels missing t ≡ ok f
      → IsAligned A f (length s.index_columns) t.row_count (length (data_columns_of s))
        × (length f.columns ≡ k)
  parse_frame_ok-IsAligned missing t s k {f} given some_rows some_indexes counted some_columns
        some_levels labelled alone e =
      let (index_found, columns_found, types_found, same) = parse_frame_parts missing t s given e in
      let (index_high, index_wide) = parse_index-IsWide t s some_indexes counted index_found in
      let (levels, columns_wide) = parse_columns-IsWide s k some_columns labelled columns_found in
      let (index_types, column_types) = parse_types-ok t s some_rows types_found in
      let (cells_high, cells_wide) =
        parse_data-IsWide missing t f.columns k (length (data_columns_of s)) some_rows some_levels
          some_columns levels columns_wide in
      (
        record {
          some_rows = some_rows;
          some_columns = some_columns;
          some_levels = omega (arith, levels, some_levels);
          index_height = index_high;
          index_wide = index_wide;
          cells_height = ap length same ∙ cells_high;
          cells_wide = subst (IsWide (length (data_columns_of s))) (sym same) cells_wide;
          columns_wide = columns_wide;
          index_types = index_types;
          column_types = column_types;
          range_alone = alone;
        },
        levels,
      )
