-- ===== src/Quiver/Samples.antt =====
-- Frames of natural numbers and texts, whose ranges have the step 1.
use Prim.Native.Nat.{◌/◌}
use streamlit.Prelude.{
  All, List, String, [], ap, arith, if◌then◌else◌, inr, length, ltb, none, refl, some, suc, sym,
  zero, ℕ, ◌*◌, ◌+◌, ◌-◌, ◌<◌, ◌==◌, ◌∙◌, ◌∷◌, ◌≡◌,
}
use streamlit.Prelude.Result.{Result, ok}
use streamlit.Quiver.{Arrow, ColumnType, Frame, QuiverError, range_meta}
use streamlit.Quiver.Parse.{
  ColumnSchema, Schema, Table, data_columns_of, index_type, index_values, is_index_column,
  labels_of, parse_columns, parse_data, parse_data_type, parse_frame, parse_index, parse_index_type,
  parse_schema, parse_types, range_column, required_schema, type_of_column, value_at,
}
use streamlit.Quiver.Aligned.{IsAligned}

pub data Datum : Type 0 where
  text : String → Datum
  number : ℕ → Datum

-- `range`, on fuel: there are no more numbers than the end.
abbrev pub count_up : ℕ → ℕ → ℕ → ℕ → List ℕ
count_up zero a b s = []
count_up (suc fuel) a b s = let rest = count_up fuel (a + s) b s in if ltb a b then a ∷ rest else []

-- Columns of the same length, as rows.
abbrev pub join_column : {T : Type 0} → List T → List (List T) → List (List T)
join_column [] rs = rs
join_column (x ∷ xs) [] = (x ∷ []) ∷ join_column xs []
join_column (x ∷ xs) (r ∷ rs) = (x ∷ r) ∷ join_column xs rs

abbrev pub rows_of : {T : Type 0} → List (List T) → List (List T)
rows_of [] = []
rows_of (c ∷ cs) = join_column c (rows_of cs)

abbrev pub naturals : Arrow
naturals = record {
  Value = Datum;
  of_text = text;
  Number = ℕ;
  of_number = number;
  of_ℕ = λ n. n;
  add = λ a b. a + b;
  sub = λ a b. a - b;
  mul = λ a b. a * b;
  div = λ a b. a / b;
  range = λ a b s. count_up b a b s;
  unzip = rows_of;
}

module _ {T : Type 0} where
  join_column-nil :
      (c : List T)
      → (length (join_column c []) ≡ length c) × All (λ r. length r ≡ 1) (join_column c [])
  join_column-nil [] = (refl, tt)
  join_column-nil (x ∷ xs) = let (long, wide) = join_column-nil xs in (ap suc long, (refl, wide))

  join_column-wide :
      (c : List T) (rs : List (List T)) (m : ℕ)
      → length rs ≡ length c
      → All (λ r. length r ≡ m) rs
      → (length (join_column c rs) ≡ length c) × All (λ r. length r ≡ suc m) (join_column c rs)
  join_column-wide [] [] m same wide = (refl, tt)
  join_column-wide [] (r ∷ rs) m same wide = absurd (omega arith)
  join_column-wide (x ∷ xs) [] m same wide = absurd (omega arith)
  join_column-wide (x ∷ xs) (r ∷ rs) m same wide =
      let (long, wide') = join_column-wide xs rs m (omega (arith, same)) wide.1 in
      (ap suc long, (ap suc wide.0, wide'))

  -- These columns are transposed.
  pub rows_of-wide :
      (n : ℕ) (grid : List (List T))
      → 0 < length grid
      → All (λ c. length c ≡ n) grid
      → (length (rows_of grid) ≡ n) × All (λ r. length r ≡ length grid) (rows_of grid)
  rows_of-wide n [] some_columns high = absurd (omega arith)
  rows_of-wide n (c ∷ []) some_columns high =
      let (long, wide) = join_column-nil c in (long ∙ high.0, wide)
  rows_of-wide n (c ∷ d ∷ cs) some_columns high =
      let (long, wide) = rows_of-wide n (d ∷ cs) (omega arith) high.1 in
      let (long', wide') =
        join_column-wide c (rows_of (d ∷ cs)) (suc (length cs)) (long ∙ sym high.0) wide in
      (long' ∙ high.0, wide')

abbrev pub int_type : ColumnType ℕ
int_type = record { pandas_type = "int64"; numpy_type = "int64"; meta = none }

abbrev pub range_index_type : ColumnType ℕ
range_index_type = record {
  pandas_type = "range";
  numpy_type = "range";
  meta = some (range_meta (record { name = none; start = 0; step = 1; stop = 1 }));
}

abbrev pub one_level : ColumnSchema ℕ
one_level = record {
  field_name = "None";
  metadata = none;
  name = none;
  pandas_type = "unicode";
  numpy_type = "object";
}

abbrev pub column_a : ColumnSchema ℕ
column_a = record {
  field_name = "a";
  metadata = none;
  name = some "a";
  pandas_type = "int64";
  numpy_type = "int64";
}

abbrev pub one_column : Schema ℕ
one_column = record {
  index_columns = range_column (record { name = none; start = 0; step = 1; stop = 2 }) ∷ [];
  columns = column_a ∷ [];
  column_indexes = one_level ∷ [];
}

-- Rows 0 and 1, with 3 and 4 in column a.
abbrev pub two_rows : Table naturals
two_rows = record {
  pandas = some (ok one_column);
  row_count = 2;
  get_column = λ name. none;
  get_column_at = λ i. if i == 0 then some (number 3 ∷ number 4 ∷ []) else none;
}

abbrev pub one_label : String → Result QuiverError (List String)
one_label label = ok (label ∷ [])

abbrev pub two_rows_parsed : Frame naturals
two_rows_parsed = record {
  index = (number 0 ∷ []) ∷ (number 1 ∷ []) ∷ [];
  columns = ("a" ∷ []) ∷ [];
  cells = (number 3 ∷ []) ∷ (number 4 ∷ []) ∷ [];
  types = record {
    index =
        record range_index_type {
          meta = some (range_meta (record { name = none; start = 0; step = 1; stop = 2 }));
        }
        ∷ [];
    columns = int_type ∷ [];
  };
}

pub parsed : parse_frame naturals one_label (text "") two_rows ≡ ok two_rows_parsed
unfolding parse_frame parse_schema required_schema parse_index index_values parse_columns labels_of
    parse_types parse_index_type index_type parse_data_type parse_data value_at data_columns_of
    is_index_column type_of_column
parsed = refl

pub two_rows_parsed-IsAligned : IsAligned naturals two_rows_parsed 1 2 1
two_rows_parsed-IsAligned = record {
  some_rows = omega arith;
  some_columns = omega arith;
  some_levels = omega arith;
  index_height = refl;
  index_wide = (refl, (refl, tt));
  cells_height = refl;
  cells_wide = (refl, (refl, tt));
  columns_wide = (refl, tt);
  index_types = refl;
  column_types = refl;
  range_alone = inr refl;
}
