-- ===== src/Quiver.antt =====
-- `Quiver` of frontend/src/lib/Quiver.ts: an Arrow data frame as grids of its index, its columns
-- and its data. The display values of a styler are a quiver without a styler, so that what both
-- have is a `Frame`. What comes from ArrowJS, lodash and the arithmetic of doubles is a field of
-- `Arrow`. `Quiver/Parse` is the constructor, `Quiver/Concat` is `addRows`, `Quiver/Cells` the
-- dimensions and cells; the other modules prove.
pub mod Parse
pub mod Counted
pub mod Parsed
pub mod Constructed
pub mod Concat
pub mod Cells
pub mod AddRows
pub mod Aligned
pub mod Joined
pub mod Extended
pub mod Added
pub mod Continued
pub mod Accepted
pub mod Misaligned
pub mod Lookup
pub mod Grid
pub mod Places
pub mod CellContent
pub mod Samples
mod Tests
use streamlit.Prelude.{
  Bool, List, Option, String, [], false, if◌then◌else◌, str_eq, true, ℕ, ◌&&◌, ◌∷◌,
}

pub record Arrow : Type 1 where
  -- `DataType`, which texts and numbers belong to.
  pub Value : Type 0
  pub of_text : String → Value
  -- Doubles.
  pub Number : Type 0
  pub of_number : Number → Value
  pub of_ℕ : ℕ → Number
  pub add : Number → Number → Number
  pub sub : Number → Number → Number
  pub mul : Number → Number → Number
  pub div : Number → Number → Number
  -- `range` and `unzip` of lodash.
  pub range : Number → Number → Number → List Number
  pub unzip : {T : Type 0} → List (List T) → List (List T)

-- The metadata of a range index, in doubles `N`.
pub record RangeIndex (N : Type 0) : Type 0 where
  pub name : Option String
  pub start : N
  pub step : N
  pub stop : N

-- `meta` of a type: that of a range index, or any other.
pub data Meta (N : Type 0) : Type 0 where
  range_meta : RangeIndex N → Meta N
  other_meta : Meta N

pub record ColumnType (N : Type 0) : Type 0 where
  pub pandas_type : String
  pub numpy_type : String
  pub meta : Option (Meta N)

pub record Types (N : Type 0) : Type 0 where
  pub index : List (ColumnType N)
  pub columns : List (ColumnType N)

-- The fields that a quiver has besides its styler; `data` is `cells` here.
pub record Frame (A : Arrow) : Type 0 where
  pub index : List (List A.Value)
  pub columns : List (List String)
  pub cells : List (List A.Value)
  pub types : Types A.Number

pub record Styler (A : Arrow) : Type 0 where
  pub uuid : String
  pub caption : Option String
  pub styles : Option String
  pub display_values : Frame A

pub record Quiver (A : Arrow) : Type 0 where
  pub frame : Frame A
  pub styler : Option (Styler A)

pub data QuiverError : Type 0 where
  schema_missing : QuiverError
  invalid_json : String → QuiverError
  index_not_found : String → QuiverError
  -- A type error of the runtime.
  not_an_object : QuiverError
  dimensions_misaligned : ℕ → ℕ → ℕ → ℕ → QuiverError
  row_out_of_range column_out_of_range : QuiverError
  styler_unsupported : QuiverError
  index_types_differ : List String → List String → QuiverError
  column_types_differ : List String → List String → QuiverError
  index_types_missing : QuiverError

-- `IndexTypeName.RangeIndex`
abbrev pub range_type : String
range_type = "range"

module _ {N : Type 0} where
  unfoldable pub get_type_name : ColumnType N → String
  get_type_name t = if str_eq t.pandas_type "object" then t.numpy_type else t.pandas_type

-- `array.length === 0`
abbrev pub is_nil : {T : Type 0} → List T → Bool
is_nil [] = true
is_nil (x ∷ xs) = false

unfoldable pub is_empty : {A : Arrow} → Frame A → Bool
is_empty f = is_nil f.index && is_nil f.columns && is_nil f.cells
