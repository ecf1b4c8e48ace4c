-- ===== src/Legacy.antt =====
-- Legacy data frames (frontend/src/lib/dataFrameProto.ts), over the protobufs of
-- proto/streamlit/proto/DataFrame.proto as immutable maps. `Legacy/Concat` concatenates, and
-- `Legacy/AddRows`
-- is `addRows`, `Legacy/Cells` reads values, and `Legacy/Whole` the cells of the whole table.
pub mod Concat
pub mod AddRows
pub mod Cells
pub mod Whole
pub mod Lost
pub mod Rows
pub mod Kept
mod Tests
use streamlit.Prelude.{Bool, List, Option, String, ℕ}
use streamlit.Prelude.Result.{Result}

pub data LegacyError : Type 0 where
  cannot_handle cannot_concatenate not_aligned bad_level : LegacyError
  -- A type error of the runtime.
  null_value : LegacyError

-- Doubles and 64-bit integers, and what `zipWith` of immutable.js makes of a list that is missing.
pub record Numbers : Type 1 where
  pub Number : Type 0
  pub of_ℕ : ℕ → Number
  pub add : Number → Number → Number
  pub sub : Number → Number → Number
  pub is_zero : Number → Bool
  pub zip_missing : {T : Type 0} → Result LegacyError (List T)

-- An array, by its type; `untyped_array` is one whose `type` is not set.
pub data AnyArray (N : Type 0) : Type 0 where
  strings datetimes : List String → AnyArray N
  doubles int64s timedeltas : List N → AnyArray N
  untyped_array : AnyArray N

mutual
  pub data Index (N : Type 0) : Type 0 where
    plain_index : AnyArray N → Index N
    range_index : N → N → Index N
    multi_index : Indexes N → List (List N) → Index N
    int_64_index float_64_index timedelta_index : List N → Index N
    datetime_index : List String → Index N
    untyped_index : Index N

  -- The levels of a multi-index.
  pub data Indexes (N : Type 0) : Type 0 where
    no_indexes : Indexes N
    more_indexes : Index N → Indexes N → Indexes N

pub record Table (N : Type 0) : Type 0 where
  pub cols : List (AnyArray N)

pub record CssStyle : Type 0 where
  pub property : String
  pub css_value : String

pub record CellStyle : Type 0 where
  pub css : List CssStyle
  pub display_value : String
  pub has_display_value : Bool

-- The columns of a style are lists of the styles of cells.
pub record TableStyle : Type 0 where
  pub cols : List (List CellStyle)

-- `data` of a frame is `cells` here.
pub record DataFrame (N : Type 0) : Type 0 where
  pub cells : Option (Table N)
  pub index : Option (Index N)
  pub columns : Option (Index N)
  pub style : Option TableStyle

-- `data` of a data set is `frame` here.
pub record NamedDataSet (N : Type 0) : Type 0 where
  pub has_name : Bool
  pub name : String
  pub frame : Option (DataFrame N)

pub record VegaLiteChart (N : Type 0) : Type 0 where
  pub frame : Option (DataFrame N)
  pub datasets : List (NamedDataSet N)

-- An element, by its type; what else it has is left alone.
pub data LegacyElement (N : Type 0) : Type 0 where
  chart deck_gl_map data_frame table arrow_table : Option (DataFrame N) → LegacyElement N
  vega_lite_chart : VegaLiteChart N → LegacyElement N
  other_type : LegacyElement N
