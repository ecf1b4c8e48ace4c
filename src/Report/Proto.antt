-- ===== src/Report/Proto.antt =====
-- The protobuf messages that frontend/src/lib/ReportNode.ts reads
-- (proto/streamlit/proto/{Element,Block,Delta,ArrowVegaLiteChart,ArrowNamedDataSet}.proto), and the
-- errors that it throws. A double stands as its bits, and what the tree never looks into is a
-- payload of a type `P`.
use streamlit.Prelude.{Bool, List, Option, String, none, some, ℕ}

pub data Format : Type 0 where
  info_format error_format : Format

-- `data` of a data set is `rows` here.
pub record ArrowNamedDataSet (P : Type 0) : Type 0 where
  pub has_name : Bool
  pub name : String
  pub rows : P

pub record ArrowVegaLiteChart (P : Type 0) : Type 0 where
  pub spec : String
  pub frame : Option P
  pub datasets : List (ArrowNamedDataSet P)
  pub use_container_width : Bool

-- An element, by its `type`; `untyped` is one whose `type` is not set.
pub data Element (P : Type 0) : Type 0 where
  alert : String → Format → Element P
  arrow_table : P → Element P
  arrow_data_frame : P → Element P
  arrow_vega_lite_chart : ArrowVegaLiteChart P → Element P
  component_instance : Option String → P → Element P
  other_element : String → P → Element P
  untyped : Element P

pub data BlockType : Type 0 where
  vertical : BlockType
  horizontal : ℕ → BlockType
  column : ℕ → BlockType
  expandable : String → Bool → BlockType
  form : String → Bool → BlockType

pub record BlockProto : Type 0 where
  pub block_type : Option BlockType
  pub allow_empty : Bool

pub record ForwardMsgMetadata : Type 0 where
  pub cacheable : Bool
  pub delta_path : List ℕ
  pub element_dimension_spec : Option (ℕ × ℕ)

-- `R` is the protobuf of a legacy named data set.
pub data Delta (P R : Type 0) : Type 0 where
  new_element : Element P → Delta P R
  add_block : BlockProto → Delta P R
  add_rows : R → Delta P R
  arrow_add_rows : ArrowNamedDataSet P → Delta P R
  unrecognized : String → Delta P R

-- `element.type`, where it is set.
unfoldable pub element_type : {P : Type 0} → Element P → Option String
element_type (alert body format) = some "alert"
element_type (arrow_table p) = some "arrowTable"
element_type (arrow_data_frame p) = some "arrowDataFrame"
element_type (arrow_vega_lite_chart c) = some "arrowVegaLiteChart"
element_type (component_instance n p) = some "componentInstance"
element_type (other_element t p) = some t
element_type untyped = none

-- What the code throws; `thrown` carries the message of an error from elsewhere.
pub data Error : Type 0 where
  empty_path : Error
  bad_set_in_index : ℕ → ℕ → Error
  set_in_on_element : Error
  type_error : Error
  invalid_root : Error
  unrecognized_root_container : List ℕ → Error
  unrecognized_delta : String → Error
  invalid_rows_path : List ℕ → Error
  invalid_arrow_rows_path : List ℕ → Error
  not_a_quiver_element : Option String → Error
  not_a_vega_lite_chart : Option String → Error
  not_an_add_rows_target : Option String → Error
  named_dataset : Error
  thrown : String → Error

-- `makeElementWithInfoText` and `makeElementWithErrorText` of frontend/src/lib/utils.ts.
unfoldable pub make_element_with_info_text : {P : Type 0} → String → Element P
make_element_with_info_text text = alert text info_format

unfoldable pub make_element_with_error_text : {P : Type 0} → String → Element P
make_element_with_error_text text = alert text error_format
