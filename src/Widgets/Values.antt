-- ===== src/Widgets/Values.antt =====
-- The values of frontend/src/lib/WidgetStateManager.ts: the WidgetState protobuf
-- (proto/streamlit/proto/WidgetStates.proto), and `requireNumberInt`.
use streamlit.Prelude.{
  ℕ, ◌-◌, ◌^◌, String, Bool, true, false, Option, none, some, List, [], ◌∷◌, leb, if◌then◌else◌,
}
use streamlit.Prelude.Int.{ℤ, nat_abs}
use streamlit.Prelude.Result.{Result, ok, err, ◌>>=◌}

pub data Error : Type 0 where
  invalid_form_id : String → Error
  bad_submit_button_count : ℤ → Error
  precision_loss : Error

-- A runtime number: one with an integer value, or any other (a fraction, an infinity, NaN), told
-- apart by the bits of its double.
pub data Number : Type 0 where
  int : ℤ → Number
  other : ℕ → Number

-- long.js keeps the two halves of a 64-bit integer.
pub record Long : Type 0 where
  pub low : ℕ
  pub high : ℕ
  pub unsigned : Bool

-- `number | Long`, as protobufjs represents a sint64.
pub data Int64 : Type 0 where
  number : Number → Int64
  long : Long → Int64

-- The Arrow messages of proto/streamlit/proto/Components.proto, with bytes as numbers.
pub record ArrowTableStyler : Type 0 where
  pub uuid : String
  pub caption : String
  pub styles : String
  pub display_values : List ℕ

pub record ArrowTable : Type 0 where
  pub table_data : List ℕ
  pub index : List ℕ
  pub columns : List ℕ
  pub styler : Option ArrowTableStyler

-- The `value` oneof of a WidgetState.
pub data WidgetValue : Type 0 where
  trigger_value : Bool → WidgetValue
  bool_value : Bool → WidgetValue
  double_value : Number → WidgetValue
  int_value : Int64 → WidgetValue
  string_value : String → WidgetValue
  double_array_value : List Number → WidgetValue
  int_array_value : List Int64 → WidgetValue
  string_array_value : List String → WidgetValue
  json_value : String → WidgetValue
  arrow_value : ArrowTable → WidgetValue
  bytes_value : List ℕ → WidgetValue

-- `value` is `none` while no member of the oneof is set.
pub record WidgetState : Type 0 where
  pub id : String
  pub value : Option WidgetValue

pub record WidgetInfo : Type 0 where
  pub id : String
  pub form_id : String

pub record Source : Type 0 where
  pub from_ui : Bool

-- `isValidFormId` of frontend/src/lib/utils.ts.
unfoldable pub is_valid_form_id : Option String → Bool
is_valid_form_id none = false
is_valid_form_id (some String.[]) = false
is_valid_form_id (some (String.◌∷◌ c s)) = true

-- `Number.isSafeInteger`
unfoldable pub is_safe_integer : Number → Bool
is_safe_integer (int z) = leb (nat_abs z) (2 ^ 53 - 1)
is_safe_integer (other bits) = false

-- `to_number` is `util.LongBits.from(value).toNumber()` of protobufjs.
unfoldable pub require_number_int : (Long → Number) → Int64 → Result Error Number
unfolding is_safe_integer
require_number_int to_number (number n) = ok n
require_number_int to_number (long l) =
    if is_safe_integer (to_number l) then ok (to_number l) else err precision_loss

-- `data.map(requireNumberInt)`: the first value that cannot be converted throws.
unfoldable pub require_number_ints : (Long → Number) → List Int64 → Result Error (List Number)
unfolding require_number_int
require_number_ints to_number [] = ok []
require_number_ints to_number (v ∷ vs) = do
  n ← require_number_int to_number v
  ns ← require_number_ints to_number vs
  ok (n ∷ ns)
