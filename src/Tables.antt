-- ===== src/Tables.antt =====
-- The frames of the report tree are those of frontend/src/lib/Quiver.ts and
-- frontend/src/lib/dataFrameProto.ts: `quiver_frames` fills the interface of the tree with the two
-- models. How an element becomes an immutable map, and the texts of errors, are parameters.
pub mod Grown
mod Tests
use streamlit.Legacy.AddRows.{add_rows as legacy_add_rows}
use streamlit.Prelude.{List, String}
use streamlit.Prelude.Result.{Result, err, ok}
use streamlit.Report.Proto.{Element, Error, thrown}
use streamlit.Report.Frames.{Frames}
use streamlit.Quiver.{Arrow, Quiver, QuiverError}
use streamlit.Quiver.Parse.{ArrowElement, new_quiver_of}
use streamlit.Quiver.AddRows.{add_rows_to_quiver}
use streamlit.Legacy.{LegacyElement, LegacyError, NamedDataSet, Numbers}

pub record Runtime : Type 1 where
  pub arrow : Arrow
  pub numbers : Numbers
  pub parse_labels : String → Result QuiverError (List String)
  -- `undefined`
  pub missing : arrow.Value
  pub as_immutable : Element (ArrowElement arrow) → LegacyElement numbers.Number
  pub quiver_message : QuiverError → String
  pub legacy_message : LegacyError → String
  pub error_message : Error → String

-- What is thrown, as an error of the tree.
abbrev pub as_thrown : {E T : Type 0} → (E → String) → Result E T → Result Error T
as_thrown text (ok t) = ok t
as_thrown text (err e) = err (thrown (text e))

abbrev pub quiver_frames : Runtime → Frames
quiver_frames R = record {
  Payload = ArrowElement R.arrow;
  Quiver = Quiver R.arrow;
  new_quiver = λ p. as_thrown R.quiver_message (new_quiver_of R.arrow R.parse_labels R.missing p);
  quiver_add_rows = λ q o. as_thrown R.quiver_message (add_rows_to_quiver R.arrow q o);
  Rows = NamedDataSet R.numbers.Number;
  Immutable = LegacyElement R.numbers.Number;
  to_immutable = R.as_immutable;
  immutable_add_rows = λ e rows. as_thrown R.legacy_message (legacy_add_rows R.numbers e rows);
  message = R.error_message;
}
