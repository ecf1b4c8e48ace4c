-- ===== src/Report/Frames.antt =====
-- What the report tree uses of the data frames: the class `Quiver` (frontend/src/lib/Quiver.ts), the
-- legacy `addRows` (frontend/src/lib/dataFrameProto.ts) over immutable protobufs, and the text of
-- an error.
use streamlit.Prelude.{String}
use streamlit.Prelude.Result.{Result}
use streamlit.Report.Proto.{Element, Error}

pub record Frames : Type 1 where
  -- The Arrow payload of an element or of a data set.
  pub Payload : Type 0
  pub Quiver : Type 0
  -- `new Quiver(proto)`, which may throw.
  pub new_quiver : Payload → Result Error Quiver
  -- `quiver.addRows(other)`: the quiver after the call.
  pub quiver_add_rows : Quiver → Quiver → Result Error Quiver
  -- The protobuf of a legacy named data set, and an element as an immutable map.
  pub Rows : Type 0
  pub Immutable : Type 0
  pub to_immutable : Element Payload → Immutable
  pub immutable_add_rows : Immutable → Rows → Result Error Immutable
  -- `error.message`
  pub message : Error → String
