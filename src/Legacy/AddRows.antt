-- ===== src/Legacy/AddRows.antt =====
-- `addRows` of frontend/src/lib/dataFrameProto.ts, which returns a new element.
use mathlib.Core.Option
use streamlit.Prelude.{
  List, Option, String, [], if◌then◌else◌, none, some, str_eq, suc, zero, ℕ, ◌&&◌, ◌++◌, ◌∷◌,
}
use streamlit.Prelude.Result.{Result, err, ok, ◌>>=◌}
use streamlit.Legacy.{
  AnyArray, DataFrame, LegacyElement, LegacyError, NamedDataSet, Numbers, Table, arrow_table,
  cannot_handle, chart, data_frame, deck_gl_map, null_value, other_type, table, vega_lite_chart,
}
use streamlit.Legacy.Concat.{concat_frames}

module _ {N : Type 0} where
  unfoldable pub get_data_frame : LegacyElement N → Result LegacyError (Option (DataFrame N))
  get_data_frame (chart df) = ok df
  get_data_frame (deck_gl_map df) = ok df
  get_data_frame (data_frame df) = ok df
  get_data_frame (table df) = ok df
  get_data_frame (arrow_table df) = ok df
  get_data_frame (vega_lite_chart c) = ok c.frame
  get_data_frame other_type = err cannot_handle

  unfoldable pub get_named_data_sets : LegacyElement N → List (NamedDataSet N)
  get_named_data_sets (vega_lite_chart c) = c.datasets
  get_named_data_sets e = []

  -- `findEntry`; a name that is not given is no data set's name.
  unfoldable pub find_named : List (NamedDataSet N) → Option String → Option (ℕ × NamedDataSet N)
  find_named [] name = none
  find_named (d ∷ ds) none = none
  find_named (d ∷ ds) (some name) =
      let rest =
        Option.map (λ (e : ℕ × NamedDataSet N). (suc e.0, e.1)) (find_named ds (some name)) in
      if d.has_name && str_eq d.name name then some (0, d) else rest

  -- A single data set is found by every name.
  unfoldable pub find_data_set : List (NamedDataSet N) → Option String → Option (ℕ × NamedDataSet N)
  find_data_set (d ∷ []) name = some (0, d)
  find_data_set ds name = find_named ds name

  unfoldable pub set_data_frame :
      LegacyElement N → Option (DataFrame N) → Result LegacyError (LegacyElement N)
  set_data_frame (chart df) new = ok (chart new)
  set_data_frame (deck_gl_map df) new = ok (deck_gl_map new)
  set_data_frame (data_frame df) new = ok (data_frame new)
  set_data_frame (table df) new = ok (table new)
  set_data_frame (arrow_table df) new = ok (arrow_table new)
  set_data_frame (vega_lite_chart c) new = ok (vega_lite_chart (record c { frame = new }))
  set_data_frame other_type new = err cannot_handle

  unfoldable pub push_named_data_set :
      LegacyElement N → NamedDataSet N → Result LegacyError (LegacyElement N)
  push_named_data_set (vega_lite_chart c) d =
      ok (vega_lite_chart (record c { datasets = c.datasets ++ (d ∷ []) }))
  push_named_data_set e d = err cannot_handle

  unfoldable pub set_frame_at :
      List (NamedDataSet N) → ℕ → Option (DataFrame N) → List (NamedDataSet N)
  set_frame_at [] i new = []
  set_frame_at (d ∷ ds) zero new = record d { frame = new } ∷ ds
  set_frame_at (d ∷ ds) (suc i) new = d ∷ set_frame_at ds i new

  unfoldable pub set_data_frame_in_named_data_set :
      LegacyElement N → ℕ → Option (DataFrame N) → Result LegacyError (LegacyElement N)
  set_data_frame_in_named_data_set (vega_lite_chart c) i new =
      ok (vega_lite_chart (record c { datasets = set_frame_at c.datasets i new }))
  set_data_frame_in_named_data_set e i new = err cannot_handle

module _ (M : Numbers) where
  open M use {Number}

  -- The frame with the new rows: these alone where it has no columns of data.
  unfoldable pub extend_cols :
      DataFrame Number
      → List (AnyArray Number)
      → Option (DataFrame Number)
      → Result LegacyError (Option (DataFrame Number))
  extend_cols df [] new_rows = ok new_rows
  extend_cols df (c ∷ cs) new_rows = concat_frames M df (c ∷ cs) new_rows >>= λ df'. ok (some df')

  -- Data that is missing is an empty table.
  unfoldable pub extend_cells :
      DataFrame Number
      → Option (Table Number)
      → Option (DataFrame Number)
      → Result LegacyError (Option (DataFrame Number))
  extend_cells df none new_rows = ok new_rows
  extend_cells df (some t) new_rows = extend_cols df t.cols new_rows

  unfoldable pub extend :
      Option (DataFrame Number)
      → Option (DataFrame Number)
      → Result LegacyError (Option (DataFrame Number))
  extend none new_rows = err null_value
  extend (some df) new_rows = extend_cells df df.cells new_rows

  -- The new frame goes to the data set that was found, wherever the old one came from.
  unfoldable pub store :
      LegacyElement Number
      → Option (ℕ × NamedDataSet Number)
      → Option (DataFrame Number)
      → Result LegacyError (LegacyElement Number)
  store e none new = set_data_frame e new
  store e (some (i, d)) new = set_data_frame_in_named_data_set e i new

  unfoldable pub add_named_rows :
      LegacyElement Number
      → NamedDataSet Number
      → Option (ℕ × NamedDataSet Number)
      → Result LegacyError (LegacyElement Number)
  add_named_rows e set none = push_named_data_set e set
  add_named_rows e set (some (i, d)) = extend d.frame set.frame >>= store e (some (i, d))

  unfoldable pub add_unnamed_rows :
      LegacyElement Number
      → NamedDataSet Number
      → Option (ℕ × NamedDataSet Number)
      → Option (DataFrame Number)
      → Result LegacyError (LegacyElement Number)
  add_unnamed_rows e set found (some df) = extend (some df) set.frame >>= store e found
  add_unnamed_rows e set (some (i, d)) none = extend d.frame set.frame >>= store e (some (i, d))
  add_unnamed_rows e set none none = set_data_frame e set.frame

  unfoldable pub add_rows :
      LegacyElement Number → NamedDataSet Number → Result LegacyError (LegacyElement Number)
  add_rows e set =
      if set.has_name
      then add_named_rows e set (find_data_set (get_named_data_sets e) (some set.name))
      else (get_data_frame e
          >>= add_unnamed_rows e set (find_data_set (get_named_data_sets e) none))
