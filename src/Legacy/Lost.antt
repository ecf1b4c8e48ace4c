-- ===== src/Legacy/Lost.antt =====
-- Rows without a name, and charts with named data sets.
use streamlit.Prelude.{List, Option, [], false, none, refl, some, ◌∷◌, ◌≡◌}
use streamlit.Prelude.Result.{Result, ok, ◌>>=◌}
use streamlit.Legacy.{DataFrame, LegacyElement, LegacyError, NamedDataSet, Numbers, vega_lite_chart}
use streamlit.Legacy.AddRows.{
  add_rows, add_unnamed_rows, extend, find_data_set, find_named, get_data_frame,
  get_named_data_sets, set_data_frame, set_data_frame_in_named_data_set, set_frame_at, store,
}

module _ (M : Numbers) where
  open M use {Number}

  abbrev pub chart_of :
      Option (DataFrame Number) → List (NamedDataSet Number) → LegacyElement Number
  chart_of df ds = vega_lite_chart (record { frame = df; datasets = ds })

  -- What `addRows` makes of the frame that it extends, put where it is stored.
  abbrev pub stored_by :
      (Option (DataFrame Number) → LegacyElement Number)
      → Result LegacyError (Option (DataFrame Number))
      → Result LegacyError (LegacyElement Number)
  stored_by put r = r >>= λ new. ok (put new)

  unnamed :
      (set : NamedDataSet Number) (e : LegacyElement Number)
      → set.has_name ≡ false
      → add_rows M e set ≡ (
          get_data_frame e
          >>= add_unnamed_rows M e set (find_data_set (get_named_data_sets e) none))
  unfolding add_rows
  unnamed set e nameless = rw nameless refl

  -- Rows without a name are added to a chart that has a frame of its own: where the chart has no
  -- named data set, or two and more, its own frame is extended, and the data sets are left alone.
  -- Where it has exactly one, its own frame with the new rows replaces the frame of that data set,
  -- which is lost, and its own frame stays as it was.
  pub add_rows-unnamed :
      (set : NamedDataSet Number) (df : DataFrame Number) (d d' : NamedDataSet Number)
      (ds : List (NamedDataSet Number))
      → set.has_name ≡ false
      → let extended = extend M (some df) set.frame in
        (add_rows M (chart_of (some df) []) set ≡ stored_by (λ new. chart_of new []) extended)
        × (add_rows M (chart_of (some df) (d ∷ d' ∷ ds)) set
            ≡ stored_by (λ new. chart_of new (d ∷ d' ∷ ds)) extended)
        × (add_rows M (chart_of (some df) (d ∷ [])) set
            ≡ stored_by (λ new. chart_of (some df) (record d { frame = new } ∷ [])) extended)
  unfolding get_data_frame get_named_data_sets find_data_set find_named add_unnamed_rows store
      set_data_frame set_data_frame_in_named_data_set set_frame_at
  add_rows-unnamed set df d d' ds nameless = (
    unnamed set (chart_of (some df) []) nameless,
    unnamed set (chart_of (some df) (d ∷ d' ∷ ds)) nameless,
    unnamed set (chart_of (some df) (d ∷ [])) nameless,
  )
