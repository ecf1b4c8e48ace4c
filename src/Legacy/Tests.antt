-- ===== src/Legacy/Tests.antt =====
-- Rows are added to small frames, whose numbers are natural ones, and read.
use streamlit.JsMap.{set}
use streamlit.Prelude.{
  List, Option, String, [], arith, false, none, refl, some, true, ℕ, ◌+◌, ◌-◌, ◌<◌, ◌==◌, ◌∷◌, ◌≡◌,
}
use streamlit.Prelude.Result.{ok}
use streamlit.Legacy.{
  AnyArray, DataFrame, NamedDataSet, Numbers, doubles, plain_index, range_index, strings,
}
use streamlit.Legacy.Concat.{
  any_array_len, append_arrays, append_indexes, concat_any_array, concat_frames, concat_index,
  index_len, zip_cols, zip_styles,
}
use streamlit.Legacy.AddRows.{add_rows, extend, extend_cells, extend_cols}
use streamlit.Legacy.Cells.{
  Display, aligned, any_array_get, data_frame_get_dimensions, index_get_levels_and_length,
  levels_of, size_of, table_get, table_get_rows_and_cols,
}
use streamlit.Legacy.Whole.{
  cell_in, cell_style, data_cell_of, data_frame_get, data_type, header_styles, table_style_get_css,
  table_style_get_display_value,
}
use streamlit.Legacy.Lost.{add_rows-unnamed, chart_of, stored_by}
use streamlit.Legacy.Kept.{table_get-extend}

abbrev naturals : Numbers
naturals = record {
  Number = ℕ;
  of_ℕ = λ n. n;
  add = λ a b. a + b;
  sub = λ a b. a - b;
  is_zero = λ n. n == 0;
  zip_missing = ok [];
}

-- Columns of numbers, with a range index.
abbrev frame_of : ℕ → List (AnyArray ℕ) → DataFrame ℕ
frame_of n cols = record {
  cells = some (record { cols = cols });
  index = some (range_index 0 n);
  columns = some (plain_index (strings ("a" ∷ "b" ∷ [])));
  style = some (record { cols = [] });
}

abbrev two_cols : DataFrame ℕ
two_cols = frame_of 2 (doubles (1 ∷ 2 ∷ []) ∷ doubles (3 ∷ 4 ∷ []) ∷ [])

abbrev one_col : DataFrame ℕ
one_col = frame_of 1 (doubles (9 ∷ []) ∷ [])

abbrev nameless : NamedDataSet ℕ
nameless = record { has_name = false; name = ""; frame = some one_col }

abbrev named : String → NamedDataSet ℕ
named n = record { has_name = true; name = n; frame = some one_col }

add_rows-unnamed_example :
    let extended = extend naturals (some two_cols) (some one_col) in
    (add_rows naturals (chart_of naturals (some two_cols) []) nameless
      ≡ stored_by naturals (λ new. chart_of naturals new []) extended)
    × (add_rows naturals (chart_of naturals (some two_cols) (named "x" ∷ named "y" ∷ [])) nameless
        ≡ stored_by naturals (λ new. chart_of naturals new (named "x" ∷ named "y" ∷ [])) extended)
    × (add_rows naturals (chart_of naturals (some two_cols) (named "x" ∷ [])) nameless
        ≡ stored_by naturals
            (λ new. chart_of naturals (some two_cols) (record (named "x") { frame = new } ∷ []))
            extended)
add_rows-unnamed_example =
    add_rows-unnamed naturals nameless two_cols (named "x") (named "y") [] refl

abbrev extended_frame : DataFrame ℕ
extended_frame = frame_of 3 (doubles (1 ∷ 2 ∷ 9 ∷ []) ∷ [])

extended : extend naturals (some two_cols) (some one_col) ≡ ok (some extended_frame)
unfolding extend extend_cells extend_cols concat_frames concat_index index_len append_indexes
    zip_cols zip_styles concat_any_array any_array_len append_arrays
extended = refl

-- What a cell shows.
data Shown : Type 0 where
  missing : Shown
  text_of : String → Shown
  number_of : ℕ → Shown

abbrev plain : Display naturals
plain = record {
  Value = Shown;
  undefined = missing;
  of_text = text_of;
  of_number = number_of;
  moment = λ o. elim o [ none ↦ missing | some t ↦ text_of t ];
  duration = λ o. elim o [ none ↦ missing | some n ↦ number_of n ];
  plus = λ n o. elim o [ none ↦ missing | some i ↦ number_of (n + i) ];
  is_number = λ v. elim v [ missing ↦ false | text_of t ↦ false | number_of n ↦ true ];
  same = λ m n. m == n;
  is_negative = λ n. false;
  position = λ n. n;
  camelcase = λ t. t;
  as_key = λ v. elim v [ missing ↦ "undefined" | text_of t ↦ t | number_of n ↦ "number" ];
}

table_get-extend_example :
    (df' : DataFrame ℕ) × (◌≡◌ {A = Option (DataFrame ℕ)} (some extended_frame) (some df'))
    × ((r : ℕ)
        → r < 2
        → table_get naturals plain df'.cells 0 r ≡ table_get naturals plain two_cols.cells 0 r)
    × ((r : ℕ)
        → table_get naturals plain df'.cells 0 (2 + r) ≡ table_get naturals plain one_col.cells 0 r)
unfolding any_array_len
table_get-extend_example =
    table_get-extend naturals plain two_cols one_col (doubles (1 ∷ 2 ∷ []))
      (doubles (3 ∷ 4 ∷ []) ∷ []) (doubles (9 ∷ []) ∷ []) (doubles (1 ∷ 2 ∷ [])) (doubles (9 ∷ []))
      2 0 refl refl (omega arith) (refl, (refl, tt)) refl refl extended

-- The header of the second row of two is told from the second row of the data, and so is aligned to
-- the left over one number.
second_header :
    header_styles naturals plain one_col
      (record {
        header_rows = 2;
        header_cols = 1;
        data_rows = 1;
        data_cols = 1;
        all_cols = 2;
        all_rows = 3;
      })
      1
      1
    ≡ ok (("textAlign", "left") ∷ [])
unfolding header_styles table_get any_array_get set
second_header = refl

last_cell :
    data_frame_get naturals plain two_cols 2 2
    ≡ ok (record { contents = number_of 4; styles = []; type = data_type })
unfolding data_frame_get data_frame_get_dimensions levels_of size_of aligned cell_in data_cell_of
    table_get any_array_get table_get_rows_and_cols index_get_levels_and_length any_array_len
    table_style_get_display_value table_style_get_css cell_style
last_cell = refl
