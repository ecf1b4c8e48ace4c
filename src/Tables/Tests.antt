-- ===== src/Tables/Tests.antt =====
-- A table of natural numbers that grows.
use streamlit.Prelude.{
  String, [], arith, false, inl, inr, none, refl, some, true, ℕ, ◌+◌, ◌-◌, ◌==◌, ◌∷◌, ◌≡◌,
}
use streamlit.Prelude.Result.{ok}
use streamlit.Report.Proto.{ArrowNamedDataSet, ForwardMsgMetadata, arrow_add_rows, arrow_table}
use streamlit.Quiver.{Frame, Quiver, RangeIndex, get_type_name}
use streamlit.Quiver.Samples.{
  naturals, one_label, parsed, text, two_rows, two_rows_parsed, two_rows_parsed-IsAligned,
}
use streamlit.Quiver.Parse.{ArrowElement, new_quiver_of, parse_optional_styler}
use streamlit.Quiver.AddRows.{has_styler}
use streamlit.Quiver.Concat.{same_data_types, same_index_types}
use streamlit.Quiver.Continued.{GoOn}
use streamlit.Report.Node.{block_node, cons, element_node, get_in, nil}
use streamlit.Report.ElementNode.{ElementNode, quiver_element}
use streamlit.Report.Root.{Root, apply_delta, root_block_proto}
use streamlit.Report.Sections.{IsReportRoot}
use streamlit.Metrics.{MetricsManager, new_metrics_manager}
use streamlit.Tables.{Runtime}
use streamlit.Tables.Grown.{IsGrownAt, apply_delta-grown, frames, takes}
use streamlit.Legacy.{Numbers, other_type}

abbrev plain_numbers : Numbers
plain_numbers = record {
  Number = ℕ;
  of_ℕ = λ n. n;
  add = λ a b. a + b;
  sub = λ a b. a - b;
  is_zero = λ n. n == 0;
  zip_missing = ok [];
}

abbrev runtime : Runtime
runtime = record {
  arrow = naturals;
  numbers = plain_numbers;
  parse_labels = one_label;
  missing = text "";
  as_immutable = λ e. other_type;
  quiver_message = λ e. "quiver";
  legacy_message = λ e. "legacy";
  error_message = λ e. "error";
}

abbrev rows : ArrowElement naturals
rows = record { table = two_rows; styler = none }

abbrev as_quiver : Frame naturals → Quiver naturals
as_quiver f = record { frame = f; styler = none }

abbrev metadata : ForwardMsgMetadata
metadata = record { cacheable = false; delta_path = 0 ∷ 0 ∷ []; element_dimension_spec = none }

-- A leaf whose quiver is there.
abbrev table_of : Frame naturals → ElementNode (frames runtime)
table_of f = record {
  element = arrow_table rows;
  metadata = metadata;
  lazy_immutable_element = none;
  lazy_quiver_element = some (as_quiver f);
  lazy_vega_lite_chart_element = none;
}

abbrev root_of : String → Frame naturals → Root (frames runtime)
root_of id f = record {
  root =
      block_node
        (cons (block_node (cons (element_node (table_of f) id) nil) root_block_proto id)
          (cons (block_node nil root_block_proto "a") nil))
        root_block_proto id;
}

abbrev new_rows : ArrowNamedDataSet (ArrowElement naturals)
new_rows = record { has_name = false; name = ""; rows = rows }

abbrev metrics : MetricsManager Unit
metrics = new_metrics_manager

rows_parsed : new_quiver_of naturals one_label (text "") rows ≡ ok (as_quiver two_rows_parsed)
unfolding new_quiver_of parse_optional_styler
rows_parsed = rw parsed refl

there :
    get_in (root_of "a" two_rows_parsed).root metadata.delta_path
    ≡ some (element_node (table_of two_rows_parsed) "a")
unfolding get_in
there = refl

shown : quiver_element (frames runtime) (table_of two_rows_parsed) ≡ ok (as_quiver two_rows_parsed)
unfolding quiver_element
shown = refl

on_root : IsReportRoot (root_of "a" two_rows_parsed)
on_root = (
  block_node (cons (element_node (table_of two_rows_parsed) "a") nil) root_block_proto "a",
  block_node nil root_block_proto "a",
  root_block_proto,
  "a",
  refl,
)

range_goes_on : GoOn naturals two_rows_parsed.types.index two_rows_parsed.types.index
range_goes_on =
    let range : RangeIndex ℕ = record { name = none; start = 0; step = 1; stop = 2 } in
    (inr ((range, refl), (range, refl)), tt)

apply_delta-grown_example :
    (r' : Root (frames runtime)) × ((apply_delta
        (frames runtime)
        "b"
        (arrow_add_rows new_rows)
        metadata
        (root_of "a" two_rows_parsed)
        metrics).0
      ≡ ok r')
    × IsGrownAt runtime 1 4 1
        (as_quiver two_rows_parsed)
        (as_quiver two_rows_parsed)
        metadata
        "b"
        r'
apply_delta-grown_example =
    apply_delta-grown runtime (as_quiver two_rows_parsed) (as_quiver two_rows_parsed) 1 2 1 1 2 1
      two_rows_parsed-IsAligned (omega arith) (refl, tt) two_rows_parsed-IsAligned range_goes_on
      (table_of two_rows_parsed) new_rows (rows, inl refl) shown refl rows_parsed "a" "b" metadata
      (root_of "a" two_rows_parsed) on_root there metrics

-- The table takes these rows.
taken_there : takes runtime (as_quiver two_rows_parsed) (as_quiver two_rows_parsed) ≡ true
unfolding has_styler same_index_types same_data_types get_type_name
taken_there = refl
