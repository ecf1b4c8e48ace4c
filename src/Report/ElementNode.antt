-- ===== src/Report/ElementNode.antt =====
-- `ElementNode` of frontend/src/lib/ReportNode.ts: the content of a leaf, and how rows are added to
-- it.
use mathlib.Core.Option
use streamlit.Prelude.{
  Bool, List, Option, String, [], if◌then◌else◌, none, some, str_eq, suc, zero, ℕ, ◌&&◌, ◌∷◌,
}
use streamlit.Prelude.Result.{Result, err, ok, ◌>>=◌}
use streamlit.Report.Proto.{
  ArrowNamedDataSet, Element, Error, ForwardMsgMetadata, arrow_data_frame, arrow_table,
  arrow_vega_lite_chart, element_type, named_dataset, not_a_quiver_element, not_a_vega_lite_chart,
  not_an_add_rows_target,
}
use streamlit.Report.Frames.{Frames}

pub record WrappedNamedDataset (Q : Type 0) : Type 0 where
  pub has_name : Bool
  pub name : String
  pub frame : Q

pub record VegaLiteChartElement (Q : Type 0) : Type 0 where
  pub frame : Option Q
  pub spec : String
  pub datasets : List (WrappedNamedDataset Q)
  pub use_container_width : Bool

-- A leaf without its report id. The lazy fields are `none` until they are set.
pub record ElementNode (F : Frames) : Type 0 where
  pub element : Element F.Payload
  pub metadata : ForwardMsgMetadata
  pub lazy_immutable_element : Option F.Immutable
  pub lazy_quiver_element : Option F.Quiver
  pub lazy_vega_lite_chart_element : Option (VegaLiteChartElement F.Quiver)

-- `namedDataSets.find(dataset => dataset.hasName && dataset.name === name)`, by the index of the
-- data set; a name that is not given is equal to no data set's name.
unfoldable pub find_dataset : {Q : Type 0} → List (WrappedNamedDataset Q) → Option String → Option ℕ
find_dataset [] name = none
find_dataset (d ∷ ds) none = none
find_dataset (d ∷ ds) (some name) =
    let rest = Option.map suc (find_dataset ds (some name)) in
    if d.has_name && str_eq d.name name then some 0 else rest

unfoldable pub get_named_data_set :
    {Q : Type 0} → List (WrappedNamedDataset Q) → Option String → Option ℕ
get_named_data_set (d ∷ []) name = some 0
get_named_data_set ds name = find_dataset ds name

module _ (F : Frames) where
  open F use {
    Payload, Quiver, new_quiver, quiver_add_rows, Rows, Immutable, to_immutable, immutable_add_rows,
  }

  unfoldable pub new_element_node : Element Payload → ForwardMsgMetadata → ElementNode F
  new_element_node e metadata = record {
    element = e;
    metadata = metadata;
    lazy_immutable_element = none;
    lazy_quiver_element = none;
    lazy_vega_lite_chart_element = none;
  }

  unfoldable pub immutable_element : ElementNode F → Immutable
  immutable_element node = elim node.lazy_immutable_element [
    | some cached ↦ cached
    | none ↦ to_immutable node.element
  ]

  -- `new Quiver(element[element.type])` for the two types that have a quiver.
  unfoldable pub quiver_of_element : Element Payload → Result Error Quiver
  quiver_of_element (arrow_table p) = new_quiver p
  quiver_of_element (arrow_data_frame p) = new_quiver p
  quiver_of_element e = err (not_a_quiver_element (element_type e))

  unfoldable pub quiver_element : ElementNode F → Result Error Quiver
  quiver_element node = elim node.lazy_quiver_element [
    | some cached ↦ ok cached
    | none ↦ quiver_of_element node.element
  ]

  unfoldable pub wrap_datasets :
      List (ArrowNamedDataSet Payload) → Result Error (List (WrappedNamedDataset Quiver))
  wrap_datasets [] = ok []
  wrap_datasets (d ∷ ds) = do
    q ← new_quiver d.rows
    rest ← wrap_datasets ds
    ok (record { has_name = d.has_name; name = d.name; frame = q } ∷ rest)

  -- `proto.data ? new Quiver(proto.data) : null`
  unfoldable pub optional_quiver : Option Payload → Result Error (Option Quiver)
  optional_quiver none = ok none
  optional_quiver (some p) = do q ← new_quiver p; ok (some q)

  unfoldable pub chart_of_element : Element Payload → Result Error (VegaLiteChartElement Quiver)
  chart_of_element (arrow_vega_lite_chart proto) = do
    modified ← optional_quiver proto.frame
    datasets ← wrap_datasets proto.datasets
    ok (record {
      frame = modified;
      spec = proto.spec;
      datasets = datasets;
      use_container_width = proto.use_container_width;
    })
  chart_of_element e = err (not_a_vega_lite_chart (element_type e))

  unfoldable pub vega_lite_chart_element :
      ElementNode F → Result Error (VegaLiteChartElement Quiver)
  vega_lite_chart_element node = elim node.lazy_vega_lite_chart_element [
    | some cached ↦ ok cached
    | none ↦ chart_of_element node.element
  ]

  -- The legacy rows: the new node has the element with the rows in its lazy field.
  unfoldable pub node_add_rows : ElementNode F → Rows → Result Error (ElementNode F)
  node_add_rows node rows = do
    added ← immutable_add_rows (immutable_element node) rows
    ok (record (new_element_node node.element node.metadata) {
      lazy_immutable_element = some added;
    })

  -- The quiver of the receiver changes in place, and the new node has a clone of it.
  unfoldable pub quiver_add_rows_helper : Quiver → ArrowNamedDataSet Payload → Result Error Quiver
  quiver_add_rows_helper q set =
      if set.has_name
      then err named_dataset
      else do new_rows ← new_quiver set.rows; quiver_add_rows q new_rows

  -- The rows go to the data set at an index.
  unfoldable pub add_rows_to_dataset :
      ℕ
      → Quiver
      → List (WrappedNamedDataset Quiver)
      → Result Error (List (WrappedNamedDataset Quiver))
  add_rows_to_dataset i new_rows [] = ok []
  add_rows_to_dataset zero new_rows (d ∷ ds) = do
    q ← quiver_add_rows d.frame new_rows
    ok (record d { frame = q } ∷ ds)
  add_rows_to_dataset (suc i) new_rows (d ∷ ds) = do
    rest ← add_rows_to_dataset i new_rows ds
    ok (d ∷ rest)

  -- The rows go to the chart's own data, or become it.
  unfoldable pub add_rows_to_chart :
      Quiver → VegaLiteChartElement Quiver → Result Error (VegaLiteChartElement Quiver)
  add_rows_to_chart new_rows chart = elim chart.frame [
    | none ↦ ok (record chart { frame = some new_rows })
    | some q ↦ quiver_add_rows q new_rows >>= λ q'. ok (record chart { frame = some q' })
  ]

  unfoldable pub vega_lite_chart_add_rows_helper :
      VegaLiteChartElement Quiver
      → ArrowNamedDataSet Payload
      → Result Error (VegaLiteChartElement Quiver)
  vega_lite_chart_add_rows_helper chart set = do
    new_rows ← new_quiver set.rows
    elim (get_named_data_set chart.datasets (if set.has_name then some set.name else none)) [
      | none ↦ add_rows_to_chart new_rows chart
      | some i ↦ add_rows_to_dataset i new_rows chart.datasets >>= λ ds.
          ok (record chart { datasets = ds })
    ]

  unfoldable pub node_arrow_add_rows :
      ElementNode F → ArrowNamedDataSet Payload → Result Error (ElementNode F)
  node_arrow_add_rows node set = elim node.element [
    | arrow_table p ↦ with_quiver
    | arrow_data_frame p ↦ with_quiver
    | arrow_vega_lite_chart proto ↦ with_chart
    | e ↦ err (not_an_add_rows_target (element_type e))
  ]
    where
      fresh : ElementNode F
      fresh = new_element_node node.element node.metadata

      with_quiver : Result Error (ElementNode F)
      with_quiver = do
        q ← quiver_element node
        q' ← quiver_add_rows_helper q set
        ok (record fresh { lazy_quiver_element = some q' })

      with_chart : Result Error (ElementNode F)
      with_chart = do
        chart ← vega_lite_chart_element node
        chart' ← vega_lite_chart_add_rows_helper chart set
        ok (record fresh { lazy_vega_lite_chart_element = some chart' })
