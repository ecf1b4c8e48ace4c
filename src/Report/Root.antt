-- ===== src/Report/Root.antt =====
-- `ReportRoot` of frontend/src/lib/ReportNode.ts: the root of the tree, and the deltas that it
-- applies. The counters of the metrics are passed along, since they change also where a delta
-- throws.
use streamlit.Prelude.{List, Option, String, [], false, none, some, suc, true, zero, ℕ, ◌++◌, ◌∷◌}
use streamlit.Prelude.Result.{Result, err, ok, ◌>>=◌}
use streamlit.Report.Proto.{
  ArrowNamedDataSet, BlockProto, Delta, Element, Error, ForwardMsgMetadata, add_block, add_rows,
  arrow_add_rows, component_instance, element_type, invalid_arrow_rows_path, invalid_root,
  invalid_rows_path, make_element_with_error_text, make_element_with_info_text, new_element,
  type_error, unrecognized, unrecognized_delta, unrecognized_root_container,
}
use streamlit.Metrics.{MetricsManager, increment_custom_component_counter, increment_delta_counter}
use streamlit.Report.Node.{
  Nodes, ReportNode, block_node, child, clear_stale_nodes, cons, element_node, get_elements, get_in,
  new_block_node, nil, no_report_id, set_in,
}
use streamlit.Report.Frames.{Frames}
use streamlit.Report.ElementNode.{ElementNode, new_element_node, node_add_rows, node_arrow_add_rows}

pub record ReportRoot (L : Type 0) : Type 0 where
  pub root : ReportNode L

-- `new BlockProto({ allowEmpty: true })`
abbrev pub root_block_proto : BlockProto
root_block_proto = record { block_type = none; allow_empty = true }

module _ {L : Type 0} where
  -- `new ReportRoot(root)`: a main and a sidebar node, and nothing else.
  unfoldable pub new_report_root : ReportNode L → Result Error (ReportRoot L)
  new_report_root (block_node (cons main (cons sidebar nil)) proto id) =
      ok (record { root = block_node (cons main (cons sidebar nil)) proto id })
  new_report_root n = err invalid_root

  abbrev pub children_of : ReportNode L → Nodes L
  children_of (element_node l id) = nil
  children_of (block_node children proto id) = children

  unfoldable pub main : ReportRoot L → Option (ReportNode L)
  main r = child (children_of r.root) 0

  unfoldable pub sidebar : ReportRoot L → Option (ReportNode L)
  sidebar r = child (children_of r.root) 1

  -- `node.clearStaleNodes(currentReportId) || new BlockNode()`; a root always has both nodes.
  unfoldable pub clear_or_new : String → Option (ReportNode L) → ReportNode L
  clear_or_new current none = new_block_node nil
  clear_or_new current (some n) = elim (clear_stale_nodes current n) [
    | none ↦ new_block_node nil
    | some n' ↦ n'
  ]

  -- `clearStaleNodes` of the root.
  unfoldable pub clear_stale_root : String → ReportRoot L → Result Error (ReportRoot L)
  clear_stale_root current r = new_report_root (
      block_node
        (cons (clear_or_new current (main r)) (cons (clear_or_new current (sidebar r)) nil))
        root_block_proto current)

  unfoldable pub get_optional_elements : Option (ReportNode L) → List L
  get_optional_elements none = []
  get_optional_elements (some n) = get_elements n

  -- `getElements` of the root, by the contents of the leaves.
  unfoldable pub get_root_elements : ReportRoot L → List L
  get_root_elements r = get_optional_elements (main r) ++ get_optional_elements (sidebar r)

unfoldable pub get_root_container_name : List ℕ → Result Error String
get_root_container_name (zero ∷ path) = ok "main"
get_root_container_name (suc zero ∷ path) = ok "sidebar"
get_root_container_name path = err (unrecognized_root_container path)

module _ (F : Frames) where
  open F use {Payload, Rows, message}

  abbrev pub Root : Type 0
  Root = ReportRoot (ElementNode F)

  -- `ReportRoot.empty`
  unfoldable pub empty : Option String → Result Error Root
  empty placeholder_text = new_report_root (
      new_block_node (
        cons (block_node main_nodes root_block_proto no_report_id)
          (cons (block_node nil root_block_proto no_report_id) nil)))
    where
      main_nodes : Nodes (ElementNode F)
      main_nodes = elim placeholder_text [
        | none ↦ nil
        | some text ↦
            cons
              (element_node
                (new_element_node F (make_element_with_info_text text)
                  (record { cacheable = false; delta_path = []; element_dimension_spec = none }))
                no_report_id)
              nil
      ]

  unfoldable pub add_element :
      List ℕ → String → Element Payload → ForwardMsgMetadata → Root → Result Error Root
  add_element path report_id e metadata r = do
    root ← set_in r.root path (element_node (new_element_node F e metadata) report_id) report_id
    new_report_root root

  -- The children of a block that is replaced; none of an element, or where nothing stands.
  unfoldable pub inherited : Option (ReportNode (ElementNode F)) → Nodes (ElementNode F)
  inherited (some (block_node children proto id)) = children
  inherited _ = nil

  unfoldable pub apply_add_block : List ℕ → BlockProto → String → Root → Result Error Root
  apply_add_block path block report_id r = do
    root ←
        set_in r.root path (block_node (inherited (get_in r.root path)) block report_id) report_id
    new_report_root root

  -- A block has no `addRows`: calling it is a type error of the runtime.
  unfoldable pub on_element :
      Error
      → (ElementNode F → Result Error (ElementNode F))
      → Option (ReportNode (ElementNode F))
      → Result Error (ElementNode F)
  on_element missing change none = err missing
  on_element missing change (some (element_node l id)) = change l
  on_element missing change (some (block_node children proto id)) = err type_error

  unfoldable pub apply_add_rows : List ℕ → Rows → String → Root → Result Error Root
  apply_add_rows path rows report_id r = do
    node ← on_element (invalid_rows_path path) (λ l. node_add_rows F l rows) (get_in r.root path)
    root ← set_in r.root path (element_node node report_id) report_id
    new_report_root root

  unfoldable pub apply_arrow_add_rows :
      List ℕ → ArrowNamedDataSet Payload → String → Root → Result Error Root
  apply_arrow_add_rows path set report_id r = do
    node ←
        on_element (invalid_arrow_rows_path path) (λ l. node_arrow_add_rows F l set)
          (get_in r.root path)
    root ← set_in r.root path (element_node node report_id) report_id
    new_report_root root

  unfoldable pub count_element :
      {D : Type 0} → Element Payload → MetricsManager D → MetricsManager D
  count_element (component_instance (some name) p) m =
      increment_custom_component_counter name (increment_delta_counter "componentInstance" m)
  count_element e m = elim (element_type e) [
    | none ↦ m
    | some type ↦ increment_delta_counter type m
  ]

  -- The `switch` over the delta's type.
  unfoldable pub dispatch_delta :
      {D : Type 0}
      → String
      → Delta Payload Rows
      → ForwardMsgMetadata
      → Root
      → MetricsManager D
      → Result Error Root × MetricsManager D
  dispatch_delta report_id (new_element e) metadata r m =
      (add_element metadata.delta_path report_id e metadata r, count_element e m)
  dispatch_delta report_id (add_block block) metadata r m =
      (apply_add_block metadata.delta_path block report_id r, increment_delta_counter "new block" m)
  dispatch_delta report_id (add_rows rows) metadata r m =
      (apply_add_rows metadata.delta_path rows report_id r, increment_delta_counter "add rows" m)
  dispatch_delta report_id (arrow_add_rows set) metadata r m = (
    (elim (apply_arrow_add_rows metadata.delta_path set report_id r) [
      | ok r' ↦ ok r'
      | err e ↦
          add_element metadata.delta_path report_id (make_element_with_error_text (message e))
            metadata r
    ]),
    increment_delta_counter "arrow add rows" m,
  )
  dispatch_delta report_id (unrecognized type) metadata r m = (err (unrecognized_delta type), m)

  unfoldable pub apply_delta :
      {D : Type 0}
      → String
      → Delta Payload Rows
      → ForwardMsgMetadata
      → Root
      → MetricsManager D
      → Result Error Root × MetricsManager D
  apply_delta report_id delta metadata r m = elim (get_root_container_name metadata.delta_path) [
    | err e ↦ (err e, m)
    | ok name ↦ dispatch_delta report_id delta metadata r (increment_delta_counter name m)
  ]
