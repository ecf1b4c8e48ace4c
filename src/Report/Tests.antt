-- ===== src/Report/Tests.antt =====
-- Runs of frontend/src/lib/ReportNode.ts at concrete inputs.
use streamlit.Prelude.{
  List, String, [], arith, false, inl, none, refl, some, true, ℕ, ◌++◌, ◌↔◌, ◌∷◌, ◌≡◌,
}
use streamlit.Prelude.Result.{ok}
use streamlit.Report.Proto.{
  BlockProto, Element, ForwardMsgMetadata, add_block, arrow_table, form, new_element,
}
use streamlit.Metrics.{MetricsManager, new_metrics_manager}
use streamlit.Report.Node.{
  ReportNode, block_node, clear_stale_nodes, cons, default_block_proto, element_node, get_in, nil,
  set_in,
}
use streamlit.Report.Frames.{Frames}
use streamlit.Report.ElementNode.{ElementNode, new_element_node}
use streamlit.Report.Root.{
  ReportRoot, Root, add_element, apply_add_block, apply_delta, clear_stale_root, dispatch_delta,
  get_root_container_name, get_root_elements, inherited, new_report_root, root_block_proto,
}
use streamlit.Report.Paths.{IsSettable, set_in-ok_iff}
use streamlit.Report.Stale.{IsFresh, IsFreshIfKept, live_elements}
use streamlit.Report.Fresh.{clear_stale_nodes-IsFresh}
use streamlit.Report.Current.{IsPart}
use streamlit.Report.Sections.{IsReportRoot, clear_stale_root-ok}
use streamlit.Report.Deltas.{apply_delta-IsReportRoot}
use streamlit.Report.Placed.{apply_delta-placed}

abbrev leaf : ℕ → String → ReportNode ℕ
leaf n id = element_node n id

abbrev inner : ReportNode ℕ
inner = block_node (cons (leaf 2 "b") (cons (leaf 3 "a") nil)) default_block_proto "a"

abbrev tree : ReportNode ℕ
tree = block_node (cons (leaf 1 "a") (cons inner nil)) default_block_proto "a"

abbrev tree_after : ReportNode ℕ
tree_after =
    block_node
      (cons (leaf 1 "a") (
        cons
          (block_node (cons (leaf 2 "b") (cons (leaf 3 "a") (cons (leaf 9 "c") nil)))
            default_block_proto "c")
          nil))
      default_block_proto "c"

set_done : set_in tree (1 ∷ 2 ∷ []) (leaf 9 "c") "c" ≡ ok tree_after
unfolding set_in
set_done = refl

set_in-ok_iff_example :
    ((r' : ReportNode ℕ) × (set_in tree (1 ∷ 2 ∷ []) (leaf 9 "c") "c" ≡ ok r'))
    ↔ IsSettable tree (1 ∷ 2 ∷ [])
set_in-ok_iff_example = set_in-ok_iff tree (1 ∷ 2 ∷ []) (leaf 9 "c") "c"

clear_stale_nodes-IsFresh_example :
    IsFreshIfKept "a" (clear_stale_nodes "a" tree)
    × ((clear_stale_nodes "a" tree ≡ some tree) ↔ IsFresh "a" tree)
clear_stale_nodes-IsFresh_example = clear_stale_nodes-IsFresh "a" tree

live_in_tree : live_elements "a" tree ≡ 1 ∷ 3 ∷ []
unfolding live_elements
live_in_tree = refl

clear_stale_root-ok_example :
    (r : ReportRoot ℕ) × (clear_stale_root "a" (record { root = tree }) ≡ ok r)
    × IsReportRoot r
    × (get_root_elements r ≡ live_elements "a" (leaf 1 "a") ++ live_elements "a" inner)
clear_stale_root-ok_example =
    clear_stale_root-ok "a" (record { root = tree }) (leaf 1 "a") inner default_block_proto "a" refl

-- Frames whose quivers are lists of numbers.
abbrev frames : Frames
frames = record {
  Payload = List ℕ;
  Quiver = List ℕ;
  new_quiver = λ p. ok p;
  quiver_add_rows = λ q new_rows. ok (q ++ new_rows);
  Rows = ℕ;
  Immutable = List ℕ;
  to_immutable = λ e. [];
  immutable_add_rows = λ rows n. ok (n ∷ rows);
  message = λ e. "error";
}

abbrev metrics : MetricsManager Unit
metrics = new_metrics_manager

abbrev metadata : List ℕ → ForwardMsgMetadata
metadata path = record { cacheable = false; delta_path = path; element_dimension_spec = none }

abbrev a_table : Element (List ℕ)
a_table = arrow_table (4 ∷ [])

abbrev node : Element (List ℕ) → List ℕ → ReportNode (ElementNode frames)
node e path = element_node (new_element_node frames e (metadata path)) "c"

abbrev old : Root frames
old = record {
  root =
      block_node
        (cons (block_node nil root_block_proto "b")
          (cons (block_node nil root_block_proto "b") nil))
        root_block_proto "b";
}

abbrev with_table : Root frames
with_table = record {
  root =
      block_node
        (cons (block_node (cons (node a_table (0 ∷ 0 ∷ [])) nil) root_block_proto "c")
          (cons (block_node nil root_block_proto "b") nil))
        root_block_proto "c";
}

table_added :
    (apply_delta frames "c" (new_element a_table) (metadata (0 ∷ 0 ∷ [])) old metrics).0
    ≡ ok with_table
unfolding apply_delta dispatch_delta add_element set_in new_report_root new_element_node
    get_root_container_name
table_added = refl

old-IsReportRoot : IsReportRoot old
old-IsReportRoot = (
  block_node nil root_block_proto "b",
  block_node nil root_block_proto "b",
  root_block_proto,
  "b",
  refl,
)

in_main : get_root_container_name (0 ∷ 0 ∷ []) ≡ ok "main"
unfolding get_root_container_name
in_main = refl

old-IsSettable : IsSettable old.root (0 ∷ 0 ∷ [])
old-IsSettable = (block_node nil root_block_proto "b", refl, omega arith)

apply_delta-placed_example :
    (r' : Root frames) × (cleared : Root frames) × ((apply_delta frames "c"
        (new_element a_table)
        (metadata (0 ∷ 0 ∷ []))
        old
        metrics).0
      ≡ ok r')
    × (get_in r'.root (0 ∷ 0 ∷ []) ≡ some (node a_table (0 ∷ 0 ∷ [])))
    × (clear_stale_root "c" r' ≡ ok cleared)
    × IsPart
        (new_element_node frames a_table (metadata (0 ∷ 0 ∷ [])) ∷ [])
        (get_root_elements cleared)
apply_delta-placed_example =
    apply_delta-placed frames "c" a_table (metadata (0 ∷ 0 ∷ [])) old metrics old-IsReportRoot
      in_main old-IsSettable

apply_delta-IsReportRoot_example :
    IsReportRoot with_table × (get_in with_table.root (1 ∷ []) ≡ get_in old.root (1 ∷ []))
apply_delta-IsReportRoot_example =
    apply_delta-IsReportRoot frames "c" (new_element a_table) (metadata (0 ∷ 0 ∷ [])) old metrics
      (1 ∷ []) table_added (inl (λ e. omega (arith, e)))

abbrev form_block : BlockProto
form_block = record { block_type = some (form "f" true); allow_empty = false }

abbrev with_block : Root frames
with_block = record {
  root =
      block_node
        (cons (block_node (cons (node a_table (0 ∷ 0 ∷ [])) nil) form_block "d")
          (cons (block_node nil root_block_proto "b") nil))
        root_block_proto "d";
}

block_added :
    (apply_delta frames "d" (add_block form_block) (metadata (0 ∷ [])) with_table metrics).0
    ≡ ok with_block
unfolding apply_delta dispatch_delta apply_add_block set_in get_in new_report_root new_element_node
    get_root_container_name inherited
block_added = refl
