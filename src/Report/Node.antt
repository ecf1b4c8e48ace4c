-- ===== src/Report/Node.antt =====
-- The tree of frontend/src/lib/ReportNode.ts: `ElementNode` leaves and `BlockNode` branches, and
-- what both do with a path. The class of the leaves is `Report/ElementNode`; here a leaf has a
-- content of any type `L` beside its report id.
use streamlit.Prelude.{
  Bool, List, Option, String, [], false, if◌then◌else◌, ltb, none, not, some, str_eq, suc, true,
  zero, ℕ, ◌&&◌, ◌++◌, ◌∷◌,
}
use streamlit.Prelude.Result.{Result, err, ok, ◌>>=◌}
use streamlit.Report.Proto.{
  BlockProto, Error, bad_set_in_index, empty_path, set_in_on_element, type_error,
}

mutual
  pub data ReportNode (L : Type 0) : Type 0 where
    element_node : L → String → ReportNode L
    block_node : Nodes L → BlockProto → String → ReportNode L

  -- The `children` array.
  pub data Nodes (L : Type 0) : Type 0 where
    nil : Nodes L
    cons : ReportNode L → Nodes L → Nodes L

abbrev pub no_report_id : String
no_report_id = "NO_REPORT_ID"

-- `new BlockProto({})`
abbrev pub default_block_proto : BlockProto
default_block_proto = record { block_type = none; allow_empty = false }

module _ {L : Type 0} where
  abbrev pub children_length : Nodes L → ℕ
  children_length nil = 0
  children_length (cons n ns) = suc (children_length ns)

  -- `children[i]`
  abbrev pub child : Nodes L → ℕ → Option (ReportNode L)
  child nil i = none
  child (cons n ns) zero = some n
  child (cons n ns) (suc i) = child ns i

  -- `children[i] = node`, at most at the end of the array.
  abbrev pub put : ℕ → ReportNode L → Nodes L → Nodes L
  put i node nil = cons node nil
  put zero node (cons n ns) = cons node ns
  put (suc i) node (cons n ns) = cons n (put i node ns)

  -- `new BlockNode(children)`, whose other arguments have defaults.
  abbrev pub new_block_node : Nodes L → ReportNode L
  new_block_node children = block_node children default_block_proto no_report_id

  -- A path is a list of indices, which the protobuf holds as unsigned numbers.
  unfoldable pub get_in : ReportNode L → List ℕ → Option (ReportNode L)
  get_in (element_node l id) path = none
  get_in (block_node children proto id) [] = none
  get_in (block_node children proto id) (i ∷ []) = child children i
  get_in (block_node children proto id) (i ∷ j ∷ path) = elim (child children i) [
    | none ↦ none
    | some n ↦ get_in n (j ∷ path)
  ]

  -- The `setIn` of `undefined` is a type error of the runtime.
  unfoldable pub set_in :
      ReportNode L → List ℕ → ReportNode L → String → Result Error (ReportNode L)
  set_in (element_node l id) path node report_id = err set_in_on_element
  set_in (block_node children proto id) [] node report_id = err empty_path
  set_in (block_node children proto id) (i ∷ []) node report_id =
      if ltb (children_length children) i
      then err (bad_set_in_index i (children_length children))
      else ok (block_node (put i node children) proto report_id)
  set_in (block_node children proto id) (i ∷ j ∷ path) node report_id =
      let inner : Result Error (ReportNode L) = elim (child children i) [
        | none ↦ err type_error
        | some n ↦ set_in n (j ∷ path) node report_id
      ] in
      if ltb (children_length children) i
      then err (bad_set_in_index i (children_length children))
      else (inner >>= λ n. ok (block_node (put i n children) proto report_id))

  -- `children.length === 0`
  abbrev pub no_children : Nodes L → Bool
  no_children nil = true
  no_children (cons n ns) = false

-- `clearStaleNodes`; on the children, those that are left.
unfoldable mutual
  pub clear_stale_nodes : {L : Type 0} → String → ReportNode L → Option (ReportNode L)
  clear_stale_nodes current (element_node l id) =
      if str_eq id current then some (element_node l id) else none
  clear_stale_nodes current (block_node children proto id) =
      let rest = clear_stale_children current children in
      if str_eq id current
      then (if no_children rest && not proto.allow_empty
          then none
          else some (block_node rest proto current))
      else none

  pub clear_stale_children : {L : Type 0} → String → Nodes L → Nodes L
  clear_stale_children current nil = nil
  clear_stale_children current (cons n ns) =
      let rest = clear_stale_children current ns in
      elim (clear_stale_nodes current n) [ none ↦ rest | some n' ↦ cons n' rest ]

-- `getElements`: the contents of the leaves, in the order in which they are added. The code adds
-- them to a set, which has an element once where leaves share its object, as those of one cached
-- message do; the list has it once for each leaf.
unfoldable mutual
  pub get_elements : {L : Type 0} → ReportNode L → List L
  get_elements (element_node l id) = l ∷ []
  get_elements (block_node children proto id) = get_children_elements children

  pub get_children_elements : {L : Type 0} → Nodes L → List L
  get_children_elements nil = []
  get_children_elements (cons n ns) = get_elements n ++ get_children_elements ns
