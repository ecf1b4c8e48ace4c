-- ===== src/Report/Stale.antt =====
-- What `clearStaleNodes` leaves of a tree.
use streamlit.Prelude.{
  Bool-cases, List, Option, Option-cases, String, [], arith, false, if◌then◌else◌, inl, inr, none,
  not, refl, some, str_eq, true, ◌&&◌, ◌++◌, ◌∷◌, ◌≡◌,
}
use streamlit.Report.Proto.{BlockProto}
use streamlit.Report.Node.{
  Nodes, ReportNode, block_node, clear_stale_children, clear_stale_nodes, cons, element_node,
  get_children_elements, get_elements, nil, no_children,
}

-- The elements whose nodes, and all the blocks around them, belong to a report.
unfoldable mutual
  pub live_elements : {L : Type 0} → String → ReportNode L → List L
  live_elements current (element_node l id) = if str_eq id current then l ∷ [] else []
  live_elements current (block_node ns proto id) =
      let rest = live_children_elements current ns in if str_eq id current then rest else []

  pub live_children_elements : {L : Type 0} → String → Nodes L → List L
  live_children_elements current nil = []
  live_children_elements current (cons n ns) =
      live_elements current n ++ live_children_elements current ns

-- Every node belongs to a report, and every block without children may be empty.
abbrev mutual
  pub IsFresh : {L : Type 0} → String → ReportNode L → Type 0
  IsFresh current (element_node l id) = id ≡ current
  IsFresh current (block_node ns proto id) =
      (id ≡ current) × (no_children ns && not proto.allow_empty ≡ false) × AreFresh current ns

  pub AreFresh : {L : Type 0} → String → Nodes L → Type 0
  AreFresh current nil = Unit
  AreFresh current (cons n ns) = IsFresh current n × AreFresh current ns

abbrev pub optional_elements : {L : Type 0} → Option (ReportNode L) → List L
optional_elements none = []
optional_elements (some n) = get_elements n

abbrev pub IsFreshIfKept : {L : Type 0} → String → Option (ReportNode L) → Type 0
IsFreshIfKept current none = Unit
IsFreshIfKept current (some n) = IsFresh current n

no_children-elements :
    {L : Type 0} (ns : Nodes L) → no_children ns ≡ true → get_children_elements ns ≡ []
unfolding get_children_elements
no_children-elements nil h = refl
no_children-elements (cons n ns) h = cc

-- One step of the recursion through a tree.
block_elements :
    {L : Type 0} (current : String) (ns : Nodes L) (proto : BlockProto) (id : String)
    → get_children_elements (clear_stale_children current ns) ≡ live_children_elements current ns
    → optional_elements (clear_stale_nodes current (block_node ns proto id))
      ≡ live_elements current (block_node ns proto id)
unfolding clear_stale_nodes get_elements live_elements
block_elements current ns proto id h =
    ground (arith, no_children-elements (clear_stale_children current ns))

children_elements :
    {L : Type 0} (current : String) (n : ReportNode L) (ns : Nodes L)
    → optional_elements (clear_stale_nodes current n) ≡ live_elements current n
    → get_children_elements (clear_stale_children current ns) ≡ live_children_elements current ns
    → get_children_elements (clear_stale_children current (cons n ns))
      ≡ live_children_elements current (cons n ns)
unfolding clear_stale_nodes get_elements live_elements
children_elements current n ns h hs = elim (Option-cases (clear_stale_nodes current n)) [
  | inl gone ↦ ground (arith, gone, h, hs)
  | inr (n', kept) ↦ ground (arith, kept, h, hs)
]

mutual
  unfolding clear_stale_nodes get_elements live_elements

  elements-clear :
      {L : Type 0} (current : String) (n : ReportNode L)
      → optional_elements (clear_stale_nodes current n) ≡ live_elements current n
  elements-clear current (element_node l id) = elim (Bool-cases (str_eq id current)) [
    | inl same ↦ rw same
    | inr stale ↦ rw stale
  ]
  elements-clear current (block_node ns proto id) =
      let rest = elements-clear_children current ns in block_elements current ns proto id rest

  elements-clear_children :
      {L : Type 0} (current : String) (ns : Nodes L)
      → get_children_elements (clear_stale_children current ns) ≡ live_children_elements current ns
  elements-clear_children current nil = refl
  elements-clear_children current (cons n ns) =
      children_elements current n ns (elements-clear current n) (elements-clear_children current ns)

-- The elements that `clearStaleNodes` leaves are, in their order, those whose own node and all of
-- whose blocks belong to the current report.
pub elements-clear_stale_nodes :
    {L : Type 0} (current : String) (n : ReportNode L)
    → optional_elements (clear_stale_nodes current n) ≡ live_elements current n
elements-clear_stale_nodes current n = elements-clear current n
