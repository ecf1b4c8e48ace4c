-- ===== src/Report/Fresh.antt =====
-- `clearStaleNodes` keeps fresh trees, and leaves nothing else.
use streamlit.Prelude.{
  Bool, Bool-cases, Option-cases, String, arith, eq_iff, eq_refl, false, if◌then◌else◌, inl, inr,
  none, not, refl, some, str_eq, subst, sym, true, ◌&&◌, ◌↔◌, ◌≡◌,
}
use streamlit.Report.Proto.{BlockProto}
use streamlit.Report.Node.{
  Nodes, ReportNode, block_node, clear_stale_children, clear_stale_nodes, cons, element_node, nil,
  no_children,
}
use streamlit.Report.Stale.{AreFresh, IsFresh, IsFreshIfKept}

str_eq-true : (s t : String) → str_eq s t ≡ true → s ≡ t
str_eq-true s t e = ground (arith, eq_iff s t)

children-gone :
    {L : Type 0} (current : String) (n : ReportNode L) (ns : Nodes L)
    → clear_stale_nodes current n ≡ none
    → clear_stale_children current (cons n ns) ≡ clear_stale_children current ns
unfolding clear_stale_nodes
children-gone current n ns e = ground (arith, e)

children-kept :
    {L : Type 0} (current : String) (n : ReportNode L) (ns : Nodes L) {n' : ReportNode L}
    → clear_stale_nodes current n ≡ some n'
    → clear_stale_children current (cons n ns) ≡ cons n' (clear_stale_children current ns)
unfolding clear_stale_nodes
children-kept current n ns e = ground (arith, e)

child_fresh :
    {L : Type 0} (current : String) (n : ReportNode L) (ns : Nodes L)
    → IsFreshIfKept current (clear_stale_nodes current n)
    → AreFresh current (clear_stale_children current ns)
    → AreFresh current (clear_stale_children current (cons n ns))
child_fresh current n ns h hs = elim (Option-cases (clear_stale_nodes current n)) [
  | inl gone ↦ rw (children-gone current n ns gone) hs
  | inr (n', kept) ↦ rw (children-kept current n ns kept) (subst (IsFreshIfKept current) kept h, hs)
]

block-kept :
    {L : Type 0} (current : String) (ns : Nodes L) (proto : BlockProto) (id : String)
    → str_eq id current ≡ true
    → no_children (clear_stale_children current ns) && not proto.allow_empty ≡ false
    → clear_stale_nodes current (block_node ns proto id)
      ≡ some (block_node (clear_stale_children current ns) proto current)
unfolding clear_stale_nodes
block-kept current ns proto id same kept = ground (arith, same, kept)

block-gone :
    {L : Type 0} (current : String) (ns : Nodes L) (proto : BlockProto) (id : String)
    → no_children (clear_stale_children current ns) && not proto.allow_empty ≡ true
    → clear_stale_nodes current (block_node ns proto id) ≡ none
unfolding clear_stale_nodes
block-gone current ns proto id gone = ground (arith, gone)

node-stale :
    {L : Type 0} (current : String) (ns : Nodes L) (proto : BlockProto) (id : String)
    → str_eq id current ≡ false
    → clear_stale_nodes current (block_node ns proto id) ≡ none
unfolding clear_stale_nodes
node-stale current ns proto id stale = ground (arith, stale)

block_fresh :
    {L : Type 0} (current : String) (ns : Nodes L) (proto : BlockProto) (id : String)
    → str_eq id current ≡ true
    → AreFresh current (clear_stale_children current ns)
    → IsFreshIfKept current (clear_stale_nodes current (block_node ns proto id))
block_fresh current ns proto id same hs =
    elim (Bool-cases (no_children (clear_stale_children current ns) && not proto.allow_empty)) [
      | inl gone ↦ rw (block-gone current ns proto id gone) tt
      | inr kept ↦ rw (block-kept current ns proto id same kept) (refl, kept, hs)
    ]

leaf_fresh :
    {L : Type 0} (current : String) (l : L) (id : String)
    → IsFreshIfKept current (clear_stale_nodes current (element_node l id))
unfolding clear_stale_nodes
leaf_fresh current l id = leaf (str_eq id current) refl
  where
    leaf :
        (b : Bool)
        → str_eq id current ≡ b
        → IsFreshIfKept current (if b then some (element_node l id) else none)
    leaf true e = str_eq-true id current e
    leaf false e = tt

mutual
  unfolding clear_stale_nodes

  kept_fresh :
      {L : Type 0} (current : String) (n : ReportNode L)
      → IsFreshIfKept current (clear_stale_nodes current n)
  kept_fresh current (element_node l id) = leaf_fresh current l id
  kept_fresh current (block_node ns proto id) =
      let rest = kept_fresh_children current ns in
      elim (Bool-cases (str_eq id current)) [
        | inl same ↦ block_fresh current ns proto id same rest
        | inr stale ↦ subst (IsFreshIfKept current) (sym (node-stale current ns proto id stale)) tt
      ]

  kept_fresh_children :
      {L : Type 0} (current : String) (ns : Nodes L)
      → AreFresh current (clear_stale_children current ns)
  kept_fresh_children current nil = tt
  kept_fresh_children current (cons n ns) =
      child_fresh current n ns (kept_fresh current n) (kept_fresh_children current ns)

mutual
  unfolding clear_stale_nodes

  fresh_fixed :
      {L : Type 0} (current : String) (n : ReportNode L)
      → IsFresh current n
      → clear_stale_nodes current n ≡ some n
  fresh_fixed current (element_node l id) h = ground (arith, eq_refl current)
  fresh_fixed current (block_node ns proto id) (here, full, below) =
      let rest = fresh_children_fixed current ns below in
      ground (arith, eq_refl current, here, full, rest)

  fresh_children_fixed :
      {L : Type 0} (current : String) (ns : Nodes L)
      → AreFresh current ns
      → clear_stale_children current ns ≡ ns
  fresh_children_fixed current nil h = refl
  fresh_children_fixed current (cons n ns) (h, hs) =
      ground (arith, fresh_fixed current n h, fresh_children_fixed current ns hs)

fixed-IsFresh :
    {L : Type 0} (current : String) (n : ReportNode L)
    → clear_stale_nodes current n ≡ some n
    → IsFresh current n
fixed-IsFresh current n e = subst (IsFreshIfKept current) e (kept_fresh current n)

-- `clearStaleNodes` leaves only fresh trees, and exactly those stay as they are: every node left
-- belongs to the current report, and no block left is empty that may not be.
pub clear_stale_nodes-IsFresh :
    {L : Type 0} (current : String) (n : ReportNode L)
    → IsFreshIfKept current (clear_stale_nodes current n)
      × ((clear_stale_nodes current n ≡ some n) ↔ IsFresh current n)
clear_stale_nodes-IsFresh current n =
    (kept_fresh current n, (fixed-IsFresh current n, fresh_fixed current n))
