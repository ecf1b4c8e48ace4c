-- ===== src/Report/Present.antt =====
-- Changes of a node that is there: `setIn` at its path succeeds and keeps the two sections.
use streamlit.Prelude.{
  List, Option-cases, String, [], arith, inl, inr, refl, some, suc, zero, ℕ, ◌<◌, ◌∷◌, ◌≡◌,
}
use streamlit.Prelude.Result.{ok, ◌>>=◌}
use streamlit.Report.Proto.{BlockProto}
use streamlit.Report.Node.{
  Nodes, ReportNode, block_node, child, children_length, cons, element_node, get_in, nil, put,
  set_in,
}
use streamlit.Report.Root.{ReportRoot, get_root_container_name, new_report_root}
use streamlit.Report.Paths.{
  IsSettable, child-lt_length, set_in-block_deep, set_in-block_one, set_in-ok,
}
use streamlit.Report.Sections.{IsReportRoot}

small_section :
    (i : ℕ) (path : List ℕ) {name : String} → get_root_container_name (i ∷ path) ≡ ok name → i < 2
unfolding get_root_container_name
small_section zero path e = omega arith
small_section (suc zero) path e = omega arith
small_section (suc (suc i)) path e = cc e

module _ {L : Type 0} where
  child_present :
      (ns : Nodes L) (proto : BlockProto) (id : String) (i : ℕ) (path : List ℕ) {n : ReportNode L}
      → get_in (block_node ns proto id) (i ∷ path) ≡ some n
      → i < children_length ns
  unfolding get_in
  child_present ns proto id i [] here = child-lt_length i ns here
  child_present ns proto id i (j ∷ path) here = elim (Option-cases (child ns i)) [
    | inl none_there ↦ cc (rw (none_there, get_in) at here)
    | inr (m, found) ↦ child-lt_length i ns found
  ]

  IsSettable-get_in :
      (r : ReportNode L) (path : List ℕ) {n : ReportNode L}
      → get_in r path ≡ some n
      → IsSettable r path
  unfolding get_in
  IsSettable-get_in (element_node l id) path here = cc here
  IsSettable-get_in (block_node ns proto id) [] here = cc here
  IsSettable-get_in (block_node ns proto id) (i ∷ []) here =
      omega (arith, child-lt_length i ns here)
  IsSettable-get_in (block_node ns proto id) (i ∷ j ∷ path) here =
      elim (Option-cases (child ns i)) [
        | inl none_there ↦ cc (rw (none_there, get_in) at here)
        | inr (m, found) ↦ (m, found, IsSettable-get_in m (j ∷ path) (rw (found, get_in) at here))
      ]

  set_in-put :
      (ns : Nodes L) (proto : BlockProto) (id' : String) (i : ℕ) (path : List ℕ) (n : ReportNode L)
      (id : String) {result : ReportNode L}
      → set_in (block_node ns proto id') (i ∷ path) n id ≡ ok result
      → (m : ReportNode L) × (result ≡ block_node (put i m ns) proto id)
  set_in-put ns proto id' i [] n id e = (n, (set_in-block_one ns proto id' i n id e).1)
  set_in-put ns proto id' i (j ∷ path) n id e =
      let (m, m', found, set, same) = set_in-block_deep ns proto id' i j path n id e in (m', same)

  IsReportRoot-put :
      (i : ℕ) (n main_node sidebar_node : ReportNode L) (proto : BlockProto) (id : String)
      → i < 2
      → (r : ReportRoot L) × (new_report_root
            (block_node (put i n (cons main_node (cons sidebar_node nil))) proto id)
          ≡ ok r)
  unfolding new_report_root
  IsReportRoot-put zero n main_node sidebar_node proto id small = (_, refl)
  IsReportRoot-put (suc zero) n main_node sidebar_node proto id small = (_, refl)
  IsReportRoot-put (suc (suc i)) n main_node sidebar_node proto id small =
      absurd (omega (arith, small))

  -- A node can be set at a settable path in a section, which leaves a root.
  pub set_in-section :
      (r : ReportRoot L) (path : List ℕ) (n : ReportNode L) (id : String) {name : String}
      → IsReportRoot r
      → get_root_container_name path ≡ ok name
      → IsSettable r.root path
      → (r' : ReportRoot L) × ((set_in r.root path n id >>= new_report_root) ≡ ok r')
  unfolding get_root_container_name
  set_in-section r [] n id root section settable = cc section
  set_in-section r (i ∷ path) n id (main_node, sidebar_node, proto, id', shape) section settable =
      let two = cons main_node (cons sidebar_node nil) in
      let (result, set) =
        set_in-ok (block_node two proto id') (i ∷ path) n id (rw shape at settable) in
      let (m, same) = set_in-put two proto id' i path n id set in
      let (r', done) =
        IsReportRoot-put i m main_node sidebar_node proto id (small_section i path section) in
      (r', rw (shape, set, same) done)

  -- The first index of a path to a node names a section.
  pub section_present :
      (r : ReportRoot L) (path : List ℕ) {n : ReportNode L}
      → IsReportRoot r
      → get_in r.root path ≡ some n
      → (name : String) × (get_root_container_name path ≡ ok name)
  unfolding get_in get_root_container_name
  section_present r [] (main_node, sidebar_node, proto, id, shape) here = cc (rw shape at here)
  section_present r (zero ∷ path) root here = ("main", refl)
  section_present r (suc zero ∷ path) root here = ("sidebar", refl)
  section_present r (suc (suc i) ∷ path) (main_node, sidebar_node, proto, id, shape) here =
      let small =
        child_present (cons main_node (cons sidebar_node nil)) proto id (suc (suc i)) path
          (rw shape at here) in
      absurd (omega (arith, small))

  -- A node that is there can be replaced.
  pub set_in-root :
      (r : ReportRoot L) (path : List ℕ) (n : ReportNode L) (id : String) {old : ReportNode L}
      → IsReportRoot r
      → get_in r.root path ≡ some old
      → (r' : ReportRoot L) × ((set_in r.root path n id >>= new_report_root) ≡ ok r')
  set_in-root r path n id root here =
      let (name, section) = section_present r path root here in
      set_in-section r path n id root section (IsSettable-get_in r.root path here)
