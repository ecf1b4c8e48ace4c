-- ===== src/Report/Deltas.antt =====
-- What the deltas do to a report, and what is left of them when the stale nodes go.
use streamlit.Prelude.{List, String, [], ap, arith, eq_refl, refl, some, subst, sym, ℕ, ◌∷◌, ◌≡◌}
use streamlit.Prelude.Result.{Result, err, ok, ◌>>=◌}
use streamlit.Report.Proto.{
  ArrowNamedDataSet, BlockProto, Delta, Element, Error, ForwardMsgMetadata, add_block, add_rows,
  arrow_add_rows, make_element_with_error_text, new_element, unrecognized,
}
use streamlit.Metrics.{MetricsManager, increment_delta_counter}
use streamlit.Report.Node.{ReportNode, block_node, element_node, get_in, set_in}
use streamlit.Report.Frames.{Frames}
use streamlit.Report.ElementNode.{ElementNode, new_element_node}
use streamlit.Report.Root.{
  ReportRoot, Root, add_element, apply_add_block, apply_add_rows, apply_arrow_add_rows, apply_delta,
  clear_stale_root, dispatch_delta, get_root_container_name, get_root_elements, inherited, main,
  new_report_root, sidebar,
}
use streamlit.Report.Paths.{Diverge, get_in-set_in_ne, get_in-set_in_self}
use streamlit.Report.Stale.{live_elements}
use streamlit.Report.Current.{IsPart, live-set_in, live-two}
use streamlit.Report.Sections.{IsReportRoot, clear_stale_root-ok, new_report_root-ok}

pub new_root_after :
    {L : Type 0} (x : Result Error (ReportNode L)) {r : ReportRoot L}
    → (x >>= new_report_root) ≡ ok r
    → (x ≡ ok r.root) × IsReportRoot r
new_root_after (err e) h = cc h
new_root_after (ok n) h = let (same, two) = new_report_root-ok n h in (ap (λ t. ok t) same, two)

module _ (F : Frames) where
  pub add_element-ok :
      (path : List ℕ) (id : String) (e : Element F.Payload) (metadata : ForwardMsgMetadata)
      (r : Root F) {r' : Root F}
      → add_element F path id e metadata r ≡ ok r'
      → (set_in r.root path (element_node (new_element_node F e metadata) id) id ≡ ok r'.root)
        × IsReportRoot r'
  unfolding add_element
  add_element-ok path id e metadata r h = new_root_after _ h

  apply_add_block-ok :
      (path : List ℕ) (block : BlockProto) (id : String) (r : Root F) {r' : Root F}
      → apply_add_block F path block id r ≡ ok r'
      → (set_in r.root path (block_node (inherited F (get_in r.root path)) block id) id
          ≡ ok r'.root)
        × IsReportRoot r'
  unfolding apply_add_block
  apply_add_block-ok path block id r h = new_root_after _ h

  -- What a delta that does not throw does to the tree: one `setIn`, and the result is a root.
  IsSetBy : List ℕ → String → Root F → Root F → Type 0
  IsSetBy path id r r' =
      (n : ReportNode (ElementNode F)) × (set_in r.root path n id ≡ ok r'.root) × IsReportRoot r'

  node-kept :
      (id : String) (l : ElementNode F) {n n' : ReportNode (ElementNode F)}
      → n ≡ n'
      → IsPart (live_elements id (element_node l id)) (live_elements id n)
      → IsPart (l ∷ []) (live_elements id n')
  unfolding live_elements
  node-kept id l {n} {n'} e (before, after, h) = (before, after, ground (arith, e, h, eq_refl id))

  rows_set :
      (path : List ℕ) (id : String) (r : Root F) {r' : Root F} (x : Result Error (ElementNode F))
      → (x >>= λ l. set_in r.root path (element_node l id) id >>= new_report_root) ≡ ok r'
      → IsSetBy path id r r'
  unfolding IsSetBy
  rows_set path id r (err e) h = cc h
  rows_set path id r (ok l) h =
      let (set, two) = new_root_after (set_in r.root path (element_node l id) id) h in
      (element_node l id, set, two)

  add_rows-set :
      (path : List ℕ) (rows : F.Rows) (id : String) (r : Root F) {r' : Root F}
      → apply_add_rows F path rows id r ≡ ok r'
      → IsSetBy path id r r'
  unfolding apply_add_rows
  add_rows-set path rows id r h = rows_set path id r _ h

  element_set :
      (path : List ℕ) (id : String) (e : Element F.Payload) (metadata : ForwardMsgMetadata)
      (r : Root F) {r' : Root F}
      → add_element F path id e metadata r ≡ ok r'
      → IsSetBy path id r r'
  unfolding IsSetBy
  element_set path id e metadata r h =
      let (set, two) = add_element-ok path id e metadata r h in (_, set, two)

  arrow_rows_set :
      (path : List ℕ) (id : String) (e : Error → Element F.Payload) (metadata : ForwardMsgMetadata)
      (r : Root F) {r' : Root F} (x : Result Error (Root F))
      → (x ≡ ok r' → IsSetBy path id r r')
      → (elim x [ ok done ↦ ok done | err error ↦ add_element F path id (e error) metadata r ])
        ≡ ok r'
      → IsSetBy path id r r'
  arrow_rows_set path id e metadata r (ok done) set h = set h
  arrow_rows_set path id e metadata r (err error) set h = element_set path id (e error) metadata r h

  arrow_add_rows-set :
      (path : List ℕ) (rows : ArrowNamedDataSet F.Payload) (id : String) (r : Root F) {r' : Root F}
      → apply_arrow_add_rows F path rows id r ≡ ok r'
      → IsSetBy path id r r'
  unfolding apply_arrow_add_rows
  arrow_add_rows-set path rows id r h = rows_set path id r _ h

  dispatch-set :
      {D : Type 0} (id : String) (delta : Delta F.Payload F.Rows) (metadata : ForwardMsgMetadata)
      (r : Root F) (m : MetricsManager D) {r' : Root F}
      → (dispatch_delta F id delta metadata r m).0 ≡ ok r'
      → IsSetBy metadata.delta_path id r r'
  unfolding dispatch_delta IsSetBy
  dispatch-set id (new_element e) metadata r m h = element_set metadata.delta_path id e metadata r h
  dispatch-set id (add_block block) metadata r m h =
      let (set, two) = apply_add_block-ok metadata.delta_path block id r h in (_, set, two)
  dispatch-set id (add_rows rows) metadata r m h = add_rows-set metadata.delta_path rows id r h
  dispatch-set id (arrow_add_rows set) metadata r m h =
      arrow_rows_set metadata.delta_path id (λ e. make_element_with_error_text (F.message e))
        metadata r (apply_arrow_add_rows F metadata.delta_path set id r)
        (arrow_add_rows-set metadata.delta_path set id r) h
  dispatch-set id (unrecognized type) metadata r m h = cc h

  pub dispatched :
      {D : Type 0} (id : String) (delta : Delta F.Payload F.Rows) (metadata : ForwardMsgMetadata)
      (r : Root F) (m : MetricsManager D) {r' : Root F}
      → (apply_delta F id delta metadata r m).0 ≡ ok r'
      → (m' : MetricsManager D) × ((dispatch_delta F id delta metadata r m').0 ≡ ok r')
  unfolding apply_delta
  dispatched {D} id delta metadata r m {r'} h = go (get_root_container_name metadata.delta_path) h
    where
      go :
          (x : Result Error String)
          → (elim x as (λ _. Result Error (Root F) × MetricsManager D) [
            | err e ↦ (err e, m)
            | ok name ↦ dispatch_delta F id delta metadata r (increment_delta_counter name m)
          ]).0
            ≡ ok r'
          → (m' : MetricsManager D) × ((dispatch_delta F id delta metadata r m').0 ≡ ok r')
      go (err e) h = cc h
      go (ok name) h = (increment_delta_counter name m, h)

  pub apply_delta-dispatch :
      {D : Type 0} (id : String) (delta : Delta F.Payload F.Rows) (metadata : ForwardMsgMetadata)
      (r : Root F) (m : MetricsManager D) {name : String}
      → get_root_container_name metadata.delta_path ≡ ok name
      → apply_delta F id delta metadata r m
        ≡ dispatch_delta F id delta metadata r (increment_delta_counter name m)
  unfolding apply_delta
  apply_delta-dispatch id delta metadata r m section = rw (section, apply_delta) refl

  -- A delta that does not throw returns a root with a main and a sidebar node, and leaves a
  -- node alone whose path parts from the delta's own.
  pub apply_delta-IsReportRoot :
      {D : Type 0} (id : String) (delta : Delta F.Payload F.Rows) (metadata : ForwardMsgMetadata)
      (r : Root F) (m : MetricsManager D) {r' : Root F} (q : List ℕ)
      → (apply_delta F id delta metadata r m).0 ≡ ok r'
      → Diverge metadata.delta_path q
      → IsReportRoot r' × (get_in r'.root q ≡ get_in r.root q)
  unfolding IsSetBy
  apply_delta-IsReportRoot id delta metadata r m q h d =
      let (m', h') = dispatched id delta metadata r m h in
      let (n, set, two) = dispatch-set id delta metadata r m' h' in
      (two, get_in-set_in_ne r.root metadata.delta_path q n id set d)

  -- What a delta returns is a root with its two sections.
  pub apply_delta-root :
      {D : Type 0} (id : String) (delta : Delta F.Payload F.Rows) (metadata : ForwardMsgMetadata)
      (r : Root F) (m : MetricsManager D) {r' : Root F}
      → (apply_delta F id delta metadata r m).0 ≡ ok r'
      → IsReportRoot r'
  unfolding IsSetBy
  apply_delta-root id delta metadata r m h =
      let (m', h') = dispatched id delta metadata r m h in
      let (n, set, two) = dispatch-set id delta metadata r m' h' in two

  -- A block that a delta adds has the children of the block that was at its path, if there was one.
  pub apply_delta-add_block :
      {D : Type 0} (id : String) (block : BlockProto) (metadata : ForwardMsgMetadata) (r : Root F)
      (m : MetricsManager D) {r' : Root F}
      → (apply_delta F id (add_block block) metadata r m).0 ≡ ok r'
      → get_in r'.root metadata.delta_path
        ≡ some (block_node (inherited F (get_in r.root metadata.delta_path)) block id)
  unfolding dispatch_delta
  apply_delta-add_block id block metadata r m h =
      let (m', h') = dispatched id (add_block block) metadata r m h in
      let (set, _) = apply_add_block-ok metadata.delta_path block id r h' in
      get_in-set_in_self r.root metadata.delta_path _ id set

  -- The element that a delta brings is at the delta's path, and when the nodes of other reports go,
  -- it is among the elements that are left.
  pub apply_delta-new_element :
      {D : Type 0} (id : String) (e : Element F.Payload) (metadata : ForwardMsgMetadata)
      (r : Root F) (m : MetricsManager D) {r' : Root F}
      → (apply_delta F id (new_element e) metadata r m).0 ≡ ok r'
      → (get_in r'.root metadata.delta_path
          ≡ some (element_node (new_element_node F e metadata) id))
        × (cleared : Root F) × (clear_stale_root id r' ≡ ok cleared)
        × IsPart (new_element_node F e metadata ∷ []) (get_root_elements cleared)
  unfolding dispatch_delta
  apply_delta-new_element id e metadata r m {r'} h =
      let (m', h') = dispatched id (new_element e) metadata r m h in
      let (set, (main, sidebar, proto, id', shape)) =
        add_element-ok metadata.delta_path id e metadata r h' in
      let node : ReportNode (ElementNode F) = element_node (new_element_node F e metadata) id in
      let found = get_in-set_in_self r.root metadata.delta_path node id set in
      let (cleared, done, _, left) = clear_stale_root-ok id r' main sidebar proto id' shape in
      let kept = live-set_in id r.root metadata.delta_path node set in
      (
        found,
        cleared,
        done,
        subst (IsPart (new_element_node F e metadata ∷ [])) (sym left)
            (live-two id _ main sidebar proto id' (node-kept id _ shape kept)),
      )
