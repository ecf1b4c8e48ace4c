-- ===== src/Report/Sections.antt =====
-- The two sections of a report's root, which every delta and `clearStaleNodes` keep.
use streamlit.Prelude.{Option-cases, String, ap, arith, inl, inr, refl, some, ◌++◌, ◌∙◌, ◌≡◌}
use streamlit.Prelude.Result.{ok}
use streamlit.Report.Proto.{BlockProto}
use streamlit.Report.Node.{
  ReportNode, block_node, clear_stale_nodes, cons, element_node, get_elements, nil,
}
use streamlit.Report.Stale.{elements-clear_stale_nodes, live_elements}
use streamlit.Report.Root.{
  ReportRoot, clear_or_new, clear_stale_root, get_optional_elements, get_root_elements, main,
  new_report_root, root_block_proto, sidebar,
}

module _ {L : Type 0} where
  -- A root is a block with a main node, a sidebar node and nothing else.
  abbrev pub IsReportRoot : ReportRoot L → Type 0
  IsReportRoot r =
      (main sidebar : ReportNode L) × (proto : BlockProto) × (id : String) × (r.root
        ≡ block_node (cons main (cons sidebar nil)) proto id)

  pub new_report_root-ok :
      (n : ReportNode L) {r : ReportRoot L}
      → new_report_root n ≡ ok r
      → (n ≡ r.root) × IsReportRoot r
  unfolding new_report_root
  new_report_root-ok (element_node l id) e = cc e
  new_report_root-ok (block_node nil proto id) e = cc e
  new_report_root-ok (block_node (cons m nil) proto id) e = cc e
  new_report_root-ok (block_node (cons m (cons s nil)) proto id) e =
      (ground (arith, e), (m, s, proto, id, ground (arith, e)))
  new_report_root-ok (block_node (cons m (cons s (cons t ns))) proto id) e = cc e

  elements-clear_or_new :
      (current : String) (n : ReportNode L)
      → get_elements (clear_or_new current (some n)) ≡ live_elements current n
  unfolding clear_or_new get_elements
  elements-clear_or_new current n = elim (Option-cases (clear_stale_nodes current n)) [
    | inl gone ↦ ground (arith, gone, elements-clear_stale_nodes current n)
    | inr (n', kept) ↦ ground (arith, kept, elements-clear_stale_nodes current n)
  ]

  literal_root_cleared :
      (current : String) (m s : ReportNode L) (proto : BlockProto) (id : String)
      → (r : ReportRoot L) × (clear_stale_root current
            (record { root = block_node (cons m (cons s nil)) proto id })
          ≡ ok r)
        × IsReportRoot r
        × (get_root_elements r ≡ live_elements current m ++ live_elements current s)
  unfolding clear_stale_root new_report_root main sidebar get_root_elements get_optional_elements
  literal_root_cleared current m s proto id = (
    record {
      root =
          block_node
            (cons (clear_or_new current (some m)) (cons (clear_or_new current (some s)) nil))
            root_block_proto current;
    },
    refl,
    (clear_or_new current (some m), clear_or_new current (some s), root_block_proto, current, refl),
    rw (elements-clear_or_new current m, elements-clear_or_new current s) refl,
  )

  -- `clearStaleNodes` of a root does not throw: it returns a root, whose elements are those of the
  -- main node and then of the sidebar node that belong to the current report with all the blocks
  -- of their section.
  pub clear_stale_root-ok :
      (current : String) (r : ReportRoot L) (m s : ReportNode L) (proto : BlockProto) (id : String)
      → r.root ≡ block_node (cons m (cons s nil)) proto id
      → (r' : ReportRoot L) × (clear_stale_root current r ≡ ok r')
        × IsReportRoot r'
        × (get_root_elements r' ≡ live_elements current m ++ live_elements current s)
  clear_stale_root-ok current r m s proto id e =
      let (r', done, two, left) = literal_root_cleared current m s proto id in
      (r', ap (λ n. clear_stale_root current (record { root = n })) e ∙ done, two, left)
