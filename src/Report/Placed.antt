-- ===== src/Report/Placed.antt =====
-- An element that a delta brings: it is placed, and stays until another report.
use streamlit.Prelude.{String, [], ap, some, ◌∙◌, ◌∷◌, ◌≡◌}
use streamlit.Prelude.Result.{ok}
use streamlit.Report.Proto.{Element, ForwardMsgMetadata, new_element}
use streamlit.Metrics.{MetricsManager}
use streamlit.Report.Node.{ReportNode, element_node, get_in}
use streamlit.Report.Frames.{Frames}
use streamlit.Report.ElementNode.{ElementNode, new_element_node}
use streamlit.Report.Root.{
  Root, add_element, apply_delta, clear_stale_root, dispatch_delta, get_root_container_name,
  get_root_elements,
}
use streamlit.Report.Paths.{IsSettable}
use streamlit.Report.Current.{IsPart}
use streamlit.Report.Sections.{IsReportRoot}
use streamlit.Report.Present.{set_in-section}
use streamlit.Report.Deltas.{apply_delta-dispatch, apply_delta-new_element}

module _ (F : Frames) where
  -- An element that a delta brings to a root, at a path in a section where each index but the last
  -- names a child block and the last a child or the place behind the children: the delta does not
  -- throw, the element is at the path, and it is among the elements that `clearStaleNodes` leaves.
  pub apply_delta-placed :
      {D : Type 0} (id : String) (e : Element F.Payload) (metadata : ForwardMsgMetadata)
      (r : Root F) (m : MetricsManager D) {name : String}
      → IsReportRoot r
      → get_root_container_name metadata.delta_path ≡ ok name
      → IsSettable r.root metadata.delta_path
      → (r' : Root F) × (cleared : Root F) × ((apply_delta F id (new_element e) metadata r m).0
          ≡ ok r')
        × (get_in r'.root metadata.delta_path
            ≡ some (element_node (new_element_node F e metadata) id))
        × (clear_stale_root id r' ≡ ok cleared)
        × IsPart (new_element_node F e metadata ∷ []) (get_root_elements cleared)
  unfolding dispatch_delta add_element
  apply_delta-placed id e metadata r m root section settable =
      let node : ReportNode (ElementNode F) = element_node (new_element_node F e metadata) id in
      let (r', set) = set_in-section r metadata.delta_path node id root section settable in
      let done : (apply_delta F id (new_element e) metadata r m).0 ≡ ok r' =
        ap (λ x. x.0) (apply_delta-dispatch F id (new_element e) metadata r m section) ∙ set in
      let (found, cleared, went, kept) = apply_delta-new_element F id e metadata r m done in
      (r', cleared, done, found, went, kept)
