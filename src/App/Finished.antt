-- ===== src/App/Finished.antt =====
-- Deltas are shown in batches: in the end a report shows what its deltas make of the tree.
use streamlit.Prelude.{Bool, List, Option, String, [], ap, arith, refl, true, ◌&&◌, ◌∙◌, ◌∷◌, ◌≡◌}
use streamlit.Prelude.Result.{Result, err, ok, ok_inj}
use streamlit.Report.Proto.{Delta, Element, Error, ForwardMsgMetadata}
use streamlit.Metrics.{new_metrics_manager}
use streamlit.Report.Frames.{Frames}
use streamlit.Report.Root.{Root, apply_delta, clear_stale_root}
use streamlit.Report.Sections.{IsReportRoot, clear_stale_root-ok}
use streamlit.Report.Deltas.{apply_delta-root}
use streamlit.App.{App}
use streamlit.App.Messages.{delta, handle_message, report_finished}
use streamlit.App.Happenings.{Happening, happen, happen_all, message_comes}
use streamlit.App.Core.{Core, core}
use streamlit.App.TreeCores.{core-handle_report_finished, finish_taken}
use streamlit.App.Batching.{goes_on, or_root, receive, receive_all, received}
use streamlit.App.Taken.{happen-IsTaken}

module _ (F : Frames) where
  open F use {Payload, Rows}

  abbrev pub all_go_on : List (Happening F) → Bool
  all_go_on [] = true
  all_go_on (h ∷ hs) = goes_on F h && all_go_on hs

  received-IsReportRoot :
      (id : String) (d : Delta Payload Rows) (metadata : ForwardMsgMetadata) (r : Root F)
      → IsReportRoot r
      → IsReportRoot (received F id d metadata r)
  unfolding received
  received-IsReportRoot id d metadata r two =
      go (apply_delta F id d metadata r (new_metrics_manager {D = Unit {0}})).0
        (λ r' e. apply_delta-root F id d metadata r (new_metrics_manager {D = Unit {0}}) e)
    where
      go :
          (o : Result Error (Root F))
          → ((r' : Root F) → o ≡ ok r' → IsReportRoot r')
          → IsReportRoot (or_root F r o)
      go (ok r') h = h r' refl
      go (err e) h = two

  receive-IsReportRoot :
      (id : String) (h : Happening F) (r : Root F)
      → IsReportRoot r
      → IsReportRoot (receive F id h r)
  unfolding receive
  receive-IsReportRoot id (message_comes (delta d metadata)) r two =
      received-IsReportRoot id d metadata r two
  receive-IsReportRoot id h r two = two

  receive_all-IsReportRoot :
      (id : String) (hs : List (Happening F)) (r : Root F)
      → IsReportRoot r
      → IsReportRoot (receive_all F id hs r)
  receive_all-IsReportRoot id [] r two = two
  receive_all-IsReportRoot id (h ∷ hs) r two =
      receive_all-IsReportRoot id hs (receive F id h r) (receive-IsReportRoot id h r two)

  module _ (widget_id : Element Payload → Option String) (hash_string : String → String)
      (join_entries : List (String × String) → String) where
    happen_all-received :
        (hs : List (Happening F)) (a : App F)
        → all_go_on hs ≡ true
        → let a' = happen_all F widget_id hash_string join_entries hs a in
          ((core a').buffer ≡ receive_all F a.report_id hs a.pending_elements_buffer)
          × ((core a').report_id ≡ a.report_id)
    unfolding core
    happen_all-received [] a on = (refl, refl)
    happen_all-received (h ∷ hs) a on =
        let a₁ = happen F widget_id hash_string join_entries h a in
        let (taken, same) =
          happen-IsTaken F widget_id hash_string join_entries h a (ground (arith, on)) in
        let (rest, same') = happen_all-received hs a₁ (ground (arith, on)) in
        (rest ∙ (λ i. receive_all F (same i) hs (taken i)), same' ∙ same)

    finish_taken-ok :
        (o : Result Error (Root F)) (c : Core F) {r : Root F}
        → o ≡ ok r
        → ((finish_taken F widget_id o c).elements ≡ r)
          × ((finish_taken F widget_id o c).buffer ≡ r)
    finish_taken-ok (ok r') c e = (ok_inj e, ok_inj e)
    finish_taken-ok (err x) c e = cc e

    -- However messages, timeouts, the connection and the user intervene while a report runs, and
    -- whether it was shown meanwhile, stopped or rerun: when it ends successfully the tree that is
    -- shown, and the one that waits, are the tree at the start, changed by each delta that came and
    -- was not refused, in order, and cleared of the elements of other reports. The tree at the start
    -- has its two sections.
    pub finished-receive_all :
        (hs : List (Happening F)) (a : App F)
        → all_go_on hs ≡ true
        → IsReportRoot a.pending_elements_buffer
        → let a₁ = happen_all F widget_id hash_string join_entries hs a in
          let a' =
            happen F widget_id hash_string join_entries (message_comes (report_finished true)) a₁ in
          (r : Root F) × (clear_stale_root a.report_id
              (receive_all F a.report_id hs a.pending_elements_buffer)
            ≡ ok r)
          × (a'.elements ≡ r)
          × (a'.pending_elements_buffer ≡ r)
    unfolding core handle_message
    finished-receive_all hs a on two =
        let a₁ = happen_all F widget_id hash_string join_entries hs a in
        let (taken, same) = happen_all-received hs a on in
        let all = receive_all F a.report_id hs a.pending_elements_buffer in
        let (m, s, proto, id, shape) =
          receive_all-IsReportRoot a.report_id hs a.pending_elements_buffer two in
        let (r, cleared_all, two_left, live) =
          clear_stale_root-ok a.report_id all m s proto id shape in
        let shown =
          finish_taken-ok (clear_stale_root a₁.report_id a₁.pending_elements_buffer) (core a₁)
            ((λ i. clear_stale_root (same i) (taken i)) ∙ cleared_all) in
        let e = core-handle_report_finished F widget_id a₁ in
        (
          r,
          cleared_all,
          ap (λ (c : Core F). c.elements) e ∙ shown.0,
          ap (λ (c : Core F). c.buffer) e ∙ shown.1,
        )
