-- ===== src/App/Batching.antt =====
-- What happens to the tree that is not shown yet: it takes the deltas, one after the other.
use streamlit.Prelude.{Bool, List, String, [], false, refl, true, ◌∷◌, ◌≡◌}
use streamlit.Prelude.Result.{Result, err, ok}
use streamlit.Report.Proto.{
  Delta, Error, ForwardMsgMetadata, add_block, add_rows, arrow_add_rows, new_element, unrecognized,
}
use streamlit.Metrics.{MetricsManager, increment_delta_counter, new_metrics_manager}
use streamlit.Report.Frames.{Frames}
use streamlit.Report.Root.{Root, apply_delta, dispatch_delta, get_root_container_name}
use streamlit.App.Messages.{delta, new_report, report_finished}
use streamlit.App.Happenings.{Happening, message_comes}

module _ (F : Frames) where
  open F use {Payload, Rows}

  abbrev pub or_root : Root F → Result Error (Root F) → Root F
  or_root r (ok r') = r'
  or_root r (err e) = r

  -- What one delta makes of a tree: nothing where it is refused.
  unfoldable pub received : String → Delta Payload Rows → ForwardMsgMetadata → Root F → Root F
  received id d metadata r =
      or_root r (apply_delta F id d metadata r (new_metrics_manager {D = Unit {0}})).0

  -- The deltas among what happens, one after the other.
  unfoldable pub receive : String → Happening F → Root F → Root F
  receive id (message_comes (delta d metadata)) r = received id d metadata r
  receive id h r = r

  abbrev pub receive_all : String → List (Happening F) → Root F → Root F
  receive_all id [] r = r
  receive_all id (h ∷ hs) r = receive_all id hs (receive id h r)

  -- No report begins or ends.
  abbrev pub goes_on : Happening F → Bool
  goes_on (message_comes (new_report msg)) = false
  goes_on (message_comes (report_finished true)) = false
  goes_on h = true

  dispatch_delta-metrics :
      {D E : Type 0} (id : String) (d : Delta Payload Rows) (metadata : ForwardMsgMetadata)
      (r : Root F) (m : MetricsManager D) (m' : MetricsManager E)
      → (dispatch_delta F id d metadata r m).0 ≡ (dispatch_delta F id d metadata r m').0
  unfolding dispatch_delta
  dispatch_delta-metrics id (new_element e) metadata r m m' = refl
  dispatch_delta-metrics id (add_block b) metadata r m m' = refl
  dispatch_delta-metrics id (add_rows rows) metadata r m m' = refl
  dispatch_delta-metrics id (arrow_add_rows set) metadata r m m' = refl
  dispatch_delta-metrics id (unrecognized type) metadata r m m' = refl

  -- The metrics do not change what a delta does.
  pub apply_delta-metrics :
      {D E : Type 0} (id : String) (d : Delta Payload Rows) (metadata : ForwardMsgMetadata)
      (r : Root F) (m : MetricsManager D) (m' : MetricsManager E)
      → (apply_delta F id d metadata r m).0 ≡ (apply_delta F id d metadata r m').0
  unfolding apply_delta
  apply_delta-metrics {D} {E} id d metadata r m m' =
      go (get_root_container_name metadata.delta_path)
    where
      go :
          (o : Result Error String)
          → (elim o as (λ _. Result Error (Root F) × MetricsManager D) [
            | err e ↦ (err e, m)
            | ok name ↦ dispatch_delta F id d metadata r (increment_delta_counter name m)
          ]).0
            ≡ (elim o as (λ _. Result Error (Root F) × MetricsManager E) [
              | err e ↦ (err e, m')
              | ok name ↦ dispatch_delta F id d metadata r (increment_delta_counter name m')
            ]).0
      go (err e) = refl
      go (ok name) = dispatch_delta-metrics id d metadata r _ _
