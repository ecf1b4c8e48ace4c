-- ===== src/App/Reconnected.antt =====
-- A request to stop outlives the session that it was meant for.
use streamlit.Prelude.{List, Option, String, [], ap, false, inl, inr, true, ℕ, ◌∙◌, ◌∷◌, ◌≡◌}
use streamlit.Connection.{ConnectionState, connected}
use streamlit.Report.Proto.{Element}
use streamlit.Report.Frames.{Frames}
use streamlit.App.{App, ReportRunState, stop_requested}
use streamlit.App.Commands.{may_stop}
use streamlit.App.Session.{NewReport, next_run_state}
use streamlit.App.Messages.{handle_message, new_report}
use streamlit.App.Happenings.{
  Happening, connection_changes, happen_all, manager_state_changed, message_comes,
}
use streamlit.App.Core.{Core, core}
use streamlit.App.MessageCores.{core-manager_state_changed}
use streamlit.App.ReportCores.{MayControl, handle_new_report-control}

module _ (F : Frames) (widget_id : Element F.Payload → Option String)
    (hash_string : String → String) (join_entries : List (String × String) → String) where
  abbrev pub reconnect : ConnectionState → NewReport → List (Happening F)
  reconnect lost msg =
      connection_changes lost ∷ connection_changes connected ∷ message_comes (new_report msg) ∷ []

  still_stopped :
      (msg : NewReport) (c : Core F) (k : ReportRunState × ℕ)
      → msg.initialize.session_state.report_is_running ≡ true
      → c.run_state ≡ stop_requested
      → MayControl msg c k
      → k.0 ≡ stop_requested
  unfolding next_run_state
  still_stopped msg c k runs stopped (inl e) = ap (λ (k : ReportRunState × ℕ). k.0) e ∙ stopped
  still_stopped msg c k runs stopped (inr e) =
      ap (λ (k : ReportRunState × ℕ). k.0) e ∙ (λ i. next_run_state (runs i) (stopped i))

  -- An application that waits for a run to stop loses the connection and gets a new one, whose session
  -- begins a report that runs. It goes on waiting, so that the user cannot stop that run.
  pub reconnected-still_stopped :
      (lost : ConnectionState) (msg : NewReport) (a : App F)
      → a.report_run_state ≡ stop_requested
      → msg.initialize.session_state.report_is_running ≡ true
      → let a' = happen_all F widget_id hash_string join_entries (reconnect lost msg) a in
        (a'.report_run_state ≡ stop_requested) × (may_stop a'.report_run_state ≡ false)
  unfolding core handle_message may_stop
  reconnected-still_stopped lost msg a stopped runs =
      let a₁ = manager_state_changed lost a in
      let a₂ = manager_state_changed connected a₁ in
      let (_, e₁) = core-manager_state_changed lost a in
      let (_, e₂) = core-manager_state_changed connected a₁ in
      let same_run : a₂.report_run_state ≡ a.report_run_state =
        ap (λ (c : Core F). c.run_state) e₂ ∙ ap (λ (c : Core F). c.run_state) e₁ in
      let still =
        still_stopped msg (core a₂) _ runs (same_run ∙ stopped)
          (handle_new_report-control hash_string join_entries msg a₂) in
      (still, ap may_stop still)
