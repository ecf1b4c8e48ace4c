-- ===== src/App/Requests.antt =====
-- How many requests to stop the application may send.
use streamlit.Prelude.{
  Bool, List, Option, String, [], ap, arith, false, if◌then◌else◌, inl, inr, not, refl, true, ℕ,
  ◌++◌, ◌+◌, ◌∷◌, ◌≡◌, ◌≤◌,
}
use streamlit.Prelude.Result.{Result, err, ok}
use streamlit.Report.Proto.{Element, Error}
use streamlit.Report.Frames.{Frames}
use streamlit.Report.Root.{Root}
use streamlit.App.{
  ReportRunState, Timeout, call_finished_handlers, compilation_error, not_running, rerun_requested,
  running, script_compilation_exception, show_pending, stop_requested,
}
use streamlit.App.Commands.{may_stop}
use streamlit.App.Session.{NewReport, next_run_state}
use streamlit.App.Messages.{new_report, session_event, session_state_changed}
use streamlit.App.Happenings.{Happening, message_comes, user_reruns}
use streamlit.App.Core.{Core}
use streamlit.App.CommandCores.{reruns, stops_now}
use streamlit.App.TreeCores.{delta_taken, finish_taken, timeout_taken}
use streamlit.App.ReportCores.{control, MayControl}

-- A run has ended, failed or is asked for again, so that a stop may be asked for again.
abbrev pub allows_stop : {F : Frames} → Happening F → Bool
allows_stop (message_comes (session_state_changed msg)) = not msg.report_is_running
allows_stop (message_comes (session_event (script_compilation_exception e))) = true
allows_stop (message_comes (new_report msg)) = not msg.initialize.session_state.report_is_running
allows_stop (user_reruns always) = true
allows_stop h = false

abbrev pub how_many : {T : Type 0} → (T → Bool) → List T → ℕ
how_many p [] = 0
how_many p (x ∷ xs) = (if p x then 1 else 0) + how_many p xs

-- One more request may follow, unless one is pending.
abbrev pub allowed : ReportRunState → ℕ
allowed stop_requested = 0
allowed s = 1

abbrev pub total : ReportRunState × ℕ → ℕ
total k = k.1 + allowed k.0

pub next_run_state-allowed :
    (b : Bool) (s : ReportRunState)
    → allowed (next_run_state b s) ≤ allowed s + (if not b then 1 else 0)
unfolding next_run_state
next_run_state-allowed true not_running = omega arith
next_run_state-allowed true running = omega arith
next_run_state-allowed true rerun_requested = omega arith
next_run_state-allowed true stop_requested = omega arith
next_run_state-allowed true compilation_error = omega arith
next_run_state-allowed false not_running = omega arith
next_run_state-allowed false running = omega arith
next_run_state-allowed false rerun_requested = omega arith
next_run_state-allowed false stop_requested = omega arith
next_run_state-allowed false compilation_error = omega arith

allowed-le_one : (s : ReportRunState) → allowed s ≤ 1
allowed-le_one not_running = omega arith
allowed-le_one running = omega arith
allowed-le_one rerun_requested = omega arith
allowed-le_one stop_requested = omega arith
allowed-le_one compilation_error = omega arith

may_stop-allowed : (s : ReportRunState) → may_stop s ≡ true → allowed s ≡ 1
unfolding may_stop
may_stop-allowed not_running e = refl
may_stop-allowed running e = refl
may_stop-allowed rerun_requested e = refl
may_stop-allowed stop_requested e = cc e
may_stop-allowed compilation_error e = refl

module _ {F : Frames} where
  pub stops-le :
      (c : Core F)
      → total (
          control (
            if stops_now c
            then record c { run_state = stop_requested; stops = c.stops + 1 }
            else c))
        ≤ total (control c)
  stops-le c = go (stops_now c) (λ e. may_stop-allowed c.run_state (ground (arith, e)))
    where
      go :
          (b : Bool)
          → (b ≡ true → allowed c.run_state ≡ 1)
          → total (
              control
                (if b then record c { run_state = stop_requested; stops = c.stops + 1 } else c))
            ≤ total (control c)
      go true h = omega (arith, h refl)
      go false h = omega arith

  pub reruns-le :
      (c : Core F)
      → total (control (if reruns c then record c { run_state = rerun_requested } else c))
        ≤ total (control c) + 1
  reruns-le c = go (reruns c)
    where
      go :
          (b : Bool)
          → total (control (if b then record c { run_state = rerun_requested } else c))
            ≤ total (control c) + 1
      go true = omega arith
      go false = omega arith

  pub MayControl-le :
      (msg : NewReport) (c : Core F) (k : ReportRunState × ℕ)
      → MayControl msg c k
      → total k
        ≤ total (control c) + (if not msg.initialize.session_state.report_is_running then 1 else 0)
  MayControl-le msg c k (inl e) = omega (arith, ap total e)
  MayControl-le msg c k (inr e) = omega (
    arith,
    ap total e,
    next_run_state-allowed msg.initialize.session_state.report_is_running c.run_state,
  )

  module _ (widget_id : Element F.Payload → Option String) where
    pub delta_taken-control :
        (shown : Bool) (o : Result Error (Root F)) (c : Core F)
        → control (delta_taken F widget_id shown o c) ≡ control c
    delta_taken-control shown (ok r) c = go c.timer_running
      where
        go :
            (b : Bool)
            → control (
                if b then record c { buffer = r } else record c {
                  buffer = r;
                  timer_running = true;
                  timeouts = c.timeouts ++ (show_pending shown ∷ []);
                })
              ≡ control c
        go true = refl
        go false = refl
    delta_taken-control shown (err e) c = refl

    pub timeout_taken-control :
        (ts : List Timeout) (c : Core F) → control (timeout_taken F widget_id ts c) ≡ control c
    timeout_taken-control [] c = refl
    timeout_taken-control (call_finished_handlers ∷ ts) c = refl
    timeout_taken-control (show_pending shown ∷ ts) c = refl

    pub finish_taken-control :
        (o : Result Error (Root F)) (c : Core F)
        → control (finish_taken F widget_id o c) ≡ control c
    finish_taken-control (ok r) c = refl
    finish_taken-control (err e) c = refl
