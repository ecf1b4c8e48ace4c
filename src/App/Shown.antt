-- ===== src/App/Shown.antt =====
-- A delta of a running report is shown when its timeout comes.
use streamlit.Prelude.{
  Bool, List, Option, String, [], ap, false, if◌then◌else◌, length, none, refl, some, subst, suc,
  sym, true, zero, ℕ, ◌++◌, ◌||◌, ◌∙◌, ◌∷◌, ◌≡◌,
}
use streamlit.Prelude.Result.{ok}
use streamlit.Connection.Manager.{is_static_connection}
use streamlit.Report.Proto.{Delta, Element, ForwardMsgMetadata}
use streamlit.Report.Frames.{Frames}
use streamlit.Report.Root.{Root, apply_delta}
use streamlit.App.{App, Timeout, call_finished_handlers, running, same_run_state, show_pending}
use streamlit.App.Elements.{handle_delta_msg, may_show, next_timeout}
use streamlit.App.Messages.{delta, handle_message, or_show_error}
use streamlit.App.Happenings.{Happening, happen, happen_all, message_comes, timeout_comes}
use streamlit.App.Core.{Core, core}
use streamlit.App.TreeCores.{core-handle_delta_msg, core-next_timeout, delta_taken, timeout_taken}

abbrev pub timeouts_come : {F : Frames} → ℕ → List (Happening F)
timeouts_come zero = []
timeouts_come (suc n) = timeout_comes ∷ timeouts_come n

module _ (F : Frames) (widget_id : Element F.Payload → Option String)
    (hash_string : String → String) (join_entries : List (String × String) → String) where
  open F use {Payload, Rows}

  -- The tree is shown, and no timeout is left.
  abbrev IsShown : Root F → Core F → Type 0
  IsShown r c = (c.elements ≡ r) × (c.timer_running ≡ false) × (c.timeouts ≡ [])

  taken-buffer :
      (ts : List Timeout) (c : Core F) → (timeout_taken F widget_id ts c).buffer ≡ c.buffer
  taken-buffer [] c = refl
  taken-buffer (call_finished_handlers ∷ ts) c = refl
  taken-buffer (show_pending shown ∷ ts) c = refl

  taken-timeouts :
      (t : Timeout) (ts : List Timeout) (c : Core F)
      → (timeout_taken F widget_id (t ∷ ts) c).timeouts ≡ ts
  taken-timeouts call_finished_handlers ts c = refl
  taken-timeouts (show_pending shown) ts c = refl

  drained :
      (ts : List Timeout) (a : App F)
      → a.timeouts ≡ ts ++ show_pending true ∷ []
      → IsShown a.pending_elements_buffer (
          core (
            happen_all F widget_id hash_string join_entries
              (timeouts_come (length (ts ++ show_pending true ∷ [])))
              a))
  unfolding core
  drained [] a e =
      let next = core-next_timeout F widget_id a in
      subst (IsShown a.pending_elements_buffer)
        (sym (next ∙ ap (λ ts. timeout_taken F widget_id ts (core a)) e)) (refl, refl, refl)
  drained (t ∷ ts) a e =
      let a' = next_timeout F widget_id a in
      let next =
        core-next_timeout F widget_id a ∙ ap (λ ts. timeout_taken F widget_id ts (core a)) e in
      let left =
        ap (λ (c : Core F). c.timeouts) next
        ∙ taken-timeouts t (ts ++ show_pending true ∷ []) (core a) in
      let same =
        ap (λ (c : Core F). c.buffer) next
        ∙ taken-buffer (t ∷ ts ++ show_pending true ∷ []) (core a) in
      subst
        (λ (r : Root F). IsShown r (
          core (
            happen_all F widget_id hash_string join_entries
              (timeouts_come (length (ts ++ show_pending true ∷ []))) a')))
        same (drained ts a' left)

  or_true : (b : Bool) → (b || true) ≡ true
  or_true true = refl
  or_true false = refl

  may_show-running : (a : App F) → a.report_run_state ≡ running → may_show F widget_id a ≡ true
  unfolding may_show same_run_state
  may_show-running a runs =
      let static_connection = elim a.connection_manager as (λ _. Bool) [
        | none ↦ false
        | some m ↦ is_static_connection m
      ] in
      ap (λ s. static_connection || same_run_state s running) runs ∙ or_true static_connection

  -- The core after the delta.
  after_delta :
      (c : Core F) (r : Root F) (shown : Bool)
      → shown ≡ true
      → c.timer_running ≡ false
      → delta_taken F widget_id shown (ok r) c ≡ record c {
        buffer = r;
        timer_running = true;
        timeouts = c.timeouts ++ (show_pending true ∷ []);
      }
  after_delta c r shown e idle =
      ap (λ shown. delta_taken F widget_id shown (ok r) c) e
      ∙ ap
          (λ b. if b then record c { buffer = r } else record c {
            buffer = r;
            timer_running = true;
            timeouts = c.timeouts ++ (show_pending true ∷ []);
          })
          idle

  -- While a report runs and no timeout for its elements is set, a delta that is not refused sets
  -- one. When as many timeouts have come as there are then, the changed tree is shown, and no timeout
  -- is left.
  pub delta-IsShown :
      (d : Delta Payload Rows) (metadata : ForwardMsgMetadata) (a : App F) {r : Root F}
      → a.report_run_state ≡ running
      → a.pending_elements_timer_running ≡ false
      → (apply_delta F a.report_id d metadata a.pending_elements_buffer a.metrics).0 ≡ ok r
      → let a₁ = happen F widget_id hash_string join_entries (message_comes (delta d metadata)) a in
        let a' =
          happen_all F widget_id hash_string join_entries (timeouts_come (length a₁.timeouts)) a₁ in
        (a'.elements ≡ r) × (a'.pending_elements_timer_running ≡ false) × (a'.timeouts ≡ [])
  unfolding core handle_message
  delta-IsShown d metadata a {r} runs idle taken =
      let a₁ = or_show_error (handle_delta_msg F widget_id d metadata a) in
      let now = core-handle_delta_msg F widget_id d metadata a in
      let changed =
        now
        ∙ ap (λ o. delta_taken F widget_id (may_show F widget_id a) o (core a)) taken
        ∙ after_delta (core a) r (may_show F widget_id a) (may_show-running a runs) idle in
      let waiting = ap (λ (c : Core F). c.timeouts) changed in
      subst
        (λ ts.
          IsShown r
            (core (happen_all F widget_id hash_string join_entries (timeouts_come (length ts)) a₁)))
        (sym waiting)
        (subst
          (λ (r : Root F). IsShown r (
            core (
              happen_all F widget_id hash_string join_entries
                (timeouts_come (length (a.timeouts ++ show_pending true ∷ []))) a₁)))
          (ap (λ (c : Core F). c.buffer) changed) (drained a.timeouts a₁ waiting))
