-- ===== src/Widgets/Counts.antt =====
-- The submit button counts, and what `removeInactive` keeps.
use streamlit.Prelude.{
  Bool, Bool-cases, Option, String, ap, arith, eq_iff, false, if◌then◌else◌, inl, inr, none, refl,
  some, str_eq, true, ℕ, ◌+◌, ◌-◌, ◌<◌, ◌≡◌,
}
use streamlit.Prelude.Result.{err, ok}
use streamlit.Prelude.Int.{negsuc, pos, sub_ℕ}
use streamlit.JsMap
use streamlit.JsMap.{JsMap, JsSet, has}
use streamlit.JsMap.Laws.{get-retain, get-set}
use streamlit.Widgets.Values.{WidgetState, bad_submit_button_count}
use streamlit.Widgets.StateDict
use streamlit.Widgets.Manager
use streamlit.Widgets.Manager.{
  FormState, WidgetStateManager, emit, get_submit_button_count, remove_inactive_in_forms,
  update_forms_data,
}
use streamlit.Widgets.Forms.{form_of, form_or_new}
use streamlit.Widgets.Buttons.{
  decrement_submit_button_count, increment_submit_button_count, set_submit_button_count,
  with_submit_button_count,
}
use streamlit.Widgets.Pending.{get-remove_inactive_in_forms}

abbrev pub count : String → WidgetStateManager → ℕ
count f m = get_submit_button_count m.forms_data f

set_count-ok :
    (f : String) (n : ℕ) (m : WidgetStateManager)
    → (m' : WidgetStateManager) × (set_submit_button_count f (pos n) m ≡ ok m')
      × ((g : String) → count g m' ≡ (if str_eq f g then n else count g m))
unfolding set_submit_button_count update_forms_data emit with_submit_button_count
    get_submit_button_count
set_count-ok f n m = (
  update_forms_data (some (with_submit_button_count f n m.forms_data)) m,
  refl,
  λ g. ground (arith, get-set g f n m.forms_data.submit_button_count),
)

-- Counting a button up adds one to its form's count and leaves the counts of the other forms alone.
-- Counting down takes one away, and at zero it throws, with the manager unchanged.
pub submit_button_counts :
    (f : String) (m : WidgetStateManager)
    → ((m' : WidgetStateManager) × (increment_submit_button_count f m ≡ ok m')
        × ((g : String) → count g m' ≡ (if str_eq f g then count g m + 1 else count g m)))
      × (count f m ≡ 0
          → decrement_submit_button_count f m ≡ err (bad_submit_button_count (negsuc 0)))
      × (0 < count f m
          → (m' : WidgetStateManager) × (decrement_submit_button_count f m ≡ ok m')
            × ((g : String) → count g m' ≡ (if str_eq f g then count g m - 1 else count g m)))
unfolding increment_submit_button_count decrement_submit_button_count
submit_button_counts f m = (
  (let (m', done, counts) = set_count-ok f (count f m + 1) m in
      (m', done, λ g. rw (counts g) (same_form g (λ n. n + 1)))),
  (λ zero_count. rw zero_count (unfold set_submit_button_count in refl)),
  (λ positive.
      let (m', done, counts) = set_count-ok f (count f m - 1) m in
      (m', rw (one_less positive) done, λ g. rw (counts g) (same_form g (λ n. n - 1)))),
)
  where
    same_form :
        (g : String) (step : ℕ → ℕ)
        → (if str_eq f g then step (count f m) else count g m)
          ≡ (if str_eq f g then step (count g m) else count g m)
    same_form g step = elim (Bool-cases (str_eq f g)) [
      | inl same ↦ rw same (ap (λ k. step (count k m)) ((eq_iff f g).0 same))
      | inr different ↦ rw different
    ]

    one_less : 0 < count f m → sub_ℕ (count f m) 1 ≡ pos (count f m - 1)
    one_less positive = ground arith

same_none : (b : Bool) → ◌≡◌ {A = Option WidgetState} none (if b then none else none)
same_none true = refl
same_none false = refl

-- `removeInactive` keeps exactly the values of the active widgets, outside forms and in every form.
pub get-remove_inactive :
    (ids : JsSet) (m : WidgetStateManager) (k : String)
    → let m' = Manager.remove_inactive ids m in
      (JsMap.get k m'.widget_states ≡ (if has k ids then JsMap.get k m.widget_states else none))
      × ((f : String)
          → JsMap.get k (form_of f m').widget_states
            ≡ (if has k ids then JsMap.get k (form_of f m).widget_states else none))
unfolding Manager.remove_inactive StateDict.remove_inactive
get-remove_inactive ids m k =
    (get-retain k (λ j. has j ids) m.widget_states, λ f. in_form f (JsMap.get f m.forms) refl)
  where
    in_form :
        (f : String) (o : Option FormState)
        → JsMap.get f m.forms ≡ o
        → JsMap.get k
            (form_or_new (JsMap.get f (remove_inactive_in_forms ids m.forms))).widget_states
          ≡ (if has k ids then JsMap.get k (form_or_new o).widget_states else none)
    in_form f none e =
        rw (get-remove_inactive_in_forms f ids m.forms, e)
          (unfold JsMap.get in (same_none (has k ids)))
    in_form f (some form) e =
        rw (get-remove_inactive_in_forms f ids m.forms, e)
          (get-retain k (λ j. has j ids) form.widget_states)
