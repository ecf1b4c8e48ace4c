-- ===== src/Connection/Rounds.antt =====
-- The health ping goes through the URIs in rounds.
use native.Mathlib.Nat.{add-mul}
use streamlit.Prelude.{
  Bool, Bool-cases, List, [], arith, false, inl, inr, leb, length, length-append, refl, subst, ℕ,
  ◌*◌, ◌+◌, ◌<◌, ◌==◌, ◌∙◌, ◌∷◌, ◌≡◌, ◌≤◌,
}
use streamlit.Connection.Ping.{
  AxiosError, HealthPing, attempt_failed, attempts, connect, retry, retry_immediately,
  retry_timeout, start_ping,
}

-- After some failures: the URI's index is one of the list's, the round is counted, and each failure
-- was reported.
abbrev pub IsRound : ℕ → ℕ → HealthPing → Type 0
IsRound uri_count failures h =
    (h.uri_number < uri_count)
    × (failures + uri_count ≡ h.total_tries * uri_count + h.uri_number)
    × (length h.retries ≡ failures)

start-IsRound : (uri_count : ℕ) → 0 < uri_count → IsRound uri_count 0 start_ping
unfolding start_ping connect
start-IsRound uri_count some_uri = (some_uri, omega arith, refl)

succ_not_zero : (n : ℕ) → n + 1 == 0 ≡ false
succ_not_zero n = ground arith

attempt_failed-IsRound :
    (is_local : ℕ → Bool) (uri_count failures : ℕ) (e : AxiosError) (h : HealthPing)
    → 0 < uri_count
    → IsRound uri_count failures h
    → IsRound uri_count (failures + 1) (attempt_failed is_local uri_count e h)
unfolding attempt_failed retry_immediately connect retry
attempt_failed-IsRound is_local uri_count failures e h some_uri (lt, sum, len) =
    elim (Bool-cases (leb uri_count (h.uri_number + 1))) [
      | inl wrap ↦ rw wrap (
        some_uri,
        ground (arith, sum, lt, wrap, add-mul h.total_tries 1 uri_count),
        length-append h.retries _ ∙ omega (arith, len),
      )
      | inr next ↦
          rw (next, succ_not_zero h.uri_number)
            (
              ground (arith, lt, next),
              omega (arith, sum),
              length-append h.retries _ ∙ omega (arith, len),
            )
    ]

attempts_from-IsRound :
    (is_local : ℕ → Bool) (uri_count failures : ℕ) (es : List AxiosError) (h : HealthPing)
    → 0 < uri_count
    → IsRound uri_count failures h
    → IsRound uri_count (length es + failures) (attempts is_local uri_count es h)
unfolding attempts
attempts_from-IsRound is_local uri_count failures [] h some_uri round =
    subst (λ k. IsRound uri_count k h) (omega arith) round
attempts_from-IsRound is_local uri_count failures (e ∷ es) h some_uri round =
    subst (λ k. IsRound uri_count k (attempts is_local uri_count (e ∷ es) h)) (omega arith)
      (attempts_from-IsRound is_local uri_count (failures + 1) es
        (attempt_failed is_local uri_count e h) some_uri
        (attempt_failed-IsRound is_local uri_count failures e h some_uri round))

-- However the attempts fail, the URIs are tried in turn and over again: after some failures the
-- index is that of a URI, together with the rounds of all URIs that were completed it counts the
-- failures, and each failure was reported once. `totalTries` is the number of the present round.
pub attempts-IsRound :
    (is_local : ℕ → Bool) (uri_count : ℕ) (es : List AxiosError)
    → 0 < uri_count
    → IsRound uri_count (length es) (attempts is_local uri_count es start_ping)
attempts-IsRound is_local uri_count es some_uri =
    subst (λ k. IsRound uri_count k (attempts is_local uri_count es start_ping)) (omega arith)
      (attempts_from-IsRound is_local uri_count 0 es start_ping some_uri
        (start-IsRound uri_count some_uri))

-- After an attempt that has taken the timeout or longer, but less than five hundred times as long,
-- the code still waits for more than half of the timeout: it takes the seconds of the attempt for
-- milliseconds.
pub retry_timeout-still_waits :
    (timeout_ms elapsed_ms : ℕ)
    → 0 < timeout_ms
    → timeout_ms ≤ elapsed_ms
    → elapsed_ms < timeout_ms * 500
    → timeout_ms * 500 < retry_timeout timeout_ms elapsed_ms
unfolding retry_timeout
retry_timeout-still_waits timeout_ms elapsed_ms some_time late soon =
    ground (arith, late, soon, some_time)
