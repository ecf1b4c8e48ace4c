-- ===== src/Metrics/Queue.antt =====
-- What becomes of the events that are enqueued.
use mathlib.Core.List.{append-nil, append_assoc}
use streamlit.Prelude.{
  Bool, Bool-cases, List, Option, String, [], ap, arith, eq_iff, eq_refl, false, if◌then◌else◌, inl,
  inr, is_some, map, none, not, refl, some, str_eq, sym, ℕ, ◌&&◌, ◌++◌, ◌+◌, ◌||◌, ◌∙◌, ◌∷◌, ◌≡◌,
}
use streamlit.JsMap
use streamlit.JsMap.{JsMap}
use streamlit.JsMap.Laws.{get-set}
use streamlit.SessionInfo.{SessionInfo}
use streamlit.Metrics.{
  Event, MetricsManager, Tracked, enqueue, get_host_tracking_data, identify, identify_and_send,
  increment, initialize, send, send_all, send_pending_events, with_data,
}

map-append : {A C : Type 0} (f : A → C) (xs ys : List A) → map f (xs ++ ys) ≡ map f xs ++ map f ys
map-append f [] ys = refl
map-append f (x ∷ xs) ys = ap (λ zs. f x ∷ zs) (map-append f xs ys)

module _ {D : Type 0} where
  -- The events that were sent, and those that wait.
  abbrev pub events_of : List (Tracked D) → List (Event D)
  events_of [] = []
  events_of (t ∷ ts) = t.event ∷ events_of ts

  abbrev pub history : MetricsManager D → List (Event D)
  history m = events_of m.tracked ++ m.pending_events

  events_of-append :
      (ts us : List (Tracked D)) → events_of (ts ++ us) ≡ events_of ts ++ events_of us
  events_of-append [] us = refl
  events_of-append (t ∷ ts) us = ap (λ es. t.event ∷ es) (events_of-append ts us)

  send_all-sends :
      (s : SessionInfo) (es : List (Event D)) (m : MetricsManager D)
      → send_all false s es m ≡ record m { tracked = m.tracked ++ map (with_data s m) es }
  unfolding send_all send with_data get_host_tracking_data
  send_all-sends s [] m = ap (λ ts. record m { tracked = ts }) (sym (append-nil m.tracked))
  send_all-sends s (e ∷ es) m =
      send_all-sends s es (send false s e m)
      ∙ ap (λ ts. record m { tracked = ts })
          (append_assoc m.tracked (with_data s m e ∷ []) (map (with_data s m) es))

  events_of-with_data :
      (s : SessionInfo) (m : MetricsManager D) (es : List (Event D))
      → events_of (map (with_data s m) es) ≡ es
  unfolding with_data
  events_of-with_data s m [] = refl
  events_of-with_data s m (e ∷ es) = ap (λ es. e ∷ es) (events_of-with_data s m es)

  -- Outside development, an event that is enqueued waits behind all the others as long as there is
  -- no session or the metrics are not initialised; later it is dropped where metrics are off, and
  -- else all events that wait are sent before it, each with the host, the installation, the
  -- version and the report hash of that moment.
  pub enqueue_cases :
      (s : SessionInfo) (e : Event D) (m : MetricsManager D)
      → (enqueue false none e m ≡ record m { pending_events = m.pending_events ++ e ∷ [] })
        × (enqueue false (some s) e m ≡ (
            if not m.initialized
            then record m { pending_events = m.pending_events ++ e ∷ [] }
            else if not m.actually_send_metrics
            then m
            else record m {
              pending_events = [];
              tracked = m.tracked ++ map (with_data s m) (m.pending_events ++ e ∷ []);
            }))
  unfolding enqueue send_pending_events send with_data get_host_tracking_data
  enqueue_cases s e m = (
    refl,
    ap
        (λ sent.
          if not m.initialized
          then record m { pending_events = m.pending_events ++ e ∷ [] }
          else if not m.actually_send_metrics
          then m
          else sent)
        all_sent,
  )
    where
      all_sent : send false s e (send_pending_events false s m) ≡ record m {
        pending_events = [];
        tracked = m.tracked ++ map (with_data s m) (m.pending_events ++ e ∷ []);
      }
      all_sent =
          ap (λ (m' : MetricsManager D). send false s e (record m' { pending_events = [] }))
            (send_all-sends s m.pending_events m)
          ∙ ap (λ ts. record m { pending_events = []; tracked = ts })
              (append_assoc m.tracked (map (with_data s m) m.pending_events) (with_data s m e ∷ [])
                ∙ ap (λ ts. m.tracked ++ ts)
                    (sym (map-append (with_data s m) m.pending_events (e ∷ []))))

  history-sent :
      (s : SessionInfo) (es : List (Event D)) (m : MetricsManager D)
      → events_of (m.tracked ++ map (with_data s m) es) ≡ events_of m.tracked ++ es
  history-sent s es m =
      events_of-append m.tracked (map (with_data s m) es)
      ∙ ap (λ es. events_of m.tracked ++ es) (events_of-with_data s m es)

  history-send_pending_events :
      (s : SessionInfo) (m : MetricsManager D) → history (send_pending_events false s m) ≡ history m
  unfolding send_pending_events
  history-send_pending_events s m =
      append-nil (events_of (send_all false s m.pending_events m).tracked)
      ∙ ap (λ (m' : MetricsManager D). events_of m'.tracked) (send_all-sends s m.pending_events m)
      ∙ history-sent s m.pending_events m

  -- An enqueued event comes last in the history, which loses and repeats nothing, unless metrics
  -- are off: then a session that is set drops it.
  pub history-enqueue :
      (session : Option SessionInfo) (e : Event D) (m : MetricsManager D)
      → history (enqueue false session e m) ≡ (
          if m.initialized && is_some session && not m.actually_send_metrics
          then history m
          else history m ++ e ∷ [])
  unfolding enqueue
  history-enqueue none e m =
      ground (arith, append_assoc (events_of m.tracked) m.pending_events (e ∷ []))
  history-enqueue (some s) e m = ground (
    arith,
    ap history (enqueue_cases s e m).1,
    history-sent s (m.pending_events ++ e ∷ []) m,
    append_assoc (events_of m.tracked) m.pending_events (e ∷ []),
    append-nil (events_of (m.tracked ++ map (with_data s m) (m.pending_events ++ e ∷ []))),
  )

  -- Initialising sends the events that wait, in their order, if metrics are on or the report is a
  -- shared one, and it loses none in either case.
  pub history-initialize :
      (is_shared_report gather_usage_stats : Bool) (s : SessionInfo) (m : MetricsManager D)
      → let m' = (initialize false is_shared_report (some s) gather_usage_stats m).1 in
        (history m' ≡ history m)
        × (m'.pending_events
            ≡ (if gather_usage_stats || is_shared_report then [] else m.pending_events))
  unfolding initialize identify_and_send identify send_pending_events
  history-initialize is_shared_report gather_usage_stats s m =
      elim (Bool-cases (gather_usage_stats || is_shared_report)) [
        | inl sends ↦ rw sends (history-send_pending_events s _, refl)
        | inr waits ↦ rw waits (refl, refl)
      ]

-- How often a key was counted.
abbrev pub counted : String → JsMap ℕ → ℕ
counted k counter = elim (JsMap.get k counter) [ none ↦ 0 | some n ↦ n ]

-- A counter that is increased at a key counts one more there, and the same elsewhere.
pub counted-increment :
    (j k : String) (counter : JsMap ℕ)
    → counted j (increment k counter)
      ≡ (if str_eq k j then counted j counter + 1 else counted j counter)
unfolding increment
counted-increment j k counter = elim (Bool-cases (str_eq k j)) [
  | inl same ↦ rw ((eq_iff k j).0 same) (
      ground (arith, get-set j j 1 counter, get-set j j (counted j counter + 1) counter, eq_refl j))
  | inr other ↦ ground (arith, get-set j k 1 counter, get-set j k (counted k counter + 1) counter)
]
