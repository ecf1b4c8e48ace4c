-- ===== src/Connection/InOrder.antt =====
-- Messages are dispatched in the order in which they came, however they are decoded.
use streamlit.Prelude.{
  Bool-cases, List, Option, [], ap, arith, get_elem?, get_elem?-append_lt, if◌then◌else◌, inl, inr,
  length, length-append, ltb, none, refl, some, suc, sym, zero, ℕ, ◌++◌, ◌+◌, ◌<◌, ◌==◌, ◌∙◌, ◌∷◌,
  ◌≡◌, ◌≤◌,
}
use streamlit.Connection.Dispatch.{
  Inbox, dequeue, dispatch, dispatch_pending, enqueue, message_decoded, new_inbox, queued, receive,
}

-- The inboxes that can be reached, with the messages that were decoded, by their indices. Each
-- message is decoded once, after it came.
pub data Received (M : Type 0) : (ℕ → Option M) → Inbox M → Type 0 where
  nothing_yet : Received M (λ i. none) new_inbox
  comes : {D : ℕ → Option M} {b : Inbox M} → Received M D b → Received M D (receive b).1
  decodes :
      {D : ℕ → Option M} {b : Inbox M} (i : ℕ) (msg : M)
      → Received M D b
      → i < b.next_message_index
      → D i ≡ none
      → Received M (λ j. if i == j then some msg else D j) (message_decoded i msg b)

module _ {M : Type 0} where
  queued-enqueue :
      (i j : ℕ) (msg : M) (q : List (ℕ × M))
      → queued j (enqueue i msg q) ≡ (if i == j then some msg else queued j q)
  unfolding queued enqueue
  queued-enqueue i j msg [] = refl
  queued-enqueue i j msg ((k, m) ∷ q) = ground (arith, queued-enqueue i j msg q)

  queued-dequeue :
      (i j : ℕ) (q : List (ℕ × M)) → queued j (dequeue i q) ≡ (if i == j then none else queued j q)
  unfolding queued dequeue
  queued-dequeue i j [] = ground arith
  queued-dequeue i j ((k, m) ∷ q) = ground (arith, queued-dequeue i j q)

  length-dequeue_le : (i : ℕ) (q : List (ℕ × M)) → length (dequeue i q) ≤ length q
  unfolding dequeue
  length-dequeue_le i [] = omega arith
  length-dequeue_le i ((k, m) ∷ q) = ground (arith, length-dequeue_le i q)

  length-dequeue_lt :
      (i : ℕ) (q : List (ℕ × M)) (msg : M) → queued i q ≡ some msg → length (dequeue i q) < length q
  unfolding queued dequeue
  length-dequeue_lt i [] msg e = cc e
  length-dequeue_lt i ((k, m) ∷ q) msg e =
      ground (arith, length-dequeue_le i q, length-dequeue_lt i q msg, e)

  queued-nil : (i : ℕ) (q : List (ℕ × M)) → length q ≤ 0 → queued i q ≡ none
  unfolding queued
  queued-nil i [] h = refl
  queued-nil i (e ∷ q) h = absurd (omega (arith, h))

  get_elem?-append_length : (xs : List M) (x : M) → get_elem? (xs ++ (x ∷ [])) (length xs) ≡ some x
  get_elem?-append_length [] x = refl
  get_elem?-append_length (y ∷ xs) x = get_elem?-append_length xs x

  -- A decoded message was dispatched in its place, or is in the queue.
  abbrev IsPlaced : (ℕ → Option M) → Inbox M → Type 0
  IsPlaced D b =
      ((i : ℕ) → i < b.dispatched_messages → D i ≡ get_elem? b.dispatched i)
      × ((i : ℕ) → b.dispatched_messages ≤ i → D i ≡ queued i b.message_queue)
      × (length b.dispatched ≡ b.dispatched_messages)

  placed_before :
      (D : ℕ → Option M) (msg : M) (b : Inbox M) (i : ℕ)
      → queued b.dispatched_messages b.message_queue ≡ some msg
      → IsPlaced D b
      → i < b.dispatched_messages + 1
      → D i ≡ get_elem? (b.dispatched ++ (msg ∷ [])) i
  placed_before D msg b i next (before, after, len) lt =
      elim (Bool-cases (ltb i b.dispatched_messages)) [
        | inl old ↦
            let lt' : i < b.dispatched_messages = ground (arith, old) in
            before i lt'
            ∙ sym (get_elem?-append_lt b.dispatched (msg ∷ []) i (omega (arith, len, lt')))
        | inr new ↦
            let same : i ≡ b.dispatched_messages = ground (arith, new, lt) in
            after i (omega (arith, same))
            ∙ ap (λ k. queued k b.message_queue) same
            ∙ next
            ∙ sym (
                ap (λ k. get_elem? (b.dispatched ++ (msg ∷ [])) k) (same ∙ sym len)
                ∙ get_elem?-append_length b.dispatched msg)
      ]

  dispatch-IsPlaced :
      (D : ℕ → Option M) (msg : M) (b : Inbox M)
      → queued b.dispatched_messages b.message_queue ≡ some msg
      → IsPlaced D b
      → IsPlaced D (dispatch msg b)
  unfolding dispatch
  dispatch-IsPlaced D msg b next placed = (
    (λ i lt. placed_before D msg b i next placed lt),
    (λ i le.
        placed.1 i (omega (arith, le))
        ∙ ground (arith, le, queued-dequeue b.dispatched_messages i b.message_queue)),
    length-append b.dispatched (msg ∷ []) ∙ omega (arith, placed.2),
  )

  -- The loop ends with the next message not in the queue, if it has as much fuel as the queue has
  -- messages.
  abbrev IsDrained : Inbox M → Type 0
  IsDrained b = queued b.dispatched_messages b.message_queue ≡ none

  dispatch_pending-IsDrained :
      (D : ℕ → Option M) (fuel : ℕ) (b : Inbox M)
      → length b.message_queue ≤ fuel
      → IsPlaced D b
      → IsPlaced D (dispatch_pending fuel b) × IsDrained (dispatch_pending fuel b)
  unfolding dispatch_pending
  dispatch_pending-IsDrained D zero b enough placed =
      (placed, queued-nil b.dispatched_messages b.message_queue enough)
  dispatch_pending-IsDrained D (suc fuel) b enough placed =
      go
        (λ msg e.
          dispatch_pending-IsDrained D fuel (dispatch msg b)
            (unfold dispatch in
              omega (arith, enough, length-dequeue_lt b.dispatched_messages b.message_queue msg e))
            (dispatch-IsPlaced D msg b e placed))
        (queued b.dispatched_messages b.message_queue) refl
    where
      go :
          ((msg : M)
            → queued b.dispatched_messages b.message_queue ≡ some msg
            → IsPlaced D (dispatch_pending fuel (dispatch msg b))
              × IsDrained (dispatch_pending fuel (dispatch msg b)))
          → (o : Option M) → queued b.dispatched_messages b.message_queue ≡ o
          → let b' = elim o as (λ _. Inbox M) [
            | none ↦ b
            | some msg ↦ dispatch_pending fuel (dispatch msg b)
          ] in
            IsPlaced D b' × IsDrained b'
      go rest none e = (placed, e)
      go rest (some msg) e = rest msg e

  get_elem?-lt_length : (xs : List M) (i : ℕ) → i < length xs → ¬ (get_elem? xs i ≡ none)
  get_elem?-lt_length [] i lt e = absurd (omega (arith, lt))
  get_elem?-lt_length (x ∷ xs) zero lt e = cc e
  get_elem?-lt_length (x ∷ xs) (suc i) lt e = get_elem?-lt_length xs i (omega (arith, lt)) e

  -- A message that was not decoded before has an index that was not dispatched.
  not_dispatched :
      (D : ℕ → Option M) (b : Inbox M) (i : ℕ)
      → IsPlaced D b
      → D i ≡ none
      → b.dispatched_messages ≤ i
  not_dispatched D b i (before, after, len) absent =
      elim (Bool-cases (ltb i b.dispatched_messages)) [
        | inl old ↦
            let lt : i < b.dispatched_messages = ground (arith, old) in
            absurd (
              get_elem?-lt_length b.dispatched i (omega (arith, len, lt))
                (sym (before i lt) ∙ absent))
        | inr new ↦ ground (arith, new)
      ]

  enqueue-IsPlaced :
      (D : ℕ → Option M) (i : ℕ) (msg : M) (b : Inbox M)
      → IsPlaced D b
      → D i ≡ none
      → IsPlaced
          (λ j. if i == j then some msg else D j)
          (record b { message_queue = enqueue i msg b.message_queue })
  enqueue-IsPlaced D i msg b placed absent =
      let le = not_dispatched D b i placed absent in
      (
        (λ j lt. ground (arith, le, lt, placed.0 j lt)),
        (λ j ge. ground (arith, placed.1 j ge, queued-enqueue i j msg b.message_queue)),
        placed.2,
      )

  Received-IsPlaced : {D : ℕ → Option M} {b : Inbox M} → Received M D b → IsPlaced D b × IsDrained b
  unfolding new_inbox receive message_decoded queued
  Received-IsPlaced nothing_yet =
      (((λ i lt. absurd (omega (arith, lt))), (λ i le. refl), refl), refl)
  Received-IsPlaced (comes r) = Received-IsPlaced r
  Received-IsPlaced (decodes {D} {b} i msg r come absent) =
      dispatch_pending-IsDrained (λ j. if i == j then some msg else D j)
        (length (enqueue i msg b.message_queue))
        (record b { message_queue = enqueue i msg b.message_queue }) (omega arith)
        (enqueue-IsPlaced D i msg b (Received-IsPlaced r).0 absent)

  get_elem?-ge_length : (xs : List M) (i : ℕ) → length xs ≤ i → get_elem? xs i ≡ none
  get_elem?-ge_length [] i ge = refl
  get_elem?-ge_length (x ∷ xs) zero ge = absurd (omega (arith, ge))
  get_elem?-ge_length (x ∷ xs) (suc i) ge = get_elem?-ge_length xs i (omega (arith, ge))

  -- However messages come and are decoded, those dispatched are the decoded ones in the order in
  -- which they came, up to the first one that is not decoded yet.
  pub Received-in_order :
      {D : ℕ → Option M} {b : Inbox M}
      → Received M D b
      → (i : ℕ)
      → (get_elem? b.dispatched i ≡ (if ltb i (length b.dispatched) then D i else none))
        × (D (length b.dispatched) ≡ none)
  Received-in_order {D} {b} r i =
      let ((before, after, len), drained) = Received-IsPlaced r in
      (
        elim (Bool-cases (ltb i (length b.dispatched))) [
          | inl lt ↦
              let lt' : i < b.dispatched_messages = ground (arith, lt, len) in
              rw lt (sym (before i lt'))
          | inr ge ↦ rw ge (get_elem?-ge_length b.dispatched i (ground (arith, ge)))
        ],
        after (length b.dispatched) (omega (arith, len))
            ∙ ap (λ k. queued k b.message_queue) len
            ∙ drained,
      )
