-- ===== src/Connection/Dispatch.antt =====
-- `handleMessage` of `WebsocketConnection` (frontend/src/lib/WebsocketConnection.tsx): messages are
-- numbered when they come, decoded in any order, and given to the owner in the order of their
-- numbers. The handler is in two parts, before and after it awaits the decoded message. The index of
-- the last dispatched message is one less than `dispatched_messages`; what was dispatched is
-- recorded, the latest last.
use streamlit.Prelude.{
  List, Option, [], if◌then◌else◌, length, none, some, suc, zero, ℕ, ◌++◌, ◌+◌, ◌==◌, ◌∷◌,
}

pub record Inbox (M : Type 0) : Type 0 where
  pub next_message_index : ℕ
  -- `lastDispatchedMessageIndex + 1`
  pub dispatched_messages : ℕ
  pub message_queue : List (ℕ × M)
  pub dispatched : List M

module _ {M : Type 0} where
  unfoldable pub new_inbox : Inbox M
  new_inbox = record {
    next_message_index = 0;
    dispatched_messages = 0;
    message_queue = [];
    dispatched = [];
  }

  -- `messageQueue[index]`, and whether it is there.
  unfoldable pub queued : ℕ → List (ℕ × M) → Option M
  queued i [] = none
  queued i ((j, msg) ∷ q) = if j == i then some msg else queued i q

  -- `messageQueue[index] = msg`
  unfoldable pub enqueue : ℕ → M → List (ℕ × M) → List (ℕ × M)
  enqueue i msg [] = (i, msg) ∷ []
  enqueue i msg ((j, m) ∷ q) = if j == i then (j, msg) ∷ q else (j, m) ∷ enqueue i msg q

  -- `delete messageQueue[index]`
  unfoldable pub dequeue : ℕ → List (ℕ × M) → List (ℕ × M)
  dequeue i [] = []
  dequeue i ((j, m) ∷ q) = let rest = dequeue i q in if j == i then rest else (j, m) ∷ rest

  -- One round of the loop, with the message that is next.
  unfoldable pub dispatch : M → Inbox M → Inbox M
  dispatch msg b = record {
    next_message_index = b.next_message_index;
    dispatched_messages = b.dispatched_messages + 1;
    message_queue = dequeue b.dispatched_messages b.message_queue;
    dispatched = b.dispatched ++ (msg ∷ []);
  }

  -- The loop, on fuel; each round takes a message out of the queue.
  unfoldable pub dispatch_pending : ℕ → Inbox M → Inbox M
  dispatch_pending zero b = b
  dispatch_pending (suc fuel) b = elim (queued b.dispatched_messages b.message_queue) [
    | none ↦ b
    | some msg ↦ dispatch_pending fuel (dispatch msg b)
  ]

  -- A message comes and gets its index.
  unfoldable pub receive : Inbox M → ℕ × Inbox M
  receive b = (b.next_message_index, record b { next_message_index = b.next_message_index + 1 })

  -- The message of an index is decoded.
  unfoldable pub message_decoded : ℕ → M → Inbox M → Inbox M
  message_decoded i msg b =
      let q = enqueue i msg b.message_queue in
      dispatch_pending (length q) (record b { message_queue = q })
