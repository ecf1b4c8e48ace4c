-- ===== src/Cache/Age.antt =====
-- How long a message stays in the cache, and what a reference to it gives.
use streamlit.Prelude.{
  Bool-cases, Option, String, arith, eq_refl, if◌then◌else◌, inl, inr, leb, ltb, none, not, refl,
  some, suc, true, zero, ℕ, ◌+◌, ◌∙◌, ◌≡◌, ◌≤◌,
}
use streamlit.Prelude.Int.{sub_ℕ}
use streamlit.JsMap
use streamlit.JsMap.{JsMap}
use streamlit.JsMap.Distinct.{IsDistinct, get-retain_distinct, retain-IsDistinct, set-IsDistinct}
use streamlit.JsMap.Laws.{get-set}
use streamlit.Report.Proto.{ForwardMsgMetadata}
use streamlit.Cache.{
  BaseUriParts, CacheEntry, ForwardMsg, ForwardMsgCache, cache_message, exceeds, get_age,
  get_cached_message, increment_run_count, maybe_cache_message, payload, process_message_payload,
  ref_hash, request_message_payload, resolve_reference, returned, with_metadata_of,
}

-- The cache after some runs.
abbrev pub runs : {P : Type 0} → ℕ → ℕ → ForwardMsgCache P → ForwardMsgCache P
runs zero max_message_age c = c
runs (suc n) max_message_age c = runs n max_message_age (increment_run_count max_message_age c)

exceeds-sub : (a b limit : ℕ) → exceeds (sub_ℕ a b) limit ≡ ltb (limit + b) a
exceeds-sub a b limit = ground arith

-- A message with a payload, and a reference to one.
abbrev pub message : {P : Type 0} → String → P → ForwardMsgMetadata → ForwardMsg P
message hash p metadata = record { hash = hash; content = payload p; metadata = some metadata }

abbrev pub reference : {P : Type 0} → String → ForwardMsgMetadata → ForwardMsg P
reference hash metadata = record { hash = ""; content = ref_hash hash; metadata = some metadata }

module _ {P : Type 0} where
  -- The entry passes the test of the age.
  abbrev pub entry_if_kept : ℕ → ℕ → Option (CacheEntry P) → Option (CacheEntry P)
  entry_if_kept run_count max_message_age none = none
  entry_if_kept run_count max_message_age (some entry) =
      if ltb (max_message_age + entry.report_run_count) run_count then none else some entry

  entry_kept :
      (run_count max_message_age : ℕ) (o : Option (CacheEntry P))
      → (elim o [
        | none ↦ none
        | some entry ↦
            if not (exceeds (get_age run_count entry) max_message_age) then some entry else none
      ])
        ≡ entry_if_kept run_count max_message_age o
  unfolding get_age
  entry_kept run_count max_message_age none = refl
  entry_kept run_count max_message_age (some entry) =
      ground (arith, exceeds-sub run_count entry.report_run_count max_message_age)

  -- The end of a run keeps exactly the messages that were used in the last `max_message_age` runs.
  pub get-increment_run_count :
      (hash : String) (max_message_age : ℕ) (c : ForwardMsgCache P)
      → IsDistinct c.messages
      → JsMap.get hash (increment_run_count max_message_age c).messages
        ≡ entry_if_kept (c.report_run_count + 1) max_message_age (JsMap.get hash c.messages)
  unfolding increment_run_count
  get-increment_run_count hash max_message_age c one =
      get-retain_distinct hash _ c.messages one
      ∙ entry_kept (c.report_run_count + 1) max_message_age (JsMap.get hash c.messages)

  -- The count that a run leaves.
  run_count-increment :
      (max_message_age : ℕ) (c : ForwardMsgCache P)
      → (increment_run_count max_message_age c).report_run_count ≡ c.report_run_count + 1
  unfolding increment_run_count
  run_count-increment max_message_age c = refl

  increment-IsDistinct :
      (max_message_age : ℕ) (c : ForwardMsgCache P)
      → IsDistinct c.messages
      → IsDistinct (increment_run_count max_message_age c).messages
  unfolding increment_run_count
  increment-IsDistinct max_message_age c one = retain-IsDistinct _ c.messages one

  get-runs-none :
      (hash : String) (n max_message_age : ℕ) (c : ForwardMsgCache P)
      → IsDistinct c.messages
      → JsMap.get hash c.messages ≡ none
      → JsMap.get hash (runs n max_message_age c).messages ≡ none
  get-runs-none hash zero max_message_age c one e = e
  get-runs-none hash (suc n) max_message_age c one e =
      get-runs-none hash n max_message_age (increment_run_count max_message_age c)
        (increment-IsDistinct max_message_age c one)
        (get-increment_run_count hash max_message_age c one ∙ rw e refl)

  get-runs-some :
      (hash : String) (n max_message_age : ℕ) (c : ForwardMsgCache P) (entry : CacheEntry P)
      → IsDistinct c.messages
      → c.report_run_count ≤ entry.report_run_count + max_message_age
      → JsMap.get hash c.messages ≡ some entry
      → JsMap.get hash (runs n max_message_age c).messages ≡ (
          if leb (c.report_run_count + n) (entry.report_run_count + max_message_age)
          then some entry
          else none)
  unfolding increment_run_count
  get-runs-some hash zero max_message_age c entry one young e = ground (arith, e)
  get-runs-some hash (suc n) max_message_age c entry one young e =
      let next = get-increment_run_count hash max_message_age c one in
      let one' = increment-IsDistinct max_message_age c one in
      elim (Bool-cases (ltb (max_message_age + entry.report_run_count) (c.report_run_count + 1))) [
        | inl old ↦
            get-runs-none hash n max_message_age _ one' (ground (arith, next, e, old))
            ∙ ground (arith, old)
        | inr kept ↦
            get-runs-some hash n max_message_age (increment_run_count max_message_age c) entry one'
              (ground (arith, kept)) (ground (arith, next, e, kept))
            ∙ ground (arith, kept)
      ]

  runs-IsDistinct :
      (n max_message_age : ℕ) (c : ForwardMsgCache P)
      → IsDistinct c.messages
      → IsDistinct (runs n max_message_age c).messages
  runs-IsDistinct zero max_message_age c one = one
  runs-IsDistinct (suc n) max_message_age c one =
      runs-IsDistinct n max_message_age _ (increment-IsDistinct max_message_age c one)

  -- A cacheable message that was not in the cache is there after it was processed.
  process_new :
      (server : Option BaseUriParts) (hash : String) (p : P) (metadata : ForwardMsgMetadata)
      (c : ForwardMsgCache P)
      → metadata.cacheable ≡ true
      → JsMap.get hash c.messages ≡ none
      → (process_message_payload server (message hash p metadata) c).1 ≡ record c {
        messages =
            JsMap.set hash
              (record { msg = message hash p metadata; report_run_count = c.report_run_count })
              c.messages;
      }
  unfolding process_message_payload maybe_cache_message cache_message get_cached_message
  process_new server hash p metadata c cacheable absent = ground (arith, cacheable, absent)

  -- What is returned for a reference.
  process_reference :
      (server : Option BaseUriParts) (hash : String) (metadata : ForwardMsgMetadata)
      (c : ForwardMsgCache P)
      → (process_message_payload server (reference hash metadata) c).0
        ≡ elim (JsMap.get hash c.messages) [
          | none ↦ request_message_payload server hash
          | some entry ↦ with_metadata_of (some metadata) entry.msg
        ]
  unfolding process_message_payload maybe_cache_message resolve_reference get_cached_message
  process_reference server hash metadata c = ground arith

  -- A cacheable message that is new to the cache is what a reference to it gives, with the
  -- metadata of the reference and without a request, as long as no more runs end in between than
  -- the greatest age; after more runs the server is asked for it.
  pub reference-runs :
      (server server' : Option BaseUriParts) (hash : String) (p : P)
      (metadata ref_metadata : ForwardMsgMetadata) (n max_message_age : ℕ) (c : ForwardMsgCache P)
      → IsDistinct c.messages
      → metadata.cacheable ≡ true
      → JsMap.get hash c.messages ≡ none
      → (process_message_payload server'
          (reference hash ref_metadata)
          (runs n max_message_age (process_message_payload server (message hash p metadata) c).1)).0
        ≡ (if leb n max_message_age
            then returned (message hash p ref_metadata)
            else request_message_payload server' hash)
  unfolding with_metadata_of
  reference-runs server server' hash p metadata ref_metadata n max_message_age c one cacheable
        absent =
      let entry : CacheEntry P = record {
        msg = message hash p metadata;
        report_run_count = c.report_run_count;
      } in
      let full : ForwardMsgCache P = record c { messages = JsMap.set hash entry c.messages } in
      let there : JsMap.get hash full.messages ≡ some entry =
        ground (arith, get-set hash hash entry c.messages, eq_refl hash) in
      let left =
        get-runs-some hash n max_message_age full entry (set-IsDistinct hash entry c.messages one)
          (omega arith) there in
      rw
        (
          process_new server hash p metadata c cacheable absent,
          process_reference server' hash ref_metadata (runs n max_message_age full),
          left,
        )
        (ground arith)
