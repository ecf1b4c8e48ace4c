-- ===== src/Cache/Valid.antt =====
-- The invariant of the message cache.
use streamlit.Prelude.{
  Bool, Bool-cases, Option, String, [], arith, false, if_both, if◌then◌else◌, inl, inr, none, refl,
  some, true, ℕ, ◌+◌, ◌∷◌, ◌≡◌, ◌≤◌,
}
use streamlit.JsMap
use streamlit.JsMap.{JsMap}
use streamlit.JsMap.Distinct.{IsDistinct, retain-IsDistinct, set-IsDistinct}
use streamlit.JsMap.Each.{Each, get-Each, retain-Each, set-Each}
use streamlit.Report.Proto.{ForwardMsgMetadata}
use streamlit.Cache.{
  BaseUriParts, CacheEntry, Content, ForwardMsg, ForwardMsgCache, Outcome, Response, bad_status,
  cache_message, decoded, fetch_message_payload, finish_message_payload, get_cached_message,
  increment_run_count, is_cacheable, is_ref, maybe_cache_message, new_cache, payload,
  process_message_payload, ref_hash, rejected, request_message_payload, resolve_reference, returned,
  undecodable, with_metadata_of,
}

-- An entry holds a cacheable message that is no reference, under the message's hash, and was not
-- used later than now.
abbrev pub IsEntry : {P : Type 0} → ℕ → String → CacheEntry P → Type 0
IsEntry run_count hash entry =
    (entry.msg.hash ≡ hash)
    × (is_ref entry.msg.content ≡ false)
    × (is_cacheable entry.msg.metadata ≡ true)
    × (entry.report_run_count ≤ run_count)

abbrev pub IsValidCache : {P : Type 0} → ForwardMsgCache P → Type 0
IsValidCache c = IsDistinct c.messages × Each (IsEntry c.report_run_count) c.messages

Each-mono :
    {V : Type 0} (P Q : String → V → Type 0) (m : JsMap V)
    → ((k : String) (v : V) → P k v → Q k v)
    → Each P m
    → Each Q m
Each-mono P Q [] h all = tt
Each-mono P Q ((k, v) ∷ m) h all = (h k v all.0, Each-mono P Q m h all.1)

module _ {P : Type 0} where
  increment_run_count-IsValidCache :
      (max_message_age : ℕ) (c : ForwardMsgCache P)
      → IsValidCache c
      → IsValidCache (increment_run_count max_message_age c)
  unfolding increment_run_count
  increment_run_count-IsValidCache max_message_age c (one, all) = (
    retain-IsDistinct _ c.messages one,
    retain-Each (IsEntry (c.report_run_count + 1)) _ c.messages (
        Each-mono (IsEntry c.report_run_count) (IsEntry (c.report_run_count + 1)) c.messages
          (λ k v (h, r, m, n). (h, r, m, omega (arith, n))) all),
  )

  get_cached_message-IsValidCache :
      (hash : String) (update : Bool) (c : ForwardMsgCache P)
      → IsValidCache c
      → IsValidCache (get_cached_message hash update c).1
  unfolding get_cached_message
  get_cached_message-IsValidCache hash update c (one, all) = go (JsMap.get hash c.messages) refl
    where
      go :
          (o : Option (CacheEntry P))
          → JsMap.get hash c.messages ≡ o
          → IsValidCache
              (elim o as (λ _. Option (ForwardMsg P) × ForwardMsgCache P) [
                | none ↦ (none, c)
                | some cached ↦ (
                  some cached.msg,
                  (if update
                      then record c {
                        messages =
                            JsMap.set hash
                              (record cached { report_run_count = c.report_run_count })
                              c.messages;
                      }
                      else c),
                )
              ]).1
      go none e = (one, all)
      go (some cached) e =
          let (h, r, m, n) = get-Each (IsEntry c.report_run_count) hash c.messages all e in
          if_both IsValidCache update
            (
              set-IsDistinct hash _ c.messages one,
              set-Each (IsEntry c.report_run_count) hash _ c.messages (h, r, m, omega arith) all,
            )
            (one, all)

  cache_message-IsValidCache :
      (msg : ForwardMsg P) (c : ForwardMsgCache P)
      → is_ref msg.content ≡ false
      → is_cacheable msg.metadata ≡ true
      → IsValidCache c
      → IsValidCache (cache_message msg c)
  unfolding cache_message
  cache_message-IsValidCache msg c no_ref cacheable valid =
      go (get_cached_message msg.hash true c).0 (get_cached_message msg.hash true c).1
        (get_cached_message-IsValidCache msg.hash true c valid)
    where
      go :
          (found : Option (ForwardMsg P)) (c' : ForwardMsgCache P)
          → IsValidCache c'
          → IsValidCache (elim found as (λ _. ForwardMsgCache P) [
            | some cached ↦ c'
            | none ↦ record c' {
              messages =
                  JsMap.set msg.hash
                    (record { msg = msg; report_run_count = c'.report_run_count })
                    c'.messages;
            }
          ])
      go (some cached) c' valid = valid
      go none c' (one, all) = (
        set-IsDistinct msg.hash _ c'.messages one,
        set-Each (IsEntry c'.report_run_count) msg.hash _ c'.messages
            (refl, no_ref, cacheable, omega arith) all,
      )

  maybe_cache_message-IsValidCache :
      (msg : ForwardMsg P) (c : ForwardMsgCache P)
      → IsValidCache c
      → IsValidCache (maybe_cache_message msg c)
  unfolding maybe_cache_message
  maybe_cache_message-IsValidCache msg c valid = elim (Bool-cases (is_ref msg.content)) [
    | inl ref ↦ rw ref valid
    | inr no_ref ↦ elim (Bool-cases (is_cacheable msg.metadata)) [
      | inl cacheable ↦
          rw (no_ref, cacheable) (cache_message-IsValidCache msg c no_ref cacheable valid)
      | inr not_so ↦ rw (no_ref, not_so) valid
    ]
  ]

  resolve_reference-IsValidCache :
      (server : Option BaseUriParts) (hash : String) (metadata : Option ForwardMsgMetadata)
      (c : ForwardMsgCache P)
      → IsValidCache c
      → IsValidCache (resolve_reference server hash metadata c).1
  unfolding resolve_reference
  resolve_reference-IsValidCache server hash metadata c valid =
      go (get_cached_message hash true c).0 (get_cached_message hash true c).1
        (get_cached_message-IsValidCache hash true c valid)
    where
      go :
          (found : Option (ForwardMsg P)) (c' : ForwardMsgCache P)
          → IsValidCache c'
          → IsValidCache
              (elim found as (λ _. Outcome P × ForwardMsgCache P) [
                | some new_msg ↦ (with_metadata_of metadata new_msg, c')
                | none ↦ (request_message_payload server hash, c')
              ]).1
      go (some new_msg) c' valid = valid
      go none c' valid = valid

  process_message_payload-IsValidCache :
      (server : Option BaseUriParts) (msg : ForwardMsg P) (c : ForwardMsgCache P)
      → IsValidCache c
      → IsValidCache (process_message_payload server msg c).1
  unfolding process_message_payload
  process_message_payload-IsValidCache server msg c valid = go msg.content
    where
      c' : ForwardMsgCache P
      c' = maybe_cache_message msg c

      go :
          (content : Content P)
          → IsValidCache
              (elim content as (λ _. Outcome P × ForwardMsgCache P) [
                | ref_hash hash ↦ resolve_reference server hash msg.metadata c'
                | payload p ↦ (returned msg, c')
              ]).1
      go (ref_hash hash) =
          resolve_reference-IsValidCache server hash msg.metadata c'
            (maybe_cache_message-IsValidCache msg c valid)
      go (payload p) = maybe_cache_message-IsValidCache msg c valid

  finish_message_payload-IsValidCache :
      (hash : String) (metadata : Option ForwardMsgMetadata) (response : Response P)
      (c : ForwardMsgCache P)
      → IsValidCache c
      → IsValidCache (finish_message_payload hash metadata response c).1
  unfolding finish_message_payload fetch_message_payload
  finish_message_payload-IsValidCache hash metadata (rejected message) c valid = valid
  finish_message_payload-IsValidCache hash metadata (bad_status text) c valid = valid
  finish_message_payload-IsValidCache hash metadata (undecodable message) c valid = valid
  finish_message_payload-IsValidCache hash metadata (decoded msg) c valid =
      maybe_cache_message-IsValidCache msg c valid

-- What happens to a cache: a run ends, a message comes, or a request for one ends.
pub data CacheStep (P : Type 0) : ForwardMsgCache P → ForwardMsgCache P → Type 0 where
  run_step :
      (max_message_age : ℕ) (c : ForwardMsgCache P)
      → CacheStep P c (increment_run_count max_message_age c)
  message_step :
      (server : Option BaseUriParts) (msg : ForwardMsg P) (c : ForwardMsgCache P)
      → CacheStep P c (process_message_payload server msg c).1
  response_step :
      (hash : String) (metadata : Option ForwardMsgMetadata) (response : Response P)
      (c : ForwardMsgCache P)
      → CacheStep P c (finish_message_payload hash metadata response c).1

pub data Cached (P : Type 0) : ForwardMsgCache P → Type 0 where
  new : Cached P new_cache
  step : {c c' : ForwardMsgCache P} → Cached P c → CacheStep P c c' → Cached P c'

step-IsValidCache :
    {P : Type 0} {c c' : ForwardMsgCache P} → CacheStep P c c' → IsValidCache c → IsValidCache c'
step-IsValidCache (run_step max_message_age c) valid =
    increment_run_count-IsValidCache max_message_age c valid
step-IsValidCache (message_step server msg c) valid =
    process_message_payload-IsValidCache server msg c valid
step-IsValidCache (response_step hash metadata response c) valid =
    finish_message_payload-IsValidCache hash metadata response c valid

-- However messages, answers to requests and ends of runs follow each other, a cache holds each
-- message once and under its own hash, holds only cacheable messages and no references, and counts
-- no use of a message after the present run.
pub Cached-IsValidCache : {P : Type 0} {c : ForwardMsgCache P} → Cached P c → IsValidCache c
unfolding new_cache
Cached-IsValidCache new = (tt, tt)
Cached-IsValidCache (step before s) = step-IsValidCache s (Cached-IsValidCache before)
