-- ===== src/Cache.antt =====
-- frontend/src/lib/ForwardMessageCache.ts: the cache of the messages that the server sent.
-- `processMessagePayload` is in two parts, before and after the request that a miss awaits, since
-- other messages use the cache in between. What the request is answered is a value of `Response`;
-- its URL (frontend/src/lib/UriUtil.ts) is not modelled beyond the server's parts and the hash.
pub mod Valid
pub mod Age
mod Tests
use streamlit.Prelude.{
  Bool, Option, String, [], false, if◌then◌else◌, ltb, none, not, some, true, ℕ, ◌+◌,
}
use streamlit.Prelude.Int.{negsuc, pos, sub_ℕ, ℤ}
use streamlit.Prelude.Result.{Result, err, ok}
use streamlit.JsMap
use streamlit.JsMap.{JsMap}
use streamlit.Report.Proto.{ForwardMsgMetadata}

pub record BaseUriParts : Type 0 where
  pub host : String
  pub port : ℕ
  pub base_path : String

-- The `type` of a message, with the hash of a reference and a payload of any other type.
pub data Content (P : Type 0) : Type 0 where
  ref_hash : String → Content P
  payload : P → Content P

pub record ForwardMsg (P : Type 0) : Type 0 where
  pub hash : String
  pub content : Content P
  pub metadata : Option ForwardMsgMetadata

pub record CacheEntry (P : Type 0) : Type 0 where
  pub msg : ForwardMsg P
  pub report_run_count : ℕ

pub record ForwardMsgCache (P : Type 0) : Type 0 where
  pub messages : JsMap (CacheEntry P)
  pub report_run_count : ℕ

pub data CacheError : Type 0 where
  no_metadata not_connected : CacheError
  request_failed : String → CacheError
  retrieve_failed : String → String → CacheError
  decode_failed : String → String → CacheError

-- How the request for a message ends: the promise is rejected, the status is not a good one, or
-- the body is decoded, which may throw.
pub data Response (P : Type 0) : Type 0 where
  rejected : String → Response P
  bad_status : String → Response P
  undecodable : String → Response P
  decoded : ForwardMsg P → Response P

pub data Outcome (P : Type 0) : Type 0 where
  returned : ForwardMsg P → Outcome P
  threw : CacheError → Outcome P
  awaiting : BaseUriParts → String → Outcome P

-- The age is above the limit.
abbrev pub exceeds : ℤ → ℕ → Bool
exceeds (pos n) limit = ltb limit n
exceeds (negsuc n) limit = false

-- `msg.metadata && msg.metadata.cacheable`
abbrev pub is_cacheable : Option ForwardMsgMetadata → Bool
is_cacheable none = false
is_cacheable (some metadata) = metadata.cacheable

module _ {P : Type 0} where
  unfoldable pub new_cache : ForwardMsgCache P
  new_cache = record { messages = []; report_run_count = 0 }

  unfoldable pub get_age : ℕ → CacheEntry P → ℤ
  get_age cur_report_run_count entry = sub_ℕ cur_report_run_count entry.report_run_count

  unfoldable pub increment_run_count : ℕ → ForwardMsgCache P → ForwardMsgCache P
  increment_run_count max_message_age c = record {
    messages =
        JsMap.retain
          (λ hash entry. not (exceeds (get_age (c.report_run_count + 1) entry) max_message_age))
          c.messages;
    report_run_count = c.report_run_count + 1;
  }

  -- The copy of the message, and the cache in which its entry is up to date.
  unfoldable pub get_cached_message :
      String → Bool → ForwardMsgCache P → Option (ForwardMsg P) × ForwardMsgCache P
  get_cached_message hash update_report_run_count c = elim (JsMap.get hash c.messages) [
    | none ↦ (none, c)
    | some cached ↦ (
      some cached.msg,
      (if update_report_run_count
          then record c {
            messages =
                JsMap.set hash (record cached { report_run_count = c.report_run_count }) c.messages;
          }
          else c),
    )
  ]

  abbrev pub is_ref : Content P → Bool
  is_ref (ref_hash h) = true
  is_ref (payload p) = false

  -- What is done for a message that may be in the cache already.
  unfoldable pub cache_message : ForwardMsg P → ForwardMsgCache P → ForwardMsgCache P
  cache_message msg c =
      let (found, c') = get_cached_message msg.hash true c in
      elim found [
        | some cached ↦ c'
        | none ↦ record c' {
          messages =
              JsMap.set msg.hash (record { msg = msg; report_run_count = c'.report_run_count })
                c'.messages;
        }
      ]

  unfoldable pub maybe_cache_message : ForwardMsg P → ForwardMsgCache P → ForwardMsgCache P
  maybe_cache_message msg c =
      if is_ref msg.content
      then c
      else if not (is_cacheable msg.metadata)
      then c
      else cache_message msg c

  -- The end of `processMessagePayload`: the message with the metadata of the reference.
  unfoldable pub with_metadata_of : Option ForwardMsgMetadata → ForwardMsg P → Outcome P
  with_metadata_of none new_msg = threw no_metadata
  with_metadata_of (some metadata) new_msg = returned (record new_msg { metadata = some metadata })

  -- `fetchMessagePayload` up to the request, and after it.
  unfoldable pub request_message_payload : Option BaseUriParts → String → Outcome P
  request_message_payload none hash = threw not_connected
  request_message_payload (some server) hash = awaiting server hash

  unfoldable pub fetch_message_payload : String → Response P → Result CacheError (ForwardMsg P)
  fetch_message_payload hash (rejected message) = err (request_failed message)
  fetch_message_payload hash (bad_status text) = err (retrieve_failed hash text)
  fetch_message_payload hash (undecodable message) = err (decode_failed hash message)
  fetch_message_payload hash (decoded msg) = ok msg

  -- A reference, looked up; the server is asked for what is not in the cache.
  unfoldable pub resolve_reference :
      Option BaseUriParts
      → String
      → Option ForwardMsgMetadata
      → ForwardMsgCache P
      → Outcome P × ForwardMsgCache P
  resolve_reference server hash metadata c =
      let (found, c') = get_cached_message hash true c in
      elim found [
        | some new_msg ↦ (with_metadata_of metadata new_msg, c')
        | none ↦ (request_message_payload server hash, c')
      ]

  -- `processMessagePayload` up to its end or its request.
  unfoldable pub process_message_payload :
      Option BaseUriParts → ForwardMsg P → ForwardMsgCache P → Outcome P × ForwardMsgCache P
  process_message_payload server msg c =
      let c' = maybe_cache_message msg c in
      elim msg.content [
        | ref_hash hash ↦ resolve_reference server hash msg.metadata c'
        | payload p ↦ (returned msg, c')
      ]

  -- `processMessagePayload` of a reference after its request.
  unfoldable pub finish_message_payload :
      String
      → Option ForwardMsgMetadata
      → Response P
      → ForwardMsgCache P
      → Outcome P × ForwardMsgCache P
  finish_message_payload hash metadata response c = elim (fetch_message_payload hash response) [
    | err e ↦ (threw e, c)
    | ok new_msg ↦ (with_metadata_of metadata new_msg, maybe_cache_message new_msg c)
  ]
