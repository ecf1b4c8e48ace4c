-- ===== src/Cache/Tests.antt =====
-- Runs of frontend/src/lib/ForwardMessageCache.ts at concrete inputs.
use streamlit.Prelude.{[], if◌then◌else◌, leb, none, refl, true, ℕ, ◌∷◌, ◌≡◌}
use streamlit.JsMap
use streamlit.JsMap.{JsMap}
use streamlit.Report.Proto.{ForwardMsgMetadata}
use streamlit.Cache.{
  CacheEntry, ForwardMsgCache, cache_message, get_age, get_cached_message, increment_run_count,
  maybe_cache_message, new_cache, not_connected, process_message_payload, request_message_payload,
  resolve_reference, returned, threw,
}
use streamlit.Cache.Valid.{Cached-IsValidCache, IsValidCache, message_step, new, run_step, step}
use streamlit.Cache.Age.{message, reference, reference-runs, runs}

abbrev cacheable_metadata : ForwardMsgMetadata
cacheable_metadata = record { cacheable = true; delta_path = 0 ∷ []; element_dimension_spec = none }

abbrev ref_metadata : ForwardMsgMetadata
ref_metadata = record { cacheable = true; delta_path = 1 ∷ 2 ∷ []; element_dimension_spec = none }

abbrev used_at_1 : CacheEntry ℕ
used_at_1 = record { msg = message "h" 5 cacheable_metadata; report_run_count = 1 }

abbrev one_message : ForwardMsgCache ℕ
one_message = record { messages = ("h", used_at_1) ∷ []; report_run_count = 3 }

Cached-IsValidCache_example : IsValidCache {P = ℕ} (
    increment_run_count 2
      (process_message_payload none (message "h" 5 cacheable_metadata) new_cache).1)
Cached-IsValidCache_example = Cached-IsValidCache (
    step (step new (message_step none (message "h" 5 cacheable_metadata) new_cache))
      (run_step 2 (process_message_payload none (message "h" 5 cacheable_metadata) new_cache).1))

reference-runs_example :
    (process_message_payload none
      (reference "g" ref_metadata)
      (runs 2 2 (process_message_payload none (message "g" 8 cacheable_metadata) one_message).1)).0
    ≡ (if leb 2 2 then returned (message "g" 8 ref_metadata) else request_message_payload none "g")
unfolding JsMap.get
reference-runs_example =
    reference-runs none none "g" 8 cacheable_metadata ref_metadata 2 2 one_message (refl, tt) refl
      refl

-- One run later the same reference would be a request.
too_late :
    (process_message_payload none
      (reference "g" ref_metadata)
      (runs 3 2 (process_message_payload none (message "g" 8 cacheable_metadata) one_message).1)).0
    ≡ threw not_connected
unfolding process_message_payload maybe_cache_message cache_message get_cached_message JsMap.get
    JsMap.set increment_run_count get_age JsMap.retain resolve_reference request_message_payload
too_late = refl
