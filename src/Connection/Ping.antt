-- ===== src/Connection/Ping.antt =====
-- `doHealthPing` of frontend/src/lib/WebsocketConnection.tsx: the server's URIs are tried in turn
-- until one responds. A URI is its index, `is_local` tells which of them name localhost, and the
-- retries are what the callback is called with, the latest last. Times are in milliseconds; a
-- wait that has a fraction of a millisecond is in thousandths of one.
use streamlit.Prelude.{
  Bool, List, String, [], if◌then◌else◌, leb, ltb, ℕ, ◌*◌, ◌++◌, ◌+◌, ◌-◌, ◌==◌, ◌∷◌,
}

-- How an attempt fails, as axios tells: `ECONNABORTED`, a response with a status that is not a good
-- one, no response, or another error.
pub data AxiosError : Type 0 where
  connection_aborted no_response : AxiosError
  responded : ℕ → String → AxiosError
  not_sent : String → AxiosError

pub data ErrorNode : Type 0 where
  timed_out is_streamlit_running status_zero forbidden : ErrorNode
  failed_with : ℕ → String → ErrorNode
  message : String → ErrorNode

pub record HealthPing : Type 0 where
  pub total_tries : ℕ
  pub uri_number : ℕ
  pub retries : List (ℕ × ErrorNode)

unfoldable pub connect : HealthPing → HealthPing
connect h = if h.uri_number == 0 then record h { total_tries = h.total_tries + 1 } else h

-- The first attempt.
unfoldable pub start_ping : HealthPing
start_ping = connect (record { total_tries = 0; uri_number = 0; retries = [] })

unfoldable pub retry_immediately : ℕ → HealthPing → HealthPing
retry_immediately uri_count h =
    connect
      (record h { uri_number = if leb uri_count (h.uri_number + 1) then 0 else h.uri_number + 1 })

unfoldable pub retry : ErrorNode → HealthPing → HealthPing
retry node h = record h { retries = h.retries ++ ((h.total_tries, node) ∷ []) }

unfoldable pub no_response_node : Bool → ErrorNode
no_response_node is_local = if is_local then is_streamlit_running else status_zero

unfoldable pub error_node : Bool → AxiosError → ErrorNode
error_node is_local connection_aborted = timed_out
error_node is_local no_response = no_response_node is_local
error_node is_local (responded status body) =
    if status == 0
    then no_response_node is_local
    else if status == 403
    then forbidden
    else failed_with status body
error_node is_local (not_sent text) = message text

-- An attempt fails, and after the wait the next URI is tried.
unfoldable pub attempt_failed : (ℕ → Bool) → ℕ → AxiosError → HealthPing → HealthPing
attempt_failed is_local uri_count e h =
    retry_immediately uri_count (retry (error_node (is_local h.uri_number) e) h)

-- The attempts that fail, one after the other.
unfoldable pub attempts : (ℕ → Bool) → ℕ → List AxiosError → HealthPing → HealthPing
attempts is_local uri_count [] h = h
attempts is_local uri_count (e ∷ es) h =
    attempts is_local uri_count es (attempt_failed is_local uri_count e h)

-- `retryTimeout`, in thousandths of a millisecond, after an attempt of some milliseconds:
-- `tryDuration` is in seconds and `timeoutMs` in milliseconds.
unfoldable pub retry_timeout : ℕ → ℕ → ℕ
retry_timeout timeout_ms elapsed_ms =
    if ltb elapsed_ms (timeout_ms * 1000) then timeout_ms * 1000 - elapsed_ms else 0
