-- ===== src/Metrics.antt =====
-- frontend/src/lib/MetricsManager.ts: the counters of deltas and components, and the queue of
-- events that wait for the session. The data of an event is of any type `D`, and what `send` adds to
-- it stands beside it; the calls of the analytics are in `identified` and `tracked`, the latest last.
-- `pick` of the metadata takes all that it has.
pub mod Queue
mod Tests
use streamlit.Prelude.{
  Bool, List, Option, String, [], false, if◌then◌else◌, none, not, some, str_eq, true, ℕ, ◌++◌, ◌+◌,
  ◌||◌, ◌∷◌,
}
use streamlit.Prelude.Result.{Result, err, ok}
use streamlit.JsMap
use streamlit.JsMap.{JsMap}
use streamlit.SessionInfo.{SessionInfo}

pub data Error : Type 0 where
  session_not_initialized : Error

pub record Event (D : Type 0) : Type 0 where
  pub name : String
  pub event_data : D

-- frontend/src/hocs/withS4ACommunication/types.ts
pub record StreamlitShareMetadata : Type 0 where
  pub hosted_at : Option String
  pub creator_id : Option String
  pub owner : Option String
  pub branch : Option String
  pub repo : Option String
  pub main_module : Option String

abbrev pub no_metadata : StreamlitShareMetadata
no_metadata = record {
  hosted_at = none;
  creator_id = none;
  owner = none;
  branch = none;
  repo = none;
  main_module = none;
}

pub record InstallationData : Type 0 where
  pub machine_id_v1 : String
  pub machine_id_v2 : String
  pub machine_id_v3 : String

-- An event as it is sent; its source is the browser, and it is not one of development.
pub record Tracked (D : Type 0) : Type 0 where
  pub event : Event D
  pub host : StreamlitShareMetadata
  pub installation : InstallationData
  pub report_hash : String
  pub streamlit_version : String

-- The user, with the traits that are sent.
pub record Identified : Type 0 where
  pub user_id : String
  pub installation : InstallationData
  pub host : StreamlitShareMetadata
  pub author_email : Option String

pub record MetricsManager (D : Type 0) : Type 0 where
  pub initialized : Bool
  pub actually_send_metrics : Bool
  pub pending_events : List (Event D)
  pub pending_delta_counter : JsMap ℕ
  pub pending_custom_component_counter : JsMap ℕ
  pub report_hash : String
  pub metadata : Option StreamlitShareMetadata
  pub identified : List Identified
  pub tracked : List (Tracked D)

unfoldable pub get_installation_data : SessionInfo → InstallationData
get_installation_data s = record {
  machine_id_v1 = s.installation_id_v1;
  machine_id_v2 = s.installation_id_v2;
  machine_id_v3 = s.installation_id_v3;
}

-- The two counters have the same increment.
unfoldable pub increment : String → JsMap ℕ → JsMap ℕ
increment key counter = elim (JsMap.get key counter) [
  | none ↦ JsMap.set key 1 counter
  | some n ↦ JsMap.set key (n + 1) counter
]

module _ {D : Type 0} where
  unfoldable pub new_metrics_manager : MetricsManager D
  new_metrics_manager = record {
    initialized = false;
    actually_send_metrics = false;
    pending_events = [];
    pending_delta_counter = [];
    pending_custom_component_counter = [];
    report_hash = "Not initialized";
    metadata = some no_metadata;
    identified = [];
    tracked = [];
  }

  unfoldable pub increment_delta_counter : String → MetricsManager D → MetricsManager D
  increment_delta_counter delta_type m = record m {
    pending_delta_counter = increment delta_type m.pending_delta_counter;
  }

  unfoldable pub increment_custom_component_counter : String → MetricsManager D → MetricsManager D
  increment_custom_component_counter name m = record m {
    pending_custom_component_counter = increment name m.pending_custom_component_counter;
  }

  unfoldable pub clear_delta_counter : MetricsManager D → MetricsManager D
  clear_delta_counter m = record m { pending_delta_counter = [] }

  unfoldable pub get_and_reset_delta_counter : MetricsManager D → JsMap ℕ × MetricsManager D
  get_and_reset_delta_counter m = (m.pending_delta_counter, clear_delta_counter m)

  unfoldable pub clear_custom_component_counter : MetricsManager D → MetricsManager D
  clear_custom_component_counter m = record m { pending_custom_component_counter = [] }

  unfoldable pub get_and_reset_custom_component_counter :
      MetricsManager D → JsMap ℕ × MetricsManager D
  get_and_reset_custom_component_counter m =
      (m.pending_custom_component_counter, clear_custom_component_counter m)

  unfoldable pub set_report_hash : String → MetricsManager D → MetricsManager D
  set_report_hash hash m = record m { report_hash = hash }

  unfoldable pub set_metadata : Option StreamlitShareMetadata → MetricsManager D → MetricsManager D
  set_metadata metadata m = record m { metadata = metadata }

  unfoldable pub get_host_tracking_data : MetricsManager D → StreamlitShareMetadata
  get_host_tracking_data m = elim m.metadata [ none ↦ no_metadata | some d ↦ d ]

  -- `data` of `send`.
  unfoldable pub with_data : SessionInfo → MetricsManager D → Event D → Tracked D
  with_data s m e = record {
    event = e;
    host = get_host_tracking_data m;
    installation = get_installation_data s;
    report_hash = m.report_hash;
    streamlit_version = s.streamlit_version;
  }

  -- `send`, while the session is set. In the development environment the event is only printed.
  unfoldable pub send : Bool → SessionInfo → Event D → MetricsManager D → MetricsManager D
  send is_dev_env s e m =
      if is_dev_env then m else record m { tracked = m.tracked ++ (with_data s m e ∷ []) }

  unfoldable pub send_all :
      Bool → SessionInfo → List (Event D) → MetricsManager D → MetricsManager D
  send_all is_dev_env s [] m = m
  send_all is_dev_env s (e ∷ es) m = send_all is_dev_env s es (send is_dev_env s e m)

  unfoldable pub send_pending_events : Bool → SessionInfo → MetricsManager D → MetricsManager D
  send_pending_events is_dev_env s m = record (send_all is_dev_env s m.pending_events m) {
    pending_events = [];
  }

  unfoldable pub identify : Bool → Identified → MetricsManager D → MetricsManager D
  identify is_dev_env user m =
      if is_dev_env then m else record m { identified = m.identified ++ (user ∷ []) }

  -- `initialize` from `userTraits` on: reading the session throws where it is not set.
  unfoldable pub identify_and_send :
      Bool → Option SessionInfo → MetricsManager D → Result Error Unit × MetricsManager D
  identify_and_send is_dev_env none m = (err session_not_initialized, m)
  identify_and_send is_dev_env (some s) m = (
    ok tt,
    send_pending_events is_dev_env s (
        identify is_dev_env
          (record {
            user_id = s.installation_id;
            installation = get_installation_data s;
            host = get_host_tracking_data m;
            author_email = if str_eq s.author_email "" then none else some s.author_email;
          })
          m),
  )

  unfoldable pub initialize :
      Bool
      → Bool
      → Option SessionInfo
      → Bool
      → MetricsManager D
      → Result Error Unit × MetricsManager D
  initialize is_dev_env is_shared_report session gather_usage_stats m =
      let m' = record m { initialized = true; actually_send_metrics = gather_usage_stats } in
      if gather_usage_stats || is_shared_report
      then identify_and_send is_dev_env session m'
      else (ok tt, m')

  abbrev pub wait_with : Event D → MetricsManager D → MetricsManager D
  wait_with e m = record m { pending_events = m.pending_events ++ (e ∷ []) }

  -- The events that wait are sent first; there may be none.
  unfoldable pub enqueue : Bool → Option SessionInfo → Event D → MetricsManager D → MetricsManager D
  enqueue is_dev_env none e m = wait_with e m
  enqueue is_dev_env (some s) e m =
      if not m.initialized
      then wait_with e m
      else if not m.actually_send_metrics
      then m
      else send is_dev_env s e (send_pending_events is_dev_env s m)
