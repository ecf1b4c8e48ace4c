-- ===== src/Metrics/Tests.antt =====
-- Runs of frontend/src/lib/MetricsManager.ts at concrete inputs.
use streamlit.Prelude.{[], false, none, some, true, ℕ, ◌∷◌, ◌≡◌}
use streamlit.SessionInfo.{SessionInfo}
use streamlit.Metrics.{Event, MetricsManager, enqueue, new_metrics_manager, with_data}
use streamlit.Metrics.Queue.{enqueue_cases}

abbrev click : Event ℕ
click = record { name = "click"; event_data = 1 }

abbrev load : Event ℕ
load = record { name = "load"; event_data = 2 }

abbrev waiting : MetricsManager ℕ
waiting = record new_metrics_manager { pending_events = click ∷ [] }

abbrev started : MetricsManager ℕ
started = record waiting { initialized = true; actually_send_metrics = true }

abbrev session : SessionInfo
session = record {
  session_id = "session";
  streamlit_version = "0.84.0";
  python_version = "3.8";
  installation_id = "installation";
  installation_id_v1 = "v1";
  installation_id_v2 = "v2";
  installation_id_v3 = "v3";
  author_email = "";
  max_cached_message_age = 2;
  command_line = "streamlit run";
  user_mapbox_token = "";
}

enqueue_cases_example :
    (enqueue false none load started ≡ record started { pending_events = click ∷ load ∷ [] })
    × (enqueue false (some session) load started ≡ record started {
      pending_events = [];
      tracked = with_data session started click ∷ with_data session started load ∷ [];
    })
unfolding new_metrics_manager
enqueue_cases_example = enqueue_cases session load started
