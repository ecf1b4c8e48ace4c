-- ===== src/SessionInfo.antt =====
-- What the page knows of its session (frontend/src/lib/SessionInfo.ts); `SessionInfo.current` is an
-- optional value of the application and of the metrics.
use streamlit.Prelude.{String, ℕ}

pub record SessionInfo : Type 0 where
  pub session_id : String
  pub streamlit_version : String
  pub python_version : String
  pub installation_id : String
  pub installation_id_v1 : String
  pub installation_id_v2 : String
  pub installation_id_v3 : String
  pub author_email : String
  pub max_cached_message_age : ℕ
  pub command_line : String
  pub user_mapbox_token : String
