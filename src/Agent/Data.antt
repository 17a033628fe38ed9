-- ===== src/Agent/Data.antt =====
-- The tables that the agent code reads. Times are microseconds, JSON values are kept as text.
use cyberx_event_mgmt.Base.{ℕ, String, Option, Bool, List, ◌==◌}

-- A row of `agent_tasks`; the status is a text, PENDING, IN_PROGRESS, COMPLETED or FAILED.
pub record Task : Type 0 where
  pub id : ℕ
  pub instance_id : ℕ
  pub task_type : String
  pub payload : Option String
  pub status : String
  pub result : Option String
  pub error_message : Option String
  pub created_at : ℕ
  pub started_at : Option ℕ
  pub completed_at : Option ℕ
  pub created_by_user_id : Option ℕ

-- What the agent code reads and writes of a row of `instances`.
pub record Instance : Type 0 where
  pub id : ℕ
  pub agent_token_hash : Option String
  pub agent_registered_ip : Option String
  pub agent_last_heartbeat : Option ℕ
  pub deleted_at : Option ℕ

pub record Db : Type 0 where
  pub instances : List Instance
  pub tasks : List Task
  pub next_id : ℕ

abbrev pub has_id : ℕ → Task → Bool
has_id i t = t.id == i

abbrev pub has_instance_id : ℕ → Instance → Bool
has_instance_id i x = x.id == i
