-- ===== src/VpnDelete/Data.antt =====
-- The tables of the bulk deletion of VPN credentials. Times are microseconds.
use cyberx_event_mgmt.Base.{ℕ, String, Option, Bool, true, false, List, ◌==◌}

-- What the job reads of a row of `vpn_credentials`.
pub record Credential : Type 0 where
  pub id : ℕ
  pub r2_key : Option String

-- `VPNDeleteJobStatus`.
pub data JobStatus : Type 0 where
  pending processing completed failed : JobStatus

-- `VPNDeleteJobMode`.
pub data JobMode : Type 0 where
  by_ids all : JobMode

-- A row of `vpn_delete_jobs`; a null list of errors is an empty one.
pub record Job : Type 0 where
  pub id : ℕ
  pub created_by_user_id : Option ℕ
  pub mode : JobMode
  pub target_ids : Option (List ℕ)
  pub status : JobStatus
  pub total_credentials : Option ℕ
  pub processed_credentials : ℕ
  pub deleted_count : ℕ
  pub failed_count : ℕ
  pub errors : List String
  pub last_error : Option String
  pub created_at : ℕ
  pub started_at : Option ℕ
  pub completed_at : Option ℕ

-- `r2_deletes` are the keys that the object store was asked to delete.
pub record Db : Type 0 where
  pub credentials : List Credential
  pub jobs : List Job
  pub next_id : ℕ
  pub r2_deletes : List String

abbrev pub is_job_status : JobStatus → JobStatus → Bool
is_job_status pending pending = true
is_job_status processing processing = true
is_job_status completed completed = true
is_job_status failed failed = true
is_job_status _ _ = false

abbrev pub has_id : ℕ → Credential → Bool
has_id i c = c.id == i

abbrev pub has_job_id : ℕ → Job → Bool
has_job_id i j = j.id == i
