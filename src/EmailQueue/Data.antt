-- ===== src/EmailQueue/Data.antt =====
-- The email queue's tables (backend/app/models/email_queue.py). Times are microseconds; the values
-- of template variables are kept as text.
use cyberx_event_mgmt.Base.{
  ℕ, String, Option, none, some, Bool, true, false, List, ◌==◌, ◌&&◌, str_eq, opt_eq, find,
}

-- `EmailQueueStatus`.
pub data Status : Type 0 where
  pending processing sent failed cancelled : Status

abbrev pub is_status : Status → Status → Bool
is_status pending pending = true
is_status processing processing = true
is_status sent sent = true
is_status failed failed = true
is_status cancelled cancelled = true
is_status _ _ = false

abbrev pub Vars : Type 0
Vars = List (String × String)

-- A row of `email_queue`.
pub record Email : Type 0 where
  pub id : ℕ
  pub user_id : Option ℕ
  pub template_name : String
  pub recipient_email : String
  pub recipient_name : String
  pub custom_vars : Option Vars
  pub priority : ℕ
  pub status : Status
  pub attempts : ℕ
  pub max_attempts : ℕ
  pub last_attempt_at : Option ℕ
  pub error_message : Option String
  pub sendgrid_message_id : Option String
  pub batch_id : Option String
  pub processed_by : Option String
  pub created_at : ℕ
  pub scheduled_for : Option ℕ
  pub processed_at : Option ℕ
  pub sent_at : Option ℕ

-- A row of `email_batch_logs`, at the end of its batch.
pub record BatchLog : Type 0 where
  pub batch_id : String
  pub batch_size : ℕ
  pub total_processed : ℕ
  pub total_sent : ℕ
  pub total_failed : ℕ
  pub started_at : ℕ
  pub completed_at : ℕ
  pub duration_seconds : ℕ
  pub processed_by : String

-- What the service reads of a user.
pub record User : Type 0 where
  pub id : ℕ
  pub email : String
  pub first_name : String
  pub last_name : String

-- `next_id` is the sequence behind the primary key of `email_queue`.
pub record Db : Type 0 where
  pub users : List User
  pub emails : List Email
  pub logs : List BatchLog
  pub next_id : ℕ

abbrev pub has_id : ℕ → Email → Bool
has_id i e = e.id == i

-- The user of an id, which is unique; the id NULL is no user's.
unfoldable pub get_user : Db → Option ℕ → Option User
get_user db none = none
get_user db (some i) = find (λ u. u.id == i) db.users

-- The rows of one user and template.
abbrev pub is_for : ℕ → String → Email → Bool
is_for user_id template_name e =
    opt_eq e.user_id (some user_id) && str_eq e.template_name template_name
