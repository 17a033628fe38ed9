-- ===== src/EmailQueue/Enqueue.antt =====
-- `enqueue_email`, with its duplicate checks.
pub mod Duplicates
use Prim.Native.String
use cyberx_event_mgmt.Base.{
  ℕ, suc, ◌-◌, ◌*◌, String, Option, none, some, Bool, true, false, not, ◌&&◌, ◌||◌, List, [], ◌∷◌,
  ◌++◌, if◌then◌else◌, leb, seconds, select, Result, ok, raised, value_error, scalar_one_or_none,
}
use cyberx_event_mgmt.EmailQueue.Data.{
  Status, pending, processing, sent, is_status, Vars, Email, User, Db, get_user, is_for,
}

abbrev pub is_queued : ℕ → String → Email → Bool
is_queued user_id template_name e = is_for user_id template_name e && is_status e.status pending

-- Sent or being sent, and created in the last 24 hours.
abbrev pub is_recent : ℕ → String → ℕ → Email → Bool
is_recent user_id template_name now e =
    is_for user_id template_name e
    && ((is_status e.status sent || is_status e.status processing)
        && leb (now - seconds 86400) e.created_at)

-- The arguments of `enqueue_email`.
pub record Request : Type 0 where
  pub user_id : ℕ
  pub template_name : String
  pub priority : ℕ
  pub custom_vars : Option Vars
  pub scheduled_for : Option ℕ
  pub force : Bool

-- The row that is created; `attempts` and `max_attempts` are the columns' defaults.
abbrev pub new_email : ℕ → ℕ → User → Request → Email
new_email i now user q = record {
  id = i;
  user_id = some q.user_id;
  template_name = q.template_name;
  recipient_email = user.email;
  recipient_name = String.◌++◌ user.first_name (String.◌++◌ " " user.last_name);
  custom_vars = q.custom_vars;
  priority = q.priority;
  status = pending;
  attempts = 0;
  max_attempts = 3;
  last_attempt_at = none;
  error_message = none;
  sendgrid_message_id = none;
  batch_id = none;
  processed_by = none;
  created_at = now;
  scheduled_for = q.scheduled_for;
  processed_at = none;
  sent_at = none;
}

add : Db → ℕ → User → Request → Db × Result Email
add db now user q =
    let e = new_email db.next_id now user q in
    (record db { emails = db.emails ++ e ∷ []; next_id = suc db.next_id }, ok e)

-- The result of a duplicate check: an exception, the row found, or on to what comes next.
or_found : Db → Result (Option Email) → Db × Result Email → Db × Result Email
or_found db (raised e) next = (db, raised e)
or_found db (ok (some found)) next = (db, ok found)
or_found db (ok none) next = next

enqueue_for : Db → ℕ → Request → Option User → Db × Result Email
unfolding add or_found
enqueue_for db now q none = (db, raised (value_error "User not found"))
enqueue_for db now q (some user) =
    or_found db (scalar_one_or_none (select (is_queued q.user_id q.template_name) db.emails)) (
      if q.force
      then add db now user q
      else or_found db
          (scalar_one_or_none (select (is_recent q.user_id q.template_name now) db.emails))
          (add db now user q))

unfoldable pub enqueue_email : Db → ℕ → Request → Db × Result Email
unfolding enqueue_for
enqueue_email db now q = enqueue_for db now q (get_user db (some q.user_id))
