-- ===== src/Agent/Tasks.antt =====
-- `AgentService`, but for the cycling of VPNs.
pub mod Timeouts
use cyberx_event_mgmt.Base.{
  ℕ, suc, ◌+◌, ◌-◌, ◌*◌, String, Option, none, some, Bool, true, false, not, ◌&&◌, ◌||◌, List, [],
  ◌∷◌, ◌++◌, if◌then◌else◌, ◌==◌, str_eq, ltb, leb, is_some, seconds, select, count, find, update,
  sort_by, take,
}
use cyberx_event_mgmt.Agent.Data.{Task, Instance, Db, has_id, has_instance_id}

abbrev pub is_pending : ℕ → Task → Bool
is_pending instance_id t = t.instance_id == instance_id && str_eq t.status "PENDING"

unfoldable pub get_pending_tasks : Db → ℕ → List Task
get_pending_tasks db instance_id =
    sort_by (λ t u. leb t.created_at u.created_at) (select (is_pending instance_id) db.tasks)

unfoldable pub get_task : Db → ℕ → ℕ → Option Task
get_task db task_id instance_id =
    find (λ t. t.id == task_id && t.instance_id == instance_id) db.tasks

abbrev pub new_task : ℕ → ℕ → ℕ → String → ℕ → Option String → Task
new_task i now instance_id task_type user_id payload = record {
  id = i;
  instance_id = instance_id;
  task_type = task_type;
  payload = payload;
  status = "PENDING";
  result = none;
  error_message = none;
  created_at = now;
  started_at = none;
  completed_at = none;
  created_by_user_id = some user_id;
}

unfoldable pub create_task : Db → ℕ → ℕ → String → ℕ → Option String → Db × Task
create_task db now instance_id task_type user_id payload =
    let t = new_task db.next_id now instance_id task_type user_id payload in
    (record db { tasks = db.tasks ++ t ∷ []; next_id = suc db.next_id }, t)

abbrev pub or_old : Option String → Option String → Option String
or_old none old = old
or_old (some new) old = some new

-- The times that the new status sets.
unfoldable pub stamp : ℕ → String → Task → Task
stamp now status t =
    if str_eq status "IN_PROGRESS" && not (is_some t.started_at)
    then record t { status = status; started_at = some now }
    else if str_eq status "COMPLETED" || str_eq status "FAILED"
    then record t { status = status; completed_at = some now }
    else record t { status = status }

unfoldable pub set_status : ℕ → String → Option String → Option String → Task → Task
unfolding stamp
set_status now status result error_message t =
    let s = stamp now status t in
    record s {
      result = or_old result s.result;
      error_message = or_old error_message s.error_message;
    }

unfoldable pub update_task_status :
    Db → ℕ → Task → String → Option String → Option String → Db × Task
unfolding set_status
update_task_status db now task status result error_message = (
  record db {
    tasks = update (has_id task.id) (set_status now status result error_message) db.tasks;
  },
  set_status now status result error_message task,
)

unfoldable pub update_heartbeat : Db → ℕ → Instance → Db
update_heartbeat db now instance' = record db {
  instances =
      update (has_instance_id instance'.id) (λ x. record x { agent_last_heartbeat = some now })
        db.instances;
}

abbrev pub is_after : ℕ → ℕ → String → Task → Bool
is_after cutoff instance_id task_type t =
    (t.instance_id == instance_id && str_eq t.task_type task_type) && ltb cutoff t.created_at

-- The limit leaves one row at most.
unfoldable pub check_rate_limit : Db → ℕ → ℕ → String → ℕ → Bool
check_rate_limit db now instance_id task_type minutes =
    is_some (find (is_after (now - seconds (60 * minutes)) instance_id task_type) db.tasks)

unfoldable pub get_task_history : Db → ℕ → ℕ → List Task
get_task_history db instance_id limit = take limit (
    sort_by (λ t u. leb u.created_at t.created_at)
      (select (λ t. t.instance_id == instance_id) db.tasks))

abbrev pub started_before : ℕ → Option ℕ → Bool
started_before cutoff none = false
started_before cutoff (some t) = ltb t cutoff

abbrev pub is_stale : ℕ → Task → Bool
is_stale cutoff t = str_eq t.status "IN_PROGRESS" && started_before cutoff t.started_at

abbrev pub time_out : ℕ → String → Task → Task
time_out now message t = record t {
  status = "FAILED";
  completed_at = some now;
  error_message = some message;
}

-- The setting is in minutes; `message` is the text that names it.
unfoldable pub timeout_stale_tasks : ℕ → String → Db → ℕ → Db × ℕ
timeout_stale_tasks timeout_minutes message db now =
    let cutoff = now - seconds (60 * timeout_minutes) in
    (
      record db { tasks = update (is_stale cutoff) (time_out now message) db.tasks },
      count (is_stale cutoff) db.tasks,
    )
