-- ===== src/Workflow/Trigger.antt =====
-- `trigger_workflow` and `send_immediate`. What the mail service answers to an email that is sent
-- at once is an argument; so is the time of each workflow, by its id.
pub mod Outcome
pub mod Ambiguity
use cyberx_event_mgmt.Base.{
  ℕ, suc, ◌+◌, ◌*◌, String, Option, none, some, Bool, true, false, not, ◌&&◌, List, [], ◌∷◌, ◌++◌,
  if◌then◌else◌, ◌==◌, ltb, ℤ, pos, negsuc, seconds, select, find, sort_by, Result, ok, raised,
  runtime_error, scalar_one_or_none,
}
use cyberx_event_mgmt.Auth.Data.{User}
use cyberx_event_mgmt.Auth.Permissions.{is_sponsor_role}
use cyberx_event_mgmt.Event.Data.{Event}
use cyberx_event_mgmt.Event.Service.{is_later}
use cyberx_event_mgmt.EmailQueue.Data.{Vars, Email}
use cyberx_event_mgmt.EmailQueue.Data as Queue
use cyberx_event_mgmt.EmailQueue.Enqueue.{Request, enqueue_email}
use cyberx_event_mgmt.EmailQueue.Batch.{Answer, accepted, refused, raises}
use cyberx_event_mgmt.Workflow.Data.{
  Workflow, Triggered, Db, is_enabled_for, is_sooner, get_workflows_by_trigger, merged_vars,
}

-- The active event, as the trigger queries it: the query has no limit.
unfoldable pub only_active_event : Db → Result (Option Event)
only_active_event db =
    scalar_one_or_none (sort_by is_later (select (λ (e : Event). e.is_active) db.events.events))

unfoldable pub get_user : Db → ℕ → Option User
get_user db user_id = find (λ (u : User). u.id == user_id) db.users

-- A delay that is not positive is none.
abbrev pub scheduled : ℕ → Option ℤ → Option ℕ
scheduled now none = none
scheduled now (some (pos n)) = if ltb 0 n then some (now + seconds (60 * n)) else none
scheduled now (some (negsuc n)) = none

abbrev pub logged : ℕ → String → String → Workflow → Db → Db
logged user_id event mode w db = record db {
  audit =
      db.audit
      ++ record { user_id = user_id; workflow_id = w.id; trigger_event = event; send_mode = mode }
        ∷ [];
}

abbrev pub request_of : ℕ → ℕ → Option Vars → Bool → Workflow → Request
request_of now user_id custom_vars force w = record {
  user_id = user_id;
  template_name = w.template_name;
  priority = w.priority;
  custom_vars = some (merged_vars w custom_vars);
  scheduled_for = scheduled now w.delay_minutes;
  force = force;
}

-- The calls that trigger workflows: the event, the user, the variables and whether to force.
pub record Trigger : Type 0 where
  pub trigger_event : String
  pub user_id : ℕ
  pub custom_vars : Option Vars
  pub force : Bool

module _ (send : Option User → String → Vars → Answer) (clock : ℕ → ℕ) (t : Trigger) where
  sent : Workflow → Db × ℕ → Answer → Db × ℕ
  sent w (db, n) (accepted message) = (logged t.user_id t.trigger_event "immediate" w db, suc n)
  sent w (db, n) (refused message) = (db, n)
  sent w (db, n) (raises message) = (db, n)

  queued : Workflow → Db × ℕ → Queue.Db × Result Email → Db × ℕ
  queued w (db, n) (queue, ok e) =
      (logged t.user_id t.trigger_event "queued" w (record db { queue = queue }), suc n)
  queued w (db, n) (queue, raised e) = (record db { queue = queue }, n)

  -- An exception of one workflow is logged, and the loop goes on.
  unfoldable pub trigger_one : Workflow → Db × ℕ → Db × ℕ
  unfolding sent queued
  trigger_one w (db, n) =
      if w.send_immediately
      then sent w (db, n)
          (send (get_user db t.user_id) w.template_name (merged_vars w t.custom_vars))
      else queued w (db, n)
          (enqueue_email db.queue (clock w.id)
            (request_of (clock w.id) t.user_id t.custom_vars t.force w))

  unfoldable pub trigger_each : List Workflow → Db × ℕ → Db × ℕ
  trigger_each [] s = s
  trigger_each (w ∷ ws) s = trigger_each ws (trigger_one w s)

  is_blocked : Option Event → Option User → Bool
  is_blocked none u = false
  is_blocked (some e) none = e.test_mode
  is_blocked (some e) (some u) = e.test_mode && not (is_sponsor_role u)

  trigger_found : Db → List Workflow → Result (Option Event) → Db × Result ℕ
  unfolding is_blocked
  trigger_found db [] event = (db, ok 0)
  trigger_found db (w ∷ ws) (raised e) = (db, raised e)
  trigger_found db (w ∷ ws) (ok event) =
      if is_blocked event (get_user db t.user_id)
      then (db, ok 0)
      else let (db', n) = trigger_each (w ∷ ws) (db, 0) in (db', ok n)

  unfoldable pub trigger_workflow : Db → Db × Result ℕ
  unfolding trigger_found
  trigger_workflow db =
      trigger_found db (get_workflows_by_trigger db t.trigger_event true) (only_active_event db)

first_row : List Workflow → Option Workflow
first_row [] = none
first_row (w ∷ ws) = some w

sent_at_once : ℕ → String → Workflow → Db → Answer → Db × Result Bool
sent_at_once user_id event w db (accepted message) =
    (logged user_id event "immediate" w db, ok true)
sent_at_once user_id event w db (refused message) = (db, ok false)
sent_at_once user_id event w db (raises message) = (db, raised (runtime_error message))

send_found :
    (Option User → String → Vars → Answer)
    → ℕ
    → String
    → Option Vars
    → Db
    → Option Workflow
    → Option User
    → Db × Result Bool
unfolding sent_at_once
send_found send user_id event custom_vars db none u = (db, ok false)
send_found send user_id event custom_vars db (some w) none = (db, ok false)
send_found send user_id event custom_vars db (some w) (some u) =
    sent_at_once user_id event w db (send (some u) w.template_name (merged_vars w custom_vars))

unfoldable pub send_immediate :
    (Option User → String → Vars → Answer) → Db → String → ℕ → Option Vars → Db × Result Bool
unfolding send_found first_row
send_immediate send db event user_id custom_vars =
    send_found send user_id event custom_vars db
      (first_row (get_workflows_by_trigger db event true)) (get_user db user_id)
