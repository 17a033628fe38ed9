-- ===== src/Participant/Invitation.antt =====
-- `queue_invitation_email_for_user` of backend/app/services/email_service.py. The details of an event
-- that an email shows are the argument `event_vars`, and the first enabled workflow is that of the table.
use Prim.Native.String
use cyberx_event_mgmt.Base.{
  ℕ, String, Option, none, some, Bool, [], ◌∷◌, ◌++◌, if◌then◌else◌, is_some, find, Result,
}
use cyberx_event_mgmt.Event.Data.{Event}
use cyberx_event_mgmt.EmailQueue.Data.{Vars, Email}
use cyberx_event_mgmt.EmailQueue.Data as Queue
use cyberx_event_mgmt.EmailQueue.Enqueue.{Request, enqueue_email}
use cyberx_event_mgmt.Workflow.Data.{Workflow, is_enabled_for, merge, put_given, vars_or_empty}
use cyberx_event_mgmt.Participant.Data.{User, Db, Env, change_user, queue_db}
use cyberx_event_mgmt.Participant.Service.{is_participation}
use cyberx_event_mgmt.Participant.Confirm.{sponsor_vars, sponsor_of}

-- The queue's tables after a call, without the users of its own.
abbrev pub after_queue : Db → Queue.Db → Db
after_queue db q = record db { queue = record q { users = db.queue.users } }

abbrev pub invited : Env → User → User
invited env u = record u { confirmation_code = some env.code; confirmation_sent_at = some env.now }

-- The participation of an invitation, if there is none yet.
unfoldable pub ensure_participation : ℕ → Event → Db → Db
ensure_participation i e db =
    if is_some (find (is_participation i e.id) db.events.participations) then db else record db {
      events = record db.events {
        participations =
            db.events.participations
            ++ record {
              user_id = i;
              event_id = e.id;
              invited_by_user_id = none;
              status = "invited";
            }
              ∷ [];
      };
    }

abbrev pub confirmation_url : Env → String
confirmation_url env = String.◌++◌ env.frontend_url (String.◌++◌ "/confirm?code=" env.code)

abbrev pub invitation_sponsor_vars : Env → Option User → Vars
invitation_sponsor_vars env none =
    ("sponsor_first_name", "")
    ∷ ("sponsor_last_name", "")
    ∷ ("sponsor_last_initial", "")
    ∷ ("sponsor_name", "")
    ∷ ("sponsor_email", "")
    ∷ []
invitation_sponsor_vars env (some s) = sponsor_vars env (some s)

abbrev pub template_of : Option Workflow → String
template_of none = "sg_test_hacker_theme"
template_of (some w) = w.template_name

abbrev pub workflow_vars : Option Workflow → Vars
workflow_vars none = []
workflow_vars (some w) =
    put_given "__from_name" w.from_name
      (put_given "__from_email" w.from_email (vars_or_empty w.custom_vars))

unfoldable pub invitation : Env → Db → User → Event → Bool → Request
invitation env db u e force =
    let w = find (is_enabled_for "bulk_invite") db.workflows in
    record {
      user_id = u.id;
      template_name = template_of w;
      priority = 3;
      custom_vars = some (
          merge (workflow_vars w) (
            ("first_name", env.as_string u.first_name)
            ∷ ("last_name", env.as_string u.last_name)
            ∷ ("email", env.as_string u.email)
            ∷ ("confirmation_url", confirmation_url env)
            ∷ (env.event_vars e ++ invitation_sponsor_vars env (sponsor_of db u))));
      scheduled_for = none;
      force = force;
    }

unfoldable pub queue_invitation_email_for_user : Env → Db → User → Event → Bool → Db × Result Email
queue_invitation_email_for_user env db u e force =
    let db' = ensure_participation u.id e (change_user db u.id (invited env)) in
    let (q, queued) = enqueue_email (queue_db env db') env.now (invitation env db' u e force) in
    (after_queue db' q, queued)
