-- ===== src/Participant/Create/Welcome.antt =====
-- The rest of `POST /participants`: the welcome email of administrators and sponsors, and the invitation.
use cyberx_event_mgmt.Base.{
  ℕ, String, Option, none, some, Bool, true, false, ◌&&◌, ◌||◌, List, [], ◌∷◌, ◌++◌, if◌then◌else◌,
  str_eq, find, Text, Result, ok, raised, http_exception,
}
use cyberx_event_mgmt.Auth.Data as Auth
use cyberx_event_mgmt.Auth.Guards.{permission_checker}
use cyberx_event_mgmt.Event.Data.{Event, Participation}
use cyberx_event_mgmt.Event.Service.{get_active_event}
use cyberx_event_mgmt.EmailQueue.Data.{Email}
use cyberx_event_mgmt.Workflow.Trigger.{Trigger}
use cyberx_event_mgmt.Participant.Data.{User, Db, Env, login_url, get_participant, as_auth}
use cyberx_event_mgmt.Participant.Service.{is_given, is_participation, get_participant_by_email}
use cyberx_event_mgmt.Participant.Confirm.{trigger, passed_on}
use cyberx_event_mgmt.Participant.Invitation.{queue_invitation_email_for_user}
use cyberx_event_mgmt.Participant.Create.{create_participant}
use cyberx_event_mgmt.Participant.Create.Route.{
  RoleRow, ParticipantCreate, Caller, already_exists, target_role, check_caller, new_participant,
  role_vars,
}

abbrev pub or_empty : Env → Option Text → String
or_empty env none = ""
or_empty env (some t) = env.as_string t

abbrev pub welcome_trigger : Env → User → Trigger
welcome_trigger env u = record {
  trigger_event = if str_eq u.role "admin" then "admin_created" else "sponsor_created";
  user_id = u.id;
  custom_vars = some (
      ("first_name", env.as_string u.first_name)
      ∷ ("last_name", env.as_string u.last_name)
      ∷ (role_vars u.role
          ++ ("email", env.as_string u.email)
            ∷ ("password", or_empty env u.pandas_password)
            ∷ ("password_phonetic", or_empty env u.password_phonetic)
            ∷ ("login_url", login_url env)
            ∷ ("support_email", env.support_email)
            ∷ []));
  force = false;
}

unfoldable pub welcome : Env → User → Db → Db × Result (Unit {0})
welcome env u db =
    if (str_eq u.role "admin" || str_eq u.role "sponsor") && is_given u.pandas_password
    then passed_on db tt (trigger env db (welcome_trigger env u))
    else (db, ok tt)

-- No participation in the event, or no answer yet.
abbrev pub is_unanswered : Option Participation → Bool
is_unanswered none = true
is_unanswered (some p) = str_eq p.status "invited" || str_eq p.status "no_response"

unfoldable pub should_invite : Db → User → Option Event → Bool
should_invite db u none = false
should_invite db u (some e) =
    ((str_eq u.role "invitee" || str_eq u.role "sponsor")
      && is_unanswered (find (is_participation u.id e.id) db.events.participations))
    && (if e.test_mode then str_eq u.role "sponsor" else e.registration_open)

queued : Db × Result Email → Db × Result (Unit {0})
queued (db, ok e) = (db, ok tt)
queued (db, raised e) = (db, raised e)

unfoldable pub invite_created : Env → User → Option Event → Db → Db × Result (Unit {0})
unfolding queued
invite_created env u none db = (db, ok tt)
invite_created env u (some e) db =
    if should_invite db u (some e)
    then queued (queue_invitation_email_for_user env db u e false)
    else (db, ok tt)

unfoldable pub then_invite : Env → User → Db × Result (Unit {0}) → Db × Result (Unit {0})
then_invite env u (db, raised e) = (db, raised e)
then_invite env u (db, ok done) = invite_created env u (get_active_event db.events) db

reloaded : Env → Db → Option User → Db × Result (Unit {0})
reloaded env db none = (db, ok tt)
reloaded env db (some u) = then_invite env u (welcome env u db)

unfoldable pub after_created : Env → Db × Result ℕ → Db × Result (Unit {0})
unfolding reloaded
after_created env (db, raised e) = (db, raised e)
after_created env (db, ok i) = reloaded env db (get_participant db i)

created_by :
    Env
    → Db
    → Caller
    → ParticipantCreate
    → String
    → Option RoleRow
    → Result (Unit {0})
    → Db × Result (Unit {0})
unfolding after_created
created_by env db c data_ role_value target (raised e) = (db, raised e)
created_by env db c data_ role_value target (ok passed) =
    after_created env (create_participant env db (new_participant env c data_ role_value target))

with_role :
    Env
    → Db
    → Caller
    → ParticipantCreate
    → Result (String × Option RoleRow)
    → Db × Result (Unit {0})
unfolding created_by
with_role env db c data_ (raised e) = (db, raised e)
with_role env db c data_ (ok (role_value, target)) =
    created_by env db c data_ role_value target (check_caller env c role_value target)

create_new :
    Env → List RoleRow → Db → Caller → ParticipantCreate → Option User → Db × Result (Unit {0})
unfolding with_role
create_new env roles db c data_ (some u) =
    (db, raised (http_exception 409 (already_exists env db data_.email u)))
create_new env roles db c data_ none = with_role env db c data_ (target_role env roles data_)

checked :
    Env → List RoleRow → Db → Caller → ParticipantCreate → Result Auth.User → Db × Result (Unit {0})
unfolding create_new
checked env roles db c data_ (raised e) = (db, raised e)
checked env roles db c data_ (ok u) =
    create_new env roles db c data_ (get_participant_by_email env db data_.email)

-- The route, for a caller whom the session gives.
unfoldable pub admin_create_participant :
    (String → String)
    → Env
    → List RoleRow
    → Db
    → Caller
    → ParticipantCreate
    → Db × Result (Unit {0})
unfolding checked
admin_create_participant lower env roles db c data_ =
    checked env roles db c data_
      (permission_checker lower ("participants.create" ∷ []) (as_auth env c.user))
