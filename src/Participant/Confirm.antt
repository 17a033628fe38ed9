-- ===== src/Participant/Confirm.antt =====
-- `confirm_participation` and `decline_participation` of backend/app/api/routes/public.py, without the
-- Discord invite, the audit entries of the two calls, and the timestamps of participations.
pub mod Accepted
pub mod Lost
use cyberx_event_mgmt.Base.{
  ℕ, String, Option, none, some, Bool, true, false, not, ◌&&◌, ◌||◌, List, [], ◌∷◌, ◌++◌,
  if◌then◌else◌, ◌==◌, str_eq, is_some, find, strip, Text, Result, ok, raised, http_exception,
}
use cyberx_event_mgmt.Event.Data.{Event}
use cyberx_event_mgmt.Event.Service.{get_active_event}
use cyberx_event_mgmt.EmailQueue.Data.{Vars}
use cyberx_event_mgmt.Workflow.Data as Workflows
use cyberx_event_mgmt.Workflow.Trigger.{Trigger, trigger_workflow}
use cyberx_event_mgmt.Participant.Names.{Unicode, sanitize_username, generate_username_public}
use cyberx_event_mgmt.Participant.Data.{
  User, SyncEntry, Db, Env, login_url, has_id, change_user, workflow_db, after_trigger,
}
use cyberx_event_mgmt.Participant.Service.{
  with_password, add_sync, is_given, shown, is_string, is_username, set_status,
}

abbrev pub has_code : String → User → Bool
has_code code u = is_string code u.confirmation_code

-- The body of `POST /confirm/accept`.
pub record Acceptance : Type 0 where
  pub confirmation_code : String
  pub terms_accepted : Bool
  pub terms_version : Option String

-- Invitees always get a new password, the others if they have none.
abbrev pub should_generate_password : User → Bool
should_generate_password u = str_eq u.role "invitee" || not (is_given u.pandas_password)

abbrev pub username_for : Env → Db → User → Text
username_for env db u =
    generate_username_public (is_username db)
      (sanitize_username env.unicode u.first_name u.last_name) env.timestamp

abbrev pub named : Env → Db → User → User
named env db u =
    if is_given u.pandas_username
    then u
    else record u { pandas_username = some (username_for env db u) }

abbrev pub confirm : Env → Option String → User → User
confirm env terms_version u = record u {
  confirmed = "YES";
  confirmed_at = some env.now;
  terms_accepted = true;
  terms_accepted_at = some env.now;
  terms_version = terms_version;
}

abbrev pub credentialed : Env → User → User
credentialed env u =
    if should_generate_password u
    then record (with_password env env.password u) { keycloak_synced = false }
    else u

-- The row after the confirmation.
unfoldable pub confirmed_user : Env → Db → Option String → User → User
confirmed_user env db terms_version u =
    credentialed env (named env db (confirm env terms_version u))

abbrev pub should_sync : User → User → Bool
should_sync u after =
    should_generate_password u
    || ((not u.keycloak_synced && is_given after.pandas_username) && is_given after.pandas_password)

abbrev pub username_of : Option Text → Text
username_of none = []
username_of (some name) = name

-- What the confirmation commits.
unfoldable pub commit_confirmation : Env → Db → Option String → User → Db
commit_confirmation env db terms_version u =
    let after = confirmed_user env db terms_version u in
    record (set_status u.id (get_active_event db.events) "confirmed"
      (change_user db u.id (λ x. after))) {
        sync =
            if should_sync u after
            then add_sync u.id (username_of after.pandas_username) after.pandas_password
                "create_user" db.sync
            else db.sync;
      }

abbrev pub event_name : Env → String → Option Event → String
event_name env default none = default
event_name env default (some e) = env.as_string e.name

abbrev pub confirmed_trigger : Env → Db → User → Trigger
confirmed_trigger env db after = record {
  trigger_event = "user_confirmed";
  user_id = after.id;
  custom_vars = some (
      ("login_url", login_url env)
      ∷ ("event_name", event_name env "CyberX 2026" (get_active_event db.events))
      ∷ ("pandas_username", shown env after.pandas_username)
      ∷ ("pandas_password", shown env after.pandas_password)
      ∷ ("password_phonetic", shown env after.password_phonetic)
      ∷ []);
  force = true;
}

-- A trigger whose exception the call passes on.
abbrev pub passed_on {ℓ} : {A : Type ℓ} → Db → A → Workflows.Db × Result ℕ → Db × Result A
passed_on db a (w, ok n) = (after_trigger db w, ok a)
passed_on db a (w, raised e) = (after_trigger db w, raised e)

unfoldable pub trigger : Env → Db → Trigger → Workflows.Db × Result ℕ
trigger env db t = trigger_workflow env.send env.clock t (workflow_db env db)

accept_user : Env → Db → Option String → User → Db × Result (Unit {0})
accept_user env db terms_version u =
    if str_eq u.confirmed "YES"
    then (db, raised (http_exception 409 "Already confirmed"))
    else let db' = commit_confirmation env db terms_version u in
      let after = confirmed_user env db terms_version u in
      if should_generate_password u
      then passed_on db' tt (trigger env db' (confirmed_trigger env db after))
      else (db', ok tt)

accept_found : Env → Db → Option String → Option User → Db × Result (Unit {0})
unfolding accept_user
accept_found env db terms_version none =
    (db, raised (http_exception 404 "Invalid confirmation code not found"))
accept_found env db terms_version (some u) = accept_user env db terms_version u

-- `POST /confirm/accept`. The code is unique.
unfoldable pub confirm_participation : Env → Db → Acceptance → Db × Result (Unit {0})
unfolding accept_found
confirm_participation env db a =
    if str_eq a.confirmation_code "" || not a.terms_accepted
    then (db, raised (http_exception 400 "Confirmation code and terms required"))
    else accept_found env db a.terms_version (find (has_code a.confirmation_code) db.users)

-- A reason that is not empty.
abbrev pub given_reason : String → Option String
given_reason reason = if str_eq reason "" then none else some reason

abbrev pub decline : Env → String → User → User
decline env reason u = record u {
  confirmed = "NO";
  confirmed_at = some env.now;
  decline_reason = given_reason reason;
}

abbrev pub initial_of : Text → Text
initial_of [] = []
initial_of (c ∷ t) = c ∷ b'.' ∷ []

abbrev pub sponsor_vars : Env → Option User → Vars
sponsor_vars env none = []
sponsor_vars env (some s) =
    ("sponsor_first_name", env.as_string s.first_name)
    ∷ ("sponsor_last_name", env.as_string s.last_name)
    ∷ ("sponsor_last_initial", env.as_string (initial_of s.last_name))
    ∷ ("sponsor_name", env.as_string (strip (s.first_name ++ b' ' ∷ s.last_name)))
    ∷ ("sponsor_email", env.as_string s.email)
    ∷ []

abbrev pub sponsor_of : Db → User → Option User
sponsor_of db u = found u.sponsor_id
  where
    found : Option ℕ → Option User
    found none = none
    found (some i) = find (has_id i) db.users

abbrev pub declined_trigger : Env → Db → String → User → Trigger
declined_trigger env db reason u = record {
  trigger_event = "user_declined";
  user_id = u.id;
  custom_vars = some (
      ("event_name", event_name env "CyberX Event" (get_active_event db.events))
      ∷ ("decline_reason", if str_eq reason "" then "No reason provided" else reason)
      ∷ sponsor_vars env (sponsor_of db u));
  force = false;
}

decline_user : Env → Db → String → User → Db × Result (Unit {0})
decline_user env db reason u =
    if str_eq u.confirmed "NO"
    then (db, raised (http_exception 409 "Already declined"))
    else let db' =
        set_status u.id (get_active_event db.events) "declined"
          (change_user db u.id (decline env reason)) in
      passed_on db' tt (trigger env db' (declined_trigger env db' reason u))

decline_found : Env → Db → String → Option User → Db × Result (Unit {0})
unfolding decline_user
decline_found env db reason none =
    (db, raised (http_exception 404 "Invalid confirmation code not found"))
decline_found env db reason (some u) = decline_user env db reason u

-- `POST /confirm/decline`.
unfoldable pub decline_participation : Env → Db → String → String → Db × Result (Unit {0})
unfolding decline_found
decline_participation env db code reason =
    if str_eq code ""
    then (db, raised (http_exception 400 "Confirmation code required"))
    else decline_found env db reason (find (has_code code) db.users)
