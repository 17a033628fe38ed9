-- ===== src/Participant/Create.antt =====
-- `create_participant` of backend/app/services/participant_service.py, without its log of blocked
-- invitations.
pub mod Route
pub mod Deferred
pub mod Welcome
pub mod Escalation
use cyberx_event_mgmt.Base.{
  ℕ, suc, String, Option, none, some, Bool, true, false, not, ◌&&◌, ◌||◌, List, [], ◌∷◌, ◌++◌,
  if◌then◌else◌, str_eq, is_some, find, strip, text_eq, Text, Result, ok, raised, integrity_error,
}
use cyberx_event_mgmt.Auth.Data as Auth
use cyberx_event_mgmt.Event.Data.{Event}
use cyberx_event_mgmt.Event.Service.{get_active_event}
use cyberx_event_mgmt.EmailQueue.Data.{Vars}
use cyberx_event_mgmt.EmailQueue.Enqueue.{Request, enqueue_email}
use cyberx_event_mgmt.Workflow.Trigger.{Trigger}
use cyberx_event_mgmt.Participant.Names.{sanitize_username, generate_username, normalize_email}
use cyberx_event_mgmt.Participant.Phonetic.{generate_phonetic_password}
use cyberx_event_mgmt.Participant.Data.{
  User, Db, Env, never_mailed, login_url, change_user, queue_db, after_trigger, text_of,
}
use cyberx_event_mgmt.Participant.Service.{is_given, shown, is_username}
use cyberx_event_mgmt.Participant.Confirm.{trigger}
use cyberx_event_mgmt.Participant.Invitation.{after_queue, invited}

-- The arguments; the role of `role_id` is that of the table.
pub record NewParticipant : Type 0 where
  pub email : Text
  pub first_name : Text
  pub last_name : Text
  pub country : String
  pub confirmed : String
  pub pandas_username : Option Text
  pub pandas_password : Option Text
  pub discord_username : Option String
  pub sponsor_email : Option String
  pub sponsor_id : Option ℕ
  pub role : String
  pub role_obj : Option Auth.Role
  pub is_admin : Bool

unfoldable pub should_generate_credentials : NewParticipant → Bool
should_generate_credentials a =
    str_eq a.confirmed "YES"
    || (is_some a.pandas_username
        || (is_some a.pandas_password || (str_eq a.role "admin" || str_eq a.role "sponsor")))

-- What is given, or what is generated in its place.
abbrev pub or_new : Option Text → Text → Option Text
or_new o new = if is_given o then o else some new

abbrev pub username_of : Env → Db → NewParticipant → Option Text
username_of env db a =
    if should_generate_credentials a
    then or_new a.pandas_username (
        generate_username (is_username db) (sanitize_username env.unicode a.first_name a.last_name)
          env.timestamp)
    else none

abbrev pub password_of : Env → NewParticipant → Option Text
password_of env a =
    if should_generate_credentials a then or_new a.pandas_password env.password else none

-- The legacy flag makes an administrator of an invitee.
unfoldable pub role_of : NewParticipant → String
role_of a = if a.is_admin && str_eq a.role "invitee" then "admin" else a.role

abbrev pub if_given {ℓ} : {A : Type ℓ} → (Text → A) → Option Text → Option A
if_given f o = if is_given o then text_of f o else none

unfoldable pub new_user : Env → Db → NewParticipant → User
unfolding should_generate_credentials
new_user env db a = record {
  id = db.next_id;
  email = strip a.email;
  email_normalized = normalize_email env.unicode.lower a.email;
  first_name = a.first_name;
  last_name = a.last_name;
  country = a.country;
  role = role_of a;
  role_obj = a.role_obj;
  permission_overrides = record { added = []; removed = [] };
  sponsor_id = a.sponsor_id;
  sponsor_email = a.sponsor_email;
  confirmed = a.confirmed;
  confirmed_at = none;
  decline_reason = none;
  email_status = "UNKNOWN";
  email_status_timestamp = none;
  confirmation_code = none;
  confirmation_sent_at = none;
  terms_accepted = false;
  terms_accepted_at = none;
  terms_version = none;
  pandas_username = username_of env db a;
  pandas_password = password_of env a;
  password_phonetic = if_given (generate_phonetic_password env.letters) (password_of env a);
  password_hash = if_given env.hash (password_of env a);
  keycloak_synced = false;
  discord_username = a.discord_username;
  mailed = never_mailed;
  is_admin = a.is_admin || str_eq (role_of a) "admin";
  is_active = true;
  updated_at = env.now;
}

abbrev pub is_blocked_status : String → Bool
is_blocked_status s = str_eq s "BOUNCED" || (str_eq s "SPAM_REPORTED" || str_eq s "UNSUBSCRIBED")

abbrev pub can_send_email : String → Bool
can_send_email email_status = not (is_blocked_status email_status)

abbrev pub has_credentials : User → Bool
has_credentials u = is_some u.pandas_username && is_some u.pandas_password

abbrev pub is_event_participant : User → Bool
is_event_participant u = str_eq u.role "invitee" || str_eq u.role "sponsor"

-- In test mode only sponsors are invited.
unfoldable pub should_send_invitation : User → Option Event → Bool
should_send_invitation u none = false
should_send_invitation u (some e) =
    if e.is_active
    then if e.test_mode then str_eq u.role "sponsor" else e.registration_open
    else false

abbrev pub credential_vars : Env → User → Vars
credential_vars env u =
    ("pandas_username", shown env u.pandas_username)
    ∷ ("pandas_password", shown env u.pandas_password)
    ∷ ("password_phonetic", shown env u.password_phonetic)
    ∷ ("login_url", login_url env)
    ∷ []

abbrev pub created_trigger : Env → User → Event → Trigger
created_trigger env u e = record {
  trigger_event = "user_created";
  user_id = u.id;
  custom_vars = some (
      ("event_name", env.as_string e.name)
      ∷ ("event_year", env.show e.year)
      ∷ ("role", u.role)
      ∷ credential_vars env u);
  force = false;
}

abbrev pub password_request : Env → User → Request
password_request env u = record {
  user_id = u.id;
  template_name = "password";
  priority = 3;
  custom_vars = some (
      ("first_name", env.as_string u.first_name)
      ∷ ("last_name", env.as_string u.last_name)
      ∷ ("email", env.as_string u.email)
      ∷ credential_vars env u);
  scheduled_for = none;
  force = false;
}

-- An email or a trigger that fails is logged, and the call goes on.
send_password : Env → User → Db → Db
send_password env u db =
    after_queue db (enqueue_email (queue_db env db) env.now (password_request env u)).0

unfoldable pub send_invitation : Env → User → Option Event → Db → Db
send_invitation env u none db = db
send_invitation env u (some e) db =
    if str_eq u.confirmed "YES" && has_credentials u
    then after_trigger db (trigger env db (created_trigger env u e)).0
    else change_user db u.id (invited env)

abbrev pub is_active_event : Option Event → Bool
is_active_event none = false
is_active_event (some e) = e.is_active

unfoldable pub without_invitation : Env → User → Option Event → Db → Db
unfolding send_password
without_invitation env u event db =
    if (str_eq u.confirmed "YES" && can_send_email u.email_status)
      && ((not (str_eq u.role "invitee") || is_active_event event) && has_credentials u)
    then send_password env u db
    else db

-- Administrators are no participants of events.
unfoldable pub for_staff : Env → User → Option Event → Db → Db
unfolding send_password
for_staff env u event db =
    if (str_eq u.confirmed "YES" && can_send_email u.email_status)
      && (if str_eq u.role "invitee" then is_active_event event else true)
    then send_password env u db
    else db

unfoldable pub notify : Env → User → Option Event → Db → Db
notify env u event db =
    if is_event_participant u
    then if should_send_invitation u event
      then send_invitation env u event db
      else without_invitation env u event db
    else for_staff env u event db

abbrev pub is_email_normalized : Text → User → Bool
is_email_normalized t u = text_eq u.email_normalized t

-- Emails and user names are unique.
abbrev pub is_taken : Db → User → Bool
is_taken db u =
    is_some (find (is_email_normalized u.email_normalized) db.users) || taken_name u.pandas_username
  where
    taken_name : Option Text → Bool
    taken_name none = false
    taken_name (some name) = is_username db name

abbrev pub add_user : User → Db → Db
add_user u db = record db { users = db.users ++ u ∷ []; next_id = suc db.next_id }

unfoldable pub create_participant : Env → Db → NewParticipant → Db × Result ℕ
create_participant env db a =
    let u = new_user env db a in
    if is_taken db u
    then (db, raised integrity_error)
    else (notify env u (get_active_event db.events) (add_user u db), ok u.id)
