-- ===== src/Participant/Data.antt =====
-- The table of users (backend/app/models/user.py) as the participant service writes it, and the other
-- tables that it changes. Emails and user names are code points; the password is the decrypted one.
use Prim.Native.String
use cyberx_event_mgmt.Base.{
  ℕ, String, Option, none, some, Bool, List, map, find, update, ◌==◌, Text,
}
use cyberx_event_mgmt.Auth.Data as Auth
use cyberx_event_mgmt.Event.Data as Events
use cyberx_event_mgmt.EmailQueue.Data.{Vars}
use cyberx_event_mgmt.EmailQueue.Data as Queue
use cyberx_event_mgmt.EmailQueue.Batch.{Answer}
use cyberx_event_mgmt.Vpn.Data.{Credential}
use cyberx_event_mgmt.Workflow.Data.{Workflow, Triggered}
use cyberx_event_mgmt.Workflow.Data as Workflows
use cyberx_event_mgmt.Participant.Names.{Unicode}
use cyberx_event_mgmt.Participant.Phonetic.{Letters}

-- The timestamps of the reminders and of the other emails of an event.
pub record Mailed : Type 0 where
  pub invite_sent : Option ℕ
  pub invite_reminder_sent : Option ℕ
  pub last_invite_sent : Option ℕ
  pub reminder_1_sent_at : Option ℕ
  pub reminder_2_sent_at : Option ℕ
  pub reminder_3_sent_at : Option ℕ
  pub password_email_sent : Option ℕ
  pub survey_email_sent : Option ℕ

abbrev pub never_mailed : Mailed
never_mailed = record {
  invite_sent = none;
  invite_reminder_sent = none;
  last_invite_sent = none;
  reminder_1_sent_at = none;
  reminder_2_sent_at = none;
  reminder_3_sent_at = none;
  password_email_sent = none;
  survey_email_sent = none;
}

-- A row of `users`.
pub record User : Type 0 where
  pub id : ℕ
  pub email : Text
  pub email_normalized : Text
  pub first_name : Text
  pub last_name : Text
  pub country : String
  pub role : String
  pub role_obj : Option Auth.Role
  pub permission_overrides : Auth.Overrides
  pub sponsor_id : Option ℕ
  pub sponsor_email : Option String
  pub confirmed : String
  pub confirmed_at : Option ℕ
  pub decline_reason : Option String
  pub email_status : String
  pub email_status_timestamp : Option ℕ
  pub confirmation_code : Option String
  pub confirmation_sent_at : Option ℕ
  pub terms_accepted : Bool
  pub terms_accepted_at : Option ℕ
  pub terms_version : Option String
  pub pandas_username : Option Text
  pub pandas_password : Option Text
  pub password_phonetic : Option Text
  pub password_hash : Option String
  pub keycloak_synced : Bool
  pub discord_username : Option String
  pub mailed : Mailed
  pub is_admin : Bool
  pub is_active : Bool
  pub updated_at : ℕ

-- A row of `password_sync_queue`.
pub record SyncEntry : Type 0 where
  pub user_id : Option ℕ
  pub username : Text
  pub password : Option Text
  pub operation : String
  pub synced : Bool

-- The users of the queue's own table are not read: each call takes them from `users`.
pub record Db : Type 0 where
  pub users : List User
  pub next_id : ℕ
  pub sessions : List Auth.Session
  pub events : Events.Db
  pub credentials : List Credential
  pub workflows : List Workflow
  pub queue : Queue.Db
  pub audit : List Triggered
  pub sync : List SyncEntry

-- What the calls take from outside: the time, which is one for a call, and its last six digits, random
-- codes and passwords, the hash of a password, Python's `str` methods, the addresses of the settings, the
-- answers of the mail service to emails that are sent at once, and the texts of the event's
-- details, whose columns are left out.
pub record Env : Type 0 where
  pub now : ℕ
  pub clock : ℕ → ℕ
  pub code : String
  pub password : Text
  pub hash : Text → String
  pub letters : Letters
  pub unicode : Unicode
  pub timestamp : Text
  pub as_string : Text → String
  pub show : ℕ → String
  pub frontend_url : String
  pub support_email : String
  pub event_vars : Events.Event → Vars
  pub send : Option Auth.User → String → Vars → Answer

abbrev pub login_url : Env → String
login_url env = String.◌++◌ env.frontend_url "/login"

abbrev pub key_of : User → ℕ
key_of u = u.id

abbrev pub has_id : ℕ → User → Bool
has_id i u = u.id == i

unfoldable pub get_participant : Db → ℕ → Option User
get_participant db i = find (has_id i) db.users

abbrev pub change_user : Db → ℕ → (User → User) → Db
change_user db i f = record db { users = update (has_id i) f db.users }

abbrev pub text_of {ℓ κ} : {A : Type ℓ} {B : Type κ} → (A → B) → Option A → Option B
text_of f none = none
text_of f (some a) = some (f a)

-- A user, as the guards read it.
abbrev pub as_auth : Env → User → Auth.User
as_auth env u = record {
  id = u.id;
  email_normalized = env.as_string u.email_normalized;
  pandas_username = text_of env.as_string u.pandas_username;
  password_hash = u.password_hash;
  role = u.role;
  role_obj = u.role_obj;
  permission_overrides = u.permission_overrides;
  sponsor_id = u.sponsor_id;
  is_admin = u.is_admin;
  is_active = u.is_active;
}

-- A user, as the email queue reads it.
abbrev pub as_recipient : Env → User → Queue.User
as_recipient env u = record {
  id = u.id;
  email = env.as_string u.email;
  first_name = env.as_string u.first_name;
  last_name = env.as_string u.last_name;
}

abbrev pub auth_db : Env → Db → Auth.Db
auth_db env db = record { users = map (as_auth env) db.users; sessions = db.sessions }

abbrev pub queue_db : Env → Db → Queue.Db
queue_db env db = record db.queue { users = map (as_recipient env) db.users }

abbrev pub workflow_db : Env → Db → Workflows.Db
workflow_db env db = record {
  workflows = db.workflows;
  events = db.events;
  users = map (as_auth env) db.users;
  queue = queue_db env db;
  audit = db.audit;
}

-- A trigger writes to the emails of the queue and to the audit log.
abbrev pub after_trigger : Db → Workflows.Db → Db
after_trigger db w = record db {
  queue = record w.queue { users = db.queue.users };
  audit = w.audit;
}
