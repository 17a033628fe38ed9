-- ===== src/Participant/Service.antt =====
-- The smaller operations of `ParticipantService`.
use cyberx_event_mgmt.Base.{
  ℕ, suc, String, Option, none, some, Bool, true, false, not, ◌&&◌, ◌||◌, List, [], ◌∷◌, ◌++◌,
  if◌then◌else◌, ◌==◌, str_eq, is_some, find, update, text_eq, is_nil, Text,
}
use cyberx_event_mgmt.Participant.Data.{User, SyncEntry, Db, Env, get_participant, change_user}
use cyberx_event_mgmt.Event.Data.{Event, Participation}
use cyberx_event_mgmt.Participant.Names.{normalize_email}
use cyberx_event_mgmt.Participant.Phonetic.{generate_phonetic_password}

abbrev pub is_given : Option Text → Bool
is_given none = false
is_given (some t) = not (is_nil t)

-- What a formatted text shows of an optional text.
abbrev pub shown : Env → Option Text → String
shown env none = "None"
shown env (some t) = env.as_string t

abbrev pub is_text : Text → Option Text → Bool
is_text t none = false
is_text t (some s) = text_eq s t

abbrev pub is_string : String → Option String → Bool
is_string t none = false
is_string t (some s) = str_eq s t

abbrev pub is_username : Db → Text → Bool
is_username db name = is_some (find (λ u. is_text name u.pandas_username) db.users)

-- The participation of a user in an event is unique.
abbrev pub is_participation : ℕ → ℕ → Participation → Bool
is_participation user_id event_id p = (p.user_id == user_id) && (p.event_id == event_id)

abbrev pub set_status : ℕ → Option Event → String → Db → Db
set_status user_id none status db = db
set_status user_id (some e) status db = record db {
  events = record db.events {
    participations =
        update (is_participation user_id e.id) (λ p. record p { status = status })
          db.events.participations;
  };
}

abbrev pub may_sponsor : User → Bool
may_sponsor u = str_eq u.role "admin" || str_eq u.role "sponsor"

unfoldable pub get_sponsor : Db → ℕ → Option User
get_sponsor db i = find (λ u. (u.id == i) && may_sponsor u) db.users

-- The normalized email is unique.
unfoldable pub get_participant_by_email : Env → Db → Text → Option User
get_participant_by_email env db email =
    find (λ u. text_eq u.email_normalized (normalize_email env.unicode.lower email)) db.users

-- The counters of a bulk call.
abbrev pub Counted : Type 0
Counted = ℕ × List ℕ

module _ (f : User → User) where
  one_found : ℕ → Db × Counted → Option User → Db × Counted
  one_found i (db, (n, failed)) none = (db, (n, failed ++ i ∷ []))
  one_found i (db, (n, failed)) (some u) = (change_user db i f, (suc n, failed))

  unfoldable pub change_each : List ℕ → Db × Counted → Db × Counted
  unfolding one_found
  change_each [] s = s
  change_each (i ∷ ids) s = change_each ids (one_found i s (get_participant s.0 i))

abbrev pub set_active : Bool → User → User
set_active b u = record u { is_active = b }

unfoldable pub bulk_activate : Db → List ℕ → Db × Counted
bulk_activate db ids = change_each (set_active true) ids (db, (0, []))

unfoldable pub bulk_deactivate : Db → List ℕ → Db × Counted
bulk_deactivate db ids = change_each (set_active false) ids (db, (0, []))

abbrev pub changed : Db → ℕ → (User → User) → Option User → Db × Option User
changed db i f none = (db, none)
changed db i f (some u) = (change_user db i f, some (f u))

unfoldable pub assign_sponsor : Env → Db → ℕ → ℕ → Db × Option User
assign_sponsor env db i sponsor_id =
    if is_some (get_sponsor db sponsor_id)
    then changed db i (λ u. record u { sponsor_id = some sponsor_id; updated_at = env.now })
        (get_participant db i)
    else (db, none)

unfoldable pub update_role : Env → Db → ℕ → String → Db × Option User
update_role env db i new_role =
    changed db i
      (λ u. record u { role = new_role; is_admin = str_eq new_role "admin"; updated_at = env.now })
      (get_participant db i)

-- The new password of a user, with its hash and its spelling.
abbrev pub with_password : Env → Text → User → User
with_password env password u = record u {
  pandas_password = some password;
  password_hash = some (env.hash password);
  password_phonetic = some (generate_phonetic_password env.letters password);
}

abbrev pub add_sync : ℕ → Text → Option Text → String → List SyncEntry → List SyncEntry
add_sync i username password operation sync =
    sync
    ++ record {
      user_id = some i;
      username = username;
      password = password;
      operation = operation;
      synced = false;
    }
      ∷ []

-- An entry of the sync queue, for a user with a name.
unfoldable pub queue_sync : ℕ → Option Text → Option Text → String → List SyncEntry → List SyncEntry
queue_sync i none password operation sync = sync
queue_sync i (some username) password operation sync =
    if is_nil username then sync else add_sync i username password operation sync

-- `new_password or generated`.
abbrev pub or_generated : Option Text → Text → Text
or_generated none password = password
or_generated (some given) password = if is_nil given then password else given

reset_found : Env → Db → ℕ → Text → Option User → Db × (Bool × Text)
reset_found env db i password none = (db, (false, []))
reset_found env db i password (some u) = (
  record (change_user db i (λ x. record (with_password env password x) {
    keycloak_synced = false;
    updated_at = env.now;
  })) { sync = queue_sync i u.pandas_username (some password) "update_password" db.sync },
  (true, password),
)

unfoldable pub reset_password : Env → Db → ℕ → Option Text → Db × (Bool × Text)
unfolding reset_found
reset_password env db i new_password =
    reset_found env db i (or_generated new_password env.password) (get_participant db i)
