-- ===== src/Participant/Reset.antt =====
-- `reset_workflow_state` and `bulk_reset_workflow_state` of backend/app/services/participant_service.py.
-- The audit entry of the routes commits what a failed invitation has written.
pub mod Rows
pub mod Single
pub mod Reopened
use cyberx_event_mgmt.Base.{
  ℕ, suc, String, Option, none, some, Bool, true, false, not, ◌&&◌, ◌||◌, List, [], ◌∷◌, map,
  length, if◌then◌else◌, ◌==◌, str_eq, contains, is_nil, select, update, delete,
}
use cyberx_event_mgmt.Event.Data.{Event}
use cyberx_event_mgmt.Event.Service.{get_active_event}
use cyberx_event_mgmt.Participant.Data.{
  User, Db, Env, never_mailed, key_of, has_id, get_participant, change_user,
}
use cyberx_event_mgmt.Participant.Invitation.{queue_invitation_email_for_user}

-- The credentials of an invitee are cleared on request; the user name stays.
abbrev pub cleared : Bool → User → User
cleared reset_credentials u =
    if reset_credentials && str_eq u.role "invitee"
    then record u { pandas_password = none; password_hash = none; password_phonetic = none }
    else u

-- A row with a new code and no trace of an invitation.
unfoldable pub reset_row : ℕ → String → Bool → User → User
reset_row now code reset_credentials u = record (cleared reset_credentials u) {
  confirmation_code = some code;
  confirmation_sent_at = none;
  confirmed = "UNKNOWN";
  confirmed_at = none;
  decline_reason = none;
  terms_accepted = false;
  terms_accepted_at = none;
  terms_version = none;
  mailed = never_mailed;
  updated_at = now;
}

-- The participations of the current event.
unfoldable pub remove_participations : Bool → List ℕ → Option Event → Db → Db
remove_participations reset_event_participation ids none db = db
remove_participations reset_event_participation ids (some e) db =
    if reset_event_participation
    then record db {
      events = record db.events {
        participations =
            delete (λ p. contains ids p.user_id && (p.event_id == e.id)) db.events.participations;
      };
    }
    else db

abbrev pub is_open : Option Event → Bool
is_open none = false
is_open (some e) = e.is_active && e.registration_open

unfoldable pub invite : Env → Db → User → Option Event → Db
invite env db u none = db
invite env db u (some e) =
    if is_open (some e) then (queue_invitation_email_for_user env db u e true).0 else db

reset_found : Env → Db → String → ℕ → Bool → Bool → Option User → Db × Option User
unfolding invite
reset_found env db code i reset_event_participation reset_credentials none = (db, none)
reset_found env db code i reset_event_participation reset_credentials (some u) =
    let event = get_active_event db.events in
    let db' =
      remove_participations reset_event_participation (i ∷ []) event
        (change_user db i (reset_row env.now code reset_credentials)) in
    let after = invite env db' (reset_row env.now code reset_credentials u) event in
    (after, get_participant after i)

-- `code` is the first random code that a reset draws.
unfoldable pub reset_workflow_state : Env → Db → String → ℕ → Bool → Bool → Db × Option User
unfolding reset_found
reset_workflow_state env db code i reset_event_participation reset_credentials =
    reset_found env db code i reset_event_participation reset_credentials (get_participant db i)

unfoldable pub has_role : List String → String → Bool
has_role [] role = false
has_role (r ∷ roles) role = str_eq r role || has_role roles role

abbrev pub allowed_roles : Option (List String) → List String
allowed_roles none = "invitee" ∷ "sponsor" ∷ []
allowed_roles (some roles) = select (λ r. not (str_eq r "admin")) roles

-- No ids, or an empty list of them, is no condition.
abbrev pub is_chosen : Option (List ℕ) → ℕ → Bool
is_chosen none i = true
is_chosen (some ids) i = is_nil ids || contains ids i

unfoldable pub is_eligible : Option (List String) → Option (List ℕ) → User → Bool
is_eligible roles user_ids u =
    (has_role (allowed_roles roles) u.role && u.is_active) && is_chosen user_ids u.id

-- `breakdown[role] = breakdown.get(role, 0) + 1`.
unfoldable pub count_role : String → List (String × ℕ) → List (String × ℕ)
count_role role [] = (role, 1) ∷ []
count_role role ((r, n) ∷ rest) =
    let later = count_role role rest in if str_eq r role then (r, suc n) ∷ rest else (r, n) ∷ later

unfoldable pub breakdown_of : List User → List (String × ℕ) → List (String × ℕ)
breakdown_of [] breakdown = breakdown
breakdown_of (u ∷ users) breakdown = breakdown_of users (count_role u.role breakdown)

pub record BulkReset : Type 0 where
  pub affected_count : ℕ
  pub affected_ids : List ℕ
  pub breakdown : List (String × ℕ)

-- `code_for` gives the random code that is drawn for a user.
unfoldable pub bulk_reset_workflow_state :
    Env → (ℕ → String) → Db → Bool → Bool → Option (List String) → Option (List ℕ) → Db × BulkReset
bulk_reset_workflow_state env code_for db reset_event_participation reset_credentials roles
      user_ids =
    let users = select (is_eligible roles user_ids) db.users in
    let ids = map key_of users in
    (
      remove_participations reset_event_participation ids (get_active_event db.events) (record db {
        users =
            update (is_eligible roles user_ids)
              (λ u. reset_row env.now (code_for u.id) reset_credentials u) db.users;
      }),
      record { affected_count = length ids; affected_ids = ids; breakdown = breakdown_of users [] },
    )
