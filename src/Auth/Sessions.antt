-- ===== src/Auth/Sessions.antt =====
-- `AuthService`. The password check, the email normalization and the random session token are
-- parameters.
pub mod Validity
pub mod Logout
use cyberx_event_mgmt.Base.{
  ℕ, suc, ◌+◌, ◌*◌, String, Option, none, some, Bool, true, false, not, ◌&&◌, ◌||◌, List, [], ◌∷◌,
  ◌++◌, if◌then◌else◌, is_some, ltb, ◌==◌, str_eq, seconds, select, count, find, update, delete,
  length, Result, ok, raised, integrity_error, scalar_one_or_none,
}
use cyberx_event_mgmt.Auth.Data.{User, Session, Db, has_token, has_user_id}

abbrev pub is_named : String → Option String → Bool
is_named username none = false
is_named username (some name) = str_eq name username

module _ (verify : String → String → Bool) where
  -- The guards of a user that was found.
  check_password : String → User → Option String → Option User
  check_password password u none = none
  check_password password u (some h) =
      if str_eq h "" then none else if verify password h then some u else none

  authenticate : String → Option User → Option User
  unfolding check_password
  authenticate password none = none
  authenticate password (some u) =
      if u.is_active then check_password password u u.password_hash else none

  or_raise : String → Result (Option User) → Result (Option User)
  unfolding authenticate
  or_raise password (raised e) = raised e
  or_raise password (ok found) = ok (authenticate password found)

  unfoldable pub authenticate_user : (String → String) → Db → String → String → Result (Option User)
  unfolding or_raise
  authenticate_user normalize db username password = or_raise password (
      scalar_one_or_none (
        select
          (λ u.
            str_eq u.email_normalized (normalize username) || is_named username u.pandas_username)
          db.users))

abbrev pub new_session : ℕ → ℕ → String → ℕ → Option String → Option String → Session
new_session now expiry_hours token user_id ip_address user_agent = record {
  session_token = token;
  user_id = user_id;
  expires_at = now + seconds (3600 * expiry_hours);
  ip_address = ip_address;
  user_agent = user_agent;
  is_active = true;
}

-- The token column is unique, so a token that is taken fails the commit.
unfoldable pub create_session :
    Db → ℕ → ℕ → String → ℕ → Option String → Option String → Db × Result (String × ℕ)
create_session db now expiry_hours token user_id ip_address user_agent =
    let s = new_session now expiry_hours token user_id ip_address user_agent in
    if is_some (find (has_token token) db.sessions)
    then (db, raised integrity_error)
    else (record db { sessions = db.sessions ++ s ∷ [] }, ok (token, s.expires_at))

abbrev pub deactivate : Session → Session
deactivate s = record s { is_active = false }

active_user : Option User → Option User
active_user none = none
active_user (some u) = if u.is_active then some u else none

validate : Db → ℕ → String → Option Session → Db × Option User
unfolding active_user
validate db now token none = (db, none)
validate db now token (some s) =
    if ltb s.expires_at now
    then (record db { sessions = update (has_token token) deactivate db.sessions }, none)
    else (db, active_user (find (has_user_id s.user_id) db.users))

abbrev pub is_live : String → Session → Bool
is_live token s = has_token token s && s.is_active

unfoldable pub validate_session : Db → ℕ → String → Db × Option User
unfolding validate
validate_session db now token = validate db now token (find (is_live token) db.sessions)

unfoldable pub invalidate_session : Db → String → Db × Bool
invalidate_session db token =
    if is_some (find (has_token token) db.sessions)
    then (record db { sessions = update (has_token token) deactivate db.sessions }, true)
    else (db, false)

abbrev pub is_live_of : ℕ → Session → Bool
is_live_of user_id s = s.user_id == user_id && s.is_active

unfoldable pub invalidate_all_user_sessions : Db → ℕ → Db × ℕ
invalidate_all_user_sessions db user_id = (
  record db { sessions = update (is_live_of user_id) deactivate db.sessions },
  count (is_live_of user_id) db.sessions,
)

abbrev pub is_over : ℕ → Session → Bool
is_over now s = ltb s.expires_at now

unfoldable pub cleanup_expired_sessions : Db → ℕ → Db × ℕ
cleanup_expired_sessions db now =
    (record db { sessions = delete (is_over now) db.sessions }, count (is_over now) db.sessions)

-- `session_cleanup_job`, which also drops the sessions that were invalidated.
unfoldable pub session_cleanup_job : Db → ℕ → Db
session_cleanup_job db now = record db {
  sessions = delete (λ s. is_over now s || not s.is_active) db.sessions;
}
