-- ===== src/Auth/Sessions/Validity.antt =====
-- Which session tokens are accepted.
use cyberx_event_mgmt.Base.{
  ℕ, ◌+◌, ◌*◌, ◌≤◌, String, Option, none, some, true, List, [], ◌∷◌, ◌++◌, ◌≡◌, refl, ◌∙◌, arith,
  ◌↔◌, inl, inr, Option-cases, Bool-cases, seconds, find, find-append_none, ltb, ok, eq_refl,
}
use cyberx_event_mgmt.Auth.Data.{User, Session, Db, has_token, has_user_id}
use cyberx_event_mgmt.Auth.Sessions.{
  new_session, create_session, is_live, active_user, validate_session,
}

-- The token is that of an active session whose time has not passed, of a stored active user.
pub record Accepts (db : Db) (now : ℕ) (token : String) (u : User) : Type 0 where
  pub session : Session
  pub live : find (is_live token) db.sessions ≡ some session
  pub in_time : now ≤ session.expires_at
  pub holder : find (has_user_id session.user_id) db.users ≡ some u
  pub enabled : u.is_active ≡ true

active_user-some :
    (found : Option User) {u : User}
    → active_user found ≡ some u
    → (found ≡ some u) × (u.is_active ≡ true)
unfolding active_user
active_user-some none h = cc
active_user-some (some v) {u} h = ground arith

validate_session-Accepts :
    (db : Db) (now : ℕ) (token : String) (u : User)
    → (validate_session db now token).1 ≡ some u
    → Accepts db now token u
unfolding validate_session
validate_session-Accepts db now token u e = elim (Option-cases (find (is_live token) db.sessions)) [
  | inl missing ↦ absurd (ground (arith, e, missing))
  | inr (s, live) ↦ elim (Bool-cases (ltb s.expires_at now)) [
    | inl over ↦ absurd (ground (arith, e, live, over))
    | inr in_time ↦
        let (holder, enabled) =
          active_user-some (find (has_user_id s.user_id) db.users) {u = u}
            (ground (arith, e, live, in_time)) in
        record {
          session = s;
          live = live;
          in_time = ground (arith, in_time);
          holder = holder;
          enabled = enabled;
        }
  ]
]

Accepts-validate_session :
    (db : Db) (now : ℕ) (token : String) (u : User)
    → Accepts db now token u
    → (validate_session db now token).1 ≡ some u
unfolding validate_session active_user
Accepts-validate_session db now token u a = ground (arith, a.live, a.in_time, a.holder, a.enabled)

-- A token is answered with a user exactly when it is that of an active session that has not
-- expired, of that user, who is stored and active.
pub validate_session_iff :
    (db : Db) (now : ℕ) (token : String) (u : User)
    → ((validate_session db now token).1 ≡ some u) ↔ Accepts db now token u
validate_session_iff db now token u =
    (validate_session-Accepts db now token u, Accepts-validate_session db now token u)

unused_token :
    (token : String) (sessions : List Session)
    → find (has_token token) sessions ≡ none
    → find (is_live token) sessions ≡ none
unfolding find
unused_token token [] h = refl
unused_token token (s ∷ sessions) h = ground (arith, unused_token token sessions)

-- A session that is created with an unused token for an active user validates as that user until
-- the expiry hours have passed.
pub create_session-validate_session :
    (db : Db) (now later hours : ℕ) (token : String) (u : User) (ip agent : Option String)
    → find (has_token token) db.sessions ≡ none
    → find (has_user_id u.id) db.users ≡ some u
    → u.is_active ≡ true
    → later ≤ now + seconds (3600 * hours)
    → ((create_session db now hours token u.id ip agent).1
        ≡ ok (token, now + seconds (3600 * hours)))
      × ((validate_session (create_session db now hours token u.id ip agent).0 later token).1
          ≡ some u)
unfolding create_session find
create_session-validate_session db now later hours token u ip agent fresh holder enabled in_time =
    let s = new_session now hours token u.id ip agent in
    rw fresh (
      refl,
      Accepts-validate_session (record db { sessions = db.sessions ++ s ∷ [] }) later token u
          (record {
            session = s;
            live =
                find-append_none (is_live token) db.sessions (s ∷ [])
                  (unused_token token db.sessions fresh)
                ∙ last s refl refl;
            in_time = in_time;
            holder = holder;
            enabled = enabled;
          }),
    )
  where
    last :
        (s : Session)
        → s.session_token ≡ token
        → s.is_active ≡ true
        → find (is_live token) (s ∷ []) ≡ some s
    last s e live = ground (arith, eq_refl token, e, live)
