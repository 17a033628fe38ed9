-- ===== src/Auth/Data.antt =====
-- Users and sessions, as far as authentication and authorization read them. Times are
-- microseconds.
use cyberx_event_mgmt.Base.{ℕ, String, Option, Bool, List, ◌==◌, str_eq}

-- A dynamic role (`role_obj`); a null list of permissions is an empty one.
pub record Role : Type 0 where
  pub permissions : List String

-- `permission_overrides`; a missing or null entry is an empty list.
pub record Overrides : Type 0 where
  pub added : List String
  pub removed : List String

pub record User : Type 0 where
  pub id : ℕ
  pub email_normalized : String
  pub pandas_username : Option String
  pub password_hash : Option String
  pub role : String
  pub role_obj : Option Role
  pub permission_overrides : Overrides
  pub sponsor_id : Option ℕ
  pub is_admin : Bool
  pub is_active : Bool

pub record Session : Type 0 where
  pub session_token : String
  pub user_id : ℕ
  pub expires_at : ℕ
  pub ip_address : Option String
  pub user_agent : Option String
  pub is_active : Bool

pub record Db : Type 0 where
  pub users : List User
  pub sessions : List Session

abbrev pub has_token : String → Session → Bool
has_token token s = str_eq s.session_token token

abbrev pub has_user_id : ℕ → User → Bool
has_user_id i u = u.id == i
