-- ===== src/Auth/Guards.antt =====
-- The guards of backend/app/dependencies.py on a request with a session cookie, and
-- `PermissionChecker`. A guard that depends on another takes what the other gave back.
pub mod Access
use Prim.Native.String.{◌++◌ as str_append}
use cyberx_event_mgmt.Base.{
  ℕ, String, Option, none, some, Bool, true, false, not, ◌&&◌, List, [], ◌∷◌, if◌then◌else◌, ◌==◌,
  str_eq, opt_eq, Result, ok, raised, ◌>>=◌, Check, http_exception, join_text,
}
use cyberx_event_mgmt.Auth.Data.{User, Db}
use cyberx_event_mgmt.Auth.Permissions.{
  contains_text, has_permission, is_admin_role, is_sponsor_role,
}
use cyberx_event_mgmt.Auth.Sessions.{validate_session}

or_unauthorized : Option User → Result User
or_unauthorized none = raised (http_exception 401 "Invalid or expired session")
or_unauthorized (some u) = ok u

unfoldable pub get_current_user : Db → ℕ → Option String → Db × Result User
unfolding or_unauthorized
get_current_user db now none = (db, raised (http_exception 401 "Not authenticated"))
get_current_user db now (some token) =
    if str_eq token ""
    then (db, raised (http_exception 401 "Not authenticated"))
    else let (db', found) = validate_session db now token in (db', or_unauthorized found)

unfoldable pub get_optional_user : Db → ℕ → Option String → Db × Option User
get_optional_user db now none = (db, none)
get_optional_user db now (some token) =
    if str_eq token "" then (db, none) else validate_session db now token

unfoldable pub active_only : User → Result User
active_only u = if u.is_active then ok u else raised (http_exception 403 "Inactive user")

unfoldable pub admin_only : User → Result User
unfolding is_admin_role
admin_only u =
    if is_admin_role u
    then ok u
    else raised (http_exception 403 "Not authorized. Admin access required.")

unfoldable pub sponsor_only : User → Result User
unfolding is_sponsor_role
sponsor_only u =
    if is_sponsor_role u
    then ok u
    else raised (http_exception 403 "Not authorized. Sponsor access required.")

unfoldable pub role_checker : List String → User → Result User
role_checker roles u =
    if not (contains_text roles u.role) && not u.is_admin
    then raised
        (http_exception 403 (str_append "Not authorized. Required role: " (join_text roles)))
    else ok u

unfoldable pub permission_checker : (String → String) → List String → User → Result User
permission_checker lower perms u =
    if has_permission lower u perms
    then ok u
    else raised (http_exception 403 (str_append "Missing permissions: " (join_text perms)))

unfoldable pub get_current_active_user : Db → ℕ → Option String → Db × Result User
unfolding active_only
get_current_active_user db now cookie =
    let (db', found) = get_current_user db now cookie in (db', found >>= active_only)

-- A guard that depends on the current active user.
unfoldable pub guarded : (User → Result User) → Db → ℕ → Option String → Db × Result User
guarded check db now cookie =
    let (db', found) = get_current_active_user db now cookie in (db', found >>= check)

unfoldable pub get_current_admin_user : Db → ℕ → Option String → Db × Result User
unfolding guarded
get_current_admin_user db now cookie = guarded admin_only db now cookie

unfoldable pub get_current_sponsor_user : Db → ℕ → Option String → Db × Result User
unfolding guarded
get_current_sponsor_user db now cookie = guarded sponsor_only db now cookie

unfoldable pub require_role : List String → Db → ℕ → Option String → Db × Result User
unfolding guarded
require_role roles db now cookie = guarded (role_checker roles) db now cookie

unfoldable pub require_permission :
    (String → String) → List String → Db → ℕ → Option String → Db × Result User
unfolding guarded
require_permission lower perms db now cookie =
    guarded (permission_checker lower perms) db now cookie

abbrev pub is_sponsored_by : User → User → Bool
is_sponsored_by u participant = opt_eq participant.sponsor_id (some u.id)

abbrev forbid : String → Check
forbid detail = raised (http_exception 403 detail)

module _ (lower : String → String) where
  abbrev pub may : User → String → Bool
  may u p = has_permission lower u (p ∷ [])

  unfoldable pub can_view_participant : User → User → Check
  can_view_participant u participant =
      if u.id == participant.id
      then ok tt
      else if may u "participants.view_all"
      then ok tt
      else if may u "participants.view" && is_sponsored_by u participant
      then ok tt
      else forbid "Not authorized to view this participant"

  unfoldable pub can_edit_participant : User → User → Check
  can_edit_participant u participant =
      if u.id == participant.id
      then forbid "Use the profile endpoint to edit your own account"
      else if not (may u "participants.edit")
      then forbid "Not authorized to edit this participant"
      else if may u "participants.view_all"
      then ok tt
      else if is_sponsored_by u participant
      then ok tt
      else forbid "Not authorized to edit this participant"

  unfoldable pub can_delete_participant : User → User → Check
  can_delete_participant u participant =
      if not (may u "participants.remove")
      then forbid "Not authorized to delete participants"
      else if u.id == participant.id
      then forbid "Cannot delete your own account"
      else if may u "participants.view_all"
      then ok tt
      else if is_sponsored_by u participant
      then ok tt
      else forbid "Not authorized to delete this participant"

  unfoldable pub can_send_bulk_email : User → Check
  can_send_bulk_email u =
      if may u "email.send_bulk" then ok tt else forbid "Not authorized to send bulk emails"

  unfoldable pub can_manage_vpn : User → Check
  can_manage_vpn u =
      if may u "vpn.manage_pool" then ok tt else forbid "Not authorized to manage VPN credentials"

  unfoldable pub can_assign_vpn_to_participant : User → User → Check
  can_assign_vpn_to_participant u participant =
      if not (may u "vpn.manage_pool")
      then forbid "Not authorized to assign VPN credentials"
      else if may u "participants.view_all"
      then ok tt
      else if is_sponsored_by u participant
      then ok tt
      else forbid "Not authorized to assign VPN to this participant"
