-- ===== src/Auth/Permissions.antt =====
-- Permission resolution. A set of permissions is a list, read through membership; `str.lower` is
-- the parameter `lower`.
pub mod Resolution
use cyberx_event_mgmt.Base.{
  ℕ, String, Option, none, some, Bool, true, false, not, ◌&&◌, ◌||◌, List, [], ◌∷◌, ◌++◌,
  if◌then◌else◌, str_eq, opt_eq, select,
}
use cyberx_event_mgmt.Auth.Data.{Role, Overrides, User}

-- `p in perms`.
unfoldable pub contains_text : List String → String → Bool
contains_text [] p = false
contains_text (q ∷ qs) p = str_eq q p || contains_text qs p

abbrev pub all_permissions : List String
all_permissions =
    "events.view" ∷ "events.create" ∷ "events.edit" ∷ "events.delete" ∷ "participants.view"
    ∷ "participants.view_all" ∷ "participants.create" ∷ "participants.edit" ∷ "participants.remove"
    ∷ "participants.invite" ∷ "instances.view" ∷ "instances.view_all" ∷ "instances.provision"
    ∷ "instances.delete" ∷ "instances.manage_agent" ∷ "instances.sync_status" ∷ "vpn.view"
    ∷ "vpn.request" ∷ "vpn.download" ∷ "vpn.manage_pool" ∷ "email.view" ∷ "email.send"
    ∷ "email.send_bulk" ∷ "email.manage_templates" ∷ "email.manage_queue" ∷ "email.manage_workflows"
    ∷ "tls.request" ∷ "tls.download" ∷ "tls.manage" ∷ "cpe.download" ∷ "cpe.manage" ∷ "discord.view"
    ∷ "discord.manage" ∷ "cloud.manage_providers" ∷ "cloud.manage_templates" ∷ "cloud.manage_images"
    ∷ "licenses.view" ∷ "licenses.manage" ∷ "actions.view" ∷ "actions.manage" ∷ "redirectors.view"
    ∷ "redirectors.manage" ∷ "redirectors.view_all" ∷ "keycloak.manage" ∷ "admin.manage_users"
    ∷ "admin.manage_roles" ∷ "admin.view_audit_log" ∷ "admin.manage_settings" ∷ "scheduler.view"
    ∷ []

abbrev pub sponsor_permissions : List String
sponsor_permissions =
    "instances.view" ∷ "instances.provision" ∷ "instances.delete" ∷ "instances.manage_agent"
    ∷ "vpn.view" ∷ "vpn.request" ∷ "vpn.download" ∷ "tls.request" ∷ "tls.download" ∷ "cpe.download"
    ∷ "discord.view" ∷ "participants.view" ∷ "participants.create" ∷ "participants.edit"
    ∷ "participants.remove" ∷ "participants.invite" ∷ "redirectors.view" ∷ "redirectors.manage" ∷ []

abbrev pub invitee_permissions : List String
invitee_permissions =
    "instances.view" ∷ "instances.provision" ∷ "instances.delete" ∷ "instances.manage_agent"
    ∷ "vpn.view" ∷ "vpn.request" ∷ "vpn.download" ∷ "tls.request" ∷ "tls.download" ∷ "cpe.download"
    ∷ "discord.view" ∷ "redirectors.view" ∷ "redirectors.manage" ∷ []

-- `ROLE_PERMISSIONS.get(role.lower(), set())`.
unfoldable pub role_permissions : String → List String
role_permissions role =
    if str_eq role "admin"
    then all_permissions
    else if str_eq role "sponsor"
    then sponsor_permissions
    else if str_eq role "invitee"
    then invitee_permissions
    else []

-- `(base | add) - remove`.
unfoldable pub resolve_permissions : List String → List String → List String → List String
resolve_permissions base added removed = select (λ p. not (contains_text removed p)) (base ++ added)

unfoldable pub has_all : List String → List String → Bool
has_all effective [] = true
has_all effective (p ∷ ps) = contains_text effective p && has_all effective ps

unfoldable pub has_any : List String → List String → Bool
has_any effective [] = false
has_any effective (p ∷ ps) = contains_text effective p || has_any effective ps

module _ (lower : String → String) where
  unfoldable pub get_permissions_for_role_string : String → List String
  unfolding role_permissions
  get_permissions_for_role_string role = role_permissions (lower role)

  effective_of : User → Option Role → List String
  effective_of u (some r) =
      resolve_permissions r.permissions u.permission_overrides.added u.permission_overrides.removed
  effective_of u none = if str_eq u.role "" then [] else get_permissions_for_role_string u.role

  unfoldable pub get_effective_permissions : User → List String
  unfolding effective_of get_permissions_for_role_string resolve_permissions
  get_effective_permissions u = effective_of u u.role_obj

  unfoldable pub has_permission : User → List String → Bool
  has_permission u perms = has_all (get_effective_permissions u) perms

  unfoldable pub has_any_permission : User → List String → Bool
  has_any_permission u perms = has_any (get_effective_permissions u) perms

-- The role properties of a user.
unfoldable pub is_admin_role : User → Bool
is_admin_role u = str_eq u.role "admin" || u.is_admin

unfoldable pub is_sponsor_role : User → Bool
is_sponsor_role u = (str_eq u.role "admin" || str_eq u.role "sponsor") || u.is_admin

unfoldable pub is_invitee_role : User → Bool
is_invitee_role u = str_eq u.role "invitee" && not u.is_admin

unfoldable pub can_manage_invitee : User → User → Bool
unfolding is_admin_role is_sponsor_role
can_manage_invitee u invitee =
    if is_admin_role u then true else is_sponsor_role u && opt_eq invitee.sponsor_id (some u.id)
