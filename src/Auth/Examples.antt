-- ===== src/Auth/Examples.antt =====
-- The theorems on access at a concrete database, and tests.
use cyberx_event_mgmt.Base.{
  ℕ, String, Option, none, some, true, false, not, List, [], ◌∷◌, ◌≡◌, ◌≢◌, refl, ◌↔◌, ◌&&◌, ◌||◌,
  ◌==◌, ok, find, update, delete, count, str_eq,
}
use cyberx_event_mgmt.Auth.Data.{Role, Overrides, User, Db}
use cyberx_event_mgmt.Auth.Permissions.{
  contains_text, role_permissions, get_permissions_for_role_string, get_effective_permissions,
  has_all, has_permission,
}
use cyberx_event_mgmt.Auth.Sessions.{
  new_session, create_session, validate_session, invalidate_session, invalidate_all_user_sessions,
  session_cleanup_job,
}
use cyberx_event_mgmt.Auth.Sessions.Validity.{Accepts, validate_session_iff}
use cyberx_event_mgmt.Auth.Sessions.Logout.{
  Call, creates, validates, cleans_up, step, run, validate_session_after_logout,
  validate_session_after_revocation,
}
use cyberx_event_mgmt.Auth.Guards.{
  require_permission, may, is_sponsored_by, can_view_participant, can_edit_participant,
  can_delete_participant,
}
use cyberx_event_mgmt.Auth.Guards.Access.{require_permission_iff, participant_access}

-- The case stays as it is.
abbrev as_is : String → String
as_is t = t

abbrev no_overrides : Overrides
no_overrides = record { added = []; removed = [] }

abbrev person : ℕ → String → Option Role → Overrides → Option ℕ → User
person i role role_obj overrides sponsor = record {
  id = i;
  email_normalized = "a@b.org";
  pandas_username = none;
  password_hash = some "hash";
  role = role;
  role_obj = role_obj;
  permission_overrides = overrides;
  sponsor_id = sponsor;
  is_admin = false;
  is_active = true;
}

abbrev invitee : User
invitee = person 3 "invitee" none no_overrides (some 2)

abbrev sponsor : User
sponsor = person 2 "sponsor" none no_overrides none

abbrev admin : User
admin = person 1 "admin" none no_overrides none

abbrev viewer : Role
viewer = record { permissions = "events.view" ∷ "vpn.view" ∷ [] }

abbrev limited : User
limited =
    person 4 "invitee" (some viewer)
      (record { added = "tls.request" ∷ []; removed = "vpn.view" ∷ [] }) none

abbrev db0 : Db
db0 = record {
  users = admin ∷ sponsor ∷ invitee ∷ [];
  sessions = new_session 0 24 "t2" 2 none none ∷ [];
}

validate_t2 : (validate_session db0 1000 "t2").1 ≡ some sponsor
unfolding validate_session find
validate_t2 = refl

-- A day and a microsecond later.
validate_t2_late : (validate_session db0 86400000001 "t2").1 ≡ none
unfolding validate_session find
validate_t2_late = refl

validate_session_iff_example : (some sponsor ≡ some sponsor) ↔ Accepts db0 1000 "t2" sponsor
unfolding validate_session find
validate_session_iff_example = validate_session_iff db0 1000 "t2" sponsor

abbrev calls : List (ℕ × Call)
calls = (7, creates 24 "t4" 3 none none) ∷ (8, validates "t2") ∷ (9, cleans_up) ∷ []

validate_session_after_logout_example :
    (validate_session (run (invalidate_session db0 "t2").0 calls) 10 "t2").1 ≡ none
validate_session_after_logout_example =
    validate_session_after_logout db0 10 "t2" calls (refl, (tt, (tt, tt)))

validate_t4 :
    (validate_session (run (invalidate_all_user_sessions db0 2).0 calls) 10 "t4").1 ≡ some invitee
unfolding validate_session run step create_session invalidate_all_user_sessions session_cleanup_job
    find update delete count
validate_t4 = refl

validate_session_after_revocation_example : invitee.id ≢ 2
validate_session_after_revocation_example =
    validate_session_after_revocation db0 10 2 "t4" calls invitee (refl, (tt, (tt, tt))) validate_t4

require_permission_iff_example :
    ((require_permission as_is ("vpn.view" ∷ []) db0 1000 (some "t2")).1 ≡ ok sponsor) ↔ (
      (str_eq "t2" "" ≡ false)
      × Accepts db0 1000 "t2" sponsor
      × (has_permission as_is sponsor ("vpn.view" ∷ []) ≡ true))
require_permission_iff_example =
    require_permission_iff as_is ("vpn.view" ∷ []) db0 1000 "t2" sponsor

participant_access_example :
    ((can_view_participant as_is sponsor invitee ≡ ok tt) ↔ (
      (sponsor.id == invitee.id)
        || (may as_is sponsor "participants.view_all"
            || (may as_is sponsor "participants.view" && is_sponsored_by sponsor invitee))
      ≡ true))
    × ((can_edit_participant as_is sponsor invitee ≡ ok tt) ↔ (
        not (sponsor.id == invitee.id)
          && (may as_is sponsor "participants.edit"
              && (may as_is sponsor "participants.view_all" || is_sponsored_by sponsor invitee))
        ≡ true))
    × ((can_delete_participant as_is sponsor invitee ≡ ok tt) ↔ (
        not (sponsor.id == invitee.id)
          && (may as_is sponsor "participants.remove"
              && (may as_is sponsor "participants.view_all" || is_sponsored_by sponsor invitee))
        ≡ true))
participant_access_example = participant_access as_is sponsor invitee

-- A sponsor may edit their invitee.
edit_own_invitee : can_edit_participant as_is sponsor invitee ≡ ok tt
unfolding can_edit_participant has_permission contains_text get_effective_permissions
    get_permissions_for_role_string role_permissions has_all
edit_own_invitee = refl
