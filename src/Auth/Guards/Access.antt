-- ===== src/Auth/Guards/Access.antt =====
-- Who passes the guards.
use cyberx_event_mgmt.Base.{
  ℕ, String, Option, some, Bool, true, false, not, ◌&&◌, ◌||◌, List, ◌≡◌, arith, ◌↔◌, inl, inr,
  Option-cases, Bool-cases, ◌==◌, str_eq, Result, ok, Result-cases,
}
use cyberx_event_mgmt.Auth.Data.{User, Db}
use cyberx_event_mgmt.Auth.Permissions.{has_permission}
use cyberx_event_mgmt.Auth.Sessions.{validate_session}
use cyberx_event_mgmt.Auth.Sessions.Validity.{Accepts, validate_session_iff}
use cyberx_event_mgmt.Auth.Guards.{
  get_current_user, active_only, get_current_active_user, guarded, require_permission,
  permission_checker, may, is_sponsored_by, can_view_participant, can_edit_participant,
  can_delete_participant,
}

get_current_user_ok :
    (db : Db) (now : ℕ) (token : String) (u : User)
    → (get_current_user db now (some token)).1 ≡ ok u
    → (str_eq token "" ≡ false) × ((validate_session db now token).1 ≡ some u)
unfolding get_current_user
get_current_user_ok db now token u e = elim (Option-cases (validate_session db now token).1) [
  | inl refused ↦ absurd (ground (arith, e, refused))
  | inr (v, given) ↦ ground (arith, e, given)
]

guarded_ok :
    (check : User → Result User) (db : Db) (now : ℕ) (cookie : Option String) (u : User)
    → (guarded check db now cookie).1 ≡ ok u
    → (v : User) × ((get_current_user db now cookie).1 ≡ ok v)
      × (v.is_active ≡ true)
      × (check v ≡ ok u)
unfolding guarded get_current_active_user active_only
guarded_ok check db now cookie u e = elim (Result-cases (get_current_user db now cookie).1) [
  | inr (failed, refused) ↦ absurd (ground (arith, e, refused))
  | inl (v, given) ↦ elim (Bool-cases v.is_active) [
    | inl active ↦ (v, given, active, ground (arith, e, given, active))
    | inr inactive ↦ absurd (ground (arith, e, given, inactive))
  ]
]

permission_checker_ok :
    (lower : String → String) (perms : List String) (v u : User)
    → permission_checker lower perms v ≡ ok u
    → (v ≡ u) × (has_permission lower v perms ≡ true)
unfolding permission_checker
permission_checker_ok lower perms v u e = ground (arith, e)

-- A request passes a permission guard as a user exactly when its cookie is a nonempty token that is
-- accepted for that user and the user holds every permission asked for.
pub require_permission_iff :
    (lower : String → String) (perms : List String) (db : Db) (now : ℕ) (token : String) (u : User)
    → ((require_permission lower perms db now (some token)).1 ≡ ok u)
      ↔ ((str_eq token "" ≡ false) × Accepts db now token u × (has_permission lower u perms ≡ true))
unfolding require_permission get_current_active_user permission_checker get_current_user
require_permission_iff lower perms db now token u = (
  λ e.
      let (v, given, _, checked) =
        guarded_ok (permission_checker lower perms) db now (some token) u e in
      let (same, holds) = permission_checker_ok lower perms v u checked in
      let (named, valid) = get_current_user_ok db now token u (cc (given, same)) in
      (named, (validate_session_iff db now token u).0 valid, cc (same, holds)),
  λ (named, a, holds).
      ground (arith, named, (validate_session_iff db now token u).1 a, a.enabled, holds),
)

module _ (lower : String → String) where
  abbrev reaches : User → User → Bool
  reaches u participant = may lower u "participants.view_all" || is_sponsored_by u participant

  -- The checks on a participant, for any two users. Viewing passes for oneself, with
  -- participants.view_all, or with participants.view for a participant one sponsors. Editing and
  -- deleting pass for another than oneself with the permission for it, and with
  -- participants.view_all or as the sponsor.
  pub participant_access :
      (u participant : User)
      → ((can_view_participant lower u participant ≡ ok tt) ↔ (
          (u.id == participant.id)
            || (may lower u "participants.view_all"
                || (may lower u "participants.view" && is_sponsored_by u participant))
          ≡ true))
        × ((can_edit_participant lower u participant ≡ ok tt) ↔ (
            not (u.id == participant.id)
              && (may lower u "participants.edit" && reaches u participant)
            ≡ true))
        × ((can_delete_participant lower u participant ≡ ok tt) ↔ (
            not (u.id == participant.id)
              && (may lower u "participants.remove" && reaches u participant)
            ≡ true))
  unfolding can_view_participant can_edit_participant can_delete_participant
  participant_access u participant = (
    (λ e. ground (arith, e), λ e. ground (arith, e)),
    (λ e. ground (arith, e), λ e. ground (arith, e)),
    (λ e. ground (arith, e), λ e. ground (arith, e)),
  )
