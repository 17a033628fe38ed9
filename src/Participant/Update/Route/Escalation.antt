-- ===== src/Participant/Update/Route/Escalation.antt =====
-- What a sponsor can change.
use cyberx_event_mgmt.Base.{
  ℕ, String, Option, none, some, true, List, [], ◌∷◌, ◌≡◌, refl, ap, ◌∙◌, inl, inr, Bool-cases,
  str_eq, Result, ok, raised,
}
use cyberx_event_mgmt.Auth.Data as Auth
use cyberx_event_mgmt.Auth.Permissions.{has_permission, is_admin_role}
use cyberx_event_mgmt.Auth.Guards.{permission_checker, can_edit_participant, admin_only}
use cyberx_event_mgmt.Participant.Data.{User, Db, Env, get_participant, as_auth}
use cyberx_event_mgmt.Participant.Create.Route.{RoleRow}
use cyberx_event_mgmt.Participant.Update.{Changes, is_duplicate, updated, update_participant}
use cyberx_event_mgmt.Participant.Update.Kept.{update_participant-row}
use cyberx_event_mgmt.Participant.Update.Route.{
  ParticipantUpdate, check_changes, check_email, resolve_role, check_elevation, all_checks,
  answered, admin_update_participant,
}

check_changes-passed :
    (env : Env) (caller : User) (d : ParticipantUpdate)
    → d.changes.role ≡ none
    → d.changes.sponsor_id ≡ none
    → check_changes env caller d ≡ ok tt
unfolding check_changes
check_changes-passed env caller d role sponsor =
    elim (Bool-cases (is_admin_role (as_auth env caller))) [
      | inl e ↦ rw e refl
      | inr e ↦ rw (e, role, sponsor) refl
    ]

answered-kept : (r : Db × Result (Option User)) → (answered r).0 ≡ r.0
unfolding answered
answered-kept (db, ok u) = refl
answered-kept (db, raised e) = refl

admin_only-flag : (x : Auth.User) → x.is_admin ≡ true → admin_only x ≡ ok x
unfolding admin_only is_admin_role
admin_only-flag x flag = elim (Bool-cases (str_eq x.role "admin")) [
  | inl e ↦ rw e refl
  | inr e ↦ rw (e, flag) refl
]

updated-admin :
    (env : Env) (c : Changes) (u : User)
    → c.email ≡ none
    → c.is_admin ≡ some true
    → (updated env c u).is_admin ≡ true
unfolding updated
updated-admin env c u email flag = rw (email, flag) refl

admin_update_participant-updated :
    (lower : String → String) (env : Env) (roles : List RoleRow) (db : Db) (caller : User) (i : ℕ)
    (d : ParticipantUpdate) {u : User}
    → has_permission lower (as_auth env caller) ("participants.edit" ∷ []) ≡ true
    → get_participant db i ≡ some u
    → can_edit_participant lower (as_auth env caller) (as_auth env u) ≡ ok tt
    → d.changes.role ≡ none
    → d.changes.sponsor_id ≡ none
    → d.role_id ≡ none
    → d.changes.email ≡ none
    → admin_update_participant lower env roles db caller i d
      ≡ answered (update_participant env db i d.changes)
unfolding admin_update_participant permission_checker check_email resolve_role check_elevation
    answered all_checks
admin_update_participant-updated lower env roles db caller i d may found can role sponsor role_id
      email =
    let passed = check_changes-passed env caller d role sponsor in
    rw (may, found, can, passed, email, role_id, role) refl

-- Whoever may edit a participant can make an administrator of that one: a request that sets the
-- legacy flag is_admin, and neither the role, the sponsor nor the address, passes every check, also
-- when the caller is a sponsor and the participant has taken part in events, and stores a user who
-- passes the administrators' guard.
pub admin_update_participant_escalates :
    (lower : String → String) (env : Env) (roles : List RoleRow) (db : Db) (caller : User) (i : ℕ)
    (d : ParticipantUpdate) {u : User}
    → has_permission lower (as_auth env caller) ("participants.edit" ∷ []) ≡ true
    → get_participant db i ≡ some u
    → can_edit_participant lower (as_auth env caller) (as_auth env u) ≡ ok tt
    → d.changes.role ≡ none
    → d.changes.sponsor_id ≡ none
    → d.role_id ≡ none
    → d.changes.email ≡ none
    → d.changes.is_admin ≡ some true
    → let after = updated env d.changes u in
      (get_participant (admin_update_participant lower env roles db caller i d).0 i ≡ some after)
      × (admin_only (as_auth env after) ≡ ok (as_auth env after))
unfolding admin_only is_admin_role is_duplicate
admin_update_participant_escalates lower env roles db caller i d {u} may found can role sponsor
      role_id email flag =
    let passed =
      admin_update_participant-updated lower env roles db caller i d may found can role sponsor
        role_id email in
    (
      ap (λ (r : Db × Result (Unit {0})). get_participant r.0 i) passed
          ∙ ap (λ (x : Db). get_participant x i)
              (answered-kept (update_participant env db i d.changes))
          ∙ update_participant-row env db i d.changes u found (rw email refl),
      admin_only-flag (as_auth env (updated env d.changes u))
          (updated-admin env d.changes u email flag),
    )
