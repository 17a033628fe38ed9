-- ===== src/Participant/Create/Escalation.antt =====
-- What a sponsor can create.
use cyberx_event_mgmt.Base.{
  ℕ, String, Option, none, some, true, false, ◌&&◌, ◌||◌, List, [], ◌∷◌, ◌++◌, ◌≡◌, refl, ap, ◌∙◌,
  arith, inl, inr, Bool-cases, eq→==, str_eq, is_some, find, find-append_none, Text, Result, ok,
  raised,
}
use cyberx_event_mgmt.Auth.Permissions.{has_permission, is_admin_role}
use cyberx_event_mgmt.Auth.Guards.{permission_checker, admin_only}
use cyberx_event_mgmt.Event.Data.{Event}
use cyberx_event_mgmt.Event.Service.{get_active_event}
use cyberx_event_mgmt.Participant.Data.{User, Db, Env, has_id, get_participant, as_auth}
use cyberx_event_mgmt.Participant.Service.{is_given, get_participant_by_email}
use cyberx_event_mgmt.Participant.Confirm.{trigger}
use cyberx_event_mgmt.Participant.Confirm.Accepted.{passed_on-users}
use cyberx_event_mgmt.Participant.Create.{
  NewParticipant, password_of, if_given, new_user, role_of, should_generate_credentials, is_taken,
  add_user, notify, for_staff, create_participant, can_send_email,
}
use cyberx_event_mgmt.Participant.Create.Route.{
  RoleRow, ParticipantCreate, Caller, target_role, check_caller, is_allowed, new_participant,
}
use cyberx_event_mgmt.Participant.Create.Welcome.{
  welcome, welcome_trigger, should_invite, invite_created, then_invite, after_created,
  admin_create_participant,
}

notify-users_staff :
    (env : Env) (u : User) (e : Option Event) (db : Db)
    → u.role ≡ "admin"
    → (notify env u e db).users ≡ db.users
unfolding notify for_staff
notify-users_staff env u e db admin =
    rw admin
      (elim (Bool-cases ((str_eq u.confirmed "YES" && can_send_email u.email_status) && true)) [
        | inl e ↦ rw e refl
        | inr e ↦ rw e refl
      ])

new_user-id : (env : Env) (db : Db) (a : NewParticipant) → (new_user env db a).id ≡ db.next_id
unfolding new_user
new_user-id env db a = refl

create_participant-staff :
    (env : Env) (db : Db) (a : NewParticipant)
    → is_taken db (new_user env db a) ≡ false
    → (new_user env db a).role ≡ "admin"
    → ((create_participant env db a).0.users ≡ db.users ++ new_user env db a ∷ [])
      × ((create_participant env db a).1 ≡ ok db.next_id)
unfolding create_participant
create_participant-staff env db a free admin = rw free (
  notify-users_staff env (new_user env db a) (get_active_event db.events)
      (add_user (new_user env db a) db) admin,
  ap ok (new_user-id env db a),
)

invite_created-staff :
    (env : Env) (u : User) (e : Option Event) (db : Db)
    → u.role ≡ "admin"
    → (invite_created env u e db).0 ≡ db
unfolding invite_created should_invite
invite_created-staff env u none db admin = refl
invite_created-staff env u (some e) db admin = rw admin refl

then_invite-users :
    (env : Env) (u : User) (r : Db × Result (Unit {0}))
    → u.role ≡ "admin"
    → (then_invite env u r).0.users ≡ r.0.users
unfolding then_invite
then_invite-users env u (db, raised e) admin = refl
then_invite-users env u (db, ok done) admin =
    ap (λ (d : Db). d.users) (invite_created-staff env u (get_active_event db.events) db admin)

welcome-users : (env : Env) (u : User) (db : Db) → (welcome env u db).0.users ≡ db.users
unfolding welcome
welcome-users env u db =
    elim (Bool-cases
      ((str_eq u.role "admin" || str_eq u.role "sponsor") && is_given u.pandas_password)) [
        | inl e ↦ rw e (passed_on-users db (trigger env db (welcome_trigger env u)))
        | inr e ↦ rw e refl
      ]

should_generate_given :
    (a : NewParticipant) → is_some a.pandas_password ≡ true → should_generate_credentials a ≡ true
unfolding should_generate_credentials
should_generate_given a h = ground (arith, h)

password_of-given :
    (env : Env) (a : NewParticipant) (p : Text)
    → should_generate_credentials a ≡ true
    → a.pandas_password ≡ some p
    → is_given (some p) ≡ true
    → password_of env a ≡ some p
password_of-given env a p should chosen given = rw (should, chosen, given) refl

new_user-admin :
    (env : Env) (db : Db) (c : Caller) (data_ : ParticipantCreate) (target : Option RoleRow)
    (p : Text)
    → data_.is_admin ≡ true
    → data_.pandas_password ≡ some p
    → is_given (some p) ≡ true
    → ((new_user env db (new_participant env c data_ "invitee" target)).role ≡ "admin")
      × ((new_user env db (new_participant env c data_ "invitee" target)).password_hash
          ≡ some (env.hash p))
unfolding new_user new_participant role_of
new_user-admin env db c data_ target p flag chosen given =
    let a = new_participant env c data_ "invitee" target in
    (
      rw flag refl,
      ap (if_given env.hash)
            (password_of-given env a p (should_generate_given a (ap is_some chosen)) chosen given)
          ∙ rw given refl,
    )

check_caller_invitee :
    (env : Env) (c : Caller) (target : Option RoleRow)
    → is_allowed c target ≡ true
    → check_caller env c "invitee" target ≡ ok tt
unfolding check_caller
check_caller_invitee env c target allowed = elim (Bool-cases (is_admin_role (as_auth env c.user))) [
  | inl e ↦ rw e refl
  | inr e ↦ rw (e, allowed) refl
]

after_created-users :
    (env : Env) (r : Db × Result ℕ) (i : ℕ) (u : User)
    → r.1 ≡ ok i
    → get_participant r.0 i ≡ some u
    → u.role ≡ "admin"
    → (after_created env r).0.users ≡ r.0.users
unfolding after_created
after_created-users env (db, raised e) i u made found admin = refl
after_created-users env (db, ok j) i u made found admin =
    let same : j ≡ i = cc made in
    rw (same, found) (then_invite-users env u (welcome env u db) admin ∙ welcome-users env u db)

admin_create_participant-created :
    (lower : String → String) (env : Env) (roles : List RoleRow) (db : Db) (c : Caller)
    (data_ : ParticipantCreate) {target : Option RoleRow}
    → has_permission lower (as_auth env c.user) ("participants.create" ∷ []) ≡ true
    → target_role env roles data_ ≡ ok ("invitee", target)
    → is_allowed c target ≡ true
    → get_participant_by_email env db data_.email ≡ none
    → admin_create_participant lower env roles db c data_
      ≡ after_created env (create_participant env db (new_participant env c data_ "invitee" target))
unfolding admin_create_participant permission_checker
admin_create_participant-created lower env roles db c data_ {target} may role allowed new =
    rw (may, new, role, check_caller_invitee env c target allowed) refl

-- Whoever may create participants can create an administrator: a request for an invitee of an
-- allowed role, with a password and the legacy flag is_admin, for an address and a name that are
-- free, passes the checks, also when the caller is a sponsor, and makes a user who passes the
-- administrators' guard, with the password of the request.
pub admin_create_participant_escalates :
    (lower : String → String) (env : Env) (roles : List RoleRow) (db : Db) (c : Caller)
    (data_ : ParticipantCreate) {target : Option RoleRow} {p : Text}
    → has_permission lower (as_auth env c.user) ("participants.create" ∷ []) ≡ true
    → target_role env roles data_ ≡ ok ("invitee", target)
    → is_allowed c target ≡ true
    → data_.is_admin ≡ true
    → data_.pandas_password ≡ some p
    → is_given (some p) ≡ true
    → get_participant_by_email env db data_.email ≡ none
    → is_taken db (new_user env db (new_participant env c data_ "invitee" target)) ≡ false
    → find (has_id db.next_id) db.users ≡ none
    → let u = new_user env db (new_participant env c data_ "invitee" target) in
      (get_participant (admin_create_participant lower env roles db c data_).0 db.next_id ≡ some u)
      × (admin_only (as_auth env u) ≡ ok (as_auth env u))
      × (u.password_hash ≡ some (env.hash p))
unfolding find get_participant admin_only is_admin_role
admin_create_participant_escalates lower env roles db c data_ {target} {p} may role allowed flag
      chosen given new free fresh =
    let a = new_participant env c data_ "invitee" target in
    let made = new_user-admin env db c data_ target p flag chosen given in
    let created = create_participant-staff env db a free made.0 in
    let passed = admin_create_participant-created lower env roles db c data_ may role allowed new in
    let appended =
      find-append_none (has_id db.next_id) db.users (new_user env db a ∷ []) fresh
      ∙ rw (eq→== (new_user env db a).id db.next_id (new_user-id env db a)) refl in
    let present = ap (find (has_id db.next_id)) created.0 ∙ appended in
    (
      ap (λ (r : Db × Result (Unit {0})). find (has_id db.next_id) r.0.users) passed
          ∙ ap (find (has_id db.next_id)) (
              after_created-users env (create_participant env db a) db.next_id (new_user env db a)
                created.1 present made.0
              ∙ created.0)
          ∙ appended,
      rw made.0 refl,
      made.1,
    )
