-- ===== src/Participant/Update/Route.antt =====
-- `PUT /participants/{participant_id}` of backend/app/api/routes/admin.py, without its audit entry.
pub mod Escalation
use cyberx_event_mgmt.Base.{
  ℕ, String, Option, none, some, Bool, true, false, not, ◌&&◌, ◌||◌, List, [], ◌∷◌, if◌then◌else◌,
  ◌==◌, str_eq, ltb, is_some, count, find, is_nil, Text, Check, Result, ok, raised, http_exception,
}
use cyberx_event_mgmt.Auth.Data as Auth
use cyberx_event_mgmt.Auth.Permissions.{is_admin_role}
use cyberx_event_mgmt.Auth.Guards.{permission_checker, can_edit_participant}
use cyberx_event_mgmt.Participant.Data.{User, Db, Env, get_participant, as_auth}
use cyberx_event_mgmt.Participant.Service.{get_participant_by_email}
use cyberx_event_mgmt.Participant.Delete.{is_of_participation}
use cyberx_event_mgmt.Participant.Create.Route.{RoleRow, concat, already_exists}
use cyberx_event_mgmt.Participant.Update.{Changes, update_participant}

-- The body. `role_id` may be null, and what it resolves to is `role_obj` of the changes, whose own
-- value here is none.
pub record ParticipantUpdate : Type 0 where
  pub changes : Changes
  pub role_id : Option (Option ℕ)

abbrev pub is_given {ℓ} : {A : Type ℓ} → Option (Option A) → Bool
is_given (some (some a)) = true
is_given _ = false

-- What a caller who is no administrator may not change.
unfoldable pub check_changes : Env → User → ParticipantUpdate → Check
check_changes env caller data_ =
    if is_admin_role (as_auth env caller)
    then ok tt
    else if is_some data_.changes.role
    then raised (http_exception 403 "Only administrators can change user roles")
    else if is_given data_.changes.sponsor_id
    then raised (http_exception 403 "Only administrators can change sponsor assignments")
    else ok tt

check_existing : Env → Db → ℕ → Text → Option User → Check
check_existing env db i email none = ok tt
check_existing env db i email (some u) =
    if u.id == i then ok tt else raised (http_exception 409 (already_exists env db email u))

unfoldable pub check_email : Env → Db → ℕ → Option Text → Check
unfolding check_existing
check_email env db i none = ok tt
check_email env db i (some email) =
    if is_nil email
    then ok tt
    else check_existing env db i email (get_participant_by_email env db email)

with_row : ℕ → Env → Changes → Option RoleRow → Result Changes
with_row i env c none =
    raised (http_exception 400 (concat ("Role with ID " ∷ env.show i ∷ " not found" ∷ [])))
with_row i env c (some r) = ok (record c {
  role_obj = some (some (record { permissions = r.permissions }));
  role = some r.base_type;
  is_admin = some (str_eq r.base_type "admin");
})

-- The role row sets the legacy columns.
unfoldable pub resolve_role : Env → List RoleRow → Option (Option ℕ) → Changes → Result Changes
unfolding with_row
resolve_role env roles none c = ok c
resolve_role env roles (some none) c = ok (record c { role_obj = some none })
resolve_role env roles (some (some i)) c =
    with_row i env c (find (λ (r : RoleRow). r.id == i) roles)

abbrev pub is_admin_value : Option String → Bool
is_admin_value none = false
is_admin_value (some role) = str_eq role "admin"

-- Whoever has taken part in an event is not made an administrator.
unfoldable pub check_elevation : Env → Db → User → Changes → Check
check_elevation env db u c =
    let n = count (is_of_participation u.id) db.events.participations in
    if (is_admin_value c.role && not (str_eq u.role "admin")) && ltb 0 n
    then raised (
        http_exception 400 (
          concat (
            "Cannot elevate "
            ∷ env.as_string u.email
            ∷ " to admin — they have participation history ("
            ∷ env.show n
            ∷ " event(s)). Create a separate admin account instead."
            ∷ [])))
    else ok tt

unfoldable pub answered : Db × Result (Option User) → Db × Result (Unit {0})
answered (db, ok u) = (db, ok tt)
answered (db, raised e) = (db, raised e)

elevated : Env → Db → ℕ → Changes → Check → Db × Result (Unit {0})
elevated env db i c (raised e) = (db, raised e)
elevated env db i c (ok passed) = answered (update_participant env db i c)

resolved : Env → Db → ℕ → User → Result Changes → Db × Result (Unit {0})
unfolding elevated
resolved env db i u (raised e) = (db, raised e)
resolved env db i u (ok c) = elevated env db i c (check_elevation env db u c)

unfoldable pub all_checks : Check → Check → Check → Check
all_checks (raised e) b c = raised e
all_checks (ok t) (raised e) c = raised e
all_checks (ok t) (ok s) c = c

checked : Env → List RoleRow → Db → ℕ → ParticipantUpdate → User → Check → Db × Result (Unit {0})
unfolding resolved
checked env roles db i data_ u (raised e) = (db, raised e)
checked env roles db i data_ u (ok passed) =
    resolved env db i u (resolve_role env roles data_.role_id data_.changes)

module _ (lower : String → String) where
  for_found :
      Env → List RoleRow → Db → User → ℕ → ParticipantUpdate → Option User → Db × Result (Unit {0})
  unfolding checked
  for_found env roles db caller i data_ none =
      (db, raised (http_exception 404 "Participant not found"))
  for_found env roles db caller i data_ (some u) = checked env roles db i data_ u (
      all_checks (can_edit_participant lower (as_auth env caller) (as_auth env u))
        (check_changes env caller data_) (check_email env db i data_.changes.email))

  permitted :
      Env
      → List RoleRow
      → Db
      → User
      → ℕ
      → ParticipantUpdate
      → Result Auth.User
      → Db × Result (Unit {0})
  unfolding for_found
  permitted env roles db caller i data_ (raised e) = (db, raised e)
  permitted env roles db caller i data_ (ok u) =
      for_found env roles db caller i data_ (get_participant db i)

  -- The route, for a caller whom the session gives.
  unfoldable pub admin_update_participant :
      Env → List RoleRow → Db → User → ℕ → ParticipantUpdate → Db × Result (Unit {0})
  unfolding permitted
  admin_update_participant env roles db caller i data_ =
      permitted env roles db caller i data_
        (permission_checker lower ("participants.edit" ∷ []) (as_auth env caller))
