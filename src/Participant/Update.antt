-- ===== src/Participant/Update.antt =====
-- `update_participant` of backend/app/services/participant_service.py. A null for a column that takes
-- none is left out, and so is the column `snowflake_id`.
pub mod Kept
pub mod Route
use cyberx_event_mgmt.Base.{
  ℕ, String, Option, none, some, Bool, true, false, not, ◌&&◌, ◌||◌, List, [], ◌∷◌, if◌then◌else◌,
  ◌==◌, str_eq, is_some, find, text_eq, Text, Result, ok, raised, http_exception,
}
use Prim.Native.String
use cyberx_event_mgmt.Auth.Data as Auth
use cyberx_event_mgmt.Workflow.Trigger.{Trigger}
use cyberx_event_mgmt.Participant.Names.{normalize_email}
use cyberx_event_mgmt.Participant.Data.{
  User, Db, Env, login_url, get_participant, change_user, after_trigger,
}
use cyberx_event_mgmt.Participant.Service.{with_password}
use cyberx_event_mgmt.Participant.Confirm.{trigger}
use cyberx_event_mgmt.Participant.Create.{can_send_email}

-- The keyword arguments: a field without a value is not among them.
pub record Changes : Type 0 where
  pub email : Option Text
  pub first_name : Option Text
  pub last_name : Option Text
  pub country : Option String
  pub confirmed : Option String
  pub email_status : Option String
  pub pandas_username : Option (Option Text)
  pub pandas_password : Option (Option Text)
  pub discord_username : Option (Option String)
  pub sponsor_email : Option (Option String)
  pub sponsor_id : Option (Option ℕ)
  pub role : Option String
  pub role_obj : Option (Option Auth.Role)
  pub is_admin : Option Bool
  pub is_active : Option Bool

abbrev pub or_kept {ℓ} : {A : Type ℓ} → Option A → A → A
or_kept none kept = kept
or_kept (some new) kept = new

-- A new password has its hash and its spelling; a null only clears the password.
abbrev pub change_password : Env → Option (Option Text) → User → User
change_password env none u = u
change_password env (some none) u = record u { pandas_password = none }
change_password env (some (some password)) u = with_password env password u

abbrev pub is_new_email : Env → User → Text → Bool
is_new_email env u email =
    not (text_eq (normalize_email env.unicode.lower email) u.email_normalized)

-- A changed address is unverified.
abbrev pub change_email : Env → Option Text → User → User
change_email env none u = u
change_email env (some email) u =
    if is_new_email env u email
    then record u {
      email = email;
      email_normalized = normalize_email env.unicode.lower email;
      email_status = "UNKNOWN";
      email_status_timestamp = none;
    }
    else record u { email = email }

-- The user name is not among the columns that change.
abbrev pub change_columns : Changes → User → User
change_columns c u = record u {
  first_name = or_kept c.first_name u.first_name;
  last_name = or_kept c.last_name u.last_name;
  country = or_kept c.country u.country;
  confirmed = or_kept c.confirmed u.confirmed;
  email_status = or_kept c.email_status u.email_status;
  discord_username = or_kept c.discord_username u.discord_username;
  sponsor_email = or_kept c.sponsor_email u.sponsor_email;
  sponsor_id = or_kept c.sponsor_id u.sponsor_id;
  role = or_kept c.role u.role;
  role_obj = or_kept c.role_obj u.role_obj;
  is_admin = or_kept c.is_admin u.is_admin;
  is_active = or_kept c.is_active u.is_active;
}

abbrev pub newly_confirmed : Changes → User → Bool
newly_confirmed c u =
    str_eq (or_kept c.confirmed u.confirmed) "YES" && not (str_eq u.confirmed "YES")

unfoldable pub updated : Env → Changes → User → User
updated env c u =
    let after =
      change_email env c.email (change_columns c (change_password env c.pandas_password u)) in
    record after {
      confirmed_at = if newly_confirmed c u then some env.now else u.confirmed_at;
      updated_at = env.now;
    }

-- Another user's address.
unfoldable pub is_duplicate : Env → Db → User → Option Text → Bool
is_duplicate env db u none = false
is_duplicate env db u (some email) =
    is_new_email env u email
    && is_some (
        find
          (λ x.
            text_eq x.email_normalized (normalize_email env.unicode.lower email)
            && not (x.id == u.id))
          db.users)

abbrev pub duplicate_detail : Env → Option Text → String
duplicate_detail env none = ""
duplicate_detail env (some email) =
    String.◌++◌ "A user with email " (String.◌++◌ (env.as_string email) " already exists")

abbrev pub updated_trigger : Env → User → Trigger
updated_trigger env u = record {
  trigger_event = "user_confirmed";
  user_id = u.id;
  custom_vars =
      some (("login_url", login_url env) ∷ ("event_name", "CyberX Red Team Exercise") ∷ []);
  force = false;
}

-- A trigger that fails is logged, and the call goes on.
unfoldable pub notify_confirmed : Env → Changes → User → Db → Db
notify_confirmed env c u db =
    let after = updated env c u in
    if newly_confirmed c u && can_send_email after.email_status
    then after_trigger db (trigger env db (updated_trigger env after)).0
    else db

update_found : Env → Db → Changes → Option User → Db × Result (Option User)
update_found env db c none = (db, ok none)
update_found env db c (some u) =
    if is_duplicate env db u c.email
    then (db, raised (http_exception 409 (duplicate_detail env c.email)))
    else (
      notify_confirmed env c u (change_user db u.id (updated env c)),
      ok (some (updated env c u)),
    )

unfoldable pub update_participant : Env → Db → ℕ → Changes → Db × Result (Option User)
unfolding update_found
update_participant env db i c = update_found env db c (get_participant db i)
