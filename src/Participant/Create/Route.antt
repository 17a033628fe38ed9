-- ===== src/Participant/Create/Route.antt =====
-- `POST /participants` of backend/app/api/routes/admin.py, without its audit entry.
use cyberx_event_mgmt.Base.{
  ℕ, String, Option, none, some, Bool, true, not, ◌&&◌, ◌||◌, List, [], ◌∷◌, if◌then◌else◌, ◌==◌,
  str_eq, contains, is_nil, find, Text, Result, ok, raised, http_exception,
}
use Prim.Native.String
use cyberx_event_mgmt.Auth.Data as Auth
use cyberx_event_mgmt.Auth.Permissions.{is_admin_role}
use cyberx_event_mgmt.EmailQueue.Data.{Vars}
use cyberx_event_mgmt.Participant.Data.{User, Db, Env, get_participant, as_auth}
use cyberx_event_mgmt.Participant.Create.{NewParticipant}

-- A row of `roles`.
pub record RoleRow : Type 0 where
  pub id : ℕ
  pub name : String
  pub slug : String
  pub base_type : String
  pub is_system : Bool
  pub allowed_role_ids : List ℕ
  pub permissions : List String

-- The body; the role of an entry without one is "invitee".
pub record ParticipantCreate : Type 0 where
  pub email : Text
  pub first_name : Text
  pub last_name : Text
  pub country : String
  pub confirmed : String
  pub pandas_username : Option Text
  pub pandas_password : Option Text
  pub discord_username : Option String
  pub sponsor_email : Option String
  pub sponsor_id : Option ℕ
  pub role : String
  pub role_id : Option ℕ
  pub is_admin : Bool

-- The user who calls, with the row of the user's role.
pub record Caller : Type 0 where
  pub user : User
  pub role_row : Option RoleRow

abbrev pub concat : List String → String
concat [] = ""
concat (t ∷ ts) = String.◌++◌ t (concat ts)

abbrev pub sponsor_info : Env → Db → Option ℕ → String
sponsor_info env db none = "no sponsor"
sponsor_info env db (some i) = described (get_participant db i)
  where
    described : Option User → String
    described none = concat ("sponsor ID " ∷ env.show i ∷ [])
    described (some s) = concat (
        env.as_string s.first_name
        ∷ " "
        ∷ env.as_string s.last_name
        ∷ " ("
        ∷ env.as_string s.email
        ∷ ")"
        ∷ [])

abbrev pub already_exists : Env → Db → Text → User → String
already_exists env db email u = concat (
    "User with email '"
    ∷ env.as_string email
    ∷ "' already exists. Name: "
    ∷ env.as_string u.first_name
    ∷ " "
    ∷ env.as_string u.last_name
    ∷ ", Role: "
    ∷ u.role
    ∷ ", Sponsor: "
    ∷ sponsor_info env db u.sponsor_id
    ∷ [])

-- The base type and the row of the role that is asked for.
unfoldable pub target_role :
    Env → List RoleRow → ParticipantCreate → Result (String × Option RoleRow)
target_role env roles data_ = by_id data_.role_id
  where
    or_refused : ℕ → Option RoleRow → Result (String × Option RoleRow)
    or_refused i none =
        raised (http_exception 400 (concat ("Role with ID " ∷ env.show i ∷ " not found" ∷ [])))
    or_refused i (some r) = ok (r.base_type, some r)

    by_id : Option ℕ → Result (String × Option RoleRow)
    by_id (some i) = or_refused i (find (λ (r : RoleRow). r.id == i) roles)
    by_id none =
        ok (data_.role, find (λ (r : RoleRow). str_eq r.slug data_.role && r.is_system) roles)

abbrev pub is_allowed : Caller → Option RoleRow → Bool
is_allowed c none = true
is_allowed c (some target) = among c.role_row
  where
    among : Option RoleRow → Bool
    among none = true
    among (some own) = is_nil own.allowed_role_ids || contains own.allowed_role_ids target.id

abbrev pub name_of : Option RoleRow → String
name_of none = ""
name_of (some r) = r.name

-- What a caller who is no administrator may create.
unfoldable pub check_caller : Env → Caller → String → Option RoleRow → Result (Unit {0})
check_caller env c role_value target =
    if is_admin_role (as_auth env c.user)
    then ok tt
    else if not (str_eq role_value "invitee")
    then raised (http_exception 403 "Only administrators can create admin or sponsor users")
    else if is_allowed c target
    then ok tt
    else raised (
        http_exception 403 (
          concat (
            "You are not allowed to create participants with the '"
            ∷ name_of target
            ∷ "' role"
            ∷ [])))

abbrev pub role_of_row : Option RoleRow → Option Auth.Role
role_of_row none = none
role_of_row (some r) = some (record { permissions = r.permissions })

-- The arguments of the service: the sponsor of what a sponsor creates is that sponsor.
unfoldable pub new_participant :
    Env → Caller → ParticipantCreate → String → Option RoleRow → NewParticipant
new_participant env c data_ role_value target = record {
  email = data_.email;
  first_name = data_.first_name;
  last_name = data_.last_name;
  country = data_.country;
  confirmed = data_.confirmed;
  pandas_username = data_.pandas_username;
  pandas_password = data_.pandas_password;
  discord_username = data_.discord_username;
  sponsor_email = data_.sponsor_email;
  sponsor_id = if is_admin_role (as_auth env c.user) then data_.sponsor_id else some c.user.id;
  role = role_value;
  role_obj = role_of_row target;
  is_admin = data_.is_admin;
}

abbrev pub role_vars : String → Vars
role_vars role =
    if str_eq role "admin"
    then ("role", "Admin")
      ∷ ("role_label", "ADMIN")
      ∷ ("role_upper", "ADMINISTRATOR")
      ∷ ("role_display", "Administrator")
      ∷ ("a_or_an", "an")
      ∷ []
    else ("role", "Sponsor")
      ∷ ("role_label", "SPONSOR")
      ∷ ("role_upper", "SPONSOR")
      ∷ ("role_display", "Sponsor")
      ∷ ("a_or_an", "a")
      ∷ []
