-- ===== src/Workflow/Data.antt =====
-- The table of workflows, and the tables that a trigger reads and writes: the events, the users as
-- the permissions read them, the email queue with the users as it reads them, and the audit log.
use cyberx_event_mgmt.Base.{
  ℕ, String, Option, none, some, Bool, ◌&&◌, List, [], ◌∷◌, if◌then◌else◌, str_eq, leb, ℤ, select,
  sort_by,
}
use cyberx_event_mgmt.Auth.Data.{User}
use cyberx_event_mgmt.Event.Data as Events
use cyberx_event_mgmt.EmailQueue.Data.{Vars}
use cyberx_event_mgmt.EmailQueue.Data as Queue

-- A row of `email_workflows`.
pub record Workflow : Type 0 where
  pub id : ℕ
  pub name : String
  pub trigger_event : String
  pub template_name : String
  pub priority : ℕ
  pub from_email : Option String
  pub from_name : Option String
  pub custom_vars : Option Vars
  pub send_immediately : Bool
  pub delay_minutes : Option ℤ
  pub is_enabled : Bool

-- An entry of the audit log, by the arguments with which a trigger writes it.
pub record Triggered : Type 0 where
  pub user_id : ℕ
  pub workflow_id : ℕ
  pub trigger_event : String
  pub send_mode : String

pub record Db : Type 0 where
  pub workflows : List Workflow
  pub events : Events.Db
  pub users : List User
  pub queue : Queue.Db
  pub audit : List Triggered

abbrev pub is_enabled_for : String → Workflow → Bool
is_enabled_for event w = str_eq w.trigger_event event && w.is_enabled

abbrev pub is_sooner : Workflow → Workflow → Bool
is_sooner a b = leb a.priority b.priority

unfoldable pub get_workflows_by_trigger : Db → String → Bool → List Workflow
get_workflows_by_trigger db event enabled_only = sort_by is_sooner (
    select (λ w. if enabled_only then is_enabled_for event w else str_eq w.trigger_event event)
      db.workflows)

-- `d[key] = value`.
unfoldable pub put : String → String → Vars → Vars
put key value [] = (key, value) ∷ []
put key value ((k, v) ∷ vars) =
    let rest = put key value vars in if str_eq k key then (key, value) ∷ vars else (k, v) ∷ rest

-- `{**vars, **more}`.
unfoldable pub merge : Vars → Vars → Vars
merge vars [] = vars
merge vars ((k, v) ∷ more) = merge (put k v vars) more

abbrev pub vars_or_empty : Option Vars → Vars
vars_or_empty none = []
vars_or_empty (some vars) = vars

-- A sender override that is given.
abbrev pub put_given : String → Option String → Vars → Vars
put_given key none vars = vars
put_given key (some value) vars = if str_eq value "" then vars else put key value vars

-- The variables of an email: the workflow's, then the caller's, then the sender overrides.
unfoldable pub merged_vars : Workflow → Option Vars → Vars
merged_vars w custom_vars = put_given "__from_name" w.from_name (
    put_given "__from_email" w.from_email
      (merge (vars_or_empty w.custom_vars) (vars_or_empty custom_vars)))
