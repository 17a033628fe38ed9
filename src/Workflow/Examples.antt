-- ===== src/Workflow/Examples.antt =====
-- The theorems on workflows at concrete calls, and tests.
use cyberx_event_mgmt.Base.{
  map, text_eq, ℕ, ◌≡◌, ◌++◌, refl, String, Option, none, Bool, true, false, List, [], ◌∷◌, find,
  select, sort_by, length, is_some, raised, multiple_results_found, Text, codes, scalar_one_or_none,
  is_space,
}
use cyberx_event_mgmt.Auth.Data.{User}
use cyberx_event_mgmt.Auth.Permissions.{is_sponsor_role}
use cyberx_event_mgmt.Event.Data as Events
use cyberx_event_mgmt.Event.Data.{Event, generate_slug}
use cyberx_event_mgmt.Event.Service.{
  get_active_event, get_active_event_by_year, get_event_by_slug, create_event,
}
use cyberx_event_mgmt.Event.Admin.{EventCreate, admin_create_event}
use cyberx_event_mgmt.EmailQueue.Data.{Vars}
use cyberx_event_mgmt.EmailQueue.Data as Queue
use cyberx_event_mgmt.EmailQueue.Valid.{IsValid}
use cyberx_event_mgmt.EmailQueue.Enqueue.{enqueue_email}
use cyberx_event_mgmt.EmailQueue.Batch.{Answer, accepted}
use cyberx_event_mgmt.Workflow.Data.{
  Workflow, Triggered, Db, get_workflows_by_trigger, put, merge, merged_vars,
}
use cyberx_event_mgmt.Workflow.Trigger.{
  Trigger, only_active_event, get_user, trigger_one, trigger_each, trigger_workflow,
}
use cyberx_event_mgmt.Workflow.Trigger.Outcome.{Sublist, entry_of, trigger_workflow_outcome}
use cyberx_event_mgmt.Workflow.Trigger.Ambiguity.{admin_create_event-trigger_workflow}

abbrev ada : User
ada = record {
  id = 7;
  email_normalized = "ada@x.org";
  pandas_username = none;
  password_hash = none;
  role = "admin";
  role_obj = none;
  permission_overrides = record { added = []; removed = [] };
  sponsor_id = none;
  is_admin = false;
  is_active = true;
}

abbrev welcome : ℕ → Bool → Workflow
welcome i at_once = record {
  id = i;
  name = "welcome";
  trigger_event = "user_confirmed";
  template_name = "welcome";
  priority = 5;
  from_email = none;
  from_name = none;
  custom_vars = none;
  send_immediately = at_once;
  delay_minutes = none;
  is_enabled = true;
}

abbrev current : Event
current = record {
  id = 1;
  year = 2025;
  name = codes "old";
  slug = codes "old";
  registration_open = true;
  is_active = true;
  is_archived = false;
  vpn_available = false;
  test_mode = true;
}

abbrev start : Db
start = record {
  workflows = welcome 1 false ∷ welcome 2 false ∷ welcome 3 true ∷ [];
  events = record { events = current ∷ []; participations = []; next_id = 2 };
  users = ada ∷ [];
  queue = record {
    users = record { id = 7; email = "ada@x.org"; first_name = "Ada"; last_name = "L" } ∷ [];
    emails = [];
    logs = [];
    next_id = 1;
  };
  audit = [];
}

abbrev send : Option User → String → Vars → Answer
send user template_name vars = accepted none

abbrev confirmed : Trigger
confirmed = record {
  trigger_event = "user_confirmed";
  user_id = 7;
  custom_vars = none;
  force = false;
}

-- Three workflows of one template: each is counted, though the second adds no email.
trigger_workflow_outcome_example :
    let db' = (trigger_workflow send (λ i. 100) confirmed start).0 in
    (entries : List Triggered) × (db'.audit ≡ start.audit ++ entries)
    × (length entries ≡ 3)
    × Sublist entries
        (map (entry_of confirmed) (get_workflows_by_trigger start "user_confirmed" true))
    × IsValid db'.queue
unfolding trigger_workflow trigger_each trigger_one get_workflows_by_trigger only_active_event
    get_user merged_vars merge put enqueue_email sort_by select scalar_one_or_none find
    is_sponsor_role cyberx_event_mgmt.EmailQueue.Data.get_user
trigger_workflow_outcome_example =
    trigger_workflow_outcome send (λ i. 100) confirmed start 3
      (record { sound = tt; unique = tt; below = tt }) refl

abbrev next_event : EventCreate
next_event = record {
  year = 2026;
  name = codes "new";
  slug = none;
  is_active = true;
  registration_open = false;
}

abbrev lower : Text → Text
lower t = t

abbrev both : Events.Db
both = (admin_create_event lower ada start.events next_event).0

admin_create_event-trigger_workflow_example :
    (trigger_workflow send (λ i. 100) confirmed (record start { events = both })
      ≡ (record start { events = both }, raised multiple_results_found))
    × (is_some (get_active_event both) ≡ true)
unfolding get_active_event sort_by select admin_create_event get_active_event_by_year
    scalar_one_or_none get_event_by_slug find text_eq generate_slug is_space create_event
    get_workflows_by_trigger
admin_create_event-trigger_workflow_example =
    admin_create_event-trigger_workflow lower ada start both next_event send (λ i. 100) confirmed
      refl refl refl refl
