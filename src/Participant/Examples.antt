-- ===== src/Participant/Examples.antt =====
-- The theorems on participants at concrete calls, and tests.
use mathlib.Core.Option
use cyberx_event_mgmt.Base.{
  ℕ, update, contains, ◌≡◌, refl, String, Option, none, some, Bool, true, false, ◌&&◌, List, [],
  ◌∷◌, if◌then◌else◌, str_eq, Unique, arith, Text, codes, find, select, sort_by, count, text_eq,
  raised, multiple_results_found, http_exception,
}
use cyberx_event_mgmt.Event.Data.{Event}
use cyberx_event_mgmt.Event.Service.{get_active_event}
use cyberx_event_mgmt.EmailQueue.Batch.{accepted}
use cyberx_event_mgmt.Vpn.Data.{Credential}
use cyberx_event_mgmt.Vpn.Data as Vpn
use cyberx_event_mgmt.Vpn.Pool.{assign_vpn, take_for, find_user}
use cyberx_event_mgmt.Vpn.Pool.Concurrency.{is_locked}
use cyberx_event_mgmt.Vpn.Pool.Concurrency.Refinement.{assign_vpn-Reach}
use cyberx_event_mgmt.Workflow.Data.{Workflow, get_workflows_by_trigger}
use cyberx_event_mgmt.Participant.Data.{User, Db, Env, key_of, never_mailed, get_participant}
use cyberx_event_mgmt.Participant.Confirm.{Acceptance, confirmed_user, confirm_participation}
use cyberx_event_mgmt.Participant.Confirm.Accepted.{confirm_participation_once}
use cyberx_event_mgmt.Participant.Confirm.Lost.{confirm_participation_lost}
use cyberx_event_mgmt.Participant.Delete.{delete_row, delete_participant}
use cyberx_event_mgmt.Participant.Delete.References.{
  AreReferences, delete_participant-AreReferences,
}
use cyberx_event_mgmt.Participant.Delete.Retired.{delete_participant-retired}
use cyberx_event_mgmt.Participant.Reset.{
  reset_row, has_role, is_eligible, reset_workflow_state, bulk_reset_workflow_state,
}
use cyberx_event_mgmt.Participant.Reset.Rows.{total, bulk_reset_workflow_state_rows}
use cyberx_event_mgmt.Participant.Reset.Single.{reset_workflow_state-bulk_reset_workflow_state}
use cyberx_event_mgmt.Participant.Reset.Reopened.{reset_workflow_state-confirm_participation}
use cyberx_event_mgmt.Participant.Statistics.{get_statistics}
use cyberx_event_mgmt.Participant.Statistics.Owners.{get_statistics_counts}

abbrev pub env : Env
env = record {
  now = 90;
  clock = λ i. i;
  code = "fresh";
  password = codes "Ab1@";
  hash = λ t. "hash";
  letters = record { upper = λ c. c ∷ []; is_lower = λ c. false; is_upper = λ c. false };
  unicode = record {
    lower = λ t. t;
    decompose = λ t. t;
    is_mark = λ c. false;
    is_alphanumeric = λ c. true;
  };
  timestamp = codes "123456";
  as_string = λ t. "text";
  show = λ n. "n";
  frontend_url = "https://x.org";
  support_email = "help@x.org";
  event_vars = λ e. [];
  send = λ u template vars. accepted none;
}

abbrev pub user : ℕ → String → Text → String → Option String → User
user i role email confirmed code = record {
  id = i;
  email = email;
  email_normalized = email;
  first_name = codes "Ada";
  last_name = codes "Byron";
  country = "UK";
  role = role;
  role_obj = none;
  permission_overrides = record { added = []; removed = [] };
  sponsor_id = if str_eq role "invitee" then some 2 else none;
  sponsor_email = none;
  confirmed = confirmed;
  confirmed_at = none;
  decline_reason = none;
  email_status = "GOOD";
  email_status_timestamp = none;
  confirmation_code = code;
  confirmation_sent_at = none;
  terms_accepted = false;
  terms_accepted_at = none;
  terms_version = none;
  pandas_username = none;
  pandas_password = none;
  password_phonetic = none;
  password_hash = none;
  keycloak_synced = false;
  discord_username = none;
  mailed = never_mailed;
  is_admin = str_eq role "admin";
  is_active = true;
  updated_at = 1;
}

abbrev pub guest : User
guest = user 3 "invitee" (codes "ada@x.org") "UNKNOWN" (some "code")

abbrev pub sponsor : User
sponsor = user 2 "sponsor" (codes "bob@x.org") "YES" none

abbrev pub event : ℕ → Bool → Event
event i registration = record {
  id = i;
  year = 2026;
  name = codes "CyberX";
  slug = codes "cyberx";
  registration_open = registration;
  is_active = true;
  is_archived = false;
  vpn_available = false;
  test_mode = false;
}

abbrev pub notice : Workflow
notice = record {
  id = 1;
  name = "credentials";
  trigger_event = "user_confirmed";
  template_name = "password";
  priority = 5;
  from_email = none;
  from_name = none;
  custom_vars = none;
  send_immediately = false;
  delay_minutes = none;
  is_enabled = true;
}

abbrev pub vpn : ℕ → Option ℕ → Credential
vpn i owner = record {
  id = i;
  ipv4_address = none;
  assignment_type = "USER_REQUESTABLE";
  assigned_to_username = none;
  assigned_to_user_id = owner;
  assigned_to_email = none;
  assigned_to_name = none;
  assigned_at = none;
  assigned_to_instance_id = none;
  assigned_instance_at = none;
  r2_key = none;
  request_batch_id = none;
  is_available = false;
  is_active = true;
}

abbrev pub start : List Event → Db
start events = record {
  users = sponsor ∷ guest ∷ [];
  next_id = 4;
  sessions = [];
  events = record { events = events; participations = []; next_id = 3 };
  credentials = vpn 1 (some 3) ∷ vpn 2 (some 3) ∷ [];
  workflows = notice ∷ [];
  queue = record { users = []; emails = []; logs = []; next_id = 1 };
  audit = [];
  sync = [];
}

ids : Unique key_of (sponsor ∷ guest ∷ [])
ids = (((λ e. omega (arith, e)), tt), (tt, tt))

abbrev is_taken_name : Text → Bool
is_taken_name t = text_eq t (codes "abyron")

abbrev consent : String → Acceptance
consent code = record { confirmation_code = code; terms_accepted = true; terms_version = some "1" }

confirm_participation_once_example :
    let db' = (confirm_participation env (start []) (consent "code")).0 in
    (get_participant db' 3 ≡ some (confirmed_user env (start []) (some "1") guest))
    × ((later : Env) (version : Option String)
        → confirm_participation later db' (record (consent "code") { terms_version = version })
          ≡ (db', raised (http_exception 409 "Already confirmed")))
unfolding find
confirm_participation_once_example =
    confirm_participation_once env (start []) (consent "code") guest ids refl refl refl

confirm_participation_lost_example :
    let db = start (event 1 true ∷ event 2 true ∷ []) in
    let r = confirm_participation env db (consent "code") in
    (r ≡ (r.0, raised multiple_results_found))
    × (r.0.queue ≡ db.queue)
    × (Option.map (λ (x : User). x.pandas_password) (get_participant r.0 3)
        ≡ some (some (codes "Ab1@")))
    × ((later : Env) (version : Option String)
        → confirm_participation later r.0 (record (consent "code") { terms_version = version })
          ≡ (r.0, raised (http_exception 409 "Already confirmed")))
unfolding find count get_workflows_by_trigger sort_by select
confirm_participation_lost_example =
    confirm_participation_lost env (start (event 1 true ∷ event 2 true ∷ [])) (consent "code") guest
      ids refl refl refl refl (omega arith) refl

-- The user 3 takes part, and has invited the user 2.
abbrev joined : Db
joined = record (start []) {
  events = record {
    events = [];
    participations =
        record { user_id = 3; event_id = 1; invited_by_user_id = none; status = "confirmed" }
        ∷ record { user_id = 2; event_id = 1; invited_by_user_id = some 3; status = "invited" }
        ∷ [];
    next_id = 3;
  };
}

delete_participant-AreReferences_example :
    (get_participant (delete_participant joined 3).0 3 ≡ none)
    × AreReferences (delete_participant joined 3).0
unfolding AreReferences find
delete_participant-AreReferences_example =
    delete_participant-AreReferences joined 3
      (tt, (refl, (refl, tt)), (tt, (refl, tt)), (refl, (refl, tt)), tt, tt, (tt, (refl, tt)))

abbrev stocked : Db
stocked = record (start []) {
  credentials = vpn 1 (some 3) ∷ vpn 2 (some 3) ∷ record (vpn 4 none) { is_available = true } ∷ [];
}

stocked_ids : Unique Vpn.key_of stocked.credentials
stocked_ids = (
  ((λ e. omega (arith, e)), ((λ e. omega (arith, e)), tt)),
  (((λ e. omega (arith, e)), tt), (tt, tt)),
)

-- The VPN tables after the deletion of the user 3.
abbrev remaining : Vpn.Db
remaining = record {
  users = [];
  credentials = (delete_participant stocked 3).0.credentials;
  r2_deletes = [];
}

abbrev unchanged : String → String
unchanged t = t

abbrev assigned : Vpn.Db
assigned = (assign_vpn unchanged (λ i. i) (is_locked []) remaining 95 2 none).0

-- The user 2 gets the row 4 after that, not one of the deleted user's.
delete_participant-retired_example :
    find (Vpn.has_id 2) assigned.credentials
    ≡ some (record (vpn 2 (some 3)) {
      is_available = false;
      is_active = false;
      assigned_to_user_id = none;
    })
unfolding find get_participant
delete_participant-retired_example =
    delete_participant-retired stocked 3 2 (record { table = assigned.credentials; claims = [] })
      stocked_ids refl refl refl (assign_vpn-Reach unchanged (λ i. i) remaining 95 2 none)

row_given :
    Option.map
      (λ (c : Credential). c.assigned_to_user_id)
      (find (Vpn.has_id 4) assigned.credentials)
    ≡ some (some 2)
unfolding find assign_vpn sort_by select update contains take_for find_user delete_participant
    delete_row get_participant is_locked
row_given = refl

bulk_reset_workflow_state_rows_example :
    let (db', counted) =
      bulk_reset_workflow_state env (λ i. "code") (start []) true true none none in
    (get_participant db' 3 ≡ some (reset_row 90 "code" true guest))
    × ((u : User) → (str_eq u.role "admin" && is_eligible none none u) ≡ false)
    × (counted.affected_count ≡ 2)
    × (total counted.breakdown ≡ counted.affected_count)
unfolding get_participant find is_eligible has_role count
bulk_reset_workflow_state_rows_example =
    bulk_reset_workflow_state_rows env (λ i. "code") (start []) true true none none 3

reset_workflow_state-bulk_reset_workflow_state_example :
    (reset_workflow_state env (start []) "new" 3 true true).0
    ≡ (bulk_reset_workflow_state env
        (λ i. "new")
        (start [])
        true
        true
        (some ("invitee" ∷ []))
        (some (3 ∷ []))).0
unfolding get_participant find get_active_event sort_by select
reset_workflow_state-bulk_reset_workflow_state_example =
    reset_workflow_state-bulk_reset_workflow_state env (start []) "new" guest true true ids refl
      refl refl refl

reset_workflow_state-confirm_participation_example :
    let db' = (reset_workflow_state env (start []) "new" 3 true true).0 in
    let row = confirmed_user env db' (some "1") (reset_row 90 "new" true guest) in
    (get_participant (confirm_participation env db' (consent "new")).0 3 ≡ some row)
    × (row.confirmed ≡ "YES")
    × (row.pandas_password ≡ some (codes "Ab1@"))
unfolding get_participant find get_active_event sort_by select
reset_workflow_state-confirm_participation_example =
    reset_workflow_state-confirm_participation env env (start []) (consent "new") guest true true
      ids refl refl refl refl refl

get_statistics_counts_example :
    let s = get_statistics (start []) none in
    (s.with_vpn_count ≡ 1)
    × (s.without_vpn_count ≡ 1)
    × (s.active_count ≡ 2)
    × (s.inactive_count ≡ 0)
unfolding find count
get_statistics_counts_example = get_statistics_counts (start []) ids (refl, (refl, tt))
