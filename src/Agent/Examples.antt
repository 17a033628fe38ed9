-- ===== src/Agent/Examples.antt =====
-- The theorems on agents at a concrete database, and tests.
use cyberx_event_mgmt.Base.{
  String, none, some, List, [], ◌∷◌, ◌≡◌, refl, count, select, update, ok, raised, http_exception,
  scalar_one_or_none,
}
use cyberx_event_mgmt.Agent.Data.{Task, Instance, Db}
use cyberx_event_mgmt.Agent.Tasks.{
  new_task, stamp, set_status, update_task_status, timeout_stale_tasks,
}
use cyberx_event_mgmt.Agent.Guard.{get_current_agent_instance, bind_ip}
use cyberx_event_mgmt.Agent.Guard.Binding.{run, get_current_agent_instance_bound}

abbrev as_is : String → String
as_is t = t

-- Splits the headers of these tests.
abbrev two_parts : String → List String
two_parts t = "bearer" ∷ t ∷ []

abbrev machine : Instance
machine = record {
  id = 1;
  agent_token_hash = some "t1";
  agent_registered_ip = none;
  agent_last_heartbeat = none;
  deleted_at = none;
}

abbrev running : Task
running = record (new_task 1 5 1 "cycle_vpn" 2 none) { status = "IN_PROGRESS"; started_at = some 6 }

abbrev db0 : Db
db0 = record { instances = machine ∷ []; tasks = running ∷ []; next_id = 2 }

abbrev requests : List (String × String)
requests = ("10.0.0.9", "t1") ∷ ("10.0.0.1", "t9") ∷ []

first_request :
    (get_current_agent_instance as_is as_is two_parts db0 "10.0.0.1" "t1").1
    ≡ ok (bind_ip "10.0.0.1" machine)
unfolding get_current_agent_instance select scalar_one_or_none
first_request = refl

-- Another address is turned away.
other_address :
    (get_current_agent_instance as_is as_is two_parts
      (get_current_agent_instance as_is as_is two_parts db0 "10.0.0.1" "t1").0
      "10.0.0.9"
      "t1").1
    ≡ raised (http_exception 403 "Agent IP does not match registered IP")
unfolding get_current_agent_instance select scalar_one_or_none update
other_address = refl

second_request :
    (get_current_agent_instance as_is as_is two_parts
      (run as_is as_is two_parts
        (get_current_agent_instance as_is as_is two_parts db0 "10.0.0.1" "t1").0
        requests)
      "10.0.0.1"
      "t1").1
    ≡ ok (bind_ip "10.0.0.1" machine)
unfolding get_current_agent_instance select scalar_one_or_none update run
second_request = refl

abbrev home : String
home = "10.0.0.1"

get_current_agent_instance_bound_example : home ≡ home
get_current_agent_instance_bound_example =
    get_current_agent_instance_bound as_is as_is two_parts db0 "10.0.0.1" "10.0.0.1" "t1" "t1"
      (bind_ip "10.0.0.1" machine) (bind_ip "10.0.0.1" machine) requests (tt, tt) first_request
      second_request refl

-- The running task is timed out after ten minutes, not before.
timed_out : (timeout_stale_tasks 10 "Timed out after 10 minutes" db0 600000007).1 ≡ 1
unfolding timeout_stale_tasks count
timed_out = refl

not_timed_out : (timeout_stale_tasks 10 "Timed out after 10 minutes" db0 600000006).1 ≡ 0
unfolding timeout_stale_tasks count
not_timed_out = refl

completes :
    (update_task_status db0 9 running "COMPLETED" (some "{}") none).1
    ≡ record running { status = "COMPLETED"; completed_at = some 9; result = some "{}" }
unfolding update_task_status set_status stamp
completes = refl
