-- ===== src/VpnDelete/Examples.antt =====
-- The theorems on bulk deletion at a concrete table, and tests.
use cyberx_event_mgmt.Base.{
  ℕ, String, none, some, List, [], ◌∷◌, ◌≡◌, refl, contains, delete, select, ok,
}
use cyberx_event_mgmt.VpnDelete.Data.{Credential, by_ids, Job, Db}
use cyberx_event_mgmt.VpnDelete.Chunks.{
  resolve_target_ids, record_error, record_missing, process_chunk, run_chunks, run_delete,
}
use cyberx_event_mgmt.VpnDelete.Jobs.{
  insert_id, sorted_ids, new_job, queue_delete_by_ids, process_job,
}

abbrev show_any : ℕ → String
show_any i = "7"

abbrev credential : ℕ → Credential
credential i = record { id = i; r2_key = some "configs/a.conf" }

abbrev db0 : Db
db0 = record {
  credentials = credential 1 ∷ credential 2 ∷ credential 3 ∷ [];
  jobs = [];
  next_id = 1;
  r2_deletes = [];
}

abbrev request : List ℕ
request = 3 ∷ 7 ∷ 3 ∷ []

abbrev job0 : Job
job0 = new_job 1 5 none by_ids (some (3 ∷ 7 ∷ [])) (some 2)

queue_request : (queue_delete_by_ids db0 5 request none).1 ≡ ok job0
unfolding queue_delete_by_ids sorted_ids insert_id
queue_request = refl

-- One is deleted, one is missing.
process_request :
    (process_job show_any db0 6 9 job0).0.credentials ≡ credential 1 ∷ credential 2 ∷ []
unfolding process_job run_delete run_chunks process_chunk resolve_target_ids select delete contains
    record_missing
process_request = refl

error_of_request : (process_job show_any db0 6 9 job0).1.errors ≡ "VPN 7: Not found" ∷ []
unfolding process_job run_delete run_chunks process_chunk resolve_target_ids select delete contains
    record_missing record_error
error_of_request = refl
