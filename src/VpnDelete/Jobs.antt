-- ===== src/VpnDelete/Jobs.antt =====
-- The life of a job: queued, claimed, processed, retried, deleted. The `except` of `process_job` is
-- not taken, since no database call fails and the object store's exceptions are swallowed.
pub mod Requests
use cyberx_event_mgmt.Base.{
  ℕ, suc, ◌+◌, ◌-◌, ◌*◌, String, Option, none, some, Bool, true, false, not, ◌&&◌, ◌||◌, List, [],
  ◌∷◌, ◌++◌, if◌then◌else◌, ◌==◌, ltb, leb, seconds, length, select, count, find, update, delete,
  sort_by, Result, ok, raised, value_error,
}
use cyberx_event_mgmt.VpnDelete.Data.{
  pending, processing, completed, failed, is_job_status, JobMode, by_ids, all, Job, Db, has_job_id,
}
use cyberx_event_mgmt.VpnDelete.Chunks.{Work, run_delete}

-- `sorted({...})`: in ascending order, each id once.
unfoldable pub insert_id : ℕ → List ℕ → List ℕ
insert_id i [] = i ∷ []
insert_id i (j ∷ js) =
    let rest = insert_id i js in if i == j then j ∷ js else if ltb i j then i ∷ j ∷ js else j ∷ rest

unfoldable pub sorted_ids : List ℕ → List ℕ
unfolding insert_id
sorted_ids [] = []
sorted_ids (i ∷ ids) = insert_id i (sorted_ids ids)

abbrev pub new_job : ℕ → ℕ → Option ℕ → JobMode → Option (List ℕ) → Option ℕ → Job
new_job i now user_id mode target_ids total = record {
  id = i;
  created_by_user_id = user_id;
  mode = mode;
  target_ids = target_ids;
  status = pending;
  total_credentials = total;
  processed_credentials = 0;
  deleted_count = 0;
  failed_count = 0;
  errors = [];
  last_error = none;
  created_at = now;
  started_at = none;
  completed_at = none;
}

abbrev pub queue : Db → Job → Db × Result Job
queue db job = (record db { jobs = db.jobs ++ job ∷ []; next_id = suc db.next_id }, ok job)

unfoldable pub queue_delete_by_ids : Db → ℕ → List ℕ → Option ℕ → Db × Result Job
queue_delete_by_ids db now [] user_id = (db, raised (value_error "No VPN credential IDs provided"))
queue_delete_by_ids db now (i ∷ ids) user_id =
    let unique_ids = sorted_ids (i ∷ ids) in
    queue db (new_job db.next_id now user_id by_ids (some unique_ids) (some (length unique_ids)))

unfoldable pub queue_delete_all : Db → ℕ → Option ℕ → Db × Result Job
queue_delete_all db now user_id = queue db (new_job db.next_id now user_id all none none)

first_job : List Job → Option Job
first_job [] = none
first_job (job ∷ jobs) = some job

unfoldable pub claim_next_pending_job : Db → Option Job
unfolding first_job
claim_next_pending_job db = first_job (
    sort_by (λ a b. leb a.created_at b.created_at)
      (select (λ job. is_job_status job.status pending) db.jobs))

abbrev pub start_job : ℕ → Job → Job
start_job now job = record job {
  status = processing;
  started_at = some now;
  processed_credentials = 0;
  deleted_count = 0;
  failed_count = 0;
  errors = [];
}

abbrev pub complete_job : ℕ → Job → Job
complete_job now job = record job { status = completed; completed_at = some now }

-- The job's row as it is at the end.
unfoldable pub process_job : (ℕ → String) → Db → ℕ → ℕ → Job → Db × Job
process_job show db now end job =
    let w = run_delete show (record {
      credentials = db.credentials;
      r2_deletes = db.r2_deletes;
      job = start_job now job;
    }) in
    let done = complete_job end w.job in
    (
      record db {
        credentials = w.credentials;
        r2_deletes = w.r2_deletes;
        jobs = update (has_job_id job.id) (λ _. done) db.jobs;
      },
      done,
    )

abbrev pub ended_before : ℕ → Option ℕ → Bool
ended_before cutoff none = false
ended_before cutoff (some t) = ltb t cutoff

abbrev pub is_old : ℕ → Job → Bool
is_old cutoff job =
    (is_job_status job.status completed || is_job_status job.status failed)
    && ended_before cutoff job.completed_at

unfoldable pub cleanup_old_jobs : Db → ℕ → ℕ → Db × ℕ
cleanup_old_jobs db now retention_days =
    let cutoff = now - seconds (86400 * retention_days) in
    (record db { jobs = delete (is_old cutoff) db.jobs }, count (is_old cutoff) db.jobs)

abbrev pub reset_job : Job → Job
reset_job job = record job {
  status = pending;
  started_at = none;
  completed_at = none;
  last_error = none;
  processed_credentials = 0;
  deleted_count = 0;
  failed_count = 0;
  errors = [];
}

retry_found : Db → ℕ → Option Job → Db × Option Job
retry_found db i none = (db, none)
retry_found db i (some job) =
    if is_job_status job.status failed
    then (record db { jobs = update (has_job_id i) reset_job db.jobs }, some (reset_job job))
    else (db, none)

unfoldable pub retry_job : Db → ℕ → Db × Option Job
unfolding retry_found
retry_job db i = retry_found db i (find (has_job_id i) db.jobs)

delete_found : Db → ℕ → Option Job → Db × Result Bool
delete_found db i none = (db, ok false)
delete_found db i (some job) =
    if is_job_status job.status processing
    then (db, raised (value_error "Cannot delete a job while it is processing"))
    else (record db { jobs = delete (has_job_id i) db.jobs }, ok true)

unfoldable pub delete_job : Db → ℕ → Db × Result Bool
unfolding delete_found
delete_job db i = delete_found db i (find (has_job_id i) db.jobs)
