-- ===== src/VpnDelete/Chunks.antt =====
-- The work of a job, chunk by chunk. What the object store answers is only logged. The text of a
-- number is the parameter `show`.
pub mod Removal
pub mod Accounting
use Prim.Native.String.{◌++◌ as str_append}
use cyberx_event_mgmt.Base.{
  ℕ, zero, suc, ◌+◌, ◌/◌, String, Option, none, some, Bool, true, false, not, List, [], ◌∷◌, ◌++◌,
  map, if◌then◌else◌, str_eq, leb, contains, length, take, drop, select, delete, sort_by,
}
use cyberx_event_mgmt.VpnDelete.Data.{Credential, by_ids, all, JobMode, Job}

abbrev pub chunk_size : ℕ
chunk_size = 200

abbrev pub max_stored_errors : ℕ
max_stored_errors = 50

-- What the loop changes: the table, the calls to the object store and the job's row.
pub record Work : Type 0 where
  pub credentials : List Credential
  pub r2_deletes : List String
  pub job : Job

unfoldable pub record_error : Job → String → Job
record_error job message = record job {
  failed_count = job.failed_count + 1;
  errors =
      if leb max_stored_errors (length job.errors) then job.errors else job.errors ++ message ∷ [];
}

-- The keys of the rows that have one.
unfoldable pub r2_keys : List Credential → List String
r2_keys [] = []
r2_keys (c ∷ cs) =
    let rest = r2_keys cs in
    elim c.r2_key [ none ↦ rest | some key ↦ if str_eq key "" then rest else key ∷ rest ]

abbrev pub in_chunk : List ℕ → Credential → Bool
in_chunk chunk c = contains chunk c.id

abbrev pub found_ids : List ℕ → List Credential → List ℕ
found_ids chunk credentials = map (λ c. c.id) (select (in_chunk chunk) credentials)

abbrev pub missing : List ℕ → List Credential → List ℕ
missing chunk credentials = select (λ i. not (contains (found_ids chunk credentials) i)) chunk

module _ (show : ℕ → String) where
  abbrev pub not_found : ℕ → String
  not_found i = str_append "VPN " (str_append (show i) ": Not found")

  unfoldable pub record_missing : Job → List ℕ → Job
  unfolding record_error
  record_missing job [] = job
  record_missing job (i ∷ ids) = record_missing (record_error job (not_found i)) ids

  -- With nothing found the deletion has no rows and adds 0, as when it is skipped.
  unfoldable pub process_chunk : List ℕ → Work → Work
  process_chunk chunk w =
      let found = found_ids chunk w.credentials in
      let job = record_missing w.job (missing chunk w.credentials) in
      record {
        credentials = delete (λ c. contains found c.id) w.credentials;
        r2_deletes = w.r2_deletes ++ r2_keys (select (in_chunk chunk) w.credentials);
        job = record job {
          deleted_count = job.deleted_count + length found;
          processed_credentials = job.processed_credentials + length chunk;
        };
      }

  -- The rounds of the loop, with the ids from `chunk_start` on.
  unfoldable pub run_chunks : ℕ → List ℕ → Work → Work
  unfolding process_chunk
  run_chunks zero ids w = w
  run_chunks (suc n) ids w =
      run_chunks n (drop chunk_size ids) (process_chunk (take chunk_size ids) w)

-- The ids to delete.
unfoldable pub resolve_target_ids : Job → List Credential → List ℕ
resolve_target_ids job credentials = elim job.mode [
  | all ↦ map (λ c. c.id) (sort_by (λ c d. leb c.id d.id) credentials)
  | by_ids ↦ elim job.target_ids [ none ↦ [] | some ids ↦ ids ]
]

-- The loop has a round for every start of a chunk, `range(0, len(target_ids), CHUNK_SIZE)`.
unfoldable pub run_delete : (ℕ → String) → Work → Work
unfolding run_chunks
run_delete show w =
    let ids = resolve_target_ids w.job w.credentials in
    run_chunks show ((length ids + 199) / 200) ids
      (record w { job = record w.job { total_credentials = some (length ids) } })
