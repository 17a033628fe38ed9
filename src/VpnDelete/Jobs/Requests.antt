-- ===== src/VpnDelete/Jobs/Requests.antt =====
-- What comes of the requests to delete credentials.
use cyberx_event_mgmt.Base.{
  ℕ, ◌+◌, ◌<◌, min, String, Option, none, some, Bool, true, false, ◌||◌, List, [], ◌∷◌, ◌≡◌, refl,
  sym, ap, ◌∙◌, arith, inl, inr, Bool-cases, ◌==◌, ltb, leb, insert_by, sort_by, map, contains,
  length, count, delete, delete-cong, All, All-map, ok,
}
use cyberx_event_mgmt.VpnDelete.Data.{Credential, completed, by_ids, all, Job, Db}
use cyberx_event_mgmt.VpnDelete.Chunks.{max_stored_errors, Work, in_chunk, resolve_target_ids}
use cyberx_event_mgmt.VpnDelete.Chunks.Removal.{run_delete-Removes}
use cyberx_event_mgmt.VpnDelete.Chunks.Accounting.{
  run_delete-IsCapped, Distinct, UniqueIds, run_delete-counts,
}
use cyberx_event_mgmt.VpnDelete.Jobs.{
  insert_id, sorted_ids, new_job, queue_delete_by_ids, queue_delete_all, start_job, process_job,
}

Ascending : List ℕ → Type 0
Ascending [] = Unit
Ascending (i ∷ ids) = All (λ j. i < j) ids × Ascending ids

insert_id-All : (P : ℕ → Type 0) (i : ℕ) (ids : List ℕ) → P i → All P ids → All P (insert_id i ids)
unfolding insert_id
insert_id-All P i [] h hs = (h, tt)
insert_id-All P i (j ∷ ids) h (k, ks) = elim (Bool-cases (i == j)) [
  | inl same ↦ rw same (k, ks)
  | inr other ↦ elim (Bool-cases (ltb i j)) [
    | inl below ↦ rw (other, below) (h, (k, ks))
    | inr above ↦ rw (other, above) (k, insert_id-All P i ids h ks)
  ]
]

insert_id-Ascending : (i : ℕ) (ids : List ℕ) → Ascending ids → Ascending (insert_id i ids)
unfolding insert_id Ascending
insert_id-Ascending i [] a = (tt, tt)
insert_id-Ascending i (j ∷ ids) (a, as') = elim (Bool-cases (i == j)) [
  | inl same ↦ rw same (a, as')
  | inr other ↦ elim (Bool-cases (ltb i j)) [
    | inl below ↦
        rw (other, below)
          (
            (ground (arith, below), All-map (λ k. j < k) _ ids (λ k h. ground (arith, below, h)) a),
            (a, as'),
          )
    | inr above ↦
        rw (other, above)
          (
            insert_id-All (λ k. j < k) i ids (ground (arith, other, above)) a,
            insert_id-Ascending i ids as',
          )
  ]
]

sorted_ids-Ascending : (ids : List ℕ) → Ascending (sorted_ids ids)
unfolding sorted_ids Ascending
sorted_ids-Ascending [] = tt
sorted_ids-Ascending (i ∷ ids) = insert_id-Ascending i (sorted_ids ids) (sorted_ids-Ascending ids)

contains_above : (i : ℕ) (ids : List ℕ) → All (λ j. i < j) ids → contains ids i ≡ false
unfolding contains
contains_above i [] a = refl
contains_above i (j ∷ ids) (a, as') = ground (arith, a, contains_above i ids as')

Ascending-Distinct : (ids : List ℕ) → Ascending ids → Distinct ids
unfolding Ascending
Ascending-Distinct [] a = tt
Ascending-Distinct (i ∷ ids) (a, as') = (contains_above i ids a, Ascending-Distinct ids as')

contains-insert_id :
    (i : ℕ) (ids : List ℕ) (k : ℕ) → contains (insert_id i ids) k ≡ (i == k) || contains ids k
unfolding contains insert_id
contains-insert_id i [] k = refl
contains-insert_id i (j ∷ ids) k = elim (Bool-cases (i == j)) [
  | inl same ↦ ground (arith, same)
  | inr other ↦ ground (arith, other, contains-insert_id i ids k)
]

contains-sorted_ids : (ids : List ℕ) (k : ℕ) → contains (sorted_ids ids) k ≡ contains ids k
unfolding contains sorted_ids
contains-sorted_ids [] k = refl
contains-sorted_ids (i ∷ ids) k =
    ground (arith, contains-insert_id i (sorted_ids ids) k, contains-sorted_ids ids k)

pub process_job_outcome :
    (show : ℕ → String) (db : Db) (now end : ℕ) (job : Job)
    → let targets = resolve_target_ids job db.credentials in
      let (db', done) = process_job show db now end job in
      (db'.credentials ≡ delete (in_chunk targets) db.credentials)
      × (done.status ≡ completed)
      × (done.deleted_count ≡ count (in_chunk targets) db.credentials)
      × (done.processed_credentials ≡ length targets)
      × (done.total_credentials ≡ some (length targets))
      × (length done.errors ≡ min done.failed_count max_stored_errors)
unfolding process_job resolve_target_ids
process_job_outcome show db now end job =
    let w : Work = record {
      credentials = db.credentials;
      r2_deletes = db.r2_deletes;
      job = start_job now job;
    } in
    let done = run_delete-Removes show w in
    (
      done.removed,
      refl,
      omega (arith, done.deleted),
      omega (arith, done.processed),
      done.total,
      run_delete-IsCapped show w (omega arith),
    )

process_job-counts :
    (show : ℕ → String) (db : Db) (now end : ℕ) (job : Job)
    → let targets = resolve_target_ids job db.credentials in
      let done = (process_job show db now end job).1 in
      UniqueIds db.credentials
      → Distinct targets
      → done.deleted_count + done.failed_count ≡ length targets
unfolding process_job resolve_target_ids
process_job-counts show db now end job u d = omega (
  arith,
  run_delete-counts show
      (record { credentials = db.credentials; r2_deletes = db.r2_deletes; job = start_job now job })
      u d,
)

-- A request with ids is queued as a job, and when that job is processed on any table with distinct
-- ids, the credentials with a requested id are gone and no others, and the deleted and the failed
-- ids add up to the total of the job.
pub queue_delete_by_ids-process_job :
    (show : ℕ → String) (earlier db : Db) (queued now end i : ℕ) (ids : List ℕ) (user_id : Option ℕ)
    → UniqueIds db.credentials
    → (job : Job) × ((queue_delete_by_ids earlier queued (i ∷ ids) user_id).1 ≡ ok job)
      × (let (db', done) = process_job show db now end job in
          (db'.credentials ≡ delete (in_chunk (i ∷ ids)) db.credentials)
          × (done.total_credentials ≡ some (done.deleted_count + done.failed_count)))
unfolding queue_delete_by_ids resolve_target_ids
queue_delete_by_ids-process_job show earlier db queued now end i ids user_id u =
    let targets = sorted_ids (i ∷ ids) in
    let job =
      new_job earlier.next_id queued user_id by_ids (some targets) (some (length targets)) in
    let (removed, _, _, _, total, _) = process_job_outcome show db now end job in
    let counts =
      process_job-counts show db now end job u
        (Ascending-Distinct targets (sorted_ids-Ascending (i ∷ ids))) in
    (
      job,
      refl,
      (
        removed
            ∙ delete-cong (in_chunk targets) (in_chunk (i ∷ ids)) db.credentials
                (everywhere (λ c. contains-sorted_ids (i ∷ ids) c.id) db.credentials),
        total ∙ ap some (sym counts),
      ),
    )
  where
    everywhere : {A : Type 0} {P : A → Type 0} → ((a : A) → P a) → (xs : List A) → All P xs
    everywhere f [] = tt
    everywhere f (x ∷ xs) = (f x, everywhere f xs)

contains-insert_by :
    (le : Credential → Credential → Bool) (c : Credential) (cs : List Credential) (k : ℕ)
    → contains (map (λ d. d.id) (insert_by le c cs)) k
      ≡ (c.id == k) || contains (map (λ d. d.id) cs) k
unfolding contains insert_by
contains-insert_by le c [] k = refl
contains-insert_by le c (d ∷ cs) k = ground (arith, contains-insert_by le c cs k)

contains-sort_by :
    (le : Credential → Credential → Bool) (cs : List Credential) (k : ℕ)
    → contains (map (λ d. d.id) (sort_by le cs)) k ≡ contains (map (λ d. d.id) cs) k
unfolding contains sort_by
contains-sort_by le [] k = refl
contains-sort_by le (c ∷ cs) k =
    ground (arith, contains-insert_by le c (sort_by le cs) k, contains-sort_by le cs k)

delete_full :
    (ids : List ℕ) (cs : List Credential)
    → All (λ c. contains ids c.id ≡ true) cs
    → delete (in_chunk ids) cs ≡ []
unfolding delete
delete_full ids [] h = refl
delete_full ids (c ∷ cs) (h, hs) = ground (arith, h, delete_full ids cs hs)

own_ids : (cs : List Credential) → All (λ c. contains (map (λ d. d.id) cs) c.id ≡ true) cs
unfolding contains
own_ids [] = tt
own_ids (c ∷ cs) = (
  ground arith,
  All-map (λ d. contains (map (λ e. e.id) cs) d.id ≡ true) _ cs (λ d h. ground (arith, h))
      (own_ids cs),
)

-- A job for every credential leaves the table empty, whatever rows it has when the job is processed.
pub queue_delete_all-process_job :
    (show : ℕ → String) (earlier db : Db) (queued now end : ℕ) (user_id : Option ℕ)
    → (job : Job) × ((queue_delete_all earlier queued user_id).1 ≡ ok job)
      × ((process_job show db now end job).0.credentials ≡ [])
unfolding queue_delete_all resolve_target_ids
queue_delete_all-process_job show earlier db queued now end user_id =
    let job = new_job earlier.next_id queued user_id all none none in
    let le : Credential → Credential → Bool = λ c d. leb c.id d.id in
    let targets = map (λ c. c.id) (sort_by le db.credentials) in
    (
      job,
      refl,
      (process_job_outcome show db now end job).0
          ∙ delete_full targets db.credentials (
              All-map (λ c. contains (map (λ d. d.id) db.credentials) c.id ≡ true) _ db.credentials
                (λ c h. contains-sort_by le db.credentials c.id ∙ h) (own_ids db.credentials)),
    )
