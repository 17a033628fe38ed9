-- ===== src/VpnDelete/Chunks/Accounting.antt =====
-- Every id is counted as deleted or as failed, and the stored errors are capped.
use cyberx_event_mgmt.Base.{
  ℕ, zero, suc, ◌+◌, ◌*◌, ◌/◌, ◌≤◌, min, String, some, true, false, not, List, [], ◌∷◌, ◌≡◌, ◌≢◌,
  refl, ap, arith, inl, inr, Bool-cases, ◌==◌, ==→eq, is_some, contains, length, take, drop,
  length-take, length-drop, length-append, select, count, find, All, All-map, Unique, Unique-delete,
  if◌then◌else◌,
}
use cyberx_event_mgmt.VpnDelete.Data.{Credential, Job, has_id}
use cyberx_event_mgmt.VpnDelete.Chunks.{
  chunk_size, max_stored_errors, not_found, Work, record_error, record_missing, in_chunk, found_ids,
  missing, process_chunk, run_chunks, resolve_target_ids, run_delete,
}
use cyberx_event_mgmt.VpnDelete.Chunks.Removal.{
  count_none, found_ids_iff, length-found_ids, record_missing-rest,
}

-- The stored errors are as many as failed, up to the cap.
abbrev pub IsCapped : Job → Type 0
IsCapped job = length job.errors ≡ min job.failed_count max_stored_errors

record_missing-IsCapped :
    (show : ℕ → String) (job : Job) (ids : List ℕ)
    → IsCapped job
    → IsCapped (record_missing show job ids)
unfolding record_missing
record_missing-IsCapped show job [] h = h
record_missing-IsCapped show job (i ∷ ids) h =
    record_missing-IsCapped show (record_error job (not_found show i)) ids
      (one job (not_found show i) h)
  where
    one : (job : Job) (message : String) → IsCapped job → IsCapped (record_error job message)
    one job message h = ground (arith, h, length-append job.errors (message ∷ []))

run_chunks-IsCapped :
    (show : ℕ → String) (n : ℕ) (ids : List ℕ) (w : Work)
    → IsCapped w.job
    → IsCapped (run_chunks show n ids w).job
unfolding run_chunks process_chunk
run_chunks-IsCapped show zero ids w h = h
run_chunks-IsCapped show (suc n) ids w h =
    run_chunks-IsCapped show n (drop chunk_size ids) (process_chunk show (take chunk_size ids) w)
      (record_missing-IsCapped show w.job _ h)

pub run_delete-IsCapped :
    (show : ℕ → String) (w : Work) → IsCapped w.job → IsCapped (run_delete show w).job
unfolding run_delete
run_delete-IsCapped show w h =
    let ids = resolve_target_ids w.job w.credentials in
    run_chunks-IsCapped show ((length ids + 199) / 200) ids
      (record w { job = record w.job { total_credentials = some (length ids) } }) h

abbrev pub Distinct : List ℕ → Type 0
Distinct [] = Unit
Distinct (i ∷ is) = (contains is i ≡ false) × Distinct is

abbrev pub UniqueIds : List Credential → Type 0
UniqueIds cs = Unique (λ (c : Credential). c.id) cs

count-other : (i : ℕ) (cs : List Credential) → All (λ c. i ≢ c.id) cs → count (has_id i) cs ≡ 0
unfolding count
count-other i [] h = refl
count-other i (c ∷ cs) (h, hs) = ground (arith, h, count-other i cs hs)

-- With distinct keys a row is there once or not at all.
count_own :
    (i : ℕ) (cs : List Credential)
    → UniqueIds cs
    → count (has_id i) cs ≡ (if is_some (find (has_id i) cs) then 1 else 0)
unfolding count find
count_own i [] u = refl
count_own i (c ∷ cs) (d, u) = elim (Bool-cases (c.id == i)) [
  | inl same ↦
      let others = count-other c.id cs d in
      ground (arith, same, others, ap (λ k. count (has_id k) cs) (==→eq c.id i same))
  | inr other ↦ ground (arith, other, count_own i cs u)
]

count_cons :
    (i : ℕ) (ids : List ℕ) (cs : List Credential)
    → contains ids i ≡ false
    → count (in_chunk (i ∷ ids)) cs ≡ count (has_id i) cs + count (in_chunk ids) cs
unfolding count contains
count_cons i ids [] h = refl
count_cons i ids (c ∷ cs) h = elim (Bool-cases (c.id == i)) [
  | inl same ↦ ground (arith, h, same, count_cons i ids cs h, ap (contains ids) (==→eq c.id i same))
  | inr other ↦ ground (arith, other, count_cons i ids cs h)
]

-- Each of the ids is one of a row or of none.
count_ids :
    (ids : List ℕ) (cs : List Credential)
    → UniqueIds cs
    → Distinct ids
    → count (in_chunk ids) cs + count (λ i. not (is_some (find (has_id i) cs))) ids ≡ length ids
unfolding count
count_ids [] cs u d = omega (arith, count_none cs)
count_ids (i ∷ ids) cs u (d, ds) =
    ground (arith, count_cons i ids cs d, count_own i cs u, count_ids ids cs u ds)

-- Those of a chunk that are not found, by the table.
length-missing :
    (chunk ids : List ℕ) (cs : List Credential)
    → All (λ i. contains chunk i ≡ true) ids
    → length (select (λ i. not (contains (found_ids chunk cs) i)) ids)
      ≡ count (λ i. not (is_some (find (has_id i) cs))) ids
unfolding select count
length-missing chunk [] cs h = refl
length-missing chunk (i ∷ ids) cs (h, hs) =
    ground (arith, h, found_ids_iff chunk cs i, length-missing chunk ids cs hs)

self-contained : (ids : List ℕ) → All (λ i. contains ids i ≡ true) ids
unfolding contains
self-contained [] = tt
self-contained (i ∷ ids) = (
  ground arith,
  All-map (λ j. contains ids j ≡ true) _ ids (λ j h. ground (arith, h)) (self-contained ids),
)

process_chunk-counts :
    (show : ℕ → String) (chunk : List ℕ) (w : Work)
    → UniqueIds w.credentials
    → Distinct chunk
    → let job = (process_chunk show chunk w).job in
      job.deleted_count + job.failed_count
      ≡ (w.job.deleted_count + w.job.failed_count) + length chunk
unfolding process_chunk
process_chunk-counts show chunk w u d =
    let (deleted, _, _, failed) = record_missing-rest show w.job (missing chunk w.credentials) in
    omega (
      arith,
      deleted,
      failed,
      length-found_ids chunk w.credentials,
      length-missing chunk chunk w.credentials (self-contained chunk),
      count_ids chunk w.credentials u d,
    )

contains-take :
    (n : ℕ) (ids : List ℕ) (i : ℕ) → contains ids i ≡ false → contains (take n ids) i ≡ false
unfolding contains
contains-take zero ids i h = refl
contains-take (suc n) [] i h = refl
contains-take (suc n) (j ∷ ids) i h = ground (arith, h, contains-take n ids i)

Distinct-take : (n : ℕ) (ids : List ℕ) → Distinct ids → Distinct (take n ids)
Distinct-take zero ids d = tt
Distinct-take (suc n) [] d = tt
Distinct-take (suc n) (i ∷ ids) (d, ds) = (contains-take n ids i d, Distinct-take n ids ds)

Distinct-drop : (n : ℕ) (ids : List ℕ) → Distinct ids → Distinct (drop n ids)
Distinct-drop zero ids d = d
Distinct-drop (suc n) [] d = tt
Distinct-drop (suc n) (i ∷ ids) (d, ds) = Distinct-drop n ids ds

run_chunks-counts :
    (show : ℕ → String) (n : ℕ) (ids : List ℕ) (w : Work)
    → length ids ≤ n * 200
    → UniqueIds w.credentials
    → Distinct ids
    → let job = (run_chunks show n ids w).job in
      job.deleted_count + job.failed_count ≡ (w.job.deleted_count + w.job.failed_count) + length ids
unfolding run_chunks process_chunk
run_chunks-counts show zero ids w h u d = omega (arith, h)
run_chunks-counts show (suc n) ids w h u d =
    let chunk = take chunk_size ids in
    let later = drop chunk_size ids in
    omega (
      arith,
      process_chunk-counts show chunk w u (Distinct-take chunk_size ids d),
      run_chunks-counts show n later (process_chunk show chunk w)
          (omega (arith, h, length-drop chunk_size ids))
          (Unique-delete (λ (c : Credential). c.id)
            (λ c. contains (found_ids chunk w.credentials) c.id) w.credentials u)
          (Distinct-drop chunk_size ids d),
      length-take chunk_size ids,
      length-drop chunk_size ids,
    )

pub run_delete-counts :
    (show : ℕ → String) (w : Work)
    → let ids = resolve_target_ids w.job w.credentials in
      let job = (run_delete show w).job in
      UniqueIds w.credentials
      → Distinct ids
      → job.deleted_count + job.failed_count
        ≡ (w.job.deleted_count + w.job.failed_count) + length ids
unfolding run_delete
run_delete-counts show w u d =
    let ids = resolve_target_ids w.job w.credentials in
    run_chunks-counts show ((length ids + 199) / 200) ids
      (record w { job = record w.job { total_credentials = some (length ids) } }) (omega arith) u d
