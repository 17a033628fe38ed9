-- ===== src/VpnDelete/Chunks/Removal.antt =====
-- Which credentials the loop removes, and how they are counted.
use cyberx_event_mgmt.Base.{
  ℕ, zero, suc, ◌+◌, ◌*◌, ◌/◌, ◌≤◌, String, some, true, ◌&&◌, List, [], ◌∷◌, ◌++◌, ◌≡◌, refl, sym,
  ap, ◌∙◌, arith, inl, inr, Bool-cases, ◌==◌, ==→eq, is_some, contains, length, take, drop,
  length-take, length-drop, take-append-drop, select, count, find, delete, delete-cong,
  contains-append, All, All-map,
}
use cyberx_event_mgmt.VpnDelete.Data.{Credential, Job, has_id}
use cyberx_event_mgmt.VpnDelete.Chunks.{
  chunk_size, Work, not_found, record_error, record_missing, in_chunk, found_ids, missing,
  process_chunk, run_chunks, resolve_target_ids, run_delete,
}

-- An id is found exactly when it is in the chunk and in the table.
pub found_ids_iff :
    (chunk : List ℕ) (cs : List Credential) (i : ℕ)
    → contains (found_ids chunk cs) i ≡ contains chunk i && is_some (find (has_id i) cs)
unfolding contains select find
found_ids_iff chunk [] i = ground arith
found_ids_iff chunk (c ∷ cs) i = elim (Bool-cases (c.id == i)) [
  | inl same ↦
      ground (arith, found_ids_iff chunk cs i, same, ap (contains chunk) (==→eq c.id i same))
  | inr other ↦ ground (arith, found_ids_iff chunk cs i, other)
]

stored : (cs : List Credential) → All (λ c. is_some (find (has_id c.id) cs) ≡ true) cs
unfolding find
stored [] = tt
stored (c ∷ cs) = (
  ground arith,
  All-map (λ d. is_some (find (has_id d.id) cs) ≡ true) _ cs (λ d h. ground (arith, h)) (stored cs),
)

-- The rows that a chunk removes are those with an id of it.
delete-found_ids :
    (chunk : List ℕ) (cs : List Credential)
    → delete (λ c. contains (found_ids chunk cs) c.id) cs ≡ delete (in_chunk chunk) cs
delete-found_ids chunk cs =
    delete-cong (λ c. contains (found_ids chunk cs) c.id) (in_chunk chunk) cs
      (All-map (λ c. is_some (find (has_id c.id) cs) ≡ true) _ cs
        (λ c h. ground (arith, h, found_ids_iff chunk cs c.id)) (stored cs))

pub length-found_ids :
    (chunk : List ℕ) (cs : List Credential)
    → length (found_ids chunk cs) ≡ count (in_chunk chunk) cs
unfolding select count
length-found_ids chunk [] = refl
length-found_ids chunk (c ∷ cs) = ground (arith, length-found_ids chunk cs)

delete-delete :
    (xs ys : List ℕ) (cs : List Credential)
    → delete (in_chunk ys) (delete (in_chunk xs) cs) ≡ delete (in_chunk (xs ++ ys)) cs
unfolding delete
delete-delete xs ys [] = refl
delete-delete xs ys (c ∷ cs) = ground (arith, contains-append xs ys c.id, delete-delete xs ys cs)

count-delete :
    (xs ys : List ℕ) (cs : List Credential)
    → count (in_chunk xs) cs + count (in_chunk ys) (delete (in_chunk xs) cs)
      ≡ count (in_chunk (xs ++ ys)) cs
unfolding delete count
count-delete xs ys [] = refl
count-delete xs ys (c ∷ cs) = ground (arith, contains-append xs ys c.id, count-delete xs ys cs)

-- Errors leave the other counters alone.
pub record_missing-rest :
    (show : ℕ → String) (job : Job) (ids : List ℕ)
    → ((record_missing show job ids).deleted_count ≡ job.deleted_count)
      × ((record_missing show job ids).processed_credentials ≡ job.processed_credentials)
      × ((record_missing show job ids).total_credentials ≡ job.total_credentials)
      × ((record_missing show job ids).failed_count ≡ job.failed_count + length ids)
unfolding record_missing record_error
record_missing-rest show job [] = (refl, refl, refl, omega arith)
record_missing-rest show job (i ∷ ids) =
    let rest = record_missing-rest show (record_error job (not_found show i)) ids in
    ground (arith, rest)

-- What is done to the table and the counters when the ids are worked through.
pub record Removes (ids : List ℕ) (before after : Work) : Type 0 where
  pub removed : after.credentials ≡ delete (in_chunk ids) before.credentials
  pub deleted :
      after.job.deleted_count ≡ before.job.deleted_count + count (in_chunk ids) before.credentials
  pub processed : after.job.processed_credentials ≡ before.job.processed_credentials + length ids
  pub total : after.job.total_credentials ≡ before.job.total_credentials

process_chunk-Removes :
    (show : ℕ → String) (chunk : List ℕ) (w : Work) → Removes chunk w (process_chunk show chunk w)
unfolding process_chunk
process_chunk-Removes show chunk w =
    let (deleted, processed, total, _) =
      record_missing-rest show w.job (missing chunk w.credentials) in
    record {
      removed = delete-found_ids chunk w.credentials;
      deleted = omega (arith, deleted, length-found_ids chunk w.credentials);
      processed = omega (arith, processed);
      total = total;
    }

delete_none : (cs : List Credential) → delete (in_chunk []) cs ≡ cs
unfolding delete contains
delete_none [] = refl
delete_none (c ∷ cs) = ground (arith, delete_none cs)

pub count_none : (cs : List Credential) → count (in_chunk []) cs ≡ 0
unfolding count contains
count_none [] = refl
count_none (c ∷ cs) = ground (arith, count_none cs)

run_chunks-Removes :
    (show : ℕ → String) (n : ℕ) (ids : List ℕ) (w : Work)
    → length ids ≤ n * 200
    → Removes ids w (run_chunks show n ids w)
unfolding run_chunks delete count contains
run_chunks-Removes show zero [] w h = record {
  removed = sym (delete_none w.credentials);
  deleted = omega (arith, count_none w.credentials);
  processed = omega arith;
  total = refl;
}
run_chunks-Removes show zero (i ∷ ids) w h = absurd (omega (arith, h))
run_chunks-Removes show (suc n) ids w h =
    let chunk = take chunk_size ids in
    let later = drop chunk_size ids in
    let first = process_chunk-Removes show chunk w in
    let rest =
      run_chunks-Removes show n later (process_chunk show chunk w)
        (omega (arith, h, length-drop chunk_size ids)) in
    let whole : chunk ++ later ≡ ids = take-append-drop chunk_size ids in
    record {
      removed =
          rest.removed
          ∙ ap (delete (in_chunk later)) first.removed
          ∙ delete-delete chunk later w.credentials
          ∙ ap (λ l. delete (in_chunk l) w.credentials) whole;
      deleted = omega (
        arith,
        rest.deleted,
        first.deleted,
        ap (count (in_chunk later)) first.removed,
        count-delete chunk later w.credentials,
        ap (λ l. count (in_chunk l) w.credentials) whole,
      );
      processed = omega (
        arith,
        rest.processed,
        first.processed,
        length-take chunk_size ids,
        length-drop chunk_size ids,
      );
      total = rest.total ∙ first.total;
    }

-- The number of rounds is enough for all the ids.
pub run_delete-Removes :
    (show : ℕ → String) (w : Work)
    → let ids = resolve_target_ids w.job w.credentials in
      Removes ids
        (record w { job = record w.job { total_credentials = some (length ids) } })
        (run_delete show w)
unfolding run_delete
run_delete-Removes show w =
    let ids = resolve_target_ids w.job w.credentials in
    run_chunks-Removes show ((length ids + 199) / 200) ids
      (record w { job = record w.job { total_credentials = some (length ids) } }) (omega arith)
