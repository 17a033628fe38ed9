-- ===== src/Vpn/Removal/Duplicates.antt =====
-- What a removal deletes, and what it says it deleted.
use cyberx_event_mgmt.Base.{
  ℕ, ◌+◌, String, Option, none, some, Bool, ◌&&◌, ◌||◌, List, [], ◌∷◌, ◌≡◌, refl, ap, arith, inl,
  inr, Bool-cases, is_some, if◌then◌else◌, ◌==◌, ==→eq, contains, length, length-append, count,
  find, find-holds, delete, delete-cong, Unique, All-map, Unique-find,
}
use cyberx_event_mgmt.Vpn.Data.{Credential, Db, key_of, has_id}
use cyberx_event_mgmt.Vpn.Removal.{Progress, remove_one, remove_each, delete_credentials}

abbrev pub is_stored : List Credential → ℕ → Bool
is_stored cs i = is_some (find (has_id i) cs)

remove_one-counts :
    (show : ℕ → String) (cs : List Credential) (j : ℕ) (o : Option Credential) (p : Progress)
    → find (has_id j) cs ≡ o
    → let q = remove_one show j o p in
      (q.deleted_count ≡ p.deleted_count + (if is_some o then 1 else 0))
      × (q.deleted_count + length q.failed_ids ≡ p.deleted_count + length p.failed_ids + 1)
      × ((i : ℕ) → contains q.marked i ≡ contains p.marked i || (j == i && is_some o))
unfolding remove_one contains
remove_one-counts show cs j none p e =
    (omega arith, omega (arith, length-append p.failed_ids (j ∷ [])), λ i. ground arith)
remove_one-counts show cs j (some c) p e =
    let at : c.id ≡ j = ==→eq c.id j (find-holds (has_id j) cs e) in
    (refl, omega arith, λ i. ground (arith, at))

-- What the rounds do for each id: counted as deleted if it is stored, else as failed.
remove_each-counts :
    (show : ℕ → String) (cs : List Credential) (ids : List ℕ) (p : Progress)
    → let q = remove_each show cs ids p in
      (q.deleted_count ≡ p.deleted_count + count (is_stored cs) ids)
      × (q.deleted_count + length q.failed_ids
          ≡ (p.deleted_count + length p.failed_ids) + length ids)
      × ((i : ℕ) → contains q.marked i ≡ contains p.marked i || (contains ids i && is_stored cs i))
unfolding remove_each count contains
remove_each-counts show cs [] p = (omega arith, omega arith, λ i. ground arith)
remove_each-counts show cs (j ∷ ids) p =
    let p' = remove_one show j (find (has_id j) cs) p in
    let (deleted, whole, marked) = remove_each-counts show cs ids p' in
    let (one, one_whole, one_marked) = remove_one-counts show cs j (find (has_id j) cs) p refl in
    (
      ground (arith, deleted, one),
      omega (arith, whole, one_whole),
      λ i. elim (Bool-cases (j == i)) [
        | inl same ↦
            ground (arith, marked i, one_marked i, same, ap (is_stored cs) (==→eq j i same))
        | inr other ↦ ground (arith, marked i, one_marked i, other)
      ],
    )

-- The rows that are left are those with no id of the list; every id is counted as deleted or as
-- failed, and an id that stands twice in the list is counted twice.
pub delete_credentials_counts :
    (show : ℕ → String) (db : Db) (ids : List ℕ)
    → Unique key_of db.credentials
    → let (db', (deleted, failed, errors)) = delete_credentials show db ids in
      (db'.credentials ≡ delete (λ c. contains ids c.id) db.credentials)
      × (deleted ≡ count (is_stored db.credentials) ids)
      × (deleted + length failed ≡ length ids)
unfolding delete_credentials contains
delete_credentials_counts show db ids u =
    let p : Progress = record {
      deleted_count = 0;
      failed_ids = [];
      errors = [];
      marked = [];
      r2_deletes = db.r2_deletes;
    } in
    let (deleted, whole, marked) = remove_each-counts show db.credentials ids p in
    (
      delete-cong _ (λ c. contains ids c.id) db.credentials
          (All-map (λ c. find (λ x. x.id == c.id) db.credentials ≡ some c) _ db.credentials
            (λ c e. ground (arith, marked c.id, e)) (Unique-find key_of db.credentials u)),
      omega (arith, deleted),
      omega (arith, whole),
    )
