-- ===== src/Vpn/Pool/Concurrency/Refinement.antt =====
-- The transactions implement the pool without transactions.
use cyberx_event_mgmt.Base.{
  List-cases, ℕ, String, Option, some, Bool, true, false, List, [], ◌∷◌, map, ◌≡◌, refl, ap, ◌∙◌,
  arith, subst, inl, inr, Bool-cases, ◌==◌, contains, All, find, update, find-all, find-update,
  Unique,
}
use cyberx_event_mgmt.Vpn.Data.{Credential, Db, key_of, has_id}
use cyberx_event_mgmt.Vpn.Pool.{
  is_free, choose, Snapshot, take_for, assign_chosen, assign_vpn, snapshot_of, find_user,
}
use cyberx_event_mgmt.Vpn.Pool.Accounting.{take_for-id, take_for-taken}
use cyberx_event_mgmt.Vpn.Pool.Concurrency.{
  Claim, System, is_locked, Takes, Step, claims, commits, rolls_back, Reach, here, next, Assigns,
  assigns, Runs, start_of, then_assigns,
}
use cyberx_event_mgmt.Vpn.Pool.Concurrency.Exclusion.{
  HoldsFree, IsExclusive, All-without, Reach-IsExclusive, initial,
}

-- A step of the system is an assignment of the specification, or leaves the table alone.
Step-Runs :
    {start : List Credential} {s t : System}
    → Step s t
    → IsExclusive s
    → Runs start s.table
    → Runs start t.table
Step-Runs (claims s rank kind n f takes) v r = r
Step-Runs (rolls_back s before c after e) v r = r
Step-Runs (commits s before c after e) v r =
    let (takes, changes) =
      All-without (λ d. Takes d.change) before c after
        (subst (All (λ d. Takes d.change)) e v.changes) in
    let (own, free) =
      All-without (HoldsFree s.table) before c after (subst (All (HoldsFree s.table)) e v.free) in
    then_assigns r (assigns s.table c.kind c.rows c.change takes own)

-- From a table with distinct ids and no open transaction, whatever transactions claim, commit and
-- roll back in whatever order, the table is one that assignments of free rows lead to one by one.
pub pool_refines :
    (table : List Credential) (s : System)
    → Unique key_of table
    → Reach (record { table = table; claims = [] }) s
    → Runs table s.table
pool_refines table s u here = start_of
pool_refines table s u (next r st) =
    Step-Runs st (Reach-IsExclusive (initial table u) r) (pool_refines table _ u r)

-- An assignment leaves the rows alone that are not free.
Assigns-keeps :
    {table after : List Credential} (i : ℕ) (r : Credential)
    → Assigns table after
    → find (has_id i) table ≡ some r
    → r.is_available ≡ false
    → find (has_id i) after ≡ some r
Assigns-keeps i r (assigns table kind rows f t h) found gone =
    let p : Credential → Bool = λ c. contains rows c.id in
    let free = find-all (λ c. p c ≡ true → is_free kind c ≡ true) (has_id i) table r found h in
    let kept = find-update p (has_id i) f table (λ c. ap (λ k. k == i) (t.keeps c)) in
    elim (Bool-cases (p r)) [
      | inl mine ↦ absurd (ground (arith, free mine, gone))
      | inr other ↦ kept ∙ rw (found, other) refl
    ]

Runs-keeps :
    {table after : List Credential} (i : ℕ) (r : Credential)
    → Runs table after
    → find (has_id i) table ≡ some r
    → r.is_available ≡ false
    → find (has_id i) after ≡ some r
Runs-keeps i r start_of found gone = found
Runs-keeps i r (then_assigns runs a) found gone =
    Assigns-keeps i r a (Runs-keeps i r runs found gone) gone

-- A row that is out of the pool is never given to anyone else: whatever transactions claim, commit
-- and roll back in whatever order, it stays as it is.
pub assigned_row_kept :
    (table : List Credential) (s : System) (i : ℕ) (r : Credential)
    → Unique key_of table
    → Reach (record { table = table; claims = [] }) s
    → find (has_id i) table ≡ some r
    → r.is_available ≡ false
    → find (has_id i) s.table ≡ some r
assigned_row_kept table s i r u reached found gone =
    Runs-keeps i r (pool_refines table s u reached) found gone

take_for-Takes :
    (now i : ℕ) (username : Option String) (o : Option Snapshot) → Takes (take_for now i username o)
take_for-Takes now i username o = record {
  keeps = take_for-id now i username o;
  takes = take_for-taken now i username o;
}

-- A call of `assign_vpn` by itself is a transaction that claims and commits.
pub assign_vpn-Reach :
    (strip : String → String) (rank : ℕ → ℕ) (db : Db) (now user_id : ℕ) (username : Option String)
    → Reach
        (record { table = db.credentials; claims = [] })
        (record {
          table = (assign_vpn strip rank (is_locked []) db now user_id username).0.credentials;
          claims = [];
        })
unfolding assign_vpn assign_chosen
assign_vpn-Reach strip rank db now user_id username =
    let f = take_for now user_id username (snapshot_of strip (find_user db.users user_id)) in
    let s : System = record { table = db.credentials; claims = [] } in
    let c : Claim = record {
      rows = map key_of (choose rank (is_locked []) "USER_REQUESTABLE" 1 db.credentials);
      kind = "USER_REQUESTABLE";
      change = f;
    } in
    let claimed : Reach s
        (record { table = update (λ r. contains c.rows r.id) f db.credentials; claims = [] }) =
      next
        (next here (
          claims s rank "USER_REQUESTABLE" 1 f
            (take_for-Takes now user_id username (snapshot_of strip (find_user db.users user_id)))))
        (commits (record { table = db.credentials; claims = c ∷ [] }) [] c [] refl) in
    elim (List-cases (choose rank (is_locked []) "USER_REQUESTABLE" 1 db.credentials)) [
      | inl nothing ↦ rw nothing here
      | inr (c, cs, some_rows) ↦ rw some_rows (rw some_rows at claimed)
    ]
