-- ===== src/Vpn/Pool/Concurrency.antt =====
-- Claims of several transactions at once. A transaction selects its rows `FOR UPDATE SKIP LOCKED`,
-- holds them, and then commits its update or rolls back. The specification is a pool without
-- transactions.
pub mod Exclusion
pub mod Refinement
use cyberx_event_mgmt.Base.{
  ℕ, zero, suc, String, Option, none, some, Bool, true, false, not, ◌&&◌, ◌||◌, List, [], ◌∷◌, ◌++◌,
  map, ◌≡◌, refl, sym, ap, ◌∙◌, arith, subst, inl, inr, Bool-cases, if◌then◌else◌, ◌==◌, ==→eq,
  str_eq, contains, length, All, All-map, All-append, find, find-holds, update, find-all,
  find-update, All-update, ◌⊎◌, select, Option-cases, picks-All, leb, Unique, Unique-update, picks,
  is_picked, All-is_picked,
}
use cyberx_event_mgmt.Vpn.Data.{Credential, Db, key_of, has_id}
use cyberx_event_mgmt.Vpn.Pool.{
  is_free, choose, Snapshot, take_for, assign_chosen, assign_vpn, snapshot_of, find_user,
}
use cyberx_event_mgmt.Vpn.Pool.Accounting.{take_for-id, take_for-taken}

-- What a transaction holds between its select and its commit.
pub record Claim : Type 0 where
  pub rows : List ℕ
  pub kind : String
  pub change : Credential → Credential

pub record System : Type 0 where
  pub table : List Credential
  pub claims : List Claim

-- The rows that the open transactions hold.
unfoldable pub is_locked : List Claim → ℕ → Bool
is_locked [] i = false
is_locked (c ∷ cs) i = contains c.rows i || is_locked cs i

-- A change that an assignment makes: it keeps the id and makes the row unavailable.
pub record Takes (f : Credential → Credential) : Type 0 where
  pub keeps : (c : Credential) → (f c).id ≡ c.id
  pub takes : (c : Credential) → (f c).is_available ≡ false

pub data Step : System → System → Type 0 where
  claims :
      (s : System) (rank : ℕ → ℕ) (kind : String) (n : ℕ) (f : Credential → Credential)
      → Takes f
      → Step s (record s {
        claims =
            record {
              rows = map key_of (choose rank (is_locked s.claims) kind n s.table);
              kind = kind;
              change = f;
            }
            ∷ s.claims;
      })
  commits :
      (s : System) (before : List Claim) (c : Claim) (after : List Claim)
      → s.claims ≡ before ++ c ∷ after
      → Step s (record {
        table = update (λ r. contains c.rows r.id) c.change s.table;
        claims = before ++ after;
      })
  rolls_back :
      (s : System) (before : List Claim) (c : Claim) (after : List Claim)
      → s.claims ≡ before ++ c ∷ after
      → Step s (record s { claims = before ++ after })

pub data Reach (start : System) : System → Type 0 where
  here : Reach start start
  next : {mid end : System} → Reach start mid → Step mid end → Reach start end

-- The specification: an assignment takes rows of the pool at once, each of which is free then.
pub data Assigns : List Credential → List Credential → Type 0 where
  assigns :
      (table : List Credential) (kind : String) (rows : List ℕ) (f : Credential → Credential)
      → Takes f
      → All (λ c. contains rows c.id ≡ true → is_free kind c ≡ true) table
      → Assigns table (update (λ c. contains rows c.id) f table)

pub data Runs (start : List Credential) : List Credential → Type 0 where
  start_of : Runs start start
  then_assigns : {mid end : List Credential} → Runs start mid → Assigns mid end → Runs start end
