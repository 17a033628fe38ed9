-- ===== src/Vpn/Removal.antt =====
-- `delete_credentials` and `delete_all_credentials`. The session does not flush by itself
-- (`autoflush=False`), so every round looks its id up in the table as it was before the commit.
pub mod Duplicates
use Prim.Native.String.{◌++◌ as str_append}
use cyberx_event_mgmt.Base.{
  ℕ, suc, ◌+◌, String, Option, none, some, Bool, true, false, ◌||◌, List, [], ◌∷◌, ◌++◌, map,
  if◌then◌else◌, ◌==◌, str_eq, contains, find, delete,
}
use cyberx_event_mgmt.Vpn.Data.{Credential, Db, key_of, has_id}

-- The loop's variables, with the ids that are marked for deletion and the keys that were deleted.
pub record Progress : Type 0 where
  pub deleted_count : ℕ
  pub failed_ids : List ℕ
  pub errors : List String
  pub marked : List ℕ
  pub r2_deletes : List String

-- The object store's key, if the row has one.
abbrev pub stored_key : Option String → List String
stored_key none = []
stored_key (some key) = if str_eq key "" then [] else key ∷ []

module _ (show : ℕ → String) where
  remove_one : ℕ → Option Credential → Progress → Progress
  remove_one i none p = record p {
    failed_ids = p.failed_ids ++ i ∷ [];
    errors = p.errors ++ str_append "VPN " (str_append (show i) ": Not found") ∷ [];
  }
  remove_one i (some c) p = record p {
    deleted_count = p.deleted_count + 1;
    marked = c.id ∷ p.marked;
    r2_deletes = p.r2_deletes ++ stored_key c.r2_key;
  }

  remove_each : List Credential → List ℕ → Progress → Progress
  unfolding remove_one
  remove_each credentials [] p = p
  remove_each credentials (i ∷ ids) p =
      remove_each credentials ids (remove_one i (find (has_id i) credentials) p)

  unfoldable pub delete_credentials : Db → List ℕ → Db × (ℕ × List ℕ × List String)
  unfolding remove_each
  delete_credentials db vpn_ids =
      let p = remove_each db.credentials vpn_ids (record {
        deleted_count = 0;
        failed_ids = [];
        errors = [];
        marked = [];
        r2_deletes = db.r2_deletes;
      }) in
      (
        record db {
          credentials = delete (λ c. contains p.marked c.id) db.credentials;
          r2_deletes = p.r2_deletes;
        },
        (p.deleted_count, p.failed_ids, p.errors),
      )

  unfoldable pub delete_all_credentials : Db → Db × ℕ
  unfolding delete_credentials
  delete_all_credentials db =
      let (db', (deleted, _, _)) = delete_credentials db (map key_of db.credentials) in
      (db', deleted)
