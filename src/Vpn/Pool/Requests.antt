-- ===== src/Vpn/Pool/Requests.antt =====
-- How many rows a request gets, and whose they are then.
use mathlib.Core.Option
use cyberx_event_mgmt.Base.{find, Unique, ℕ, String, Option, some, false, List, ◌≡◌, All}
use cyberx_event_mgmt.Vpn.Data.{Credential, Db, key_of, has_id}
use cyberx_event_mgmt.Vpn.Pool.{take_in_batch, snapshot, find_user}

-- The row is the user's, of this batch, and out of the pool.
pub record IsTaken (user_id : ℕ) (batch_id : String) (c : Credential) : Type 0 where
  pub owner : c.assigned_to_user_id ≡ some user_id
  pub batch : c.request_batch_id ≡ some batch_id
  pub gone : c.is_available ≡ false

module _ (strip : String → String) (batch_id : String) (db : Db) (now user_id : ℕ)
    (username : Option String) where
  abbrev change : Credential → Credential
  change = take_in_batch now user_id username (snapshot strip (find_user db.users user_id)) batch_id

  -- The rows, their owner and their batch, and that the table has them.
  abbrev pub AreGiven : Db → List Credential → Type 0
  AreGiven db' rows =
      All (IsTaken user_id batch_id) rows
      × Unique key_of rows
      × All (λ c. find (has_id c.id) db'.credentials ≡ some c) rows
