-- ===== src/License/Data.antt =====
-- The license tables (backend/app/models/license.py). Times are microseconds; the columns that the
-- service neither reads nor writes (`created_at`, `updated_at`, the keys of tokens and slots) are
-- left out. A token is looked up by its unique hash and a slot by its unique `slot_id`.
use cyberx_event_mgmt.Base.{ℕ, String, Option, Bool, List, ◌==◌, ◌&&◌, ℤ, find, count}

pub record Product : Type 0 where
  pub id : ℕ
  pub name : String
  pub description : Option String
  pub license_blob : String
  pub max_concurrent : ℕ
  pub slot_ttl : ℕ
  pub token_ttl : ℕ
  pub is_active : Bool
  pub download_filename : Option String

pub record Token : Type 0 where
  pub token_hash : String
  pub product_id : ℕ
  pub used : Bool
  pub used_at : Option ℕ
  pub used_by_ip : Option String
  pub instance_id : Option ℕ
  pub expires_at : ℕ

pub record Slot : Type 0 where
  pub slot_id : String
  pub product_id : ℕ
  pub hostname : String
  pub ip_address : String
  pub acquired_at : ℕ
  pub released_at : Option ℕ
  pub result : Option String
  pub elapsed_seconds : Option ℤ
  pub is_active : Bool

-- The database as the service sees it; `next_product_id` is the sequence behind the primary key.
pub record Db : Type 0 where
  pub products : List Product
  pub tokens : List Token
  pub slots : List Slot
  pub next_product_id : ℕ

abbrev pub is_product : ℕ → Product → Bool
is_product product_id p = p.id == product_id

-- `get_product`.
unfoldable pub get_product : Db → ℕ → Option Product
get_product db product_id = find (is_product product_id) db.products

abbrev pub is_active_slot : ℕ → Slot → Bool
is_active_slot product_id s = s.product_id == product_id && s.is_active

-- The count of a product's active slots, as `acquire_slot` queries it.
unfoldable pub active_slots : Db → ℕ → ℕ
active_slots db product_id = count (is_active_slot product_id) db.slots
