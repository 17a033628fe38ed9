-- ===== src/Vpn/Data.antt =====
-- The table of VPN credentials, and what the service reads of users. Times are microseconds.
use cyberx_event_mgmt.Base.{ℕ, String, Option, Bool, List, ◌==◌}

-- A row of `vpn_credentials`. The columns of the WireGuard configuration stand in Vpn.Config.
pub record Credential : Type 0 where
  pub id : ℕ
  pub ipv4_address : Option String
  pub assignment_type : String
  pub assigned_to_username : Option String
  pub assigned_to_user_id : Option ℕ
  pub assigned_to_email : Option String
  pub assigned_to_name : Option String
  pub assigned_at : Option ℕ
  pub assigned_to_instance_id : Option ℕ
  pub assigned_instance_at : Option ℕ
  pub r2_key : Option String
  pub request_batch_id : Option String
  pub is_available : Bool
  pub is_active : Bool

pub record User : Type 0 where
  pub id : ℕ
  pub email : String
  pub first_name : Option String
  pub last_name : Option String

-- `r2_deletes` are the keys that the object store was asked to delete.
pub record Db : Type 0 where
  pub users : List User
  pub credentials : List Credential
  pub r2_deletes : List String

abbrev pub key_of : Credential → ℕ
key_of c = c.id

abbrev pub has_id : ℕ → Credential → Bool
has_id i c = c.id == i
