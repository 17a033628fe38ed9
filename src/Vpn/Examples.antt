-- ===== src/Vpn/Examples.antt =====
-- The theorems on VPN credentials at concrete calls, and tests.
use cyberx_event_mgmt.Base.{
  ℕ, ◌≡◌, refl, String, none, some, Bool, true, false, [], ◌∷◌, arith, ok, contains, find, update,
  Unique, select, sort_by, codes, lstrip, rstrip, is_space,
}
use cyberx_event_mgmt.Vpn.Data.{Credential, Db, key_of, has_id}
use cyberx_event_mgmt.Vpn.Pool.{take_for, find_user, bulk_assign, assign_vpn}
use cyberx_event_mgmt.Vpn.Pool.Concurrency.{is_locked, Runs}
use cyberx_event_mgmt.Vpn.Pool.Concurrency.Refinement.{
  pool_refines, assigned_row_kept, assign_vpn-Reach,
}
use cyberx_event_mgmt.Vpn.Config.{
  Parsed, parse_wireguard_config, generate_wireguard_config, columns_of, nothing_yet,
}
use cyberx_event_mgmt.Vpn.Config.RoundTrip.{generate-parse_wireguard_config}

abbrev row : ℕ → String → Credential
row i kind = record {
  id = i;
  ipv4_address = some "10.0.0.1";
  assignment_type = kind;
  assigned_to_username = none;
  assigned_to_user_id = none;
  assigned_to_email = none;
  assigned_to_name = none;
  assigned_at = none;
  assigned_to_instance_id = none;
  assigned_instance_at = none;
  r2_key = none;
  request_batch_id = none;
  is_available = true;
  is_active = true;
}

abbrev start : Db
start = record {
  users = record { id = 7; email = "ada@x.org"; first_name = some "Ada"; last_name = none } ∷ [];
  credentials =
      row 1 "USER_REQUESTABLE" ∷ row 2 "INSTANCE_AUTO_ASSIGN" ∷ row 3 "USER_REQUESTABLE" ∷ [];
  r2_deletes = [];
}

three_ids :
    Unique key_of
      (row 1 "USER_REQUESTABLE" ∷ row 2 "INSTANCE_AUTO_ASSIGN" ∷ row 3 "USER_REQUESTABLE" ∷ [])
three_ids = ground arith

two_ids : Unique key_of (row 1 "USER_REQUESTABLE" ∷ row 2 "INSTANCE_AUTO_ASSIGN" ∷ [])
two_ids = ground arith

abbrev in_order : ℕ → ℕ
in_order i = i

abbrev unlocked : ℕ → Bool
unlocked i = false

abbrev no_digits : ℕ → String
no_digits i = "?"

abbrev trimmed : String → String
trimmed t = t

last_fails :
    (bulk_assign no_digits trimmed
      (λ r i. i)
      unlocked
      (λ i. none)
      (λ r. 100)
      start
      (7 ∷ 8 ∷ 9 ∷ [])).1.failed_ids
    ≡ 9 ∷ []
unfolding bulk_assign assign_vpn sort_by select update contains take_for find_user find
last_fails = refl

-- An assignment as a transaction.
pool_refines_example :
    Runs start.credentials
      (assign_vpn trimmed in_order (is_locked []) start 100 7 none).0.credentials
pool_refines_example =
    pool_refines start.credentials
      (record {
        table = (assign_vpn trimmed in_order (is_locked []) start 100 7 none).0.credentials;
        claims = [];
      })
      three_ids (assign_vpn-Reach trimmed in_order start 100 7 none)

-- The row 1 is gone, and stays so.
abbrev gone : Credential
gone = record (row 1 "USER_REQUESTABLE") { assigned_to_user_id = some 9; is_available = false }

abbrev taken : Db
taken = record start {
  credentials = gone ∷ row 2 "INSTANCE_AUTO_ASSIGN" ∷ row 3 "USER_REQUESTABLE" ∷ [];
}

assigned_row_kept_example :
    find (has_id 1) (assign_vpn trimmed in_order (is_locked []) taken 100 7 none).0.credentials
    ≡ some gone
unfolding find
assigned_row_kept_example =
    assigned_row_kept taken.credentials
      (record {
        table = (assign_vpn trimmed in_order (is_locked []) taken 100 7 none).0.credentials;
        claims = [];
      })
      1 gone three_ids (assign_vpn-Reach trimmed in_order taken 100 7 none) refl refl

-- The instance 4 has the row 1; its cycle takes the row 2.
abbrev linked : Credential
linked = record (row 1 "INSTANCE_AUTO_ASSIGN") {
  assigned_to_instance_id = some 4;
  assigned_instance_at = some 50;
  is_available = false;
}

abbrev in_use : Db
in_use = record start { credentials = linked ∷ row 2 "INSTANCE_AUTO_ASSIGN" ∷ [] }

abbrev parsed : Parsed
parsed = record nothing_yet {
  private_key = some (codes "kEy=");
  addresses = codes "10.0.0.2/32" ∷ codes "fd00::2/128" ∷ [];
  endpoint = some (codes "vpn.x.org:51820");
  mtu = some (codes "1420");
}

generate-parse_wireguard_config_example :
    parse_wireguard_config (generate_wireguard_config (columns_of parsed) (codes "sRv=")) none
    ≡ ok (record parsed { public_key = some (codes "sRv=") })
unfolding lstrip rstrip is_space contains
generate-parse_wireguard_config_example =
    generate-parse_wireguard_config parsed (codes "sRv=")
      (record {
        private_key_given = record { not_empty = refl; left = refl; right = refl; one_line = refl };
        addresses_given = (
          record {
            clean = record { not_empty = refl; left = refl; right = refl; one_line = refl };
            whole = refl;
          },
          (
            record {
              clean = record { not_empty = refl; left = refl; right = refl; one_line = refl };
              whole = refl;
            },
            tt,
          ),
        );
        endpoint_given = record { not_empty = refl; left = refl; right = refl; one_line = refl };
        preshared_key_clean = tt;
        mtu_clean = record { not_empty = refl; left = refl; right = refl; one_line = refl };
        dns_clean = tt;
        public_key_clean = tt;
        allowed_ips_clean = tt;
        persistent_keepalive_clean = tt;
        table_clean = tt;
        save_config_clean = tt;
        fwmark_clean = tt;
      })
      (record { not_empty = refl; left = refl; right = refl; one_line = refl })
