-- ===== src/Vpn/Cycle.antt =====
-- `get_instance_vpn` and `AgentService.cycle_vpn`, without the text of the configuration that it
-- answers with. The old credential is burned by the commit of the new one's assignment: the session
-- does not flush before (`autoflush=False`), and a failed cycle raises before any commit.
pub mod Ties
use cyberx_event_mgmt.Base.{
  ℕ, String, Option, none, some, Bool, true, false, List, [], ◌∷◌, ◌==◌, opt_eq, leb, select,
  sort_by, update, Result, ok, raised, value_error,
}
use Prim.Native.String.{◌++◌ as str_append}
use cyberx_event_mgmt.Vpn.Data.{Credential, Db, has_id}
use cyberx_event_mgmt.Vpn.Pool.{put_rows, Answer, assign_vpn_to_instance}

-- `ORDER BY assigned_at DESC`, in which NULL comes first.
abbrev pub is_before : Option ℕ → Option ℕ → Bool
is_before none t = true
is_before (some s) none = false
is_before (some s) (some t) = leb t s

abbrev pub comes_first : Credential → Credential → Bool
comes_first a b = is_before a.assigned_at b.assigned_at

abbrev pub is_of_instance : ℕ → Credential → Bool
is_of_instance i c = opt_eq c.assigned_to_instance_id (some i)

first_row : List Credential → Option Credential
first_row [] = none
first_row (c ∷ cs) = some c

unfoldable pub get_instance_vpn : Db → ℕ → Option Credential
unfolding first_row
get_instance_vpn db i = first_row (sort_by comes_first (select (is_of_instance i) db.credentials))

unfoldable pub burn : Option Credential → Db → Db
burn none db = db
burn (some old) db = put_rows db (has_id old.id) (λ c. record c { is_available = false })

-- The answer of a cycle: the new credential, and the address that the instance gets.
pub record Cycled : Type 0 where
  pub new_vpn : Credential
  pub vpn_ip : Option String

finish_cycle : Db → Option Credential → Db × Answer → Db × Result Cycled
unfolding burn
finish_cycle db old (db', (true, message, some new)) =
    (burn old db', ok (record { new_vpn = new; vpn_ip = new.ipv4_address }))
finish_cycle db old (db', (true, message, none)) =
    (db, raised (value_error (str_append "Failed to assign new VPN: " message)))
finish_cycle db old (db', (false, message, found)) =
    (db, raised (value_error (str_append "Failed to assign new VPN: " message)))

unfoldable pub cycle_vpn : (ℕ → ℕ) → (ℕ → Bool) → Db → ℕ → ℕ → Db × Result Cycled
unfolding finish_cycle
cycle_vpn rank locked db now i =
    finish_cycle db (get_instance_vpn db i) (assign_vpn_to_instance rank locked db now i)
