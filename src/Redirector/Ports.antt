-- ===== src/Redirector/Ports.antt =====
-- `_allocate_bridge_port`: the lowest free port of the bridge range.
pub mod Lowest
use cyberx_event_mgmt.Base.{
  ℕ, zero, suc, ◌+◌, ◌-◌, String, Option, none, some, Bool, List, [], ◌∷◌, if◌then◌else◌, contains,
  select, str_eq, Result, ok, raised, no_bridge_port_available,
}
use cyberx_event_mgmt.Redirector.Data.{Stream}

abbrev pub sni_bridge_port_min : ℕ
sni_bridge_port_min = 10000

abbrev pub sni_bridge_port_max : ℕ
sni_bridge_port_max = 10998

abbrev pub add_port : Option ℕ → List ℕ → List ℕ
add_port none ports = ports
add_port (some p) ports = p ∷ ports

-- The bridge ports that streams hold.
unfoldable pub bridge_ports : List Stream → List ℕ
bridge_ports [] = []
bridge_ports (s ∷ ss) = add_port s.internal_bridge_port (bridge_ports ss)

abbrev pub of_redirector : String → Stream → Bool
of_redirector redirector_id s = str_eq s.redirector_id redirector_id

unfoldable pub used_ports : List Stream → String → List ℕ
used_ports streams redirector_id = bridge_ports (select (of_redirector redirector_id) streams)

-- The loop over `range(candidate, candidate + n)`.
unfoldable pub first_free : List ℕ → ℕ → ℕ → Option ℕ
first_free used candidate zero = none
first_free used candidate (suc n) =
    let rest = first_free used (suc candidate) n in
    if contains used candidate then rest else some candidate

or_exhausted : Option ℕ → Result ℕ
or_exhausted none = raised no_bridge_port_available
or_exhausted (some p) = ok p

unfoldable pub allocate_bridge_port : List Stream → String → Result ℕ
unfolding or_exhausted
allocate_bridge_port streams redirector_id = or_exhausted (
    first_free (used_ports streams redirector_id) sni_bridge_port_min
      (sni_bridge_port_max + 1 - sni_bridge_port_min))
