-- ===== src/Redirector/Examples.antt =====
-- The theorems on streams at concrete tables, and tests.
use cyberx_event_mgmt.Base.{
  is_some, ◌≤◌, ◌≡◌, refl, String, Option, none, some, true, List, [], ◌∷◌, ◌++◌, ◌⊎◌, arith,
  contains, select, find, ok, raised, stream_sni_collision,
}
use cyberx_event_mgmt.Redirector.Data.{Stream}
use cyberx_event_mgmt.Redirector.Ports.{
  sni_bridge_port_min, sni_bridge_port_max, used_ports, bridge_ports, first_free,
  allocate_bridge_port,
}
use cyberx_event_mgmt.Redirector.Ports.Lowest.{holds, allocate_bridge_port_lowest}
use cyberx_event_mgmt.Redirector.Streams.{
  StreamData, new_stream, any_stream, check_sni_collision, bridge_port, create_stream,
}
use cyberx_event_mgmt.Redirector.Streams.History.{Reach, here, next, creates, shared_port_routed}

abbrev site : Option String → StreamData
site sni = record {
  name = "site";
  protocol = none;
  listen_port = 443;
  cs_ip = "10.0.0.9";
  cs_port = 8443;
  sni_hostname = sni;
  access_control_enabled = none;
  allowed_cidrs = none;
  ssl_enabled = some true;
  ssl_cert_path = some "/c.pem";
  ssl_key_path = some "/k.pem";
  ssl_protocols = none;
  ssl_ciphers = none;
  enabled = none;
}

abbrev one : List Stream
one = new_stream "s1" "r" (site (some "a.org")) (some 10000) ∷ []

abbrev two : List Stream
two = one ++ new_stream "s2" "r" (site (some "b.org")) (some 10001) ∷ []

create_one : create_stream [] "s1" "r" (site (some "a.org")) ≡ ok one
unfolding create_stream check_sni_collision bridge_port allocate_bridge_port used_ports bridge_ports
    first_free any_stream select contains
create_one = refl

create_two : create_stream one "s2" "r" (site (some "b.org")) ≡ ok two
unfolding create_stream check_sni_collision bridge_port allocate_bridge_port used_ports bridge_ports
    first_free any_stream select contains
create_two = refl

-- A legacy stream is turned away from the port.
create_legacy :
    create_stream two "s3" "r" (site none)
    ≡ raised (stream_sni_collision "port hosts SNI-routed streams")
unfolding create_stream check_sni_collision any_stream select
create_legacy = refl

two_reached : Reach [] two
two_reached =
    next (next here (creates "s1" "r" (site (some "a.org")) one create_one))
      (creates "s2" "r" (site (some "b.org")) two create_two)

shared_port_routed_example : (true ≡ true) × (true ≡ true)
unfolding find
shared_port_routed_example =
    shared_port_routed two "s1" "s2" (new_stream "s1" "r" (site (some "a.org")) (some 10000))
      (new_stream "s2" "r" (site (some "b.org")) (some 10001)) two_reached refl refl refl refl refl

allocate_bridge_port_lowest_example :
    (sni_bridge_port_min ≤ 10001)
    × (10001 ≤ sni_bridge_port_max)
    × (find (holds "r" 10001) one ≡ none)
    × ((10001 ≤ 10000) ⊎ (is_some (find (holds "r" 10000) one) ≡ true))
unfolding allocate_bridge_port used_ports bridge_ports first_free select contains
allocate_bridge_port_lowest_example =
    allocate_bridge_port_lowest one "r" 10000 {p = 10001} refl (omega arith)
