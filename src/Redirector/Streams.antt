-- ===== src/Redirector/Streams.antt =====
-- Creating, updating and deleting streams. Texts of exceptions are cut to their sense; a new id is
-- an argument, and the redirector's row is taken to be there.
pub mod Routing
pub mod History
use cyberx_event_mgmt.Base.{
  ℕ, String, Option, none, some, Bool, true, false, not, ◌&&◌, ◌||◌, List, [], ◌∷◌, ◌++◌,
  if◌then◌else◌, is_some, ◌==◌, str_eq, select, find, update, delete, Result, ok, raised, ◌>>=◌,
  Check, value_error, integrity_error, stream_sni_collision,
}
use cyberx_event_mgmt.Redirector.Data.{Stream, has_id, is_truthy, opt_str_eq, clashes}
use cyberx_event_mgmt.Redirector.Ports.{allocate_bridge_port}

-- The streams on a port of a redirector, but for one that is excluded.
abbrev pub is_at : String → ℕ → Option String → Stream → Bool
is_at redirector_id listen_port none s =
    str_eq s.redirector_id redirector_id && s.listen_port == listen_port
is_at redirector_id listen_port (some excluded) s =
    (str_eq s.redirector_id redirector_id && s.listen_port == listen_port)
    && not (str_eq s.id excluded)

-- `any` over a list.
unfoldable pub any_stream : (Stream → Bool) → List Stream → Bool
any_stream p [] = false
any_stream p (s ∷ ss) = p s || any_stream p ss

abbrev pub is_legacy : Stream → Bool
is_legacy s = not (is_some s.sni_hostname)

abbrev pub is_sni : Stream → Bool
is_sni s = is_some s.sni_hostname

-- With nothing on the port both tests fail, as the early return has it.
unfoldable pub collision : Option String → List Stream → Check
collision none existing =
    if any_stream is_sni existing
    then raised (stream_sni_collision "port hosts SNI-routed streams")
    else if any_stream is_legacy existing
    then raised (stream_sni_collision "port in use by a legacy stream")
    else ok tt
collision (some sni) existing =
    if any_stream is_legacy existing
    then raised (stream_sni_collision "port in use by a non-SNI stream")
    else ok tt

unfoldable pub check_sni_collision :
    List Stream → String → ℕ → Option String → Option String → Check
unfolding collision
check_sni_collision streams redirector_id listen_port sni_hostname excluded_stream_id =
    collision sni_hostname (select (is_at redirector_id listen_port excluded_stream_id) streams)

-- The keys that `create_stream` reads; `none` is a missing key where there is a default.
pub record StreamData : Type 0 where
  pub name : String
  pub protocol : Option String
  pub listen_port : ℕ
  pub cs_ip : String
  pub cs_port : ℕ
  pub sni_hostname : Option String
  pub access_control_enabled : Option Bool
  pub allowed_cidrs : Option (List String)
  pub ssl_enabled : Option Bool
  pub ssl_cert_path : Option String
  pub ssl_key_path : Option String
  pub ssl_protocols : Option String
  pub ssl_ciphers : Option String
  pub enabled : Option Bool

abbrev pub get_default : {A : Type 0} → Option A → A → A
get_default none d = d
get_default (some a) d = a

abbrev pub new_stream : String → String → StreamData → Option ℕ → Stream
new_stream i redirector_id d internal_bridge_port = record {
  id = i;
  redirector_id = redirector_id;
  name = d.name;
  protocol = get_default d.protocol "tcp";
  listen_port = d.listen_port;
  cs_ip = d.cs_ip;
  cs_port = d.cs_port;
  sni_hostname = d.sni_hostname;
  internal_bridge_port = internal_bridge_port;
  access_control_enabled = get_default d.access_control_enabled false;
  allowed_cidrs = d.allowed_cidrs;
  ssl_enabled = get_default d.ssl_enabled false;
  ssl_cert_path = d.ssl_cert_path;
  ssl_key_path = d.ssl_key_path;
  ssl_protocols = get_default d.ssl_protocols "TLSv1.2 TLSv1.3";
  ssl_ciphers = get_default d.ssl_ciphers "HIGH:!aNULL:!MD5";
  custom_config_override = none;
  enabled = get_default d.enabled false;
  deployed = false;
}

check_ssl : StreamData → ℕ → Result (Option ℕ)
check_ssl d p =
    if not (get_default d.ssl_enabled false)
    then raised (value_error "SNI-routed streams must have ssl_enabled=True.")
    else if not (is_truthy d.ssl_cert_path && is_truthy d.ssl_key_path)
    then raised (value_error "SNI-routed streams must have ssl_cert_path and ssl_key_path.")
    else ok (some p)

-- The bridge port of the new stream; an SNI stream needs TLS.
unfoldable pub bridge_port : List Stream → String → StreamData → Result (Option ℕ)
unfolding check_ssl
bridge_port streams redirector_id d =
    if is_truthy d.sni_hostname
    then allocate_bridge_port streams redirector_id >>= check_ssl d
    else ok none

-- The commit of a new row, under the unique constraints.
insert : List Stream → Stream → Result (List Stream)
insert streams s =
    if any_stream (clashes s) streams then raised integrity_error else ok (streams ++ s ∷ [])

-- The table after a call that succeeds; a call that raises changes nothing.
unfoldable pub create_stream : List Stream → String → String → StreamData → Result (List Stream)
unfolding insert
create_stream streams i redirector_id d =
    check_sni_collision streams redirector_id d.listen_port d.sni_hostname none >>= λ _.
    bridge_port streams redirector_id d >>= λ p. insert streams (new_stream i redirector_id d p)

-- The changed fields of `update_stream`: where there are two options, the outer `none` is a missing
-- key and `some none` a null. In the other fields a null does what a missing key does.
pub record StreamPatch : Type 0 where
  pub name : Option String
  pub protocol : Option String
  pub listen_port : Option (Option ℕ)
  pub cs_ip : Option String
  pub cs_port : Option ℕ
  pub access_control_enabled : Option Bool
  pub ssl_enabled : Option Bool
  pub ssl_cert_path : Option String
  pub ssl_key_path : Option String
  pub ssl_protocols : Option String
  pub ssl_ciphers : Option String
  pub enabled : Option Bool
  pub deployed : Option Bool
  pub allowed_cidrs : Option (Option (List String))
  pub custom_config_override : Option (Option String)
  pub sni_hostname : Option (Option String)

-- An optional column whose `setattr` skips nulls.
abbrev pub or_kept : Option String → Option String → Option String
or_kept none old = old
or_kept (some new) old = some new

-- A null is not stored.
abbrev pub port_after : Option (Option ℕ) → ℕ → ℕ
port_after none old = old
port_after (some none) old = old
port_after (some (some new)) old = new

abbrev pub patch_stream : StreamPatch → Stream → Stream
patch_stream k s = record {
  id = s.id;
  redirector_id = s.redirector_id;
  name = get_default k.name s.name;
  protocol = get_default k.protocol s.protocol;
  listen_port = port_after k.listen_port s.listen_port;
  cs_ip = get_default k.cs_ip s.cs_ip;
  cs_port = get_default k.cs_port s.cs_port;
  sni_hostname = get_default k.sni_hostname s.sni_hostname;
  internal_bridge_port = s.internal_bridge_port;
  access_control_enabled = get_default k.access_control_enabled s.access_control_enabled;
  allowed_cidrs = get_default k.allowed_cidrs s.allowed_cidrs;
  ssl_enabled = get_default k.ssl_enabled s.ssl_enabled;
  ssl_cert_path = or_kept k.ssl_cert_path s.ssl_cert_path;
  ssl_key_path = or_kept k.ssl_key_path s.ssl_key_path;
  ssl_protocols = get_default k.ssl_protocols s.ssl_protocols;
  ssl_ciphers = get_default k.ssl_ciphers s.ssl_ciphers;
  custom_config_override = get_default k.custom_config_override s.custom_config_override;
  enabled = get_default k.enabled s.enabled;
  deployed = get_default k.deployed s.deployed;
}

-- The guard against a change between legacy and SNI routing.
unfoldable pub check_toggle : StreamPatch → Stream → Check
check_toggle k s =
    if is_some s.sni_hostname && not (is_some (get_default k.sni_hostname s.sni_hostname))
      || not (is_some s.sni_hostname) && is_some (get_default k.sni_hostname s.sni_hostname)
    then raised (stream_sni_collision "cannot toggle between legacy and SNI routing")
    else ok tt

abbrev pub is_moved : Option (Option ℕ) → ℕ → Bool
is_moved none old = false
is_moved (some none) old = true
is_moved (some (some new)) old = not (new == old)

-- The check at the port that is asked for. No row has a null one, so that it passes there.
unfoldable pub check_at : List Stream → Stream → Option String → Option (Option ℕ) → Check
check_at streams s sni none =
    check_sni_collision streams s.redirector_id s.listen_port sni (some s.id)
check_at streams s sni (some none) = ok tt
check_at streams s sni (some (some port)) =
    check_sni_collision streams s.redirector_id port sni (some s.id)

-- The collision check, made if the port or the hostname changes.
unfoldable pub check_move : List Stream → StreamPatch → Stream → Check
check_move streams k s =
    let sni = get_default k.sni_hostname s.sni_hostname in
    if is_moved k.listen_port s.listen_port || not (opt_str_eq sni s.sni_hostname)
    then check_at streams s sni k.listen_port
    else ok tt

abbrev pub is_other : Stream → Stream → Bool
is_other s t = not (str_eq t.id s.id)

commit_update : List Stream → Stream → Result (List Stream)
commit_update streams s =
    if any_stream (λ t. is_other s t && clashes s t) streams
    then raised integrity_error
    else ok (update (has_id s.id) (λ _. s) streams)

unfoldable pub update_stream : List Stream → Stream → StreamPatch → Result (List Stream)
unfolding commit_update
update_stream streams s k = check_toggle k s >>= λ _.
    check_move streams k s >>= λ _. commit_update streams (patch_stream k s)

unfoldable pub delete_stream : List Stream → Stream → List Stream
delete_stream streams s = delete (has_id s.id) streams
