-- ===== src/Redirector/Data.antt =====
-- The table `stream_configs` (backend/app/models/redirector.py), without its timestamps.
use cyberx_event_mgmt.Base.{
  ℕ, String, Option, none, some, Bool, true, false, List, ◌&&◌, ◌||◌, not, str_eq, ◌==◌,
}

pub record Stream : Type 0 where
  pub id : String
  pub redirector_id : String
  pub name : String
  pub protocol : String
  pub listen_port : ℕ
  pub cs_ip : String
  pub cs_port : ℕ
  pub sni_hostname : Option String
  pub internal_bridge_port : Option ℕ
  pub access_control_enabled : Bool
  pub allowed_cidrs : Option (List String)
  pub ssl_enabled : Bool
  pub ssl_cert_path : Option String
  pub ssl_key_path : Option String
  pub ssl_protocols : String
  pub ssl_ciphers : String
  pub custom_config_override : Option String
  pub enabled : Bool
  pub deployed : Bool

abbrev pub has_id : String → Stream → Bool
has_id i s = str_eq s.id i

-- A nullable text that is neither null nor empty.
abbrev pub is_truthy : Option String → Bool
is_truthy none = false
is_truthy (some s) = not (str_eq s "")

abbrev pub opt_str_eq : Option String → Option String → Bool
opt_str_eq none none = true
opt_str_eq (some s) (some t) = str_eq s t
opt_str_eq _ _ = false

abbrev pub same_sni : Option String → Option String → Bool
same_sni (some a) (some b) = str_eq a b
same_sni _ _ = false

abbrev pub same_bridge : Option ℕ → Option ℕ → Bool
same_bridge (some a) (some b) = a == b
same_bridge _ _ = false

-- The two unique constraints; a null equals nothing in them.
abbrev pub clashes : Stream → Stream → Bool
clashes s t =
    str_eq s.redirector_id t.redirector_id
    && ((s.listen_port == t.listen_port && same_sni s.sni_hostname t.sni_hostname)
        || same_bridge s.internal_bridge_port t.internal_bridge_port)
