-- ===== src/Vpn/Config.antt =====
-- The texts of WireGuard configurations: `parse_wireguard_config`, `split_addresses` and
-- `generate_wireguard_config`. A text is the list of its code points.
pub mod Lines
pub mod Written
pub mod RoundTrip
use cyberx_event_mgmt.Base.{
  ℕ, String, Option, none, some, Bool, true, false, not, ◌&&◌, ◌||◌, List, [], ◌∷◌, ◌++◌, map,
  if◌then◌else◌, ◌==◌, is_some, contains, Text, codes, join_text, is_nil, lstrip, strip, split_on,
  join_on, after_prefix, Result, ok, raised, value_error,
}
use Prim.Native.String.{◌++◌ as str_append}

-- The parsed fields.
pub record Parsed : Type 0 where
  pub private_key : Option Text
  pub preshared_key : Option Text
  pub addresses : List Text
  pub endpoint : Option Text
  pub mtu : Option Text
  pub dns : Option Text
  pub public_key : Option Text
  pub allowed_ips : Option Text
  pub persistent_keepalive : Option Text
  pub table : Option Text
  pub save_config : Option Text
  pub fwmark : Option Text

abbrev pub nothing_yet : Parsed
nothing_yet = record {
  private_key = none;
  preshared_key = none;
  addresses = [];
  endpoint = none;
  mtu = none;
  dns = none;
  public_key = none;
  allowed_ips = none;
  persistent_keepalive = none;
  table = none;
  save_config = none;
  fwmark = none;
}

-- `\s*=\s*(.+)` on what follows the key of a stripped line, with the group stripped: a stripped line
-- does not end in a space, so the group is there exactly when something follows the `=`.
abbrev pub after_equals : Text → Option Text
after_equals [] = none
after_equals (c ∷ t) = if c == b'=' then (if is_nil t then none else some (strip t)) else none

abbrev pub value_of : Option Text → Option Text
value_of none = none
value_of (some rest) = after_equals (lstrip rest)

abbrev pub keep : Option Text → (Text → Parsed) → Parsed → Parsed
keep none f p = p
keep (some v) f p = f v

-- What follows a key, if the line starts with it.
abbrev pub after_key : String → Text → Option Text
after_key key line = after_prefix (codes key) line

-- A comment that names DNS; a `#` line of any other kind matches nothing.
after_comment : Option Text → Option Text
after_comment none = none
after_comment (some rest) = after_prefix (codes "DNS") (lstrip rest)

-- The keys in the order of the tests; a line that starts with one is not tried on the later ones.
unfoldable pub read_line : Text → Parsed → Parsed
unfolding after_comment
read_line line p =
    if is_some (after_key "PrivateKey" line)
    then keep (value_of (after_key "PrivateKey" line)) (λ v. record p { private_key = some v }) p
    else if is_some (after_key "PresharedKey" line)
    then keep (value_of (after_key "PresharedKey" line)) (λ v. record p { preshared_key = some v })
        p
    else if is_some (after_key "Address" line)
    then keep (value_of (after_key "Address" line))
        (λ v. record p { addresses = map strip (split_on b',' v) }) p
    else if is_some (after_key "Endpoint" line)
    then keep (value_of (after_key "Endpoint" line)) (λ v. record p { endpoint = some v }) p
    else if is_some (after_key "MTU" line)
    then keep (value_of (after_key "MTU" line)) (λ v. record p { mtu = some v }) p
    else if is_some (after_key "DNS" line)
    then keep (value_of (after_key "DNS" line)) (λ v. record p { dns = some v }) p
    else if is_some (after_key "#" line)
    then keep (value_of (after_comment (after_key "#" line))) (λ v. record p { dns = some v }) p
    else if is_some (after_key "PublicKey" line)
    then keep (value_of (after_key "PublicKey" line)) (λ v. record p { public_key = some v }) p
    else if is_some (after_key "AllowedIPs" line)
    then keep (value_of (after_key "AllowedIPs" line)) (λ v. record p { allowed_ips = some v }) p
    else if is_some (after_key "PersistentKeepalive" line)
    then keep (value_of (after_key "PersistentKeepalive" line))
        (λ v. record p { persistent_keepalive = some v }) p
    else if is_some (after_key "Table" line)
    then keep (value_of (after_key "Table" line)) (λ v. record p { table = some v }) p
    else if is_some (after_key "SaveConfig" line)
    then keep (value_of (after_key "SaveConfig" line)) (λ v. record p { save_config = some v }) p
    else if is_some (after_key "FwMark" line)
    then keep (value_of (after_key "FwMark" line)) (λ v. record p { fwmark = some v }) p
    else p

unfoldable pub read_lines : List Text → Parsed → Parsed
unfolding read_line
read_lines [] p = p
read_lines (line ∷ lines) p = read_lines lines (read_line (strip line) p)

abbrev pub is_given : Option Text → Bool
is_given none = false
is_given (some t) = not (is_nil t)

-- `endpoint_override or parsed_endpoint`.
abbrev pub or_else : Option Text → Option Text → Option Text
or_else a b = if is_given a then a else b

missing_fields : Parsed → List String
missing_fields p =
    (if is_given p.private_key then [] else "PrivateKey" ∷ [])
    ++ ((if is_nil p.addresses then "Address" ∷ [] else [])
        ++ (if is_given p.endpoint then [] else "Endpoint" ∷ []))

checked : Parsed → List String → Result Parsed
checked p [] = ok p
checked p (m ∷ ms) = raised (
    value_error
      (str_append "Invalid WireGuard config - missing required fields: " (join_text (m ∷ ms))))

abbrev pub with_endpoint : Option Text → Parsed → Parsed
with_endpoint override p = record p { endpoint = or_else override p.endpoint }

unfoldable pub parse_wireguard_config : Text → Option Text → Result Parsed
unfolding read_lines checked missing_fields
parse_wireguard_config content override =
    let p = with_endpoint override (read_lines (split_on b'\n' content) nothing_yet) in
    checked p (missing_fields p)

-- The columns of the configuration in a row of `vpn_credentials`.
pub record Config : Type 0 where
  pub interface_ip : Text
  pub ipv4_address : Option Text
  pub ipv6_local : Option Text
  pub ipv6_global : Option Text
  pub private_key : Text
  pub preshared_key : Option Text
  pub endpoint : Text
  pub mtu : Option Text
  pub dns : Option Text
  pub public_key : Option Text
  pub allowed_ips : Option Text
  pub persistent_keepalive : Option Text
  pub table : Option Text
  pub save_config : Option Text
  pub fwmark : Option Text

-- The addresses by family: the last of each.
pub record Families : Type 0 where
  pub ipv4_address : Option Text
  pub ipv6_local : Option Text
  pub ipv6_global : Option Text

abbrev pub first_of : List Text → Text
first_of [] = []
first_of (t ∷ ts) = t

unfoldable pub add_family : Families → Text → Families
add_family f addr =
    let ip = first_of (split_on b'/' addr) in
    if contains ip b'.'
    then record f { ipv4_address = some ip }
    else if is_some (after_prefix (codes "fd00:") ip) || is_some (after_prefix (codes "fe80:") ip)
    then record f { ipv6_local = some ip }
    else if contains ip b':'
    then record f { ipv6_global = some ip }
    else f

add_families : List Text → Families → Families
unfolding add_family
add_families [] f = f
add_families (addr ∷ addrs) f = add_families addrs (add_family f addr)

unfoldable pub split_addresses : List Text → Text × Families
unfolding add_families
split_addresses addresses = (
  join_on b',' addresses,
  add_families addresses (record { ipv4_address = none; ipv6_local = none; ipv6_global = none }),
)

abbrev pub text_or_nil : Option Text → Text
text_or_nil none = []
text_or_nil (some t) = t

-- The columns that `_parse_and_create_vpn` stores.
unfoldable pub columns_of : Parsed → Config
columns_of p =
    let (interface_ip, families) = split_addresses p.addresses in
    record {
      interface_ip = interface_ip;
      ipv4_address = families.ipv4_address;
      ipv6_local = families.ipv6_local;
      ipv6_global = families.ipv6_global;
      private_key = text_or_nil p.private_key;
      preshared_key = p.preshared_key;
      endpoint = text_or_nil p.endpoint;
      mtu = p.mtu;
      dns = p.dns;
      public_key = p.public_key;
      allowed_ips = p.allowed_ips;
      persistent_keepalive = p.persistent_keepalive;
      table = p.table;
      save_config = p.save_config;
      fwmark = p.fwmark;
    }

abbrev pub line_for : String → Text → Text → Text
line_for key v rest = codes key ++ codes " = " ++ v ++ b'\n' ∷ rest

-- A line that is written only if the column is not NULL.
abbrev pub optional_line : String → Option Text → Text → Text
optional_line key none rest = rest
optional_line key (some v) rest = line_for key v rest

abbrev pub or_default : Option Text → Text → Text
or_default none d = d
or_default (some t) d = t

-- A preshared key that is empty is not written either.
abbrev pub if_given : Option Text → Option Text
if_given o = if is_given o then o else none

-- The server's public key is an argument, which stands for the override or the setting; the other
-- server settings reach the text only where the column is not NULL, and so never.
unfoldable pub generate_wireguard_config : Config → Text → Text
generate_wireguard_config c server_public_key =
    codes "[Interface]"
    ++ b'\n'
      ∷ line_for "PrivateKey" c.private_key (
          line_for "Address" (join_on b',' (map strip (split_on b',' c.interface_ip))) (
            optional_line "DNS" c.dns (
              optional_line "MTU" c.mtu (
                optional_line "Table" c.table (
                  optional_line "SaveConfig" c.save_config (
                    optional_line "FwMark" c.fwmark (
                      b'\n' ∷ codes "[Peer]"
                      ++ b'\n'
                        ∷ line_for "PublicKey" (or_default c.public_key server_public_key) (
                            optional_line "PresharedKey" (if_given c.preshared_key) (
                              line_for "Endpoint" c.endpoint (
                                optional_line "AllowedIPs" c.allowed_ips (
                                  optional_line "PersistentKeepalive" c.persistent_keepalive
                                    [])))))))))))
