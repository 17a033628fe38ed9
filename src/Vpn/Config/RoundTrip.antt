-- ===== src/Vpn/Config/RoundTrip.antt =====
-- A configuration that is written and read again.
use cyberx_event_mgmt.Base.{
  Option, none, some, List, [], ◌∷◌, ◌++◌, ◌≡◌, refl, ◌∙◌, All, Text, codes, strip, lstrip, rstrip,
  split_on, join_on, IsClean, after_prefix, ok,
}
use cyberx_event_mgmt.Vpn.Config.{
  Parsed, nothing_yet, read_line, read_lines, missing_fields, checked, parse_wireguard_config,
  columns_of, split_addresses, line_for, optional_line, or_default, generate_wireguard_config,
}
use cyberx_event_mgmt.Vpn.Config.Lines.{
  private_key, preshared_key, endpoint, mtu, dns, public_key, allowed_ips, persistent_keepalive,
  table, save_config, fwmark, set, read_lines-line_for, read_lines-optional_line,
}
use cyberx_event_mgmt.Vpn.Config.Written.{
  IsAddress, HasClean, HasAddresses, IsWritable, split-joined, if_given-clean, read_lines-interface,
  read_lines-peer, read_lines-address,
}

-- The two sections, and what is read of them.
module _ (q : Parsed) (w : IsWritable q) (k pk e t : Text) (ts : List Text) where
  abbrev keepalive : Text
  keepalive = optional_line "PersistentKeepalive" q.persistent_keepalive []

  abbrev allowed : Text
  allowed = optional_line "AllowedIPs" q.allowed_ips keepalive

  abbrev peer : Text
  peer =
      line_for "PublicKey" pk
        (optional_line "PresharedKey" q.preshared_key (line_for "Endpoint" e allowed))

  abbrev interface : Text
  interface = line_for "PrivateKey" k (
      line_for "Address" (join_on b',' (t ∷ ts)) (
        optional_line "DNS" q.dns (
          optional_line "MTU" q.mtu (
            optional_line "Table" q.table (
              optional_line "SaveConfig" q.save_config
                (optional_line "FwMark" q.fwmark (b'\n' ∷ codes "[Peer]" ++ b'\n' ∷ peer)))))))

  read_lines-peer_section :
      (p : Parsed)
      → IsClean pk
      → IsClean e
      → p.preshared_key ≡ none
      → p.allowed_ips ≡ none
      → p.persistent_keepalive ≡ none
      → read_lines (split_on b'\n' peer) p ≡ record p {
        public_key = some pk;
        preshared_key = q.preshared_key;
        endpoint = some e;
        allowed_ips = q.allowed_ips;
        persistent_keepalive = q.persistent_keepalive;
      }
  unfolding read_lines read_line after_prefix strip lstrip rstrip split_on
  read_lines-peer_section p cpk ce eps eai eka =
      let p1 = set public_key (some pk) p in
      let p2 = set preshared_key q.preshared_key p1 in
      let p3 = set endpoint (some e) p2 in
      read_lines-line_for public_key pk
        (optional_line "PresharedKey" q.preshared_key (line_for "Endpoint" e allowed)) p cpk
      ∙ read_lines-optional_line preshared_key q.preshared_key (line_for "Endpoint" e allowed) p1
          w.preshared_key_clean eps
      ∙ read_lines-line_for endpoint e allowed p2 ce
      ∙ read_lines-optional_line allowed_ips q.allowed_ips keepalive p3 w.allowed_ips_clean eai
      ∙ read_lines-optional_line persistent_keepalive q.persistent_keepalive []
          (set allowed_ips q.allowed_ips p3) w.persistent_keepalive_clean eka

  read_lines-interface_section :
      IsClean k
      → All IsAddress (t ∷ ts)
      → read_lines (split_on b'\n' (codes "[Interface]" ++ b'\n' ∷ interface)) nothing_yet
        ≡ read_lines (split_on b'\n' peer) (record nothing_yet {
          private_key = some k;
          addresses = t ∷ ts;
          dns = q.dns;
          mtu = q.mtu;
          table = q.table;
          save_config = q.save_config;
          fwmark = q.fwmark;
        })
  read_lines-interface_section ck ca =
      let r1 = b'\n' ∷ codes "[Peer]" ++ b'\n' ∷ peer in
      let r2 = optional_line "FwMark" q.fwmark r1 in
      let r3 = optional_line "SaveConfig" q.save_config r2 in
      let r4 = optional_line "Table" q.table r3 in
      let r5 = optional_line "MTU" q.mtu r4 in
      let r6 = optional_line "DNS" q.dns r5 in
      let p1 = set private_key (some k) nothing_yet in
      let p2 : Parsed = record p1 { addresses = t ∷ ts } in
      let p3 = set dns q.dns p2 in
      let p4 = set mtu q.mtu p3 in
      let p5 = set table q.table p4 in
      let p6 = set save_config q.save_config p5 in
      read_lines-interface interface nothing_yet
      ∙ read_lines-line_for private_key k (line_for "Address" (join_on b',' (t ∷ ts)) r6)
          nothing_yet ck
      ∙ read_lines-address t ts r6 p1 ca
      ∙ read_lines-optional_line dns q.dns r5 p2 w.dns_clean refl
      ∙ read_lines-optional_line mtu q.mtu r4 p3 w.mtu_clean refl
      ∙ read_lines-optional_line table q.table r3 p4 w.table_clean refl
      ∙ read_lines-optional_line save_config q.save_config r2 p5 w.save_config_clean refl
      ∙ read_lines-optional_line fwmark q.fwmark r1 p6 w.fwmark_clean refl
      ∙ read_lines-peer peer (set fwmark q.fwmark p6)

-- With the required fields in hand.
read-written :
    (q : Parsed) (server k e t : Text) (ts : List Text)
    → IsWritable q
    → IsClean (or_default q.public_key server)
    → q.private_key ≡ some k
    → q.endpoint ≡ some e
    → q.addresses ≡ t ∷ ts
    → IsClean k
    → IsClean e
    → All IsAddress (t ∷ ts)
    → parse_wireguard_config (generate_wireguard_config (columns_of q) server) none
      ≡ ok (record q { public_key = some (or_default q.public_key server) })
unfolding generate_wireguard_config columns_of split_addresses parse_wireguard_config checked
    missing_fields
read-written q server k e t ts w cpk hk he ha ck ce ca =
    let pk = or_default q.public_key server in
    let lines =
      read_lines-interface_section q w k pk e t ts ck ca
      ∙ read_lines-peer_section q w k pk e t ts _ cpk ce refl refl refl in
    rw
      (
        hk,
        he,
        ha,
        if_given-clean q.preshared_key w.preshared_key_clean,
        split-joined t ts ca,
        lines,
        ck.not_empty,
        ce.not_empty,
      )
      refl

required_text : (o : Option Text) → HasClean o → (v : Text) × (o ≡ some v) × IsClean v
required_text none h = absurd h
required_text (some v) h = (v, refl, h)

some_addresses :
    (addresses : List Text)
    → HasAddresses addresses
    → (t : Text) × (ts : List Text) × (addresses ≡ t ∷ ts) × All IsAddress (t ∷ ts)
some_addresses [] h = absurd h
some_addresses (t ∷ ts) h = (t, ts, refl, h)

-- A configuration with the required fields, whose texts are clean, is read back as it is once its
-- columns are stored and written out; a missing public key is then the server's.
pub generate-parse_wireguard_config :
    (p : Parsed) (server_public_key : Text)
    → IsWritable p
    → IsClean (or_default p.public_key server_public_key)
    → parse_wireguard_config (generate_wireguard_config (columns_of p) server_public_key) none
      ≡ ok (record p { public_key = some (or_default p.public_key server_public_key) })
generate-parse_wireguard_config p server_public_key w cpk =
    let (k, hk, ck) = required_text p.private_key w.private_key_given in
    let (e, he, ce) = required_text p.endpoint w.endpoint_given in
    let (t, ts, ha, ca) = some_addresses p.addresses w.addresses_given in
    read-written p server_public_key k e t ts w cpk hk he ha ck ce ca
