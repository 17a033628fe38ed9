-- ===== src/Vpn/Config/Lines.antt =====
-- How one written line is read.
use cyberx_event_mgmt.Base.{
  ℕ, String, Option, none, some, false, ◌∷◌, ◌++◌, ◌≡◌, refl, sym, ap, ◌∙◌, arith, contains,
  contains-append, Text, codes, is_space, lstrip, rstrip, strip, split_on, split_on-append,
  rstrip-append, IsClean, after_prefix,
}
use cyberx_event_mgmt.Vpn.Config.{
  Parsed, value_of, keep, read_line, read_lines, line_for, optional_line,
}

pub strip-clean : (v : Text) → IsClean v → strip v ≡ v
unfolding strip
strip-clean v c = ap rstrip c.left ∙ c.right

-- The value after a key, as it is written.
pub value_of-written : (v : Text) → IsClean v → value_of (some (codes " = " ++ v)) ≡ some v
unfolding lstrip strip is_space
value_of-written v c = ground (arith, c.left, c.right)

-- A line with a key whose first character is no space is its own strip.
pub strip-line :
    (k : ℕ) (key v : Text) → is_space k ≡ false → IsClean v → strip (k ∷ key ++ v) ≡ k ∷ key ++ v
unfolding strip lstrip
strip-line k key v h c = rw h (rstrip-append (k ∷ key) v c.not_empty c.right)

-- The fields that hold one text.
pub data Field : Type 0 where
  private_key preshared_key endpoint mtu dns public_key allowed_ips persistent_keepalive table
        save_config fwmark :
      Field

abbrev pub key_of : Field → String
key_of private_key = "PrivateKey"
key_of preshared_key = "PresharedKey"
key_of endpoint = "Endpoint"
key_of mtu = "MTU"
key_of dns = "DNS"
key_of public_key = "PublicKey"
key_of allowed_ips = "AllowedIPs"
key_of persistent_keepalive = "PersistentKeepalive"
key_of table = "Table"
key_of save_config = "SaveConfig"
key_of fwmark = "FwMark"

abbrev pub get : Field → Parsed → Option Text
get private_key p = p.private_key
get preshared_key p = p.preshared_key
get endpoint p = p.endpoint
get mtu p = p.mtu
get dns p = p.dns
get public_key p = p.public_key
get allowed_ips p = p.allowed_ips
get persistent_keepalive p = p.persistent_keepalive
get table p = p.table
get save_config p = p.save_config
get fwmark p = p.fwmark

abbrev pub set : Field → Option Text → Parsed → Parsed
set private_key o p = record p { private_key = o }
set preshared_key o p = record p { preshared_key = o }
set endpoint o p = record p { endpoint = o }
set mtu o p = record p { mtu = o }
set dns o p = record p { dns = o }
set public_key o p = record p { public_key = o }
set allowed_ips o p = record p { allowed_ips = o }
set persistent_keepalive o p = record p { persistent_keepalive = o }
set table o p = record p { table = o }
set save_config o p = record p { save_config = o }
set fwmark o p = record p { fwmark = o }

read_line-written :
    (f : Field) (v : Text) (p : Parsed)
    → IsClean v
    → read_line (strip (codes (key_of f) ++ codes " = " ++ v)) p ≡ set f (some v) p
unfolding read_line after_prefix is_space
read_line-written private_key v p c =
    rw (strip-line b'P' (codes "rivateKey = ") v refl c)
      (ap (λ o. keep o (λ w. set private_key (some w) p) p) (value_of-written v c))
read_line-written preshared_key v p c =
    rw (strip-line b'P' (codes "resharedKey = ") v refl c)
      (ap (λ o. keep o (λ w. set preshared_key (some w) p) p) (value_of-written v c))
read_line-written endpoint v p c =
    rw (strip-line b'E' (codes "ndpoint = ") v refl c)
      (ap (λ o. keep o (λ w. set endpoint (some w) p) p) (value_of-written v c))
read_line-written mtu v p c =
    rw (strip-line b'M' (codes "TU = ") v refl c)
      (ap (λ o. keep o (λ w. set mtu (some w) p) p) (value_of-written v c))
read_line-written dns v p c =
    rw (strip-line b'D' (codes "NS = ") v refl c)
      (ap (λ o. keep o (λ w. set dns (some w) p) p) (value_of-written v c))
read_line-written public_key v p c =
    rw (strip-line b'P' (codes "ublicKey = ") v refl c)
      (ap (λ o. keep o (λ w. set public_key (some w) p) p) (value_of-written v c))
read_line-written allowed_ips v p c =
    rw (strip-line b'A' (codes "llowedIPs = ") v refl c)
      (ap (λ o. keep o (λ w. set allowed_ips (some w) p) p) (value_of-written v c))
read_line-written persistent_keepalive v p c =
    rw (strip-line b'P' (codes "ersistentKeepalive = ") v refl c)
      (ap (λ o. keep o (λ w. set persistent_keepalive (some w) p) p) (value_of-written v c))
read_line-written table v p c =
    rw (strip-line b'T' (codes "able = ") v refl c)
      (ap (λ o. keep o (λ w. set table (some w) p) p) (value_of-written v c))
read_line-written save_config v p c =
    rw (strip-line b'S' (codes "aveConfig = ") v refl c)
      (ap (λ o. keep o (λ w. set save_config (some w) p) p) (value_of-written v c))
read_line-written fwmark v p c =
    rw (strip-line b'F' (codes "wMark = ") v refl c)
      (ap (λ o. keep o (λ w. set fwmark (some w) p) p) (value_of-written v c))

key-one_line : (f : Field) → contains (codes (key_of f) ++ codes " = ") b'\n' ≡ false
unfolding contains
key-one_line private_key = refl
key-one_line preshared_key = refl
key-one_line endpoint = refl
key-one_line mtu = refl
key-one_line dns = refl
key-one_line public_key = refl
key-one_line allowed_ips = refl
key-one_line persistent_keepalive = refl
key-one_line table = refl
key-one_line save_config = refl
key-one_line fwmark = refl

-- A written line is read as its field, and the reading goes on after it.
pub read_lines-line_for :
    (f : Field) (v rest : Text) (p : Parsed)
    → IsClean v
    → read_lines (split_on b'\n' (line_for (key_of f) v rest)) p
      ≡ read_lines (split_on b'\n' rest) (set f (some v) p)
unfolding read_lines
read_lines-line_for f v rest p c =
    let key = codes (key_of f) ++ codes " = " in
    let one_line : contains (key ++ v) b'\n' ≡ false =
      contains-append key v b'\n' ∙ rw (key-one_line f, c.one_line) in
    ap (λ ls. read_lines ls p) (split_on-append b'\n' (key ++ v) rest one_line)
    ∙ ap (read_lines (split_on b'\n' rest)) (read_line-written f v p c)

abbrev pub AllClean : Option Text → Type 0
AllClean none = Unit
AllClean (some v) = IsClean v

pub read_lines-optional_line :
    (f : Field) (o : Option Text) (rest : Text) (p : Parsed)
    → AllClean o
    → get f p ≡ none
    → read_lines (split_on b'\n' (optional_line (key_of f) o rest)) p
      ≡ read_lines (split_on b'\n' rest) (set f o p)
read_lines-optional_line f (some v) rest p c e = read_lines-line_for f v rest p c
read_lines-optional_line f none rest p c e =
    ap (read_lines (split_on b'\n' rest)) (sym (unset f p e))
  where
    unset : (f : Field) (p : Parsed) → get f p ≡ none → set f none p ≡ p
    unset private_key p e = ground arith
    unset preshared_key p e = ground arith
    unset endpoint p e = ground arith
    unset mtu p e = ground arith
    unset dns p e = ground arith
    unset public_key p e = ground arith
    unset allowed_ips p e = ground arith
    unset persistent_keepalive p e = ground arith
    unset table p e = ground arith
    unset save_config p e = ground arith
    unset fwmark p e = ground arith
