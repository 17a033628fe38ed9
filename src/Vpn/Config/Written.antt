-- ===== src/Vpn/Config/Written.antt =====
-- The texts that can be written, and how the lines are read that hold no single text.
use cyberx_event_mgmt.Base.{
  Option, none, some, false, List, [], ◌∷◌, ◌++◌, map, ◌≡◌, refl, ap, ◌∙◌, arith, contains,
  contains-append, All, All-map, Text, codes, is_nil, lstrip-append, strip, lstrip, rstrip,
  is_space, split_on, join_on, split_on-append, split_on-join_on, rstrip-append, IsClean,
  after_prefix,
}
use cyberx_event_mgmt.Vpn.Config.{Parsed, read_line, read_lines, line_for, if_given, keep}
use cyberx_event_mgmt.Vpn.Config.Lines.{AllClean, strip-clean, value_of-written, strip-line}

-- An address of the list: a clean text without a comma.
pub record IsAddress (t : Text) : Type 0 where
  pub clean : IsClean t
  pub whole : contains t b',' ≡ false

abbrev pub HasClean : Option Text → Type 0
HasClean none = ⊥
HasClean (some v) = IsClean v

abbrev pub HasAddresses : List Text → Type 0
HasAddresses [] = ⊥
HasAddresses (t ∷ ts) = All IsAddress (t ∷ ts)

-- The required fields are there, and every text is clean.
pub record IsWritable (p : Parsed) : Type 0 where
  pub private_key_given : HasClean p.private_key
  pub addresses_given : HasAddresses p.addresses
  pub endpoint_given : HasClean p.endpoint
  pub preshared_key_clean : AllClean p.preshared_key
  pub mtu_clean : AllClean p.mtu
  pub dns_clean : AllClean p.dns
  pub public_key_clean : AllClean p.public_key
  pub allowed_ips_clean : AllClean p.allowed_ips
  pub persistent_keepalive_clean : AllClean p.persistent_keepalive
  pub table_clean : AllClean p.table
  pub save_config_clean : AllClean p.save_config
  pub fwmark_clean : AllClean p.fwmark

strip-addresses : (ts : List Text) → All IsAddress ts → map strip ts ≡ ts
strip-addresses [] h = refl
strip-addresses (t ∷ ts) (h, hs) = rw (strip-clean t h.clean, strip-addresses ts hs) refl

join_on-IsClean :
    (t : Text) (ts : List Text) → All IsAddress (t ∷ ts) → IsClean (join_on b',' (t ∷ ts))
unfolding join_on contains
join_on-IsClean t [] (h, hs) = h.clean
join_on-IsClean t (u ∷ ts) (h, hs) =
    let rest = join_on b',' (u ∷ ts) in
    let c = join_on-IsClean u ts hs in
    record {
      not_empty = append-not_empty t rest h.clean.not_empty;
      left = lstrip-append t (b',' ∷ rest) h.clean.not_empty h.clean.left;
      right =
          rstrip-append t (b',' ∷ rest) refl (rstrip-append (b',' ∷ []) rest c.not_empty c.right);
      one_line =
          contains-append t (b',' ∷ rest) b'\n' ∙ ground (arith, h.clean.one_line, c.one_line);
    }
  where
    append-not_empty : (t s : Text) → is_nil t ≡ false → is_nil (t ++ b',' ∷ s) ≡ false
    append-not_empty [] s n = refl
    append-not_empty (x ∷ t) s n = refl

-- The addresses are read as they were written.
pub split-joined :
    (t : Text) (ts : List Text)
    → All IsAddress (t ∷ ts)
    → map strip (split_on b',' (join_on b',' (t ∷ ts))) ≡ t ∷ ts
split-joined t ts h =
    ap (map strip) (
      split_on-join_on b',' t ts
        (All-map IsAddress (λ s. contains s b',' ≡ false) (t ∷ ts) (λ s a. a.whole) h))
    ∙ strip-addresses (t ∷ ts) h

pub if_given-clean : (o : Option Text) → AllClean o → if_given o ≡ o
if_given-clean none c = refl
if_given-clean (some v) c = rw (c.not_empty) refl

-- A line that is no field.
module _ (line : Text) (one_line : contains line b'\n' ≡ false)
    (plain : (p : Parsed) → read_line (strip line) p ≡ p) where
  read_lines-plain :
      (rest : Text) (p : Parsed)
      → read_lines (split_on b'\n' (line ++ b'\n' ∷ rest)) p ≡ read_lines (split_on b'\n' rest) p
  unfolding read_lines
  read_lines-plain rest p =
      ap (λ ls. read_lines ls p) (split_on-append b'\n' line rest one_line)
      ∙ ap (read_lines (split_on b'\n' rest)) (plain p)

pub read_lines-interface :
    (rest : Text) (p : Parsed)
    → read_lines (split_on b'\n' (codes "[Interface]" ++ b'\n' ∷ rest)) p
      ≡ read_lines (split_on b'\n' rest) p
unfolding read_line strip lstrip rstrip is_space after_prefix contains
read_lines-interface rest p = read_lines-plain (codes "[Interface]") refl (λ p. refl) rest p

pub read_lines-peer :
    (rest : Text) (p : Parsed)
    → read_lines (split_on b'\n' (b'\n' ∷ codes "[Peer]" ++ b'\n' ∷ rest)) p
      ≡ read_lines (split_on b'\n' rest) p
unfolding read_line strip lstrip rstrip is_space after_prefix contains
read_lines-peer rest p =
    read_lines-plain [] refl (λ p. refl) (codes "[Peer]" ++ b'\n' ∷ rest) p
    ∙ read_lines-plain (codes "[Peer]") refl (λ p. refl) rest p

pub read_lines-address :
    (t : Text) (ts : List Text) (rest : Text) (p : Parsed)
    → All IsAddress (t ∷ ts)
    → read_lines (split_on b'\n' (line_for "Address" (join_on b',' (t ∷ ts)) rest)) p
      ≡ read_lines (split_on b'\n' rest) (record p { addresses = t ∷ ts })
unfolding read_lines read_line after_prefix is_space contains
read_lines-address t ts rest p h =
    let v = join_on b',' (t ∷ ts) in
    let c = join_on-IsClean t ts h in
    let one_line : contains ((codes "Address" ++ codes " = ") ++ v) b'\n' ≡ false =
      contains-append (codes "Address" ++ codes " = ") v b'\n' ∙ c.one_line in
    ap (λ ls. read_lines ls p)
      (split_on-append b'\n' ((codes "Address" ++ codes " = ") ++ v) rest one_line)
    ∙ ap (read_lines (split_on b'\n' rest)) (
        rw (strip-line b'A' (codes "ddress = ") v refl c) (
          ap (λ o. keep o (λ w. record p { addresses = map strip (split_on b',' w) }) p)
            (value_of-written v c)
          ∙ ap (λ ts. record p { addresses = ts }) (split-joined t ts h)))
