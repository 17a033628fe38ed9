-- ===== src/Event/Data.antt =====
-- The tables of events and participations (backend/app/models/event.py), and the slug of a name. The
-- columns that only hold details (dates, place, terms, SSH keys) are left out.
use cyberx_event_mgmt.Base.{
  ℕ, String, Option, Bool, true, false, ◌&&◌, ◌||◌, List, [], ◌∷◌, ◌==◌, leb, if◌then◌else◌, Text,
  is_space, is_nil,
}

pub record Event : Type 0 where
  pub id : ℕ
  pub year : ℕ
  pub name : Text
  pub slug : Text
  pub registration_open : Bool
  pub is_active : Bool
  pub is_archived : Bool
  pub vpn_available : Bool
  pub test_mode : Bool

pub record Participation : Type 0 where
  pub user_id : ℕ
  pub event_id : ℕ
  pub invited_by_user_id : Option ℕ
  pub status : String

pub record Db : Type 0 where
  pub events : List Event
  pub participations : List Participation
  pub next_id : ℕ

abbrev pub key_of : Event → ℕ
key_of e = e.id

abbrev pub has_id : ℕ → Event → Bool
has_id i e = e.id == i

-- `[\s-]`.
abbrev pub is_separator : ℕ → Bool
is_separator c = is_space c || c == b'-'

-- `[a-z0-9]`.
abbrev pub is_alphanumeric : ℕ → Bool
is_alphanumeric c = (leb b'a' c && leb c b'z') || (leb b'0' c && leb c b'9')

-- What the first substitution leaves, with every run of separators as one hyphen; the flag says that
-- the run has begun.
hyphenate : Bool → Text → Text
hyphenate begun [] = []
hyphenate begun (c ∷ t) =
    let same = hyphenate begun t in
    let within = hyphenate true t in
    let after = hyphenate false t in
    if is_separator c
    then (if begun then within else b'-' ∷ within)
    else if is_alphanumeric c
    then c ∷ after
    else same

lstrip_hyphens : Text → Text
lstrip_hyphens [] = []
lstrip_hyphens (c ∷ t) = let rest = lstrip_hyphens t in if c == b'-' then rest else c ∷ t

rstrip_hyphens : Text → Text
rstrip_hyphens [] = []
rstrip_hyphens (c ∷ t) =
    let rest = rstrip_hyphens t in if is_nil rest && (c == b'-') then [] else c ∷ rest

-- `lower` is Python's.
unfoldable pub generate_slug : (Text → Text) → Text → Text
unfolding hyphenate lstrip_hyphens rstrip_hyphens
generate_slug lower name = rstrip_hyphens (lstrip_hyphens (hyphenate false (lower name)))
