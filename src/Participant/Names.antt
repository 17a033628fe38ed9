-- ===== src/Participant/Names.antt =====
-- User names and normalized emails: backend/app/utils/name_utils.py, the two `generate_username`, and
-- `normalize_email` of backend/app/api/utils/validation.py.
pub mod Unused
use cyberx_event_mgmt.Base.{
  ℕ, zero, suc, ◌+◌, ◌-◌, ◌*◌, ◌/◌, String, Option, none, some, Bool, true, false, not, ◌&&◌, ◌||◌,
  List, [], ◌∷◌, ◌++◌, if◌then◌else◌, ◌==◌, ltb, length, take, select, Text, codes, is_nil, strip,
  text_eq, after_prefix, is_some,
}
use Prim.Native.Nat.{◌%◌}

-- `lower` and the decomposition of accents are of texts, the others of characters.
pub record Unicode : Type 0 where
  pub lower : Text → Text
  pub decompose : Text → Text
  pub is_mark : ℕ → Bool
  pub is_alphanumeric : ℕ → Bool

unfoldable pub normalize_to_ascii : Unicode → Text → Text
normalize_to_ascii py t = select (λ c. not (py.is_mark c)) (py.decompose t)

abbrev pub initial : Text → Text
initial [] = []
initial (c ∷ t) = c ∷ []

unfoldable pub sanitize_username : Unicode → Text → Text → Text
sanitize_username py first_name last_name = take 50 (
    select py.is_alphanumeric
      (normalize_to_ascii py (py.lower (initial first_name) ++ py.lower last_name)))

-- `str(n)` of a number below 1000.
abbrev pub digit : ℕ → ℕ
digit n = b'0' + n % 10

unfoldable pub suffix : ℕ → Text
suffix n =
    if ltb n 10
    then digit n ∷ []
    else if ltb n 100
    then digit (n / 10) ∷ digit n ∷ []
    else digit (n / 100) ∷ digit (n / 10) ∷ digit n ∷ []

unfoldable pub candidate : Text → ℕ → Text
candidate base counter = take (50 - length (suffix counter)) base ++ suffix counter

-- The last six digits of the time.
unfoldable pub fallback : Text → Text → Text
fallback base timestamp = take 44 base ++ timestamp

module _ (is_used : Text → Bool) (base timestamp : Text) where
  -- The loop of the service with `counter`, of which `left` rounds remain: the name with the suffix 999
  -- is made and given up untested.
  unfoldable pub from_counter : ℕ → Text → ℕ → Text
  from_counter zero username counter = fallback base timestamp
  from_counter (suc left) username counter =
      let rest = from_counter left (candidate base counter) (suc counter) in
      if is_used username then rest else username

  -- `ParticipantService._generate_username`, by the sanitized name: the name itself and the suffixes
  -- 1 to 998 are tried.
  unfoldable pub generate_username : Text
  generate_username = from_counter 999 base 1

  unfoldable pub from_candidate : ℕ → ℕ → Text
  from_candidate zero counter = fallback base timestamp
  from_candidate (suc left) counter =
      let rest = from_candidate left (suc counter) in
      if is_used (candidate base counter) then rest else candidate base counter

  -- `generate_username` of the confirmation routes, which tries the suffix 999 too.
  unfoldable pub generate_username_public : Text
  generate_username_public = let rest = from_candidate 999 1 in if is_used base then rest else base

-- `rsplit("@", 1)`.
unfoldable pub rsplit_at : Text → Option (Text × Text)
rsplit_at [] = none
rsplit_at (c ∷ t) = elim (rsplit_at t) [
  | some (local_part, domain) ↦ some (c ∷ local_part, domain)
  | none ↦ if c == b'@' then some ([], t) else none
]

unfoldable pub ends_with : Text → Text → Bool
ends_with [] end = is_nil end
ends_with (c ∷ t) end = let rest = ends_with t end in if text_eq (c ∷ t) end then true else rest

unfoldable pub is_gmail : Text → Bool
is_gmail domain =
    (text_eq domain (codes "gmail.com") || text_eq domain (codes "googlemail.com"))
    || ends_with domain (codes ".google.com")

join_parts : Text → Option (Text × Text) → Text
join_parts email none = email
join_parts email (some (local_part, domain)) =
    (if is_gmail domain then select (λ c. not (c == b'.')) local_part else local_part)
    ++ b'@' ∷ domain

unfoldable pub normalize_email : (Text → Text) → Text → Text
unfolding join_parts
normalize_email lower email =
    if is_nil email
    then email
    else join_parts (lower (strip email)) (rsplit_at (lower (strip email)))
