-- ===== src/Participant/Phonetic.antt =====
-- `generate_phonetic_password` of backend/app/api/routes/public.py.
use cyberx_event_mgmt.Base.{
  ℕ, ◌+◌, ◌-◌, String, Option, none, some, Bool, ◌&&◌, List, [], ◌∷◌, map, if◌then◌else◌, ◌==◌, leb,
  Text, codes, join_on,
}

-- `upper`, `islower` and `isupper` of a character; the upper case of one may be several.
pub record Letters : Type 0 where
  pub upper : ℕ → Text
  pub is_lower : ℕ → Bool
  pub is_upper : ℕ → Bool

abbrev phonetic_map : List (ℕ × String)
phonetic_map =
    (b'A', "Alpha")
    ∷ (b'B', "Bravo")
    ∷ (b'C', "Charlie")
    ∷ (b'D', "Delta")
    ∷ (b'E', "Echo")
    ∷ (b'F', "Foxtrot")
    ∷ (b'G', "Golf")
    ∷ (b'H', "Hotel")
    ∷ (b'I', "India")
    ∷ (b'J', "Juliet")
    ∷ (b'K', "Kilo")
    ∷ (b'L', "Lima")
    ∷ (b'M', "Mike")
    ∷ (b'N', "November")
    ∷ (b'O', "Oscar")
    ∷ (b'P', "Papa")
    ∷ (b'Q', "Quebec")
    ∷ (b'R', "Romeo")
    ∷ (b'S', "Sierra")
    ∷ (b'T', "Tango")
    ∷ (b'U', "Uniform")
    ∷ (b'V', "Victor")
    ∷ (b'W', "Whiskey")
    ∷ (b'X', "X-ray")
    ∷ (b'Y', "Yankee")
    ∷ (b'Z', "Zulu")
    ∷ (b'0', "Zero")
    ∷ (b'1', "One")
    ∷ (b'2', "Two")
    ∷ (b'3', "Three")
    ∷ (b'4', "Four")
    ∷ (b'5', "Five")
    ∷ (b'6', "Six")
    ∷ (b'7', "Seven")
    ∷ (b'8', "Eight")
    ∷ (b'9', "Nine")
    ∷ (b'!', "Exclamation")
    ∷ (b'@', "At")
    ∷ (b'#', "Hash")
    ∷ (b'$', "Dollar")
    ∷ (b'%', "Percent")
    ∷ (b'^', "Caret")
    ∷ (b'&', "Ampersand")
    ∷ (b'*', "Asterisk")
    ∷ []

look_up : ℕ → List (ℕ × String) → Option Text
look_up c [] = none
look_up c ((d, word) ∷ words) =
    let rest = look_up c words in if c == d then some (codes word) else rest

-- A word of the map, by the upper case of the character.
word_of : Text → Option Text
unfolding look_up
word_of [] = none
word_of (c ∷ []) = look_up c phonetic_map
word_of (c ∷ d ∷ t) = none

-- The words of the map are ASCII.
abbrev lower_letter : ℕ → ℕ
lower_letter c = if leb b'A' c && leb c b'Z' then c + 32 else c

abbrev upper_letter : ℕ → ℕ
upper_letter c = if leb b'a' c && leb c b'z' then c - 32 else c

cased : Letters → ℕ → Option Text → Text
cased py c none = c ∷ []
cased py c (some word) =
    if py.is_lower c
    then map lower_letter word
    else if py.is_upper c
    then map upper_letter word
    else word

unfoldable pub generate_phonetic_password : Letters → Text → Text
unfolding word_of cased
generate_phonetic_password py password =
    join_on b'-' (map (λ c. cased py c (word_of (py.upper c))) password)
