-- ===== src/Base/Texts.antt =====
-- Texts as lists of code points, and what Python's `str` does with them.
use Prim.Native.Nat.{ℕ, ◌≤◌}
use Prim.Native.Char.{code}
use Prim.Native.String
use Prim.Native.String.{String}
use mathlib.Core.Path.{◌≡◌, refl, ap}
use mathlib.Core.Logic.{inl, inr}
use mathlib.Core.Bool.{Bool, true, false, ◌&&◌, ◌||◌}
use mathlib.Core.Option.{Option, none, some}
use mathlib.Core.List.{List, [], ◌∷◌, ◌++◌}
use native.Mathlib.Omega.{arith}
use cyberx_event_mgmt.Base.Tests.{leb, ◌==◌, if◌then◌else◌, Bool-cases}
use cyberx_event_mgmt.Base.Lists.{contains, All, length}

abbrev pub Text : Type 0
Text = List ℕ

abbrev pub codes : String → Text
codes String.[] = []
codes (String.◌∷◌ c s) = code c ∷ codes s

-- `", ".join(texts)`.
unfoldable pub join_text : List String → String
join_text [] = ""
join_text (t ∷ []) = t
join_text (t ∷ u ∷ ts) = String.◌++◌ t (String.◌++◌ ", " (join_text (u ∷ ts)))

unfoldable pub text_eq : Text → Text → Bool
text_eq [] [] = true
text_eq [] (d ∷ t) = false
text_eq (c ∷ s) [] = false
text_eq (c ∷ s) (d ∷ t) = (c == d) && text_eq s t

-- `str.isspace` of one character.
unfoldable pub is_space : ℕ → Bool
is_space c =
    (leb 9 c && leb c 13)
    || ((leb 28 c && leb c 32)
        || ((c == 133 || c == 160)
            || ((c == 5760 || (leb 8192 c && leb c 8202))
                || ((c == 8232 || c == 8233) || ((c == 8239 || c == 8287) || c == 12288)))))

abbrev pub is_nil {ℓ} : {A : Type ℓ} → List A → Bool
is_nil [] = true
is_nil (x ∷ xs) = false

unfoldable pub lstrip : Text → Text
lstrip [] = []
lstrip (c ∷ t) = let rest = lstrip t in if is_space c then rest else c ∷ t

unfoldable pub rstrip : Text → Text
rstrip [] = []
rstrip (c ∷ t) = let rest = rstrip t in if is_nil rest && is_space c then [] else c ∷ rest

unfoldable pub strip : Text → Text
strip t = rstrip (lstrip t)

abbrev pub onto_first : ℕ → List Text → List Text
onto_first c [] = (c ∷ []) ∷ []
onto_first c (t ∷ ts) = (c ∷ t) ∷ ts

-- `split(sep)` by one character, which never gives an empty list.
unfoldable pub split_on : ℕ → Text → List Text
split_on sep [] = [] ∷ []
split_on sep (c ∷ t) =
    let rest = split_on sep t in if c == sep then [] ∷ rest else onto_first c rest

-- `sep.join(texts)`, by one character.
unfoldable pub join_on : ℕ → List Text → Text
join_on sep [] = []
join_on sep (t ∷ []) = t
join_on sep (t ∷ u ∷ ts) = t ++ sep ∷ join_on sep (u ∷ ts)

-- What follows a prefix.
unfoldable pub after_prefix : Text → Text → Option Text
after_prefix [] t = some t
after_prefix (p ∷ ps) [] = none
after_prefix (p ∷ ps) (c ∷ t) = let rest = after_prefix ps t in if p == c then rest else none

-- A text as a field holds it: not empty, with no space at either end and no newline.
pub record IsClean (t : Text) : Type 0 where
  pub not_empty : is_nil t ≡ false
  pub left : lstrip t ≡ t
  pub right : rstrip t ≡ t
  pub one_line : contains t 10 ≡ false

pub rstrip-append : (s t : Text) → is_nil t ≡ false → rstrip t ≡ t → rstrip (s ++ t) ≡ s ++ t
unfolding rstrip
rstrip-append [] t n r = r
rstrip-append (c ∷ s) t n r = ground (arith, rstrip-append s t n r, append-is_nil s t n)
  where
    append-is_nil : (s t : Text) → is_nil t ≡ false → is_nil (s ++ t) ≡ false
    append-is_nil [] t n = n
    append-is_nil (c ∷ s) t n = refl

lstrip-length : (t : Text) → length (lstrip t) ≤ length t
unfolding lstrip
lstrip-length [] = ground arith
lstrip-length (c ∷ t) = ground (arith, lstrip-length t)

pub lstrip-append : (t s : Text) → is_nil t ≡ false → lstrip t ≡ t → lstrip (t ++ s) ≡ t ++ s
unfolding lstrip
lstrip-append [] s n l = absurd (ground (arith, n))
lstrip-append (c ∷ t) s n l = elim (Bool-cases (is_space c)) [
  | inl spaced ↦
      let shorter : lstrip t ≡ c ∷ t = ground (arith, l, spaced) in
      absurd (omega (arith, lstrip-length t, ap length shorter))
  | inr solid ↦ ground (arith, solid)
]

-- Reading a line that ends in a separator.
pub split_on-append :
    (sep : ℕ) (s t : Text)
    → contains s sep ≡ false
    → split_on sep (s ++ sep ∷ t) ≡ s ∷ split_on sep t
unfolding split_on contains
split_on-append sep [] t h = ground arith
split_on-append sep (c ∷ s) t h = ground (arith, h, split_on-append sep s t)

split_on_whole : (sep : ℕ) (s : Text) → contains s sep ≡ false → split_on sep s ≡ s ∷ []
unfolding split_on contains
split_on_whole sep [] h = refl
split_on_whole sep (c ∷ s) h = ground (arith, h, split_on_whole sep s)

pub split_on-join_on :
    (sep : ℕ) (t : Text) (ts : List Text)
    → All (λ s. contains s sep ≡ false) (t ∷ ts)
    → split_on sep (join_on sep (t ∷ ts)) ≡ t ∷ ts
unfolding join_on
split_on-join_on sep t [] (h, hs) = split_on_whole sep t h
split_on-join_on sep t (u ∷ ts) (h, hs) =
    rw (split_on-append sep t (join_on sep (u ∷ ts)) h, split_on-join_on sep u ts hs)
