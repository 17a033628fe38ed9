-- ===== src/Event/Statistics.antt =====
-- The statistics of an event, against plain counts.
use cyberx_event_mgmt.Base.{
  ℕ, suc, ◌+◌, String, Bool, ◌&&◌, List, [], ◌∷◌, ◌≡◌, refl, ◌∙◌, arith, inl, inr, Bool-cases,
  if◌then◌else◌, ◌==◌, str_eq, eq_refl, select, count, length, length-select,
}
use text.Mathlib.TextEquality.{eq_iff}
use cyberx_event_mgmt.Event.Data.{Participation, Db}
use cyberx_event_mgmt.Event.Service.{
  Counts, bump, group, count_of, sum_counts, get_event_statistics,
}

count_of-bump :
    (s t : String) (cs : Counts)
    → count_of s (bump t cs) ≡ count_of s cs + (if str_eq t s then 1 else 0)
unfolding bump count_of
count_of-bump s t [] = ground arith
count_of-bump s t ((u, n) ∷ cs) = elim (Bool-cases (str_eq u t)) [
  | inl same ↦ ground (arith, same, (eq_iff u t).0 same)
  | inr other ↦ elim (Bool-cases (str_eq u s)) [
    | inl own ↦ elim (Bool-cases (str_eq t s)) [
      | inl both ↦
          absurd (ground (arith, other, eq_refl u, (eq_iff u s).0 own, (eq_iff t s).0 both))
      | inr apart ↦ rw (other, own, apart) (omega arith)
    ]
    | inr apart ↦ rw (other, apart) (count_of-bump s t cs)
  ]
]

sum_counts-bump : (t : String) (cs : Counts) → sum_counts (bump t cs) ≡ suc (sum_counts cs)
unfolding bump sum_counts
sum_counts-bump t [] = ground arith
sum_counts-bump t ((u, n) ∷ cs) = ground (arith, sum_counts-bump t cs)

count_of-group :
    (s : String) (ps : List Participation)
    → count_of s (group ps) ≡ count (λ p. str_eq p.status s) ps
unfolding group count_of count
count_of-group s [] = refl
count_of-group s (p ∷ ps) = ground (arith, count_of-bump s p.status (group ps), count_of-group s ps)

sum_counts-group : (ps : List Participation) → sum_counts (group ps) ≡ length ps
unfolding group sum_counts
sum_counts-group [] = refl
sum_counts-group (p ∷ ps) = ground (arith, sum_counts-bump p.status (group ps), sum_counts-group ps)

count-select :
    (p q : Participation → Bool) (ps : List Participation)
    → count p (select q ps) ≡ count (λ x. q x && p x) ps
unfolding count select
count-select p q [] = refl
count-select p q (x ∷ ps) = ground (arith, count-select p q ps)

abbrev has_status : ℕ → String → Participation → Bool
has_status i s p = (p.event_id == i) && str_eq p.status s

-- The grouped statistics of an event are the plain counts of its participations: all of them, and
-- those with each status.
pub get_event_statistics_counts :
    (db : Db) (i : ℕ)
    → let s = get_event_statistics db i in
      (s.total_invited ≡ count (λ p. p.event_id == i) db.participations)
      × (s.total_confirmed ≡ count (has_status i "confirmed") db.participations)
      × (s.total_declined ≡ count (has_status i "declined") db.participations)
      × (s.total_no_response ≡ count (has_status i "no_response") db.participations)
unfolding get_event_statistics
get_event_statistics_counts db i =
    let ps = select (λ p. p.event_id == i) db.participations in
    let each = λ (s : String).
      count_of-group s ps
      ∙ count-select (λ p. str_eq p.status s) (λ p. p.event_id == i) db.participations in
    (
      sum_counts-group ps ∙ length-select (λ p. p.event_id == i) db.participations,
      each "confirmed",
      each "declined",
      each "no_response",
    )
