-- ===== src/Event/Service.antt =====
-- `EventService`. The keyword arguments of `update_event` are the assignments that they make; the
-- caller that sets the slug checks that it stays unique.
use cyberx_event_mgmt.Base.{
  text_eq, ℕ, suc, ◌+◌, String, Option, none, some, Bool, true, false, not, ◌&&◌, List, [], ◌∷◌,
  ◌++◌, if◌then◌else◌, ◌==◌, leb, str_eq, is_some, select, find, update, delete, sort_by, Result,
  All, All-select, All-sort_by, select-All, Unique, Unique-find, ◌≡◌, subst, ok, raised,
  integrity_error, scalar_one_or_none, Text,
}
use cyberx_event_mgmt.Event.Data.{Event, Participation, Db, key_of, has_id}

-- `ORDER BY year DESC`.
abbrev pub is_later : Event → Event → Bool
is_later a b = leb b.year a.year

first_row : List Event → Option Event
first_row [] = none
first_row (e ∷ es) = some e

unfoldable pub get_active_event : Db → Option Event
unfolding first_row
get_active_event db = first_row (sort_by is_later (select (λ e. e.is_active) db.events))

first_row-All :
    (P : Event → Type 0) (es : List Event) (e : Event) → All P es → first_row es ≡ some e → P e
unfolding first_row
first_row-All P [] e h found = absurd (cc found)
first_row-All P (x ∷ xs) e (h, hs) found = subst P (cc found) h

-- The active event is stored as such.
pub get_active_event-stored :
    (db : Db) (e : Event)
    → Unique key_of db.events
    → get_active_event db ≡ some e
    → (find (has_id e.id) db.events ≡ some e) × (e.is_active ≡ true)
unfolding get_active_event
get_active_event-stored db e u found =
    let active = select (λ (x : Event). x.is_active) db.events in
    let Stored : Event → Type 0 = λ x. find (has_id x.id) db.events ≡ some x in
    let Active : Event → Type 0 = λ x. x.is_active ≡ true in
    (
      first_row-All Stored (sort_by is_later active) e
          (All-sort_by Stored is_later active
            (All-select Stored (λ x. x.is_active) db.events (Unique-find key_of db.events u)))
          found,
      first_row-All Active (sort_by is_later active) e
          (All-sort_by Active is_later active (select-All (λ (x : Event). x.is_active) db.events))
          found,
    )

unfoldable pub is_event_active : Db → Bool
is_event_active db = holds (get_active_event db)
  where
    holds : Option Event → Bool
    holds none = false
    holds (some e) = e.is_active

unfoldable pub can_send_invitations : Db → Bool
can_send_invitations db = holds (get_active_event db)
  where
    holds : Option Event → Bool
    holds none = false
    holds (some e) = e.is_active && e.registration_open

unfoldable pub get_event : Db → ℕ → Option Event
get_event db i = find (has_id i) db.events

unfoldable pub list_events : Db → Bool → List Event
list_events db include_archived =
    sort_by is_later
      (if include_archived then db.events else select (λ e. not e.is_archived) db.events)

unfoldable pub get_event_by_year : Db → ℕ → Result (Option Event)
get_event_by_year db year = scalar_one_or_none (select (λ e. e.year == year) db.events)

unfoldable pub get_active_event_by_year : Db → ℕ → Result (Option Event)
get_active_event_by_year db year =
    scalar_one_or_none (select (λ e. (e.year == year) && not e.is_archived) db.events)

-- The slug is unique.
unfoldable pub get_event_by_slug : Db → Text → Option Event
get_event_by_slug db slug = find (λ e. text_eq e.slug slug) db.events

update_found : Db → (Event → Event) → Option Event → Db × Option Event
update_found db f none = (db, none)
update_found db f (some e) = (record db { events = update (has_id e.id) f db.events }, some (f e))

unfoldable pub update_event : Db → ℕ → (Event → Event) → Db × Option Event
unfolding update_found
update_event db i f = update_found db f (get_event db i)

-- The row comes without its id.
unfoldable pub create_event : Db → (ℕ → Event) → Db × Result Event
create_event db new =
    let e = new db.next_id in
    if is_some (get_event_by_slug db e.slug)
    then (db, raised integrity_error)
    else (record db { events = db.events ++ e ∷ []; next_id = suc db.next_id }, ok e)

-- The participations of an event go with it.
unfoldable pub delete_event : Db → ℕ → Db × Bool
delete_event db i =
    if is_some (get_event db i)
    then (
      record db {
        events = delete (has_id i) db.events;
        participations = delete (λ p. p.event_id == i) db.participations;
      },
      true,
    )
    else (db, false)

abbrev pub deactivate : Event → Event
deactivate e = record e { is_active = false }

unfoldable pub deactivate_other_events : Db → ℕ → Db
deactivate_other_events db i = record db {
  events = update (λ e. not (e.id == i)) deactivate db.events;
}

-- `GROUP BY status` with the count of each.
abbrev pub Counts : Type 0
Counts = List (String × ℕ)

unfoldable pub bump : String → Counts → Counts
bump s [] = (s, 1) ∷ []
bump s ((t, n) ∷ cs) = let rest = bump s cs in if str_eq t s then (t, suc n) ∷ cs else (t, n) ∷ rest

unfoldable pub group : List Participation → Counts
group [] = []
group (p ∷ ps) = bump p.status (group ps)

unfoldable pub count_of : String → Counts → ℕ
count_of s [] = 0
count_of s ((t, n) ∷ cs) = let rest = count_of s cs in if str_eq t s then n else rest

unfoldable pub sum_counts : Counts → ℕ
sum_counts [] = 0
sum_counts ((t, n) ∷ cs) = n + sum_counts cs

pub record EventStatistics : Type 0 where
  pub total_invited : ℕ
  pub total_confirmed : ℕ
  pub total_declined : ℕ
  pub total_no_response : ℕ

unfoldable pub get_event_statistics : Db → ℕ → EventStatistics
get_event_statistics db i =
    let status_counts = group (select (λ p. p.event_id == i) db.participations) in
    record {
      total_invited = sum_counts status_counts;
      total_confirmed = count_of "confirmed" status_counts;
      total_declined = count_of "declined" status_counts;
      total_no_response = count_of "no_response" status_counts;
    }
