-- ===== src/Event/Lifecycle/Updates.antt =====
-- How an update of one event, with or without the others made inactive, keeps the invariant.
use cyberx_event_mgmt.Base.{
  ℕ, ◌≤◌, ◌<◌, some, Bool, true, not, List, [], ◌∷◌, ◌≡◌, ◌≢◌, refl, sym, ap, ◌∙◌, arith, subst,
  inl, inr, Bool-cases, Option-cases, ◌==◌, ==→eq, Unique-find, find, find-holds, count,
  count-update-le, update, All, All-map, All-update, Unique, Unique-update,
}
use cyberx_event_mgmt.Event.Data.{Event, Db, key_of, has_id}
use cyberx_event_mgmt.Event.Service.{get_event, update_event, deactivate, deactivate_other_events}
use cyberx_event_mgmt.Event.Lifecycle.{is_active, IsSingle}

no_others :
    (k i : ℕ) (f : Event → Event) (es : List Event)
    → k ≡ i
    → All (λ e. k ≢ key_of e) es
    → count is_active (update (has_id i) f (update (λ e. not (e.id == i)) deactivate es)) ≡ 0
unfolding count update
no_others k i f [] same h = refl
no_others k i f (e ∷ es) same (h, hs) = elim (Bool-cases (e.id == i)) [
  | inl equal ↦ absurd (h (same ∙ sym (==→eq e.id i equal)))
  | inr other ↦ ground (arith, other, no_others k i f es same hs)
]

-- The event with the id may be active, and no other.
only_one :
    (i : ℕ) (f : Event → Event) (es : List Event)
    → Unique key_of es
    → count is_active (update (has_id i) f (update (λ e. not (e.id == i)) deactivate es)) ≤ 1
unfolding count update
only_one i f [] u = omega arith
only_one i f (e ∷ es) (d, u) = elim (Bool-cases (e.id == i)) [
  | inl same ↦ ground (arith, same, no_others e.id i f es (==→eq e.id i same) d)
  | inr other ↦ ground (arith, other, only_one i f es u)
]

lowered :
    (p : Event → Bool) (f : Event → Event) (es : List Event)
    → All (λ e. p e ≡ true → is_active (f e) ≡ true → is_active e ≡ true) es
    → count is_active (update p f es) ≤ count is_active es
unfolding count update
lowered p f [] h = omega arith
lowered p f (e ∷ es) (h, hs) = ground (arith, h, lowered p f es hs)

-- An update of one event that does not become active.
update_found-lowered :
    (i : ℕ) (f : Event → Event) (es : List Event) (e : Event)
    → Unique key_of es
    → find (has_id i) es ≡ some e
    → (is_active (f e) ≡ true → is_active e ≡ true)
    → count is_active (update (has_id i) f es) ≤ count is_active es
update_found-lowered i f es e u found h = lowered (has_id i) f es (
    All-map (λ x. find (λ y. key_of y == key_of x) es ≡ some x) _ es
      (λ x own same.
        let k : x.id ≡ i = ==→eq x.id i same in
        let both : some x ≡ some e = sym own ∙ ap (λ j. find (has_id j) es) k ∙ found in
        subst (λ y. is_active (f y) ≡ true → is_active y ≡ true) (sym (cc both)) h)
      (Unique-find key_of es u))

pub update_event-IsSingle :
    (db : Db) (i : ℕ) (f : Event → Event)
    → ((e : Event) → (f e).id ≡ e.id)
    → count is_active (update (has_id i) f db.events) ≤ 1
    → IsSingle db
    → IsSingle (update_event db i f).0
unfolding update_event get_event
update_event-IsSingle db i f keep le v = elim (Option-cases (find (has_id i) db.events)) [
  | inl missing ↦ rw missing v
  | inr (e, found) ↦
      let k : e.id ≡ i = ==→eq e.id i (find-holds (has_id i) db.events found) in
      rw (found, k)
        (record {
          unique = Unique-update key_of (has_id i) f db.events keep v.unique;
          below =
              All-update (λ x. x.id < db.next_id) (has_id i) f db.events (λ x _ h. rw (keep x) h)
                v.below;
          single = le;
        })
]

pub deactivate_other_events-IsSingle :
    (db : Db) (i : ℕ) → IsSingle db → IsSingle (deactivate_other_events db i)
unfolding deactivate_other_events
deactivate_other_events-IsSingle db i v = record {
  unique = Unique-update key_of (λ e. not (e.id == i)) deactivate db.events (λ e. refl) v.unique;
  below =
      All-update (λ x. x.id < db.next_id) (λ e. not (e.id == i)) deactivate db.events (λ x _ h. h)
        v.below;
  single = omega (
    arith,
    v.single,
    count-update-le (λ e. not (e.id == i)) is_active deactivate db.events (λ e _ a. absurd (cc a)),
  );
}

-- A change that makes room first.
pub moved-IsSingle :
    (db : Db) (i : ℕ) (f : Event → Event)
    → ((e : Event) → (f e).id ≡ e.id)
    → IsSingle db
    → IsSingle (update_event (deactivate_other_events db i) i f).0
unfolding deactivate_other_events
moved-IsSingle db i f keep v =
    update_event-IsSingle (deactivate_other_events db i) i f keep (only_one i f db.events v.unique)
      (deactivate_other_events-IsSingle db i v)

-- A change of a stored event that does not make it active.
pub kept-IsSingle :
    (db : Db) (i : ℕ) (f : Event → Event) (e : Event)
    → ((e : Event) → (f e).id ≡ e.id)
    → find (has_id i) db.events ≡ some e
    → (is_active (f e) ≡ true → is_active e ≡ true)
    → IsSingle db
    → IsSingle (update_event db i f).0
kept-IsSingle db i f e keep found h v =
    update_event-IsSingle db i f keep
      (omega (arith, v.single, update_found-lowered i f db.events e v.unique found h)) v
