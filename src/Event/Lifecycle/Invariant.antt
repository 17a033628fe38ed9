-- ===== src/Event/Lifecycle/Invariant.antt =====
-- What holds of the events between two calls.
use cyberx_event_mgmt.Base.{
  Option, Bool, ℕ, suc, ◌<◌, none, some, true, false, not, ◌&&◌, List, [], ◌∷◌, ◌≡◌, refl, sym, ap,
  ◌∙◌, arith, inl, inr, Bool-cases, Option-cases, ==→eq, str_eq, is_some, find, find-holds, count,
  count-append, count-delete-le, All, All-map, All-append, All-delete, Unique-append, Unique-delete,
  Result-cases, Text,
}
use cyberx_event_mgmt.Auth.Data.{User}
use cyberx_event_mgmt.Event.Data.{Event, Db, generate_slug, key_of, has_id}
use cyberx_event_mgmt.Event.Service.{
  get_event, get_active_event, get_active_event-stored, get_active_event_by_year, get_event_by_slug,
  create_event, delete_event, update_event,
}
use cyberx_event_mgmt.Event.Admin.{
  slug_or, new_event, EventCreate, admin_create_event, EventUpdate, admin_update_event,
  activate_event, archive_event, assign, given,
}
use cyberx_event_mgmt.Event.Routes.{
  EventEdit, edited, is_clash, post_event, edit_event, toggle_event_active,
}
use cyberx_event_mgmt.Event.Lifecycle.{
  is_active, IsSingle, Call, creates, updates, posts, edits, toggles, activates, archives, deletes,
  step, run, IsQuiet,
}
use cyberx_event_mgmt.Event.Lifecycle.Updates.{moved-IsSingle, kept-IsSingle}

own_id : (db : Db) (i : ℕ) (e : Event) → find (has_id i) db.events ≡ some e → i ≡ e.id
own_id db i e found = sym (==→eq e.id i (find-holds (has_id i) db.events found))

admin_update_event-IsSingle :
    (user : User) (db : Db) (i : ℕ) (u : EventUpdate)
    → IsSingle db
    → IsSingle (admin_update_event user db i u).0
unfolding admin_update_event get_event
admin_update_event-IsSingle user db i u v = elim (Bool-cases (str_eq user.role "admin")) [
  | inr refused ↦ rw refused v
  | inl passed ↦ elim (Option-cases (find (has_id i) db.events)) [
    | inl missing ↦ rw (passed, missing) v
    | inr (e, found) ↦ elim (Bool-cases (given u.is_active e.is_active && not e.is_active)) [
      | inl becomes ↦ rw (passed, found, becomes) (moved-IsSingle db e.id (assign u) (λ e. refl) v)
      | inr stays ↦
          rw (passed, found, stays)
            (kept-IsSingle db e.id (assign u) e (λ e. refl)
              (ap (λ j. find (has_id j) db.events) (sym (own_id db i e found)) ∙ found)
              (λ a. ground (arith, a, stays)) v)
    ]
  ]
]

activate_event-IsSingle :
    (user : User) (db : Db) (i : ℕ) → IsSingle db → IsSingle (activate_event user db i).0
unfolding activate_event get_event
activate_event-IsSingle user db i v = elim (Bool-cases (str_eq user.role "admin")) [
  | inr refused ↦ rw refused v
  | inl passed ↦ elim (Option-cases (find (has_id i) db.events)) [
    | inl missing ↦ rw (passed, missing) v
    | inr (e, found) ↦ elim (Bool-cases e.is_archived) [
      | inl archived ↦ rw (passed, found, archived) v
      | inr free ↦
          rw (passed, found, free)
            (moved-IsSingle db e.id (λ x. record x { is_active = true }) (λ e. refl) v)
    ]
  ]
]

archive_event-IsSingle :
    (user : User) (db : Db) (i : ℕ) → IsSingle db → IsSingle (archive_event user db i).0
unfolding archive_event get_event
archive_event-IsSingle user db i v = elim (Bool-cases (str_eq user.role "admin")) [
  | inr refused ↦ rw refused v
  | inl passed ↦ elim (Option-cases (find (has_id i) db.events)) [
    | inl missing ↦ rw (passed, missing) v
    | inr (e, found) ↦ elim (Bool-cases e.is_active) [
      | inl active ↦ rw (passed, found, active) v
      | inr idle ↦
          rw (passed, found, idle)
            (kept-IsSingle db e.id (λ x. record x { is_archived = true }) e (λ e. refl)
              (ap (λ j. find (has_id j) db.events) (sym (own_id db i e found)) ∙ found) (λ a. a) v)
    ]
  ]
]

create_event-IsSingle :
    (db : Db) (new : ℕ → Event)
    → ((i : ℕ) → (new i).id ≡ i)
    → (new db.next_id).is_active ≡ false
    → IsSingle db
    → IsSingle (create_event db new).0
unfolding create_event count
create_event-IsSingle db new own idle v =
    elim (Bool-cases (is_some (get_event_by_slug db (new db.next_id).slug))) [
      | inl taken ↦ rw taken v
      | inr fresh ↦ rw fresh (record {
        unique =
            Unique-append key_of db.next_id db.events (new db.next_id) v.unique v.below
              (omega (arith, own db.next_id));
        below =
            All-append (λ e. e.id < suc db.next_id) db.events (new db.next_id ∷ [])
              (All-map (λ e. e.id < db.next_id) (λ e. e.id < suc db.next_id) db.events
                (λ e h. omega (arith, h)) v.below)
              (omega (arith, own db.next_id), tt);
        single =
            ground (arith, count-append is_active db.events (new db.next_id ∷ []), idle, v.single);
      })
    ]

admin_create_event-IsSingle :
    (lower : Text → Text) (user : User) (db : Db) (data_ : EventCreate)
    → data_.is_active ≡ false
    → IsSingle db
    → IsSingle (admin_create_event lower user db data_).0
unfolding admin_create_event
admin_create_event-IsSingle lower user db data_ idle v =
    elim (Bool-cases (str_eq user.role "admin")) [
      | inr refused ↦ rw refused v
      | inl passed ↦ elim (Result-cases (get_active_event_by_year db data_.year)) [
        | inr (e, failed) ↦ rw (passed, failed) v
        | inl (none, free) ↦
            rw (passed, free)
              (ground (
                arith,
                create_event-IsSingle db
                    (new_event data_ (slug_or data_.slug (generate_slug lower data_.name)))
                    (λ i. refl) idle v,
              ))
        | inl (some e, found) ↦ rw (passed, found) v
      ]
    ]

delete_event-IsSingle : (db : Db) (i : ℕ) → IsSingle db → IsSingle (delete_event db i).0
unfolding delete_event
delete_event-IsSingle db i v = elim (Bool-cases (is_some (get_event db i))) [
  | inr missing ↦ rw missing v
  | inl found ↦ rw found (record {
    unique = Unique-delete key_of (has_id i) db.events v.unique;
    below = All-delete (λ e. e.id < db.next_id) (has_id i) db.events v.below;
    single = omega (arith, v.single, count-delete-le (has_id i) is_active db.events);
  })
]

post_event-IsSingle :
    (lower : Text → Text) (db : Db) (data_ : EventCreate)
    → data_.is_active ≡ false
    → IsSingle db
    → IsSingle (post_event lower db data_).0
unfolding post_event
post_event-IsSingle lower db data_ idle v =
    let slug = slug_or data_.slug (generate_slug lower data_.name) in
    elim (Bool-cases (is_some (get_event_by_slug db slug))) [
      | inl taken ↦ rw taken v
      | inr fresh ↦ rw fresh (
          create_event-IsSingle db (new_event (record data_ { registration_open = false }) slug)
            (λ i. refl) idle v)
    ]

given-idle :
    (o : Option Bool) (old : Bool) → given o false ≡ false → given o old ≡ true → old ≡ true
given-idle none old idle h = h
given-idle (some b) old idle h = absurd (cc)

edit_event-IsSingle :
    (db : Db) (i : ℕ) (u : EventEdit)
    → given u.is_active false ≡ false
    → IsSingle db
    → IsSingle (edit_event db i u).0
unfolding edit_event get_event
edit_event-IsSingle db i u idle v = elim (Option-cases (find (has_id i) db.events)) [
  | inl missing ↦ rw missing v
  | inr (e, found) ↦
      let edit =
        kept-IsSingle db e.id (edited u) e (λ e. refl)
          (ap (λ j. find (has_id j) db.events) (sym (own_id db i e found)) ∙ found)
          (given-idle u.is_active e.is_active idle) v in
      elim (Bool-cases (is_clash db e.id u.slug)) [
        | inl clash ↦ rw (found, clash) v
        | inr free ↦ rw (found, free) edit
      ]
]

toggle_event_active-IsSingle :
    (user : User) (db : Db) → IsSingle db → IsSingle (toggle_event_active user db).0
unfolding toggle_event_active update_event get_event
toggle_event_active-IsSingle user db v = elim (Bool-cases (str_eq user.role "admin")) [
  | inr refused ↦ rw refused v
  | inl passed ↦ elim (Option-cases (get_active_event db)) [
    | inl missing ↦ rw (passed, missing) v
    | inr (e, found) ↦
        let (stored, active) = get_active_event-stored db e v.unique found in
        let f : Event → Event = λ x. record x { is_active = not e.is_active } in
        let toggled : IsSingle (update_event db e.id f).0 =
          kept-IsSingle db e.id f e (λ e. refl) stored (λ a. active) v in
        rw (passed, found) (rw stored at toggled)
  ]
]

step-IsSingle :
    (lower : Text → Text) (db : Db) (c : User × Call)
    → IsQuiet c
    → IsSingle db
    → IsSingle (step lower db c)
unfolding step
step-IsSingle lower db (user, creates data_) q v =
    admin_create_event-IsSingle lower user db data_ q v
step-IsSingle lower db (user, updates i u) q v = admin_update_event-IsSingle user db i u v
step-IsSingle lower db (user, posts data_) q v = post_event-IsSingle lower db data_ q v
step-IsSingle lower db (user, edits i u) q v = edit_event-IsSingle db i u q v
step-IsSingle lower db (user, toggles) q v = toggle_event_active-IsSingle user db v
step-IsSingle lower db (user, activates i) q v = activate_event-IsSingle user db i v
step-IsSingle lower db (user, archives i) q v = archive_event-IsSingle user db i v
step-IsSingle lower db (user, deletes i) q v = delete_event-IsSingle db i v

-- From distinct ids and one active event at most, after any calls that create, update, edit, toggle,
-- activate, archive and delete events, of which none creates an event as active and none sets one
-- active by PUT /api/events/{event_id}: the ids are distinct, and one event at most is active.
pub run-IsSingle :
    (lower : Text → Text) (db : Db) (cs : List (User × Call))
    → All IsQuiet cs
    → IsSingle db
    → IsSingle (run lower db cs)
unfolding run
run-IsSingle lower db [] q v = v
run-IsSingle lower db (c ∷ cs) (q, qs) v =
    run-IsSingle lower (step lower db c) cs qs (step-IsSingle lower db c q v)
