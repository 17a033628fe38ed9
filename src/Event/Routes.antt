-- ===== src/Event/Routes.antt =====
-- The routes of backend/app/api/routes/event.py that create and edit events, and
-- `POST /event/toggle-active` of backend/app/api/routes/admin.py. A null for a column is not modelled.
use cyberx_event_mgmt.Base.{
  ℕ, Option, none, some, Bool, false, not, ◌&&◌, if◌then◌else◌, ◌==◌, str_eq, is_some, find, update,
  Result, ok, raised, http_exception, integrity_error, Text, text_eq,
}
use cyberx_event_mgmt.Auth.Data.{User}
use cyberx_event_mgmt.Event.Data.{Event, Db, generate_slug, has_id}
use cyberx_event_mgmt.Event.Service.{
  get_active_event, get_event, get_event_by_slug, update_event, create_event,
}
use cyberx_event_mgmt.Event.Admin.{EventCreate, new_event, slug_or, given, should_trigger}

-- `POST /api/events`. The body has no `registration_open`, whose default is false. The slug in the
-- message is left out.
unfoldable pub post_event : (Text → Text) → Db → EventCreate → Db × Result Event
post_event lower db data_ =
    let slug = slug_or data_.slug (generate_slug lower data_.name) in
    if is_some (get_event_by_slug db slug)
    then (db, raised (http_exception 400 "An event with this slug already exists."))
    else create_event db (new_event (record data_ { registration_open = false }) slug)

-- The fields of `PUT /api/events/{event_id}` that are modelled; `none` is a field that is not given.
pub record EventEdit : Type 0 where
  pub name : Option Text
  pub slug : Option Text
  pub is_active : Option Bool
  pub vpn_available : Option Bool
  pub test_mode : Option Bool

abbrev pub edited : EventEdit → Event → Event
edited u e = record e {
  name = given u.name e.name;
  slug = given u.slug e.slug;
  is_active = given u.is_active e.is_active;
  vpn_available = given u.vpn_available e.vpn_available;
  test_mode = given u.test_mode e.test_mode;
}

-- Another event has the slug, which is unique in the table.
unfoldable pub is_clash : Db → ℕ → Option Text → Bool
is_clash db i none = false
is_clash db i (some slug) =
    is_some (find (λ (e : Event). text_eq e.slug slug && not (e.id == i)) db.events)

edit_answer : Event → Option Event → Result Bool
edit_answer old none = raised (http_exception 404 "Event not found")
edit_answer old (some e) = ok (should_trigger old e)

edit_found : EventEdit → Db → Option Event → Db × Result Bool
unfolding edit_answer
edit_found u db none = (db, raised (http_exception 404 "Event not found"))
edit_found u db (some e) =
    if is_clash db e.id u.slug
    then (db, raised integrity_error)
    else let (db', found) = update_event db e.id (edited u) in (db', edit_answer e found)

-- `PUT /api/events/{event_id}`, with whether the invitation emails are scheduled. The other events
-- stay active.
unfoldable pub edit_event : Db → ℕ → EventEdit → Db × Result Bool
unfolding edit_found
edit_event db i u = edit_found u db (get_event db i)

toggle_found : Db → Option Event → Db × Result Bool
toggle_found db none = (db, raised (http_exception 404 "No event configured"))
toggle_found db (some e) =
    let toggled = not e.is_active in
    (
      record db { events = update (has_id e.id) (λ x. record x { is_active = toggled }) db.events },
      ok toggled,
    )

-- `POST /event/toggle-active`.
unfoldable pub toggle_event_active : User → Db → Db × Result Bool
unfolding toggle_found
toggle_event_active current_user db =
    if not (str_eq current_user.role "admin")
    then (db, raised (http_exception 403 "Only administrators can toggle event status"))
    else toggle_found db (get_active_event db)
