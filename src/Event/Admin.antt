-- ===== src/Event/Admin.antt =====
-- The routes of administrators that change events, after their permission guards; the audit entries
-- are left out.
use cyberx_event_mgmt.Base.{
  ℕ, Option, none, some, Bool, true, false, not, ◌&&◌, ◌||◌, if◌then◌else◌, str_eq, is_some, Result,
  ok, raised, http_exception, Text, is_nil,
}
use cyberx_event_mgmt.Auth.Data.{User}
use cyberx_event_mgmt.Event.Data.{Event, Db, generate_slug}
use cyberx_event_mgmt.Event.Service.{
  get_event, get_active_event_by_year, get_event_by_slug, update_event, create_event,
  deactivate_other_events,
}

-- The body of `POST /events`.
pub record EventCreate : Type 0 where
  pub year : ℕ
  pub name : Text
  pub slug : Option Text
  pub is_active : Bool
  pub registration_open : Bool

abbrev pub new_event : EventCreate → Text → ℕ → Event
new_event data_ slug i = record {
  id = i;
  year = data_.year;
  name = data_.name;
  slug = slug;
  registration_open = data_.registration_open;
  is_active = data_.is_active;
  is_archived = false;
  vpn_available = false;
  test_mode = false;
}

-- `data.get("slug") or generate_slug(data["name"])`.
abbrev pub slug_or : Option Text → Text → Text
slug_or none generated = generated
slug_or (some s) generated = if is_nil s then generated else s

create_checked : Db → EventCreate → Text → Result (Option Event) → Db × Result Event
create_checked db data_ slug (raised e) = (db, raised e)
create_checked db data_ slug (ok (some existing)) =
    (db, raised (http_exception 400 "A non-archived event for this year already exists"))
create_checked db data_ slug (ok none) =
    if is_some (get_event_by_slug db slug)
    then (db, raised (http_exception 400 "An event with this slug already exists"))
    else create_event db (new_event data_ slug)

-- `POST /events`.
unfoldable pub admin_create_event : (Text → Text) → User → Db → EventCreate → Db × Result Event
unfolding create_checked
admin_create_event lower current_user db data_ =
    if not (str_eq current_user.role "admin")
    then (db, raised (http_exception 403 "Only administrators can create events"))
    else create_checked db data_ (slug_or data_.slug (generate_slug lower data_.name))
        (get_active_event_by_year db data_.year)

-- The fields of `PUT /events/{event_id}` that are modelled; `none` is a field that is not given.
pub record EventUpdate : Type 0 where
  pub name : Option Text
  pub registration_open : Option Bool
  pub vpn_available : Option Bool
  pub test_mode : Option Bool
  pub is_active : Option Bool

abbrev pub given {ℓ} : {A : Type ℓ} → Option A → A → A
given none old = old
given (some new) old = new

abbrev pub bool_eq : Bool → Bool → Bool
bool_eq true b = b
bool_eq false b = not b

abbrev pub assign : EventUpdate → Event → Event
assign u e = record e {
  name = given u.name e.name;
  registration_open = given u.registration_open e.registration_open;
  vpn_available = given u.vpn_available e.vpn_available;
  test_mode = given u.test_mode e.test_mode;
  is_active = given u.is_active e.is_active;
}

-- Whether the invitation emails are scheduled, by the event before and after.
unfoldable pub should_trigger : Event → Event → Bool
should_trigger old e =
    (not old.is_active && e.is_active)
    || (((not old.test_mode && e.test_mode) && e.is_active)
        || (((not old.registration_open && e.registration_open) && e.is_active)
            || ((old.test_mode && not e.test_mode) && (e.is_active && e.registration_open))))

-- The others are deactivated when the event becomes active.
abbrev pub make_room : Db → EventUpdate → Event → Db
make_room db u e =
    if given u.is_active e.is_active && not e.is_active then deactivate_other_events db e.id else db

answer : Event → Option Event → Result Bool
answer old none = raised (http_exception 404 "Event")
answer old (some e) = ok (should_trigger old e)

update_found : EventUpdate → Db → Option Event → Db × Result Bool
unfolding answer
update_found u db none = (db, raised (http_exception 404 "Event"))
update_found u db (some e) =
    let (db', found) = update_event (make_room db u e) e.id (assign u) in (db', answer e found)

-- `PUT /events/{event_id}`, with whether the invitation emails are scheduled.
unfoldable pub admin_update_event : User → Db → ℕ → EventUpdate → Db × Result Bool
unfolding update_found
admin_update_event current_user db i u =
    if not (str_eq current_user.role "admin")
    then (db, raised (http_exception 403 "Only administrators can update events"))
    else update_found u db (get_event db i)

activate_found : Db → Option Event → Db × Result (Unit {0})
activate_found db none = (db, raised (http_exception 404 "Event"))
activate_found db (some e) =
    if e.is_archived
    then (db, raised (http_exception 400 "Cannot activate an archived event"))
    else (
      (update_event (deactivate_other_events db e.id) e.id (λ x. record x { is_active = true })).0,
      ok tt,
    )

-- `POST /events/{event_id}/activate`.
unfoldable pub activate_event : User → Db → ℕ → Db × Result (Unit {0})
unfolding activate_found
activate_event current_user db i =
    if not (str_eq current_user.role "admin")
    then (db, raised (http_exception 403 "Only administrators can activate events"))
    else activate_found db (get_event db i)

archive_found : Db → Option Event → Db × Result (Unit {0})
archive_found db none = (db, raised (http_exception 404 "Event"))
archive_found db (some e) =
    if e.is_active
    then (db, raised (http_exception 400 "Cannot archive the active event. Deactivate it first."))
    else ((update_event db e.id (λ x. record x { is_archived = true })).0, ok tt)

-- `POST /events/{event_id}/archive`.
unfoldable pub archive_event : User → Db → ℕ → Db × Result (Unit {0})
unfolding archive_found
archive_event current_user db i =
    if not (str_eq current_user.role "admin")
    then (db, raised (http_exception 403 "Only administrators can archive events"))
    else archive_found db (get_event db i)
