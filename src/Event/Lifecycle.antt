-- ===== src/Event/Lifecycle.antt =====
-- The events over a sequence of calls by administrators, and what holds of them between two calls.
pub mod Updates
pub mod Invariant
use cyberx_event_mgmt.Base.{
  ℕ, zero, suc, ◌+◌, ◌≤◌, ◌<◌, String, Option, none, some, Bool, true, false, not, ◌&&◌, ◌||◌, List,
  [], ◌∷◌, ◌++◌, ◌≡◌, ◌≢◌, refl, sym, ap, ◌∙◌, arith, subst, inl, inr, Bool-cases, Option-cases,
  if◌then◌else◌, ◌==◌, ==→eq, Unique-find, str_eq, is_some, select, find, find-holds, ◌⊎◌, count,
  count-append, count-update-le, count-update-zero, count-delete-le, update, delete, All, All-map,
  All-append, All-update, All-delete, Unique, Below, Unique-update, Unique-append, Result-cases,
  http_exception, Error, Result, ok, raised, Text, scalar_one_or_none,
}
use cyberx_event_mgmt.Auth.Data.{User}
use cyberx_event_mgmt.Event.Data.{Event, Db, generate_slug, key_of, has_id}
use cyberx_event_mgmt.Event.Service.{
  get_event, get_active_event_by_year, get_event_by_slug, update_event, create_event, delete_event,
  deactivate, deactivate_other_events,
}
use cyberx_event_mgmt.Event.Admin.{
  slug_or, new_event, EventCreate, admin_create_event, EventUpdate, admin_update_event,
  activate_event, archive_event, assign, given, make_room,
}
use cyberx_event_mgmt.Event.Routes.{EventEdit, post_event, edit_event, toggle_event_active}

abbrev pub is_active : Event → Bool
is_active e = e.is_active

-- Distinct ids, and one active event at most.
pub record IsSingle (db : Db) : Type 0 where
  pub unique : Unique key_of db.events
  pub below : Below key_of db.next_id db.events
  pub single : count is_active db.events ≤ 1

-- A call with the administrator, and what it changes.
pub data Call : Type 0 where
  creates : EventCreate → Call
  updates : ℕ → EventUpdate → Call
  posts : EventCreate → Call
  edits : ℕ → EventEdit → Call
  toggles : Call
  activates archives deletes : ℕ → Call

unfoldable pub step : (Text → Text) → Db → User × Call → Db
step lower db (user, creates data_) = (admin_create_event lower user db data_).0
step lower db (user, updates i u) = (admin_update_event user db i u).0
step lower db (user, posts data_) = (post_event lower db data_).0
step lower db (user, edits i u) = (edit_event db i u).0
step lower db (user, toggles) = (toggle_event_active user db).0
step lower db (user, activates i) = (activate_event user db i).0
step lower db (user, archives i) = (archive_event user db i).0
step lower db (user, deletes i) = (delete_event db i).0

unfoldable pub run : (Text → Text) → Db → List (User × Call) → Db
unfolding step
run lower db [] = db
run lower db (c ∷ cs) = run lower (step lower db c) cs

-- No event is created as active, and none made active by `PUT /api/events/{event_id}`.
abbrev pub IsQuiet : User × Call → Type 0
IsQuiet (user, creates data_) = data_.is_active ≡ false
IsQuiet (user, updates i u) = Unit
IsQuiet (user, posts data_) = data_.is_active ≡ false
IsQuiet (user, edits i u) = given u.is_active false ≡ false
IsQuiet (user, toggles) = Unit
IsQuiet (user, activates i) = Unit
IsQuiet (user, archives i) = Unit
IsQuiet (user, deletes i) = Unit
