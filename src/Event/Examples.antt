-- ===== src/Event/Examples.antt =====
-- The theorems on events at concrete calls, and tests.
use cyberx_event_mgmt.Base.{
  ℕ, ◌≤◌, ◌≡◌, refl, none, some, Bool, true, false, List, [], ◌∷◌, arith, count, Text, codes,
  is_space,
}
use cyberx_event_mgmt.Auth.Data.{User}
use cyberx_event_mgmt.Event.Data.{Event, Db, generate_slug}
use cyberx_event_mgmt.Event.Admin.{EventUpdate}
use cyberx_event_mgmt.Event.Routes.{EventEdit}
use cyberx_event_mgmt.Event.Lifecycle.{
  IsSingle, Call, updates, edits, toggles, activates, archives, run,
}
use cyberx_event_mgmt.Event.Lifecycle.Invariant.{run-IsSingle}

abbrev event : ℕ → Bool → Event
event i active = record {
  id = i;
  year = 2026;
  name = codes "CyberX";
  slug = codes "cyberx";
  registration_open = false;
  is_active = active;
  is_archived = false;
  vpn_available = false;
  test_mode = false;
}

abbrev root : User
root = record {
  id = 1;
  email_normalized = "root@x.org";
  pandas_username = none;
  password_hash = none;
  role = "admin";
  role_obj = none;
  permission_overrides = record { added = []; removed = [] };
  sponsor_id = none;
  is_admin = false;
  is_active = true;
}

abbrev start : Db
start = record {
  events = event 1 true ∷ event 2 false ∷ [];
  participations =
      record { user_id = 7; event_id = 1; invited_by_user_id = none; status = "confirmed" }
      ∷ record { user_id = 8; event_id = 1; invited_by_user_id = none; status = "invited" }
      ∷ record { user_id = 9; event_id = 1; invited_by_user_id = none; status = "confirmed" }
      ∷ [];
  next_id = 3;
}

abbrev lower : Text → Text
lower t = t

abbrev activation : EventUpdate
activation = record {
  name = none;
  registration_open = none;
  vpn_available = none;
  test_mode = some true;
  is_active = some true;
}

abbrev renaming : EventEdit
renaming = record {
  name = some (codes "Spring");
  slug = some (codes "spring");
  is_active = some false;
  vpn_available = none;
  test_mode = none;
}

-- The event 2 becomes active, then 1 is archived, 2 updated and 1 renamed, and 2 toggled.
abbrev calls : List (User × Call)
calls =
    (root, activates 2)
    ∷ (root, archives 1)
    ∷ (root, updates 2 activation)
    ∷ (root, edits 1 renaming)
    ∷ (root, toggles)
    ∷ []

one_active : count (λ (e : Event). e.is_active) start.events ≤ 1
unfolding count
one_active = omega arith

run-IsSingle_example : IsSingle (run lower start calls)
run-IsSingle_example =
    run-IsSingle lower start calls (tt, (tt, (tt, (refl, (tt, tt)))))
      (record { unique = ground arith; below = ground arith; single = one_active })

slug_of_name : generate_slug lower (codes " spring  -event! 2026") ≡ codes "spring-event-2026"
unfolding generate_slug is_space
slug_of_name = refl
