-- ===== src/Participant/Statistics.antt =====
-- `get_statistics` of backend/app/services/participant_service.py, with the history of a user's
-- participations (backend/app/models/user.py). The rate of participation, a quotient in floating point
-- that is compared with 20 percent, is compared as a fraction. A participation
-- is that of one user and event, so that no count exceeds the total.
pub mod Owners
use cyberx_event_mgmt.Base.{
  ℕ, ◌-◌, ◌*◌, String, Option, none, some, Bool, true, false, ◌&&◌, ◌||◌, List, [], ◌∷◌,
  if◌then◌else◌, ◌==◌, str_eq, opt_eq, ltb, leb, is_some, find, count, contains, length, select,
}
use cyberx_event_mgmt.Event.Data.{Event, Participation}
use cyberx_event_mgmt.Event.Service.{get_active_event}
use cyberx_event_mgmt.Vpn.Data.{Credential}
use cyberx_event_mgmt.Participant.Data.{User, Db}
use cyberx_event_mgmt.Participant.Delete.{is_of_participation}

pub record Statistics : Type 0 where
  pub total_invitees : ℕ
  pub confirmed_count : ℕ
  pub unconfirmed_count : ℕ
  pub with_vpn_count : ℕ
  pub without_vpn_count : ℕ
  pub active_count : ℕ
  pub inactive_count : ℕ
  pub admin_count : ℕ
  pub sponsor_count : ℕ
  pub invitee_count : ℕ
  pub chronic_non_participant_count : ℕ
  pub recommended_removal_count : ℕ

-- The users of a sponsor, or all.
abbrev pub is_counted : Option ℕ → User → Bool
is_counted none u = true
is_counted (some i) u = opt_eq u.sponsor_id (some i)

abbrev pub years_invited : Db → User → ℕ
years_invited db u = count (is_of_participation u.id) db.events.participations

abbrev pub years_participated : Db → User → ℕ
years_participated db u =
    count (λ p. is_of_participation u.id p && str_eq p.status "confirmed") db.events.participations

unfoldable pub is_chronic_non_participant : Db → User → Bool
is_chronic_non_participant db u = leb 3 (years_invited db u) && (years_participated db u == 0)

unfoldable pub should_recommend_removal : Db → User → Bool
should_recommend_removal db u =
    (leb 3 (years_invited db u) && (years_participated db u == 0))
    || (leb 5 (years_invited db u) && ltb (5 * years_participated db u) (years_invited db u))

-- The confirmed participations of the active event, by the user they join.
unfoldable pub count_confirmed : Db → Option ℕ → Option Event → ℕ
count_confirmed db sponsor_id none =
    count (λ u. str_eq u.confirmed "YES" && is_counted sponsor_id u) db.users
count_confirmed db sponsor_id (some e) =
    count
      (λ p.
        ((p.event_id == e.id) && str_eq p.status "confirmed")
        && is_some (find (λ u. (u.id == p.user_id) && is_counted sponsor_id u) db.users))
      db.events.participations

abbrev pub add_owner : Option ℕ → List ℕ → List ℕ
add_owner none ids = ids
add_owner (some i) ids = if contains ids i then ids else i ∷ ids

-- The users of credentials, each once.
unfoldable pub distinct_owners : List Credential → List ℕ
distinct_owners [] = []
distinct_owners (c ∷ cs) = add_owner c.assigned_to_user_id (distinct_owners cs)

abbrev pub joins : Db → Option ℕ → Credential → Bool
joins db none c = is_some c.assigned_to_user_id
joins db (some i) c = sponsored c.assigned_to_user_id
  where
    sponsored : Option ℕ → Bool
    sponsored none = false
    sponsored (some k) = is_some (find (λ u. (u.id == k) && is_counted (some i) u) db.users)

unfoldable pub count_with_vpn : Db → Option ℕ → ℕ
count_with_vpn db sponsor_id =
    length (distinct_owners (select (joins db sponsor_id) db.credentials))

-- A count that a sponsor's statistics leave out.
abbrev pub if_all : Option ℕ → ℕ → ℕ
if_all none n = n
if_all (some i) n = 0

unfoldable pub get_statistics : Db → Option ℕ → Statistics
get_statistics db sponsor_id =
    let total = count (is_counted sponsor_id) db.users in
    let confirmed = count_confirmed db sponsor_id (get_active_event db.events) in
    let active = count (λ u. u.is_active && is_counted sponsor_id u) db.users in
    let with_vpn = count_with_vpn db sponsor_id in
    record {
      total_invitees = total;
      confirmed_count = confirmed;
      unconfirmed_count = total - confirmed;
      with_vpn_count = with_vpn;
      without_vpn_count = total - with_vpn;
      active_count = active;
      inactive_count = total - active;
      admin_count = if_all sponsor_id (count (λ u. str_eq u.role "admin") db.users);
      sponsor_count = if_all sponsor_id (count (λ u. str_eq u.role "sponsor") db.users);
      invitee_count = if_all sponsor_id (count (λ u. str_eq u.role "invitee") db.users);
      chronic_non_participant_count =
          if_all sponsor_id (count (is_chronic_non_participant db) db.users);
      recommended_removal_count = if_all sponsor_id (count (should_recommend_removal db) db.users);
    }
