-- ===== src/Participant/Listing.antt =====
-- `list_participants` of backend/app/services/participant_service.py. SQL's `ILIKE` and the comparison
-- of the sort column are arguments, and so is the column `role_id`.
pub mod Filtered
use cyberx_event_mgmt.Base.{
  ℕ, zero, suc, ◌-◌, ◌*◌, String, Option, none, some, Bool, true, false, not, ◌&&◌, ◌||◌, List, [],
  ◌∷◌, if◌then◌else◌, ◌==◌, str_eq, opt_eq, is_some, ltb, find, select, sort_by, count, take, drop,
  Result, ok, raised, scalar_one_or_none, Text,
}
use Prim.Native.String
use cyberx_event_mgmt.Event.Data.{Participation}
use cyberx_event_mgmt.Vpn.Data.{Credential}
use cyberx_event_mgmt.Participant.Data.{User, Db, Env, text_of}
use cyberx_event_mgmt.Participant.Service.{is_participation, may_sponsor}
use cyberx_event_mgmt.Participant.Delete.{is_of_credential}

-- The arguments; an absent filter is no condition.
pub record Filters : Type 0 where
  pub page : ℕ
  pub page_size : ℕ
  pub search : Option String
  pub confirmed : Option String
  pub has_vpn : Option Bool
  pub is_active : Option Bool
  pub email_status : Option String
  pub sponsor_id : Option ℕ
  pub role : Option String
  pub role_id : Option ℕ
  pub country : Option String
  pub event_id : Option ℕ
  pub group_by : Option String

-- A filter by equality; the empty text is no filter.
abbrev pub equals : Option String → String → Bool
equals none value = true
equals (some wanted) value = str_eq wanted "" || str_eq value wanted

abbrev pub is_groupable : Option String → Bool
is_groupable none = false
is_groupable (some column) =
    str_eq column "sponsor_id"
    || (str_eq column "confirmed" || (str_eq column "role_id" || str_eq column "country"))

-- The statuses that the legacy values stand for.
abbrev pub has_status : String → Participation → Bool
has_status confirmed p =
    if str_eq confirmed "YES"
    then str_eq p.status "confirmed"
    else if str_eq confirmed "NO"
    then str_eq p.status "declined"
    else str_eq p.status "invited" || str_eq p.status "no_response"

abbrev pub is_legacy : String → Bool
is_legacy confirmed =
    str_eq confirmed "YES" || (str_eq confirmed "NO" || str_eq confirmed "UNKNOWN")

-- Whether a user's VPN, if there is one, is wanted.
abbrev pub is_wanted : Bool → Option Credential → Bool
is_wanted has_vpn vpn = if has_vpn then is_some vpn else not (is_some vpn)

unfoldable pub kept :
    Bool → User → Result (Option Credential) → Result (List User) → Result (List User)
kept has_vpn u (raised e) rest = raised e
kept has_vpn u (ok vpn) (raised e) = raised e
kept has_vpn u (ok vpn) (ok rest) = ok (if is_wanted has_vpn vpn then u ∷ rest else rest)

unfoldable pub filter_vpn : Db → Bool → List User → Result (List User)
unfolding kept
filter_vpn db has_vpn [] = ok []
filter_vpn db has_vpn (u ∷ us) =
    kept has_vpn u (scalar_one_or_none (select (is_of_credential u.id) db.credentials))
      (filter_vpn db has_vpn us)

unfoldable pub with_total : ℕ → Result (List User) → Result (List User × ℕ)
with_total total (raised e) = raised e
with_total total (ok us) = ok (us, total)

unfoldable pub by_vpn : Db → Option Bool → List User → Result (List User)
by_vpn db none us = ok us
by_vpn db (some has_vpn) us = filter_vpn db has_vpn us

module _ (ilike : String → String → Bool) (le : Filters → User → User → Bool)
    (role_id_of : User → Option ℕ) where
  abbrev pub like : String → Option String → Bool
  like pattern none = false
  like pattern (some value) = ilike pattern value

  unfoldable pub is_found : Env → Option String → User → Bool
  is_found env none u = true
  is_found env (some search) u =
      let pattern = String.◌++◌ "%" (String.◌++◌ search "%") in
      str_eq search ""
      || (ilike pattern (env.as_string u.email)
          || (ilike pattern (env.as_string u.first_name)
              || (ilike pattern (env.as_string u.last_name)
                  || (like pattern (text_of env.as_string u.pandas_username)
                      || like pattern u.discord_username))))

  unfoldable pub is_confirmed : Db → Option ℕ → Option String → User → Bool
  is_confirmed db event_id none u = true
  is_confirmed db none (some confirmed) u = equals (some confirmed) u.confirmed
  is_confirmed db (some event_id) (some confirmed) u =
      if event_id == 0
      then equals (some confirmed) u.confirmed
      else if is_legacy confirmed
      then is_some (
          find (λ p. is_participation u.id event_id p && has_status confirmed p)
            db.events.participations)
      else true

  unfoldable pub has_role : Filters → User → Bool
  has_role f u = by_id f.role_id
    where
      by_id : Option ℕ → Bool
      by_id (some i) = if i == 0 then equals f.role u.role else opt_eq (role_id_of u) (some i)
      by_id none = equals f.role u.role

  unfoldable pub is_sponsored : Option ℕ → User → Bool
  is_sponsored none u = true
  is_sponsored (some i) u = opt_eq u.sponsor_id (some i)

  unfoldable pub has_activity : Option Bool → User → Bool
  has_activity none u = true
  has_activity (some b) u = if b then u.is_active else not u.is_active

  unfoldable pub is_listed : Env → Db → Filters → User → Bool
  is_listed env db f u =
      is_sponsored f.sponsor_id u
      && (has_role f u
          && (is_found env f.search u
              && (is_confirmed db f.event_id f.confirmed u
                  && (has_activity f.is_active u
                      && (equals f.email_status u.email_status && equals f.country u.country)))))

  -- `OFFSET` and `LIMIT`, but when the rows are grouped.
  unfoldable pub page_of : Env → Db → Filters → List User
  page_of env db f =
      let rows = sort_by (le f) (select (is_listed env db f) db.users) in
      if is_groupable f.group_by
      then rows
      else take f.page_size (drop ((f.page - 1) * f.page_size) rows)

  unfoldable pub list_participants : Env → Db → Filters → Result (List User × ℕ)
  unfolding with_total by_vpn
  list_participants env db f =
      with_total (count (is_listed env db f) db.users) (by_vpn db f.has_vpn (page_of env db f))

  unfoldable pub get_sponsored_participants : Env → Db → ℕ → ℕ → ℕ → Result (List User × ℕ)
  unfolding list_participants
  get_sponsored_participants env db sponsor_id page page_size = list_participants env db (record {
    page = page;
    page_size = page_size;
    search = none;
    confirmed = none;
    has_vpn = none;
    is_active = none;
    email_status = none;
    sponsor_id = some sponsor_id;
    role = none;
    role_id = none;
    country = none;
    event_id = none;
    group_by = none;
  })

-- The users who may sponsor, by name.
unfoldable pub list_sponsors : (User → User → Bool) → Db → List User
list_sponsors is_before db = sort_by is_before (select may_sponsor db.users)
