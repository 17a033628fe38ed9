-- ===== src/Vpn/Pool.antt =====
-- The pool: assignments to users and instances, assignment types and counts. `ORDER BY random()`
-- sorts by the argument `rank`, which numbers the rows in any way; `locked` are the rows that other
-- transactions hold, which `SKIP LOCKED` passes over; `strip` is Python's.
pub mod Accounting
pub mod Requests
pub mod Concurrency
use Prim.Native.String.{◌++◌ as str_append}
use cyberx_event_mgmt.Base.{
  ℕ, zero, suc, ◌+◌, ◌-◌, String, Option, none, some, Bool, true, false, not, ◌&&◌, ◌||◌, List, [],
  ◌∷◌, ◌++◌, if◌then◌else◌, ◌==◌, str_eq, opt_eq, ltb, leb, ℤ, pos, negsuc, min, length, select,
  count, find, update, picks, is_picked,
}
use cyberx_event_mgmt.Vpn.Data.{Credential, User, Db, key_of, has_id}

abbrev pub is_free : String → Credential → Bool
is_free kind c = c.is_available && str_eq c.assignment_type kind

-- The free rows of a kind that are taken, `n` at most.
abbrev pub choose : (ℕ → ℕ) → (ℕ → Bool) → String → ℕ → List Credential → List Credential
choose rank locked kind n credentials =
    picks key_of (λ a b. leb (rank a.id) (rank b.id)) n (λ c. is_free kind c && not (locked c.id))
      credentials

abbrev pub text_or_empty : Option String → String
text_or_empty none = ""
text_or_empty (some t) = t

-- What is kept of a user's identity: the email and the name.
abbrev pub Snapshot : Type 0
Snapshot = Option String × Option String

unfoldable pub snapshot : (String → String) → Option User → Snapshot
snapshot strip none = (none, none)
snapshot strip (some u) =
    let name =
      strip
        (str_append (text_or_empty u.first_name) (str_append " " (text_or_empty u.last_name))) in
    (some u.email, if str_eq name "" then none else some name)

unfoldable pub find_user : List User → ℕ → Option User
find_user users user_id = find (λ u. u.id == user_id) users

-- The assignments of `assign_vpn`, which leave the snapshot alone if the user is not found.
unfoldable pub take_for : ℕ → ℕ → Option String → Option Snapshot → Credential → Credential
take_for now user_id username none c = record c {
  assigned_to_user_id = some user_id;
  assigned_to_username = username;
  assigned_at = some now;
  is_available = false;
}
take_for now user_id username (some (email, name)) c = record c {
  assigned_to_user_id = some user_id;
  assigned_to_username = username;
  assigned_to_email = email;
  assigned_to_name = name;
  assigned_at = some now;
  is_available = false;
}

-- The assignments of `request_vpns`, to each row.
abbrev pub take_in_batch : ℕ → ℕ → Option String → Snapshot → String → Credential → Credential
take_in_batch now user_id username (email, name) batch_id c = record c {
  assigned_to_user_id = some user_id;
  assigned_to_username = username;
  assigned_to_email = email;
  assigned_to_name = name;
  assigned_at = some now;
  request_batch_id = some batch_id;
  is_available = false;
}

-- A placeholder id, 0, reserves the row only.
unfoldable pub take_for_instance : ℕ → ℕ → Credential → Credential
take_for_instance now instance_id c =
    if ltb 0 instance_id
    then record c {
      assigned_to_instance_id = some instance_id;
      assigned_instance_at = some now;
      is_available = false;
    }
    else record c { assigned_instance_at = some now; is_available = false }

abbrev pub put_rows : Db → (Credential → Bool) → (Credential → Credential) → Db
put_rows db p f = record db { credentials = update p f db.credentials }

abbrev pub Answer : Type 0
Answer = Bool × String × Option Credential

-- A choice of one row at most.
unfoldable pub assign_chosen :
    Db → (Credential → Credential) → String → String → List Credential → Db × Answer
assign_chosen db f done nothing [] = (db, (false, nothing, none))
assign_chosen db f done nothing (c ∷ cs) =
    (put_rows db (is_picked key_of (c ∷ cs)) f, (true, done, some (f c)))

abbrev pub snapshot_of : (String → String) → Option User → Option Snapshot
snapshot_of strip none = none
snapshot_of strip (some u) = some (snapshot strip (some u))

unfoldable pub assign_vpn :
    (String → String) → (ℕ → ℕ) → (ℕ → Bool) → Db → ℕ → ℕ → Option String → Db × Answer
unfolding assign_chosen
assign_vpn strip rank locked db now user_id username =
    assign_chosen db
      (take_for now user_id username (snapshot_of strip (find_user db.users user_id)))
      "VPN assigned successfully" "No available VPN credentials"
      (choose rank locked "USER_REQUESTABLE" 1 db.credentials)

unfoldable pub assign_vpn_to_instance : (ℕ → ℕ) → (ℕ → Bool) → Db → ℕ → ℕ → Db × Answer
unfolding assign_chosen
assign_vpn_to_instance rank locked db now instance_id =
    assign_chosen db (take_for_instance now instance_id) "VPN assigned to instance successfully"
      "No available INSTANCE_AUTO_ASSIGN VPN credentials"
      (choose rank locked "INSTANCE_AUTO_ASSIGN" 1 db.credentials)

-- At most 25 at a time; 0 stands for a count below 1.
unfoldable pub capped : ℤ → ℕ
capped (pos n) = if ltb 25 n then 25 else n
capped (negsuc n) = 0

-- The counters of a bulk call.
pub record Tally : Type 0 where
  pub success_count : ℕ
  pub failed_ids : List ℕ
  pub errors : List String

module _ (show : ℕ → String) where
  abbrev pub partly_assigned : ℕ → String
  partly_assigned n =
      str_append "Assigned "
        (str_append (show n) (str_append " VPNs (only " (str_append (show n) " available)")))

  abbrev pub fully_assigned : ℕ → String
  fully_assigned n = str_append "Assigned " (str_append (show n) " VPN credentials")

  request_chosen :
      Db → (Credential → Credential) → ℕ → List Credential → Db × (ℕ × String × List Credential)
  request_chosen db f wanted [] = (db, (0, "No available VPN credentials", []))
  request_chosen db f wanted (c ∷ cs) =
      let n = length (c ∷ cs) in
      (
        put_rows db (is_picked key_of (c ∷ cs)) f,
        (
          n,
          if ltb n wanted then partly_assigned n else fully_assigned n,
          update (λ _. true) f (c ∷ cs),
        ),
      )

  unfoldable pub request_vpns :
      (String → String)
      → (ℕ → ℕ)
      → (ℕ → Bool)
      → String
      → Db
      → ℕ
      → ℕ
      → ℤ
      → Option String
      → Db × (ℕ × String × List Credential)
  unfolding request_chosen
  request_vpns strip rank locked batch_id db now user_id wanted username =
      if capped wanted == 0
      then (db, (0, "Count must be at least 1", []))
      else request_chosen db
          (take_in_batch now user_id username (snapshot strip (find_user db.users user_id))
            batch_id)
          (capped wanted) (choose rank locked "USER_REQUESTABLE" (capped wanted) db.credentials)

  noted : String → ℕ → Answer → Tally → Tally
  noted what i (true, message, found) t = record t { success_count = t.success_count + 1 }
  noted what i (false, message, found) t = record t {
    failed_ids = t.failed_ids ++ i ∷ [];
    errors = t.errors ++ str_append what (str_append (show i) (str_append ": " message)) ∷ [];
  }

  -- The loop; each of its rounds, by number, has its own time and order.
  assign_each :
      (String → String)
      → (ℕ → ℕ → ℕ)
      → (ℕ → Bool)
      → (ℕ → Option String)
      → (ℕ → ℕ)
      → ℕ
      → List ℕ
      → Db × Tally
      → Db × Tally
  unfolding noted
  assign_each strip rank locked usernames clock round [] s = s
  assign_each strip rank locked usernames clock round (i ∷ ids) (db, t) =
      let (db', answer) = assign_vpn strip (rank round) locked db (clock round) i (usernames i) in
      assign_each strip rank locked usernames clock (suc round) ids (db', noted "User " i answer t)

  unfoldable pub bulk_assign :
      (String → String)
      → (ℕ → ℕ → ℕ)
      → (ℕ → Bool)
      → (ℕ → Option String)
      → (ℕ → ℕ)
      → Db
      → List ℕ
      → Db × Tally
  unfolding assign_each
  bulk_assign strip rank locked usernames clock db user_ids =
      assign_each strip rank locked usernames clock 0 user_ids
        (db, record { success_count = 0; failed_ids = []; errors = [] })

is_valid_type : String → Bool
is_valid_type kind =
    (str_eq kind "USER_REQUESTABLE" || str_eq kind "INSTANCE_AUTO_ASSIGN") || str_eq kind "RESERVED"

change_type : Db → String → ℕ → Option Credential → Db × (Bool × String)
change_type db kind i none = (db, (false, "VPN credential not found"))
change_type db kind i (some c) =
    if not c.is_available
    then (db, (false, "Cannot change assignment type while VPN is assigned to a user or instance"))
    else (
      put_rows db (has_id i) (λ x. record x { assignment_type = kind }),
      (true, str_append "Assignment type updated to " kind),
    )

unfoldable pub update_assignment_type : Db → ℕ → String → Db × (Bool × String)
unfolding is_valid_type change_type
update_assignment_type db i kind =
    if not (is_valid_type kind)
    then (
      db,
      (
        false,
        "Invalid assignment type. Must be one of: USER_REQUESTABLE, INSTANCE_AUTO_ASSIGN, RESERVED",
      ),
    )
    else change_type db kind i (find (has_id i) db.credentials)

unfoldable pub bulk_update_assignment_type :
    (ℕ → String) → Db → List ℕ → String → Db × (ℕ × ℕ × List String)
bulk_update_assignment_type show db [] kind = (db, (0, 0, []))
bulk_update_assignment_type show db (i ∷ ids) kind =
    let (db', (success, message)) = update_assignment_type db i kind in
    let (end, (changed, skipped, errors)) = bulk_update_assignment_type show db' ids kind in
    (
      end,
      if success then (changed + 1, skipped, errors) else (
        changed,
        skipped + 1,
        str_append "VPN " (str_append (show i) (str_append ": " message)) ∷ errors,
      ),
    )

unfoldable pub get_available_count : Db → ℕ
get_available_count db = count (is_free "USER_REQUESTABLE") db.credentials

unfoldable pub get_available_instance_vpn_count : Db → ℕ
get_available_instance_vpn_count db = count (is_free "INSTANCE_AUTO_ASSIGN") db.credentials

unfoldable pub get_user_vpn_count : Db → ℕ → ℕ
get_user_vpn_count db user_id =
    count (λ c. opt_eq c.assigned_to_user_id (some user_id)) db.credentials

pub record Statistics : Type 0 where
  pub total : ℕ
  pub available : ℕ
  pub assigned : ℕ

unfoldable pub get_statistics : Db → Statistics
get_statistics db =
    let total = length db.credentials in
    let available = count (λ c. c.is_available) db.credentials in
    record { total = total; available = available; assigned = total - available }

unfoldable pub get_instance_pool_stats : Db → Statistics
get_instance_pool_stats db =
    let total = count (λ c. str_eq c.assignment_type "INSTANCE_AUTO_ASSIGN") db.credentials in
    let available = count (is_free "INSTANCE_AUTO_ASSIGN") db.credentials in
    record { total = total; available = available; assigned = total - available }
