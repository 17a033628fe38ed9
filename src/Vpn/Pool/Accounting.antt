-- ===== src/Vpn/Pool/Accounting.antt =====
-- What the calls take out of the pool, in count.
use cyberx_event_mgmt.Base.{
  ℕ, suc, ◌+◌, String, Option, none, some, Bool, true, false, not, ◌&&◌, List, [], ◌∷◌, ◌≡◌, refl,
  arith, if◌then◌else◌, ltb, leb, min, length, length-append, count, update, pool_size,
  length-picks, is_picked, Unique, Unique-update,
}
use cyberx_event_mgmt.Vpn.Data.{Credential, Db, key_of}
use cyberx_event_mgmt.Vpn.Pool.{
  is_free, choose, Snapshot, take_for, take_for_instance, Answer, assign_chosen, assign_vpn, Tally,
  noted, assign_each, get_available_count, bulk_assign, snapshot_of, find_user,
}

abbrev pub UniqueIds : Db → Type 0
UniqueIds db = Unique key_of db.credentials

-- The free rows of a kind that no other transaction holds.
abbrev pub is_takeable : (ℕ → Bool) → String → Credential → Bool
is_takeable locked kind c = is_free kind c && not (locked c.id)

module _ (rank : ℕ → ℕ) (locked : ℕ → Bool) (kind : String) (n : ℕ) (db : Db)
    (u : UniqueIds db) where
  abbrev pub chosen : List Credential
  chosen = choose rank locked kind n db.credentials

  -- The chosen rows leave the pool of their kind.
  pub take-count :
      (f : Credential → Credential)
      → ((c : Credential) → (f c).is_available ≡ false)
      → count (is_free kind) (update (is_picked key_of chosen) f db.credentials) + length chosen
        ≡ count (is_free kind) db.credentials
  take-count f h =
      pool_size key_of (λ a b. leb (rank a.id) (rank b.id)) n (is_takeable locked kind)
        (is_free kind) f db.credentials u (λ c e. ground (arith, e)) (λ c. ground (arith, h c))

-- An answer by the rows that were chosen, one at most.
assign_chosen-count :
    (db : Db) (f : Credential → Credential) (done nothing kind : String) (cs : List Credential)
    (k : ℕ)
    → count (is_free kind) (update (is_picked key_of cs) f db.credentials) + length cs
      ≡ count (is_free kind) db.credentials
    → length cs ≡ min 1 k
    → let (db', (success, _, _)) = assign_chosen db f done nothing cs in
      (count (is_free kind) db'.credentials + (if success then 1 else 0)
        ≡ count (is_free kind) db.credentials)
      × (success ≡ ltb 0 k)
unfolding assign_chosen
assign_chosen-count db f done nothing kind [] k h l = ground (arith, l)
assign_chosen-count db f done nothing kind (c ∷ cs) k h l = ground (arith, h, l)

pub take_for-taken :
    (now i : ℕ) (username : Option String) (o : Option Snapshot) (c : Credential)
    → (take_for now i username o c).is_available ≡ false
unfolding take_for
take_for-taken now i username none c = refl
take_for-taken now i username (some (email, name)) c = refl

take_for_instance-taken :
    (now i : ℕ) (c : Credential) → (take_for_instance now i c).is_available ≡ false
unfolding take_for_instance
take_for_instance-taken now i c = ground arith

pub assign_vpn-count :
    (strip : String → String) (rank : ℕ → ℕ) (locked : ℕ → Bool) (db : Db) (now user_id : ℕ)
    (username : Option String)
    → UniqueIds db
    → let (db', (success, _, _)) = assign_vpn strip rank locked db now user_id username in
      (get_available_count db' + (if success then 1 else 0) ≡ get_available_count db)
      × (success ≡ ltb 0 (count (is_takeable locked "USER_REQUESTABLE") db.credentials))
unfolding assign_vpn get_available_count
assign_vpn-count strip rank locked db now user_id username u =
    let f = take_for now user_id username (snapshot_of strip (find_user db.users user_id)) in
    assign_chosen-count db f "VPN assigned successfully" "No available VPN credentials"
      "USER_REQUESTABLE" (choose rank locked "USER_REQUESTABLE" 1 db.credentials)
      (count (is_takeable locked "USER_REQUESTABLE") db.credentials)
      (take-count rank locked "USER_REQUESTABLE" 1 db u f (take_for-taken now user_id username _))
      (length-picks key_of (λ a b. leb (rank a.id) (rank b.id)) 1
        (is_takeable locked "USER_REQUESTABLE") db.credentials)

assign_chosen-UniqueIds :
    (db : Db) (f : Credential → Credential) (done nothing : String) (cs : List Credential)
    → ((c : Credential) → (f c).id ≡ c.id)
    → UniqueIds db
    → UniqueIds (assign_chosen db f done nothing cs).0
unfolding assign_chosen
assign_chosen-UniqueIds db f done nothing [] k u = u
assign_chosen-UniqueIds db f done nothing (c ∷ cs) k u =
    Unique-update key_of (is_picked key_of (c ∷ cs)) f db.credentials k u

pub take_for-id :
    (now i : ℕ) (username : Option String) (o : Option Snapshot) (c : Credential)
    → (take_for now i username o c).id ≡ c.id
unfolding take_for
take_for-id now i username none c = refl
take_for-id now i username (some (email, name)) c = refl

assign_vpn-UniqueIds :
    (strip : String → String) (rank : ℕ → ℕ) (locked : ℕ → Bool) (db : Db) (now user_id : ℕ)
    (username : Option String)
    → UniqueIds db
    → UniqueIds (assign_vpn strip rank locked db now user_id username).0
unfolding assign_vpn
assign_vpn-UniqueIds strip rank locked db now user_id username u =
    assign_chosen-UniqueIds db
      (take_for now user_id username (snapshot_of strip (find_user db.users user_id)))
      "VPN assigned successfully" "No available VPN credentials"
      (choose rank locked "USER_REQUESTABLE" 1 db.credentials)
      (take_for-id now user_id username (snapshot_of strip (find_user db.users user_id))) u

noted-count :
    (show : ℕ → String) (what : String) (i : ℕ) (a : Answer) (t : Tally)
    → let t' = noted show what i a t in
      let won : ℕ = (if a.0 then 1 else 0) in
      (t'.success_count ≡ t.success_count + won)
      × (length t'.failed_ids + won ≡ length t.failed_ids + 1)
      × (length t'.errors + won ≡ length t.errors + 1)
unfolding noted
noted-count show what i (true, message, found) t = (refl, refl, refl)
noted-count show what i (false, message, found) t = (
  omega arith,
  omega (arith, length-append t.failed_ids (i ∷ [])),
  omega (arith, length-append t.errors (_ ∷ [])),
)

-- The loop: every user is counted once, and each success takes one row out of the pool.
assign_each-count :
    (show : ℕ → String) (strip : String → String) (rank : ℕ → ℕ → ℕ) (locked : ℕ → Bool)
    (usernames : ℕ → Option String) (clock : ℕ → ℕ) (round : ℕ) (ids : List ℕ) (db : Db) (t : Tally)
    → UniqueIds db
    → let (db', t') = assign_each show strip rank locked usernames clock round ids (db, t) in
      (get_available_count db' + t'.success_count ≡ get_available_count db + t.success_count)
      × (t'.success_count + length t'.failed_ids
          ≡ (t.success_count + length t.failed_ids) + length ids)
      × (length t'.errors + length t.failed_ids ≡ length t'.failed_ids + length t.errors)
unfolding assign_each
assign_each-count show strip rank locked usernames clock round [] db t u =
    (refl, omega arith, omega arith)
assign_each-count show strip rank locked usernames clock round (i ∷ ids) db t u =
    let r = assign_vpn strip (rank round) locked db (clock round) i (usernames i) in
    let rest =
      assign_each-count show strip rank locked usernames clock (suc round) ids r.0
        (noted show "User " i r.1 t)
        (assign_vpn-UniqueIds strip (rank round) locked db (clock round) i (usernames i) u) in
    omega (
      arith,
      (assign_vpn-count strip (rank round) locked db (clock round) i (usernames i) u).0,
      noted-count show "User " i r.1 t,
      rest,
    )

-- A bulk call gives every user of the list one row or lists the user as failed, with an error for
-- each that failed, and as many rows leave the pool as there were successes.
pub bulk_assign-count :
    (show : ℕ → String) (strip : String → String) (rank : ℕ → ℕ → ℕ) (locked : ℕ → Bool)
    (usernames : ℕ → Option String) (clock : ℕ → ℕ) (db : Db) (user_ids : List ℕ)
    → UniqueIds db
    → let (db', t) = bulk_assign show strip rank locked usernames clock db user_ids in
      (get_available_count db' + t.success_count ≡ get_available_count db)
      × (t.success_count + length t.failed_ids ≡ length user_ids)
      × (length t.errors ≡ length t.failed_ids)
unfolding bulk_assign
bulk_assign-count show strip rank locked usernames clock db user_ids u =
    let c =
      assign_each-count show strip rank locked usernames clock 0 user_ids db
        (record { success_count = 0; failed_ids = []; errors = [] }) u in
    omega (arith, c)
