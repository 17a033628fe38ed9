-- ===== src/Participant/Reset/Rows.antt =====
-- What a bulk reset changes, and the single reset beside it.
use mathlib.Core.Option
use cyberx_event_mgmt.Base.{
  ℕ, suc, ◌+◌, String, Option, none, some, Bool, false, not, ◌&&◌, List, [], ◌∷◌, length, arith,
  ◌≡◌, refl, ap, ◌∙◌, inl, inr, Bool-cases, if◌then◌else◌, ◌==◌, str_eq, eq_iff, find, select,
  find-update, count, length-map, length-select,
}
use cyberx_event_mgmt.Event.Data.{Event}
use cyberx_event_mgmt.Event.Service.{get_active_event}
use cyberx_event_mgmt.Participant.Data.{User, Db, Env, key_of, has_id, get_participant}
use cyberx_event_mgmt.Participant.Reset.{
  reset_row, remove_participations, has_role, is_eligible, count_role, breakdown_of,
  bulk_reset_workflow_state,
}

pub remove_participations-users :
    (b : Bool) (ids : List ℕ) (e : Option Event) (db : Db)
    → (remove_participations b ids e db).users ≡ db.users
unfolding remove_participations
remove_participations-users b ids none db = refl
remove_participations-users b ids (some e) db = elim (Bool-cases b) [
  | inl e ↦ rw e refl
  | inr e ↦ rw e refl
]

pub reset_row-id :
    (now : ℕ) (code : String) (b : Bool) (u : User) → (reset_row now code b u).id ≡ u.id
unfolding reset_row
reset_row-id now code b u = elim (Bool-cases (b && str_eq u.role "invitee")) [
  | inl e ↦ rw e refl
  | inr e ↦ rw e refl
]

has_role-admin :
    (roles : List String) → has_role (select (λ r. not (str_eq r "admin")) roles) "admin" ≡ false
unfolding has_role select
has_role-admin [] = refl
has_role-admin (r ∷ roles) = elim (Bool-cases (str_eq r "admin")) [
  | inl e ↦ rw e (has_role-admin roles)
  | inr e ↦ rw e (rw e (has_role-admin roles))
]

is_eligible-admin :
    (roles : Option (List String)) (ids : Option (List ℕ)) (u : User)
    → (str_eq u.role "admin" && is_eligible roles ids u) ≡ false
unfolding is_eligible has_role
is_eligible-admin roles ids u = elim (Bool-cases (str_eq u.role "admin")) [
  | inr other ↦ rw other refl
  | inl admin ↦ rw admin (among roles ((eq_iff u.role "admin").0 admin))
]
  where
    among : (roles : Option (List String)) → u.role ≡ "admin" → is_eligible roles ids u ≡ false
    among none role = rw role refl
    among (some rs) role = rw (role, has_role-admin rs) refl

-- The sum of a breakdown.
unfoldable pub total : List (String × ℕ) → ℕ
total [] = 0
total ((r, n) ∷ rest) = n + total rest

total_none : total [] ≡ 0
unfolding total
total_none = refl

total-count_role :
    (role : String) (b : List (String × ℕ)) → total (count_role role b) ≡ suc (total b)
unfolding total count_role
total-count_role role [] = refl
total-count_role role ((r, n) ∷ rest) = ground (arith, total-count_role role rest)

total-breakdown_of :
    (us : List User) (b : List (String × ℕ)) → total (breakdown_of us b) ≡ length us + total b
unfolding breakdown_of
total-breakdown_of [] b = ground arith
total-breakdown_of (u ∷ us) b =
    ground (arith, total-breakdown_of us (count_role u.role b), total-count_role u.role b)

-- A bulk reset resets the rows of the eligible users and no others, whichever events there are; no
-- administrator is eligible, whatever roles are asked for; and the count it reports is that of the
-- eligible users, and the sum of its breakdown.
pub bulk_reset_workflow_state_rows :
    (env : Env) (code_for : ℕ → String) (db : Db)
    (reset_event_participation reset_credentials : Bool) (roles : Option (List String))
    (user_ids : Option (List ℕ)) (i : ℕ)
    → let (db', counted) =
        bulk_reset_workflow_state env code_for db reset_event_participation reset_credentials roles
          user_ids in
      (get_participant db' i
        ≡ Option.map
            (λ u.
              if is_eligible roles user_ids u
              then reset_row env.now (code_for u.id) reset_credentials u
              else u)
            (get_participant db i))
      × ((u : User) → (str_eq u.role "admin" && is_eligible roles user_ids u) ≡ false)
      × (counted.affected_count ≡ count (is_eligible roles user_ids) db.users)
      × (total counted.breakdown ≡ counted.affected_count)
unfolding bulk_reset_workflow_state get_participant
bulk_reset_workflow_state_rows env code_for db rep creds roles ids i = (
  ap (find (has_id i)) (remove_participations-users rep _ (get_active_event db.events) _)
      ∙ find-update (is_eligible roles ids) (has_id i)
          (λ u. reset_row env.now (code_for u.id) creds u) db.users
          (λ x. ap (λ j. j == i) (reset_row-id env.now (code_for x.id) creds x)),
  is_eligible-admin roles ids,
  length-map key_of (select (is_eligible roles ids) db.users)
      ∙ length-select (is_eligible roles ids) db.users,
  omega (
    arith,
    total-breakdown_of (select (is_eligible roles ids) db.users) [],
    length-map key_of (select (is_eligible roles ids) db.users),
    total_none,
  ),
)
