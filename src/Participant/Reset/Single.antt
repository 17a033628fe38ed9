-- ===== src/Participant/Reset/Single.antt =====
-- The bulk reset of one user.
use cyberx_event_mgmt.Base.{
  String, Option, none, some, Bool, true, false, [], ◌∷◌, arith, subst, ◌≡◌, refl, sym, ap, ◌∙◌,
  inl, inr, Bool-cases, ◌==◌, eq→==, ==→eq, str_eq, eq_refl, contains, find, select, update-cong,
  select-cong, select-key, All, All-map, Unique, Unique-find,
}
use cyberx_event_mgmt.Event.Data.{Event}
use cyberx_event_mgmt.Event.Service.{get_active_event}
use cyberx_event_mgmt.Participant.Data.{User, Db, Env, key_of, has_id, get_participant}
use cyberx_event_mgmt.Participant.Reset.{
  reset_row, remove_participations, is_open, invite, reset_workflow_state, has_role, is_eligible,
  bulk_reset_workflow_state,
}

abbrev only : User → User → Bool
only u = is_eligible (some (u.role ∷ [])) (some (u.id ∷ []))

is_eligible-only :
    (u x : User)
    → u.is_active ≡ true
    → str_eq u.role "admin" ≡ false
    → (x.id ≡ u.id → x ≡ u)
    → only u x ≡ has_id u.id x
unfolding is_eligible has_role contains select
is_eligible-only u x active other unique = elim (Bool-cases (x.id == u.id)) [
  | inl e ↦
      let same = unique (==→eq x.id u.id e) in
      subst (λ y. only u y ≡ has_id u.id y) (sym same)
        (rw (other, eq_refl u.role, active, eq→== u.id u.id refl) refl)
  | inr e ↦ ground (arith, e)
]

pub invite_closed :
    (env : Env) (db : Db) (u : User) (e : Option Event) → is_open e ≡ false → invite env db u e ≡ db
unfolding invite
invite_closed env db u none closed = refl
invite_closed env db u (some e) closed = rw closed refl

module _ (env : Env) (db : Db) (u : User) (unique : Unique key_of db.users)
    (found : get_participant db u.id ≡ some u) (active : u.is_active ≡ true)
    (other : str_eq u.role "admin" ≡ false) where
  only-has_id : All (λ x. only u x ≡ has_id u.id x) db.users
  unfolding get_participant
  only-has_id =
      All-map (λ x. find (has_id x.id) db.users ≡ some x) (λ x. only u x ≡ has_id u.id x) db.users
        (λ x own.
          is_eligible-only u x active other
            (λ same. cc (sym own ∙ ap (λ k. find (has_id k) db.users) same ∙ found)))
        (Unique-find key_of db.users unique)

  eligible_rows : select (only u) db.users ≡ u ∷ []
  unfolding get_participant
  eligible_rows =
      select-cong (only u) (has_id u.id) db.users only-has_id
      ∙ select-key key_of u.id db.users u unique found

-- In a table with distinct ids, for an active user who is no administrator, while no event is open
-- for registration, a reset of the user leaves the tables as the bulk reset of that role and user
-- alone does, with the same random code.
pub reset_workflow_state-bulk_reset_workflow_state :
    (env : Env) (db : Db) (code : String) (u : User)
    (reset_event_participation reset_credentials : Bool)
    → Unique key_of db.users
    → get_participant db u.id ≡ some u
    → u.is_active ≡ true
    → str_eq u.role "admin" ≡ false
    → is_open (get_active_event db.events) ≡ false
    → (reset_workflow_state env db code u.id reset_event_participation reset_credentials).0
      ≡ (bulk_reset_workflow_state env
          (λ i. code)
          db
          reset_event_participation
          reset_credentials
          (some (u.role ∷ []))
          (some (u.id ∷ []))).0
unfolding reset_workflow_state bulk_reset_workflow_state
reset_workflow_state-bulk_reset_workflow_state env db code u rep creds unique found active other
      closed =
    rw (found, eligible_rows env db u unique found active other)
      (invite_closed env _ (reset_row env.now code creds u) (get_active_event db.events) closed
        ∙ ap
            (λ us.
              remove_participations rep (u.id ∷ []) (get_active_event db.events)
                (record db { users = us }))
            (sym (
              update-cong (only u) (has_id u.id) (reset_row env.now code creds)
                (reset_row env.now code creds) db.users
                (only-has_id env db u unique found active other) (λ x. refl))))
