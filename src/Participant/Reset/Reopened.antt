-- ===== src/Participant/Reset/Reopened.antt =====
-- The confirmation after a reset.
use cyberx_event_mgmt.Base.{
  ℕ, String, none, some, Bool, true, false, not, ◌&&◌, ◌||◌, List, [], ◌∷◌, ◌≡◌, refl, sym, ap,
  subst, ◌∙◌, arith, inl, inr, Bool-cases, ◌==◌, str_eq, eq_refl, find, update, Unique,
  Unique-update,
}
use cyberx_event_mgmt.Event.Service.{get_active_event}
use cyberx_event_mgmt.Participant.Data.{User, Db, Env, key_of, has_id, get_participant, change_user}
use cyberx_event_mgmt.Participant.Confirm.{
  has_code, Acceptance, confirmed_user, confirm_participation,
}
use cyberx_event_mgmt.Participant.Confirm.Accepted.{confirmed_user-kept, confirm_participation_once}
use cyberx_event_mgmt.Participant.Confirm.Lost.{confirmed_user-password}
use cyberx_event_mgmt.Participant.Reset.{reset_row, is_open, reset_workflow_state}
use cyberx_event_mgmt.Participant.Reset.Rows.{reset_row-id, remove_participations-users}
use cyberx_event_mgmt.Participant.Reset.Single.{invite_closed}

-- A row that nobody's code names, changed to one that a code names, is found by it.
find-update_fresh :
    (p : User → Bool) (f : User → User) (us : List User) (u : User)
    → Unique key_of us
    → find p us ≡ none
    → find (has_id u.id) us ≡ some u
    → p (f u) ≡ true
    → find p (update (has_id u.id) f us) ≡ some (f u)
unfolding find update
find-update_fresh p f [] u q fresh found h = absurd (cc found)
find-update_fresh p f (x ∷ us) u (d, q) fresh found h = elim (Bool-cases (x.id == u.id)) [
  | inl this ↦ let same : x ≡ u = cc (rw this at found) in rw (this, ap f same, h) refl
  | inr other ↦ ground (arith, other, find-update_fresh p f us u q)
]

reset_workflow_state-users :
    (env : Env) (db : Db) (code : String) (u : User)
    (reset_event_participation reset_credentials : Bool)
    → get_participant db u.id ≡ some u
    → is_open (get_active_event db.events) ≡ false
    → (reset_workflow_state env db code u.id reset_event_participation reset_credentials).0.users
      ≡ update (has_id u.id) (reset_row env.now code reset_credentials) db.users
unfolding reset_workflow_state
reset_workflow_state-users env db code u rep creds found closed = rw found (
    ap (λ (d : Db). d.users)
      (invite_closed env _ (reset_row env.now code creds u) (get_active_event db.events) closed)
    ∙ remove_participations-users rep (u.id ∷ []) (get_active_event db.events)
        (change_user db u.id (reset_row env.now code creds)))

reset_row-role :
    (now : ℕ) (code : String) (b : Bool) (u : User) → (reset_row now code b u).role ≡ u.role
unfolding reset_row
reset_row-role now code b u = elim (Bool-cases (b && str_eq u.role "invitee")) [
  | inl e ↦ rw e refl
  | inr e ↦ rw e refl
]

reset_row-code :
    (now : ℕ) (code : String) (b : Bool) (u : User) → has_code code (reset_row now code b u) ≡ true
unfolding reset_row
reset_row-code now code b u = eq_refl code

reset_row-confirmed :
    (now : ℕ) (code : String) (b : Bool) (u : User)
    → str_eq (reset_row now code b u).confirmed "YES" ≡ false
unfolding reset_row
reset_row-confirmed now code b u = refl

-- A reset opens the confirmation again, whatever the user had answered: in a table with distinct
-- ids, while no event is open for registration, after a reset with a code that no user has, an
-- invitee who accepts the terms with that code is confirmed, with a new password.
pub reset_workflow_state-confirm_participation :
    (env later : Env) (db : Db) (a : Acceptance) (u : User)
    (reset_event_participation reset_credentials : Bool)
    → Unique key_of db.users
    → get_participant db u.id ≡ some u
    → u.role ≡ "invitee"
    → find (has_code a.confirmation_code) db.users ≡ none
    → (str_eq a.confirmation_code "" || not a.terms_accepted) ≡ false
    → is_open (get_active_event db.events) ≡ false
    → let db' =
        (reset_workflow_state env db a.confirmation_code u.id reset_event_participation
          reset_credentials).0 in
      let row =
        confirmed_user later db' a.terms_version
          (reset_row env.now a.confirmation_code reset_credentials u) in
      (get_participant (confirm_participation later db' a).0 u.id ≡ some row)
      × (row.confirmed ≡ "YES")
      × (row.pandas_password ≡ some later.password)
unfolding get_participant
reset_workflow_state-confirm_participation env later db a u rep creds unique found invitee fresh
      accepted closed =
    let code = a.confirmation_code in
    let db' : Db = (reset_workflow_state env db code u.id rep creds).0 in
    let reset = reset_row env.now code creds u in
    let users = reset_workflow_state-users env db code u rep creds found closed in
    let pending =
      ap (find (has_code code)) users
      ∙ find-update_fresh (has_code code) (reset_row env.now code creds) db.users u unique fresh
          found (reset_row-code env.now code creds u) in
    let unique' = subst (Unique key_of) (sym users) (
      Unique-update key_of (has_id u.id) (reset_row env.now code creds) db.users
        (reset_row-id env.now code creds) unique) in
    let once =
      confirm_participation_once later db' a reset unique' accepted pending
        (reset_row-confirmed env.now code creds u) in
    (
      ap (λ i. find (has_id i) (confirm_participation later db' a).0.users)
            (sym (reset_row-id env.now code creds u))
          ∙ once.0,
      (confirmed_user-kept later db' a.terms_version reset).2,
      confirmed_user-password later db' a.terms_version reset
          (reset_row-role env.now code creds u ∙ invitee),
    )
