-- ===== src/Participant/Confirm/Accepted.antt =====
-- What an acceptance leaves behind.
use cyberx_event_mgmt.Base.{
  ℕ, String, Option, none, some, Bool, true, false, not, ◌||◌, List, [], ◌∷◌, ◌≡◌, ◌≢◌, refl, ap,
  ◌∙◌, arith, inl, inr, Bool-cases, eq→==, str_eq, Unique-find, find, find-holds, find-all, update,
  Unique, Result, ok, raised, http_exception,
}
use cyberx_event_mgmt.Event.Data as Events
use cyberx_event_mgmt.Event.Service.{get_active_event}
use cyberx_event_mgmt.Workflow.Data as Workflows
use cyberx_event_mgmt.Workflow.Data.{Workflow, get_workflows_by_trigger}
use cyberx_event_mgmt.Participant.Data.{User, Db, Env, key_of, has_id, get_participant, change_user}
use cyberx_event_mgmt.Participant.Service.{is_given, is_string, set_status}
use cyberx_event_mgmt.Participant.Confirm.{
  has_code, Acceptance, should_generate_password, credentialed, named, confirm, confirmed_user,
  commit_confirmation, passed_on, trigger, confirmed_trigger, confirm_participation,
}

abbrev pub ConfirmedAs : User → User → Type 0
ConfirmedAs u x =
    (x.id ≡ u.id)
    × (x.confirmation_code ≡ u.confirmation_code)
    × (x.confirmed ≡ u.confirmed)
    × (x.role ≡ u.role)

-- A row that is found by a test, and changed so that it still is.
find-update_found :
    (p : User → Bool) (f : User → User) (us : List User) (u : User)
    → Unique key_of us
    → find p us ≡ some u
    → p (f u) ≡ true
    → find p (update (has_id u.id) f us) ≡ some (f u)
unfolding find update
find-update_found p f [] u q found h = absurd (cc found)
find-update_found p f (x ∷ us) u (d, q) found h = elim (Bool-cases (p x)) [
  | inl this ↦
      let same : x ≡ u = cc (rw this at found) in
      rw (eq→== x.id u.id (ap key_of same), ap f same, h) refl
  | inr other ↦
      let later : find p us ≡ some u = rw other at found in
      let apart : x.id ≢ u.id = find-all (λ y. key_of x ≢ key_of y) p us u later d in
      ground (arith, apart, other, find-update_found p f us u q later h)
]

-- What neither the name nor the password of a confirmed user changes.
credentialed-kept : (env : Env) (u : User) → ConfirmedAs u (credentialed env u)
credentialed-kept env u = elim (Bool-cases (should_generate_password u)) [
  | inl new ↦ rw new (refl, refl, refl, refl)
  | inr kept ↦ rw kept (refl, refl, refl, refl)
]

pub named-kept : (env : Env) (db : Db) (u : User) → ConfirmedAs u (named env db u)
named-kept env db u = elim (Bool-cases (is_given u.pandas_username)) [
  | inl given ↦ rw given (refl, refl, refl, refl)
  | inr new ↦ rw new (refl, refl, refl, refl)
]

pub confirmed_user-kept :
    (env : Env) (db : Db) (terms_version : Option String) (u : User)
    → ((confirmed_user env db terms_version u).id ≡ u.id)
      × ((confirmed_user env db terms_version u).confirmation_code ≡ u.confirmation_code)
      × ((confirmed_user env db terms_version u).confirmed ≡ "YES")
unfolding confirmed_user
confirmed_user-kept env db terms_version u =
    let first = named-kept env db (confirm env terms_version u) in
    let second = credentialed-kept env (named env db (confirm env terms_version u)) in
    (second.0 ∙ first.0, second.1 ∙ first.1, second.2 ∙ first.2)

set_status-users :
    (i : ℕ) (e : Option Events.Event) (status : String) (db : Db)
    → (set_status i e status db).users ≡ db.users
set_status-users i none status db = refl
set_status-users i (some e) status db = refl

commit_confirmation-users :
    (env : Env) (db : Db) (terms_version : Option String) (u : User)
    → (commit_confirmation env db terms_version u).users
      ≡ update (has_id u.id) (λ x. confirmed_user env db terms_version u) db.users
unfolding commit_confirmation
commit_confirmation-users env db terms_version u =
    set_status-users u.id (get_active_event db.events) "confirmed"
      (change_user db u.id (λ x. confirmed_user env db terms_version u))

pub passed_on-users :
    (db : Db) (r : Workflows.Db × Result ℕ) → (passed_on db (tt {0}) r).0.users ≡ db.users
passed_on-users db (w, ok n) = refl
passed_on-users db (w, raised e) = refl

module _ (env : Env) (db : Db) (a : Acceptance) (u : User)
    (accepted : (str_eq a.confirmation_code "" || not a.terms_accepted) ≡ false)
    (found : find (has_code a.confirmation_code) db.users ≡ some u)
    (invited : str_eq u.confirmed "YES" ≡ false) where
  confirm_participation-users :
      (confirm_participation env db a).0.users
      ≡ update (has_id u.id) (λ x. confirmed_user env db a.terms_version u) db.users
  unfolding confirm_participation
  confirm_participation-users =
      rw (accepted, found, invited)
        elim (Bool-cases (should_generate_password u)) [
          | inl new ↦ rw new (
              passed_on-users (commit_confirmation env db a.terms_version u) (
                trigger env (commit_confirmation env db a.terms_version u)
                  (confirmed_trigger env db (confirmed_user env db a.terms_version u)))
              ∙ commit_confirmation-users env db a.terms_version u)
          | inr kept ↦ rw kept (commit_confirmation-users env db a.terms_version u)
        ]

  -- What is found by a test that the confirmation leaves alone is found again, confirmed.
  confirm_participation-find :
      (p : User → Bool)
      → Unique key_of db.users
      → find p db.users ≡ some u
      → p (confirmed_user env db a.terms_version u) ≡ true
      → find p (confirm_participation env db a).0.users
        ≡ some (confirmed_user env db a.terms_version u)
  confirm_participation-find p unique before after =
      ap (find p) confirm_participation-users
      ∙ find-update_found p (λ x. confirmed_user env db a.terms_version u) db.users u unique before
          after

confirm_participation-again :
    (env : Env) (db : Db) (a : Acceptance) (u : User)
    → (str_eq a.confirmation_code "" || not a.terms_accepted) ≡ false
    → find (has_code a.confirmation_code) db.users ≡ some u
    → u.confirmed ≡ "YES"
    → confirm_participation env db a ≡ (db, raised (http_exception 409 "Already confirmed"))
unfolding confirm_participation
confirm_participation-again env db a u accepted found confirmed =
    rw (accepted, found, confirmed) refl

-- In a table with distinct ids, an acceptance of the terms with the code of a user who has not
-- confirmed commits the confirmed row, whether the emails that it triggers can be queued or not; and
-- until the tables change otherwise the code is of no use: every further acceptance with it gives
-- 409 and changes nothing.
pub confirm_participation_once :
    (env : Env) (db : Db) (a : Acceptance) (u : User)
    → Unique key_of db.users
    → (str_eq a.confirmation_code "" || not a.terms_accepted) ≡ false
    → find (has_code a.confirmation_code) db.users ≡ some u
    → str_eq u.confirmed "YES" ≡ false
    → (get_participant (confirm_participation env db a).0 u.id
        ≡ some (confirmed_user env db a.terms_version u))
      × ((later : Env) (version : Option String)
          → confirm_participation later
              (confirm_participation env db a).0
              (record a { terms_version = version })
            ≡ ((confirm_participation env db a).0, raised (http_exception 409 "Already confirmed")))
unfolding get_participant
confirm_participation_once env db a u unique accepted found invited =
    let kept = confirmed_user-kept env db a.terms_version u in
    let row =
      find-all (λ x. find (has_id x.id) db.users ≡ some x) (has_code a.confirmation_code) db.users u
        found (Unique-find key_of db.users unique) in
    let retry =
      confirm_participation-find env db a u accepted found invited (has_code a.confirmation_code)
        unique found
        (ap (is_string a.confirmation_code) kept.1
          ∙ find-holds (has_code a.confirmation_code) db.users found) in
    (
      confirm_participation-find env db a u accepted found invited (has_id u.id) unique row
          (eq→== (confirmed_user env db a.terms_version u).id u.id kept.0),
      λ later version.
          confirm_participation-again later (confirm_participation env db a).0
            (record a { terms_version = version }) (confirmed_user env db a.terms_version u)
            accepted retry kept.2,
    )
