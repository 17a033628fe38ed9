-- ===== src/Participant/Confirm/Lost.antt =====
-- An acceptance whose emails cannot be queued.
use mathlib.Core.Option
use cyberx_event_mgmt.Base.{
  ℕ, ◌≤◌, String, Option, none, some, true, false, not, ◌||◌, List, ◌∷◌, ◌≡◌, refl, sym, ap, subst,
  ◌∙◌, str_eq, find, Unique, count, Result, raised, multiple_results_found, http_exception,
}
use cyberx_event_mgmt.Event.Data as Events
use cyberx_event_mgmt.Event.Service.{get_active_event}
use cyberx_event_mgmt.Workflow.Data.{Workflow, get_workflows_by_trigger}
use cyberx_event_mgmt.Workflow.Trigger.Ambiguity.{is_active, trigger_workflow-raises}
use cyberx_event_mgmt.Participant.Data.{
  User, Db, Env, key_of, get_participant, change_user, workflow_db,
}
use cyberx_event_mgmt.Participant.Service.{set_status}
use cyberx_event_mgmt.Participant.Confirm.{
  has_code, Acceptance, should_generate_password, named, confirm, confirmed_user,
  commit_confirmation, trigger, confirmed_trigger, confirm_participation,
}
use cyberx_event_mgmt.Participant.Confirm.Accepted.{named-kept, confirm_participation_once}

set_status-kept :
    (i : ℕ) (e : Option Events.Event) (status : String) (db : Db)
    → ((set_status i e status db).events.events ≡ db.events.events)
      × ((set_status i e status db).workflows ≡ db.workflows)
      × ((set_status i e status db).queue ≡ db.queue)
      × ((set_status i e status db).audit ≡ db.audit)
set_status-kept i none status db = (refl, refl, refl, refl)
set_status-kept i (some e) status db = (refl, refl, refl, refl)

commit_confirmation-kept :
    (env : Env) (db : Db) (terms_version : Option String) (u : User)
    → ((commit_confirmation env db terms_version u).events.events ≡ db.events.events)
      × ((commit_confirmation env db terms_version u).workflows ≡ db.workflows)
      × ((commit_confirmation env db terms_version u).queue ≡ db.queue)
unfolding commit_confirmation
commit_confirmation-kept env db terms_version u =
    let kept =
      set_status-kept u.id (get_active_event db.events) "confirmed"
        (change_user db u.id (λ x. confirmed_user env db terms_version u)) in
    (kept.0, kept.1, kept.2)

confirm_participation-raises :
    (env : Env) (db : Db) (a : Acceptance) (u : User) {w : Workflow} {ws : List Workflow}
    → (str_eq a.confirmation_code "" || not a.terms_accepted) ≡ false
    → find (has_code a.confirmation_code) db.users ≡ some u
    → str_eq u.confirmed "YES" ≡ false
    → u.role ≡ "invitee"
    → 2 ≤ count is_active db.events.events
    → get_workflows_by_trigger (workflow_db env db) "user_confirmed" true ≡ w ∷ ws
    → confirm_participation env db a
      ≡ (commit_confirmation env db a.terms_version u, raised multiple_results_found)
unfolding confirm_participation get_workflows_by_trigger trigger
confirm_participation-raises env db a u accepted found invited role two enabled =
    let new : should_generate_password u ≡ true = rw role refl in
    let (events, workflows, queue) = commit_confirmation-kept env db a.terms_version u in
    let after = commit_confirmation env db a.terms_version u in
    let t = confirmed_trigger env db (confirmed_user env db a.terms_version u) in
    let refused =
      trigger_workflow-raises env.send env.clock t (workflow_db env after)
        (subst (λ es. 2 ≤ count is_active es) (sym events) two)
        (ap
            (λ rows.
              get_workflows_by_trigger (record (workflow_db env db) { workflows = rows })
                "user_confirmed" true)
            workflows
          ∙ enabled) in
    rw (accepted, found, invited, new, refused) refl

pub confirmed_user-password :
    (env : Env) (db : Db) (terms_version : Option String) (u : User)
    → u.role ≡ "invitee"
    → (confirmed_user env db terms_version u).pandas_password ≡ some env.password
unfolding confirmed_user
confirmed_user-password env db terms_version u role =
    let row = named env db (confirm env terms_version u) in
    let new : should_generate_password row ≡ true =
      rw ((named-kept env db (confirm env terms_version u)).3 ∙ role) refl in
    rw new refl

-- In a table with distinct ids, when two events are active and an email is to follow a confirmation,
-- the acceptance of an invitee who has not confirmed raises after it has committed: the stored row
-- of the invitee has the new password, no email is queued, and every further acceptance with that
-- code gives 409 and changes nothing.
pub confirm_participation_lost :
    (env : Env) (db : Db) (a : Acceptance) (u : User) {w : Workflow} {ws : List Workflow}
    → Unique key_of db.users
    → (str_eq a.confirmation_code "" || not a.terms_accepted) ≡ false
    → find (has_code a.confirmation_code) db.users ≡ some u
    → str_eq u.confirmed "YES" ≡ false
    → u.role ≡ "invitee"
    → 2 ≤ count is_active db.events.events
    → get_workflows_by_trigger (workflow_db env db) "user_confirmed" true ≡ w ∷ ws
    → (confirm_participation env db a
        ≡ ((confirm_participation env db a).0, raised multiple_results_found))
      × ((confirm_participation env db a).0.queue ≡ db.queue)
      × (Option.map
            (λ x. x.pandas_password)
            (get_participant (confirm_participation env db a).0 u.id)
          ≡ some (some env.password))
      × ((later : Env) (version : Option String)
          → confirm_participation later
              (confirm_participation env db a).0
              (record a { terms_version = version })
            ≡ ((confirm_participation env db a).0, raised (http_exception 409 "Already confirmed")))
confirm_participation_lost env db a u unique accepted found invited role two enabled =
    let lost = confirm_participation-raises env db a u accepted found invited role two enabled in
    (
      lost ∙ ap (λ (r : Db × Result (Unit {0})). (r.0, raised multiple_results_found)) (sym lost),
      ap (λ (r : Db × Result (Unit {0})). r.0.queue) lost
          ∙ (commit_confirmation-kept env db a.terms_version u).2,
      ap (Option.map (λ (x : User). x.pandas_password))
            (confirm_participation_once env db a u unique accepted found invited).0
          ∙ ap some (confirmed_user-password env db a.terms_version u role),
      (confirm_participation_once env db a u unique accepted found invited).1,
    )
