-- ===== src/Workflow/Trigger/Ambiguity.antt =====
-- Triggers when several events are active.
use cyberx_event_mgmt.Base.{
  ℕ, suc, ◌≤◌, String, Option, none, some, Bool, true, List, [], ◌∷◌, ◌++◌, ◌≡◌, refl, sym, ap, ◌∙◌,
  arith, inl, inr, Bool-cases, List-cases, Result-cases, is_some, length, length-select,
  length-sort_by, count, count-append, select, sort_by, Result, ok, raised, integrity_error,
  multiple_results_found, scalar_one_or_none, Text, str_eq,
}
use cyberx_event_mgmt.Auth.Data.{User}
use cyberx_event_mgmt.Event.Data as Events
use cyberx_event_mgmt.Event.Data.{Event, generate_slug}
use cyberx_event_mgmt.Event.Service.{
  is_later, get_active_event, get_active_event_by_year, get_event_by_slug, create_event,
}
use cyberx_event_mgmt.Event.Admin.{EventCreate, admin_create_event, slug_or, new_event}
use cyberx_event_mgmt.EmailQueue.Data.{Vars}
use cyberx_event_mgmt.EmailQueue.Batch.{Answer}
use cyberx_event_mgmt.Workflow.Data.{Workflow, Db, get_workflows_by_trigger}
use cyberx_event_mgmt.Workflow.Trigger.{only_active_event, Trigger, trigger_workflow, trigger_found}

abbrev pub is_active : Event → Bool
is_active e = e.is_active

scalar_one_or_none-raises :
    (es : List Event) → 2 ≤ length es → scalar_one_or_none es ≡ raised multiple_results_found
unfolding scalar_one_or_none
scalar_one_or_none-raises [] h = absurd (omega (arith, h))
scalar_one_or_none-raises (a ∷ []) h = absurd (omega (arith, h))
scalar_one_or_none-raises (a ∷ b ∷ es) h = refl

only_active_event-raises :
    (db : Db)
    → 2 ≤ count is_active db.events.events
    → only_active_event db ≡ raised multiple_results_found
unfolding only_active_event
only_active_event-raises db h =
    scalar_one_or_none-raises (sort_by is_later (select is_active db.events.events)) (
      omega (
        arith,
        h,
        length-sort_by is_later (select is_active db.events.events),
        length-select is_active db.events.events,
      ))

pub trigger_workflow-raises :
    (send : Option User → String → Vars → Answer) (clock : ℕ → ℕ) (t : Trigger) (db : Db)
    {w : Workflow} {ws : List Workflow}
    → 2 ≤ count is_active db.events.events
    → get_workflows_by_trigger db t.trigger_event true ≡ w ∷ ws
    → trigger_workflow send clock t db ≡ (db, raised multiple_results_found)
unfolding trigger_workflow trigger_found
trigger_workflow-raises send clock t db two enabled =
    rw (enabled, only_active_event-raises db two) refl

get_active_event-counted :
    (db : Events.Db) (e : Event) → get_active_event db ≡ some e → 1 ≤ count is_active db.events
unfolding get_active_event
get_active_event-counted db e h =
    elim (List-cases (sort_by is_later (select is_active db.events))) [
      | inl nothing ↦ let is_none : none ≡ some e = rw nothing at h in absurd (cc is_none)
      | inr (x, rest, some_rows) ↦ omega (
        arith,
        ap length some_rows,
        length-sort_by is_later (select is_active db.events),
        length-select is_active db.events,
      )
    ]

get_active_event-found :
    (db : Events.Db) → 1 ≤ count is_active db.events → is_some (get_active_event db) ≡ true
unfolding get_active_event
get_active_event-found db h = elim (List-cases (sort_by is_later (select is_active db.events))) [
  | inl nothing ↦ absurd (
      omega (
        arith,
        h,
        ap length nothing,
        length-sort_by is_later (select is_active db.events),
        length-select is_active db.events,
      ))
  | inr (x, rest, some_rows) ↦ rw some_rows refl
]

count-one :
    (es : List Event) (e : Event)
    → e.is_active ≡ true
    → count is_active (es ++ e ∷ []) ≡ suc (count is_active es)
unfolding count
count-one es e active = count-append is_active es (e ∷ []) ∙ ground (arith, active)

create_event-count :
    (db db' : Events.Db) (new : ℕ → Event) {e : Event}
    → create_event db new ≡ (db', ok e)
    → (new db.next_id).is_active ≡ true
    → count is_active db'.events ≡ suc (count is_active db.events)
unfolding create_event
create_event-count db db' new {e} made active =
    elim (Bool-cases (is_some (get_event_by_slug db (new db.next_id).slug))) [
      | inl taken ↦
          let refused : (db, raised integrity_error) ≡ (db', ok e) = rw taken at made in
          absurd (cc (ap (λ r. r.1) refused))
      | inr fresh ↦
          let added : (
            record db { events = db.events ++ new db.next_id ∷ []; next_id = suc db.next_id },
            ok (new db.next_id),
          )
              ≡ (db', ok e) =
            rw fresh at made in
          ap (λ (r : Events.Db × Result Event). count is_active r.0.events) (sym added)
          ∙ count-one db.events (new db.next_id) active
    ]

admin_create_event-count :
    (lower : Text → Text) (user : User) (db db' : Events.Db) (data_ : EventCreate) {e : Event}
    → admin_create_event lower user db data_ ≡ (db', ok e)
    → data_.is_active ≡ true
    → count is_active db'.events ≡ suc (count is_active db.events)
unfolding admin_create_event
admin_create_event-count lower user db db' data_ {e} made active =
    elim (Bool-cases (str_eq user.role "admin")) [
      | inr other ↦ absurd (cc (ap (λ r. r.1) (rw other at made)))
      | inl passed ↦ elim (Result-cases (get_active_event_by_year db data_.year)) [
        | inr (x, failed) ↦ absurd (cc (ap (λ r. r.1) (rw (passed, failed) at made)))
        | inl (some x, found) ↦ absurd (cc (ap (λ r. r.1) (rw (passed, found) at made)))
        | inl (none, free) ↦
            let slug = slug_or data_.slug (generate_slug lower data_.name) in
            elim (Bool-cases (is_some (get_event_by_slug db slug))) [
              | inl taken ↦ absurd (cc (ap (λ r. r.1) (rw (passed, free, taken) at made)))
              | inr fresh ↦
                  create_event-count db db' (new_event data_ slug)
                    (rw (passed, free, fresh) at made) active
            ]
      ]
    ]

-- When an administrator creates an event as active while another is active, every later trigger of
-- an event that has an enabled workflow raises and changes nothing, as long as the events stay as they
-- are; yet the service's own query gives one active event.
pub admin_create_event-trigger_workflow :
    (lower : Text → Text) (user : User) (db : Db) (events : Events.Db) (data_ : EventCreate)
    {e active : Event} (send : Option User → String → Vars → Answer) (clock : ℕ → ℕ) (t : Trigger)
    {w : Workflow} {ws : List Workflow}
    → get_active_event db.events ≡ some active
    → data_.is_active ≡ true
    → admin_create_event lower user db.events data_ ≡ (events, ok e)
    → get_workflows_by_trigger db t.trigger_event true ≡ w ∷ ws
    → (trigger_workflow send clock t (record db { events = events })
        ≡ (record db { events = events }, raised multiple_results_found))
      × (is_some (get_active_event events) ≡ true)
unfolding get_workflows_by_trigger
admin_create_event-trigger_workflow lower user db events data_ {e = e} {active = active} send clock
      t one new made enabled =
    let two : count is_active events.events ≡ suc (count is_active db.events.events) =
      admin_create_event-count lower user db.events events data_ made new in
    let before = get_active_event-counted db.events active one in
    (
      trigger_workflow-raises send clock t (record db { events = events })
          (omega (arith, two, before)) enabled,
      get_active_event-found events (omega (arith, two)),
    )
