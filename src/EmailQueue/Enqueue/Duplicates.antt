-- ===== src/EmailQueue/Enqueue/Duplicates.antt =====
-- What the duplicate checks of `enqueue_email` achieve, and where they fail.
use cyberx_event_mgmt.Base.{
  ℕ, suc, Option, some, Bool, true, false, List, [], ◌∷◌, ◌++◌, ◌≡◌, refl, ◌⊎◌, inl, inr, arith,
  ◌+◌, ◌*◌, String, not, ◌&&◌, ◌||◌, if◌then◌else◌, leb, ◌==◌, opt_eq, str_eq, Bool-cases,
  length-append, Result, eq_refl, select, count, length, ok, raised, multiple_results_found,
  scalar_one_or_none,
}
use cyberx_event_mgmt.EmailQueue.Data.{
  pending, processing, sent, is_status, Vars, Email, User, Db, get_user,
}
use cyberx_event_mgmt.EmailQueue.Enqueue.{is_queued, is_recent, Request, new_email, enqueue_email}

queued_new :
    (db : Db) (now : ℕ) (user : User) (q : Request)
    → is_queued q.user_id q.template_name (new_email db.next_id now user q) ≡ true
queued_new db now user q = ground (arith, eq_refl q.template_name)

select-append_one :
    (p : Email → Bool) (xs : List Email) (y : Email)
    → select p xs ≡ []
    → p y ≡ true
    → select p (xs ++ y ∷ []) ≡ y ∷ []
unfolding select
select-append_one p [] y h t = ground arith
select-append_one p (x ∷ xs) y h t = ground (arith, select-append_one p xs y)

enqueue_adds :
    (db : Db) (now : ℕ) (q : Request) {user : User}
    → get_user db (some q.user_id) ≡ some user
    → select (is_queued q.user_id q.template_name) db.emails ≡ []
    → (q.force ≡ true) ⊎ (select (is_recent q.user_id q.template_name now) db.emails ≡ [])
    → let e = new_email db.next_id now user q in
      enqueue_email db now q
      ≡ (record db { emails = db.emails ++ e ∷ []; next_id = suc db.next_id }, ok e)
unfolding enqueue_email scalar_one_or_none
enqueue_adds db now q known none_queued (inl forced) = rw (known, none_queued, forced)
enqueue_adds db now q known none_queued (inr none_recent) =
    rw (known, none_queued, none_recent) (ground arith)

enqueue_finds :
    (db : Db) (now : ℕ) (q : Request) (e : Email) {user : User}
    → get_user db (some q.user_id) ≡ some user
    → select (is_queued q.user_id q.template_name) db.emails ≡ e ∷ []
    → enqueue_email db now q ≡ (db, ok e)
unfolding enqueue_email scalar_one_or_none
enqueue_finds db now q e known queued = rw (known, queued)

-- When no email of the user and template is pending, and the request is forced or none was sent
-- lately, the request adds a pending email; and from then on, until the queue changes otherwise,
-- every further request for that user and template at any time, forced or not, adds nothing and
-- gives back that same email.
pub enqueue_email_twice :
    (db : Db) (now later : ℕ) (q : Request) {user : User} (priority : ℕ) (vars : Option Vars)
    (scheduled_for : Option ℕ) (force : Bool)
    → get_user db (some q.user_id) ≡ some user
    → select (is_queued q.user_id q.template_name) db.emails ≡ []
    → (q.force ≡ true) ⊎ (select (is_recent q.user_id q.template_name now) db.emails ≡ [])
    → let e = new_email db.next_id now user q in
      let again = record q {
        priority = priority;
        custom_vars = vars;
        scheduled_for = scheduled_for;
        force = force;
      } in
      let r = enqueue_email db now q in
      (r ≡ (record db { emails = db.emails ++ e ∷ []; next_id = suc db.next_id }, ok e))
      × (enqueue_email r.0 later again ≡ (r.0, ok e))
enqueue_email_twice db now later q {user} priority vars scheduled_for force known none_queued
      none_recent =
    let e = new_email db.next_id now user q in
    let first = enqueue_adds db now q known none_queued none_recent in
    (
      first,
      rw first (
          enqueue_finds (record db { emails = db.emails ++ e ∷ []; next_id = suc db.next_id }) later
            (record q {
              priority = priority;
              custom_vars = vars;
              scheduled_for = scheduled_for;
              force = force;
            })
            e {user = user} (unfold get_user in known)
            (select-append_one (is_queued q.user_id q.template_name) db.emails e none_queued
              (queued_new db now user q))),
    )

-- The email is of this user and template, and pending.
abbrev pub is_waiting : ℕ → String → Email → Bool
is_waiting user_id template_name e =
    is_status e.status pending
    && (opt_eq e.user_id (some user_id) && str_eq e.template_name template_name)

abbrev pub day : ℕ
day = 24 * 60 * 60 * 1000000

-- The email is of this user and template, sent or being sent, and not more than a day old.
abbrev pub is_of_last_day : ℕ → String → ℕ → Email → Bool
is_of_last_day user_id template_name now e =
    leb now (e.created_at + day)
    && ((is_status e.status processing || is_status e.status sent)
        && (opt_eq e.user_id (some user_id) && str_eq e.template_name template_name))

abbrev pub is_ambiguous : Result Email → Bool
is_ambiguous (raised multiple_results_found) = true
is_ambiguous _ = false

queued_count :
    (user_id : ℕ) (template_name : String) (es : List Email)
    → length (select (is_queued user_id template_name) es)
      ≡ count (is_waiting user_id template_name) es
unfolding select count
queued_count user_id template_name [] = refl
queued_count user_id template_name (e ∷ es) = ground (arith, queued_count user_id template_name es)

recent_count :
    (user_id : ℕ) (template_name : String) (now : ℕ) (es : List Email)
    → length (select (is_recent user_id template_name now) es)
      ≡ count (is_of_last_day user_id template_name now) es
unfolding select count
recent_count user_id template_name now [] = refl
recent_count user_id template_name now (e ∷ es) =
    ground (arith, recent_count user_id template_name now es)

-- What the request does, by how many rows its two queries find.
abbrev Decides : Db → Request → ℕ → ℕ → Db × Result Email → Type 0
Decides db q waiting recent (db', r) =
    (is_ambiguous r ≡ (leb 2 waiting || (waiting == 0 && (not q.force && leb 2 recent))))
    × (length db'.emails
        ≡ length db.emails + (if waiting == 0 && (q.force || recent == 0) then 1 else 0))

added_length : (es : List Email) (e : Email) → length (es ++ e ∷ []) ≡ length es + 1
added_length es e = length-append es (e ∷ [])

enqueue-Decides :
    (db : Db) (now : ℕ) (q : Request) {user : User} (ws rs : List Email)
    → get_user db (some q.user_id) ≡ some user
    → select (is_queued q.user_id q.template_name) db.emails ≡ ws
    → select (is_recent q.user_id q.template_name now) db.emails ≡ rs
    → Decides db q (length ws) (length rs) (enqueue_email db now q)
unfolding enqueue_email scalar_one_or_none
enqueue-Decides db now q (x ∷ y ∷ ws) rs known waiting recent =
    rw (known, waiting) (ground arith, ground arith)
enqueue-Decides db now q (x ∷ []) rs known waiting recent =
    rw (known, waiting) (ground arith, ground arith)
enqueue-Decides db now q {user} [] rs known waiting recent = elim (Bool-cases q.force) [
  | inl forced ↦
      rw (known, waiting, forced) (refl, added_length db.emails (new_email db.next_id now user q))
  | inr plain ↦ looks rs plain recent
]
  where
    looks :
        (rs : List Email)
        → q.force ≡ false
        → select (is_recent q.user_id q.template_name now) db.emails ≡ rs
        → Decides db q 0 (length rs) (enqueue_email db now q)
    looks [] plain recent =
        rw (known, waiting, plain, recent)
          (refl, added_length db.emails (new_email db.next_id now user q))
    looks (x ∷ []) plain recent = rw (known, waiting, plain, recent) (ground arith, ground arith)
    looks (x ∷ y ∷ rs) plain recent =
        rw (known, waiting, plain, recent) (ground arith, ground arith)

-- A request for a known user raises for more than one row exactly when at least two emails of the
-- user and template are pending, or none is, the request is not forced, and at least two were sent or
-- are being sent that were created in the last 24 hours. It adds one email exactly when none is
-- pending and it is forced or none was sent or is being sent that was created in the last 24 hours;
-- otherwise the number of emails stays.
pub enqueue_email_decision :
    (db : Db) (now : ℕ) (q : Request) {user : User}
    → get_user db (some q.user_id) ≡ some user
    → let waiting = count (is_waiting q.user_id q.template_name) db.emails in
      let recent = count (is_of_last_day q.user_id q.template_name now) db.emails in
      let (db', r) = enqueue_email db now q in
      (is_ambiguous r ≡ (leb 2 waiting || (waiting == 0 && (not q.force && leb 2 recent))))
      × (length db'.emails
          ≡ length db.emails + (if waiting == 0 && (q.force || recent == 0) then 1 else 0))
enqueue_email_decision db now q {user} known =
    rw
      (
        ← queued_count q.user_id q.template_name db.emails,
        ← recent_count q.user_id q.template_name now db.emails,
      )
      (enqueue-Decides db now q {user = user}
        (select (is_queued q.user_id q.template_name) db.emails)
        (select (is_recent q.user_id q.template_name now) db.emails) known refl refl)
