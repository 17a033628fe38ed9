-- ===== src/EmailQueue/Examples.antt =====
-- The theorems on the email queue at concrete calls, and tests.
use cyberx_event_mgmt.Base.{
  length, ℕ, ◌≡◌, refl, String, none, Bool, true, false, List, [], ◌∷◌, inr, ok, contains, find,
  update, count, select, sort_by, scalar_one_or_none,
}
use cyberx_event_mgmt.EmailQueue.Data.{Vars, User, Db, get_user}
use cyberx_event_mgmt.EmailQueue.Valid.{IsValid}
use cyberx_event_mgmt.EmailQueue.Enqueue.{Request, new_email, enqueue_email}
use cyberx_event_mgmt.EmailQueue.Enqueue.Duplicates.{
  is_ambiguous, enqueue_email_twice, enqueue_email_decision,
}
use cyberx_event_mgmt.EmailQueue.Batch.{
  Answer, accepted, refused, Batch, get_pending_emails, process_batch,
}
use cyberx_event_mgmt.EmailQueue.Cancel.{get_queue_stats}
use cyberx_event_mgmt.EmailQueue.History.{Call, enqueues, batches, run}
use cyberx_event_mgmt.EmailQueue.History.Invariant.{run-IsValid}

abbrev ada : User
ada = record { id = 7; email = "ada@x.org"; first_name = "Ada"; last_name = "L" }

abbrev start : Db
start = record { users = ada ∷ []; emails = []; logs = []; next_id = 1 }

abbrev invite : Bool → Request
invite force = record {
  user_id = 7;
  template_name = "invite";
  priority = 5;
  custom_vars = none;
  scheduled_for = none;
  force = force;
}

abbrev accept_all : ℕ → User → String → Vars → Answer
accept_all i user template_name vars = accepted none

abbrev refuse_all : ℕ → User → String → Vars → Answer
refuse_all i user template_name vars = refused "bounced"

abbrev batch : Batch
batch = record {
  batch_size = 50;
  template_name = none;
  batch_id = "b";
  worker_id = "w";
  started_at = 100;
  queried_at = 101;
  marked_at = λ i. 102;
  sent_at = λ i. 103;
  processed_at = λ i. 104;
  ended_at = 2000105;
}

start-IsValid : IsValid start
start-IsValid = record { sound = tt; unique = tt; below = tt }

-- An invitation, sent, and forced to be sent again.
abbrev resent : List (ℕ × Call)
resent =
    (90, enqueues (invite false))
    ∷ (100, batches accept_all batch)
    ∷ (200, enqueues (invite true))
    ∷ (300, batches accept_all batch)
    ∷ []

run-IsValid_example : IsValid (run start resent)
run-IsValid_example = run-IsValid start resent start-IsValid

-- Two were sent within a day, so the next request raises and adds nothing.
enqueue_email_decision_example :
    let (db', r) = enqueue_email (run start resent) 400 (invite false) in
    (is_ambiguous r ≡ true) × (length db'.emails ≡ 2)
unfolding run enqueue_email process_batch get_pending_emails get_user find select update sort_by
    count contains scalar_one_or_none
enqueue_email_decision_example =
    enqueue_email_decision (run start resent) 400 (invite false) {user = ada} refl

-- Three refusals, and the email is given up.
abbrev refusals : List (ℕ × Call)
refusals =
    (90, enqueues (invite false))
    ∷ (100, batches refuse_all batch)
    ∷ (200, batches refuse_all batch)
    ∷ (300, batches refuse_all batch)
    ∷ []

refusals_fail : (get_queue_stats (run start refusals)).failed_count ≡ 1
unfolding get_queue_stats run enqueue_email process_batch get_pending_emails get_user find select
    update sort_by count contains scalar_one_or_none
refusals_fail = refl

enqueue_email_twice_example :
    let e = new_email 1 90 ada (invite false) in
    let r = enqueue_email start 90 (invite false) in
    (r ≡ (record start { emails = e ∷ []; next_id = 2 }, ok e))
    × (enqueue_email r.0 95 (record (invite true) { priority = 1 }) ≡ (r.0, ok e))
unfolding get_user find select
enqueue_email_twice_example =
    enqueue_email_twice start 90 95 (invite false) {user = ada} 1 none none true refl refl
      (inr refl)
