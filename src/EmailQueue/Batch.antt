-- ===== src/EmailQueue/Batch.antt =====
-- `get_pending_emails` and `process_batch`. The mail service's answer to a send is a parameter, as
-- are the readings of the clock; no database call fails, so the outer `except` is not taken.
pub mod Delivery
pub mod Accounting
use cyberx_event_mgmt.Base.{
  ℕ, suc, ◌+◌, ◌-◌, ◌/◌, String, Option, none, some, Bool, true, false, ◌&&◌, ◌||◌, List, [], ◌∷◌,
  ◌++◌, map, if◌then◌else◌, ltb, leb, ◌==◌, str_eq, contains, length, take, select, sort_by, update,
  find,
}
use cyberx_event_mgmt.EmailQueue.Data.{
  Status, pending, processing, sent, failed, is_status, Vars, Email, BatchLog, User, Db, has_id,
  get_user,
}

abbrev pub is_due : ℕ → Option ℕ → Bool
is_due now none = true
is_due now (some t) = leb t now

abbrev pub of_template : Option String → Email → Bool
of_template none e = true
of_template (some name) e = str_eq name "" || str_eq e.template_name name

abbrev pub is_ready : ℕ → Option String → Email → Bool
is_ready now template_name e =
    (is_status e.status pending && ltb e.attempts e.max_attempts)
    && (is_due now e.scheduled_for && of_template template_name e)

-- `ORDER BY priority, created_at`.
abbrev pub comes_first : Email → Email → Bool
comes_first a b =
    ltb a.priority b.priority || (a.priority == b.priority && leb a.created_at b.created_at)

unfoldable pub get_pending_emails : Db → ℕ → ℕ → Option String → List Email
get_pending_emails db now batch_size template_name =
    take batch_size (sort_by comes_first (select (is_ready now template_name) db.emails))

-- The answer of `EmailService.send_email`: success with a message id, refusal, or an exception.
pub data Answer : Type 0 where
  accepted : Option String → Answer
  refused : String → Answer
  raises : String → Answer

-- The arguments of `process_batch`, the random batch and worker ids, and the clock: at the start,
-- at the query, for each email (by its id) when it is marked, sent and processed, and at the end.
pub record Batch : Type 0 where
  pub batch_size : ℕ
  pub template_name : Option String
  pub batch_id : String
  pub worker_id : String
  pub started_at : ℕ
  pub queried_at : ℕ
  pub marked_at : ℕ → ℕ
  pub sent_at : ℕ → ℕ
  pub processed_at : ℕ → ℕ
  pub ended_at : ℕ

abbrev pub mark : Batch → Email → Email
mark b e = record e {
  status = processing;
  batch_id = some b.batch_id;
  processed_by = some b.worker_id;
  attempts = e.attempts + 1;
  last_attempt_at = some (b.marked_at e.id);
}

-- After a failure: given up at the last attempt, otherwise back in the queue.
abbrev pub after_failure : Email → Status
after_failure e = if leb e.max_attempts e.attempts then failed else pending

abbrev pub answer_email : Batch → Answer → Email → Email
answer_email b (accepted message_id) e = record e {
  status = sent;
  sendgrid_message_id = message_id;
  sent_at = some (b.sent_at e.id);
  processed_at = some (b.processed_at e.id);
}
answer_email b (refused message) e = record e {
  status = after_failure e;
  error_message = some message;
}
answer_email b (raises message) e = record e {
  status = after_failure e;
  error_message = some message;
}

abbrev pub vars_or_empty : Option Vars → Vars
vars_or_empty none = []
vars_or_empty (some vars) = vars

-- The loop's variables: the rows, and the two counters.
pub record Progress : Type 0 where
  pub emails : List Email
  pub sent_count : ℕ
  pub failed_count : ℕ

pub tally : Progress → List Email → Email → Progress
tally p emails e =
    if is_status e.status sent
    then record { emails = emails; sent_count = p.sent_count + 1; failed_count = p.failed_count }
    else record { emails = emails; sent_count = p.sent_count; failed_count = p.failed_count + 1 }

log_of : Batch → ℕ → ℕ → ℕ → ℕ → BatchLog
log_of b total sent_count failed_count duration = record {
  batch_id = b.batch_id;
  batch_size = b.batch_size;
  total_processed = total;
  total_sent = sent_count;
  total_failed = failed_count;
  started_at = b.started_at;
  completed_at = b.ended_at;
  duration_seconds = duration;
  processed_by = b.worker_id;
}

finish : Db → BatchLog → List Email → Db × BatchLog
finish db log emails = (record db { emails = emails; logs = db.logs ++ log ∷ [] }, log)

abbrev pub batch_ids : Db → Batch → List ℕ
batch_ids db b = map (λ e. e.id) (get_pending_emails db b.queried_at b.batch_size b.template_name)

module _ (send : ℕ → User → String → Vars → Answer) where
  -- One round of the loop, on the row of the email.
  abbrev pub settle : Batch → Option User → Email → Email
  settle b none e = record e { status = failed; error_message = some "User not found" }
  settle b (some user) e =
      answer_email b (send e.id user e.template_name (vars_or_empty e.custom_vars)) e

  abbrev pub settle_row : Db → Batch → Email → Email
  settle_row db b e = settle b (get_user db e.user_id) e

  -- One email of the batch, whose object is the row with its id.
  round : Db → Batch → Progress → ℕ → Option Email → Progress
  unfolding tally
  round db b p i none = p
  round db b p i (some e) =
      tally p (update (has_id i) (settle_row db b) p.emails) (settle_row db b e)

  deliver : Db → Batch → List ℕ → Progress → Progress
  unfolding round
  deliver db b [] p = p
  deliver db b (i ∷ ids) p = deliver db b ids (round db b p i (find (has_id i) p.emails))

  send_batch : Db → Batch → List ℕ → Db × BatchLog
  unfolding deliver log_of finish
  send_batch db b [] = finish db (log_of b 0 0 0 0) db.emails
  send_batch db b (i ∷ ids) =
      let p = deliver db b (i ∷ ids) (record {
        emails = update (λ e. contains (i ∷ ids) e.id) (mark b) db.emails;
        sent_count = 0;
        failed_count = 0;
      }) in
      finish db
        (log_of b (length (i ∷ ids)) p.sent_count p.failed_count
          ((b.ended_at - b.started_at) / 1000000))
        p.emails

  unfoldable pub process_batch : Db → Batch → Db × BatchLog
  unfolding send_batch
  process_batch db b = send_batch db b (batch_ids db b)
