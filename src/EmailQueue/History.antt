-- ===== src/EmailQueue/History.antt =====
-- The queue over a sequence of calls.
pub mod Invariant
use cyberx_event_mgmt.Base.{ℕ, String, List, [], ◌∷◌}
use cyberx_event_mgmt.EmailQueue.Data.{Vars, User, Db}
use cyberx_event_mgmt.EmailQueue.Enqueue.{Request, enqueue_email}
use cyberx_event_mgmt.EmailQueue.Batch.{Answer, Batch, process_batch}
use cyberx_event_mgmt.EmailQueue.Cancel.{cancel_email, bulk_cancel_emails}

-- A batch comes with what the mail service answers while it runs.
pub data Call : Type 0 where
  enqueues : Request → Call
  batches : (ℕ → User → String → Vars → Answer) → Batch → Call
  cancels : ℕ → Call
  bulk_cancels : List ℕ → Call

unfoldable pub step : Db → ℕ × Call → Db
step db (now, enqueues q) = (enqueue_email db now q).0
step db (now, batches send b) = (process_batch send db b).0
step db (now, cancels i) = (cancel_email db now i).0
step db (now, bulk_cancels ids) = (bulk_cancel_emails db now ids).0

unfoldable pub run : Db → List (ℕ × Call) → Db
unfolding step
run db [] = db
run db (c ∷ cs) = run (step db c) cs
