-- ===== src/EmailQueue/History/Invariant.antt =====
-- What holds of the queue between two calls.
use cyberx_event_mgmt.Base.{
  ℕ, suc, ◌<◌, some, List, [], ◌∷◌, ◌++◌, refl, inl, inr, arith, All-append, All-map, Option-cases,
  Unique-append,
}
use cyberx_event_mgmt.EmailQueue.Data.{Email, User, Db, has_id, get_user}
use cyberx_event_mgmt.EmailQueue.Enqueue.{Request, new_email, enqueue_email}
use cyberx_event_mgmt.EmailQueue.Cancel.{
  cancel_row, cancel_email, is_cancellable, bulk_cancel_emails,
}
use cyberx_event_mgmt.EmailQueue.Valid.{IsSound, IsValid, update-IsValid}
use cyberx_event_mgmt.EmailQueue.Batch.Delivery.{process_batch-IsValid}
use cyberx_event_mgmt.EmailQueue.History.{Call, enqueues, batches, cancels, bulk_cancels, step, run}

cancel_row-IsSound : (now : ℕ) (e : Email) → IsSound e → IsSound (cancel_row now e)
cancel_row-IsSound now e s = ground arith

cancel_email-IsValid : (db : Db) (now i : ℕ) → IsValid db → IsValid (cancel_email db now i).0
unfolding cancel_email
cancel_email-IsValid db now i v =
    ground
      (arith, update-IsValid db (has_id i) (cancel_row now) (λ e. refl) (cancel_row-IsSound now) v)

bulk_cancel_emails-IsValid :
    (db : Db) (now : ℕ) (ids : List ℕ) → IsValid db → IsValid (bulk_cancel_emails db now ids).0
unfolding bulk_cancel_emails
bulk_cancel_emails-IsValid db now ids v =
    update-IsValid db (is_cancellable ids) (cancel_row now) (λ e. refl) (cancel_row-IsSound now) v

added-IsValid :
    (db : Db) (now : ℕ) (user : User) (q : Request)
    → IsValid db
    → IsValid (record db {
      emails = db.emails ++ new_email db.next_id now user q ∷ [];
      next_id = suc db.next_id;
    })
added-IsValid db now user q v = record {
  sound = All-append IsSound db.emails _ v.sound ((ground arith), tt);
  unique =
      Unique-append (λ (e : Email). e.id) db.next_id db.emails _ v.unique v.below (omega arith);
  below =
      All-append (λ e. e.id < suc db.next_id) db.emails _
        (All-map (λ e. e.id < db.next_id) (λ e. e.id < suc db.next_id) db.emails
          (λ e h. omega arith) v.below)
        ((omega arith), tt);
}

pub enqueue_email-IsValid :
    (db : Db) (now : ℕ) (q : Request) → IsValid db → IsValid (enqueue_email db now q).0
unfolding enqueue_email
enqueue_email-IsValid db now q v = elim (Option-cases (get_user db (some q.user_id))) [
  | inl missing ↦ rw (missing, enqueue_email) v
  | inr (user, known) ↦ ground (arith, added-IsValid db now user q v)
]

step-IsValid : (db : Db) (c : ℕ × Call) → IsValid db → IsValid (step db c)
unfolding step
step-IsValid db (now, enqueues q) v = enqueue_email-IsValid db now q v
step-IsValid db (now, batches send b) v = process_batch-IsValid send db b v
step-IsValid db (now, cancels i) v = cancel_email-IsValid db now i v
step-IsValid db (now, bulk_cancels ids) v = bulk_cancel_emails-IsValid db now ids v

-- After any calls at any times, whatever the mail service answers, from a table of sound emails
-- with distinct ids: no email has more attempts than its limit, every pending one has an attempt
-- left, none is left as being sent, and every sent one has its time of sending.
pub run-IsValid : (db : Db) (cs : List (ℕ × Call)) → IsValid db → IsValid (run db cs)
unfolding run
run-IsValid db [] v = v
run-IsValid db (c ∷ cs) v = run-IsValid (step db c) cs (step-IsValid db c v)
