-- ===== src/EmailQueue/Cancel.antt =====
-- `cancel_email`, `bulk_cancel_emails` and `get_queue_stats`.
pub mod Bulk
use cyberx_event_mgmt.Base.{
  ℕ, Option, none, some, Bool, true, false, not, ◌&&◌, List, [], ◌∷◌, if◌then◌else◌, contains,
  select, count, find, update, map,
}
use cyberx_event_mgmt.EmailQueue.Data.{
  Status, pending, processing, sent, failed, cancelled, is_status, Email, Db, has_id,
}

abbrev pub cancel_row : ℕ → Email → Email
cancel_row now e = record e { status = cancelled; processed_at = some now }

cancel_found : Db → ℕ → ℕ → Option Email → Db × Bool
cancel_found db now i none = (db, false)
cancel_found db now i (some e) =
    if is_status e.status pending
    then (record db { emails = update (has_id i) (cancel_row now) db.emails }, true)
    else (db, false)

unfoldable pub cancel_email : Db → ℕ → ℕ → Db × Bool
unfolding cancel_found
cancel_email db now i = cancel_found db now i (find (has_id i) db.emails)

-- The rows that a bulk cancel changes.
abbrev pub is_cancellable : List ℕ → Email → Bool
is_cancellable ids e = contains ids e.id && is_status e.status pending

-- `cancelled_ids`, a set of primary keys.
abbrev pub cancelled_ids : Db → List ℕ → List ℕ
cancelled_ids db ids = map (λ e. e.id) (select (is_cancellable ids) db.emails)

-- With no ids, no row meets the condition; with nothing cancelled there is no commit and no change.
unfoldable pub bulk_cancel_emails : Db → ℕ → List ℕ → Db × (ℕ × List ℕ)
bulk_cancel_emails db now ids = (
  record db { emails = update (is_cancellable ids) (cancel_row now) db.emails },
  (count (is_cancellable ids) db.emails, select (λ i. not (contains (cancelled_ids db ids) i)) ids),
)

pub record Stats : Type 0 where
  pub pending_count : ℕ
  pub processing_count : ℕ
  pub sent_count : ℕ
  pub failed_count : ℕ
  pub cancelled_count : ℕ

unfoldable pub get_queue_stats : Db → Stats
get_queue_stats db = record {
  pending_count = count (λ e. is_status e.status pending) db.emails;
  processing_count = count (λ e. is_status e.status processing) db.emails;
  sent_count = count (λ e. is_status e.status sent) db.emails;
  failed_count = count (λ e. is_status e.status failed) db.emails;
  cancelled_count = count (λ e. is_status e.status cancelled) db.emails;
}
