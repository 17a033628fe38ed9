-- ===== src/EmailQueue/Cancel/Bulk.antt =====
-- What a bulk cancel does to the queue and says about it.
use cyberx_event_mgmt.Base.{
  ℕ, ◌+◌, Bool, not, ◌&&◌, List, [], ◌∷◌, map, ◌≡◌, refl, ◌∙◌, ap, arith, ◌==◌, ==→eq, Bool-cases,
  inl, inr, contains, select, count, find, update, is_some,
}
use cyberx_event_mgmt.EmailQueue.Data.{
  pending, processing, sent, failed, cancelled, is_status, Email, Db, has_id,
}
use cyberx_event_mgmt.EmailQueue.Cancel.{
  cancel_row, is_cancellable, cancelled_ids, bulk_cancel_emails, get_queue_stats,
}

cancel_counts :
    (ids : List ℕ) (now : ℕ) (es : List Email)
    → let es' = update (is_cancellable ids) (cancel_row now) es in
      let n = count (is_cancellable ids) es in
      (count (λ e. is_status e.status pending) es' + n ≡ count (λ e. is_status e.status pending) es)
      × (count (λ e. is_status e.status cancelled) es'
          ≡ count (λ e. is_status e.status cancelled) es + n)
      × (count (λ e. is_status e.status processing) es'
          ≡ count (λ e. is_status e.status processing) es)
      × (count (λ e. is_status e.status sent) es' ≡ count (λ e. is_status e.status sent) es)
      × (count (λ e. is_status e.status failed) es' ≡ count (λ e. is_status e.status failed) es)
unfolding update count
cancel_counts ids now [] = omega arith
cancel_counts ids now (e ∷ es) = ground (arith, cancel_counts ids now es)

contains-select :
    (p : ℕ → Bool) (xs : List ℕ) (i : ℕ) → contains (select p xs) i ≡ (contains xs i && p i)
unfolding contains select
contains-select p [] i = refl
contains-select p (x ∷ xs) i = elim (Bool-cases (x == i)) [
  | inl same ↦ ground (arith, contains-select p xs i, ap p (==→eq x i same))
  | inr other ↦ ground (arith, contains-select p xs i)
]

contains-cancelled_ids :
    (ids : List ℕ) (es : List Email) (i : ℕ)
    → contains (map (λ e. e.id) (select (is_cancellable ids) es)) i
      ≡ (contains ids i && is_some (find (λ e. has_id i e && is_status e.status pending) es))
unfolding contains select find
contains-cancelled_ids ids [] i = ground arith
contains-cancelled_ids ids (e ∷ es) i = elim (Bool-cases (e.id == i)) [
  | inl same ↦
      ground (arith, contains-cancelled_ids ids es i, ap (contains ids) (==→eq e.id i same))
  | inr other ↦ ground (arith, contains-cancelled_ids ids es i)
]

-- The count that is returned is by how much the pending emails go down and the cancelled ones go
-- up, and the other counts of `get_queue_stats` stay. An id is reported as failed exactly when it
-- was asked for and no pending email has it.
pub bulk_cancel_emails_stats :
    (db : Db) (now : ℕ) (ids : List ℕ) (i : ℕ)
    → let r = bulk_cancel_emails db now ids in
      let n = r.1.0 in
      let before = get_queue_stats db in
      let after = get_queue_stats r.0 in
      (after.pending_count + n ≡ before.pending_count)
      × (after.cancelled_count ≡ before.cancelled_count + n)
      × (after.processing_count ≡ before.processing_count)
      × (after.sent_count ≡ before.sent_count)
      × (after.failed_count ≡ before.failed_count)
      × (contains r.1.1 i ≡ (
          contains ids i
          && not (is_some (find (λ e. has_id i e && is_status e.status pending) db.emails))))
unfolding bulk_cancel_emails get_queue_stats
bulk_cancel_emails_stats db now ids i =
    let (p, c, r, s, f) = cancel_counts ids now db.emails in
    (
      p,
      c,
      r,
      s,
      f,
      contains-select (λ j. not (contains (cancelled_ids db ids) j)) ids i
          ∙ ground (arith, contains-cancelled_ids ids db.emails i),
    )
