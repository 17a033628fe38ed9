-- ===== src/EmailQueue/Batch/Accounting.antt =====
-- The totals that a batch logs.
use cyberx_event_mgmt.Base.{ℕ, true, List, ◌≡◌, is_some, find}
use cyberx_event_mgmt.EmailQueue.Data.{Email, has_id}
use cyberx_event_mgmt.EmailQueue.Batch.{Batch}

abbrev IsThere : List Email → ℕ → Type 0
IsThere emails i = is_some (find (has_id i) emails) ≡ true
