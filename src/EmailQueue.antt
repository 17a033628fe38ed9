-- ===== src/EmailQueue.antt =====
-- backend/app/services/email_queue_service.py and backend/app/models/email_queue.py.
pub mod Data
pub mod Valid
pub mod Enqueue
pub mod Batch
pub mod Cancel
pub mod History
mod Examples
