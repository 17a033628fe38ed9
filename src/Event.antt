-- ===== src/Event.antt =====
-- Events: backend/app/services/event_service.py, backend/app/models/event.py, and the routes of
-- backend/app/api/routes/admin.py and backend/app/api/routes/event.py that change events.
pub mod Data
pub mod Service
pub mod Admin
pub mod Routes
pub mod Lifecycle
pub mod Statistics
mod Examples
