-- ===== src/Redirector.antt =====
-- The stream half of backend/app/services/redirector_service.py, and the stream table of
-- backend/app/models/redirector.py.
pub mod Data
pub mod Ports
pub mod Streams
mod Examples
