-- ===== src/VpnDelete.antt =====
-- backend/app/services/vpn_delete_service.py and backend/app/models/vpn_delete_job.py.
pub mod Data
pub mod Chunks
pub mod Jobs
mod Examples
