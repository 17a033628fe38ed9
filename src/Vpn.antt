-- ===== src/Vpn.antt =====
-- backend/app/services/vpn_service.py and backend/app/models/vpn.py, with `cycle_vpn` of
-- backend/app/services/agent_service.py.
pub mod Data
pub mod Pool
pub mod Removal
pub mod Cycle
pub mod Config
mod Examples
