-- ===== src/Auth.antt =====
-- Sessions and access: backend/app/services/auth_service.py, the permission methods of
-- backend/app/models/user.py with backend/app/utils/permissions.py, and the guards of
-- backend/app/dependencies.py.
pub mod Data
pub mod Permissions
pub mod Sessions
pub mod Guards
mod Examples
