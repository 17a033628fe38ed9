-- ===== src/License.antt =====
-- backend/app/services/license_service.py and backend/app/models/license.py.
pub mod Data
pub mod Products
pub mod Tokens
pub mod Slots
pub mod History
