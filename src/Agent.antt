-- ===== src/Agent.antt =====
-- The agents on instances: the tasks of backend/app/services/agent_service.py and
-- backend/app/models/agent_task.py, and the agent guard of backend/app/dependencies.py.
pub mod Data
pub mod Tasks
pub mod Guard
mod Examples
