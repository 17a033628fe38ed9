-- ===== src/Workflow.antt =====
-- Email workflows: backend/app/services/workflow_service.py and backend/app/models/email_workflow.py.
pub mod Data
pub mod Trigger
mod Examples
