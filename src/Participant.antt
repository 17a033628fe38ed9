-- ===== src/Participant.antt =====
-- Participants: backend/app/services/participant_service.py, the confirmation routes of
-- backend/app/api/routes/public.py, and backend/app/utils/name_utils.py.
pub mod Names
pub mod Phonetic
pub mod Data
pub mod Service
pub mod Confirm
pub mod Delete
pub mod Invitation
pub mod Reset
pub mod Create
pub mod Update
pub mod Listing
pub mod Statistics
mod Examples
mod RouteExamples
