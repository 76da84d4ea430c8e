-- ===== src/Assessments.antt =====
-- The life of an assessment: src/core/services/assessment_service.py over
-- src/data/repositories/assessment_repository.py.
pub mod Repository
pub mod Service
pub mod Lifecycle
pub mod Requests
