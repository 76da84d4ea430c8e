-- ===== src/Evaluations.antt =====
-- Evaluations and their ranking: src/data/repositories/evaluation_repository.py and
-- src/core/services/evaluation_service.py.
pub mod Places
pub mod Repository
pub mod Scores
pub mod Ranked
pub mod Ranking
pub mod Upsert
pub mod Saved
