-- ===== src/Repositories.antt =====
-- The repositories of src/data/repositories: each method is an action on the database.
pub mod Env
pub mod Statements
pub mod Contexts
pub mod Ending
pub mod CandidateSession
