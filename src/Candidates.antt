-- ===== src/Candidates.antt =====
-- Candidates and their enrollments in assessments: src/core/services/candidate_service.py over
-- src/data/repositories/candidate_repository.py and candidate_assessment_repository.py.
pub mod Repository
pub mod Service
pub mod Enroll
pub mod Manage
pub mod Csv
pub mod Tally
pub mod Upload
pub mod Consistent
pub mod Statements
pub mod Kept
pub mod Created
pub mod Uploaded
pub mod RowsKept
pub mod Uploads
pub mod Actions
pub mod Counted
pub mod Counts
pub mod UploadJobs
pub mod UploadCounts
pub mod EnrollSearch
pub mod EnrollResume
pub mod EnrollOutcome
pub mod EnrollFree
pub mod Enrolled
pub mod Requests
