-- ===== src/Lib.antt =====
-- iBot core API service: a model of its interview sessions, its violation records, its assessments,
-- its candidates, its e-mails, its evaluations, its recruiter accounts and the times of its
-- interview plans, with proofs.
--
-- The service keeps everything in PostgreSQL and answers two kinds of callers: the interview engine,
-- which enters candidates, authorizes their connections, reports dropped connections and writes the
-- transcript and the violations (src/api/rest/routes/internal_interview.py), and the recruiters'
-- front end (src/api/rest/routes/auth.py, assessments.py, candidates.py, evaluation.py).
--
-- Which file models what:
-- - Db/Status, Db/Rows: the status columns and the rows, from src/data/models/postgres and
--   src/schemas/event_log.py. Db/Table: a table is the list of its rows; `find` is a query by a key
--   and `update_where` an UPDATE. Db/Effects: a coroutine is a function from the state to a result or
--   an exception and the state, and `session_scope` is `async_session_scope` of
--   src/data/clients/postgres_client.py. Keeps: invariants of such actions.
-- - Json: the values of the JSONB columns and of Python's dicts.
-- - Repositories/CandidateSession, /Contexts: src/data/repositories/candidate_session_repository.py.
--   Repositories/Ending: what is expected of rows that are written when an interview ends or resumes.
-- - Sessions/Enter, /Validate, /Connect: every method of
--   src/core/services/interview_session_service.py, under its name; Sessions/Calls: the session routes
--   as calls that are served one after another, each in one transaction (the code locks the rows it
--   reads, so calls on one session follow each other). Sessions/Lifecycle, /Moves, /Refinement: the
--   abstract machine that the calls refine. Sessions/Invariant, /Limits, /Later, /History,
--   /Authorize, /Reconnect, /Disconnect, /Refusal, /Admission: what they keep and do.
-- - Violations: the helpers on JSON records at the top of
--   src/data/repositories/interview_session_repository.py; Violations/Replace, /Append, /Ids,
--   /Retry: their laws. Interviews/Rows: the methods of that repository and of
--   src/data/repositories/assessment_context_repository.py that set single columns.
--   Interviews/TabSwitch: `record_tab_switch`; /TabRecord, /TabSwitches, /TabCounts, /TabRepeat: what
--   it does.
--   Interviews/Requests: the two routes that combine statements; /Initialize, /Persist, /PersistTurn:
--   what they do. Interviews/Episodes, /FaceRecord, /Proctoring: `record_proctoring_event` with its
--   episodes; /FaceEvents, /FaceGuards, /FaceCounts: what it does.
-- - Office: a request's database, the callbacks that wait for its commit, and the jobs that Celery is
--   given.
-- - Assessments/Repository, /Service: src/data/repositories/assessment_repository.py and
--   src/core/services/assessment_service.py; Assessments/Lifecycle: the statements of the background
--   tasks; Assessments/Requests: what the recruiter's requests do.
-- - Candidates/Repository: src/data/repositories/candidate_repository.py and
--   src/data/repositories/candidate_assessment_repository.py, a new enrollment in front, as the
--   queries order them; a link is named by its token. Candidates/Service, /Enroll, /Manage:
--   src/core/services/candidate_service.py but for the upload; /Csv, /Tally, /Upload: its upload of a
--   CSV file, whose rows are as `csv.DictReader` gives them. /Consistent, /Statements, /Kept,
--   /Created, /Uploaded, /RowsKept, /Uploads, /Actions: what the requests keep of the
--   enrollments, where each id drawn is new (`DrawsFresh`); /Counted, /Counts, /UploadJobs,
--   /UploadCounts, /EnrollSearch, /EnrollResume, /EnrollOutcome, /EnrollFree, /Enrolled,
--   /Requests: what the requests do.
-- - Notifications/Log: src/data/repositories/notification_log_repository.py. Notifications/Task: the
--   three e-mail tasks of src/handlers/celery_tasks/notification_tasks.py, which are copies of one
--   another, as one function of the kind of e-mail; /Attempt, /Delivery, /Decision: what becomes of an e-mail.
--   What a run meets (the e-mail client, the commits of its transactions) is a parameter.
-- - Evaluations/Repository: src/data/repositories/evaluation_repository.py, what changes rows or
--   decides; Python's floats occur in the percentile and are an interface. /Places, /Scores,
--   /Ranked, /Ranking: the ranks that the rows of a query get; /Upsert, /Saved: what a
--   saved evaluation leaves.
-- - Order: the order of a query or of `sorted`.
-- - Planning: how src/utils/assessment_utils.py divides an interview's time, in tenths of a minute;
--   Planning/Allocation: its minutes by weight, over an interface for the floats; /Units, /Exact,
--   /Allocated: what the skills get.
-- - Accounts/Repository: src/data/repositories/auth_repository.py. Accounts/Login, /Reset:
--   src/core/services/auth_service.py. Accounts/Security: what these take from outside. The other
--   files of Accounts: what they do.
-- - Tests: the functions and the theorems on concrete data.
--
-- Simplifications. A UUID is a number, since it is only compared; a time is a number of microseconds,
-- always with its time zone, so `_aware` does nothing; a status is one of the values that the models
-- list. A key that the schema declares unique selects the first row that has it; the unique and
-- foreign keys of the schema are not enforced, and a theorem that needs one has it as a hypothesis.
-- Numbers do not overflow. A request's commit does not fail. `now()` is not before the times that the database
-- holds where PostgreSQL would clamp a difference at 0. JSON floats occur only by their order, and
-- minutes as whole tenths, in which the planned times are exact. Every loop of the modelled code
-- runs over a list; Celery's retries run on fuel, of which four runs are enough. Taken from outside
-- as parameters: clocks and random draws (Repositories/Env), Python's `str` and `int` of unusual
-- values, `str` of a UUID and `isoformat` (Violations.Python), `str.lower` and `str.strip`
-- (Candidates.Repository.Texts), bcrypt, SHA-256, JWT and `str.lower` (Accounts.Security), Python's
-- arithmetic of floats (Evaluations.Repository.Floats, Planning.Allocation.Weights), whether the
-- e-mail client accepts an e-mail and the commits of a task fail (Notifications.Task.Attempt), and
-- Redis as an interface with the two laws that the code relies on.
--
-- Not modelled: logging, settings, middleware and the HTTP routes beyond the order of calls; Alembic
-- migrations; the clients of PostgreSQL, Redis and Celery; prompts and e-mail texts
-- (src/utils/candidates.py, src/utils/evaluation.py); the database's read-only listings.
-- Nor are: the rest of src/utils/assessment_utils.py, the validators of src/schemas, and
-- src/core/services/evaluation_service.py, which only reads.
pub mod Prelude
pub mod Json
pub mod Db
pub mod Keeps
pub mod Order
pub mod Repositories
pub mod Violations
pub mod Sessions
pub mod Interviews
pub mod Accounts
pub mod Office
pub mod Assessments
pub mod Candidates
pub mod Notifications
pub mod Evaluations
pub mod Planning
pub mod Tests
