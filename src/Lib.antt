-- ===== src/Lib.antt =====
-- The backend of the rubric grading engine: how an essay is graded by a language model, how a teacher
-- edits, locks and disputes the grade, how a batch of gradings is run and watched, how teachers sign in,
-- how rubrics, assignments and rosters come to be, and what is read from an essay's writing process.
--
-- A teacher's request or a Celery task calls a service; a service reads rows of the database, checks
-- them, changes them in its session, and commits. The model of the database is a record of lists of
-- rows, `Db`, and a service is a function from the database to the database after its commit, or to
-- the exception that it raises before it. Where a service commits twice, or changes Redis or the
-- queue too, the state comes back beside an exception as well.
--
--   Prelude        tests, lists, integers over the native numbers, exceptions as values, tables
--   Models         backend/app/models: the rows, the joins that find a row's owner, scoped loads
--   Progress       backend/app/services/grading_progress.py: the Redis hash of a batch
--   Batch          backend/app/services/batch_grading.py: trigger, status and retry of a batch
--   Tasks          backend/app/tasks/grading.py: the Celery task of one essay and its reports
--   Grading        backend/app/services/grading.py: the grading of one essay, in two transactions
--   LanguageModel  backend/app/llm/client.py: the grading call with its retries
--   Parsing        backend/app/llm/parsers.py: the checks on the model's answer
--   Grades         backend/app/services/grade.py: reading, editing and locking a grade
--   Regrades       backend/app/services/regrade_request.py: submitting and listing requests
--   Resolutions    backend/app/services/regrade_request.py: resolving a request
--   Assignments    backend/app/services/assignment.py: the lifecycle and the update
--   Rubrics        backend/app/services/rubric.py: rubrics and criteria, and in Rubrics/Assigning the
--                  creation and listing of assignments of backend/app/services/assignment.py
--   Auth           backend/app/services/auth.py: accounts, rate limits, tokens and sessions
--   Timeline       backend/app/services/composition_timeline.py: the sessions of a writing process
--   Matching       backend/app/services/student_matching.py: the student of an upload
--   Skills         backend/app/services/skill_normalization.py: the skill dimension of a criterion
--   Roster         backend/app/services/roster_import.py: students from a CSV file
--   Resubmission   backend/app/services/resubmission.py: the comparison of two graded versions
--   Examples       concrete data, to which the theorems are applied
--
-- Batch starts Tasks, Tasks runs Grading and reports to Progress, Grading calls LanguageModel, which
-- calls Parsing, and what Grading writes is what Grades, Regrades and Resolutions edit. Rubrics are
-- frozen into assignments when Rubrics/Assigning creates them, and grading reads only the frozen copy.
--
-- UUIDs, dates and times are numbers; Python's integers are unbounded integers over the native
-- numbers. The only loop that is not over a list is that of `_chat_with_retry`: it runs on its own
-- number of rounds, `max_retries + 1`, so no fuel is needed anywhere. Parameters of the model are the
-- clock, new row ids, the conversions of a UUID and of a text, `json.loads`, what the API answers to
-- each attempt, whether Redis answers, and how many tasks the broker accepts; for the other services,
-- hashing and tokens, datetime's parser, Python's floats, similarity scores of rapidfuzz and
-- difflib, the csv module, and the rounding of a Numeric column. Auth takes Redis as an interface: a
-- record of commands with the laws of reading after them, which the store of Examples/Cache
-- satisfies.
--
-- Of SQLAlchemy the model keeps what the services rely on or overlook: `AsyncSession.delete` is a coroutine
-- function, so a call that is not awaited deletes nothing; a flush sets only the columns that differ from
-- what was loaded; and an object that is not refreshed keeps its values after the commit.
--
-- Not modelled: log lines, messages, prompts and waiting times, the TTL of a progress hash, the tasks
-- that a lock enqueues after its commit, the comparison that a grading starts, the decoding of an access
-- token, the files of the skill mapping, HTTP routing and schemas, and the other services (essays and
-- their ingestion, classes, the worklist, integrity, reports and exports).
pub mod Prelude
pub mod Progress
pub mod Models
pub mod Grades
pub mod Regrades
pub mod Resolutions
pub mod Parsing
pub mod Assignments
pub mod LanguageModel
pub mod Grading
pub mod Batch
pub mod Tasks
pub mod Timeline
pub mod Auth
pub mod Rubrics
pub mod Matching
pub mod Skills
pub mod Roster
pub mod Resubmission
pub mod Examples
