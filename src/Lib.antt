-- ===== src/Lib.antt =====
-- AI-Kaeyris: a server that turns the recordings of role-playing sessions into transcriptions and
-- written accounts. Game masters upload a recording; a worker transcribes it, and, on request, has
-- a language model write a summary, a narrative, a card of elements and points of view.
--
-- The parts of the program, and the files that model them:
-- - app/core/models.py and app/services/jdr/db/models.py: Models. The database is a record of tables,
--   a table the list of its rows. Table has SELECT, UPDATE, DELETE and INSERT.
-- - app/services/jdr/db/repositories.py: Repositories, one function for each method that reads or
--   writes the rows of a session. What a constraint of the database may refuse is an Option.
--   Repositories/Slice collects the rows of one session but its job rows, on which Sessions/Spec states
--   the abstract operations; Sessions/JobRows has the job rows.
-- - app/services/jdr/logic.py: Sessions, from the upload of the audio to the deletion of a session.
--   Sessions/Requests has the requests as the routes make them, each with commit or rollback
--   (get_db_session of app/core/db.py). Campaigns has the creation, change and deletion of campaigns,
--   and Players the keys of players, which Auth then verifies. Characters has the characters of the
--   players (PJs) and the sessions they take part in.
-- - app/services/jdr/campaign_context.py and session_access.py: Access, the campaign that a caller
--   acts in and the sessions that it may see.
-- - app/services/jdr/router.py and schemas.py: Routes, on top of Access, Sessions and Jobs.
--   Routes/Generation has the routes that enqueue a job with their guards, Routes/Artifacts what is
--   read and edited, Routes/Exports the Markdown of it, Routes/Sessions what creates, changes and
--   deletes sessions, Routes/Campaigns and Routes/Characters the routes of campaigns, characters and
--   players, Routes/Jobs the projection of RQ's jobs and Routes/Events the event stream.
--   Routes/Survival follows a request from the guard of its route to the end of its job.
-- - app/services/jdr/auth_router.py: AccountRoutes, the setup, the login and the accounts, and Settings,
--   the model settings with app/services/jdr/local_model_validation.py and model_catalog.py. The jobs
--   choose their adapters by these settings. app/adapters/local_models.py: LocalModels.
-- - app/services/jdr/markdown.py: Markdown, the exported documents.
-- - app/adapters/llm.py and transcription.py: Adapters, what a call makes of the answers and errors
--   of the SDK and of the local runtimes. The jobs see the adapters as records of functions.
-- - app/jobs/jdr.py: Jobs. Jobs/Runs has the five jobs as sequences of transactions; between two of
--   them an arbitrary function of the database stands for what the requests and the other workers
--   do meanwhile (`world`). Jobs/Generation, Jobs/Transcription, Jobs/Writes, Jobs/Source and
--   Jobs/Adapters have their steps.
-- - app/services/jdr/text_chunker.py: Chunker, which the transcription and the summary job call.
-- - app/services/jdr/elements.py: Elements; Elements/Reply has _parse_elements_response of
--   app/jobs/jdr.py; `json.loads` may raise what _try_parse_json catches, or something else.
-- - app/core/users.py: Users. app/core/auth.py: Auth, which asks Users about web sessions.
-- - app/core/rate_limit.py: RateLimit. Redis is an interface of commands and of what they are
--   documented to do; RateLimit/Runs has the requests of a client over time as a step relation.
--   _check_and_record sends two pipelines; what the server does for others between them is a parameter,
--   which in RateLimit/Runs leaves the set of the client alone, so that checks of one client that
--   overlap, the race that the source mentions, are outside these runs.
-- - app/services/jdr/batch/router.py: AudioRange, the byte ranges of the audio route.
--
-- Prelude and Text have what all share; a text is the list of its code points, and numbers are the
-- native natural numbers. Samples and the modules called Tests have data and runs.
--
-- Parameters: the clock, new identifiers, Argon2, SHA-256, `str.lower` and the database's `lower`,
-- `int`, `json.loads`, the regular expression for a fenced block, ffmpeg and ffprobe, RQ, Redis, the
-- calls of the OpenAI SDK and of the local runtimes, the file system that the probe of a local model
-- sees, and the formats of dates, identifiers and seconds; the jobs take the adapters of language
-- models and transcribers. Identifiers and instants are numbers. Offsets in a recording are whole
-- numbers of a fixed fraction of a second. The percentages of the progress are rounded from exact
-- quotients.
--
-- The loop of the chunker is recursion on fuel, one more than the length of the text: each round
-- takes at least one character away. The loop that sends a range has the length of the range as its
-- fuel: each round sends at least one byte of it. The event stream of a job polls RQ until the job is
-- over, and its fuel is a number of polls: when poll n finds the job over or forgotten, n + 2 are
-- enough. All else is structural.
--
-- Foreign keys are enforced, as PostgreSQL does, which docker-compose runs; SQLite, the default, does
-- so only on a PRAGMA that the code does not send.
--
-- Not modelled: the live routes, which are stubs, the listing of accounts, the mocks of the adapters,
-- configuration, logging, metrics and tracing, and the deletion of temporary files, which is best
-- effort.
pub mod Prelude
pub mod Text
pub mod Table
pub mod Models
pub mod Samples
pub mod Repositories
pub mod Sessions
pub mod Settings
pub mod Jobs
pub mod LocalModels
pub mod Users
pub mod Campaigns
pub mod Auth
pub mod Players
pub mod Elements
pub mod Access
pub mod AccountRoutes
pub mod Characters
pub mod Routes
pub mod Markdown
pub mod Adapters
pub mod AudioRange
pub mod RateLimit
pub mod Chunker
