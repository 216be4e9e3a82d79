-- ===== src/Jobs/Exec.antt =====
-- A job of app/jobs/jdr.py runs outside any request: it reads and writes the database in
-- transactions of its own, and between these the requests and the other workers run. An action
-- returns or raises, and what was committed before a raise stays committed.
use ai_kaeyris.Prelude.{ℕ, Option, none, some, List, [], ◌∷◌, ◌++◌, Result, ok, err}
use ai_kaeyris.Models.{Db}

-- Why a job gives up for good: the messages of `PermanentJobError`.
pub data Reason : Type 0 where
  session_not_found no_audio_source audio_purged audio_missing audio_reduce_failed : Reason
  audio_source_lost audio_chunking_failed adapter_refused local_settings_missing : Reason
  not_transcribed not_non_diarised no_chunks missing_summaries no_transcription : Reason
  blank_edit no_players no_mapping : Reason

-- `transient`: RQ retries. `unexpected`: any other exception, such as an integrity error.
pub data JobError : Type 0 where
  transient : JobError
  permanent : Reason → JobError
  unexpected : JobError

pub data Phase : Type 0 where
  reducing transcribing failed done : Phase

-- The database, and the calls of the progress reporter so far.
pub record JobState : Type 0 where
  pub db : Db
  pub progress : List (Phase × Option ℕ)

abbrev pub Exec : Type 0 → Type 0
Exec A = JobState → Result JobError A × JobState

abbrev pub continue : {A B : Type 0} → Result JobError A → (A → Exec B) → Exec B
continue (ok a) f s = f a s
continue (err e) f s = (err e, s)

infixl 5 ◌>>=◌ ◌>>◌
abbrev pub ◌>>=◌ : {A B : Type 0} → Exec A → (A → Exec B) → Exec B
◌>>=◌ m f s = continue (m s).0 f (m s).1

abbrev pub ◌>>◌ : {A B : Type 0} → Exec A → Exec B → Exec B
m >> k = m >>= λ _. k

abbrev pub pure : {A : Type 0} → A → Exec A
pure a s = (ok a, s)

abbrev pub raise : {A : Type 0} → JobError → Exec A
raise e s = (err e, s)

abbrev pub lift : {A : Type 0} → Result JobError A → Exec A
lift r s = (r, s)

-- A transaction that only reads.
abbrev pub reading : {A : Type 0} → (Db → Result JobError A) → Exec A
reading f s = (f s.db, s)

-- A transaction that cannot fail.
abbrev pub commit : (Db → Db) → Exec (Unit {0})
commit f s = (ok tt, record s { db = f s.db })

-- A transaction that the database may refuse: it is rolled back.
abbrev pub commit_or : JobError → (Db → Option Db) → Exec (Unit {0})
commit_or e f s = elim (f s.db) [ none ↦ (err e, s) | some db ↦ (ok tt, record s { db = db }) ]

-- What the rest of the system does while the job waits.
abbrev pub elsewhere : (Db → Db) → Exec (Unit {0})
elsewhere w s = (ok tt, record s { db = w s.db })

abbrev pub report : Phase → Option ℕ → Exec (Unit {0})
report phase percent s = (ok tt, record s { progress = s.progress ++ (phase, percent) ∷ [] })
