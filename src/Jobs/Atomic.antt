-- ===== src/Jobs/Atomic.antt =====
-- The artifact jobs of app/jobs/jdr.py, and the points at which a run of one can fail.
use ai_kaeyris.Prelude.{ℕ, ◌≡◌, ◌⊎◌, arith, err}
use ai_kaeyris.Models.{Db}
use ai_kaeyris.Jobs.Exec.{Exec, JobState, JobError}
use ai_kaeyris.Jobs.Runs.{
  Worker, generate_narrative, generate_elements, generate_povs, generate_summary,
}

-- The database is as the rest of the system left it at some wait of the job.
abbrev pub IsUntouched : Worker → Db → Db → Type 0
IsUntouched w before after =
    (after ≡ before) ⊎ (after ≡ w.world 0 before) ⊎ (after ≡ w.world 1 (w.world 0 before))

pub data ArtifactJob : Type 0 where
  narrative_job elements_job povs_job summary_job : ArtifactJob

unfoldable pub generate : Worker → ℕ → ArtifactJob → Exec (Unit {0})
unfolding generate_narrative generate_elements generate_povs generate_summary
generate w sid narrative_job = generate_narrative w sid
generate w sid elements_job = generate_elements w sid
generate w sid povs_job = generate_povs w sid
generate w sid summary_job = generate_summary w sid

-- An artifact job that raises, for whatever reason and at whatever point of its calls of the
-- language model, has written nothing: the database is as it was, or as the rest of the system
-- left it while the job waited.
pub generate_atomic :
    (w : Worker) (sid : ℕ) (job : ArtifactJob) (s : JobState) (e : JobError)
    → (generate w sid job s).0 ≡ err e
    → IsUntouched w s.db (generate w sid job s).1.db
unfolding generate
generate_atomic w sid narrative_job s e h = ground arith
generate_atomic w sid elements_job s e h = ground arith
generate_atomic w sid povs_job s e h = ground arith
generate_atomic w sid summary_job s e h = ground arith
