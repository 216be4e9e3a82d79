-- ===== src/Settings/Adapters.antt =====
-- The adapters of the jobs (app/jobs/jdr.py) under the model settings of an administrator.
use ai_kaeyris.Prelude.{
  ℕ, ◌≡◌, ◌⊎◌, refl, true, none, some, List, [], ◌∷◌, arith, Result, ok, err, inl, inr,
  Option-cases, Result-cases,
}
use ai_kaeyris.Text.{Text, strip, lstrip, rstrip}
use ai_kaeyris.Models.{Db, ModelSettings, LocalModelCategory}
use ai_kaeyris.Auth.{AuthenticatedKey}
use ai_kaeyris.Jobs.Adapters.{
  Factories, LlmAdapter, TranscriptionAdapter, load_session_model_settings, truthy,
  build_transcription_adapter_for_user, build_llm_adapter_for_user, resolve_session_owner_id,
}
use ai_kaeyris.LocalModels.{Host}
use ai_kaeyris.Settings.Patch.{get_for_user}
use ai_kaeyris.Settings.Proofs.{AreProven, is_proven}
use ai_kaeyris.Settings.Invariant.{SettingsRequest, settings_request, settings_request-AreProven}

-- Both adapters can be built from the settings of the owner of a session.
abbrev pub AreReady : Factories → ℕ → Db → Type 0
AreReady fs sid db =
    ((a : TranscriptionAdapter) × (build_transcription_adapter_for_user fs
          (load_session_model_settings sid db)
        ≡ ok a))
    × ((a : LlmAdapter) × (build_llm_adapter_for_user fs (load_session_model_settings sid db)
          ≡ ok a))

module _ (host : Host) (sha : Text → Text) (fs : Factories) where
  transcription_of_proven :
      (uid : ℕ) (r : ModelSettings) (db : Db)
      → is_proven host sha uid LocalModelCategory.transcription r db ≡ true
      → (a : TranscriptionAdapter) × (build_transcription_adapter_for_user fs (some r) ≡ ok a)
  unfolding build_transcription_adapter_for_user strip lstrip rstrip
  transcription_of_proven uid r db h =
      elim (Result-cases (build_transcription_adapter_for_user fs (some r))) [
        | inl (a, built) ↦ (a, built)
        | inr (e, bad) ↦ (fs.operator_transcription, ground arith)
      ]

  llm_of_proven :
      (uid : ℕ) (r : ModelSettings) (db : Db)
      → is_proven host sha uid LocalModelCategory.summary r db ≡ true
      → (a : LlmAdapter) × (build_llm_adapter_for_user fs (some r) ≡ ok a)
  unfolding build_llm_adapter_for_user strip lstrip rstrip
  llm_of_proven uid r db h = elim (Result-cases (build_llm_adapter_for_user fs (some r))) [
    | inl (a, built) ↦ (a, built)
    | inr (e, bad) ↦ (fs.operator_llm, ground arith)
  ]

  -- The settings that a job loads are none, or those of an account.
  loaded_settings :
      (sid : ℕ) (db : Db)
      → (load_session_model_settings sid db ≡ none)
        ⊎ ((uid : ℕ) × (load_session_model_settings sid db ≡ get_for_user uid db))
  unfolding load_session_model_settings
  loaded_settings sid db = elim (Option-cases (resolve_session_owner_id sid db)) [
    | inl nobody ↦ inl (ground arith)
    | inr (uid, owner) ↦ inr (uid, ground arith)
  ]

  proven-AreReady : (sid : ℕ) (db : Db) → AreProven host sha db → AreReady fs sid db
  unfolding build_transcription_adapter_for_user build_llm_adapter_for_user
  proven-AreReady sid db proven = elim (loaded_settings sid db) [
    | inl nothing ↦ rw (nothing) ((fs.operator_transcription, refl), (fs.operator_llm, refl))
    | inr (uid, owner) ↦ elim (Option-cases (get_for_user uid db)) [
      | inl absent ↦ rw (owner, absent) ((fs.operator_transcription, refl), (fs.operator_llm, refl))
      | inr (r, found) ↦
          rw (owner, found)
            (
              transcription_of_proven uid r db
                  (proven uid LocalModelCategory.transcription r found),
              llm_of_proven uid r db (proven uid LocalModelCategory.summary r found),
            )
    ]
  ]

-- Requests one after the other; one that fails is rolled back.
abbrev committed : {E : Type 0} → Db → Result E Db → Db
committed db (ok db') = db'
committed db (err e) = db

abbrev pub settings_requests :
    Host → (Text → Text) → List (SettingsRequest × AuthenticatedKey) → Db → Db
settings_requests host sha [] db = db
settings_requests host sha (r ∷ requests) db =
    settings_requests host sha requests (committed db (settings_request host sha r.0 r.1 db))

module _ (host : Host) (sha : Text → Text)
    (sha-truthy : (t : Text) → truthy (some (sha t)) ≡ true) where
  settings_requests-AreProven :
      (requests : List (SettingsRequest × AuthenticatedKey)) (db : Db)
      → AreProven host sha db
      → AreProven host sha (settings_requests host sha requests db)
  settings_requests-AreProven [] db before = before
  settings_requests-AreProven ((request, auth) ∷ requests) db before =
      elim (Result-cases (settings_request host sha request auth db)) [
        | inl (db', done) ↦
            rw (settings_requests, done)
              (settings_requests-AreProven requests db'
                (settings_request-AreProven host sha sha-truthy request auth db db' done before))
        | inr (e, failed) ↦
            rw (settings_requests, failed) (settings_requests-AreProven requests db before)
      ]

  -- Whatever requests to validate local models and to change settings have followed one another,
  -- starting from no settings at all: settings that choose a local model have a path and a proof
  -- that it was accepted for this account, this category and this path, and the jobs of every
  -- session get both adapters that they build from the settings of its owner. SHA-256 gives no
  -- empty text.
  pub settings_requests-AreReady :
      (fs : Factories) (requests : List (SettingsRequest × AuthenticatedKey)) (sid : ℕ) (db : Db)
      → db.model_settings ≡ []
      → AreProven host sha (settings_requests host sha requests db)
        × AreReady fs sid (settings_requests host sha requests db)
  settings_requests-AreReady fs requests sid db fresh =
      (proven, proven-AreReady host sha fs sid _ proven)
    where
      proven : AreProven host sha (settings_requests host sha requests db)
      proven = settings_requests-AreProven requests db (λ uid category r found. ground arith)
