-- ===== src/Settings/Invariant.antt =====
-- The requests on the model settings as a whole, and what the jobs may count on.
use ai_kaeyris.Prelude.{
  ℕ, ◌≡◌, refl, sym, ap, ◌∙◌, subst, true, Option, none, some, [], ◌+◌, ==_iff, ◌==◌, arith, Result,
  ok, err, inl, inr, Option-cases, Result-cases, Bool-cases,
}
use ai_kaeyris.Text.{Text, text_eq}
use ai_kaeyris.Table.{first, insert, first-insert_found}
use ai_kaeyris.Models.{Db, ModelSettings, LocalModelCategory, LocalModelValidation}
use ai_kaeyris.Auth.{AuthenticatedKey}
use ai_kaeyris.Jobs.Adapters.{or_else, truthy}
use ai_kaeyris.LocalModels.{Host, normalize_model_path}
use ai_kaeyris.Settings.{
  SettingsError, get_by_hash, require_admin_user, create_local_model_validation, proof_of,
}
use ai_kaeyris.Settings.Patch.{
  ModelSettingsPatch, patched, path_field, hash_field, get_for_user, settings_of, upsert_for_user,
  upserted,
}
use ai_kaeyris.Settings.Requests.{
  Cloud, required_local_validation_hash_if_needed, patch_model_settings,
  post_local_model_validation,
}
use ai_kaeyris.Settings.Proofs.{is_backed, is_proven, AreProven}
use ai_kaeyris.Settings.Kept.{upserted-found, upserted-others, patched-is_proven, row_or_new}

-- The requests that change the settings or their proofs.
pub data SettingsRequest : Type 0 where
  validate : ℕ → ℕ → Text → LocalModelCategory → Text → SettingsRequest
  change : Cloud → ℕ → ModelSettingsPatch → SettingsRequest

abbrev only_db : Result SettingsError (Text × Db) → Result SettingsError Db
only_db (ok r) = ok r.1
only_db (err e) = err e

module _ (host : Host) (sha : Text → Text) where
  abbrev pub settings_request : SettingsRequest → AuthenticatedKey → Db → Result SettingsError Db
  settings_request (validate now ttl token category path) auth db =
      only_db (post_local_model_validation host sha now ttl token auth category path db)
  settings_request (change cloud now p) auth db = patch_model_settings host sha cloud now auth p db

  -- A proof that is there is found after another one was inserted.
  insert-is_backed :
      (uid : ℕ) (category : LocalModelCategory) (path hash : Option Text) (v : LocalModelValidation)
      (db : Db)
      → is_backed host sha uid category path hash db ≡ true
      → is_backed host sha uid category path hash
          (record db { validations = insert v db.validations })
        ≡ true
  insert-is_backed uid category path hash v db backed =
      elim (Option-cases (get_by_hash (or_else hash []) db)) [
        | inl absent ↦ ground arith
        | inr (w, found) ↦ ground (
          arith,
          first-insert_found (λ r. text_eq r.validation_hash (or_else hash [])) v db.validations
              found,
        )
      ]

  -- What a validation that succeeds does to the database.
  create_local_model_validation-inserts :
      (now ttl : ℕ) (token : Text) (uid : ℕ) (category : LocalModelCategory) (path : Text) (db : Db)
      (r : Text × Db)
      → create_local_model_validation host sha now ttl token uid category path db ≡ ok r
      → (v : LocalModelValidation) × (r.1 ≡ record db { validations = insert v db.validations })
  unfolding create_local_model_validation
  create_local_model_validation-inserts now ttl token uid category path db r e =
      elim (Result-cases (normalize_model_path host path)) [
        | inr (problem, bad) ↦ (proof_of host sha 0 0 category [] [], ground arith)
        | inl (normal, good) ↦
            (proof_of host sha (now + ttl) uid category normal token, ground arith)
      ]

  validate-inserts :
      (now ttl : ℕ) (token : Text) (category : LocalModelCategory) (path : Text)
      (auth : AuthenticatedKey) (db db' : Db)
      → settings_request (validate now ttl token category path) auth db ≡ ok db'
      → (v : LocalModelValidation) × (db' ≡ record db { validations = insert v db.validations })
  unfolding post_local_model_validation
  validate-inserts now ttl token category path auth db db' e =
      elim (Result-cases (require_admin_user auth db)) [
        | inr (problem, bad) ↦ (proof_of host sha 0 0 category [] [], ground arith)
        | inl (user, good) ↦
            elim (Result-cases
              (create_local_model_validation host sha now ttl token user.id category path db)) [
                | inr (problem, bad) ↦ (proof_of host sha 0 0 category [] [], ground arith)
                | inl (r, made) ↦
                    let (v, inserted) =
                      create_local_model_validation-inserts now ttl token user.id category path db r
                        made in
                    (v, ground arith)
              ]
      ]

  insert-AreProven :
      (v : LocalModelValidation) (db : Db)
      → AreProven host sha db
      → AreProven host sha (record db { validations = insert v db.validations })
  insert-AreProven v db before uid category r found = ground (
    arith,
    before uid category r found,
    insert-is_backed uid category (path_field category r) (hash_field category r) v db,
  )

  -- What a change that succeeds does to the database.
  patch_model_settings-upserts :
      (cloud : Cloud) (now : ℕ) (auth : AuthenticatedKey) (p : ModelSettingsPatch) (db db' : Db)
      → patch_model_settings host sha cloud now auth p db ≡ ok db'
      → (uid : ℕ) × (th : Option Text) × (sh : Option Text)
        × (required_local_validation_hash_if_needed host sha now uid
              (get_for_user uid db)
              p
              LocalModelCategory.transcription
              db
            ≡ ok th)
        × (required_local_validation_hash_if_needed host sha now uid
              (get_for_user uid db)
              p
              LocalModelCategory.summary
              db
            ≡ ok sh)
        × (db' ≡ upsert_for_user uid (patched p th sh) db)
  unfolding patch_model_settings
  patch_model_settings-upserts cloud now auth p db db' e =
      elim (Result-cases (require_admin_user auth db)) [
        | inr (problem, bad) ↦ (0, none, none, ground arith, ground arith, ground arith)
        | inl (user, good) ↦
            elim (Result-cases (
              required_local_validation_hash_if_needed host sha now user.id
                (get_for_user user.id db) p LocalModelCategory.transcription db)) [
                  | inr (problem, bad) ↦ (0, none, none, ground arith, ground arith, ground arith)
                  | inl (th, e1) ↦
                      elim (Result-cases (
                        required_local_validation_hash_if_needed host sha now user.id
                          (get_for_user user.id db) p LocalModelCategory.summary db)) [
                            | inr (problem, bad) ↦
                                (0, none, none, ground arith, ground arith, ground arith)
                            | inl (sh, e2) ↦ (user.id, th, sh, e1, e2, ground arith)
                          ]
                ]
      ]

abbrev or_that : ModelSettings → Option ModelSettings → ModelSettings
or_that d none = d
or_that d (some r) = r

module _ (host : Host) (sha : Text → Text)
    (sha-truthy : (t : Text) → truthy (some (sha t)) ≡ true) where
  own_row-is_proven :
      (now uid : ℕ) (category : LocalModelCategory) (p : ModelSettingsPatch) (th sh : Option Text)
      (db : Db) (r : ModelSettings)
      → required_local_validation_hash_if_needed host sha now uid
          (get_for_user uid db)
          p
          LocalModelCategory.transcription
          db
        ≡ ok th
      → required_local_validation_hash_if_needed host sha now uid
          (get_for_user uid db)
          p
          LocalModelCategory.summary
          db
        ≡ ok sh
      → AreProven host sha db
      → first
          (settings_of uid)
          (upserted uid (patched p th sh) (get_for_user uid db) db.model_settings)
        ≡ some r
      → is_proven host sha uid category r db ≡ true
  own_row-is_proven now uid category p th sh db r e1 e2 before found =
      subst (λ row. is_proven host sha uid category row db ≡ true) is_new (go category)
    where
      is_new : patched p th sh (row_or_new uid (get_for_user uid db)) ≡ r
      is_new =
          ap (or_that r)
            (sym (upserted-found uid p th sh (get_for_user uid db) db.model_settings refl) ∙ found)

      go :
          (each : LocalModelCategory)
          → is_proven host sha uid each (patched p th sh (row_or_new uid (get_for_user uid db))) db
            ≡ true
      go LocalModelCategory.transcription =
          patched-is_proven host sha sha-truthy now uid LocalModelCategory.transcription p
            (get_for_user uid db) th sh db e1 (before uid LocalModelCategory.transcription)
      go LocalModelCategory.summary =
          patched-is_proven host sha sha-truthy now uid LocalModelCategory.summary p
            (get_for_user uid db) th sh db e2 (before uid LocalModelCategory.summary)

  upsert-AreProven :
      (now uid : ℕ) (p : ModelSettingsPatch) (th sh : Option Text) (db : Db)
      → required_local_validation_hash_if_needed host sha now uid
          (get_for_user uid db)
          p
          LocalModelCategory.transcription
          db
        ≡ ok th
      → required_local_validation_hash_if_needed host sha now uid
          (get_for_user uid db)
          p
          LocalModelCategory.summary
          db
        ≡ ok sh
      → AreProven host sha db
      → AreProven host sha (upsert_for_user uid (patched p th sh) db)
  unfolding upsert_for_user
  upsert-AreProven now uid p th sh db e1 e2 before other category r found =
      elim (Bool-cases (other == uid)) [
        | inl same ↦
            subst (λ u. is_proven host sha u category r db ≡ true) (sym ((==_iff other uid).0 same))
              (own_row-is_proven now uid category p th sh db r e1 e2 before (
                subst
                  (λ u.
                    first (settings_of u)
                      (upserted uid (patched p th sh) (get_for_user uid db) db.model_settings)
                    ≡ some r)
                  ((==_iff other uid).0 same) found))
        | inr apart ↦ before other category r (
            sym (upserted-others uid other p th sh (get_for_user uid db) db.model_settings apart)
            ∙ found)
      ]

  -- Every request keeps the settings of local models proven.
  pub settings_request-AreProven :
      (request : SettingsRequest) (auth : AuthenticatedKey) (db db' : Db)
      → settings_request host sha request auth db ≡ ok db'
      → AreProven host sha db
      → AreProven host sha db'
  settings_request-AreProven (validate now ttl token category path) auth db db' e before =
      let (v, inserted) = validate-inserts host sha now ttl token category path auth db db' e in
      subst (AreProven host sha) (sym inserted) (insert-AreProven host sha v db before)
  settings_request-AreProven (change cloud now p) auth db db' e before =
      let (uid, th, sh, e1, e2, upserted_to) =
        patch_model_settings-upserts host sha cloud now auth p db db' e in
      subst (AreProven host sha) (sym upserted_to)
        (upsert-AreProven now uid p th sh db e1 e2 before)
