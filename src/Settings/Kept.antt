-- ===== src/Settings/Kept.antt =====
-- The proofs of the local models under the requests on the model settings.
use ai_kaeyris.Prelude.{
  ℕ, ◌≡◌, refl, ap, ◌∙◌, Bool, true, false, ◌||◌, not, Option, none, some, List, ◌==◌, ==_refl, ◌⊎◌,
  arith, ok, inl, inr, Result-cases, Bool-cases,
}
use ai_kaeyris.Text.{Text, strip, lstrip, rstrip}
use ai_kaeyris.Prelude.{head?}
use ai_kaeyris.Table.{
  first, first-update_where, select-update_where_ne, select-insert_ne, first-insert_absent,
  apply_first,
}
use ai_kaeyris.Models.{Db, ModelSettings, ModelProvider, cloud, LocalModelCategory}
use ai_kaeyris.Jobs.Adapters.{truthy}
use ai_kaeyris.LocalModels.{Host}
use ai_kaeyris.Settings.{require_local_model_validation_hash}
use ai_kaeyris.Settings.Patch.{
  ModelSettingsPatch, value_of, if_set, if_some, patched, upserted, provider_field, path_field,
  hash_field, new_provider, new_path, new_settings, is_local, needs_validation, needs_proof,
  settings_of, effective_path, proof_field,
}
use ai_kaeyris.Settings.Requests.{required_local_validation_hash_if_needed}
use ai_kaeyris.Settings.Proofs.{
  is_backed, is_proven, unasked, require_local_model_validation_hash-is_backed,
}

abbrev pub row_or_new : ℕ → Option ModelSettings → ModelSettings
row_or_new uid none = new_settings uid
row_or_new uid (some r) = r

-- The hash of a category among the two that are required.
abbrev hash_for : LocalModelCategory → Option Text → Option Text → Option Text
hash_for LocalModelCategory.transcription transcription_hash summary_hash = transcription_hash
hash_for LocalModelCategory.summary transcription_hash summary_hash = summary_hash

apart_row :
    (other uid : ℕ)
    → (other == uid) ≡ false
    → (r : ModelSettings) → settings_of uid r ≡ true
    → settings_of other r ≡ false
apart_row other uid apart r h = ground arith

pub upserted-found :
    (uid : ℕ) (p : ModelSettingsPatch) (th sh : Option Text) (current : Option ModelSettings)
    (rows : List ModelSettings)
    → first (settings_of uid) rows ≡ current
    → first (settings_of uid) (upserted uid (patched p th sh) current rows)
      ≡ some (patched p th sh (row_or_new uid current))
upserted-found uid p th sh none rows absent =
    first-insert_absent (settings_of uid) (patched p th sh (new_settings uid)) rows absent
      (==_refl uid)
upserted-found uid p th sh (some row) rows found =
    first-update_where (settings_of uid) (patched p th sh) rows (λ r h. h)
    ∙ ap (apply_first (patched p th sh)) found

pub upserted-others :
    (uid other : ℕ) (p : ModelSettingsPatch) (th sh : Option Text) (current : Option ModelSettings)
    (rows : List ModelSettings)
    → (other == uid) ≡ false
    → first (settings_of other) (upserted uid (patched p th sh) current rows)
      ≡ first (settings_of other) rows
upserted-others uid other p th sh none rows apart =
    ap head? (
      select-insert_ne (settings_of other) (patched p th sh (new_settings uid)) rows (ground arith))
upserted-others uid other p th sh (some row) rows apart = ap head? (
    select-update_where_ne (settings_of other) (settings_of uid) (patched p th sh) rows
      (apart_row other uid apart) (apart_row other uid apart))

implied : {a b : Bool} → a ≡ true → (not a || b) ≡ true → b ≡ true
implied {a = true} h k = k
implied {a = false} h k = cc

implies : {a b : Bool} → (a ≡ true → b ≡ true) → (not a || b) ≡ true
implies {a = true} h = h refl
implies {a = false} h = refl

-- Settings that are new are judged as those of a cloud.
new_row :
    (provider : Option (Option ModelProvider)) (path : Option (Option Text))
    → needs_proof provider path (some cloud) none none ≡ false
    → needs_proof provider path none none none ≡ false
new_row none path quiet = ground arith
new_row (some none) path quiet = ground arith
new_row (some (some p)) path quiet = ground arith

module _ (host : Host) (sha : Text → Text)
    (sha-truthy : (t : Text) → truthy (some (sha t)) ≡ true) where
  is_backed-if_some :
      (uid : ℕ) (category : LocalModelCategory) (path : Option (Option Text))
      (old hash : Option Text) (db : Db)
      → is_backed host sha uid category (if_set path old) hash db ≡ true
      → is_backed host sha uid category (if_some (value_of path) old) hash db ≡ true
  unfolding strip lstrip rstrip
  is_backed-if_some uid category none old hash db h = h
  is_backed-if_some uid category (some none) old hash db h = ground arith
  is_backed-if_some uid category (some (some t)) old hash db h = h

  required-is_backed :
      (now uid : ℕ) (category : LocalModelCategory) (p : ModelSettingsPatch)
      (current : Option ModelSettings) (hash : Option Text) (db : Db)
      → required_local_validation_hash_if_needed host sha now uid current p category db ≡ ok hash
      → ((needs_validation category current p ≡ false) × (hash ≡ none))
        ⊎ ((h : Text) × (hash ≡ some h)
            × (is_backed host sha uid category (effective_path category current p) (some h) db
                ≡ true))
  unfolding required_local_validation_hash_if_needed
  required-is_backed now uid category p current hash db asked =
      elim (Bool-cases (needs_validation category current p)) [
        | inr quiet ↦ inl (quiet, ground arith)
        | inl needed ↦
            elim (Result-cases (
              require_local_model_validation_hash host sha now uid category
                (effective_path category current p) (proof_field category p) db)) [
                  | inr (e, refused) ↦ inl (ground arith, ground arith)
                  | inl (h, given) ↦ inr (
                    h,
                    ground arith,
                    require_local_model_validation_hash-is_backed host sha sha-truthy now uid
                        category _ _ db h given,
                  )
                ]
      ]

  -- One category of the row that replaces another one.
  slice-is_proven :
      (uid : ℕ) (category : LocalModelCategory) (provider : Option (Option ModelProvider))
      (path : Option (Option Text)) (hash : Option Text) (old_provider : Option ModelProvider)
      (old_path old_hash : Option Text) (db : Db)
      → ((needs_proof provider path old_provider old_path old_hash ≡ false) × (hash ≡ none))
        ⊎ ((h : Text) × (hash ≡ some h)
            × (is_backed host sha uid category (if_set path old_path) (some h) db ≡ true))
      → (is_local old_provider ≡ true → is_backed host sha uid category old_path old_hash db ≡ true)
      → is_local (if_set provider old_provider) ≡ true
      → is_backed host sha uid category
          (if_some (value_of path) old_path)
          (if_some hash old_hash)
          db
        ≡ true
  slice-is_proven uid category provider path hash old_provider old_path old_hash db (inl (quiet, e))
        before now_local =
      rw (e, (unasked provider path old_provider old_path old_hash quiet now_local).1)
        (before (unasked provider path old_provider old_path old_hash quiet now_local).0)
  slice-is_proven uid category provider path hash old_provider old_path old_hash db
        (inr (h, e, backed)) before now_local =
      rw (e) (is_backed-if_some uid category path old_path (some h) db backed)

  -- What is required on account of the row that there is, or of none.
  asked_of-row :
      (uid : ℕ) (category : LocalModelCategory) (p : ModelSettingsPatch)
      (current : Option ModelSettings) (hash : Option Text) (db : Db)
      → ((needs_validation category current p ≡ false) × (hash ≡ none))
        ⊎ ((h : Text) × (hash ≡ some h)
            × (is_backed host sha uid category (effective_path category current p) (some h) db
                ≡ true))
      → ((needs_proof
              (new_provider category p)
              (new_path category p)
              (provider_field category (row_or_new uid current))
              (path_field category (row_or_new uid current))
              (hash_field category (row_or_new uid current))
            ≡ false)
          × (hash ≡ none))
        ⊎ ((h : Text) × (hash ≡ some h)
            × (is_backed host sha uid category
                  (if_set (new_path category p) (path_field category (row_or_new uid current)))
                  (some h)
                  db
                ≡ true))
  asked_of-row uid LocalModelCategory.transcription p (some r) hash db asked = asked
  asked_of-row uid LocalModelCategory.summary p (some r) hash db asked = asked
  asked_of-row uid LocalModelCategory.transcription p none hash db (inl (quiet, e)) =
      inl (new_row p.transcription_provider p.transcription_local_path quiet, e)
  asked_of-row uid LocalModelCategory.summary p none hash db (inl (quiet, e)) =
      inl (new_row p.summary_provider p.summary_local_path quiet, e)
  asked_of-row uid LocalModelCategory.transcription p none hash db (inr asked) = inr asked
  asked_of-row uid LocalModelCategory.summary p none hash db (inr asked) = inr asked

  was_backed :
      (uid : ℕ) (category : LocalModelCategory) (current : Option ModelSettings) (db : Db)
      → ((r : ModelSettings) → current ≡ some r → is_proven host sha uid category r db ≡ true)
      → is_local (provider_field category (row_or_new uid current)) ≡ true
      → is_backed host sha uid category
          (path_field category (row_or_new uid current))
          (hash_field category (row_or_new uid current))
          db
        ≡ true
  was_backed uid LocalModelCategory.transcription none db before h = ground arith
  was_backed uid LocalModelCategory.summary none db before h = ground arith
  was_backed uid category (some r) db before h = implied h (before r refl)

  -- The row that replaces `old`, with the hashes that were required on account of it.
  pub patched-is_proven :
      (now uid : ℕ) (category : LocalModelCategory) (p : ModelSettingsPatch)
      (current : Option ModelSettings) (th sh : Option Text) (db : Db)
      → required_local_validation_hash_if_needed host sha now uid current p category db
        ≡ ok (hash_for category th sh)
      → ((r : ModelSettings) → current ≡ some r → is_proven host sha uid category r db ≡ true)
      → is_proven host sha uid category (patched p th sh (row_or_new uid current)) db ≡ true
  patched-is_proven now uid LocalModelCategory.transcription p current th sh db asked before =
      implies (
        slice-is_proven uid LocalModelCategory.transcription p.transcription_provider
          p.transcription_local_path th _ _ _ db
          (asked_of-row uid LocalModelCategory.transcription p current th db
            (required-is_backed now uid LocalModelCategory.transcription p current th db asked))
          (was_backed uid LocalModelCategory.transcription current db before))
  patched-is_proven now uid LocalModelCategory.summary p current th sh db asked before = implies (
      slice-is_proven uid LocalModelCategory.summary p.summary_provider p.summary_local_path sh _ _
        _ db
        (asked_of-row uid LocalModelCategory.summary p current sh db
          (required-is_backed now uid LocalModelCategory.summary p current sh db asked))
        (was_backed uid LocalModelCategory.summary current db before))
