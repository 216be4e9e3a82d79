-- ===== src/Settings/Patch.antt =====
-- app/services/jdr/auth_router.py: reading and changing the model settings of an administrator, with
-- `upsert_for_user` of db/repositories.py. Of a field of the body that is looked up in
-- `model_fields_set`, none is its absence and some none is null.
use ai_kaeyris.Prelude.{
  ℕ, Bool, true, false, ◌&&◌, ◌||◌, not, Option, none, some, List, is_some, ◌==◌, if◌then◌else◌,
}
use ai_kaeyris.Text.{Text, text_eq}
use ai_kaeyris.Table.{first, update_where, insert}
use ai_kaeyris.Models.{Db, ModelSettings, ModelProvider, cloud, local, LocalModelCategory}
use ai_kaeyris.Jobs.Adapters.{truthy}

pub record ModelSettingsPatch : Type 0 where
  pub transcription_provider : Option (Option ModelProvider)
  pub summary_provider : Option (Option ModelProvider)
  pub transcription_local_path : Option (Option Text)
  pub summary_local_path : Option (Option Text)
  pub transcription_local_validation_id : Option Text
  pub summary_local_validation_id : Option Text
  pub transcription_cloud_model : Option (Option Text)
  pub summary_cloud_model : Option (Option Text)
  pub ollama_model : Option Text
  pub deepinfra_api_key : Option Text

module _ {A : Type 0} where
  -- The value of a field, null when it is absent.
  abbrev pub value_of : Option (Option A) → Option A
  value_of none = none
  value_of (some v) = v

  -- `if field in model_fields_set: row.field = value`
  abbrev pub if_set : Option (Option A) → Option A → Option A
  if_set none old = old
  if_set (some v) old = v

  -- `if value is not None: row.field = value`, also `value or old` of an enumeration
  abbrev pub if_some : Option A → Option A → Option A
  if_some none old = old
  if_some (some a) old = some a

-- ModelSettingsRepository

abbrev pub settings_of : ℕ → ModelSettings → Bool
settings_of uid r = r.user_id == uid

abbrev pub get_for_user : ℕ → Db → Option ModelSettings
get_for_user uid db = first (settings_of uid) db.model_settings

abbrev pub new_settings : ℕ → ModelSettings
new_settings uid = record {
  user_id = uid;
  transcription_provider = none;
  summary_provider = none;
  transcription_local_path = none;
  summary_local_path = none;
  transcription_cloud_model = none;
  summary_cloud_model = none;
  ollama_model = none;
  transcription_local_validation_hash = none;
  summary_local_validation_hash = none;
  deepinfra_api_key = none;
}

-- The changes of `upsert_for_user` to a row; the hashes are those of the two required proofs.
abbrev pub patched : ModelSettingsPatch → Option Text → Option Text → ModelSettings → ModelSettings
patched p transcription_hash summary_hash row = record {
  user_id = row.user_id;
  transcription_provider = if_set p.transcription_provider row.transcription_provider;
  summary_provider = if_set p.summary_provider row.summary_provider;
  transcription_local_path =
      if_some (value_of p.transcription_local_path) row.transcription_local_path;
  summary_local_path = if_some (value_of p.summary_local_path) row.summary_local_path;
  transcription_cloud_model =
      if_some (value_of p.transcription_cloud_model) row.transcription_cloud_model;
  summary_cloud_model = if_some (value_of p.summary_cloud_model) row.summary_cloud_model;
  ollama_model = if_some p.ollama_model row.ollama_model;
  transcription_local_validation_hash =
      if_some transcription_hash row.transcription_local_validation_hash;
  summary_local_validation_hash = if_some summary_hash row.summary_local_validation_hash;
  deepinfra_api_key =
      if truthy p.deepinfra_api_key then p.deepinfra_api_key else row.deepinfra_api_key;
}

abbrev pub upserted :
    ℕ
    → (ModelSettings → ModelSettings)
    → Option ModelSettings
    → List ModelSettings
    → List ModelSettings
upserted uid change none rows = insert (change (new_settings uid)) rows
upserted uid change (some row) rows = update_where (settings_of uid) change rows

unfoldable pub upsert_for_user : ℕ → (ModelSettings → ModelSettings) → Db → Db
upsert_for_user uid change db = record db {
  model_settings = upserted uid change (get_for_user uid db) db.model_settings;
}

-- The columns and fields of one category, which the source looks up by name.
abbrev pub provider_field : LocalModelCategory → ModelSettings → Option ModelProvider
provider_field LocalModelCategory.transcription r = r.transcription_provider
provider_field LocalModelCategory.summary r = r.summary_provider

abbrev pub path_field : LocalModelCategory → ModelSettings → Option Text
path_field LocalModelCategory.transcription r = r.transcription_local_path
path_field LocalModelCategory.summary r = r.summary_local_path

abbrev pub hash_field : LocalModelCategory → ModelSettings → Option Text
hash_field LocalModelCategory.transcription r = r.transcription_local_validation_hash
hash_field LocalModelCategory.summary r = r.summary_local_validation_hash

abbrev pub new_provider : LocalModelCategory → ModelSettingsPatch → Option (Option ModelProvider)
new_provider LocalModelCategory.transcription p = p.transcription_provider
new_provider LocalModelCategory.summary p = p.summary_provider

abbrev pub new_path : LocalModelCategory → ModelSettingsPatch → Option (Option Text)
new_path LocalModelCategory.transcription p = p.transcription_local_path
new_path LocalModelCategory.summary p = p.summary_local_path

abbrev pub proof_field : LocalModelCategory → ModelSettingsPatch → Option Text
proof_field LocalModelCategory.transcription p = p.transcription_local_validation_id
proof_field LocalModelCategory.summary p = p.summary_local_validation_id

abbrev pub is_local : Option ModelProvider → Bool
is_local (some local) = true
is_local _ = false

abbrev pub opt_text_eq : Option Text → Option Text → Bool
opt_text_eq none none = true
opt_text_eq (some s) (some t) = text_eq s t
opt_text_eq _ _ = false

-- The provider, path and hash of the row that there is.
abbrev pub current_provider : LocalModelCategory → Option ModelSettings → Option ModelProvider
current_provider category none = some cloud
current_provider category (some r) = provider_field category r

abbrev pub current_path : LocalModelCategory → Option ModelSettings → Option Text
current_path category none = none
current_path category (some r) = path_field category r

abbrev pub current_hash : LocalModelCategory → Option ModelSettings → Option Text
current_hash category none = none
current_hash category (some r) = hash_field category r

abbrev pub effective_path :
    LocalModelCategory → Option ModelSettings → ModelSettingsPatch → Option Text
effective_path category current p = if_set (new_path category p) (current_path category current)

-- The test of `needs_validation` on the fields: what the body has, and what the row has.
abbrev pub needs_proof :
    Option (Option ModelProvider)
    → Option (Option Text)
    → Option ModelProvider
    → Option Text
    → Option Text
    → Bool
needs_proof provider path old_provider old_path old_hash =
    is_local (if_some (value_of provider) old_provider)
    && (is_some path && not (opt_text_eq (if_set path old_path) old_path)
        || (not (is_local old_provider) || not (truthy old_hash)))

abbrev pub needs_validation : LocalModelCategory → Option ModelSettings → ModelSettingsPatch → Bool
needs_validation category current p =
    needs_proof (new_provider category p) (new_path category p) (current_provider category current)
      (current_path category current) (current_hash category current)
