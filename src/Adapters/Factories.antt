-- ===== src/Adapters/Factories.antt =====
-- app/adapters: the factories that build an adapter from the settings and what a caller asks for.
-- `lower` is Python's `str.lower`, and `hostname` is `urlparse(url).hostname`.
use ai_kaeyris.Prelude.{
  Bool, true, false, ◌&&◌, ◌||◌, not, Option, none, some, [], ◌∷◌, is_empty, if◌then◌else◌, Result,
  ok, guard, require_some, ◌>>=◌, ◌>>◌,
}
use ai_kaeyris.Text.{Text, codes, strip, text_eq, starts_with}
use ai_kaeyris.Adapters.{text_or}

-- The settings of one kind of adapter: `LLM_...` or `TRANSCRIPTION_...`.
pub record AdapterSettings : Type 0 where
  pub provider : Text
  pub model : Text
  pub api_key : Text
  pub base_url : Text

-- The arguments of a factory; `none` is one that was omitted.
pub record Asked : Type 0 where
  pub provider : Option Text
  pub model : Option Text
  pub api_key : Option Text
  pub base_url : Option Text

-- The `RuntimeError`s.
pub data ConfigError : Type 0 where
  unknown_provider missing_api_key missing_base_url loopback_in_container : ConfigError

pub record OpenAiAdapter : Type 0 where
  pub provider : Text
  pub model : Text
  pub api_key : Text
  pub base_url : Option Text

pub data Built : Type 0 where
  mock : Built
  open_ai : OpenAiAdapter → Built

-- `_DEFAULT_BASE_URLS`: `none` is no provider, `some none` the SDK's own default.
unfoldable pub default_base_url : Text → Option (Option Text)
default_base_url p =
    if text_eq p (codes "deepinfra")
    then some (some (codes "https://api.deepinfra.com/v1/openai"))
    else if text_eq p (codes "openai")
    then some none
    else if text_eq p (codes "groq")
    then some (some (codes "https://api.groq.com/openai/v1"))
    else if text_eq p (codes "ollama")
    then some (some (codes "http://localhost:11434/v1"))
    else if text_eq p (codes "vllm")
    then some (some (codes "http://localhost:8000/v1"))
    else if text_eq p (codes "together")
    then some (some (codes "https://api.together.xyz/v1"))
    else none

-- `_LOCAL_PROVIDERS`
unfoldable pub is_local_provider : Text → Bool
is_local_provider p = text_eq p (codes "ollama") || text_eq p (codes "vllm")

-- `not value`
abbrev pub is_falsy : Option Text → Bool
is_falsy none = true
is_falsy (some t) = is_empty t

-- `a or b`
abbrev or_else : Option Text → Option Text → Option Text
or_else none b = b
or_else (some []) b = b
or_else (some (c ∷ s)) b = some (c ∷ s)

-- `argument if argument is not None else setting`
abbrev pub given_or : Option Text → Text → Text
given_or none setting = setting
given_or (some t) setting = t

module _ (lower : Text → Text) where
  abbrev pub chosen_provider : AdapterSettings → Asked → Text
  chosen_provider settings asked = lower (strip (text_or asked.provider settings.provider))

  module _ (hostname : Text → Option Text) (in_container : Bool) where
    abbrev loopback_host : Option Text → Bool
    loopback_host none = false
    loopback_host (some host) =
        not (is_empty host)
        && (text_eq host (codes "localhost")
            || text_eq host (codes "0.0.0.0")
            || text_eq host (codes "::1")
            || starts_with (codes "127.") host)

    unfoldable pub is_loopback_base_url : Text → Bool
    unfolding starts_with
    is_loopback_base_url url = loopback_host (hostname url)

    abbrev pub is_unreachable : Option Text → Bool
    is_unreachable none = false
    is_unreachable (some url) = not (is_empty url) && in_container && is_loopback_base_url url

    unfoldable pub validate_base_url_for_container : Option Text → Result ConfigError (Option Text)
    validate_base_url_for_container url = do
      guard (not (is_unreachable url)) loopback_in_container
      ok url

    -- The address asked for, if it is not blank, or else the setting's or the provider's default.
    abbrev llm_base_url : AdapterSettings → Asked → Option Text → Option Text
    llm_base_url settings asked default =
        or_else (some (strip (text_or asked.base_url [])))
          (or_else (some (strip settings.base_url)) default)

    unfoldable pub build_llm_adapter : AdapterSettings → Asked → Result ConfigError Built
    unfolding default_base_url is_local_provider validate_base_url_for_container
    build_llm_adapter settings asked =
        let provider = chosen_provider settings asked in
        let key = given_or asked.api_key settings.api_key in
        if text_eq provider (codes "mock") then ok mock else (do
          default ← require_some (default_base_url provider) unknown_provider
          guard (not (is_empty key) || is_local_provider provider) missing_api_key
          url ← validate_base_url_for_container (llm_base_url settings asked default)
          ok (
              open_ai (record {
                provider = provider;
                model = text_or asked.model settings.model;
                api_key = text_or (some key) (codes "noop");
                base_url = url;
              })))

    unfoldable pub build_personal_cloud_llm_adapter :
        AdapterSettings → Text → Text → Result ConfigError Built
    unfolding build_llm_adapter
    build_personal_cloud_llm_adapter settings model key = build_llm_adapter settings (record {
      provider = some (codes "deepinfra");
      model = some model;
      api_key = some key;
      base_url = some (codes "https://api.deepinfra.com/v1/openai");
    })

  -- Transcription knows the providers "cloud" and "local", neither with a default address.
  unfoldable pub is_transcription_provider : Text → Bool
  is_transcription_provider p = text_eq p (codes "cloud") || text_eq p (codes "local")

  abbrev transcription_base_url : AdapterSettings → Asked → Option Text
  transcription_base_url settings asked =
      or_else (some (strip (text_or asked.base_url []))) (or_else (some settings.base_url) none)

  unfoldable pub build_transcription_adapter : AdapterSettings → Asked → Result ConfigError Built
  unfolding is_transcription_provider
  build_transcription_adapter settings asked =
      let provider = chosen_provider settings asked in
      let key = given_or asked.api_key settings.api_key in
      let url = transcription_base_url settings asked in
      if text_eq provider (codes "mock") then ok mock else (do
        guard (is_transcription_provider provider) unknown_provider
        guard (not (text_eq provider (codes "local") && is_falsy url)) missing_base_url
        guard (not (text_eq provider (codes "cloud") && is_empty key)) missing_api_key
        ok (
            open_ai (record {
              provider = provider;
              model = text_or asked.model settings.model;
              api_key = text_or (some key) (codes "noop");
              base_url = url;
            })))

  unfoldable pub build_personal_cloud_transcription_adapter :
      AdapterSettings → Text → Text → Result ConfigError Built
  unfolding build_transcription_adapter
  build_personal_cloud_transcription_adapter settings model key =
      build_transcription_adapter settings (record {
        provider = some (codes "cloud");
        model = some model;
        api_key = some key;
        base_url = some (codes "https://api.deepinfra.com/v1/openai");
      })
