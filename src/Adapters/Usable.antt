-- ===== src/Adapters/Usable.antt =====
-- What is true of every adapter that a factory builds.
use ai_kaeyris.Prelude.{◌≡◌, Bool, true, false, Option, arith, is_some, is_empty, ok}
use ai_kaeyris.Text.{Text, codes, text_eq}
use ai_kaeyris.Adapters.Factories.{
  AdapterSettings, Asked, open_ai, OpenAiAdapter, default_base_url, is_local_provider, given_or,
  is_falsy, is_unreachable, validate_base_url_for_container, build_llm_adapter,
  is_transcription_provider, build_transcription_adapter,
}

module _ (lower : Text → Text) (hostname : Text → Option Text) (in_container : Bool)
    (settings : AdapterSettings) (asked : Asked) where
  -- The key that the settings or the caller give.
  abbrev key : Text
  key = given_or asked.api_key settings.api_key

  pub record IsUsableLlm (a : OpenAiAdapter) : Type 0 where
    pub known : is_some (default_base_url a.provider) ≡ true
    pub reachable : is_unreachable lower hostname in_container a.base_url ≡ false
    pub own_key : is_local_provider a.provider ≡ false → a.api_key ≡ key
    pub keyed : is_local_provider a.provider ≡ false → is_empty key ≡ false

  -- A factory builds an adapter of a language model only for a provider that it knows, never with a
  -- loopback address inside a container, and for a provider that is not local only with a key, which
  -- is the caller's or else the operator's.
  pub build_llm_adapter-IsUsableLlm :
      (a : OpenAiAdapter)
      → build_llm_adapter lower hostname in_container settings asked ≡ ok (open_ai a)
      → IsUsableLlm a
  unfolding build_llm_adapter validate_base_url_for_container
  build_llm_adapter-IsUsableLlm a e = record {
    known = ground arith;
    reachable = ground arith;
    own_key = λ cloud. ground arith;
    keyed = λ cloud. ground arith;
  }

  pub record IsUsableTranscription (a : OpenAiAdapter) : Type 0 where
    pub known : is_transcription_provider lower a.provider ≡ true
    pub addressed : text_eq a.provider (codes "local") ≡ true → is_falsy a.base_url ≡ false
    pub own_key : text_eq a.provider (codes "cloud") ≡ true → a.api_key ≡ key
    pub keyed : text_eq a.provider (codes "cloud") ≡ true → is_empty key ≡ false

  -- A factory builds an adapter for transcription only for the provider "local", with an address, or
  -- for the provider "cloud", with a key, which is the caller's or else the operator's.
  pub build_transcription_adapter-IsUsableTranscription :
      (a : OpenAiAdapter)
      → build_transcription_adapter lower settings asked ≡ ok (open_ai a)
      → IsUsableTranscription a
  unfolding build_transcription_adapter
  build_transcription_adapter-IsUsableTranscription a e = record {
    known = ground arith;
    addressed = λ is_local. ground arith;
    own_key = λ is_cloud. ground arith;
    keyed = λ is_cloud. ground arith;
  }
