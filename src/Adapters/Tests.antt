-- ===== src/Adapters/Tests.antt =====
-- Runs of the adapters and their factories, and instances of their theorems.
use ai_kaeyris.Prelude.{◌≡◌, refl, true, false, Option, none, some, [], ok, err, arith}
use ai_kaeyris.Text.{Text, codes, strip, lstrip, rstrip, is_space, text_eq, starts_with}
use ai_kaeyris.Adapters.{
  uncaught, permanent_error, Outcome, api_status, unforeseen, llm_failure, complete, transcribe,
  complete_local,
}
use ai_kaeyris.Adapters.Factories.{
  AdapterSettings, Asked, loopback_in_container, OpenAiAdapter, default_base_url, is_local_provider,
  is_loopback_base_url, validate_base_url_for_container, build_llm_adapter,
}
use ai_kaeyris.Adapters.Failures.{
  is_retryable, is_transient, counted_transient, failure-is_retryable,
}

-- An answer 503 of no typed class.
failure-is_retryable_example :
    (is_transient (complete (err (api_status 503))).result ≡ is_retryable (api_status 503))
    × (counted_transient (complete (err (api_status 503))).outcome ≡ is_retryable (api_status 503))
    × (is_transient (transcribe (codes "cloud") (codes "w") none (err (api_status 503))).result
        ≡ is_retryable (api_status 503))
    × (counted_transient
          (transcribe (codes "cloud") (codes "w") none (err (api_status 503))).outcome
        ≡ is_retryable (api_status 503))
failure-is_retryable_example =
    failure-is_retryable (api_status 503) (codes "cloud") (codes "w") none (ground arith)

-- An exception that no clause catches leaves the call counted as a success.
uncaught_counted :
    complete (err unforeseen) ≡ record { result = err uncaught; outcome = Outcome.success }
unfolding complete llm_failure
uncaught_counted = refl

no_completion : complete_local (ok []) ≡ err permanent_error
unfolding complete_local
no_completion = refl

abbrev settings : AdapterSettings
settings = record { provider = codes "ollama"; model = codes "m"; api_key = []; base_url = [] }

abbrev nothing_asked : Asked
nothing_asked = record { provider = none; model = none; api_key = none; base_url = none }

-- The host of "http://localhost:11434/v1", and no other.
abbrev hostname : Text → Option Text
hostname url = elim (starts_with (codes "http://localhost") url) [
  | true ↦ some (codes "localhost")
  | false ↦ none
]

ollama_in_container :
    build_llm_adapter (λ t. t) hostname true settings nothing_asked ≡ err loopback_in_container
unfolding build_llm_adapter validate_base_url_for_container is_loopback_base_url default_base_url
    is_local_provider strip lstrip rstrip is_space text_eq starts_with
ollama_in_container = refl

abbrev cloud : OpenAiAdapter
cloud = record {
  provider = codes "deepinfra";
  model = codes "m";
  api_key = codes "k";
  base_url = some (codes "https://api.deepinfra.com/v1/openai");
}

abbrev deepinfra_asked : Asked
deepinfra_asked = record nothing_asked {
  provider = some (codes " deepinfra ");
  api_key = some (codes "k");
}
