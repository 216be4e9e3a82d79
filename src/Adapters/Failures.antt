-- ===== src/Adapters/Failures.antt =====
-- Which failures of a call are tried again.
use ai_kaeyris.Prelude.{
  ℕ, ◌≤◌, ◌<◌, ◌≡◌, ◌≢◌, Bool, true, false, ◌&&◌, ◌||◌, Option, none, some, arith, leb, ltb, ◌==◌,
  Result, ok, err,
}
use ai_kaeyris.Text.{Text}
use ai_kaeyris.Adapters.{
  SdkError, api_timeout, api_connection, rate_limit, internal_server, authentication,
  permission_denied, bad_request, not_found, unprocessable_entity, api_status, api_error, os_error,
  unforeseen, CallError, transient_error, permanent_error, uncaught, Outcome, llm_failure,
  transcription_failure, complete, transcribe,
}

-- The status code of the HTTP answer, where there is one.
abbrev pub status_of : SdkError → Option ℕ
status_of api_timeout = none
status_of api_connection = none
status_of rate_limit = some 429
status_of (internal_server code) = some code
status_of authentication = some 401
status_of permission_denied = some 403
status_of bad_request = some 400
status_of not_found = some 404
status_of unprocessable_entity = some 422
status_of (api_status code) = some code
status_of api_error = none
status_of os_error = none
status_of unforeseen = none

abbrev no_answer : SdkError → Bool
no_answer api_timeout = true
no_answer api_connection = true
no_answer _ = false

abbrev retryable_status : Option ℕ → Bool
retryable_status none = false
retryable_status (some code) = code == 429 || leb 500 code && ltb code 600

-- "Retryable: 5xx upstream, timeout, connection error, rate-limit (429)".
unfoldable pub is_retryable : SdkError → Bool
is_retryable e = no_answer e || retryable_status (status_of e)

-- The SDK's own classes: a 429 is a `RateLimitError`, and an `InternalServerError` a 5xx.
abbrev pub IsTyped : SdkError → Type 0
IsTyped (internal_server code) = (500 ≤ code) × (code < 600)
IsTyped (api_status code) = code ≢ 429
IsTyped _ = Unit

abbrev pub is_transient : {A : Type 0} → Result CallError A → Bool
is_transient (err transient_error) = true
is_transient (err permanent_error) = false
is_transient (err uncaught) = false
is_transient (ok a) = false

abbrev pub counted_transient : Outcome → Bool
counted_transient Outcome.transient = true
counted_transient Outcome.permanent = false
counted_transient Outcome.success = false

-- Every failure of a call is transient, for the caller and in the metrics, exactly when it is one
-- that the adapters document as retryable: no answer in time, no connection, or an answer 429 or
-- 5xx. So it is for a completion and for a transcription, whatever the class that the SDK raises.
pub failure-is_retryable :
    (e : SdkError) (provider model : Text) (hint : Option Text)
    → IsTyped e
    → (is_transient (complete (err e)).result ≡ is_retryable e)
      × (counted_transient (complete (err e)).outcome ≡ is_retryable e)
      × (is_transient (transcribe provider model hint (err e)).result ≡ is_retryable e)
      × (counted_transient (transcribe provider model hint (err e)).outcome ≡ is_retryable e)
unfolding complete transcribe llm_failure transcription_failure is_retryable
failure-is_retryable e provider model hint typed = ground arith
