-- ===== src/Adapters.antt =====
-- app/adapters/llm.py and app/adapters/transcription.py: what the adapters make of the OpenAI SDK's
-- answers and errors, and of their local runtimes. A call of the SDK or of a runtime is a parameter.
pub mod Factories
pub mod Failures
pub mod Usable
mod Tests
use ai_kaeyris.Prelude.{
  ℕ, Bool, true, false, ◌&&◌, not, Option, none, some, List, [], ◌∷◌, ◌++◌, is_empty, leb, ltb,
  ◌==◌, if◌then◌else◌, Result, ok, err, ◌>>=◌,
}
use ai_kaeyris.Text.{Text, codes, strip}
use ai_kaeyris.Models.{Segment}
use ai_kaeyris.Jobs.Adapters.{LlmReply, answer, TranscriptionResult, TranscriptionReply, heard}

-- The errors of the SDK, by class; `api_status` is an `APIStatusError` of no typed class, with its
-- status code; `internal_server` has the code of the answer too. `os_error` is the audio file's, and `unforeseen` any other exception.
pub data SdkError : Type 0 where
  api_timeout api_connection rate_limit : SdkError
  internal_server api_status : ℕ → SdkError
  authentication permission_denied bad_request not_found unprocessable_entity : SdkError
  api_error os_error unforeseen : SdkError

-- The `outcome` label of the metrics.
pub data Outcome : Type 0 where
  success transient permanent : Outcome

-- `TransientLLMError` or `TransientTranscriptionError`, the permanent ones, or what no clause
-- catches.
pub data CallError : Type 0 where
  transient_error permanent_error uncaught : CallError

-- How a call ends, and the label that its metric is counted under.
pub record Call (A : Type 0) : Type 0 where
  pub result : Result CallError A
  pub outcome : Outcome

abbrev pub by_status : ℕ → CallError
by_status code = if leb 500 code && ltb code 600 then transient_error else permanent_error

-- The `except` clauses of `complete`; the OSError clause is the transcription's alone.
unfoldable pub llm_failure : SdkError → CallError
llm_failure api_timeout = transient_error
llm_failure api_connection = transient_error
llm_failure rate_limit = transient_error
llm_failure (internal_server code) = transient_error
llm_failure authentication = permanent_error
llm_failure permission_denied = permanent_error
llm_failure bad_request = permanent_error
llm_failure not_found = permanent_error
llm_failure unprocessable_entity = permanent_error
llm_failure (api_status code) = by_status code
llm_failure api_error = permanent_error
llm_failure os_error = uncaught
llm_failure unforeseen = uncaught

unfoldable pub transcription_failure : SdkError → CallError
unfolding llm_failure
transcription_failure os_error = permanent_error
transcription_failure api_timeout = llm_failure api_timeout
transcription_failure api_connection = llm_failure api_connection
transcription_failure rate_limit = llm_failure rate_limit
transcription_failure (internal_server code) = llm_failure (internal_server code)
transcription_failure authentication = llm_failure authentication
transcription_failure permission_denied = llm_failure permission_denied
transcription_failure bad_request = llm_failure bad_request
transcription_failure not_found = llm_failure not_found
transcription_failure unprocessable_entity = llm_failure unprocessable_entity
transcription_failure (api_status code) = llm_failure (api_status code)
transcription_failure api_error = llm_failure api_error
transcription_failure unforeseen = llm_failure unforeseen

-- The label that the clauses have set when `finally` runs: what no clause catches leaves "success".
abbrev pub outcome_of : CallError → Outcome
outcome_of transient_error = transient
outcome_of permanent_error = permanent
outcome_of uncaught = success

-- OpenAICompatibleLLMAdapter.complete

-- `resp.choices[0].message.content or ""`: the contents of the choices.
abbrev pub first_choice : List (Option Text) → Result CallError Text
first_choice [] = err uncaught
first_choice (none ∷ choices) = ok []
first_choice (some content ∷ choices) = ok content

unfoldable pub complete : Result SdkError (List (Option Text)) → Call Text
unfolding llm_failure
complete (ok choices) = record { result = first_choice choices; outcome = success }
complete (err e) = record { result = err (llm_failure e); outcome = outcome_of (llm_failure e) }

-- OpenAICompatibleTranscriptionAdapter.transcribe

-- A segment of the answer: its fields may be missing.
pub record RawSegment : Type 0 where
  pub speaker : Option Text
  pub start : Option ℕ
  pub stop : Option ℕ
  pub text : Option Text

pub record RawTranscription : Type 0 where
  pub segments : List RawSegment
  pub language : Option Text

abbrev or_zero : Option ℕ → ℕ
or_zero none = 0
or_zero (some n) = n

-- `value or default`, where an empty text counts as none.
abbrev pub text_or : Option Text → Text → Text
text_or none d = d
text_or (some []) d = d
text_or (some (c ∷ s)) d = c ∷ s

unfoldable pub extract_segment : RawSegment → Segment
extract_segment raw = record {
  speaker_label = text_or raw.speaker (codes "unknown");
  start_time = or_zero raw.start;
  end_time = or_zero raw.stop;
  text = strip (text_or raw.text []);
}

unfoldable pub extract_segments : List RawSegment → List Segment
unfolding extract_segment
extract_segments [] = []
extract_segments (raw ∷ rest) = extract_segment raw ∷ extract_segments rest

module _ (provider model : Text) (language_hint : Option Text) where
  -- The result of an answer that came back.
  unfoldable pub heard_from : RawTranscription → TranscriptionResult
  unfolding extract_segments
  heard_from raw = record {
    segments = extract_segments raw.segments;
    language = text_or raw.language (text_or language_hint []);
    model_used = provider ++ (codes ":" ++ model);
    provider = provider;
  }

  unfoldable pub transcribe : Result SdkError RawTranscription → Call TranscriptionResult
  unfolding transcription_failure heard_from
  transcribe (ok answered) = record { result = ok (heard_from answered); outcome = success }
  transcribe (err e) = record {
    result = err (transcription_failure e);
    outcome = outcome_of (transcription_failure e);
  }

-- Local adapters: how a call in a thread of its own ends when it does not return.
pub data LocalError : Type 0 where
  timeout module_not_found memory_error own_permanent any_exception : LocalError

abbrev pub local_failure : LocalError → CallError
local_failure timeout = transient_error
local_failure module_not_found = permanent_error
local_failure memory_error = permanent_error
local_failure own_permanent = permanent_error
local_failure any_exception = permanent_error

-- LocalLLMAdapter: no choice at all is an error of the adapter's own.
unfoldable pub complete_local : Result LocalError (List (Option Text)) → Result CallError Text
complete_local (err e) = err (local_failure e)
complete_local (ok []) = err (local_failure own_permanent)
complete_local (ok (text ∷ choices)) = ok (strip (text_or text []))

-- LocalFasterWhisperTranscriptionAdapter: the runtime names no speaker.
abbrev unnamed : RawSegment → RawSegment
unnamed s = record s { speaker = none }

unfoldable pub local_segments : List RawSegment → List Segment
unfolding extract_segment
local_segments [] = []
local_segments (s ∷ rest) = extract_segment (unnamed s) ∷ local_segments rest

unfoldable pub transcribe_local :
    Text → Option Text → Result LocalError RawTranscription → Result CallError TranscriptionResult
unfolding local_segments
transcribe_local model hint (err e) = err (local_failure e)
transcribe_local model hint (ok answered) = ok (record {
  segments = local_segments answered.segments;
  language = text_or answered.language (text_or hint []);
  model_used = codes "local:" ++ model;
  provider = codes "local";
})
