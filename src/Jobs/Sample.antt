-- ===== src/Jobs/Sample.antt =====
-- A worker for the runs in the modules of tests.
use ai_kaeyris.Prelude.{true, none, some, [], ◌∷◌, err}
use ai_kaeyris.Elements.Reply.{decode_error}
use ai_kaeyris.Text.{codes}
use ai_kaeyris.Models.{Segment}
use ai_kaeyris.Jobs.Adapters.{
  LlmAdapter, answer, TranscriptionAdapter, TranscriptionResult, heard, Factories,
}
use ai_kaeyris.Jobs.Runs.{Worker}

-- A language model that answers every call with "Oui." and a transcriber that hears one segment.
abbrev pub model : LlmAdapter
model = record {
  provider = codes "deepinfra";
  model = codes "m";
  complete = λ i p t. answer (codes "Oui.");
}

abbrev pub spoken_segment : Segment
spoken_segment = record {
  speaker_label = codes "S1";
  start_time = 2;
  end_time = 5;
  text = codes " Bonjour. ";
}

abbrev pub heard_segment : TranscriptionResult
heard_segment = record {
  segments = spoken_segment ∷ [];
  language = codes "fr";
  model_used = codes "w";
  provider = codes "p";
}

abbrev pub transcriber : TranscriptionAdapter
transcriber = record { transcribe = λ i. heard heard_segment }

abbrev pub factories : Factories
factories = record {
  operator_llm = model;
  ollama_llm = λ m. model;
  personal_cloud_llm = λ m k. model;
  local_llm = λ p. model;
  operator_transcription = transcriber;
  personal_cloud_transcription = λ m k. transcriber;
  local_transcription = λ p. transcriber;
  llm_model = codes "m";
  transcription_model = codes "w";
}

abbrev pub worker : Worker
worker = record {
  now = 50;
  fresh = λ i. i;
  factories = factories;
  seconds = λ n. [];
  parsers = record { loads = λ t. err decode_error; fenced = λ t. none; str_of = λ j. [] };
  chunk_max_chars = 100;
  chunk_duration = 10;
  on_disk = λ p. true;
  prepare = λ p. none;
  chunk_files = some 2;
  world = λ i db. db;
}
