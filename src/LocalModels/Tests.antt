-- ===== src/LocalModels/Tests.antt =====
-- Runs of the probe of a local model.
use ai_kaeyris.Prelude.{◌≡◌, refl, true, false, err}
use ai_kaeyris.Text.{codes, is_space}
use ai_kaeyris.Models.{LocalModelCategory}
use ai_kaeyris.LocalModels.{
  Host, path_not_found, unsupported_format, loaded, memory_error, out_of_memory, probe_local_model,
}

abbrev gguf_host : Host
gguf_host = record {
  resolve = λ p. p;
  exists = λ p. true;
  is_readable = λ p. true;
  is_dir = λ p. false;
  is_file = λ p. true;
  has_model_bin = λ p. false;
  suffix = λ p. codes ".gguf";
  load_whisper = λ p. loaded;
  load_llama = λ p. memory_error;
  is_slow = λ p. false;
}

blank_path :
    probe_local_model gguf_host LocalModelCategory.summary (codes "  ") ≡ err path_not_found
unfolding probe_local_model is_space
blank_path = refl

a_file_is_no_whisper :
    probe_local_model gguf_host LocalModelCategory.transcription (codes "m")
    ≡ err unsupported_format
unfolding probe_local_model is_space
a_file_is_no_whisper = refl

too_large : probe_local_model gguf_host LocalModelCategory.summary (codes "m") ≡ err out_of_memory
unfolding probe_local_model is_space
too_large = refl
