-- ===== src/LocalModels.antt =====
-- app/adapters/local_models.py: the probe of a local model. What the process sees of a path, and
-- what the runtimes say when they load it, are parameters; `resolve` is
-- `str(Path(s).expanduser().resolve(strict=False))`.
mod Tests
use ai_kaeyris.Prelude.{
  Bool, true, false, ◌&&◌, not, List, [], ◌∷◌, if◌then◌else◌, is_empty, Result, ok, err, guard,
  ◌>>=◌, ◌>>◌,
}
use ai_kaeyris.Text.{Text, codes, strip, text_eq}
use ai_kaeyris.Models.{LocalModelCategory}

-- The `problem_type` of a `LocalModelProbeError`.
pub data LocalModelProbeError : Type 0 where
  path_not_found timeout unsupported_format out_of_memory incompatible_task : LocalModelProbeError

pub record LocalModelProbeResult : Type 0 where
  pub runtime : Text
  pub model_format : Text
  pub message : Text

-- How the loading of a model ends: `ModuleNotFoundError`, `MemoryError` or another exception.
pub data Loading : Type 0 where
  loaded module_not_found memory_error failed : Loading

-- `suffix` is `path.suffix.lower()`, `has_model_bin` tells of `path / "model.bin"`, and `is_slow`
-- whether `asyncio.wait_for` gives up on the path.
pub record Host : Type 0 where
  pub resolve : Text → Text
  pub exists : Text → Bool
  pub is_readable : Text → Bool
  pub is_dir : Text → Bool
  pub is_file : Text → Bool
  pub has_model_bin : Text → Bool
  pub suffix : Text → Text
  pub load_whisper : Text → Loading
  pub load_llama : Text → Loading
  pub is_slow : Text → Bool

module _ (host : Host) where
  unfoldable pub normalize_model_path : Text → Result LocalModelProbeError Text
  unfolding strip
  normalize_model_path model_path =
      if is_empty (strip model_path)
      then err path_not_found
      else ok (host.resolve (strip model_path))

  after_loading :
      LocalModelProbeResult → Loading → Result LocalModelProbeError LocalModelProbeResult
  after_loading result loaded = ok result
  after_loading result module_not_found = err unsupported_format
  after_loading result memory_error = err out_of_memory
  after_loading result failed = err incompatible_task

  ensure_path_readable : Text → Result LocalModelProbeError Unit
  ensure_path_readable path =
      guard (host.exists path) path_not_found >> guard (host.is_readable path) path_not_found

  probe_transcription_model : Text → Result LocalModelProbeError LocalModelProbeResult
  unfolding after_loading
  probe_transcription_model path =
      guard (host.is_dir path && host.has_model_bin path) unsupported_format
      >> after_loading
          (record {
            runtime = codes "faster-whisper";
            model_format = codes "ctranslate2-whisper";
            message = codes "Model loaded and accepted for transcription.";
          })
          (host.load_whisper path)

  probe_summary_model : Text → Result LocalModelProbeError LocalModelProbeResult
  unfolding after_loading text_eq
  probe_summary_model path =
      guard (host.is_file path && text_eq (host.suffix path) (codes ".gguf")) unsupported_format
      >> after_loading
          (record {
            runtime = codes "llama-cpp-python";
            model_format = codes "gguf";
            message = codes "Model loaded and accepted for summary.";
          })
          (host.load_llama path)

  probe_local_model_sync :
      LocalModelCategory → Text → Result LocalModelProbeError LocalModelProbeResult
  unfolding ensure_path_readable probe_transcription_model probe_summary_model
  probe_local_model_sync LocalModelCategory.transcription path =
      ensure_path_readable path >> probe_transcription_model path
  probe_local_model_sync LocalModelCategory.summary path =
      ensure_path_readable path >> probe_summary_model path

  -- The category is one of the two: the last case of the source cannot occur.
  unfoldable pub probe_local_model :
      LocalModelCategory → Text → Result LocalModelProbeError LocalModelProbeResult
  unfolding probe_local_model_sync normalize_model_path
  probe_local_model category model_path = normalize_model_path model_path >>= λ normalized.
      guard (not (host.is_slow normalized)) timeout >> probe_local_model_sync category normalized
