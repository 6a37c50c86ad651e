-- ===== src/Embeddings/Ort/Loading.antt =====
-- `OrtRuntime` of lantern_cli/src/embeddings/core/ort_runtime.rs: the map of models, the files that
-- were downloaded, and how a model is made ready. What the outside world answers during a call is a
-- parameter, and so is the comparison of a percentage in floating point.
use Prim.Native.String.{String}
use text.Mathlib.Text.{◌==◌ as str_eq}
use lanterndb.Prelude.{
  ℕ, ◌+◌, ◌-◌, ◌%◌, Bool, true, false, ◌&&◌, not, Option, none, some, List, [], ◌∷◌, if◌then◌else◌,
  Result, ok, err, ◌>>=◌, and_then,
}
use lanterndb.Embeddings.Ort.{
  ModelParams, OrtError, model_not_found, not_enough_memory, failed, Tensor,
}
use lanterndb.Embeddings.Ort.Pooling.{TensorOps}
use lanterndb.Embeddings.Ort.Text.{Encoding, Output, or_failed, unwrap}
use lanterndb.Embeddings.Ort.Images.{Image, Pixels, PixelOps, World}
use lanterndb.Embeddings.Ort.Models.{EncoderOptions, EncoderService, ModelInfo}

pub data File : Type 0 where
  model_onnx : File
  tokenizer_json : File
  model_onnx_data : File

abbrev pub file_eq : File → File → Bool
file_eq model_onnx model_onnx = true
file_eq tokenizer_json tokenizer_json = true
file_eq model_onnx_data model_onnx_data = true
file_eq model_onnx f = false
file_eq tokenizer_json f = false
file_eq model_onnx_data f = false

-- The runtime, its models, and the files in the folders of the models.
pub record Runtime (E F : Type 0) : Type 0 where
  pub cache : Bool
  pub models : List (String × ModelInfo E F)
  pub files : List (String × File)

pub record SysMemory : Type 0 where
  pub total_memory : ℕ
  pub used_memory : ℕ
  pub total_swap : ℕ
  pub used_swap : ℕ

-- Subtraction on `u64` wraps in a release build.
abbrev pub free_memory : SysMemory → ℕ
free_memory m =
    ((m.total_memory + 18446744073709551616 - m.used_memory) % 18446744073709551616
      + (m.total_swap + 18446744073709551616 - m.used_swap) % 18446744073709551616)
    % 18446744073709551616

-- A session that the library has made of a model's file.
pub record Session (E F : Type 0) : Type 0 where
  pub inputs : List String
  pub output_dims : Option ℕ
  pub last_dimension : Option ℕ
  pub run : List Tensor → Result E (List (List (List F)))
  pub run_clip : List Tensor → Result E (Output F)
  pub run_images : List (Pixels F) → Result E (Output F)

-- What happens outside during one call. `exceeds size free` compares the size, in percent of the
-- memory that is free, with the threshold.
pub record Env (E F : Type 0) : Type 0 where
  pub download : String → Result E (Unit {0})
  pub memory_before : SysMemory
  pub memory_after : SysMemory
  pub model_size : Result E ℕ
  pub exceeds : ℕ → ℕ → Bool
  pub gpu_exceeds : Result E Bool
  pub tokenizer_from : String → Option (List String → Result E (List Encoding))
  pub session_from : String → Result E (Session E F)
  pub decode : ℕ → List ℕ → Result E Image
  pub world : World E
  pub ops : TensorOps F
  pub pixel_ops : PixelOps F
  pub minus_one : F
  pub add_overhead : ℕ → ℕ
  pub available_memory : Result E ℕ

abbrev pub has_file : String → File → List (String × File) → Bool
has_file name file [] = false
has_file name file ((n, f) ∷ files) =
    if str_eq n name && file_eq f file then true else has_file name file files

abbrev pub Step : Type 0 → Type 0 → Type 0
Step E F = Result (OrtError E) (Unit {0}) × Runtime E F

module _ {E F : Type 0} where
  abbrev pub lookup : String → List (String × ModelInfo E F) → Option (ModelInfo E F)
  lookup name [] = none
  lookup name ((n, info) ∷ models) = if str_eq n name then some info else lookup name models

  -- `model_info.encoder = encoder` on the entry of the name.
  abbrev pub set_encoder :
      String
      → Option (EncoderService E F)
      → List (String × ModelInfo E F)
      → List (String × ModelInfo E F)
  set_encoder name encoder [] = []
  set_encoder name encoder ((n, info) ∷ models) =
      if str_eq n name
      then (n, record info { encoder = encoder }) ∷ models
      else (n, info) ∷ set_encoder name encoder models

  abbrev pub put_encoder : String → Option (EncoderService E F) → Runtime E F → Runtime E F
  put_encoder name encoder s = record s { models = set_encoder name encoder s.models }

  abbrev pub cleared : List (String × ModelInfo E F) → List (String × ModelInfo E F)
  cleared [] = []
  cleared ((n, info) ∷ models) = (n, record info { encoder = none }) ∷ cleared models

  unfoldable pub clear_model_cache : Runtime E F → Runtime E F
  clear_model_cache s = record s { models = cleared s.models }

  -- The memory of the GPU is only read with the cache.
  abbrev pub gpu_checked : Bool → Result E Bool → Runtime E F → Step E F
  gpu_checked cache_cleared (err e) s = (err (failed e), s)
  gpu_checked cache_cleared (ok over) s =
      (ok tt, if over && not cache_cleared then clear_model_cache s else s)

  abbrev pub check_gpu : Env E F → Bool → Runtime E F → Step E F
  check_gpu env cache_cleared s =
      if s.cache then gpu_checked cache_cleared env.gpu_exceeds s else (ok tt, s)

  abbrev pub size_checked : Env E F → Result E ℕ → Runtime E F → Step E F
  size_checked env (err e) s = (err (failed e), s)
  size_checked env (ok model_size) s =
      if env.exceeds model_size (free_memory env.memory_before)
      then if env.exceeds model_size (free_memory env.memory_after)
        then (err not_enough_memory, clear_model_cache s)
        else check_gpu env true (clear_model_cache s)
      else check_gpu env false s

  unfoldable pub check_available_memory : Env E F → Runtime E F → Step E F
  unfolding clear_model_cache
  check_available_memory env s = size_checked env env.model_size s

  abbrev pub downloaded : String → File → Result E (Unit {0}) → Runtime E F → Step E F
  downloaded name file (err e) s = (err (failed e), s)
  downloaded name file (ok u) s = (ok tt, record s { files = (name, file) ∷ s.files })

  -- A file that is not there is downloaded; a model without such a file has no URL.
  abbrev pub ensure_file : Env E F → String → File → Option String → Runtime E F → Step E F
  ensure_file env name file none s = (ok tt, s)
  ensure_file env name file (some url) s =
      if has_file name file s.files then (ok tt, s) else downloaded name file (env.download url) s

  abbrev pub load_tokenizer :
      Env E F
      → String
      → Bool
      → Result (OrtError E) (Option (List String → Result E (List Encoding)))
  load_tokenizer env name false = ok none
  load_tokenizer env name true =
      unwrap (env.tokenizer_from name) >>= λ tokenizer. ok (some tokenizer)

  unfoldable pub encoder_new :
      Env E F → String → ModelParams → EncoderOptions → Result (OrtError E) (EncoderService E F)
  encoder_new env name params args = load_tokenizer env name args.use_tokenizer >>= λ tokenizer.
      or_failed (env.session_from name) >>= λ session. ok (record {
        text = record {
          name = name;
          params = params;
          encode_batch = tokenizer;
          inputs = session.inputs;
          output_dims = session.output_dims;
          run = session.run;
          run_clip = session.run_clip;
        };
        vision = record {
          vision_size = args.input_image_size;
          decode = env.decode;
          run_images = session.run_images;
          last_dimension = session.last_dimension;
        };
      })

  abbrev pub encoder_loaded :
      String → Result (OrtError E) (EncoderService E F) → Runtime E F → Step E F
  encoder_loaded name (err e) s = (err e, s)
  encoder_loaded name (ok encoder) s = (ok tt, put_encoder name (some encoder) s)

  abbrev pub load_model : Env E F → String → ModelInfo E F → Runtime E F → Step E F
  load_model env name info s = and_then (ensure_file env name model_onnx (some info.url) s) λ _ s.
      and_then (ensure_file env name tokenizer_json info.tokenizer_url s) λ _ s.
        and_then (ensure_file env name model_onnx_data info.onnx_data_url s) λ _ s.
          and_then (check_available_memory env s)
            λ _ s. encoder_loaded name (encoder_new env name info.params info.encoder_args) s

  abbrev pub unless_loaded :
      Env E F → String → ModelInfo E F → Option (EncoderService E F) → Runtime E F → Step E F
  unless_loaded env name info none s = load_model env name info s
  unless_loaded env name info (some encoder) s = (ok tt, s)

  abbrev pub model_found : Env E F → String → Option (ModelInfo E F) → Runtime E F → Step E F
  model_found env name none s = (err (model_not_found name), s)
  model_found env name (some info) s = unless_loaded env name info info.encoder s

  unfoldable pub check_and_download_files : Env E F → String → Runtime E F → Step E F
  unfolding check_available_memory encoder_new
  check_and_download_files env name s = model_found env name (lookup name s.models) s
