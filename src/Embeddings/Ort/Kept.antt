-- ===== src/Embeddings/Ort/Kept.antt =====
-- What making a model ready keeps of the map of models, in
-- lantern_cli/src/embeddings/core/ort_runtime.rs.
use Prim.Native.String.{String}
use lanterndb.Prelude.{
  ℕ, ◌≡◌, Bool, true, false, Option, none, some, List, if◌then◌else◌, Result, ok, err, and_then,
}
use lanterndb.Embeddings.Ort.{OrtError, not_enough_memory}
use lanterndb.Embeddings.Ort.Models.{EncoderService, ModelInfo}
use lanterndb.Embeddings.Ort.Loading.{
  File, model_onnx, tokenizer_json, model_onnx_data, free_memory, has_file, Step, Runtime, Env,
  lookup, set_encoder, cleared, clear_model_cache, check_available_memory, gpu_checked, check_gpu,
  size_checked, ensure_file, downloaded, encoder_new, encoder_loaded, load_model, unless_loaded,
  model_found, check_and_download_files,
}

module _ {E F : Type 0} where
  -- A runtime with this flag whose models have the property.
  pub record IsKept (P : List (String × ModelInfo E F) → Type 0) (cache : Bool) (s : Runtime E F)
      : Type 0 where
    pub kept : s.cache ≡ cache
    pub models : P s.models

  -- A property that clearing the cache keeps, and so does any encoder of the name.
  module _ (P : List (String × ModelInfo E F) → Type 0) (name : String) (cache : Bool)
      (clear-P : (models : List (String × ModelInfo E F)) → P models → P (cleared models))
      (set-P : (e : Option (EncoderService E F)) (models : List (String × ModelInfo E F))
        → P models
        → P (set_encoder name e models)) where
    if-IsKept :
        (b : Bool) (m m' : Step E F)
        → IsKept P cache m.1
        → IsKept P cache m'.1
        → IsKept P cache (if b then m else m').1
    if-IsKept true m m' v v' = v
    if-IsKept false m m' v v' = v'

    clear-IsKept : (s : Runtime E F) → IsKept P cache s → IsKept P cache (clear_model_cache s)
    unfolding clear_model_cache
    clear-IsKept s v = record { kept = v.kept; models = clear-P s.models v.models }

    gpu_checked-IsKept :
        (c : Bool) (m : Result E Bool) (s : Runtime E F)
        → IsKept P cache s
        → IsKept P cache (gpu_checked c m s).1
    gpu_checked-IsKept c (err e) s v = v
    gpu_checked-IsKept true (ok true) s v = v
    gpu_checked-IsKept false (ok true) s v = clear-IsKept s v
    gpu_checked-IsKept c (ok false) s v = v

    check_gpu-IsKept :
        (env : Env E F) (c : Bool) (s : Runtime E F)
        → IsKept P cache s
        → IsKept P cache (check_gpu env c s).1
    check_gpu-IsKept env c s v =
        if-IsKept s.cache (gpu_checked c env.gpu_exceeds s) (ok tt, s)
          (gpu_checked-IsKept c env.gpu_exceeds s v) v

    size_checked-IsKept :
        (env : Env E F) (m : Result E ℕ) (s : Runtime E F)
        → IsKept P cache s
        → IsKept P cache (size_checked env m s).1
    size_checked-IsKept env (err e) s v = v
    size_checked-IsKept env (ok size) s v =
        let s' = clear_model_cache s in
        let v' = clear-IsKept s v in
        if-IsKept (env.exceeds size (free_memory env.memory_before))
          (if env.exceeds size (free_memory env.memory_after)
            then (err not_enough_memory, s')
            else check_gpu env true s')
          (check_gpu env false s)
          (if-IsKept (env.exceeds size (free_memory env.memory_after)) (err not_enough_memory, s')
            (check_gpu env true s') v' (check_gpu-IsKept env true s' v'))
          (check_gpu-IsKept env false s v)

    pub check_available_memory-IsKept :
        (env : Env E F) (s : Runtime E F)
        → IsKept P cache s
        → IsKept P cache (check_available_memory env s).1
    unfolding check_available_memory
    check_available_memory-IsKept env s v = size_checked-IsKept env env.model_size s v

    downloaded-IsKept :
        (n : String) (file : File) (m : Result E (Unit {0})) (s : Runtime E F)
        → IsKept P cache s
        → IsKept P cache (downloaded n file m s).1
    downloaded-IsKept n file (err e) s v = v
    downloaded-IsKept n file (ok u) s v = record { kept = v.kept; models = v.models }

    pub ensure_file-IsKept :
        (env : Env E F) (n : String) (file : File) (url : Option String) (s : Runtime E F)
        → IsKept P cache s
        → IsKept P cache (ensure_file env n file url s).1
    ensure_file-IsKept env n file none s v = v
    ensure_file-IsKept env n file (some url) s v =
        if-IsKept (has_file n file s.files) (ok tt, s) (downloaded n file (env.download url) s) v
          (downloaded-IsKept n file (env.download url) s v)

    encoder_loaded-IsKept :
        (m : Result (OrtError E) (EncoderService E F)) (s : Runtime E F)
        → IsKept P cache s
        → IsKept P cache (encoder_loaded name m s).1
    encoder_loaded-IsKept (err e) s v = v
    encoder_loaded-IsKept (ok encoder) s v = record {
      kept = v.kept;
      models = set-P (some encoder) s.models v.models;
    }

    -- A step after a step.
    and_then-IsKept :
        (m : Step E F) (f : Unit {0} → Runtime E F → Step E F)
        → IsKept P cache m.1
        → ((s : Runtime E F) → IsKept P cache s → IsKept P cache (f tt s).1)
        → IsKept P cache (and_then m f).1
    and_then-IsKept (ok tt, s) f v next = next s v
    and_then-IsKept (err e, s) f v next = v

    pub load_model-IsKept :
        (env : Env E F) (info : ModelInfo E F) (s : Runtime E F)
        → IsKept P cache s
        → IsKept P cache (load_model env name info s).1
    load_model-IsKept env info s v =
        and_then-IsKept (ensure_file env name model_onnx (some info.url) s) _
          (ensure_file-IsKept env name model_onnx (some info.url) s v)
          λ s v.
            and_then-IsKept (ensure_file env name tokenizer_json info.tokenizer_url s) _
              (ensure_file-IsKept env name tokenizer_json info.tokenizer_url s v)
              λ s v.
                and_then-IsKept (ensure_file env name model_onnx_data info.onnx_data_url s) _
                  (ensure_file-IsKept env name model_onnx_data info.onnx_data_url s v)
                  λ s v.
                    and_then-IsKept (check_available_memory env s) _
                      (check_available_memory-IsKept env s v)
                      λ s v.
                        encoder_loaded-IsKept (encoder_new env name info.params info.encoder_args) s
                          v

    unless_loaded-IsKept :
        (env : Env E F) (info : ModelInfo E F) (o : Option (EncoderService E F)) (s : Runtime E F)
        → IsKept P cache s
        → IsKept P cache (unless_loaded env name info o s).1
    unless_loaded-IsKept env info none s v = load_model-IsKept env info s v
    unless_loaded-IsKept env info (some encoder) s v = v

    model_found-IsKept :
        (env : Env E F) (o : Option (ModelInfo E F)) (s : Runtime E F)
        → IsKept P cache s
        → IsKept P cache (model_found env name o s).1
    model_found-IsKept env none s v = v
    model_found-IsKept env (some info) s v = unless_loaded-IsKept env info info.encoder s v

    pub check_and_download_files-IsKept :
        (env : Env E F) (s : Runtime E F)
        → IsKept P cache s
        → IsKept P cache (check_and_download_files env name s).1
    unfolding check_and_download_files
    check_and_download_files-IsKept env s v = model_found-IsKept env (lookup name s.models) s v
