-- ===== src/Embeddings/Ort/Cached.antt =====
-- A model that was cached by `process` in lantern_cli/src/embeddings/core/ort_runtime.rs is ready.
use mathlib.Core.Path.{subst}
use Prim.Native.String.{String}
use text.Mathlib.Text.{◌==◌ as str_eq}
use lanterndb.Prelude.{
  ◌≡◌, refl, ap, ◌∙◌, inl, inr, Bool, true, Bool-cases, Option, none, some, List, [], ◌∷◌, Result,
  ok, err, result_cases, and_then,
}
use lanterndb.Embeddings.Http.{EmbeddingResult}
use lanterndb.Embeddings.Ort.{OrtError}
use lanterndb.Embeddings.Ort.Models.{EncoderService, ModelInfo}
use lanterndb.Embeddings.Ort.Loading.{
  model_onnx, tokenizer_json, model_onnx_data, Step, Runtime, Env, lookup, set_encoder, cleared,
  check_available_memory, ensure_file, encoder_new, encoder_loaded, load_model, unless_loaded,
  model_found, check_and_download_files,
}
use lanterndb.Embeddings.Ort.Kept.{IsKept, ensure_file-IsKept, check_available_memory-IsKept}
use lanterndb.Embeddings.Ort.Runtime.{process, drop_encoder}
use lanterndb.Embeddings.Ort.Unloaded.{run_model_ok}

module _ {E F : Type 0} where
  -- The map has the model.
  abbrev Has : String → List (String × ModelInfo E F) → Type 0
  Has name models = (info : ModelInfo E F) × (lookup name models ≡ some info)

  -- The map has the model with its encoder in memory.
  abbrev pub IsLoaded : String → List (String × ModelInfo E F) → Type 0
  IsLoaded name models =
      (info : ModelInfo E F) × (e : EncoderService E F) × (lookup name models ≡ some info)
      × (info.encoder ≡ some e)

  clear-Has :
      (name : String) (models : List (String × ModelInfo E F))
      → Has name models
      → Has name (cleared models)
  clear-Has name [] h = h
  clear-Has name ((n, info) ∷ models) h = elim (Bool-cases (str_eq n name)) [
    | inl e ↦ rw e (record info { encoder = none }, refl)
    | inr e ↦ rw e (clear-Has name models (rw e at h))
  ]

  set-Has :
      (name : String) (e : Option (EncoderService E F)) (models : List (String × ModelInfo E F))
      → Has name models
      → Has name (set_encoder name e models)
  set-Has name e [] h = h
  set-Has name e ((n, info) ∷ models) h = elim (Bool-cases (str_eq n name)) [
    | inl t ↦ rw (t, t) (record info { encoder = e }, refl)
    | inr t ↦ rw (t, t) (set-Has name e models (rw t at h))
  ]

  set-IsLoaded :
      (name : String) (e : EncoderService E F) (models : List (String × ModelInfo E F))
      → Has name models
      → IsLoaded name (set_encoder name (some e) models)
  set-IsLoaded name e [] h = cc (h.1)
  set-IsLoaded name e ((n, info) ∷ models) h = elim (Bool-cases (str_eq n name)) [
    | inl t ↦ rw (t, t) (record info { encoder = some e }, e, refl, refl)
    | inr t ↦ rw (t, t) (set-IsLoaded name e models (rw t at h))
  ]

  -- A step after a step, where the whole succeeds.
  and_then_ok :
      (P Q : Runtime E F → Type 0) (m : Step E F) (f : Unit {0} → Runtime E F → Step E F)
      (s' : Runtime E F)
      → P m.1
      → ((s : Runtime E F) → P s → f tt s ≡ (ok tt, s') → Q s')
      → and_then m f ≡ (ok tt, s')
      → Q s'
  and_then_ok P Q (ok tt, s) f s' v next h = next s v h
  and_then_ok P Q (err e, s) f s' v next h = cc (ap (λ t. t.0) h)

  module _ (name : String) (cache : Bool) where
    encoder_loaded_ok :
        (m : Result (OrtError E) (EncoderService E F)) (s s' : Runtime E F)
        → IsKept (Has name) cache s
        → encoder_loaded name m s ≡ (ok tt, s')
        → IsKept (IsLoaded name) cache s'
    encoder_loaded_ok (err e) s s' v h = cc (ap (λ t. t.0) h)
    encoder_loaded_ok (ok encoder) s s' v h =
        subst (IsKept (IsLoaded name) cache) (ap (λ t. t.1) h)
          (record { kept = v.kept; models = set-IsLoaded name encoder s.models v.models })

    load_model_ok :
        (env : Env E F) (info : ModelInfo E F) (s s' : Runtime E F)
        → IsKept (Has name) cache s
        → load_model env name info s ≡ (ok tt, s')
        → IsKept (IsLoaded name) cache s'
    load_model_ok env info s s' v h =
        let P = IsKept (Has name) cache in
        let Q = IsKept (IsLoaded name) cache in
        let clear = clear-Has name in
        let set = set-Has name in
        and_then_ok P Q (ensure_file env name model_onnx (some info.url) s) _ s'
          (ensure_file-IsKept (Has name) name cache clear set env name model_onnx (some info.url) s
            v)
          (λ s v.
            and_then_ok P Q (ensure_file env name tokenizer_json info.tokenizer_url s) _ s'
              (ensure_file-IsKept (Has name) name cache clear set env name tokenizer_json
                info.tokenizer_url s v)
              λ s v.
                and_then_ok P Q (ensure_file env name model_onnx_data info.onnx_data_url s) _ s'
                  (ensure_file-IsKept (Has name) name cache clear set env name model_onnx_data
                    info.onnx_data_url s v)
                  λ s v.
                    and_then_ok P Q (check_available_memory env s) _ s'
                      (check_available_memory-IsKept (Has name) name cache clear set env s v)
                      λ s v.
                        encoder_loaded_ok (encoder_new env name info.params info.encoder_args) s s'
                          v)
          h

    unless_loaded_ok :
        (env : Env E F) (info : ModelInfo E F) (o : Option (EncoderService E F))
        (s s' : Runtime E F)
        → info.encoder ≡ o
        → lookup name s.models ≡ some info
        → s.cache ≡ cache
        → unless_loaded env name info o s ≡ (ok tt, s')
        → IsKept (IsLoaded name) cache s'
    unless_loaded_ok env info none s s' e found on h =
        load_model_ok env info s s' (record { kept = on; models = (info, found) }) h
    unless_loaded_ok env info (some encoder) s s' e found on h =
        subst (IsKept (IsLoaded name) cache) (ap (λ t. t.1) h)
          (record { kept = on; models = (info, encoder, found, e) })

    model_found_ok :
        (env : Env E F) (o : Option (ModelInfo E F)) (s s' : Runtime E F)
        → lookup name s.models ≡ o
        → s.cache ≡ cache
        → model_found env name o s ≡ (ok tt, s')
        → IsKept (IsLoaded name) cache s'
    model_found_ok env none s s' e on h = cc (ap (λ t. t.0) h)
    model_found_ok env (some info) s s' e on h =
        unless_loaded_ok env info info.encoder s s' refl e on h

  -- With the cache, a call of `process` that succeeds leaves its model ready: the next call neither
  -- downloads a file nor loads an encoder nor clears the cache, whatever the world answers then.
  pub process_cached :
      (env env' : Env E F) (name : String) (inputs : List String) (r : EmbeddingResult (List F))
      (s s' : Runtime E F)
      → s.cache ≡ true
      → process env name inputs s ≡ (ok r, s')
      → check_and_download_files env' name s' ≡ (ok tt, s')
  unfolding process check_and_download_files
  process_cached env env' name inputs r s s' on h =
      elim (result_cases (check_and_download_files env name s)) [
        | inl (u, s₁, e) ↦
            let v : IsKept (IsLoaded name) true s₁ =
              model_found_ok name true env (lookup name s.models) s s₁ refl on e in
            let same : drop_encoder name s₁ ≡ s' =
              run_model_ok env name inputs (lookup name s₁.models) r s₁ s' (rw e at h) in
            let same' : s₁ ≡ s' = undropped s₁ v.kept ∙ same in
            subst (λ t. check_and_download_files env' name t ≡ (ok tt, t)) same' (ready s₁ v.models)
        | inr (x, s₁, e) ↦ cc (ap (λ t. t.0) (rw e at h))
      ]
    where
      undropped : (t : Runtime E F) → t.cache ≡ true → t ≡ drop_encoder name t
      undropped t e = simp e

      ready :
          (t : Runtime E F)
          → IsLoaded name t.models
          → check_and_download_files env' name t ≡ (ok tt, t)
      ready t v = rw (v.2, v.3) refl
