-- ===== src/Embeddings/Ort/Unloaded.antt =====
-- Which encoders are in memory between the calls of `process` in
-- lantern_cli/src/embeddings/core/ort_runtime.rs.
use mathlib.Core.Path.{subst}
use Prim.Native.String.{String}
use text.Mathlib.Text.{◌==◌ as str_eq}
use lanterndb.Prelude.{
  ◌≡◌, refl, ap, inl, inr, Bool, true, false, Bool-cases, Option, none, some, List, [], ◌∷◌, All,
  Result, ok, err, result_cases,
}
use lanterndb.Embeddings.Http.{EmbeddingResult}
use lanterndb.Embeddings.Ort.{
  OrtError, panicked, bad_shape, no_attention_mask, model_not_found, not_enough_memory,
  image_too_large, expected_url_or_path, failed,
}
use lanterndb.Embeddings.Ort.Models.{EncoderService, ModelInfo}
use lanterndb.Embeddings.Ort.Loading.{
  Runtime, Env, lookup, set_encoder, cleared, check_and_download_files,
}
use lanterndb.Embeddings.Ort.Kept.{IsKept, check_and_download_files-IsKept}
use lanterndb.Embeddings.Ort.Runtime.{process, run_model, answered, drop_encoder}

module _ {E F : Type 0} where
  -- No model of the map has its encoder in memory.
  abbrev pub IsUnloaded : List (String × ModelInfo E F) → Type 0
  IsUnloaded models = All (λ (m : String × ModelInfo E F). m.1.encoder ≡ none) models

  -- None but perhaps the one of the name.
  abbrev pub IsUnloadedBut : String → List (String × ModelInfo E F) → Type 0
  IsUnloadedBut name models = IsUnloaded (set_encoder name none models)

  pub set_encoder_twice :
      (name : String) (e e' : Option (EncoderService E F)) (models : List (String × ModelInfo E F))
      → set_encoder name e (set_encoder name e' models) ≡ set_encoder name e models
  set_encoder_twice name e e' [] = refl
  set_encoder_twice name e e' ((n, info) ∷ models) = elim (Bool-cases (str_eq n name)) [
    | inl h ↦ rw (h, h) refl
    | inr h ↦ rw (h, h) (ap (λ t. (n, info) ∷ t) (set_encoder_twice name e e' models))
  ]

  cleared-IsUnloaded : (models : List (String × ModelInfo E F)) → IsUnloaded (cleared models)
  cleared-IsUnloaded [] = tt
  cleared-IsUnloaded ((n, info) ∷ models) = (refl, cleared-IsUnloaded models)

  but :
      (name : String) (models : List (String × ModelInfo E F))
      → IsUnloaded models
      → IsUnloadedBut name models
  but name [] h = tt
  but name ((n, info) ∷ models) h = elim (Bool-cases (str_eq n name)) [
    | inl e ↦ rw e (refl, h.1)
    | inr e ↦ rw e (h.0, but name models h.1)
  ]

  -- A call that succeeds has dropped the encoder, if it drops any.
  pub answered_ok :
      (name : String) (visual : Bool) (m : Result (OrtError E) (EmbeddingResult (List F)))
      (r : EmbeddingResult (List F)) (s s' : Runtime E F)
      → answered name visual m s ≡ (ok r, s')
      → drop_encoder name s ≡ s'
  answered_ok name visual (ok r') r s s' h = ap (λ t. t.1) h
  answered_ok name true (err e) r s s' h = cc (ap (λ t. t.0) h)
  answered_ok name false (err panicked) r s s' h = cc (ap (λ t. t.0) h)
  answered_ok name false (err bad_shape) r s s' h = cc (ap (λ t. t.0) h)
  answered_ok name false (err no_attention_mask) r s s' h = cc (ap (λ t. t.0) h)
  answered_ok name false (err (model_not_found n)) r s s' h = cc (ap (λ t. t.0) h)
  answered_ok name false (err not_enough_memory) r s s' h = cc (ap (λ t. t.0) h)
  answered_ok name false (err image_too_large) r s s' h = cc (ap (λ t. t.0) h)
  answered_ok name false (err expected_url_or_path) r s s' h = cc (ap (λ t. t.0) h)
  answered_ok name false (err (failed e)) r s s' h = cc (ap (λ t. t.0) h)

  pub run_model_ok :
      (env : Env E F) (name : String) (inputs : List String) (o : Option (ModelInfo E F))
      (r : EmbeddingResult (List F)) (s s' : Runtime E F)
      → run_model env name inputs o s ≡ (ok r, s')
      → drop_encoder name s ≡ s'
  run_model_ok env name inputs none r s s' h = cc (ap (λ t. t.0) h)
  run_model_ok env name inputs (some info) r s s' h =
      answered_ok name info.encoder_args.visual _ r s s' h

  drop_encoder-IsUnloaded :
      (name : String) (s : Runtime E F)
      → IsKept (IsUnloadedBut name) false s
      → IsUnloaded (drop_encoder name s).models
  drop_encoder-IsUnloaded name s v = rw v.kept v.models

  -- Without the cache, if no model is loaded before a call of `process` that succeeds, then none is
  -- loaded after it, whatever the world answers.
  pub process-IsUnloaded :
      (env : Env E F) (name : String) (inputs : List String) (r : EmbeddingResult (List F))
      (s s' : Runtime E F)
      → s.cache ≡ false
      → IsUnloaded s.models
      → process env name inputs s ≡ (ok r, s')
      → IsUnloaded s'.models
  unfolding process
  process-IsUnloaded env name inputs r s s' off unloaded h =
      let v : IsKept (IsUnloadedBut name) false s = record {
        kept = off;
        models = but name s.models unloaded;
      } in
      let v' =
        check_and_download_files-IsKept (IsUnloadedBut name) name false
          (λ models h. but name (cleared models) (cleared-IsUnloaded models))
          (λ e models h. rw (set_encoder_twice name none e models) h) env s v in
      elim (result_cases (check_and_download_files env name s)) [
        | inl (u, s₁, e) ↦
            subst (λ (t : Runtime E F). IsUnloaded t.models)
              (run_model_ok env name inputs (lookup name s₁.models) r s₁ s' (rw e at h))
              (drop_encoder-IsUnloaded name s₁ (rw e at v'))
        | inr (x, s₁, e) ↦ cc (ap (λ t. t.0) (rw e at h))
      ]
