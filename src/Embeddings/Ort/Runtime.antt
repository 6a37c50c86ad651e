-- ===== src/Embeddings/Ort/Runtime.antt =====
-- A call of `process` on `OrtRuntime` of lantern_cli/src/embeddings/core/ort_runtime.rs, and the
-- list of the models.
use Prim.Native.String.{String, ◌++◌ as str_append}
use lanterndb.Prelude.{
  Bool, true, false, Option, none, some, List, [], ◌∷◌, map, if◌then◌else◌, Result, ok, err, ◌>>=◌,
  and_then,
}
use lanterndb.Embeddings.Http.{EmbeddingResult}
use lanterndb.Embeddings.Ort.{OrtError, panicked}
use lanterndb.Embeddings.Ort.Text.{unwrap, process_text}
use lanterndb.Embeddings.Ort.Images.{process_visual}
use lanterndb.Embeddings.Ort.Models.{EncoderService, ModelInfo}
use lanterndb.Embeddings.Ort.Loading.{
  File, model_onnx, Runtime, Env, lookup, put_encoder, has_file, check_and_download_files,
}

abbrev pub Answer : Type 0 → Type 0 → Type 0
Answer E F = Result (OrtError E) (EmbeddingResult (List F)) × Runtime E F

module _ {E F : Type 0} where
  -- After the model has run: without the cache its encoder is dropped.
  abbrev pub drop_encoder : String → Runtime E F → Runtime E F
  drop_encoder name s = if s.cache then s else put_encoder name none s

  -- An error of the visual branch returns at once, and so does a panic of the textual one.
  abbrev pub answered :
      String → Bool → Result (OrtError E) (EmbeddingResult (List F)) → Runtime E F → Answer E F
  answered name visual (ok r) s = (ok r, drop_encoder name s)
  answered name true (err e) s = (err e, s)
  answered name false (err panicked) s = (err panicked, s)
  answered name false (err e) s = (err e, drop_encoder name s)

  abbrev pub embed_inputs :
      Env E F
      → String
      → List String
      → Bool
      → EncoderService E F
      → Result (OrtError E) (EmbeddingResult (List F))
  embed_inputs env name inputs true encoder =
      process_visual env.pixel_ops env.minus_one encoder.vision env.world name inputs
  embed_inputs env name inputs false encoder =
      process_text env.ops encoder.text env.add_overhead env.available_memory inputs

  abbrev pub run_model :
      Env E F → String → List String → Option (ModelInfo E F) → Runtime E F → Answer E F
  run_model env name inputs none s = (err panicked, s)
  run_model env name inputs (some info) s =
      answered name info.encoder_args.visual
        (unwrap info.encoder >>= embed_inputs env name inputs info.encoder_args.visual) s

  unfoldable pub process : Env E F → String → List String → Runtime E F → Answer E F
  unfolding check_and_download_files
  process env name inputs s =
      and_then (check_and_download_files env name s)
        λ _ s. run_model env name inputs (lookup name s.models) s

  -- The models with whether each is visual, in the order of the map, and the text that lists them.
  abbrev pub model_line : List (String × File) → String × ModelInfo E F → String
  model_line files (name, info) = str_append name (
      str_append " - type: " (
        str_append (if info.encoder_args.visual then "visual" else "textual") (
          str_append ", downloaded: "
            (str_append (if has_file name model_onnx files then "true" else "false") "\n"))))

  abbrev pub join_lines : List (String × File) → List (String × ModelInfo E F) → String
  join_lines files [] = ""
  join_lines files (m ∷ models) = str_append (model_line files m) (join_lines files models)

  unfoldable pub get_available_models : Runtime E F → String × List (String × Bool)
  get_available_models s = (
    join_lines s.files s.models,
    map (λ (m : String × ModelInfo E F). (m.0, m.1.encoder_args.visual)) s.models,
  )
