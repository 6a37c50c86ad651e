-- ===== src/Embeddings/Cohere.antt =====
-- The Cohere runtime, lantern_cli/src/embeddings/core/cohere_runtime.rs: its parameters and how the
-- inputs become requests. A request is the fields of its JSON.
pub mod Batches
use Prim.Native.String.{String}
use text.Mathlib.Text.{◌==◌}
use lanterndb.Prelude.{
  ℕ, zero, suc, Option, none, some, List, [], ◌∷◌, map, if◌then◌else◌, length, take, drop, Result,
  ok, err, map_err, chunks,
}
use lanterndb.Embeddings.Http.{Reply, PostError, Session, EmbeddingResult, post_request}

pub data CohereError : Type 0 where
  token_required : CohereError
  unsupported_model : String → CohereError

pub record CohereModel : Type 0 where
  pub name : String
  pub sequence_len : ℕ
  pub dimensions : ℕ

pub record CohereRuntime : Type 0 where
  pub max_batch_size : ℕ
  pub input_type : String
  pub token : String

pub record CohereBody : Type 0 where
  pub texts : List String
  pub model : String
  pub body_input_type : String

abbrev input_type_or_default : Option String → String
input_type_or_default (some input_type) = input_type
input_type_or_default none = "search_document"

unfoldable pub runtime_new : Option String → Option String → Result CohereError CohereRuntime
runtime_new none input_type = err token_required
runtime_new (some token) input_type =
    ok
      (record { max_batch_size = 96; input_type = input_type_or_default input_type; token = token })

unfoldable pub model_new : String → Result CohereError CohereModel
model_new model_name =
    if model_name == "embed-english-v3.0"
    then ok (record { name = model_name; sequence_len = 512; dimensions = 1024 })
    else if model_name == "embed-multilingual-v3.0"
    then ok (record { name = model_name; sequence_len = 512; dimensions = 1024 })
    else if model_name == "embed-english-light-v3.0"
    then ok (record { name = model_name; sequence_len = 512; dimensions = 384 })
    else if model_name == "embed-multilingual-light-v3.0"
    then ok (record { name = model_name; sequence_len = 512; dimensions = 384 })
    else if model_name == "embed-english-v2.0"
    then ok (record { name = model_name; sequence_len = 512; dimensions = 4096 })
    else if model_name == "embed-english-light-v2.0"
    then ok (record { name = model_name; sequence_len = 512; dimensions = 1024 })
    else if model_name == "embed-multilingual-v2.0"
    then ok (record { name = model_name; sequence_len = 512; dimensions = 768 })
    else err (unsupported_model model_name)

abbrev pub batch_bodies :
    CohereRuntime
    → List String
    → Result CohereError CohereModel
    → Result CohereError (List CohereBody)
batch_bodies runtime inputs (err e) = err e
batch_bodies runtime inputs (ok info) = ok (
    map (λ batch. record { texts = batch; model = info.name; body_input_type = runtime.input_type })
      (chunks runtime.max_batch_size inputs))

unfoldable pub chunk_inputs :
    CohereRuntime → String → List String → Result CohereError (List CohereBody)
unfolding model_new
chunk_inputs runtime model_name inputs = batch_bodies runtime inputs (model_new model_name)

pub data ProcessError : Type 0 where
  not_chunked : CohereError → ProcessError
  not_posted : PostError → ProcessError

module _ {S E : Type 0} (post : S → CohereBody → Reply × S)
    (get_response : List ℕ → Result ℕ (EmbeddingResult E)) where
  abbrev pub posted :
      Session S CohereBody
      → Result CohereError (List CohereBody)
      → Result ProcessError (EmbeddingResult E) × Session S CohereBody
  posted s (ok bodies) = map_err not_posted (post_request post get_response bodies s)
  posted s (err e) = (err (not_chunked e), s)

  -- `process`: the inputs are cut into bodies and posted one after the other.
  unfoldable pub process :
      CohereRuntime
      → String
      → List String
      → Session S CohereBody
      → Result ProcessError (EmbeddingResult E) × Session S CohereBody
  unfolding chunk_inputs
  process runtime model_name inputs s = posted s (chunk_inputs runtime model_name inputs)
