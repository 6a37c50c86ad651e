-- ===== src/Embeddings/Ort/Models.antt =====
-- The models of lantern_cli/src/embeddings/core/ort_runtime.rs and their builder. No call of the
-- builder sets the parameters for padding and truncation, which are left out.
use Prim.Native.String.{String, ◌++◌}
use lanterndb.Prelude.{ℕ, Bool, true, false, Option, none, some, List, [], ◌∷◌, if◌then◌else◌}
use lanterndb.Embeddings.Ort.{ModelParams, PoolingStrategy, cls, mean, relu_log_max_pooling}
use lanterndb.Embeddings.Ort.Text.{Encoder}
use lanterndb.Embeddings.Ort.Images.{Vision}

pub record EncoderOptions : Type 0 where
  pub visual : Bool
  pub use_tokenizer : Bool
  pub input_image_size : Option ℕ

-- The encoder as the textual models use it and as the visual ones do.
pub record EncoderService (E F : Type 0) : Type 0 where
  pub text : Encoder E F
  pub vision : Vision E F

pub record ModelInfo (E F : Type 0) : Type 0 where
  pub url : String
  pub params : ModelParams
  pub tokenizer_url : Option String
  pub onnx_data_url : Option String
  pub encoder_args : EncoderOptions
  pub encoder : Option (EncoderService E F)

pub record ModelInfoBuilder : Type 0 where
  pub base_url : String
  pub pooling_strategy : Option PoolingStrategy
  pub tokenizer : Option Bool
  pub visual : Option Bool
  pub input_image_size : Option ℕ
  pub layer_cnt : Option ℕ
  pub head_cnt : Option ℕ
  pub head_dim : Option ℕ
  pub onnx_data : Bool

abbrev pub builder_new : String → ModelInfoBuilder
builder_new base_url = record {
  base_url = base_url;
  pooling_strategy = none;
  tokenizer = none;
  visual = none;
  input_image_size = none;
  layer_cnt = none;
  head_cnt = none;
  head_dim = none;
  onnx_data = false;
}

abbrev pub with_tokenizer : Bool → ModelInfoBuilder → ModelInfoBuilder
with_tokenizer status b = record b { tokenizer = if status then some true else none }

abbrev pub with_visual : Bool → ModelInfoBuilder → ModelInfoBuilder
with_visual status b = record b { visual = if status then some true else none }

abbrev pub with_input_image_size : ℕ → ModelInfoBuilder → ModelInfoBuilder
with_input_image_size len b = record b { input_image_size = some len }

abbrev pub with_layer_cnt : ℕ → ModelInfoBuilder → ModelInfoBuilder
with_layer_cnt layer_cnt b = record b { layer_cnt = some layer_cnt }

abbrev pub with_head_cnt : ℕ → ModelInfoBuilder → ModelInfoBuilder
with_head_cnt head_cnt b = record b { head_cnt = some head_cnt }

abbrev pub with_head_dim : ℕ → ModelInfoBuilder → ModelInfoBuilder
with_head_dim head_dim b = record b { head_dim = some head_dim }

abbrev pub with_pooling_strategy : PoolingStrategy → ModelInfoBuilder → ModelInfoBuilder
with_pooling_strategy strategy b = record b { pooling_strategy = some strategy }

abbrev pub with_onnx_data : Bool → ModelInfoBuilder → ModelInfoBuilder
with_onnx_data status b = record b { onnx_data = status }

abbrev is_some : {A : Type 0} → Option A → Bool
is_some none = false
is_some (some a) = true

abbrev strategy_or_cls : Option PoolingStrategy → PoolingStrategy
strategy_or_cls none = cls
strategy_or_cls (some strategy) = strategy

unfoldable pub build : {E F : Type 0} → ModelInfoBuilder → ModelInfo E F
build b = record {
  url = b.base_url ++ "/model.onnx";
  params = record {
    layer_cnt = b.layer_cnt;
    head_cnt = b.head_cnt;
    head_dim = b.head_dim;
    pooling_strategy = strategy_or_cls b.pooling_strategy;
  };
  tokenizer_url = if is_some b.tokenizer then some (b.base_url ++ "/tokenizer.json") else none;
  onnx_data_url = if b.onnx_data then some (b.base_url ++ "/model.onnx_data") else none;
  encoder_args = record {
    visual = is_some b.visual;
    use_tokenizer = is_some b.tokenizer;
    input_image_size = b.input_image_size;
  };
  encoder = none;
}

unfoldable pub model_info_map : {E F : Type 0} → List (String × ModelInfo E F)
unfolding build
model_info_map {E} {F} =
    (
      "clip/ViT-B-32-textual",
      build (
          with_tokenizer true (
            builder_new
              "https://huggingface.co/varik77/onnx-models/resolve/main/openai/ViT-B-32/textual")),
    )
    ∷ (
      "clip/ViT-B-32-visual",
      build (
          with_input_image_size 224 (
            with_visual true (
              builder_new
                "https://huggingface.co/varik77/onnx-models/resolve/main/openai/ViT-B-32/visual"))),
    )
    ∷ (
      "BAAI/bge-small-en",
      build (
          with_tokenizer true (
            builder_new
              "https://huggingface.co/varik77/onnx-models/resolve/main/BAAI/bge-small-en-v1.5")),
    )
    ∷ (
      "BAAI/bge-base-en",
      build (
          with_tokenizer true (
            builder_new
              "https://huggingface.co/varik77/onnx-models/resolve/main/BAAI/bge-base-en-v1.5")),
    )
    ∷ (
      "BAAI/bge-large-en",
      build (
          with_tokenizer true (
            builder_new
              "https://huggingface.co/varik77/onnx-models/resolve/main/BAAI/bge-large-en-v1.5")),
    )
    ∷ (
      "BAAI/bge-m3",
      build (
          with_head_dim 64 (
            with_head_cnt 4 (
              with_layer_cnt 8 (
                with_onnx_data true (
                  with_tokenizer true (
                    builder_new
                      "https://huggingface.co/varik77/onnx-models/resolve/main/BAAI/bge-m3")))))),
    )
    ∷ (
      "intfloat/e5-base-v2",
      build (
          with_tokenizer true (
            builder_new
              "https://huggingface.co/varik77/onnx-models/resolve/main/intfloat/e5-base-v2")),
    )
    ∷ (
      "intfloat/e5-large-v2",
      build (
          with_tokenizer true (
            builder_new
              "https://huggingface.co/varik77/onnx-models/resolve/main/intfloat/e5-large-v2")),
    )
    ∷ (
      "llmrails/ember-v1",
      build (
          with_tokenizer true (
            builder_new
              "https://huggingface.co/varik77/onnx-models/resolve/main/llmrails/ember-v1")),
    )
    ∷ (
      "thenlper/gte-base",
      build (
          with_tokenizer true (
            builder_new
              "https://huggingface.co/varik77/onnx-models/resolve/main/thenlper/gte-base")),
    )
    ∷ (
      "thenlper/gte-large",
      build (
          with_tokenizer true (
            builder_new
              "https://huggingface.co/varik77/onnx-models/resolve/main/thenlper/gte-large")),
    )
    ∷ (
      "microsoft/all-MiniLM-L12-v2",
      build (
          with_tokenizer true (
            builder_new
              "https://huggingface.co/varik77/onnx-models/resolve/main/microsoft/all-MiniLM-L12-v2")),
    )
    ∷ (
      "microsoft/all-mpnet-base-v2",
      build (
          with_tokenizer true (
            builder_new
              "https://huggingface.co/varik77/onnx-models/resolve/main/microsoft/all-mpnet-base-v2")),
    )
    ∷ (
      "transformers/multi-qa-mpnet-base-dot-v1",
      build (
          with_tokenizer true (
            builder_new
              "https://huggingface.co/varik77/onnx-models/resolve/main/transformers/multi-qa-mpnet-base-dot-v1")),
    )
    ∷ (
      "jinaai/jina-embeddings-v2-small-en",
      build (
          with_pooling_strategy mean (
            with_head_dim 64 (
              with_head_cnt 4 (
                with_layer_cnt 4 (
                  with_tokenizer true (
                    builder_new
                      "https://huggingface.co/varik77/onnx-models/resolve/main/jinaai/jina-embeddings-v2-small-en")))))),
    )
    ∷ (
      "jinaai/jina-embeddings-v2-base-en",
      build (
          with_pooling_strategy mean (
            with_head_dim 64 (
              with_head_cnt 12 (
                with_layer_cnt 12 (
                  with_tokenizer true (
                    builder_new
                      "https://huggingface.co/varik77/onnx-models/resolve/main/jinaai/jina-embeddings-v2-base-en")))))),
    )
    ∷ (
      "naver/splade-v3",
      build (
          with_pooling_strategy relu_log_max_pooling (
            with_head_dim 64 (
              with_head_cnt 12 (
                with_layer_cnt 12 (
                  with_tokenizer true (
                    builder_new
                      "https://huggingface.co/varik77/onnx-models/resolve/main/naver/splade-v3")))))),
    )
    ∷ []
