-- ===== src/Embeddings/Ort/Tests.antt =====
-- The model runtime of lantern_cli/src/embeddings/core/ort_runtime.rs at concrete inputs.
use Prim.Native.String.{String}
use text.Mathlib.Text.{◌==◌ as str_eq}
use lanterndb.Prelude.{
  ℕ, ◌+◌, ◌*◌, ◌≡◌, refl, ap, Bool, true, false, none, some, List, [], ◌∷◌, map, arith, length,
  concat, if◌then◌else◌, ltb, Result, ok, err,
}
use lanterndb.Embeddings.Http.{EmbeddingResult}
use lanterndb.Embeddings.Ort.{
  ModelParams, cls, mean, Tensor, chunk_session_input, get_required_memory,
}
use lanterndb.Embeddings.Ort.Pooling.{TensorOps, pool, mean_pooling, mean_row}
use lanterndb.Embeddings.Ort.Text.{process_text, Encoding, Encoder, Output, process_text_bert}
use lanterndb.Embeddings.Ort.Rows.{IsRowwise, process_text_bert-rows}
use lanterndb.Embeddings.Ort.Images.{
  process_image_clip, decode_images, get_images_parallel, get_image_buffer, buffer_or_empty, World,
  Image, Pixels, PixelOps, Vision, process_visual,
}
use lanterndb.Embeddings.Ort.Visual.{vector_or_invalid, IsVision, process_visual_vectors}
use lanterndb.Embeddings.Ort.Models.{model_info_map}
use lanterndb.Embeddings.Ort.Loading.{Runtime, Env, Session}
use lanterndb.Embeddings.Ort.Runtime.{process}
use lanterndb.Embeddings.Ort.Unloaded.{IsUnloaded, process-IsUnloaded}

abbrev total : List ℕ → ℕ
total [] = 0
total (x ∷ xs) = x + total xs

abbrev ops : TensorOps ℕ
ops = record {
  of_token = λ n. n;
  mul = λ a b. a * b;
  add = λ a b. a + b;
  div = λ a b. a;
  max = λ a b. if ltb a b then b else a;
  ln = λ a. a;
  sum = total;
  nought = 0;
  one = 1;
  neg_infinity = 0;
  epsilon = 1;
}

abbrev small_params : ModelParams
small_params = record { layer_cnt = none; head_cnt = none; head_dim = none; pooling_strategy = cls }

abbrev encoding : ℕ → Encoding
encoding n = record { ids = n ∷ 7 ∷ []; attention_mask = 1 ∷ 1 ∷ []; type_ids = 0 ∷ 0 ∷ [] }

-- A model that gives each token its number.
abbrev tokens_of : List ℕ → List (List ℕ)
tokens_of row = map (λ t. t ∷ []) row

abbrev run : List Tensor → Result ℕ (List (List (List ℕ)))
run [] = err 0
run (ids ∷ rest) = ok (map tokens_of ids)

abbrev encode : List String → Result ℕ (List Encoding)
encode texts = ok (encoding 4 ∷ encoding 5 ∷ encoding 6 ∷ [])

abbrev text_encoder : Encoder ℕ ℕ
text_encoder = record {
  name = "BAAI/bge-small-en";
  params = small_params;
  encode_batch = some encode;
  inputs = "input_ids" ∷ "attention_mask" ∷ [];
  output_dims = some 1;
  run = run;
  run_clip = λ tensors. err 0;
}

abbrev embed : Encoding → List (List ℕ)
embed e = tokens_of e.ids

abbrev first_of : List ℕ → List ℕ
first_of [] = 0 ∷ []
first_of (t ∷ row) = t ∷ []

abbrev vector : Encoding → List ℕ
vector e = first_of e.ids

map-embed :
    (batch : List Encoding) → map tokens_of (map (λ (e : Encoding). e.ids) batch) ≡ map embed batch
map-embed [] = refl
map-embed (e ∷ batch) = ap (λ t. embed e ∷ t) (map-embed batch)

text_encoder-IsRowwise : IsRowwise text_encoder 2 embed
text_encoder-IsRowwise batch padded = ap ok (map-embed batch)

abbrev three_texts : List String
three_texts = "a" ∷ "b" ∷ "c" ∷ []

-- Two inputs fit the memory: the first run has two rows, the second one.
groups :
    chunk_session_input {E = ℕ} (λ n. n) (ok 2) small_params ((4 ∷ 7 ∷ 5 ∷ 7 ∷ 6 ∷ 7 ∷ []) ∷ []) 3
    ≡ ok ((((4 ∷ 7 ∷ []) ∷ (5 ∷ 7 ∷ []) ∷ []) ∷ []) ∷ (((6 ∷ 7 ∷ []) ∷ []) ∷ []) ∷ [])
unfolding chunk_session_input
groups = refl

process_text_bert-rows_example :
    (r : EmbeddingResult (List ℕ)) × (process_text_bert ops text_encoder (λ n. n) (ok 2) three_texts
      ≡ ok r)
    × (r.embeddings ≡ map vector (encoding 4 ∷ encoding 5 ∷ encoding 6 ∷ []))
unfolding get_required_memory
process_text_bert-rows_example =
    process_text_bert-rows ops text_encoder 2 1 embed vector text_encoder-IsRowwise refl
      (omega arith) (λ n. n) 2 encode three_texts ("input_ids" ∷ []) []
      (encoding 4 ∷ encoding 5 ∷ encoding 6 ∷ []) refl refl refl refl (omega arith) (omega arith)
      (omega arith) ((refl, refl, refl), ((refl, refl, refl), ((refl, refl, refl), tt)))
      (refl, (refl, (refl, tt)))

-- The mask of the second token leaves it out of the mean.
mean_masks :
    pool ops mean 1 ((((3 ∷ []) ∷ (5 ∷ []) ∷ [])) ∷ []) ((1 ∷ 0 ∷ []) ∷ []) ≡ some ((3 ∷ []) ∷ [])
unfolding pool mean_pooling mean_row
mean_masks = refl

abbrev pixel_ops : PixelOps ℕ
pixel_ops = record {
  of_byte = λ n. n;
  sub = λ a b. a;
  div = λ a b. a;
  full = 1;
  mean = λ channel. 0;
  std = λ channel. 1;
}

-- The vector of an image is its number of channels.
abbrev embed_image : Pixels ℕ → List ℕ
embed_image p = length p ∷ []

abbrev run_images : List (Pixels ℕ) → Result ℕ (Output ℕ)
run_images images = ok (record { seq_len = some 1; items = concat (map embed_image images) })

abbrev plain_image : List ℕ → Image
plain_image bytes channel x y = length bytes

abbrev vision : Vision ℕ ℕ
vision = record {
  vision_size = some 2;
  decode = λ size bytes. ok (plain_image bytes);
  run_images = run_images;
  last_dimension = some 1;
}

vision-IsVision : IsVision vision 1 embed_image
vision-IsVision = record {
  wide = omega arith;
  declared = refl;
  length_embed = λ p. refl;
  run = λ images. refl;
}

-- A file that cannot be read, and two that can.
abbrev read_file : String → Result ℕ (List ℕ)
read_file path = if str_eq path "/missing" then err 2 else ok (1 ∷ 2 ∷ [])

abbrev world : World ℕ
world = record {
  is_url = λ path. false;
  is_absolute = λ path. true;
  fetch = λ url. err 3;
  read = read_file;
}

abbrev three_paths : List String
three_paths = "/a" ∷ "/missing" ∷ "/b" ∷ []

visual_vectors :
    (process_visual pixel_ops 99 vision world "clip/ViT-B-32-visual" three_paths)
    ≡ ok (record { processed_tokens = 24; embeddings = (3 ∷ []) ∷ (99 ∷ []) ∷ (3 ∷ []) ∷ [] })
unfolding process_visual process_image_clip decode_images
visual_vectors = refl

process_visual_vectors_example :
    (r : EmbeddingResult (List ℕ)) × (process_visual pixel_ops 99 vision world
        "clip/ViT-B-32-visual" three_paths
      ≡ ok r)
    × (r.embeddings
        ≡ map
            (λ input.
              vector_or_invalid pixel_ops 99 vision 1 embed_image plain_image
                (buffer_or_empty (get_image_buffer world input)))
            three_paths)
unfolding get_images_parallel
process_visual_vectors_example =
    process_visual_vectors pixel_ops 99 vision 1 embed_image plain_image vision-IsVision world
      "clip/ViT-B-32-visual" three_paths (refl, (refl, tt))

abbrev session : Session ℕ ℕ
session = record {
  inputs = "input_ids" ∷ "attention_mask" ∷ [];
  output_dims = some 1;
  last_dimension = some 1;
  run = run;
  run_clip = λ tensors. err 0;
  run_images = run_images;
}

abbrev env : Env ℕ ℕ
env = record {
  download = λ url. ok tt;
  memory_before = record { total_memory = 10; used_memory = 4; total_swap = 0; used_swap = 0 };
  memory_after = record { total_memory = 10; used_memory = 4; total_swap = 0; used_swap = 0 };
  model_size = ok 1;
  exceeds = λ size free. ltb (free * 8) (size * 10);
  gpu_exceeds = ok false;
  tokenizer_from = λ name. some encode;
  session_from = λ name. ok session;
  decode = λ size bytes. ok (plain_image bytes);
  world = world;
  ops = ops;
  pixel_ops = pixel_ops;
  minus_one = 99;
  add_overhead = λ n. n;
  available_memory = ok 2;
}

abbrev runtime : Bool → Runtime ℕ ℕ
runtime cache = record { cache = cache; models = model_info_map; files = [] }

abbrev answer : EmbeddingResult (List ℕ)
answer = record { processed_tokens = 6; embeddings = (4 ∷ []) ∷ (5 ∷ []) ∷ (6 ∷ []) ∷ [] }

abbrev after_call : Bool → Runtime ℕ ℕ
after_call cache = (process env "BAAI/bge-small-en" three_texts (runtime cache)).1

process_call :
    (cache : Bool)
    → process env "BAAI/bge-small-en" three_texts (runtime cache) ≡ (ok answer, after_call cache)
unfolding process model_info_map process_text process_text_bert pool
process_call true = refl
process_call false = refl

process-IsUnloaded_example : IsUnloaded (after_call false).models
unfolding model_info_map
process-IsUnloaded_example =
    process-IsUnloaded env "BAAI/bge-small-en" three_texts answer (runtime false) (after_call false)
      refl
      (
        refl,
        (
          refl,
          (
            refl,
            (
              refl,
              (
                refl,
                (
                  refl,
                  (
                    refl,
                    (
                      refl,
                      (refl, (refl, (refl, (refl, (refl, (refl, (refl, (refl, (refl, tt))))))))),
                    ),
                  ),
                ),
              ),
            ),
          ),
        ),
      )
      (process_call false)
