-- ===== src/Embeddings/Ort/Images.antt =====
-- The images of lantern_cli/src/embeddings/core/ort_runtime.rs: reading or downloading them,
-- `process_image_clip`, and the vectors of those that could not be read. Decoding an image and
-- resizing it, the session and the operations on `f32` are parameters.
use Prim.Native.String.{String}
use text.Mathlib.Text.{◌==◌ as str_eq}
use lanterndb.Prelude.{
  ℕ, zero, suc, ◌+◌, ◌*◌, Bool, Option, none, some, List, [], ◌∷◌, map, ltb, if◌then◌else◌, length,
  get_elem?, replicate, Result, ok, err, ◌>>=◌,
}
use lanterndb.Embeddings.Http.{EmbeddingResult}
use lanterndb.Embeddings.Ort.{OrtError, image_too_large, expected_url_or_path}
use lanterndb.Embeddings.Ort.Text.{Output, unwrap, or_failed, rows_of_output}

-- What the server answers: the length that it declares, and the body.
pub record Response (E : Type 0) : Type 0 where
  pub content_length : Option ℕ
  pub body : Result E (List ℕ)

-- The outside world: whether a text is a URL, or an absolute path, and what is read there.
pub record World (E : Type 0) : Type 0 where
  pub is_url : String → Bool
  pub is_absolute : String → Bool
  pub fetch : String → Result E (Response E)
  pub read : String → Result E (List ℕ)

abbrev pub max_image_size : ℕ
max_image_size = 1024 * 1024 * 20

abbrev pub size_or : ℕ → Option ℕ → ℕ
size_or d none = d
size_or d (some n) = n

module _ {E : Type 0} where
  abbrev pub checked_body : Response E → Result (OrtError E) (List ℕ)
  checked_body response =
      if ltb max_image_size (size_or (max_image_size + 1) response.content_length)
      then err image_too_large
      else or_failed response.body

  unfoldable pub get_image_buffer : World E → String → Result (OrtError E) (List ℕ)
  get_image_buffer w path_or_url =
      if w.is_url path_or_url
      then or_failed (w.fetch path_or_url) >>= checked_body
      else if w.is_absolute path_or_url
      then or_failed (w.read path_or_url)
      else err expected_url_or_path

  -- An image that cannot be read leaves an empty buffer. The buffers come in the order of the tasks.
  abbrev pub buffer_or_empty : Result (OrtError E) (List ℕ) → List ℕ
  buffer_or_empty (ok buffer) = buffer
  buffer_or_empty (err e) = []

  unfoldable pub get_images_parallel : World E → List String → List (List ℕ)
  unfolding get_image_buffer
  get_images_parallel w paths_or_urls =
      map (λ path_or_url. buffer_or_empty (get_image_buffer w path_or_url)) paths_or_urls

-- The arithmetic of the pixels: the mean and the deviation are those of a channel.
pub record PixelOps (F : Type 0) : Type 0 where
  pub of_byte : ℕ → F
  pub sub : F → F → F
  pub div : F → F → F
  pub full : F
  pub mean : ℕ → F
  pub std : ℕ → F

-- A resized image: the value of a channel at a pixel.
abbrev pub Image : Type 0
Image = ℕ → ℕ → ℕ → ℕ

abbrev pub tabulate_from : {A : Type 0} → ℕ → ℕ → (ℕ → A) → List A
tabulate_from zero i f = []
tabulate_from (suc n) i f = f i ∷ tabulate_from n (suc i) f

-- The pixels of an image: the channels, the columns and the rows.
abbrev pub Pixels : Type 0 → Type 0
Pixels F = List (List (List F))

unfoldable pub pixels_of : {F : Type 0} → PixelOps F → ℕ → Image → Pixels F
pixels_of ops vision_size image = tabulate_from 3 0 λ channel. tabulate_from vision_size 0 λ x.
    tabulate_from vision_size 0 λ y.
      ops.div (ops.sub (ops.div (ops.of_byte (image channel x y)) ops.full) (ops.mean channel))
        (ops.std channel)

-- The visual model: its size, its decoder and its session.
pub record Vision (E F : Type 0) : Type 0 where
  pub vision_size : Option ℕ
  pub decode : ℕ → List ℕ → Result E Image
  pub run_images : List (Pixels F) → Result E (Output F)
  pub last_dimension : Option ℕ

module _ {E F : Type 0} (ops : PixelOps F) (enc : Vision E F) where
  abbrev pub size : ℕ
  size = size_or 224 enc.vision_size

  unfoldable pub decode_images : List (List ℕ) → Result (OrtError E) (List (Pixels F))
  unfolding pixels_of
  decode_images [] = ok []
  decode_images (bytes ∷ images_bytes) = or_failed (enc.decode size bytes) >>= λ image.
      decode_images images_bytes >>= λ rest. ok (pixels_of ops size image ∷ rest)

  unfoldable pub process_image_clip : List (List ℕ) → Result (OrtError E) (EmbeddingResult (List F))
  process_image_clip images_bytes = decode_images images_bytes >>= λ pixels.
      or_failed (enc.run_images pixels) >>= rows_of_output (length images_bytes * 3 * size * size)

-- Both branches of `process_image` run the same model.
abbrev pub process_image :
    {E F : Type 0}
    → PixelOps F
    → Vision E F
    → String
    → List (List ℕ)
    → Result (OrtError E) (EmbeddingResult (List F))
process_image ops enc name images_bytes =
    if str_eq name "clip/ViT-B-32-visual"
    then process_image_clip ops enc images_bytes
    else process_image_clip ops enc images_bytes

-- The images that were read.
abbrev pub filtered : List (List ℕ) → List (List ℕ)
filtered [] = []
filtered ([] ∷ buffers) = filtered buffers
filtered ((b ∷ buffer) ∷ buffers) = (b ∷ buffer) ∷ filtered buffers

-- The results mapped back: the invalid vector for an empty buffer, the next embedding for another.
unfoldable pub map_back :
    {E F : Type 0}
    → List F
    → List (List F)
    → ℕ
    → List (List ℕ)
    → Result (OrtError E) (List (List F))
map_back invalid embeddings idx [] = ok []
map_back invalid embeddings idx ([] ∷ buffers) =
    map_back invalid embeddings idx buffers >>= λ rest. ok (invalid ∷ rest)
map_back invalid embeddings idx ((b ∷ buffer) ∷ buffers) =
    unwrap (get_elem? embeddings idx) >>= λ vec.
    map_back invalid embeddings (idx + 1) buffers >>= λ rest. ok (vec ∷ rest)

module _ {E F : Type 0} (ops : PixelOps F) (minus_one : F) (enc : Vision E F) where
  abbrev pub model_result : String → List (List ℕ) → Result (OrtError E) (EmbeddingResult (List F))
  model_result name [] = ok (record { processed_tokens = 0; embeddings = [] })
  model_result name (b ∷ buffers) = process_image ops enc name (b ∷ buffers)

  -- The visual branch of `process`.
  unfoldable pub process_visual :
      World E → String → List String → Result (OrtError E) (EmbeddingResult (List F))
  unfolding get_images_parallel process_image_clip map_back
  process_visual w name inputs =
      let buffers = get_images_parallel w inputs in
      model_result name (filtered buffers) >>= λ model. unwrap enc.last_dimension >>= λ output_dims.
      map_back (replicate output_dims minus_one) model.embeddings 0 buffers >>= λ vectors.
      ok (record { processed_tokens = model.processed_tokens; embeddings = vectors })
