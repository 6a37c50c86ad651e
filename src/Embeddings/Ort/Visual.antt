-- ===== src/Embeddings/Ort/Visual.antt =====
-- The visual branch of `process` in lantern_cli/src/embeddings/core/ort_runtime.rs keeps the results
-- with their inputs.
use Prim.Native.String.{String}
use text.Mathlib.Text.{◌==◌ as str_eq}
use lanterndb.Prelude.{
  ℕ, zero, suc, ◌+◌, ◌*◌, ◌<◌, ◌≡◌, refl, ap, sym, ◌∙◌, inl, inr, Bool-cases, some, List, [], ◌∷◌,
  ◌++◌, map, arith, append_assoc, length, length-append, concat, replicate, get_elem?, All,
  chunk_loop-concat, ok,
}
use lanterndb.Embeddings.Http.{EmbeddingResult}
use lanterndb.Embeddings.Ort.Text.{rows_of_output}
use lanterndb.Embeddings.Ort.Images.{
  World, get_image_buffer, get_images_parallel, buffer_or_empty, PixelOps, Image, Pixels, pixels_of,
  Vision, size, decode_images, process_image_clip, filtered, map_back, model_result, process_visual,
}

-- The session gives each image its vector, all of the dimension that it declares.
pub record IsVision {E F : Type 0} (enc : Vision E F) (dims : ℕ) (embed : Pixels F → List F)
    : Type 0 where
  pub wide : 0 < dims
  pub declared : enc.last_dimension ≡ some dims
  pub length_embed : (p : Pixels F) → length (embed p) ≡ dims
  pub run :
      (images : List (Pixels F))
      → enc.run_images images
        ≡ ok (record { seq_len = some dims; items = concat (map embed images) })

get_elem?-length :
    {F : Type 0} (xs : List (List F)) (a : List F) (ys : List (List F))
    → get_elem? (xs ++ a ∷ ys) (length xs) ≡ some a
get_elem?-length [] a ys = refl
get_elem?-length (x ∷ xs) a ys = get_elem?-length xs a ys

rows_of_output_lem :
    {E F : Type 0} (tokens dims : ℕ) (vectors : List (List F))
    → 0 < dims
    → All (λ v. length v ≡ dims) vectors
    → rows_of_output {E = E} tokens (record { seq_len = some dims; items = concat vectors })
      ≡ ok (record { processed_tokens = tokens; embeddings = vectors })
rows_of_output_lem tokens zero vectors wide h = absurd (omega arith)
rows_of_output_lem tokens (suc k) vectors wide h =
    ap (λ t. ok (record { processed_tokens = tokens; embeddings = t }))
      (chunk_loop-concat (length (concat vectors)) (suc k) vectors wide h (omega arith))

module _ {E F : Type 0} (ops : PixelOps F) (minus_one : F) (enc : Vision E F) (dims : ℕ)
    (embed : Pixels F → List F) (decoded : List ℕ → Image) where
  abbrev pub IsDecoded : List ℕ → Type 0
  IsDecoded b = enc.decode (size ops enc) b ≡ ok (decoded b)

  abbrev pub vector : List ℕ → List F
  vector b = embed (pixels_of ops (size ops enc) (decoded b))

  -- What an input gets: the invalid vector, if its image could not be read.
  abbrev pub vector_or_invalid : List ℕ → List F
  vector_or_invalid [] = replicate dims minus_one
  vector_or_invalid (c ∷ b) = vector (c ∷ b)

  decode_images_lem :
      (bs : List (List ℕ))
      → All IsDecoded bs
      → decode_images ops enc bs ≡ ok (map (λ b. pixels_of ops (size ops enc) (decoded b)) bs)
  unfolding decode_images
  decode_images_lem [] h = refl
  decode_images_lem (b ∷ bs) h = rw (h.0, decode_images_lem bs h.1) refl

  map-vector :
      (bs : List (List ℕ))
      → map embed (map (λ b. pixels_of ops (size ops enc) (decoded b)) bs) ≡ map vector bs
  map-vector [] = refl
  map-vector (b ∷ bs) = ap (λ t. vector b ∷ t) (map-vector bs)

  module _ (law : IsVision enc dims embed) where
    vectors_wide : (bs : List (List ℕ)) → All (λ v. length v ≡ dims) (map vector bs)
    vectors_wide [] = tt
    vectors_wide (b ∷ bs) =
        (law.length_embed (pixels_of ops (size ops enc) (decoded b)), vectors_wide bs)

    run_lem :
        (bs : List (List ℕ))
        → enc.run_images (map (λ b. pixels_of ops (size ops enc) (decoded b)) bs)
          ≡ ok (record { seq_len = some dims; items = concat (map vector bs) })
    run_lem bs =
        law.run (map (λ b. pixels_of ops (size ops enc) (decoded b)) bs)
        ∙ ap (λ t. ok (record { seq_len = some dims; items = concat t })) (map-vector bs)

    process_image_clip_lem :
        (bs : List (List ℕ))
        → All IsDecoded bs
        → process_image_clip ops enc bs
          ≡ ok (record {
            processed_tokens = length bs * 3 * size ops enc * size ops enc;
            embeddings = map vector bs;
          })
    unfolding process_image_clip
    process_image_clip_lem bs h =
        rw (decode_images_lem bs h, run_lem bs)
          (rows_of_output_lem (length bs * 3 * size ops enc * size ops enc) dims (map vector bs)
            law.wide (vectors_wide bs))

    model_result_lem :
        (name : String) (bs : List (List ℕ))
        → All IsDecoded bs
        → (tokens : ℕ) × (model_result ops minus_one enc name bs
            ≡ ok (record { processed_tokens = tokens; embeddings = map vector bs }))
    model_result_lem name [] h = (0, refl)
    model_result_lem name (b ∷ bs) h = (
      length (b ∷ bs) * 3 * size ops enc * size ops enc,
      elim (Bool-cases (str_eq name "clip/ViT-B-32-visual")) [
        | inl e ↦ rw e (process_image_clip_lem (b ∷ bs) h)
        | inr e ↦ rw e (process_image_clip_lem (b ∷ bs) h)
      ],
    )

    map_back_lem :
        (done embeddings : List (List F)) (idx : ℕ) (bs : List (List ℕ))
        → idx ≡ length done
        → embeddings ≡ done ++ map vector (filtered bs)
        → map_back {E = E} (replicate dims minus_one) embeddings idx bs
          ≡ ok (map vector_or_invalid bs)
    unfolding map_back
    map_back_lem done embeddings idx [] e h = refl
    map_back_lem done embeddings idx ([] ∷ bs) e h =
        rw (map_back_lem done embeddings idx bs e h) refl
    map_back_lem done embeddings idx ((c ∷ b) ∷ bs) e h =
        let v = vector (c ∷ b) in
        let at_ : get_elem? embeddings idx ≡ some v =
          rw (h, e) (get_elem?-length done v (map vector (filtered bs))) in
        rw
          (
            at_,
            map_back_lem (done ++ v ∷ []) embeddings (idx + 1) bs
                (omega (arith, length-append done (v ∷ [])))
                (h ∙ sym (append_assoc done (v ∷ []) (map vector (filtered bs)))),
          )
          refl

    map_compose :
        (w : World E) (inputs : List String)
        → map vector_or_invalid (get_images_parallel w inputs)
          ≡ map (λ input. vector_or_invalid (buffer_or_empty (get_image_buffer w input))) inputs
    unfolding get_images_parallel
    map_compose w [] = refl
    map_compose w (input ∷ inputs) =
        ap (λ t. vector_or_invalid (buffer_or_empty (get_image_buffer w input)) ∷ t)
          (map_compose w inputs)

    -- If every image that was read can be decoded: each input gets the vector of its own image, and
    -- the invalid vector where the image could not be read, in the order of the inputs.
    pub process_visual_vectors :
        (w : World E) (name : String) (inputs : List String)
        → All IsDecoded (filtered (get_images_parallel w inputs))
        → (r : EmbeddingResult (List F)) × (process_visual ops minus_one enc w name inputs ≡ ok r)
          × (r.embeddings
              ≡ map
                  (λ input. vector_or_invalid (buffer_or_empty (get_image_buffer w input)))
                  inputs)
    unfolding process_visual
    process_visual_vectors w name inputs h =
        let buffers = get_images_parallel w inputs in
        let model = model_result_lem name (filtered buffers) h in
        (
          record { processed_tokens = model.0; embeddings = map vector_or_invalid buffers },
          rw
              (
                model.1,
                law.declared,
                map_back_lem [] (map vector (filtered buffers)) 0 buffers refl refl,
              )
              refl,
          map_compose w inputs,
        )
