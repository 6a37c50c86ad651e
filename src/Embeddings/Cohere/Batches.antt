-- ===== src/Embeddings/Cohere/Batches.antt =====
-- The batches of `chunk_inputs` and the embeddings of `process`,
-- lantern_cli/src/embeddings/core/cohere_runtime.rs.
use Prim.Native.String.{String}
use lanterndb.Prelude.{
  ℕ, ◌≤◌, ◌<◌, ◌≡◌, inl, inr, refl, ap, ◌∙◌, sym, Option, some, List, [], ◌∷◌, ◌++◌, map, arith,
  length, concat, All, Result, ok, result_cases, chunks, concat-chunk_loop, chunk_loop_sizes,
}
use lanterndb.Embeddings.Http.{Reply, Session, EmbeddingResult, post_request}
use lanterndb.Embeddings.Http.Answers.{IsService, post_request_answers}
use lanterndb.Embeddings.Cohere.{
  CohereError, CohereModel, CohereRuntime, CohereBody, runtime_new, model_new, chunk_inputs,
  process, posted, batch_bodies,
}

abbrev body_of : CohereRuntime → String → List String → CohereBody
body_of runtime name batch = record {
  texts = batch;
  model = name;
  body_input_type = runtime.input_type;
}

abbrev pub texts_of : CohereBody → List String
texts_of body = body.texts

body_texts :
    (runtime : CohereRuntime) (name : String) (batches : List (List String))
    → map texts_of (map (body_of runtime name) batches) ≡ batches
body_texts runtime name [] = refl
body_texts runtime name (b ∷ batches) =
    ap (λ (t : List (List String)). b ∷ t) (body_texts runtime name batches)

body_sizes :
    (runtime : CohereRuntime) (name : String) (size : ℕ) (batches : List (List String))
    → All (λ batch. (0 < length batch) × (length batch ≤ size)) batches
    → All
        (λ (body : CohereBody). (0 < length body.texts) × (length body.texts ≤ size))
        (map (body_of runtime name) batches)
body_sizes runtime name size [] h = tt
body_sizes runtime name size (b ∷ batches) h = (h.0, body_sizes runtime name size batches h.1)

-- For a known model and a positive batch size, the requests hold the inputs, all of them and in
-- order, and no request is empty or exceeds the batch size.
pub chunk_inputs_batches :
    (runtime : CohereRuntime) (model_name : String) (inputs : List String) (info : CohereModel)
    → 0 < runtime.max_batch_size
    → model_new model_name ≡ ok info
    → (bodies : List CohereBody) × (chunk_inputs runtime model_name inputs ≡ ok bodies)
      × (concat (map texts_of bodies) ≡ inputs)
      × All
          (λ (body : CohereBody).
            (0 < length body.texts) × (length body.texts ≤ runtime.max_batch_size))
          bodies
unfolding chunk_inputs
chunk_inputs_batches runtime model_name inputs info pos known =
    let batches = chunks runtime.max_batch_size inputs in
    (
      map (body_of runtime info.name) batches,
      ap (batch_bodies runtime inputs) known,
      ap concat (body_texts runtime info.name batches)
          ∙ concat-chunk_loop (length inputs) runtime.max_batch_size inputs pos (omega arith),
      body_sizes runtime info.name runtime.max_batch_size batches
          (chunk_loop_sizes (length inputs) runtime.max_batch_size inputs pos),
    )

module _ {S E : Type 0} (post : S → CohereBody → Reply × S)
    (get_response : List ℕ → Result ℕ (EmbeddingResult E)) (embed : String → E) where
  map-append : (xs ys : List String) → map embed (xs ++ ys) ≡ map embed xs ++ map embed ys
  map-append [] ys = refl
  map-append (x ∷ xs) ys = ap (λ (t : List E). embed x ∷ t) (map-append xs ys)

  map-concat :
      (bodies : List CohereBody)
      → concat (map (λ (body : CohereBody). map embed body.texts) bodies)
        ≡ map embed (concat (map texts_of bodies))
  map-concat [] = refl
  map-concat (body ∷ bodies) =
      ap (λ (t : List E). map embed body.texts ++ t) (map-concat bodies)
      ∙ sym (map-append body.texts (concat (map texts_of bodies)))

  posted_embeds :
      (bodies : List CohereBody) (r : EmbeddingResult E) (s s' : Session S CohereBody)
      (m : Result CohereError (List CohereBody))
      → IsService post get_response (λ body. map embed body.texts)
      → m ≡ ok bodies
      → posted post get_response s m ≡ (ok r, s')
      → r.embeddings ≡ map embed (concat (map texts_of bodies))
  posted_embeds bodies r s s' m law e h =
      elim (result_cases (post_request post get_response bodies s)) [
        | inl (a, s₁, f) ↦
            let got =
              post_request_answers post get_response (λ body. map embed body.texts) law bodies a s
                s₁ f in
            let same : a ≡ r = ground (arith, rw f at (rw e at h)) in
            ap (λ (t : EmbeddingResult E). t.embeddings) (sym same) ∙ (got ∙ map-concat bodies)
        | inr (x, s₁, f) ↦ cc (rw f at (rw e at h))
      ]

  -- With a service that answers a body with the embeddings of its texts in their order, whatever
  -- requests failed on the way: a runtime that `new` has made, asked for a known model, either fails
  -- or gives one embedding for each input, in the order of the inputs.
  pub process_embeds :
      (token : String) (input_type : Option String) (runtime : CohereRuntime) (model_name : String)
      (inputs : List String) (info : CohereModel) (r : EmbeddingResult E)
      (s s' : Session S CohereBody)
      → IsService post get_response (λ body. map embed body.texts)
      → runtime_new (some token) input_type ≡ ok runtime
      → model_new model_name ≡ ok info
      → process post get_response runtime model_name inputs s ≡ (ok r, s')
      → r.embeddings ≡ map embed inputs
  unfolding process runtime_new
  process_embeds token input_type runtime model_name inputs info r s s' law made known h =
      let x = chunk_inputs_batches runtime model_name inputs info (ground (arith, made)) known in
      posted_embeds x.0 r s s' (chunk_inputs runtime model_name inputs) law x.1 h
      ∙ ap (map embed) x.2
