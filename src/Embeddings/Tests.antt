-- ===== src/Embeddings/Tests.antt =====
-- The theorems on lantern_cli/src/embeddings/core/ at concrete inputs.
use Prim.Native.String.{String}
use lanterndb.Prelude.{
  ℕ, zero, suc, ◌≡◌, false, refl, none, List, [], ◌∷◌, map, arith, length, concat, replicate, All,
  Result, ok, err,
}
use lanterndb.Embeddings.OpenAi
use lanterndb.Embeddings.Cohere
use lanterndb.Embeddings.OpenAi.{
  ModelInfo, model_new, embedding_generation, custom, open_ai, bearer, OpenAiError, OpenAiRuntime,
  OpenAiBody, group_vectors_by_token_count, truncated,
}
use lanterndb.Embeddings.OpenAi.Groups.{IsGroup}
use lanterndb.Embeddings.OpenAi.Requests.{body_tokens, chunk_inputs_tokens}
use lanterndb.Embeddings.Http.{
  Reply, request_error, answer, Session, EmbeddingResult, post_with_retries, post_request,
}
use lanterndb.Embeddings.Http.Retries.{IsRun, post_with_retries-IsRun}
use lanterndb.Embeddings.Http.Answers.{IsService}
use lanterndb.Embeddings.Cohere.{CohereRuntime, CohereModel, CohereBody, process}
use lanterndb.Embeddings.Cohere.Batches.{process_embeds}

abbrev vectors : List (List ℕ)
vectors = (1 ∷ 2 ∷ []) ∷ (3 ∷ []) ∷ (4 ∷ 5 ∷ 6 ∷ []) ∷ (7 ∷ []) ∷ []

groups :
    group_vectors_by_token_count vectors 3
    ≡ ((1 ∷ 2 ∷ []) ∷ (3 ∷ []) ∷ []) ∷ ((4 ∷ 5 ∷ 6 ∷ []) ∷ []) ∷ ((7 ∷ []) ∷ []) ∷ []
unfolding group_vectors_by_token_count
groups = refl

abbrev one_token : String → List ℕ
one_token _ = 5 ∷ []

abbrev openai_runtime : OpenAiRuntime
openai_runtime = record {
  url = "https://api.openai.com";
  auth = bearer "token";
  prompt = "";
  fixed_dimensions = none;
  deployment_type = open_ai;
}

abbrev ada : ModelInfo
ada = record {
  name = "text-embedding-ada-002";
  sequence_len = 8190;
  dimensions = 1536;
  var_dimension = false;
}

chunk_inputs_tokens_example :
    (bodies : List OpenAiBody) × (OpenAi.chunk_inputs one_token openai_runtime
        "text-embedding-ada-002"
        ("a" ∷ "b" ∷ [])
      ≡ ok bodies)
    × (concat (map (body_tokens one_token) bodies)
        ≡ map (λ input. truncated 8190 (one_token input)) ("a" ∷ "b" ∷ []))
    × All (λ body. IsGroup 8190 (body_tokens one_token body)) bodies
unfolding model_new
chunk_inputs_tokens_example =
    chunk_inputs_tokens one_token openai_runtime "text-embedding-ada-002" ("a" ∷ "b" ∷ []) ada
      (λ e. ground arith) refl

-- A service that fails once and then answers with the count of the texts.
abbrev flaky : ℕ → CohereBody → Reply × ℕ
flaky zero body = (request_error 110, 1)
flaky (suc n) body = (answer (length body.texts ∷ []), suc n)

abbrev parse : List ℕ → Result ℕ (EmbeddingResult ℕ)
parse (n ∷ bs) = ok (record { embeddings = replicate n 1; processed_tokens = n })
parse [] = err 1

abbrev ones : CohereBody → List ℕ
ones body = map (λ _. 1) body.texts

replicate-length : (xs : List String) → replicate (length xs) 1 ≡ map {B = ℕ} (λ _. 1) xs
replicate-length [] = refl
replicate-length (x ∷ xs) = cc (replicate-length xs)

flaky-IsService : IsService flaky parse ones
flaky-IsService = record { answers = λ s body bs r a p. flaky_answers s body bs r a p }
  where
    flaky_answers :
        (s : ℕ) (body : CohereBody) (bs : List ℕ) (r : EmbeddingResult ℕ)
        → (flaky s body).0 ≡ answer bs
        → parse bs ≡ ok r
        → r.embeddings ≡ ones body
    flaky_answers zero body bs r a p = cc
    flaky_answers (suc n) body bs r a p = ground (arith, a, p, replicate-length body.texts)

abbrev two_texts : CohereBody
two_texts = record {
  texts = "a" ∷ "b" ∷ [];
  model = "embed-english-v3.0";
  body_input_type = "search_document";
}

abbrev quiet : Session ℕ CohereBody
quiet = record { service = 0; requests = []; slept = [] }

abbrev asked_twice : Session ℕ CohereBody
asked_twice = record { service = 1; requests = two_texts ∷ two_texts ∷ []; slept = 4000 ∷ [] }

abbrev two_ones : EmbeddingResult ℕ
two_ones = record { embeddings = 1 ∷ 1 ∷ []; processed_tokens = 2 }

post_with_retries-IsRun_example : IsRun flaky parse two_texts 5 5 0 quiet (ok two_ones) asked_twice
unfolding post_with_retries
post_with_retries-IsRun_example =
    post_with_retries-IsRun flaky parse two_texts 5 quiet asked_twice (ok two_ones) refl

abbrev cohere_runtime : CohereRuntime
cohere_runtime = record { max_batch_size = 96; input_type = "search_document"; token = "t" }

abbrev english : CohereModel
english = record { name = "embed-english-v3.0"; sequence_len = 512; dimensions = 1024 }

process_embeds_example : two_ones.embeddings ≡ map (λ (text : String). 1) ("a" ∷ "b" ∷ [])
unfolding process Cohere.model_new Cohere.runtime_new post_request
process_embeds_example =
    process_embeds flaky parse (λ (text : String). 1) "t" none cohere_runtime "embed-english-v3.0"
      ("a" ∷ "b" ∷ []) english two_ones quiet asked_twice flaky-IsService refl refl refl
