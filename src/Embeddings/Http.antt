-- ===== src/Embeddings/Http.antt =====
-- Requests with retries: `post_with_retries` of lantern_cli/src/embeddings/core/utils.rs and
-- `post_request` of lantern_cli/src/embeddings/core/http_runtime.rs. The client, the service and the
-- parsing of an answer are parameters.
pub mod Retries
pub mod Answers
use lanterndb.Prelude.{
  ℕ, zero, suc, ◌+◌, ◌*◌, Option, none, some, List, [], ◌∷◌, ◌++◌, Result, ok, err,
}

-- What a request gives: an error of the client, an answer whose body breaks off, or its bytes.
pub data Reply : Type 0 where
  request_error : ℕ → Reply
  body_error : ℕ → Reply
  answer : List ℕ → Reply

-- `all_failed` holds the number of requests and the last error, if there was one.
pub data PostError : Type 0 where
  body_broken : ℕ → PostError
  all_failed : ℕ → Option ℕ → PostError

-- The service, the requests made and the milliseconds slept, the latest last.
pub record Session (S B : Type 0) : Type 0 where
  pub service : S
  pub requests : List B
  pub slept : List ℕ

pub record EmbeddingResult (E : Type 0) : Type 0 where
  pub embeddings : List E
  pub processed_tokens : ℕ

abbrev pub starting_interval : ℕ
starting_interval = 4000

module _ {S B A : Type 0} (post : S → B → Reply × S) (get_response : List ℕ → Result ℕ A) where
  abbrev pub failed_attempt :
      (ℕ → Session S B → Result PostError A × Session S B)
      → ℕ
      → ℕ
      → Session S B
      → Result PostError A × Session S B
  failed_attempt retry i e s =
      retry e (record s { slept = s.slept ++ (starting_interval * (i + 1)) ∷ [] })

  abbrev on_response :
      (ℕ → Session S B → Result PostError A × Session S B)
      → ℕ
      → Session S B
      → Result ℕ A
      → Result PostError A × Session S B
  on_response retry i s (ok result) = (ok result, s)
  on_response retry i s (err e) = failed_attempt retry i e s

  pub on_reply :
      (ℕ → Session S B → Result PostError A × Session S B)
      → ℕ
      → Session S B
      → Reply
      → Result PostError A × Session S B
  on_reply retry i s (request_error e) = failed_attempt retry i e s
  on_reply retry i s (body_error e) = (err (body_broken e), s)
  on_reply retry i s (answer bytes) = on_response retry i s (get_response bytes)

  abbrev pub requested : B → Session S B → Session S B
  requested body s = record s {
    service = (post s.service body).1;
    requests = s.requests ++ body ∷ [];
  }

  -- The loop from attempt `i`, with `left` attempts left.
  pub retry_loop : B → ℕ → ℕ → ℕ → Option ℕ → Session S B → Result PostError A × Session S B
  unfolding on_reply
  retry_loop body max_retries zero i last_error s = (err (all_failed max_retries last_error), s)
  retry_loop body max_retries (suc left) i last_error s =
      on_reply (λ e s'. retry_loop body max_retries left (suc i) (some e) s') i (requested body s)
        (post s.service body).0

  unfoldable pub post_with_retries : B → ℕ → Session S B → Result PostError A × Session S B
  unfolding retry_loop
  post_with_retries body max_retries s = retry_loop body max_retries max_retries 0 none s

module _ {S B E : Type 0} (post : S → B → Reply × S)
    (get_response : List ℕ → Result ℕ (EmbeddingResult E)) where
  abbrev pub extended :
      (EmbeddingResult E → Session S B → Result PostError (EmbeddingResult E) × Session S B)
      → EmbeddingResult E
      → Result PostError (EmbeddingResult E) × Session S B
      → Result PostError (EmbeddingResult E) × Session S B
  extended rest responses (ok r, s) =
      rest
        (record {
          embeddings = responses.embeddings ++ r.embeddings;
          processed_tokens = responses.processed_tokens + r.processed_tokens;
        })
        s
  extended rest responses (err e, s) = (err e, s)

  pub post_loop :
      List B → EmbeddingResult E → Session S B → Result PostError (EmbeddingResult E) × Session S B
  post_loop [] responses s = (ok responses, s)
  post_loop (body ∷ bodies) responses s =
      extended (λ r s'. post_loop bodies r s') responses
        (post_with_retries post get_response body 5 s)

  -- `post_request`, from the bodies that `chunk_inputs` gave.
  unfoldable pub post_request :
      List B → Session S B → Result PostError (EmbeddingResult E) × Session S B
  unfolding post_loop post_with_retries
  post_request bodies s = post_loop bodies (record { embeddings = []; processed_tokens = 0 }) s
