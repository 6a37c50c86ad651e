-- ===== src/Embeddings/Http/Answers.antt =====
-- The embeddings that `post_request` of lantern_cli/src/embeddings/core/http_runtime.rs collects.
use lanterndb.Prelude.{
  ℕ, zero, suc, ◌+◌, ◌≡◌, inl, inr, Option, none, some, List, [], ◌∷◌, ◌++◌, map, append_assoc,
  append-nil, arith, concat, Result, ok, result_cases,
}
use lanterndb.Embeddings.Http.{
  Reply, answer, Session, EmbeddingResult, retry_loop, requested, post_with_retries, post_loop,
  post_request,
}
use lanterndb.Embeddings.Http.Retries.{reply_cases}

-- The service answers a body with the embeddings of its inputs, in their order, whenever its answer
-- can be parsed.
pub record IsService {S B E : Type 0} (post : S → B → Reply × S)
    (get_response : List ℕ → Result ℕ (EmbeddingResult E)) (expected : B → List E) : Type 0 where
  pub answers :
      (s : S) (body : B) (bs : List ℕ) (r : EmbeddingResult E)
      → (post s body).0 ≡ answer bs
      → get_response bs ≡ ok r
      → r.embeddings ≡ expected body

module _ {S B E : Type 0} (post : S → B → Reply × S)
    (get_response : List ℕ → Result ℕ (EmbeddingResult E)) (expected : B → List E)
    (law : IsService post get_response expected) where
  retry_loop_answer :
      (body : B) (limit left i : ℕ) (e : Option ℕ) (s s' : Session S B) (r : EmbeddingResult E)
      → retry_loop post get_response body limit left i e s ≡ (ok r, s')
      → r.embeddings ≡ expected body
  unfolding retry_loop
  retry_loop_answer body limit zero i e s s' r h = cc
  retry_loop_answer body limit (suc left) i e s s' r h =
      let asked = requested post get_response body s in
      elim (reply_cases get_response (post s.service body).0) [
        | inl (x, f) ↦ retry_loop_answer body limit left (suc i) (some x) _ s' r (rw f at h)
        | inr (inl (x, f)) ↦ cc (rw f at h)
        | inr (inr (inl (bs, a, f, g))) ↦
            ground (arith, rw (f, g) at h, law.answers s.service body bs a f g)
        | inr (inr (inr (bs, x, f, g))) ↦
            retry_loop_answer body limit left (suc i) (some x) _ s' r (rw (f, g) at h)
      ]

  post_loop_answers :
      (bodies : List B) (acc r : EmbeddingResult E) (s s' : Session S B)
      → post_loop post get_response bodies acc s ≡ (ok r, s')
      → r.embeddings ≡ acc.embeddings ++ concat (map expected bodies)
  unfolding post_loop post_with_retries
  post_loop_answers [] acc r s s' h = ground (arith, append-nil acc.embeddings)
  post_loop_answers (body ∷ bodies) acc r s s' h =
      elim (result_cases (post_with_retries post get_response body 5 s)) [
        | inl (a, s₁, e) ↦
            let got = retry_loop_answer body 5 5 0 none s s₁ a e in
            let rest =
              post_loop_answers bodies
                (record {
                  embeddings = acc.embeddings ++ a.embeddings;
                  processed_tokens = acc.processed_tokens + a.processed_tokens;
                })
                r s₁ s' (rw e at h) in
            cc (
              rest,
              got,
              append_assoc acc.embeddings (expected body) (concat (map expected bodies)),
            )
        | inr (x, s₁, e) ↦ cc (rw e at h)
      ]

  -- With a service that answers each body with the embeddings expected for it: when the whole
  -- request succeeds, its embeddings are those of the bodies, body after body.
  pub post_request_answers :
      (bodies : List B) (r : EmbeddingResult E) (s s' : Session S B)
      → post_request post get_response bodies s ≡ (ok r, s')
      → r.embeddings ≡ concat (map expected bodies)
  unfolding post_request
  post_request_answers bodies r s s' h =
      post_loop_answers bodies (record { embeddings = []; processed_tokens = 0 }) r s s' h
