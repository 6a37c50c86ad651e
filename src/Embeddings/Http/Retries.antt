-- ===== src/Embeddings/Http/Retries.antt =====
-- How often `post_with_retries` of lantern_cli/src/embeddings/core/utils.rs asks, and how long it
-- waits in between.
use lanterndb.Prelude.{
  ℕ, zero, suc, ◌+◌, ◌*◌, ◌≤◌, ◌≡◌, ◌⊎◌, inl, inr, refl, ap, ◌∙◌, Option, none, some, List, [], ◌∷◌,
  ◌++◌, append_assoc, append-nil, arith, replicate, Result, ok, err,
}
use lanterndb.Embeddings.Http.{
  Reply, request_error, body_error, answer, PostError, body_broken, all_failed, Session,
  starting_interval, retry_loop, requested, post_with_retries,
}

-- The waits after `n` attempts from attempt `i` on.
abbrev pub backoffs : ℕ → ℕ → List ℕ
backoffs zero i = []
backoffs (suc n) i = (starting_interval * (i + 1)) ∷ backoffs n (suc i)

-- What a failed attempt leaves.
pub reply_cases :
    {A : Type 0} (get_response : List ℕ → Result ℕ A) (r : Reply)
    → ((e : ℕ) × (r ≡ request_error e))
      ⊎ ((e : ℕ) × (r ≡ body_error e))
      ⊎ ((bs : List ℕ) × (a : A) × (r ≡ answer bs) × (get_response bs ≡ ok a))
      ⊎ ((bs : List ℕ) × (e : ℕ) × (r ≡ answer bs) × (get_response bs ≡ err e))
reply_cases get_response (request_error e) = inl (e, refl)
reply_cases get_response (body_error e) = inr (inl (e, refl))
reply_cases {A} get_response (answer bs) = parsed (get_response bs) refl
  where
    parsed :
        (m : Result ℕ A)
        → get_response bs ≡ m
        → ((e : ℕ) × (answer bs ≡ request_error e))
          ⊎ ((e : ℕ) × (answer bs ≡ body_error e))
          ⊎ ((bs' : List ℕ) × (a : A) × (answer bs ≡ answer bs') × (get_response bs' ≡ ok a))
          ⊎ ((bs' : List ℕ) × (e : ℕ) × (answer bs ≡ answer bs') × (get_response bs' ≡ err e))
    parsed (ok a) h = inr (inr (inl (bs, a, refl, h)))
    parsed (err e) h = inr (inr (inr (bs, e, refl, h)))

module _ {S B A : Type 0} (post : S → B → Reply × S) (get_response : List ℕ → Result ℕ A) where
  -- The attempts and waits of a run with `left` attempts from attempt `i` on: all of them, each
  -- followed by a wait, or one more than there were waits.
  abbrev pub IsRun : B → ℕ → ℕ → ℕ → Session S B → Result PostError A → Session S B → Type 0
  IsRun body limit left i s r s' =
      (attempts : ℕ) × (waits : ℕ) × (s'.requests ≡ s.requests ++ replicate attempts body)
      × (s'.slept ≡ s.slept ++ backoffs waits i)
      × (((x : Option ℕ) × (r ≡ err (all_failed limit x)) × (attempts ≡ left) × (waits ≡ left))
          ⊎ (((a : A) × (r ≡ ok a)) ⊎ ((x : ℕ) × (r ≡ err (body_broken x))))
            × (attempts ≡ waits + 1)
            × (attempts ≤ left))

  one_more :
      (body : B) (limit left i : ℕ) (s s₁ s' : Session S B) (r : Result PostError A)
      → s₁.requests ≡ s.requests ++ body ∷ []
      → s₁.slept ≡ s.slept ++ (starting_interval * (i + 1)) ∷ []
      → IsRun body limit left (suc i) s₁ r s'
      → IsRun body limit (suc left) i s r s'
  one_more body limit left i s s₁ s' r asked waited (attempts, waits, p, q, inl (x, e, m, n)) = (
    suc attempts,
    suc waits,
    p
        ∙ (ap (λ (t : List B). t ++ replicate attempts body) asked
            ∙ append_assoc s.requests (body ∷ []) (replicate attempts body)),
    q
        ∙ (ap (λ (t : List ℕ). t ++ backoffs waits (suc i)) waited
            ∙ append_assoc s.slept ((starting_interval * (i + 1)) ∷ []) (backoffs waits (suc i))),
    inl (x, e, omega arith, omega arith),
  )
  one_more body limit left i s s₁ s' r asked waited (attempts, waits, p, q, inr (e, m, n)) = (
    suc attempts,
    suc waits,
    p
        ∙ (ap (λ (t : List B). t ++ replicate attempts body) asked
            ∙ append_assoc s.requests (body ∷ []) (replicate attempts body)),
    q
        ∙ (ap (λ (t : List ℕ). t ++ backoffs waits (suc i)) waited
            ∙ append_assoc s.slept ((starting_interval * (i + 1)) ∷ []) (backoffs waits (suc i))),
    inr (e, omega arith, omega arith),
  )

  retry_loop-IsRun :
      (body : B) (limit left i : ℕ) (e : Option ℕ) (s s' : Session S B) (r : Result PostError A)
      → retry_loop post get_response body limit left i e s ≡ (r, s')
      → IsRun body limit left i s r s'
  unfolding retry_loop
  retry_loop-IsRun body limit zero i e s s' r h = (
    0,
    0,
    ground (arith, append-nil s.requests),
    ground (arith, append-nil s.slept),
    inl (e, ground arith, refl, refl),
  )
  retry_loop-IsRun body limit (suc left) i e s s' r h =
      let asked = requested post get_response body s in
      elim (reply_cases get_response (post s.service body).0) [
        | inl (x, f) ↦
            let waited = record asked { slept = s.slept ++ (starting_interval * (i + 1)) ∷ [] } in
            one_more body limit left i s waited s' r refl refl
              (retry_loop-IsRun body limit left (suc i) (some x) waited s' r (rw f at h))
        | inr (inl (x, f)) ↦ (
          1,
          0,
          ground (arith, rw f at h),
          ground (arith, append-nil s.slept, rw f at h),
          inr (inr (x, ground (arith, rw f at h)), refl, omega arith),
        )
        | inr (inr (inl (bs, a, f, g))) ↦ (
          1,
          0,
          ground (arith, rw (f, g) at h),
          ground (arith, append-nil s.slept, rw (f, g) at h),
          inr (inl (a, ground (arith, rw (f, g) at h)), refl, omega arith),
        )
        | inr (inr (inr (bs, x, f, g))) ↦
            let waited = record asked { slept = s.slept ++ (starting_interval * (i + 1)) ∷ [] } in
            one_more body limit left i s waited s' r refl refl
              (retry_loop-IsRun body limit left (suc i) (some x) waited s' r (rw (f, g) at h))
      ]

  -- A request is made again only after a wait of 4, 8, 12 … seconds. When all attempts fail, there
  -- were `max_retries` of them, with a wait after each, the last included; a run that ends with an
  -- answer, or with a body that breaks off, made one attempt more than it waited and at most
  -- `max_retries`.
  pub post_with_retries-IsRun :
      (body : B) (max_retries : ℕ) (s s' : Session S B) (r : Result PostError A)
      → post_with_retries post get_response body max_retries s ≡ (r, s')
      → IsRun body max_retries max_retries 0 s r s'
  unfolding post_with_retries
  post_with_retries-IsRun body max_retries s s' r h =
      retry_loop-IsRun body max_retries max_retries 0 none s s' r h
