-- ===== src/Embeddings/Driver/Worker/Answers.antt =====
-- The records that `embedding_worker`, lantern_cli/src/embeddings/mod.rs, sends of all the rows.
use mathlib.Core.List.{reverse, reverse_aux, reverse_perm, Perm, map-append}
use mathlib.Core.List.Perm
use lanterndb.Prelude.{
  concat-append, length-append, length-map, ℕ, ◌+◌, ◌≡◌, refl, sym, ap, ◌∙◌, Bool, true, List, [],
  ◌∷◌, ◌++◌, map, arith, append_assoc, append-nil, length, concat, Result, ok,
}
use lanterndb.Embeddings.Driver.Records.{EmbeddingRecord, from_vec, from_string}
use lanterndb.Embeddings.Driver.Worker.{
  Row, EmbeddingJobType, embedding_generation, completion, batch, Worker, answered, generate,
  embedding_worker,
}
use lanterndb.Embeddings.Driver.Worker.Batches.{
  send_open, columns, kept, kept-append, inputs_of-kept, record_of, pop_pairs-reverse,
}

length-reverse_aux :
    {A : Type 0} (xs ys : List A) → length (reverse_aux xs ys) ≡ length xs + length ys
length-reverse_aux [] ys = omega arith
length-reverse_aux (x ∷ xs) ys = omega (arith, length-reverse_aux xs (x ∷ ys))

-- The record of a kept row.
abbrev pub record_for :
    {F : Type 0}
    → (F → List ℕ)
    → (List ℕ → List F)
    → (List ℕ → List ℕ)
    → EmbeddingJobType
    → List ℕ × List ℕ
    → EmbeddingRecord
record_for show embed complete embedding_generation = record_of (from_vec show) embed
record_for show embed complete completion = record_of from_string complete

module _ {F E R : Type 0} (is_whitespace : ℕ → Bool) (show : F → List ℕ)
    (process : R → List (List ℕ) → Result E (List (List F) × ℕ) × R)
    (batch_completion : R → List (List ℕ) → Result E (List (List ℕ) × ℕ) × R)
    (embed : List ℕ → List F) (complete : List ℕ → List ℕ)
    (process_works : (r : R) (inputs : List (List ℕ))
      → (tokens : ℕ) × (r' : R) × (process r inputs ≡ (ok (map embed inputs, tokens), r')))
    (completion_works : (r : R) (inputs : List (List ℕ))
      → (tokens : ℕ) × (r' : R) × (batch_completion r inputs
          ≡ (ok (map complete inputs, tokens), r'))) where
  abbrev Sent : Type 0
  Sent = List (List EmbeddingRecord)

  -- `pairs` are embedded, counted and sent between the states.
  abbrev Moves : EmbeddingJobType → List (List ℕ × List ℕ) → Worker R Sent → Worker R Sent → Type 0
  Moves job_type pairs s t =
      Perm (concat t.tx) (concat s.tx ++ map (record_for show embed complete job_type) pairs)
      × (t.count ≡ s.count + length pairs)
      × (length (concat t.tx) ≡ length (concat s.tx) + length pairs)

  answered_lem :
      {V : Type 0} (make : List ℕ → V → EmbeddingRecord) (f : List ℕ → V)
      (pairs : List (List ℕ × List ℕ)) (tokens : ℕ) (r : R) (s : Worker R Sent)
      → (t : Worker R Sent) × (answered is_whitespace show process batch_completion send_open make
            (map (λ p. p.0) pairs)
            (ok (map f (map (λ p. p.1) pairs), tokens), r)
            s
          ≡ (ok true, t))
        × (Perm (concat t.tx) (concat s.tx ++ map (record_of make f) pairs)
            × (t.count ≡ s.count + length pairs)
            × (length (concat t.tx) ≡ length (concat s.tx) + length pairs))
  answered_lem make f pairs tokens r s = rw (pop_pairs-reverse make f pairs) (
    record {
      count = s.count + length (map f (map (λ (p : List ℕ × List ℕ). p.1) pairs));
      processed_tokens = s.processed_tokens + tokens;
      runtime = r;
      tx = s.tx ++ reverse (map (record_of make f) pairs) ∷ [];
    },
    refl,
    (
      rw
          (
            concat-append s.tx (reverse (map (record_of make f) pairs) ∷ []),
            append-nil (reverse (map (record_of make f) pairs)),
          )
          (Perm.append_left (concat s.tx) (reverse_perm (map (record_of make f) pairs))),
      ap (λ n. s.count + n)
          (length-map f (map (λ (p : List ℕ × List ℕ). p.1) pairs)
            ∙ length-map (λ (p : List ℕ × List ℕ). p.1) pairs),
      rw
          (
            concat-append s.tx (reverse (map (record_of make f) pairs) ∷ []),
            append-nil (reverse (map (record_of make f) pairs)),
          )
          (omega (
            arith,
            length-append (concat s.tx) (reverse (map (record_of make f) pairs)),
            length-reverse_aux (map (record_of make f) pairs) [],
            length-map (record_of make f) pairs,
          )),
    ),
  )

  generate_lem :
      (job_type : EmbeddingJobType) (pairs : List (List ℕ × List ℕ)) (s : Worker R Sent)
      → (t : Worker R Sent) × (generate is_whitespace show process batch_completion send_open
            job_type
            (columns pairs)
            s
          ≡ (ok true, t))
        × Moves job_type pairs s t
  unfolding generate
  generate_lem job_type [] s =
      (s, refl, (rw (append-nil (concat s.tx)) Perm.rfl, omega arith, omega arith))
  generate_lem embedding_generation (p ∷ pairs) s =
      let w = process_works s.runtime (map (λ q. q.1) (p ∷ pairs)) in
      rw w.2 (answered_lem (from_vec show) embed (p ∷ pairs) w.0 w.1 s)
  generate_lem completion (p ∷ pairs) s =
      let w = completion_works s.runtime (map (λ q. q.1) (p ∷ pairs)) in
      rw w.2 (answered_lem from_string complete (p ∷ pairs) w.0 w.1 s)

  Moves-trans :
      (job_type : EmbeddingJobType) (xs ys : List Row) (s t u : Worker R Sent)
      → Moves job_type (kept is_whitespace xs) s t
      → Moves job_type (kept is_whitespace ys) t u
      → Moves job_type (kept is_whitespace (xs ++ ys)) s u
  Moves-trans job_type xs ys s t u h k =
      let f = record_for show embed complete job_type in
      rw
        (
          kept-append is_whitespace xs ys,
          map-append f (kept is_whitespace xs) (kept is_whitespace ys),
          sym (
              append_assoc (concat s.tx) (map f (kept is_whitespace xs))
                (map f (kept is_whitespace ys))),
        )
        (
          Perm.trans k.0 (Perm.append h.0 Perm.rfl),
          omega (arith, h.1, k.1, length-append (kept is_whitespace xs) (kept is_whitespace ys)),
          omega (arith, h.2, k.2, length-append (kept is_whitespace xs) (kept is_whitespace ys)),
        )

  -- With a runtime that answers every input and an open channel the worker returns its tokens. The
  -- records sent, those of before included, are a permutation of those of before and one record for
  -- each row that has a text with more than spaces; their number and `count` grow by
  -- the number of these rows.
  pub embedding_worker_lem :
      (job_type : EmbeddingJobType) (batches : List (List Row)) (s : Worker R Sent)
      → (t : Worker R Sent) × (embedding_worker is_whitespace show process batch_completion
            send_open job_type
            (map batch batches)
            s
          ≡ (ok t.processed_tokens, t))
        × Moves job_type (kept is_whitespace (concat batches)) s t
  unfolding embedding_worker kept
  embedding_worker_lem job_type [] s =
      (s, refl, (rw (append-nil (concat s.tx)) Perm.rfl, omega arith, omega arith))
  embedding_worker_lem job_type (rows ∷ batches) s =
      let g = generate_lem job_type (kept is_whitespace rows) s in
      let ih = embedding_worker_lem job_type batches g.0 in
      (
        ih.0,
        rw (inputs_of-kept is_whitespace rows, g.1) ih.1,
        Moves-trans job_type rows (concat batches) s g.0 ih.0 g.2 ih.2,
      )
