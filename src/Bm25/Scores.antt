-- ===== src/Bm25/Scores.antt =====
-- The scores that `bm25_agg` of lantern_extras/src/bm25_agg.rs collects over the rows of a group.
use lanterndb.Prelude.{
  ℕ, suc, ◌≤◌, ◌≡◌, max, Option-cases, inl, inr, refl, sym, ap, ◌∙◌, Bool, true, false, Option,
  none, some, List, [], ◌∷◌, ◌++◌, arith, ◌==◌, if◌then◌else◌, All, length, ltb, Result, ok, err,
  ◌>>=◌, Bool-cases,
}
use lanterndb.Bm25.Numbers.{pos, Floats}
use lanterndb.Bm25.{
  Bm25Error, Bm25InternalState, AnyElement, heap_row, other_type, not_a_record, unwrap, add_score,
  add_scores, state_default, maybe_use_bloom_filter, row_scores, add_row, state_base, params_state,
  aggregate, checked_avg_doc_len,
}

module _ {F : Type 0} (o : Floats F) where
  -- The score of a document in the map.
  abbrev pub score_in : ℕ → List (ℕ × F) → Option F
  score_in doc [] = none
  score_in doc ((d, score) ∷ scores) = if d == doc then some score else score_in doc scores

  abbrev pub added : Option F → F → Option F
  added none bm25 = some bm25
  added (some score) bm25 = some (o.add score bm25)

  -- The scores found for a document, added to what it has, in their order.
  abbrev pub summed : ℕ → List (ℕ × F) → Option F → Option F
  summed doc [] score = score
  summed doc ((d, bm25) ∷ found) score =
      summed doc found (if d == doc then added score bm25 else score)

  -- How often a document stands in the map.
  abbrev pub occurrences : ℕ → List (ℕ × F) → ℕ
  occurrences doc [] = 0
  occurrences doc ((d, score) ∷ scores) =
      if d == doc then suc (occurrences doc scores) else occurrences doc scores

  score_in-add_score :
      (doc d : ℕ) (bm25 : F) (scores : List (ℕ × F))
      → score_in doc (add_score o d bm25 scores)
        ≡ (if d == doc then added (score_in doc scores) bm25 else score_in doc scores)
  score_in-add_score doc d bm25 [] = refl
  score_in-add_score doc d bm25 ((e, score) ∷ scores) =
      ground (arith, score_in-add_score doc d bm25 scores)

  score_in-add_scores :
      (doc : ℕ) (found scores : List (ℕ × F))
      → score_in doc (add_scores o found scores) ≡ summed doc found (score_in doc scores)
  score_in-add_scores doc [] scores = refl
  score_in-add_scores doc ((d, bm25) ∷ found) scores =
      score_in-add_scores doc found (add_score o d bm25 scores)
      ∙ ap (summed doc found) (score_in-add_score doc d bm25 scores)

  occurrences-add_score :
      (doc d : ℕ) (bm25 : F) (scores : List (ℕ × F))
      → occurrences doc (add_score o d bm25 scores)
        ≡ (if d == doc then max 1 (occurrences doc scores) else occurrences doc scores)
  occurrences-add_score doc d bm25 [] = ground arith
  occurrences-add_score doc d bm25 ((e, score) ∷ scores) =
      ground (arith, occurrences-add_score doc d bm25 scores)

  once : (t : Bool) (n : ℕ) → n ≤ 1 → (if t then max 1 n else n) ≤ 1
  once true n h = omega arith
  once false n h = h

  occurrences-add_scores :
      (doc : ℕ) (found scores : List (ℕ × F))
      → occurrences doc scores ≤ 1
      → occurrences doc (add_scores o found scores) ≤ 1
  occurrences-add_scores doc [] scores h = h
  occurrences-add_scores doc ((d, bm25) ∷ found) scores h =
      occurrences-add_scores doc found (add_score o d bm25 scores)
        (rw (occurrences-add_score doc d bm25 scores) (once (d == doc) (occurrences doc scores) h))

  add_scores-append :
      (xs ys scores : List (ℕ × F))
      → add_scores o (xs ++ ys) scores ≡ add_scores o ys (add_scores o xs scores)
  add_scores-append [] ys scores = refl
  add_scores-append ((d, bm25) ∷ xs) ys scores = add_scores-append xs ys (add_score o d bm25 scores)

module _ {F B : Type 0} (o : Floats F) (size : ℕ) (avg k1 b : F) where
  abbrev pub scores_of_row : AnyElement B → Result Bm25Error (List (ℕ × F))
  scores_of_row other_type = err not_a_record
  scores_of_row (heap_row row) =
      unwrap row.term_freq >>= λ freq. row_scores o row (o.of_int freq) size avg k1 b

  -- The scores that the rows give, in their order, or the first error.
  abbrev pub scores_of_rows : List (AnyElement B) → Result Bm25Error (List (ℕ × F))
  scores_of_rows [] = ok []
  scores_of_rows (row ∷ rows) =
      scores_of_row row >>= λ found. scores_of_rows rows >>= λ more. ok (found ++ more)

-- The state of a group whose scores are given.
abbrev pub collected : {F B : Type 0} → ℕ → ℕ → F → F → F → List (ℕ × F) → Bm25InternalState F B
collected limit size avg k1 b scores = record {
  scores = some scores;
  corpus_size = some size;
  avg_doc_len = some avg;
  limit = some limit;
  k1 = k1;
  b = b;
  blooms = [];
}

-- A row without a bloom filter.
abbrev pub HasNoBloom : {B : Type 0} → AnyElement B → Type 0
HasNoBloom (heap_row row) = row.doc_ids_bloom ≡ none
HasNoBloom other_type = Unit

module _ {F B : Type 0} (o : Floats F) (limit corpus : ℕ) (avg k1 b : F)
    (avg_checked : checked_avg_doc_len o avg ≡ ok avg) where
  -- The state function, with the arguments of the query.
  abbrev step : AnyElement B → Bm25InternalState F B → Result Bm25Error (Bm25InternalState F B)
  step = params_state o (pos limit) (pos (suc corpus)) avg k1 b

  step_scores :
      (row : AnyElement B) (scores : List (ℕ × F))
      → HasNoBloom row
      → step row (collected limit (suc corpus) avg k1 b scores) ≡ (
          scores_of_row o (suc corpus) avg k1 b row >>= λ found.
          ok (collected limit (suc corpus) avg k1 b (add_scores o found scores)))
  unfolding params_state state_base maybe_use_bloom_filter add_row row_scores
  step_scores other_type scores h = rw avg_checked refl
  step_scores (heap_row row) scores h = elim (Option-cases row.term_freq) [
    | inl e ↦ rw (avg_checked, e) refl
    | inr (freq, e) ↦ elim (Bool-cases (ltb 100 (length scores))) [
      | inl t ↦ rw (avg_checked, e, t, h) refl
      | inr t ↦ rw (avg_checked, e, t) refl
    ]
  ]

  -- The state after these scores.
  abbrev after : List (ℕ × F) → Result Bm25Error (Bm25InternalState F B)
  after scores = ok (collected limit (suc corpus) avg k1 b scores)

  join_rest :
      (found scores : List (ℕ × F)) (rest : Result Bm25Error (List (ℕ × F)))
      → (rest >>= λ more. after (add_scores o more (add_scores o found scores)))
        ≡ ((rest >>= λ more. ok (found ++ more)) >>= λ all. after (add_scores o all scores))
  join_rest found scores (ok more) = ap after (sym (add_scores-append o found more scores))
  join_rest found scores (err e) = refl

  join_row :
      (scores : List (ℕ × F)) (row_result rest : Result Bm25Error (List (ℕ × F)))
      (next : Bm25InternalState F B → Result Bm25Error (Bm25InternalState F B))
      → ((scores : List (ℕ × F))
          → next (collected limit (suc corpus) avg k1 b scores)
            ≡ (rest >>= λ more. after (add_scores o more scores)))
      → ((row_result >>= λ found. after (add_scores o found scores)) >>= next) ≡ (
          (row_result >>= λ found. rest >>= λ more. ok (found ++ more)) >>= λ all.
          after (add_scores o all scores))
  join_row scores (ok found) rest next h =
      h (add_scores o found scores) ∙ join_rest found scores rest
  join_row scores (err e) rest next h = refl

  rows_scores :
      (rows : List (AnyElement B)) (scores : List (ℕ × F))
      → All HasNoBloom rows
      → aggregate step rows (collected limit (suc corpus) avg k1 b scores) ≡ (
          scores_of_rows o (suc corpus) avg k1 b rows >>= λ found.
          ok (collected limit (suc corpus) avg k1 b (add_scores o found scores)))
  rows_scores [] scores h = refl
  rows_scores (row ∷ rows) scores h = rw (step_scores row scores h.0) (
      join_row scores (scores_of_row o (suc corpus) avg k1 b row)
        (scores_of_rows o (suc corpus) avg k1 b rows) (aggregate step rows)
        λ scores. rows_scores rows scores h.1)

  -- The first row sets the fields.
  first_row :
      (row : AnyElement B) (k1' b' : F)
      → step row (state_default k1' b') ≡ step row (collected limit (suc corpus) avg k1 b [])
  unfolding params_state
  first_row row k1' b' = refl

  -- For a limit that is not negative, a positive corpus size, an average length that passes the
  -- checks, and a group of at least one row, of which none has a bloom filter: the aggregate returns
  -- the error of the first score that fails, or a state in which each document stands at most
  -- once, with the sum of the scores that the rows give it, added in their order, and in which a
  -- document that no row names does not stand.
  pub params_state_scores :
      (row : AnyElement B) (rows : List (AnyElement B)) (k1' b' : F)
      → All HasNoBloom (row ∷ rows)
      → (aggregate step (row ∷ rows) (state_default k1' b') ≡ (
          scores_of_rows o (suc corpus) avg k1 b (row ∷ rows) >>= λ found.
          ok (collected limit (suc corpus) avg k1 b (add_scores o found []))))
        × ((found : List (ℕ × F)) (doc : ℕ)
            → (score_in o doc (add_scores o found []) ≡ summed o doc found none)
              × (occurrences o doc (add_scores o found []) ≤ 1))
  params_state_scores row rows k1' b' h = (
    ap (λ m. m >>= aggregate step rows) (first_row row k1' b') ∙ rows_scores (row ∷ rows) [] h,
    λ found doc.
        (score_in-add_scores o doc found [], occurrences-add_scores o doc found [] (omega arith)),
  )
