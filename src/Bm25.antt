-- ===== src/Bm25.antt =====
-- The aggregate `bm25_agg` of lantern_extras/src/bm25_agg.rs: the scores of the documents, row by
-- row, and the choice of the best at the end. Floats are a parameter, and so are the bloom filters,
-- the heap and the sort of the libraries, and the order in which a hash map is traversed. What the
-- code does by a panic or `error!` is an error here. A comparison with NaN, which is one, is not.
pub mod Numbers
pub mod Scores
pub mod Finalize
pub mod Best
pub mod Results
mod Tests
use lanterndb.Prelude.{
  ℕ, zero, suc, ◌*◌, Bool, true, false, Option, none, some, List, [], ◌∷◌, ◌++◌, map, ltb, ◌==◌,
  if◌then◌else◌, length, take, Result, ok, err, ◌>>=◌,
}
use lanterndb.Bm25.Numbers.{ℤ, pos, negsuc, Floats}

pub data Bm25Error : Type 0 where
  -- `unwrap` or `expect` on nothing
  panicked : Bm25Error
  negative_idf : Bm25Error
  nan_score : Bm25Error
  not_a_record : Bm25Error
  negative_limit : Bm25Error
  negative_corpus_size : Bm25Error
  negative_avg_doc_len : Bm25Error
  nan_avg_doc_len : Bm25Error

-- The variables of one group; `scores` is the field `data`, the hash map.
pub record Bm25InternalState (F B : Type 0) : Type 0 where
  pub scores : Option (List (ℕ × F))
  pub corpus_size : Option ℕ
  pub avg_doc_len : Option F
  pub limit : Option ℕ
  pub k1 : F
  pub b : F
  pub blooms : List (F × B)

-- The columns of a row, each missing where it cannot be read as the code reads it.
pub record HeapRow (B : Type 0) : Type 0 where
  pub term_freq : Option ℤ
  pub doc_ids_bloom : Option B
  pub doc_ids : Option (List ℕ)
  pub fqs : Option (List ℤ)
  pub doc_lens : Option (List ℤ)
  pub term : Option (List ℕ)

pub data AnyElement (B : Type 0) : Type 0 where
  heap_row : HeapRow B → AnyElement B
  other_type : AnyElement B

-- `unwrap` and `expect`
abbrev pub unwrap : {A : Type 0} → Option A → Result Bm25Error A
unwrap none = err panicked
unwrap (some a) = ok a

-- `zip` of the three columns: as long as the shortest.
abbrev pub zip_columns : List ℕ → List ℤ → List ℤ → List (ℕ × ℤ × ℤ)
zip_columns (d ∷ ds) (f ∷ fs) (n ∷ ns) = (d, f, n) ∷ zip_columns ds fs ns
zip_columns _ _ _ = []

module _ {F : Type 0} (o : Floats F) where
  abbrev pub idf_of : F → ℕ → F
  idf_of term_freq corpus_size = o.ln (
      o.add (o.div (o.add (o.sub (o.of_nat corpus_size) term_freq) o.half) (o.add term_freq o.half))
        o.one)

  abbrev pub weighted : F → F → F → F → F → F → F
  weighted idf doc_len fq avg_doc_len k1 b = o.mul idf (
      o.div (o.mul fq (o.add k1 o.one))
        (o.add fq (o.mul k1 (o.add (o.sub o.one b) (o.mul b (o.div doc_len avg_doc_len))))))

  -- `idf >= 0.0` of a number is that it is not below and no NaN.
  unfoldable pub calculate_bm25 : F → F → F → ℕ → F → F → F → Result Bm25Error F
  calculate_bm25 doc_len fq term_freq corpus_size avg_doc_len k1 b =
      let idf = idf_of term_freq corpus_size in
      let bm25 = weighted idf doc_len fq avg_doc_len k1 b in
      if o.lt idf o.zero
      then err negative_idf
      else if o.is_nan idf
      then err negative_idf
      else if o.is_nan bm25
      then err nan_score
      else ok bm25

  -- `entry(doc_id).and_modify(|e| *e += bm25).or_insert(bm25)`
  abbrev pub add_score : ℕ → F → List (ℕ × F) → List (ℕ × F)
  add_score doc bm25 [] = (doc, bm25) ∷ []
  add_score doc bm25 ((d, score) ∷ scores) =
      if d == doc then (d, o.add score bm25) ∷ scores else (d, score) ∷ add_score doc bm25 scores

  abbrev pub add_scores : List (ℕ × F) → List (ℕ × F) → List (ℕ × F)
  add_scores [] scores = scores
  add_scores ((doc, bm25) ∷ rest) scores = add_scores rest (add_score doc bm25 scores)

  -- The score of each document of a row.
  abbrev pub scores_of : List (ℕ × ℤ × ℤ) → F → ℕ → F → F → F → Result Bm25Error (List (ℕ × F))
  scores_of [] term_freq corpus_size avg_doc_len k1 b = ok []
  scores_of ((doc, fq, doc_len) ∷ rest) term_freq corpus_size avg_doc_len k1 b =
      calculate_bm25 (o.of_int doc_len) (o.of_int fq) term_freq corpus_size avg_doc_len k1 b
      >>= λ bm25.
          scores_of rest term_freq corpus_size avg_doc_len k1 b >>= λ more. ok ((doc, bm25) ∷ more)

  -- `bm25_score`: what the terms of the query add up to. `count` is how often a word stands in the
  -- document, `over` the test of a term's frequency against the threshold.
  abbrev pub score_terms :
      {W : Type 0}
      → (W → List W → ℕ)
      → (F → Bool)
      → List W
      → ℕ
      → F
      → F
      → F
      → List (W × F)
      → F
      → Result Bm25Error F
  score_terms count over document_stemmed corpus_size avg_doc_len k1 b [] bm25 = ok bm25
  score_terms count over document_stemmed corpus_size avg_doc_len k1 b ((word, term_freq) ∷ rest)
        bm25 =
      let times = o.of_nat (count word document_stemmed) in
      let approximate = over term_freq in
      let fq = if approximate then (if o.lt o.one times then o.one else times) else times in
      let doc_len = if approximate then avg_doc_len else o.of_nat (length document_stemmed) in
      calculate_bm25 doc_len fq term_freq corpus_size avg_doc_len k1 b >>= λ score.
      score_terms count over document_stemmed corpus_size avg_doc_len k1 b rest (o.add bm25 score)

  unfoldable pub bm25_score :
      {W : Type 0}
      → (W → List W → ℕ)
      → (F → Bool)
      → List W
      → Option (ℕ × F)
      → F
      → F
      → List (W × F)
      → Result Bm25Error F
  unfolding calculate_bm25
  bm25_score count over document_stemmed none k1 b term_data = err panicked
  bm25_score count over document_stemmed (some (corpus_size, avg_doc_len)) k1 b term_data =
      score_terms count over document_stemmed corpus_size avg_doc_len k1 b term_data o.zero

-- The default state: an empty map and the constants of the configuration.
abbrev pub state_default : {F B : Type 0} → F → F → Bm25InternalState F B
state_default k1 b = record {
  scores = some [];
  corpus_size = none;
  avg_doc_len = none;
  limit = none;
  k1 = k1;
  b = b;
  blooms = [];
}

abbrev pub checked_limit : ℤ → Result Bm25Error ℕ
checked_limit (pos n) = ok n
checked_limit (negsuc n) = err negative_limit

abbrev pub checked_corpus_size : ℤ → Result Bm25Error ℕ
checked_corpus_size (pos zero) = err negative_corpus_size
checked_corpus_size (pos (suc n)) = ok (suc n)
checked_corpus_size (negsuc n) = err negative_corpus_size

abbrev pub checked_avg_doc_len : {F : Type 0} → Floats F → F → Result Bm25Error F
checked_avg_doc_len o avg_doc_len =
    if o.lt avg_doc_len o.zero
    then err negative_avg_doc_len
    else if o.is_nan avg_doc_len
    then err nan_avg_doc_len
    else ok avg_doc_len

module _ {F B : Type 0} (o : Floats F) where
  abbrev pub with_bloom :
      Bm25InternalState F B → Option B → F → ℕ → F → Result Bm25Error (Option (F × B))
  with_bloom s none avg_doc_len corpus_size term_freq = ok none
  with_bloom s (some bloom) avg_doc_len corpus_size term_freq =
      calculate_bm25 o avg_doc_len o.one term_freq corpus_size avg_doc_len s.k1 s.b >>= λ bm25.
      ok (some (bm25, bloom))

  unfoldable pub maybe_use_bloom_filter :
      Bm25InternalState F B → HeapRow B → F → ℕ → F → Result Bm25Error (Option (F × B))
  maybe_use_bloom_filter s row avg_doc_len corpus_size term_freq =
      with_bloom s row.doc_ids_bloom avg_doc_len corpus_size term_freq

  -- The three columns are read, and the score of each document is computed.
  unfoldable pub row_scores : HeapRow B → F → ℕ → F → F → F → Result Bm25Error (List (ℕ × F))
  row_scores row term_freq corpus_size avg_doc_len k1 b = unwrap row.doc_ids >>= λ doc_ids.
      unwrap row.fqs >>= λ fqs. unwrap row.doc_lens >>= λ doc_lens. unwrap row.term >>= λ _.
      scores_of o (zip_columns doc_ids fqs doc_lens) term_freq corpus_size avg_doc_len k1 b

  unfoldable pub add_row :
      Bm25InternalState F B
      → HeapRow B
      → List (ℕ × F)
      → F
      → ℕ
      → F
      → Result Bm25Error (Bm25InternalState F B)
  unfolding row_scores
  add_row s row scores avg_doc_len corpus_size term_freq =
      row_scores row term_freq corpus_size avg_doc_len s.k1 s.b >>= λ found.
      ok (record s { scores = some (add_scores o found scores) })

  abbrev pub bloom_or_row :
      Bm25InternalState F B
      → HeapRow B
      → List (ℕ × F)
      → F
      → ℕ
      → F
      → Option (F × B)
      → Result Bm25Error (Bm25InternalState F B)
  bloom_or_row s row scores avg_doc_len corpus_size term_freq none =
      add_row s row scores avg_doc_len corpus_size term_freq
  bloom_or_row s row scores avg_doc_len corpus_size term_freq (some bloom_tuple) =
      ok (record s { blooms = s.blooms ++ bloom_tuple ∷ [] })

  unfoldable pub state_base :
      AnyElement B → Bm25InternalState F B → Result Bm25Error (Bm25InternalState F B)
  unfolding maybe_use_bloom_filter add_row
  state_base other_type s = err not_a_record
  state_base (heap_row row) s = unwrap s.avg_doc_len >>= λ avg_doc_len.
      unwrap s.corpus_size >>= λ corpus_size. unwrap row.term_freq >>= λ freq.
      unwrap s.scores >>= λ scores.
      (if ltb 100 (length scores)
        then maybe_use_bloom_filter s row avg_doc_len corpus_size (o.of_int freq)
        else ok none)
      >>= bloom_or_row s row scores avg_doc_len corpus_size (o.of_int freq)

  -- `bm25_agg_limit` sets these fields before each row.
  unfoldable pub limit_state :
      ℤ → ℤ → F → AnyElement B → Bm25InternalState F B → Result Bm25Error (Bm25InternalState F B)
  unfolding state_base
  limit_state limit_count corpus_size avg_doc_len row s = checked_limit limit_count >>= λ limit.
      checked_corpus_size corpus_size >>= λ size. checked_avg_doc_len o avg_doc_len >>= λ avg.
      state_base row
        (record s { limit = some limit; corpus_size = some size; avg_doc_len = some avg })

  -- `bm25_agg_limit_bm25params` sets the constants too.
  unfoldable pub params_state :
      ℤ
      → ℤ
      → F
      → F
      → F
      → AnyElement B
      → Bm25InternalState F B
      → Result Bm25Error (Bm25InternalState F B)
  unfolding state_base
  params_state limit_count corpus_size avg_doc_len k1 b row s =
      checked_limit limit_count >>= λ limit. checked_corpus_size corpus_size >>= λ size.
      checked_avg_doc_len o avg_doc_len >>= λ avg. state_base row (record s {
        limit = some limit;
        corpus_size = some size;
        avg_doc_len = some avg;
        k1 = k1;
        b = b;
      })

-- The rows of a group, one after the other.
abbrev pub aggregate :
    {S R : Type 0} → (R → S → Result Bm25Error S) → List R → S → Result Bm25Error S
aggregate state [] s = ok s
aggregate state (row ∷ rows) s = state row s >>= aggregate state rows
