-- ===== src/Bm25/Finalize.antt =====
-- `finalize_base` of lantern_extras/src/bm25_agg.rs. The heap, the sort, the bloom filters and the
-- order in which the hash map is traversed are parameters.
use lanterndb.Prelude.{
  ℕ, ◌*◌, Bool, Option, none, some, List, [], ◌∷◌, map, ltb, if◌then◌else◌, take, Result, ok, err,
  ◌>>=◌,
}
use lanterndb.Bm25.Numbers.{Floats}
use lanterndb.Bm25.{Bm25Error, panicked, Bm25InternalState, unwrap}

module _ {F H : Type 0} (o : Floats F) (push : ℕ × F → H → H) (pop : H → H)
    (peek : H → Option (ℕ × F)) (len : H → ℕ) where
  abbrev pub replace_least : ℕ × F → H → Option (ℕ × F) → Result Bm25Error H
  replace_least e heap none = err panicked
  replace_least e heap (some least) = ok (if o.lt least.1 e.1 then push e (pop heap) else heap)

  abbrev pub offer : ℕ → ℕ × F → H → Result Bm25Error H
  offer bloom_limit e heap =
      if ltb (len heap) bloom_limit then ok (push e heap) else replace_least e heap (peek heap)

  abbrev pub keep_best : ℕ → List (ℕ × F) → H → Result Bm25Error H
  keep_best bloom_limit [] heap = ok heap
  keep_best bloom_limit (e ∷ es) heap = offer bloom_limit e heap >>= keep_best bloom_limit es

module _ {F B : Type 0} (o : Floats F) (contains : B → ℕ → Bool) where
  -- What the bloom filters add to a document's score.
  abbrev pub bloom_sum : ℕ → List (F × B) → F → F
  bloom_sum doc [] sum = sum
  bloom_sum doc ((bm25, bloom) ∷ blooms) sum =
      bloom_sum doc blooms (if contains bloom doc then o.add sum bm25 else sum)

  abbrev pub with_blooms : List (F × B) → ℕ × F → ℕ × F
  with_blooms blooms (doc, bm25) = (doc, o.add bm25 (bloom_sum doc blooms o.zero))

module _ {F B H : Type 0} (o : Floats F) (contains : B → ℕ → Bool)
    (traverse : List (ℕ × F) → List (ℕ × F)) (empty : H) (push : ℕ × F → H → H) (pop : H → H)
    (peek : H → Option (ℕ × F)) (len : H → ℕ) (into_iter_sorted : H → List (ℕ × F))
    (sort_unstable : List (ℕ × F) → List (ℕ × F)) where
  abbrev pub best_of : ℕ → List (F × B) → List (ℕ × F) → Result Bm25Error (List (ℕ × F))
  best_of limit blooms entries =
      keep_best o push pop peek len (limit * 10) entries empty >>= λ heap.
      ok (take limit (sort_unstable (map (with_blooms o contains blooms) (into_iter_sorted heap))))

  abbrev pub results_of : Option ℕ → List (F × B) → List (ℕ × F) → Result Bm25Error (List (ℕ × F))
  results_of none blooms entries = ok (sort_unstable entries)
  results_of (some limit) blooms entries = best_of limit blooms entries

  unfoldable pub finalize_base : Bm25InternalState F B → Result Bm25Error (List (ℕ × F))
  finalize_base s = unwrap s.scores >>= λ scores. results_of s.limit s.blooms (traverse scores)
