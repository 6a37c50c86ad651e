-- ===== src/Bm25/Tests.antt =====
-- Concrete runs of the aggregate of lantern_extras/src/bm25_agg.rs: natural numbers for floats, and a
-- heap and a sort on lists.
use mathlib.Core.List.{Mem, Perm, Pairwise}
use mathlib.Core.List.Perm
use lanterndb.Prelude.{
  ℕ, ◌+◌, ◌-◌, ◌*◌, ◌/◌, ◌≤◌, ◌≡◌, refl, Bool, false, Option, none, some, List, [], ◌∷◌, ltb,
  if◌then◌else◌, ok, ◌>>=◌,
}
use lanterndb.Bm25.Numbers.{ℤ, pos, negsuc, Floats}
use lanterndb.Bm25.{
  Bm25InternalState, AnyElement, heap_row, state_default, add_scores, params_state, aggregate,
}
use lanterndb.Bm25.Scores.{
  params_state_scores, scores_of_rows, collected, score_in, summed, occurrences,
}

abbrev from_int : ℤ → ℕ
from_int (pos n) = n
from_int (negsuc n) = 0

abbrev numbers : Floats ℕ
numbers = record {
  add = λ a b. a + b;
  sub = λ a b. a - b;
  mul = λ a b. a * b;
  div = λ a b. a / b;
  ln = λ a. a;
  lt = ltb;
  is_nan = λ a. false;
  of_int = from_int;
  of_nat = λ n. n;
  zero = 0;
  half = 1;
  one = 1;
}

-- A term in the documents 7 and 9, and one in 9 only.
abbrev first_term : AnyElement (Unit {0})
first_term = heap_row (record {
  term_freq = some (pos 2);
  doc_ids_bloom = none;
  doc_ids = some (7 ∷ 9 ∷ []);
  fqs = some (pos 1 ∷ pos 3 ∷ []);
  doc_lens = some (pos 4 ∷ pos 6 ∷ []);
  term = some [];
})

abbrev second_term : AnyElement (Unit {0})
second_term = heap_row (record {
  term_freq = some (pos 1);
  doc_ids_bloom = none;
  doc_ids = some (9 ∷ []);
  fqs = some (pos 2 ∷ []);
  doc_lens = some (pos 6 ∷ []);
  term = some [];
})

params_state_scores_example :
    (aggregate
        (params_state numbers (pos 3) (pos 10) 5 2 0)
        (first_term ∷ second_term ∷ [])
        (state_default 1 1)
      ≡ (scores_of_rows numbers 10 5 2 0 (first_term ∷ second_term ∷ []) >>= λ found.
          ok (collected 3 10 5 2 0 (add_scores numbers found []))))
    × ((found : List (ℕ × ℕ)) (doc : ℕ)
        → (score_in numbers doc (add_scores numbers found []) ≡ summed numbers doc found none)
          × (occurrences numbers doc (add_scores numbers found []) ≤ 1))
params_state_scores_example =
    params_state_scores numbers 3 9 5 2 0 refl first_term (second_term ∷ []) 1 1 (refl, (refl, tt))

-- The least entry of a list, and the others.
abbrev least_first : ℕ × ℕ → Option ((ℕ × ℕ) × List (ℕ × ℕ)) → (ℕ × ℕ) × List (ℕ × ℕ)
least_first e none = (e, [])
least_first e (some (least, rest)) =
    if ltb least.1 e.1 then (least, e ∷ rest) else (e, least ∷ rest)

abbrev min_split : List (ℕ × ℕ) → Option ((ℕ × ℕ) × List (ℕ × ℕ))
min_split [] = none
min_split (e ∷ es) = some (least_first e (min_split es))

abbrev peek_list : List (ℕ × ℕ) → Option (ℕ × ℕ)
peek_list [] = none
peek_list (e ∷ es) = some (least_first e (min_split es)).0

abbrev pop_list : List (ℕ × ℕ) → List (ℕ × ℕ)
pop_list [] = []
pop_list (e ∷ es) = (least_first e (min_split es)).1

-- The least entry is at the head of a permutation, and no score is below it.
abbrev IsSplit : List (ℕ × ℕ) → (ℕ × ℕ) × List (ℕ × ℕ) → Type 0
IsSplit es p = Perm es (p.0 ∷ p.1) × ((x : ℕ × ℕ) → Mem x es → ltb x.1 p.0.1 ≡ false)

-- The best first.
abbrev insert_entry : ℕ × ℕ → List (ℕ × ℕ) → List (ℕ × ℕ)
insert_entry e [] = e ∷ []
insert_entry e (d ∷ ds) = if ltb e.1 d.1 then d ∷ insert_entry e ds else e ∷ d ∷ ds

abbrev sort_entries : List (ℕ × ℕ) → List (ℕ × ℕ)
sort_entries [] = []
sort_entries (e ∷ es) = insert_entry e (sort_entries es)

abbrev Descending : List (ℕ × ℕ) → Type 0
Descending = Pairwise (λ (x y : ℕ × ℕ). ltb x.1 y.1 ≡ false)

abbrev no_filter : Unit {0} → ℕ → Bool
no_filter u doc = false

abbrev as_it_is : List (ℕ × ℕ) → List (ℕ × ℕ)
as_it_is xs = xs

abbrev three_scores : List (ℕ × ℕ)
three_scores = (7, 2) ∷ (9, 8) ∷ (4, 5) ∷ []

abbrev two_best : Bm25InternalState ℕ (Unit {0})
two_best = collected 2 10 5 2 0 three_scores
