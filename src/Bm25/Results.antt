-- ===== src/Bm25/Results.antt =====
-- The results of `finalize_base` of lantern_extras/src/bm25_agg.rs: the best documents, best first.
use mathlib.Core.List.{Mem, Perm, Pairwise}
use mathlib.Core.List.Perm
use mathlib.Core.Logic.Or
use lanterndb.Prelude.{ℕ, ◌<◌, ◌≡◌, Bool, true, false, Option, some, List, [], ◌∷◌, length}
use lanterndb.Bm25.Numbers.{Floats}

module _ {F B H : Type 0} (o : Floats F) (contains : B → ℕ → Bool)
    (traverse : List (ℕ × F) → List (ℕ × F)) (empty : H) (push : ℕ × F → H → H) (pop : H → H)
    (peek : H → Option (ℕ × F)) (len : H → ℕ) (into_iter_sorted : H → List (ℕ × F))
    (sort_unstable : List (ℕ × F) → List (ℕ × F)) (items : H → List (ℕ × F))
    (items-empty : items empty ≡ [])
    (items-push : (e : ℕ × F) (h : H) → Perm (items (push e h)) (e ∷ items h))
    (len_lem : (h : H) → len h ≡ length (items h))
    (peek_some : (h : H) → 0 < len h → (e : ℕ × F) × (peek h ≡ some e))
    (peek_least : (h : H) (e : ℕ × F)
      → peek h ≡ some e
      → Perm (items h) (e ∷ items (pop h)) × ((x : ℕ × F) → Mem x (items h) → o.lt x.1 e.1 ≡ false))
    (lt_asym : (a b : F) → o.lt a b ≡ true → o.lt b a ≡ false)
    (le_trans : (a b c : F)
      → o.is_nan b ≡ false
      → o.lt b a ≡ false
      → o.lt c b ≡ false
      → o.lt c a ≡ false)
    (traverse_perm : (scores : List (ℕ × F)) → Perm scores (traverse scores))
    (sorted_perm : (h : H) → Perm (into_iter_sorted h) (items h))
    (sort_perm : (xs : List (ℕ × F)) → Perm (sort_unstable xs) xs)
    (sort_descending : (xs : List (ℕ × F))
      → Pairwise (λ (x y : ℕ × F). o.lt x.1 y.1 ≡ false) (sort_unstable xs))
    (add_zero : (a : F) → o.add a o.zero ≡ a) where
  -- The best first.
  abbrev pub IsDescending : List (ℕ × F) → Type 0
  IsDescending = Pairwise (λ (x y : ℕ × F). o.lt x.1 y.1 ≡ false)
