-- ===== src/Prelude/Sorting.antt =====
-- `sort_by` of the standard library, a stable sort by a comparator, as an insertion sort.
use mathlib.Core.Bool.{Bool-set}
use mathlib.Core.List.{Perm, Pairwise, forall_mem-cons, not-mem-nil}
use mathlib.Core.List.Perm
use lanterndb.Prelude.Tests.{if◌then◌else◌, Bool-cases}
use mathlib.Core.Path.{◌≡◌}
use mathlib.Core.Logic.{inl, inr}
use mathlib.Core.Bool.{Bool, true, false}
use mathlib.Core.List.{List, [], ◌∷◌}
use lanterndb.Prelude.Lists.{All}

pub data Ordering : Type 0 where
  less equal greater : Ordering

abbrev pub is_gt : Ordering → Bool
is_gt less = false
is_gt equal = false
is_gt greater = true

module _ {A : Type 0} (compare : A → A → Ordering) where
  abbrev pub insert_by : A → List A → List A
  insert_by e [] = e ∷ []
  insert_by e (d ∷ ds) = if is_gt (compare e d) then d ∷ insert_by e ds else e ∷ d ∷ ds

  unfoldable pub sort_by : List A → List A
  sort_by [] = []
  sort_by (e ∷ es) = insert_by e (sort_by es)

  abbrev pub Sorted : List A → Type 0
  Sorted = Pairwise (λ (x y : A). is_gt (compare x y) ≡ false)

  insert_by-perm : (e : A) (ds : List A) → Perm (insert_by e ds) (e ∷ ds)
  insert_by-perm e [] = Perm.rfl
  insert_by-perm e (d ∷ ds) = elim (Bool-cases (is_gt (compare e d))) [
    | inl t ↦ rw t (Perm.trans (Perm.cons d (insert_by-perm e ds)) (Perm.swap e d ds))
    | inr t ↦ rw t Perm.rfl
  ]

  pub sort_by-perm : (es : List A) → Perm (sort_by es) es
  unfolding sort_by
  sort_by-perm [] = Perm.rfl
  sort_by-perm (e ∷ es) = Perm.trans (insert_by-perm e (sort_by es)) (Perm.cons e (sort_by-perm es))

module _ {A : Type 0} (compare : A → A → Ordering) (P : A → Type 0) where
  pub All-insert_by : (e : A) (ds : List A) → P e → All P ds → All P (insert_by compare e ds)
  All-insert_by e [] p h = (p, tt)
  All-insert_by e (d ∷ ds) p h = elim (Bool-cases (is_gt (compare e d))) [
    | inl t ↦ rw t (h.0, All-insert_by e ds p h.1)
    | inr t ↦ rw t (p, h)
  ]

  pub All-sort_by : (es : List A) → All P es → All P (sort_by compare es)
  unfolding sort_by
  All-sort_by [] h = tt
  All-sort_by (e ∷ es) h = All-insert_by e (sort_by compare es) h.0 (All-sort_by es h.1)

-- A comparator that is a total order up to equality.
pub record IsComparator {A : Type 0} (compare : A → A → Ordering) : Type 0 where
  pub flips : (x y : A) → is_gt (compare x y) ≡ true → is_gt (compare y x) ≡ false
  pub chains :
      (x y z : A)
      → is_gt (compare x y) ≡ false
      → is_gt (compare y z) ≡ false
      → is_gt (compare x z) ≡ false

module _ {A : Type 0} (compare : A → A → Ordering) (laws : IsComparator compare) where
  insert_by-Sorted :
      (e : A) (ds : List A) → Sorted compare ds → Sorted compare (insert_by compare e ds)
  insert_by-Sorted e [] p = Pairwise.cons (λ y my. absurd (not-mem-nil my)) Pairwise.nil
  insert_by-Sorted e (d ∷ ds) (Pairwise.cons h p) = elim (Bool-cases (is_gt (compare e d))) [
    | inl t ↦ rw t (
        Pairwise.cons
          (λ y my.
            (forall_mem-cons (λ z. Bool-set (is_gt (compare d z)) false)).1 (laws.flips e d t, h) y
              ((Perm.mem_iff (insert_by-perm compare e ds)).0 my))
          (insert_by-Sorted e ds p))
    | inr t ↦ rw t (
        Pairwise.cons
          ((forall_mem-cons (λ z. Bool-set (is_gt (compare e z)) false)).1
            (t, λ y my. laws.chains e d y t (h y my)))
          (Pairwise.cons h p))
  ]

  pub sort_by-Sorted : (es : List A) → Sorted compare (sort_by compare es)
  unfolding sort_by
  sort_by-Sorted [] = Pairwise.nil
  sort_by-Sorted (e ∷ es) = insert_by-Sorted e (sort_by compare es) (sort_by-Sorted es)
