-- ===== src/Autotune/Choice.antt =====
-- What `find_best_variant` of lantern_cli/src/index_autotune/mod.rs finds.
use mathlib.Core.Bool.{Bool-discrete, Bool-set}
use mathlib.Core.Logic.{∥∥₁_elim}
use mathlib.Core.Path.{subst}
use mathlib.Core.List.{
  Mem, Perm, Pairwise, mem-filter, mem-cons_self, mem-map_of_mem, exists_of_mem-map,
  forall_mem-cons, not-mem-nil, Mem-prop,
}
use mathlib.Core.List.Perm
use lanterndb.Prelude.{
  ◌≡◌, ◌≢◌, ◌⊎◌, inl, inr, refl, sym, ap, ◌∙◌, Bool, true, false, some, List, [], ◌∷◌, map,
  Bool-cases,
}
use lanterndb.Prelude.Sorting.{is_gt, sort_by, sort_by-perm, IsComparator, sort_by-Sorted}
use lanterndb.Autotune.{
  AutotuneResult, partial_cmp, recall_order, time_order, timed, meeting, find_best_variant,
}

-- What the results are sorted by.
abbrev pub time : {F : Type 0} → (F → F → F) → AutotuneResult F → F
time add r = add r.latency r.indexing_duration

module _ {F : Type 0} (add : F → F → F) (ge lt : F → F → Bool) where
  -- It meets the target and no result that does is faster, or none meets it and none has a higher
  -- recall.
  abbrev pub IsBest : List (AutotuneResult F) → F → AutotuneResult F → Type 0
  IsBest results target best =
      ((ge best.recall target ≡ true)
        × ((r : AutotuneResult F)
            → Mem r results
            → ge r.recall target ≡ true
            → lt (time add r) (time add best) ≡ false))
      ⊎ (((r : AutotuneResult F) → Mem r results → ge r.recall target ≡ false)
          × ((r : AutotuneResult F) → Mem r results → lt best.recall r.recall ≡ false))

module _ {F : Type 0} (add : F → F → F) (ge lt : F → F → Bool)
    (lt_asym : (a b : F) → lt a b ≡ true → lt b a ≡ false)
    (lt_chains : (a b c : F) → lt a b ≡ false → lt b c ≡ false → lt a c ≡ false) where
  lt_irrefl : (a : F) → lt a a ≡ false
  lt_irrefl a = elim (Bool-cases (lt a a)) [ inl t ↦ lt_asym a a t | inr t ↦ t ]

  is_gt-partial_cmp : (a b : F) → is_gt (partial_cmp lt a b) ≡ lt b a
  is_gt-partial_cmp a b = elim (Bool-cases (lt a b)) [
    | inl t ↦ rw (t, lt_asym a b t) refl
    | inr t ↦ elim (Bool-cases (lt b a)) [ inl u ↦ rw (t, u) refl | inr u ↦ rw (t, u) refl ]
  ]

  recall_order-IsComparator : IsComparator (recall_order lt)
  recall_order-IsComparator = record {
    flips = λ x y h.
        is_gt-partial_cmp x.recall y.recall
        ∙ lt_asym x.recall y.recall (sym (is_gt-partial_cmp y.recall x.recall) ∙ h);
    chains = λ x y z h k.
        is_gt-partial_cmp z.recall x.recall
        ∙ lt_chains x.recall y.recall z.recall (sym (is_gt-partial_cmp y.recall x.recall) ∙ h)
            (sym (is_gt-partial_cmp z.recall y.recall) ∙ k);
  }

  time_order-IsComparator : IsComparator (time_order lt)
  time_order-IsComparator = record {
    flips =
        λ x y h. is_gt-partial_cmp y.0 x.0 ∙ lt_asym y.0 x.0 (sym (is_gt-partial_cmp x.0 y.0) ∙ h);
    chains = λ x y z h k.
        is_gt-partial_cmp x.0 z.0
        ∙ lt_chains z.0 y.0 x.0 (sym (is_gt-partial_cmp y.0 z.0) ∙ k)
            (sym (is_gt-partial_cmp x.0 y.0) ∙ h);
  }

  abbrev NotAfter : {A : Type 0} → (A → A → Bool) → List A → Type 0
  NotAfter after = Pairwise (λ x y. after x y ≡ false)

  recall_perm : (rs : List (AutotuneResult F)) → Perm (sort_by (recall_order lt) rs) rs
  recall_perm rs = sort_by-perm (recall_order lt) rs

  recall_sorted :
      (rs : List (AutotuneResult F))
      → Pairwise
          (λ (x y : AutotuneResult F). lt x.recall y.recall ≡ false)
          (sort_by (recall_order lt) rs)
  recall_sorted rs =
      subst
        (λ (f : AutotuneResult F → AutotuneResult F → Bool).
          NotAfter f (sort_by (recall_order lt) rs))
        (λ i x y. is_gt-partial_cmp y.recall x.recall i)
        (sort_by-Sorted (recall_order lt) recall_order-IsComparator rs)

  time_perm : (rs : List (F × AutotuneResult F)) → Perm (sort_by (time_order lt) rs) rs
  time_perm rs = sort_by-perm (time_order lt) rs

  time_sorted :
      (rs : List (F × AutotuneResult F))
      → Pairwise (λ (x y : F × AutotuneResult F). lt y.0 x.0 ≡ false) (sort_by (time_order lt) rs)
  time_sorted rs =
      subst
        (λ (f : F × AutotuneResult F → F × AutotuneResult F → Bool).
          NotAfter f (sort_by (time_order lt) rs))
        (λ i x y. is_gt-partial_cmp x.0 y.0 i)
        (sort_by-Sorted (time_order lt) time_order-IsComparator rs)

  -- The head of a sorted list is before every item of it.
  head_recall :
      (x : AutotuneResult F) (xs : List (AutotuneResult F))
      → Pairwise (λ (x y : AutotuneResult F). lt x.recall y.recall ≡ false) (x ∷ xs)
      → (y : AutotuneResult F) → Mem y (x ∷ xs)
      → lt x.recall y.recall ≡ false
  head_recall x xs (Pairwise.cons h p) =
      (forall_mem-cons (λ y. Bool-set (lt x.recall y.recall) false)).1 (lt_irrefl x.recall, h)

  head_time :
      (x : F × AutotuneResult F) (xs : List (F × AutotuneResult F))
      → Pairwise (λ (x y : F × AutotuneResult F). lt y.0 x.0 ≡ false) (x ∷ xs)
      → (y : F × AutotuneResult F) → Mem y (x ∷ xs)
      → lt y.0 x.0 ≡ false
  head_time x xs (Pairwise.cons h p) =
      (forall_mem-cons (λ y. Bool-set (lt y.0 x.0) false)).1 (lt_irrefl x.0, h)

  abbrev meets : (target : F) (r : AutotuneResult F) → Dec (ge r.recall target ≡ true)
  meets target r = Bool-discrete (ge r.recall target) true

  slowest_lem :
      (results : List (AutotuneResult F)) (target : F)
      → meeting add ge lt target (sort_by (recall_order lt) results) ≡ []
      → (x : AutotuneResult F) (xs : List (AutotuneResult F))
      → sort_by (recall_order lt) results ≡ x ∷ xs
      → Mem x results × IsBest add ge lt results target x
  slowest_lem results target none_meets x xs e =
      let inside : (r : AutotuneResult F)
          → Mem r results
          → Mem r (sort_by (recall_order lt) results) =
        λ r m. (Perm.mem_iff (recall_perm results)).1 m in
      (
        (Perm.mem_iff (recall_perm results)).0 (subst (Mem x) (sym e) mem-cons_self),
        inr (
          (λ r m. elim (Bool-cases (ge r.recall target)) [
            | inl t ↦ absurd (
                not-mem-nil
                  (subst (Mem r) none_meets ((mem-filter (meets target)).1 (inside r m, t))))
            | inr f ↦ f
          ]),
          λ r m.
              head_recall x xs
                (subst (Pairwise (λ (y z : AutotuneResult F). lt y.recall z.recall ≡ false)) e
                  (recall_sorted results))
                r (subst (Mem r) e (inside r m)),
        ),
      )

  fastest_lem :
      (results : List (AutotuneResult F)) (target : F) (ms : List (AutotuneResult F))
      → meeting add ge lt target (sort_by (recall_order lt) results) ≡ ms
      → (p : F × AutotuneResult F) (ps : List (F × AutotuneResult F))
      → sort_by (time_order lt) (map (timed add ge lt) ms) ≡ p ∷ ps
      → Mem p.1 results × IsBest add ge lt results target p.1
  fastest_lem results target ms e p ps f =
      let timed_ = timed add ge lt in
      let from =
        exists_of_mem-map {f = timed_}
          ((Perm.mem_iff (time_perm (map timed_ ms))).0 (subst (Mem p) (sym f) mem-cons_self)) in
      let kept : (a : AutotuneResult F)
          → Mem a ms
          → Mem a (sort_by (recall_order lt) results) × (ge a.recall target ≡ true) =
        λ a m. (mem-filter (meets target)).0 (subst (Mem a) (sym e) m) in
      (
        ∥∥₁_elim from (Mem-prop {a = p.1} {l = results}) (λ w.
            (Perm.mem_iff (recall_perm results)).0 (
              subst (λ a. Mem a (sort_by (recall_order lt) results)) (ap (λ q. q.1) w.2)
                (kept w.0 w.1).0)),
        inl (
          ∥∥₁_elim from (Bool-set (ge p.1.recall target) true) (λ w.
              subst (λ (a : AutotuneResult F). ge a.recall target ≡ true) (ap (λ q. q.1) w.2)
                (kept w.0 w.1).1),
          λ r m t. ∥∥₁_elim from (Bool-set (lt (time add r) (time add p.1)) false) (λ w.
              let same : p.0 ≡ time add p.1 =
                sym (ap (λ q. q.0) w.2) ∙ ap (time add) (ap (λ q. q.1) w.2) in
              subst (λ b. lt (time add r) b ≡ false) same
                (head_time p ps
                  (subst (Pairwise (λ (y z : F × AutotuneResult F). lt z.0 y.0 ≡ false)) f
                    (time_sorted (map timed_ ms)))
                  (timed_ r)
                  (subst (Mem (timed_ r)) f (
                    (Perm.mem_iff (time_perm (map timed_ ms))).1 (
                      mem-map_of_mem timed_ (
                        subst (Mem r) e (
                          (mem-filter (meets target)).1
                            ((Perm.mem_iff (recall_perm results)).1 m, t)))))))),
        ),
      )

  nonempty :
      {A : Type 0} (xs ys : List A)
      → Perm ys xs
      → xs ≢ []
      → (x : A) × (rest : List A) × (ys ≡ x ∷ rest)
  nonempty xs [] p h = absurd (h (sym (Perm.nil-eq p)))
  nonempty xs (y ∷ ys) p h = (y, ys, refl)

  List-cases :
      {A : Type 0} (xs : List A) → (xs ≡ []) ⊎ ((x : A) × (rest : List A) × (xs ≡ x ∷ rest))
  List-cases [] = inl refl
  List-cases (x ∷ xs) = inr (x, xs, refl)

  -- For an order of numbers that is total: of at least one result a result is found. It meets the target, and no result that meets it has a
  -- smaller sum of latency and indexing duration; or no result meets the target, and none has a
  -- higher recall.
  pub find_best_variant-IsBest :
      (results : List (AutotuneResult F)) (target : F)
      → results ≢ []
      → (best : AutotuneResult F) × (find_best_variant add ge lt results target ≡ some best)
        × Mem best results
        × IsBest add ge lt results target best
  unfolding find_best_variant
  find_best_variant-IsBest results target some_ =
      let sorted =
        nonempty results (sort_by (recall_order lt) results) (recall_perm results) some_ in
      let timed_ = timed add ge lt in
      elim (List-cases (meeting add ge lt target (sort_by (recall_order lt) results))) [
        | inl e ↦
            let k = slowest_lem results target e sorted.0 sorted.1 sorted.2 in
            (sorted.0, rw (e, sorted.2) refl, k.0, k.1)
        | inr (r, rs, e) ↦
            let q =
              nonempty (map timed_ (r ∷ rs)) (sort_by (time_order lt) (map timed_ (r ∷ rs)))
                (time_perm (map timed_ (r ∷ rs))) (λ z. cc z) in
            let k = fastest_lem results target (r ∷ rs) e q.0 q.1 q.2 in
            (q.0.1, rw (e, q.2) refl, k.0, k.1)
      ]
