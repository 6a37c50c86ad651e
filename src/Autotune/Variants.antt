-- ===== src/Autotune/Variants.antt =====
-- Which variants the loop of `autotune_index`, lantern_cli/src/index_autotune/mod.rs, tries.
use lanterndb.Prelude.{
  ℕ, ◌≡◌, ◌⊎◌, inl, inr, refl, ap, ◌∙◌, Bool, true, false, List, [], ◌∷◌, ◌++◌, append-nil,
  append_assoc, if◌then◌else◌, Result, ok, err, result_cases, Bool-cases,
}
use lanterndb.Autotune.{IndexParams, AutotuneResult, Tuning, measured, dropped, go_on, try_variants}

module _ {F : Type 0} (enough : F → Bool) where
  -- One result for each variant, in their order, up to the first with enough recall.
  abbrev pub IsTried : List IndexParams → List (AutotuneResult F) → Type 0
  IsTried [] [] = Unit
  IsTried (v ∷ variants) (r ∷ results) =
      (r.params ≡ v)
      × (((enough r.recall ≡ true) × (results ≡ []))
          ⊎ ((enough r.recall ≡ false) × IsTried variants results))
  IsTried _ _ = ⊥

module _ {F S E : Type 0} (drop_index : S → Result E (Unit {0}) × S) (is_canceled : S → Bool)
    (measure : IndexParams → S → Result E (F × F × F) × S) (enough : F → Bool)
    (progress_per_iter : ℕ) where
  -- The step of a variant that succeeds: its result, and whether the loop goes on.
  abbrev Adds : IndexParams → Tuning F S → Bool → Tuning F S → Type 0
  Adds v t more u =
      (r : AutotuneResult F) × (u.results ≡ t.results ++ r ∷ [])
      × (r.params ≡ v)
      × (more ≡ (if enough r.recall then false else true))

  measured-Adds :
      (v : IndexParams) (t : Tuning F S) (m : Result E (F × F × F) × S) (more : Bool)
      (u : Tuning F S)
      → measured drop_index is_canceled measure enough progress_per_iter v t m ≡ (ok more, u)
      → Adds v t more u
  measured-Adds v t (err e, database) more u h = absurd (cc h)
  measured-Adds v t (ok (indexing_duration, recall, latency), database) more u h = (
    record {
      params = v;
      recall = recall;
      latency = latency;
      indexing_duration = indexing_duration;
    },
    cc (ap (λ p. p.1.results) h),
    refl,
    cc h,
  )

  dropped-Adds :
      (v : IndexParams) (t : Tuning F S) (m : Result E (Unit {0}) × S) (more : Bool)
      (u : Tuning F S)
      → dropped drop_index is_canceled measure enough progress_per_iter v t m ≡ (ok more, u)
      → Adds v t more u
  dropped-Adds v t (err e, database) more u h = absurd (cc h)
  dropped-Adds v t (ok a, database) more u h = elim (Bool-cases (is_canceled database)) [
    | inl c ↦ absurd (cc (rw c at h))
    | inr c ↦ measured-Adds v t (measure v database) more u (rw c at h)
  ]

  goes_on : (b : Bool) → true ≡ (if b then false else true) → b ≡ false
  goes_on true h = absurd (cc h)
  goes_on false h = refl

  ends : (b : Bool) → false ≡ (if b then false else true) → b ≡ true
  ends true h = refl
  ends false h = absurd (cc h)

  -- When the loop ends without an error, it added to the results one for each variant, in their
  -- order, up to the first whose recall is enough, and that one included.
  pub try_variants-IsTried :
      (variants : List IndexParams) (t u : Tuning F S)
      → try_variants drop_index is_canceled measure enough progress_per_iter variants t ≡ (ok tt, u)
      → (added : List (AutotuneResult F)) × (u.results ≡ t.results ++ added)
        × IsTried enough variants added
  unfolding try_variants
  try_variants-IsTried [] t u h = ([], cc (ap (λ p. p.1.results) h, append-nil t.results), tt)
  try_variants-IsTried (v ∷ variants) t u h =
      elim (result_cases (
        dropped drop_index is_canceled measure enough progress_per_iter v t
          (drop_index t.database))) [
            | inl (more, w, e) ↦
                after more w (try_variants-IsTried variants w u)
                  (dropped-Adds v t (drop_index t.database) more w e) (rw e at h)
            | inr (error, w, e) ↦ absurd (cc (rw e at h))
          ]
    where
      after :
          (more : Bool) (w : Tuning F S)
          → (try_variants drop_index is_canceled measure enough progress_per_iter variants w
                ≡ (ok tt, u)
              → (added : List (AutotuneResult F)) × (u.results ≡ w.results ++ added)
                × IsTried enough variants added)
          → Adds v t more w
          → go_on drop_index is_canceled measure enough progress_per_iter
              (try_variants drop_index is_canceled measure enough progress_per_iter variants)
              (ok more, w)
            ≡ (ok tt, u)
          → (added : List (AutotuneResult F)) × (u.results ≡ t.results ++ added)
            × IsTried enough (v ∷ variants) added
      after true w ih a k =
          let rest = ih k in
          (
            a.0 ∷ rest.0,
            rest.1 ∙ ap (λ rs. rs ++ rest.0) a.1 ∙ append_assoc t.results (a.0 ∷ []) rest.0,
            (a.2, inr (goes_on (enough a.0.recall) a.3, rest.2)),
          )
      after false w ih a k = (
        a.0 ∷ [],
        cc (ap (λ p. p.1.results) k, a.1),
        (a.2, inl (ends (enough a.0.recall) a.3, refl)),
      )
