-- ===== src/Autotune.antt =====
-- The tuning of indexes, lantern_cli/src/index_autotune/mod.rs: the loop over the variants and the
-- choice of the best. Floats and the database are parameters. A comparison with NaN, which panics,
-- is not modelled.
pub mod Choice
pub mod Variants
mod Tests
use mathlib.Core.Bool.{Bool-discrete}
use mathlib.Core.List.{filter}
use lanterndb.Prelude.Sorting.{Ordering, less, equal, greater, sort_by}
use lanterndb.Prelude.{
  ℕ, ◌+◌, ◌-◌, ◌/◌, ◌%◌, Bool, true, false, Option, none, some, List, [], ◌∷◌, ◌++◌, map,
  if◌then◌else◌, length, Result, ok, err,
}

pub record IndexParams : Type 0 where
  pub ef : ℕ
  pub ef_construction : ℕ
  pub m : ℕ

pub record AutotuneResult (F : Type 0) : Type 0 where
  pub params : IndexParams
  pub recall : F
  pub latency : F
  pub indexing_duration : F

abbrev pub variant : ℕ → ℕ → ℕ → IndexParams
variant ef ef_construction m = record { ef = ef; ef_construction = ef_construction; m = m }

abbrev pub index_variants : List IndexParams
index_variants =
    variant 64 32 6
    ∷ variant 64 40 8
    ∷ variant 64 48 12
    ∷ variant 76 60 16
    ∷ variant 96 96 32
    ∷ variant 128 128 48
    ∷ []

abbrev pub first {ℓ} : {A : Type ℓ} → List A → Option A
first [] = none
first (x ∷ xs) = some x

-- `partial_cmp` of two numbers.
abbrev pub partial_cmp : {F : Type 0} → (F → F → Bool) → F → F → Ordering
partial_cmp lt a b = if lt a b then less else if lt b a then greater else equal

-- By recall, the highest first.
abbrev pub recall_order :
    {F : Type 0} → (F → F → Bool) → AutotuneResult F → AutotuneResult F → Ordering
recall_order lt a b = partial_cmp lt b.recall a.recall

-- By time, the shortest first.
abbrev pub time_order :
    {F : Type 0} → (F → F → Bool) → F × AutotuneResult F → F × AutotuneResult F → Ordering
time_order lt a b = partial_cmp lt a.0 b.0

module _ {F : Type 0} (add : F → F → F) (ge lt : F → F → Bool) where
  abbrev pub timed : AutotuneResult F → F × AutotuneResult F
  timed r = (add r.latency r.indexing_duration, r)

  abbrev pub meeting : F → List (AutotuneResult F) → List (AutotuneResult F)
  meeting target_recall = filter (λ el. Bool-discrete (ge el.recall target_recall) true)

  abbrev pub second_of : Option (F × AutotuneResult F) → Option (AutotuneResult F)
  second_of none = none
  second_of (some p) = some p.1

  abbrev pub best_of : List (AutotuneResult F) → List (AutotuneResult F) → Option (AutotuneResult F)
  best_of sorted [] = first sorted
  best_of sorted (r ∷ rs) = second_of (first (sort_by (time_order lt) (map timed (r ∷ rs))))

  -- Nothing where `unwrap` panics.
  unfoldable pub find_best_variant : List (AutotuneResult F) → F → Option (AutotuneResult F)
  find_best_variant results target_recall =
      best_of (sort_by (recall_order lt) results)
        (meeting target_recall (sort_by (recall_order lt) results))

pub data AutotuneError (E : Type 0) : Type 0 where
  failed : E → AutotuneError E
  job_cancelled : AutotuneError E

-- The variables of the loop, with the database and the calls of `progress_cb`, the latest first.
pub record Tuning (F S : Type 0) : Type 0 where
  pub results : List (AutotuneResult F)
  pub progress : ℕ
  pub reported : List ℕ
  pub database : S

module _ {F S E : Type 0} (drop_index : S → Result E (Unit {0}) × S) (is_canceled : S → Bool)
    (measure : IndexParams → S → Result E (F × F × F) × S) (enough : F → Bool)
    (progress_per_iter : ℕ) where
  -- The result is pushed and the progress, a `u8`, reported; the flag tells whether to go on.
  abbrev pub measured :
      IndexParams
      → Tuning F S
      → Result E (F × F × F) × S
      → Result (AutotuneError E) Bool × Tuning F S
  measured v t (err e, database) = (err (failed e), record t { database = database })
  measured v t (ok (indexing_duration, recall, latency), database) = (
    ok (if enough recall then false else true),
    record {
      results =
          t.results
          ++ record {
            params = v;
            recall = recall;
            latency = latency;
            indexing_duration = indexing_duration;
          }
            ∷ [];
      progress = (t.progress + progress_per_iter) % 256;
      reported = ((t.progress + progress_per_iter) % 256) ∷ t.reported;
      database = database;
    },
  )

  abbrev pub dropped :
      IndexParams
      → Tuning F S
      → Result E (Unit {0}) × S
      → Result (AutotuneError E) Bool × Tuning F S
  dropped v t (err e, database) = (err (failed e), record t { database = database })
  dropped v t (ok u, database) =
      if is_canceled database
      then (err job_cancelled, record t { database = database })
      else measured v t (measure v database)

  abbrev pub go_on :
      (Tuning F S → Result (AutotuneError E) (Unit {0}) × Tuning F S)
      → Result (AutotuneError E) Bool × Tuning F S
      → Result (AutotuneError E) (Unit {0}) × Tuning F S
  go_on next (ok true, t) = next t
  go_on next (ok false, t) = (ok tt, t)
  go_on next (err e, t) = (err e, t)

  unfoldable pub try_variants :
      List IndexParams → Tuning F S → Result (AutotuneError E) (Unit {0}) × Tuning F S
  try_variants [] t = (ok tt, t)
  try_variants (v ∷ variants) t =
      go_on (try_variants variants) (dropped v t (drop_index t.database))
