-- ===== src/Pq/Tests.antt =====
-- The theorems on lantern_cli/src/pq/ at concrete inputs.
use lanterndb.Prelude.{
  ℕ, ◌+◌, ◌-◌, ◌*◌, ◌≡◌, ◌<◌, refl, false, Option, none, some, List, [], ◌∷◌, map, arith, ltb,
  if◌then◌else◌, length, get_elem?, All,
}
use lanterndb.Pq.Quantization.{
  FloatOps, DatasetItem, get_closest_centroid, l2sq_dist, quantize_vectors,
}
use lanterndb.Pq.Quantization.Closest.{IsOrdered, get_closest_centroid_closest}
use lanterndb.Pq.Quantization.Rows.{IsQuantizable, quantize_vectors_rows}
use lanterndb.Pq.Ranges.{connection_range}
use lanterndb.Pq.Ranges.Cover.{IsIn, last_rows_skipped}

abbrev floats : FloatOps ℕ
floats = record {
  zero_float = 0;
  max_float = 1000;
  add = λ x y. x + y;
  sub = λ x y. (x - y) + (y - x);
  mul = λ x y. x * y;
  lt = ltb;
}

floats-IsOrdered : IsOrdered floats
floats-IsOrdered = record { irreflexive = λ x. ground arith; weak = λ x y z p q. ground arith }

abbrev centroids : List (List ℕ)
centroids = (0 ∷ []) ∷ (5 ∷ []) ∷ (9 ∷ []) ∷ []

get_closest_centroid_closest_example :
    (best : List ℕ) × (get_elem? centroids (get_closest_centroid floats centroids (6 ∷ []))
      ≡ some best)
    × All
        (λ d. ltb (l2sq_dist floats d (6 ∷ [])) (l2sq_dist floats best (6 ∷ [])) ≡ false)
        centroids
unfolding l2sq_dist
get_closest_centroid_closest_example =
    get_closest_centroid_closest floats floats-IsOrdered centroids (6 ∷ []) 1 (5 ∷ []) (omega arith)
      refl refl

abbrev codebooks : ℕ → Option (List (List ℕ))
codebooks i = if ltb i 2 then some centroids else none

abbrev dataset : List (DatasetItem ℕ)
dataset = record { id = 3; vec = 1 ∷ 8 ∷ [] } ∷ record { id = 4; vec = 9 ∷ 4 ∷ [] } ∷ []

dataset-IsQuantizable : IsQuantizable floats 2 1 2 codebooks dataset
dataset-IsQuantizable = record {
  complete = λ i small. (centroids, ground arith);
  divided = omega arith;
  sized = (refl, (refl, tt));
}

quantize_vectors_rows_example :
    (rows : List (ℕ × List ℕ)) × (quantize_vectors floats dataset 2 1 2 codebooks ≡ some rows)
    × (map (λ (row : ℕ × List ℕ). row.0) rows ≡ 3 ∷ 4 ∷ [])
    × All (λ (row : ℕ × List ℕ). (length row.1 ≡ 2) × All (λ code. code < 256) row.1) rows
quantize_vectors_rows_example =
    quantize_vectors_rows floats 2 1 2 codebooks dataset dataset-IsQuantizable

last_rows_skipped_example : ¬ IsIn 10 (connection_range (1, 11) 8 4 3)
last_rows_skipped_example =
    last_rows_skipped 1 11 8 4 3 10 (omega arith) (omega arith) (omega arith)
