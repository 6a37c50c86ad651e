-- ===== src/Pq/Quantization.antt =====
-- Quantizing vectors with a codebook: `l2sq_dist`, `get_closest_centroid` and `quantize_vectors` of
-- lantern_cli/src/pq/quantization.rs. The floats are a parameter. `none` is a panic.
pub mod Closest
pub mod Rows
use lanterndb.Prelude.{
  ℕ, zero, suc, ◌+◌, ◌-◌, ◌*◌, ◌%◌, min, Bool, Option, none, some, List, [], ◌∷◌, leb, ltb, ◌&&◌,
  if◌then◌else◌, length, take, drop,
}

-- `f32` as the code uses it.
pub record FloatOps (F : Type 0) : Type 0 where
  pub zero_float : F
  pub max_float : F
  pub add : F → F → F
  pub sub : F → F → F
  pub mul : F → F → F
  pub lt : F → F → Bool

pub record DatasetItem (F : Type 0) : Type 0 where
  pub id : ℕ
  pub vec : List F

module _ {F : Type 0} (f : FloatOps F) where
  -- The fold over the zipped vectors, from `acc`.
  pub dist_loop : F → List F → List F → F
  dist_loop acc (x ∷ a) (y ∷ b) = dist_loop (f.add acc (f.mul (f.sub x y) (f.sub x y))) a b
  dist_loop acc _ _ = acc

  unfoldable pub l2sq_dist : List F → List F → F
  unfolding dist_loop
  l2sq_dist a b = dist_loop f.zero_float a b

  -- The variables `closest_distance` and `closest_index`, at centroid `idx`.
  pub closest_loop : List F → List (List F) → ℕ → F → ℕ → ℕ
  closest_loop subvector [] idx closest_distance closest_index = closest_index
  closest_loop subvector (centroid ∷ centroids) idx closest_distance closest_index =
      let distance = l2sq_dist centroid subvector in
      let closer = f.lt distance closest_distance in
      closest_loop subvector centroids (suc idx) (if closer then distance else closest_distance)
        (if closer then idx % 256 else closest_index)

  unfoldable pub get_closest_centroid : List (List F) → List F → ℕ
  unfolding closest_loop l2sq_dist
  get_closest_centroid centroids subvector = closest_loop subvector centroids 0 f.max_float 0

  -- `vec[start..end]`
  abbrev pub slice : List F → ℕ → ℕ → Option (List F)
  slice vec start end_index =
      if leb start end_index && leb end_index (length vec)
      then some (take (end_index - start) (drop start vec))
      else none

  abbrev with_centroids : Option (List (List F)) → Option (List F) → Option ℕ
  with_centroids (some centroids) (some subvector) = some (get_closest_centroid centroids subvector)
  with_centroids _ _ = none

  -- The code of subvector `i`.
  pub quantize_subvector : ℕ → ℕ → (ℕ → Option (List (List F))) → List F → ℕ → Option ℕ
  quantize_subvector vector_dim subvector_dim codebooks vec i =
      let start_index = i * subvector_dim in
      with_centroids (codebooks i)
        (slice vec start_index (min (start_index + subvector_dim) vector_dim))

  abbrev pub consed : {A : Type 0} → Option A → Option (List A) → Option (List A)
  consed (some x) (some xs) = some (x ∷ xs)
  consed _ _ = none

  -- `(0..splits)` from `i`, with `left` subvectors left.
  pub quantize_subvectors : ℕ → ℕ → (ℕ → Option (List (List F))) → List F → ℕ → ℕ → Option (List ℕ)
  unfolding quantize_subvector
  quantize_subvectors vector_dim subvector_dim codebooks vec i zero = some []
  quantize_subvectors vector_dim subvector_dim codebooks vec i (suc left) =
      consed (quantize_subvector vector_dim subvector_dim codebooks vec i)
        (quantize_subvectors vector_dim subvector_dim codebooks vec (suc i) left)

  abbrev pub with_id : ℕ → Option (List ℕ) → Option (ℕ × List ℕ)
  with_id id none = none
  with_id id (some codes) = some (id, codes)

  unfoldable pub quantize_vectors :
      List (DatasetItem F) → ℕ → ℕ → ℕ → (ℕ → Option (List (List F))) → Option (List (ℕ × List ℕ))
  unfolding quantize_subvectors
  quantize_vectors [] vector_dim subvector_dim splits codebooks = some []
  quantize_vectors (x ∷ dataset) vector_dim subvector_dim splits codebooks =
      consed (with_id x.id (quantize_subvectors vector_dim subvector_dim codebooks x.vec 0 splits))
        (quantize_vectors dataset vector_dim subvector_dim splits codebooks)
