-- ===== src/Pq/Quantization/Rows.antt =====
-- The rows that `quantize_vectors` of lantern_cli/src/pq/quantization.rs gives.
use lanterndb.Prelude.{
  ℕ, zero, suc, ◌+◌, ◌-◌, ◌*◌, ◌≤◌, ◌<◌, ◌≡◌, refl, ap, ap₂, Option, some, List, [], ◌∷◌, map,
  arith, length, All, min, take, drop,
}
use native.Mathlib.Nat.{mul-le-mul_right}
use lanterndb.Pq.Quantization.{
  FloatOps, DatasetItem, closest_loop, get_closest_centroid, quantize_subvector,
  quantize_subvectors, quantize_vectors, consed, with_id,
}

module _ {F : Type 0} (f : FloatOps F) where
  -- The codebook has centroids for each of the splits, and the vectors hold all subvectors.
  pub record IsQuantizable (splits subvector_dim vector_dim : ℕ)
      (codebooks : ℕ → Option (List (List F))) (dataset : List (DatasetItem F)) : Type 0 where
    pub complete : (i : ℕ) → i < splits → (cs : List (List F)) × (codebooks i ≡ some cs)
    pub divided : splits * subvector_dim ≤ vector_dim
    pub sized : All (λ (x : DatasetItem F). length x.vec ≡ vector_dim) dataset

  closest_loop_byte :
      (subvector : List F) (cs : List (List F)) (idx : ℕ) (distance : F) (index : ℕ)
      → index < 256
      → closest_loop f subvector cs idx distance index < 256
  unfolding closest_loop
  closest_loop_byte subvector [] idx distance index small = small
  closest_loop_byte subvector (c ∷ cs) idx distance index small =
      closest_loop_byte subvector cs (suc idx) _ _ (ground arith)

  quantize_subvector_byte :
      (vector_dim subvector_dim : ℕ) (codebooks : ℕ → Option (List (List F))) (vec : List F) (i : ℕ)
      (cs : List (List F))
      → codebooks i ≡ some cs
      → suc i * subvector_dim ≤ vector_dim
      → length vec ≡ vector_dim
      → (code : ℕ) × (quantize_subvector f vector_dim subvector_dim codebooks vec i ≡ some code)
        × (code < 256)
  unfolding quantize_subvector get_closest_centroid
  quantize_subvector_byte vector_dim subvector_dim codebooks vec i cs e fits len =
      let subvector =
        take (min (i * subvector_dim + subvector_dim) vector_dim - i * subvector_dim)
          (drop (i * subvector_dim) vec) in
      (
        closest_loop f subvector cs 0 f.max_float 0,
        ground (arith, e),
        closest_loop_byte subvector cs 0 f.max_float 0 (omega arith),
      )

  quantize_subvectors_bytes :
      (splits vector_dim subvector_dim : ℕ) (codebooks : ℕ → Option (List (List F))) (vec : List F)
      (i left : ℕ)
      → ((j : ℕ) → j < splits → (cs : List (List F)) × (codebooks j ≡ some cs))
      → splits * subvector_dim ≤ vector_dim
      → length vec ≡ vector_dim
      → i + left ≤ splits
      → (codes : List ℕ) × (quantize_subvectors f vector_dim subvector_dim codebooks vec i left
          ≡ some codes)
        × (length codes ≡ left)
        × All (λ code. code < 256) codes
  unfolding quantize_subvectors
  quantize_subvectors_bytes splits vector_dim subvector_dim codebooks vec i zero complete divided
        len small =
      ([], refl, refl, tt)
  quantize_subvectors_bytes splits vector_dim subvector_dim codebooks vec i (suc left) complete
        divided len small =
      let book = complete i (omega arith) in
      let up : suc i * subvector_dim ≤ splits * subvector_dim =
        mul-le-mul_right subvector_dim (omega arith) in
      let x =
        quantize_subvector_byte vector_dim subvector_dim codebooks vec i book.0 book.1 (omega arith)
          len in
      let y =
        quantize_subvectors_bytes splits vector_dim subvector_dim codebooks vec (suc i) left
          complete divided len (omega arith) in
      (x.0 ∷ y.0, ap₂ (consed f) x.1 y.1, ap suc y.2, (x.2, y.3))

  -- With a codebook that has centroids for every split, and vectors that hold all their subvectors,
  -- quantizing does not panic: there is one result for each row, in the order of the rows and with
  -- its id, of as many codes as there are splits, each of them a byte.
  pub quantize_vectors_rows :
      (splits subvector_dim vector_dim : ℕ) (codebooks : ℕ → Option (List (List F)))
      (dataset : List (DatasetItem F))
      → IsQuantizable splits subvector_dim vector_dim codebooks dataset
      → (rows : List (ℕ × List ℕ)) × (quantize_vectors f dataset vector_dim subvector_dim splits
            codebooks
          ≡ some rows)
        × (map (λ (row : ℕ × List ℕ). row.0) rows ≡ map (λ (x : DatasetItem F). x.id) dataset)
        × All (λ (row : ℕ × List ℕ). (length row.1 ≡ splits) × All (λ code. code < 256) row.1) rows
  unfolding quantize_vectors
  quantize_vectors_rows splits subvector_dim vector_dim codebooks [] h = ([], refl, refl, tt)
  quantize_vectors_rows splits subvector_dim vector_dim codebooks (x ∷ dataset) h =
      let y =
        quantize_subvectors_bytes splits vector_dim subvector_dim codebooks x.vec 0 splits
          h.complete h.divided h.sized.0 (omega arith) in
      let z =
        quantize_vectors_rows splits subvector_dim vector_dim codebooks dataset
          (record { complete = h.complete; divided = h.divided; sized = h.sized.1 }) in
      (
        (x.id, y.0) ∷ z.0,
        ap₂ (consed f) (ap (with_id f x.id) y.1) z.1,
        ap (λ (t : List ℕ). x.id ∷ t) z.2,
        ((y.2, y.3), z.3),
      )
