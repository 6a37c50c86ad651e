-- ===== src/Embeddings/Ort/Pooling.antt =====
-- The pooling strategies of lantern_cli/src/embeddings/core/ort_runtime.rs. An array is a nested
-- list: the batch, the tokens and the dimensions, of which there are as many as the session
-- declares. The operations on `f32` are parameters, and so is the sum of a lane.
use mathlib.Core.List.{foldl}
use lanterndb.Prelude.{
  ℕ, zero, suc, ◌≡◌, refl, ap, Option, none, some, List, [], ◌∷◌, map, arith, if◌then◌else◌, ◌==◌,
  ==_refl, ==_iff, ◌<◌, Bool-cases, inl, inr, length, length-map, replicate, concat, chunks,
  chunk_loop-concat, All,
}
use lanterndb.Embeddings.Ort.{PoolingStrategy, cls, mean, relu_log_max_pooling}

pub record TensorOps (F : Type 0) : Type 0 where
  pub of_token : ℕ → F
  pub mul : F → F → F
  pub add : F → F → F
  pub div : F → F → F
  pub max : F → F → F
  pub ln : F → F
  pub sum : List F → F
  pub nought : F
  pub one : F
  pub neg_infinity : F
  pub epsilon : F

infixl 5 ◌>>?◌
abbrev pub ◌>>?◌ : {A B : Type 0} → Option A → (A → Option B) → Option B
none >>? f = none
some a >>? f = f a

-- An axis that is broadcast to a length: it has it, or it has one item; else it is a panic.
abbrev pub repeated : {A : Type 0} → ℕ → List A → Option (List A)
repeated n [] = none
repeated n (x ∷ []) = some (replicate n x)
repeated n (x ∷ y ∷ xs) = none

abbrev pub broadcast : {A : Type 0} → ℕ → List A → Option (List A)
broadcast n xs = if length xs == n then some xs else repeated n xs

abbrev pub zip_with : {A B C : Type 0} → (A → B → C) → List A → List B → List C
zip_with f [] ys = []
zip_with f (x ∷ xs) [] = []
zip_with f (x ∷ xs) (y ∷ ys) = f x y ∷ zip_with f xs ys

abbrev pub collect : {A : Type 0} → List (Option A) → Option (List A)
collect [] = some []
collect (x ∷ xs) = x >>? λ a. collect xs >>? λ as_. some (a ∷ as_)

abbrev pub heads : {A : Type 0} → List (List A) → List A
heads [] = []
heads ([] ∷ rows) = heads rows
heads ((x ∷ row) ∷ rows) = x ∷ heads rows

abbrev pub tails : {A : Type 0} → List (List A) → List (List A)
tails [] = []
tails ([] ∷ rows) = [] ∷ tails rows
tails ((x ∷ row) ∷ rows) = row ∷ tails rows

-- The lanes of the axis of the tokens, one for each dimension.
abbrev pub lanes : {A : Type 0} → ℕ → List (List A) → List (List A)
lanes zero rows = []
lanes (suc dims) rows = heads rows ∷ lanes dims (tails rows)

-- The first token of each item of the batch.
abbrev pub first_token : {A : Type 0} → List (List A) → Option (List A)
first_token [] = none
first_token (token ∷ tokens) = some token

unfoldable pub cls_pooling : {F : Type 0} → ℕ → List (List (List F)) → Option (List (List F))
cls_pooling zero embeddings = none
cls_pooling (suc dims) embeddings =
    collect (map first_token embeddings) >>? λ tokens. some (chunks (suc dims) (concat tokens))

module _ {F : Type 0} (ops : TensorOps F) where
  -- The tokens of one item times its attention mask.
  abbrev pub masked : ℕ → List (List F) → List ℕ → Option (List (List F))
  masked dims tokens mask = broadcast (length tokens) mask >>? λ mask.
      some
        (zip_with (λ token v. zip_with ops.mul token (replicate dims (ops.of_token v))) tokens mask)

  unfoldable pub mean_row : ℕ → List (List F) → List ℕ → Option (List F)
  mean_row dims tokens mask = masked dims tokens mask >>? λ tokens.
      let total = ops.max (ops.sum (map ops.of_token mask)) ops.epsilon in
      some (zip_with ops.div (map ops.sum (lanes dims tokens)) (replicate dims total))

  unfoldable pub relu_log_max_row : ℕ → List (List F) → List ℕ → Option (List F)
  relu_log_max_row dims tokens mask =
      let relu_log = map (map (λ x. ops.ln (ops.add ops.one (ops.max x ops.nought)))) tokens in
      masked dims relu_log mask >>? λ tokens.
      some (map (foldl ops.max ops.neg_infinity) (lanes dims tokens))

  abbrev pub each_row :
      (List (List F) → List ℕ → Option (List F))
      → List (List (List F))
      → List (List ℕ)
      → Option (List (List F))
  each_row row embeddings attention_mask = broadcast (length embeddings) attention_mask >>? λ mask.
      collect (zip_with row embeddings mask)

  unfoldable pub mean_pooling : ℕ → List (List (List F)) → List (List ℕ) → Option (List (List F))
  unfolding mean_row
  mean_pooling dims embeddings attention_mask = each_row (mean_row dims) embeddings attention_mask

  unfoldable pub relu_log_max : ℕ → List (List (List F)) → List (List ℕ) → Option (List (List F))
  unfolding relu_log_max_row
  relu_log_max dims embeddings attention_mask =
      each_row (relu_log_max_row dims) embeddings attention_mask

  unfoldable pub pool :
      PoolingStrategy → ℕ → List (List (List F)) → List (List ℕ) → Option (List (List F))
  unfolding cls_pooling mean_pooling relu_log_max
  pool cls dims embeddings attention_mask = cls_pooling dims embeddings
  pool mean dims embeddings attention_mask = mean_pooling dims embeddings attention_mask
  pool relu_log_max_pooling dims embeddings attention_mask =
      relu_log_max dims embeddings attention_mask

  -- What the pooling of one item gives.
  abbrev pub cls_row : ℕ → List (List F) → Option (List F)
  cls_row dims tokens =
      first_token tokens >>? λ token. if length token == dims then some token else none

  abbrev pub pool_row : PoolingStrategy → ℕ → List (List F) → List ℕ → Option (List F)
  pool_row cls dims tokens mask = cls_row dims tokens
  pool_row mean dims tokens mask = mean_row dims tokens mask
  pool_row relu_log_max_pooling dims tokens mask = relu_log_max_row dims tokens mask

  cls_row_inv :
      (dims : ℕ) (tokens : List (List F)) (v : List F)
      → cls_row dims tokens ≡ some v
      → (first_token tokens ≡ some v) × (length v ≡ dims)
  cls_row_inv dims [] v h = cc
  cls_row_inv dims (token ∷ tokens) v h = elim (Bool-cases (length token == dims)) [
    | inl e ↦
        let same : token ≡ v = ground (arith, rw e at h) in
        (ap some same, rw (← same) ((==_iff (length token) dims).0 e))
    | inr e ↦ cc (rw e at h)
  ]

  module _ {A : Type 0} (embed : A → List (List F)) (mask : A → List ℕ) (vector : A → List F) where
    each_row_lem :
        (row : List (List F) → List ℕ → Option (List F)) (items : List A)
        → All (λ a. row (embed a) (mask a) ≡ some (vector a)) items
        → each_row row (map embed items) (map mask items) ≡ some (map vector items)
    each_row_lem row items h =
        rw (length-map embed items, length-map mask items, ==_refl (length items))
          (collected row items h)
      where
        collected :
            (row : List (List F) → List ℕ → Option (List F)) (items : List A)
            → All (λ a. row (embed a) (mask a) ≡ some (vector a)) items
            → collect (zip_with row (map embed items) (map mask items)) ≡ some (map vector items)
        collected row [] h = refl
        collected row (a ∷ items) h = rw (h.0, collected row items h.1) refl

    first_tokens :
        (dims : ℕ) (items : List A)
        → All (λ a. cls_row dims (embed a) ≡ some (vector a)) items
        → (collect (map first_token (map embed items)) ≡ some (map vector items))
          × All (λ v. length v ≡ dims) (map vector items)
    first_tokens dims [] h = (refl, tt)
    first_tokens dims (a ∷ items) h =
        let got = cls_row_inv dims (embed a) (vector a) h.0 in
        let rest = first_tokens dims items h.1 in (rw (got.0, rest.0) refl, (got.1, rest.1))

    -- Pooling a batch pools each item.
    pub pool-rows :
        (strategy : PoolingStrategy) (dims : ℕ) (items : List A)
        → 0 < dims
        → All (λ a. pool_row strategy dims (embed a) (mask a) ≡ some (vector a)) items
        → pool strategy dims (map embed items) (map mask items) ≡ some (map vector items)
    unfolding pool
    pool-rows cls zero items pos h = absurd (omega arith)
    pool-rows cls (suc dims) items pos h =
        let got = first_tokens (suc dims) items h in
        rw got.0 (
          ap some (
            chunk_loop-concat (length (concat (map vector items))) (suc dims) (map vector items) pos
              got.1 (omega arith)))
    pool-rows mean dims items pos h = each_row_lem (mean_row dims) items h
    pool-rows relu_log_max_pooling dims items pos h = each_row_lem (relu_log_max_row dims) items h
