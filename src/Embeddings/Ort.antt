-- ===== src/Embeddings/Ort.antt =====
-- The model runtime, lantern_cli/src/embeddings/core/ort_runtime.rs: the data of models and
-- encoders, and how the inputs of a session are cut to fit the memory. A two-dimensional array is
-- its list of rows; the factor 1.2 of a floating-point number is a parameter.
pub mod Pooling
pub mod Images
pub mod Visual
pub mod Memory
pub mod Models
pub mod Loading
pub mod Unloaded
pub mod Kept
pub mod Cached
mod Tests
pub mod Runtime
pub mod Text
pub mod Inputs
pub mod Rows
pub mod Groups
use lanterndb.Prelude.{
  ℕ, zero, suc, ◌+◌, ◌*◌, ◌/◌, ◌%◌, min, max, Bool, Option, none, some, List, [], ◌∷◌, ◌++◌, ◌==◌,
  if◌then◌else◌, length, take, drop, chunks, Result, ok, err, ◌>>=◌,
}
use Prim.Native.String.{String}

pub data PoolingStrategy : Type 0 where
  cls : PoolingStrategy
  mean : PoolingStrategy
  relu_log_max_pooling : PoolingStrategy

pub record ModelParams : Type 0 where
  pub layer_cnt : Option ℕ
  pub head_cnt : Option ℕ
  pub head_dim : Option ℕ
  pub pooling_strategy : PoolingStrategy

-- What an `unwrap`, a division by zero or a slice out of range does is `panicked`; the errors of the
-- libraries are `failed`.
pub data OrtError (E : Type 0) : Type 0 where
  panicked : OrtError E
  bad_shape : OrtError E
  no_attention_mask : OrtError E
  model_not_found : String → OrtError E
  not_enough_memory : OrtError E
  image_too_large : OrtError E
  expected_url_or_path : OrtError E
  failed : E → OrtError E

-- `usize` arithmetic wraps in a release build.
unfoldable pub get_required_memory : (ℕ → ℕ) → ModelParams → ℕ → ℕ
get_required_memory add_overhead p seq_length = elim p.head_cnt [
  | none ↦ 1
  | some num_heads ↦ elim p.head_dim [
    | none ↦ 1
    | some head_dim ↦ elim p.layer_cnt [
      | none ↦ 1
      | some num_layers ↦
          let model = 4 * num_layers * (num_heads * num_heads) * (head_dim * head_dim) in
          let activations = num_layers * num_heads * seq_length * (seq_length + 2 * head_dim) in
          add_overhead ((model + activations) * 8 % 18446744073709551616)
    ]
  ]
]

-- The rows of an array of this many columns.
unfoldable pub rows_of : ℕ → ℕ → List ℕ → List (List ℕ)
rows_of zero cols xs = []
rows_of (suc rows) cols xs = take cols xs ∷ rows_of rows cols (drop cols xs)

-- A tensor of token numbers: its rows.
abbrev pub Tensor : Type 0
Tensor = List (List ℕ)

module _ {E : Type 0} where
  -- `Array2::from_shape_vec`
  unfoldable pub from_shape_vec : ℕ → ℕ → List ℕ → Result (OrtError E) Tensor
  unfolding rows_of
  from_shape_vec rows cols xs =
      if rows * cols == length xs then ok (rows_of rows cols xs) else err bad_shape

  -- `inputs.push` if there is no group of this index, then a push on the group.
  unfoldable pub push_tensor :
      {A : Type 0} → ℕ → A → List (List A) → Result (OrtError E) (List (List A))
  push_tensor zero t [] = ok ((t ∷ []) ∷ [])
  push_tensor zero t (group ∷ groups) = ok ((group ++ t ∷ []) ∷ groups)
  push_tensor (suc index) t [] = err panicked
  push_tensor (suc index) t (group ∷ groups) =
      push_tensor index t groups >>= λ pushed. ok (group ∷ pushed)

  abbrev pub divide : ℕ → ℕ → Result (OrtError E) ℕ
  divide a zero = err panicked
  divide a (suc b) = ok (a / suc b)

  unfoldable pub push_chunks :
      ℕ → ℕ → List (List ℕ) → List (List Tensor) → Result (OrtError E) (List (List Tensor))
  unfolding from_shape_vec push_tensor
  push_chunks token_cnt index [] groups = ok groups
  push_chunks token_cnt index (chunk ∷ rest) groups =
      divide (length chunk) token_cnt >>= λ group_batch_size.
      from_shape_vec group_batch_size token_cnt chunk >>= λ t.
      push_tensor index t groups >>= λ pushed. push_chunks token_cnt (suc index) rest pushed

  unfoldable pub push_inputs :
      ℕ → ℕ → List (List ℕ) → List (List Tensor) → Result (OrtError E) (List (List Tensor))
  unfolding push_chunks
  push_inputs token_cnt max_token_cnt [] groups = ok groups
  push_inputs token_cnt max_token_cnt (input ∷ vecs) groups =
      if max_token_cnt == 0
      then err panicked
      else push_chunks token_cnt 0 (chunks max_token_cnt input) groups >>= λ pushed.
          push_inputs token_cnt max_token_cnt vecs pushed

  -- What memory is available is given.
  unfoldable pub cut_inputs :
      (ℕ → ℕ)
      → Result E ℕ
      → ModelParams
      → List (List ℕ)
      → ℕ
      → ℕ
      → Result (OrtError E) (List (List Tensor))
  unfolding get_required_memory push_inputs
  cut_inputs add_overhead (err e) params vecs batch_size token_cnt = err (failed e)
  cut_inputs add_overhead (ok available) params vecs batch_size token_cnt =
      divide available (get_required_memory add_overhead params token_cnt) >>= λ fitting.
      let max_batch_size = min batch_size (max 1 fitting) in
      push_inputs token_cnt (max_batch_size * token_cnt) vecs []

  unfoldable pub chunk_session_input :
      (ℕ → ℕ)
      → Result E ℕ
      → ModelParams
      → List (List ℕ)
      → ℕ
      → Result (OrtError E) (List (List Tensor))
  unfolding cut_inputs
  chunk_session_input add_overhead available_memory params [] batch_size = err panicked
  chunk_session_input add_overhead available_memory params (vec ∷ vecs) batch_size =
      divide (length vec) batch_size
      >>= cut_inputs add_overhead available_memory params (vec ∷ vecs) batch_size
