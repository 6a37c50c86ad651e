-- ===== src/Embeddings/Ort/Text.antt =====
-- `process_text_bert`, `process_text_clip` and `process_text` of
-- lantern_cli/src/embeddings/core/ort_runtime.rs. The tokenizer and the session are parameters: what
-- an encoding holds, and what a run gives for its tensors.
use Prim.Native.String.{String}
use text.Mathlib.Text.{◌==◌}
use lanterndb.Prelude.{
  ℕ, zero, suc, Option, none, some, List, [], ◌∷◌, ◌++◌, map, if◌then◌else◌, length, concat, chunks,
  get_elem?, Result, ok, err, ◌>>=◌,
}
use lanterndb.Embeddings.Http.{EmbeddingResult}
use lanterndb.Embeddings.Ort.{
  ModelParams, OrtError, panicked, no_attention_mask, failed, Tensor, divide, from_shape_vec,
  chunk_session_input,
}
use lanterndb.Embeddings.Ort.Pooling.{TensorOps, pool}

pub record Encoding : Type 0 where
  pub ids : List ℕ
  pub attention_mask : List ℕ
  pub type_ids : List ℕ

-- The output of a model of rank two: the length of its second axis, and its items.
pub record Output (F : Type 0) : Type 0 where
  pub seq_len : Option ℕ
  pub items : List F

-- An encoder: its tokenizer and its session, with the names of the session's inputs and the last of
-- the dimensions that its output declares. `run` is for a model whose output has rank three.
pub record Encoder (E F : Type 0) : Type 0 where
  pub name : String
  pub params : ModelParams
  pub encode_batch : Option (List String → Result E (List Encoding))
  pub inputs : List String
  pub output_dims : Option ℕ
  pub run : List Tensor → Result E (List (List (List F)))
  pub run_clip : List Tensor → Result E (Output F)

-- The variables of the loop over the session's inputs.
pub record Collected : Type 0 where
  pub vecs : List (List ℕ)
  pub processed_tokens : ℕ
  pub attention_mask_idx : Option ℕ

abbrev pub concat_field : (Encoding → List ℕ) → List Encoding → List ℕ
concat_field f preprocessed = concat (map f preprocessed)

unfoldable pub push_input : List Encoding → String → Collected → Collected
push_input preprocessed name c =
    if name == "input_ids"
    then record {
      vecs = c.vecs ++ concat_field (λ e. e.ids) preprocessed ∷ [];
      processed_tokens = length (concat_field (λ e. e.ids) preprocessed);
      attention_mask_idx = c.attention_mask_idx;
    }
    else if name == "attention_mask"
    then record {
      vecs = c.vecs ++ concat_field (λ e. e.attention_mask) preprocessed ∷ [];
      processed_tokens = c.processed_tokens;
      attention_mask_idx = some (length c.vecs);
    }
    else if name == "token_type_ids"
    then record c { vecs = c.vecs ++ concat_field (λ e. e.type_ids) preprocessed ∷ [] }
    else c

unfoldable pub push_each : List Encoding → List String → Collected → Collected
unfolding push_input
push_each preprocessed [] c = c
push_each preprocessed (name ∷ names) c =
    push_each preprocessed names (push_input preprocessed name c)

abbrev pub no_inputs : Collected
no_inputs = record { vecs = []; processed_tokens = 0; attention_mask_idx = none }

module _ {E : Type 0} where
  abbrev pub unwrap {ℓ} : {A : Type ℓ} → Option A → Result (OrtError E) A
  unwrap none = err panicked
  unwrap (some a) = ok a

  abbrev pub or_failed : {A : Type 0} → Result E A → Result (OrtError E) A
  or_failed (ok a) = ok a
  or_failed (err e) = err (failed e)

  abbrev pub or_no_mask : Option ℕ → Result (OrtError E) ℕ
  or_no_mask none = err no_attention_mask
  or_no_mask (some idx) = ok idx

-- What one group of tensors gives, and all of them up to the first error.
module _ {E F : Type 0} (ops : TensorOps F) (enc : Encoder E F) where
  unfoldable pub embed_chunk : ℕ → List Tensor → Result (OrtError E) (List (List F))
  unfolding pool
  embed_chunk attention_mask_idx chunk = or_failed (enc.run chunk) >>= λ embeddings.
      unwrap (get_elem? chunk attention_mask_idx) >>= λ mask.
      unwrap enc.output_dims >>= λ output_dims.
      unwrap (pool ops enc.params.pooling_strategy output_dims embeddings mask)

  unfoldable pub embed_chunks : ℕ → List (List Tensor) → Result (OrtError E) (List (List (List F)))
  unfolding embed_chunk
  embed_chunks attention_mask_idx [] = ok []
  embed_chunks attention_mask_idx (chunk ∷ rest) =
      embed_chunk attention_mask_idx chunk >>= λ embeddings.
      embed_chunks attention_mask_idx rest >>= λ more. ok (embeddings ∷ more)

  unfoldable pub process_text_bert :
      (ℕ → ℕ) → Result E ℕ → List String → Result (OrtError E) (EmbeddingResult (List F))
  unfolding push_each chunk_session_input embed_chunks
  process_text_bert add_overhead available_memory texts =
      unwrap enc.encode_batch >>= λ encode_batch. or_failed (encode_batch texts) >>= λ preprocessed.
      let c = push_each preprocessed enc.inputs no_inputs in
      or_no_mask c.attention_mask_idx >>= λ idx.
      chunk_session_input add_overhead available_memory enc.params c.vecs (length texts)
      >>= λ groups. embed_chunks idx groups >>= λ embeddings.
          ok (record { processed_tokens = c.processed_tokens; embeddings = concat embeddings })

-- The embeddings of an output of rank two; `chunks` of no length is a panic.
module _ {E F : Type 0} where
  abbrev pub rows_of_output : ℕ → Output F → Result (OrtError E) (EmbeddingResult (List F))
  rows_of_output processed_tokens out = unwrap out.seq_len >>= λ seq_len. elim seq_len [
    | zero ↦ err panicked
    | suc k ↦
        ok (record { processed_tokens = processed_tokens; embeddings = chunks (suc k) out.items })
  ]

  unfoldable pub process_text_clip :
      Encoder E F → List String → Result (OrtError E) (EmbeddingResult (List F))
  unfolding from_shape_vec
  process_text_clip enc texts = unwrap enc.encode_batch >>= λ encode_batch.
      or_failed (encode_batch texts) >>= λ preprocessed.
      let v1 = concat_field (λ e. e.ids) preprocessed in
      let v2 = concat_field (λ e. e.attention_mask) preprocessed in
      divide (length v1) (length texts) >>= λ cols1.
      from_shape_vec (length texts) cols1 v1 >>= λ ids.
      divide (length v2) (length texts) >>= λ cols2.
      from_shape_vec (length texts) cols2 v2 >>= λ mask.
      or_failed (enc.run_clip (ids ∷ mask ∷ [])) >>= rows_of_output (length v1)

  unfoldable pub process_text :
      TensorOps F
      → Encoder E F
      → (ℕ → ℕ)
      → Result E ℕ
      → List String
      → Result (OrtError E) (EmbeddingResult (List F))
  unfolding process_text_bert process_text_clip
  process_text ops enc add_overhead available_memory texts =
      if enc.name == "clip/ViT-B-32-textual"
      then process_text_clip enc texts
      else process_text_bert ops enc add_overhead available_memory texts
