-- ===== src/Embeddings/Ort/Rows.antt =====
-- `process_text_bert` of lantern_cli/src/embeddings/core/ort_runtime.rs embeds each text by itself,
-- whatever memory there is.
use Prim.Native.String.{String}
use text.Mathlib.Text.{◌==◌}
use lanterndb.Prelude.{
  ℕ, ◌<◌, ◌≡◌, refl, ap, sym, ◌∙◌, inl, inr, Bool-cases, Option, some, List, [], ◌∷◌, ◌++◌, map,
  arith, length, concat, chunks, get_elem?, All, concat-chunk_loop, All-chunk_loop, Result, ok,
}
use lanterndb.Embeddings.Http.{EmbeddingResult}
use lanterndb.Embeddings.Ort.{ModelParams, get_required_memory, chunk_session_input}
use lanterndb.Embeddings.Ort.Groups.{IsWide, tensors_of, rows_per_run, chunk_session_input_groups}
use lanterndb.Embeddings.Ort.Pooling.{TensorOps, pool_row, pool-rows}
use lanterndb.Embeddings.Ort.Inputs.{
  fields_of, mask_of, IsCollected, push_each-IsCollected, push_each_found, get_elem?-map,
  map-append,
}
use lanterndb.Embeddings.Ort.Text.{
  Encoding, Encoder, concat_field, push_each, no_inputs, embed_chunk, embed_chunks,
  process_text_bert,
}

-- The tokenizer pads the encodings of a batch to one length.
abbrev pub IsPadded : ℕ → Encoding → Type 0
IsPadded token_cnt e =
    (length e.ids ≡ token_cnt)
    × (length e.attention_mask ≡ token_cnt)
    × (length e.type_ids ≡ token_cnt)

All-map {ℓ κ μ} :
    {A : Type ℓ} {P : A → Type κ} {Q : A → Type μ} (xs : List A)
    → ((a : A) → P a → Q a)
    → All P xs
    → All Q xs
All-map [] f h = tt
All-map (x ∷ xs) f h = (f x h.0, All-map xs f h.1)

fields-IsWide :
    (token_cnt : ℕ) (names : List String) (batch : List Encoding)
    → All (IsPadded token_cnt) batch
    → All (λ f. All (IsWide token_cnt f) batch) (fields_of names)
fields-IsWide token_cnt [] batch h = tt
fields-IsWide token_cnt (name ∷ names) batch h = elim (Bool-cases (name == "input_ids")) [
  | inl e ↦ rw e (All-map batch (λ a p. p.0) h, fields-IsWide token_cnt names batch h)
  | inr e ↦ rw e (elim (Bool-cases (name == "attention_mask")) [
    | inl e' ↦ rw e' (All-map batch (λ a p. p.1) h, fields-IsWide token_cnt names batch h)
    | inr e' ↦ rw e' (elim (Bool-cases (name == "token_type_ids")) [
      | inl e'' ↦ rw e'' (All-map batch (λ a p. p.2) h, fields-IsWide token_cnt names batch h)
      | inr e'' ↦ rw e'' (fields-IsWide token_cnt names batch h)
    ])
  ])
]

some_field : {A : Type 0} (xs : List A) (i : ℕ) (a : A) → get_elem? xs i ≡ some a → 0 < length xs
some_field [] i a h = cc
some_field (x ∷ xs) i a h = omega arith

session_groups :
    {E : Type 0} (add_overhead : ℕ → ℕ) (available : ℕ) (params : ModelParams) (token_cnt : ℕ)
    (fields : List (Encoding → List ℕ)) (encodings : List Encoding)
    → 0 < token_cnt
    → 0 < get_required_memory add_overhead params token_cnt
    → All (λ f. All (IsWide token_cnt f) encodings) fields
    → 0 < length fields
    → 0 < length encodings
    → chunk_session_input {E = E} add_overhead
        (ok available)
        params
        (map (λ f. concat_field f encodings) fields)
        (length encodings)
      ≡ ok (
          map (tensors_of fields) (
            chunks
              (rows_per_run add_overhead params available token_cnt (length encodings))
              encodings))
session_groups add_overhead available params token_cnt [] encodings pos needed h some_ more =
    absurd (omega arith)
session_groups add_overhead available params token_cnt (f ∷ fields) [] pos needed h some_ more =
    absurd (omega arith)
session_groups {E} add_overhead available params token_cnt (f ∷ fields) (e ∷ encodings) pos needed h
      some_ more =
    chunk_session_input_groups {E = E} add_overhead available params token_cnt f fields e encodings
      pos needed h

concat-map-map :
    {A B : Type 0} (f : A → B) (xss : List (List A)) → concat (map (map f) xss) ≡ map f (concat xss)
concat-map-map f [] = refl
concat-map-map f (xs ∷ xss) =
    ap (λ t. map f xs ++ t) (concat-map-map f xss) ∙ sym (map-append f xs (concat xss))

-- A run of the session treats the rows of its tensors one by one, as the models do.
abbrev pub IsRowwise : {E F : Type 0} → Encoder E F → ℕ → (Encoding → List (List F)) → Type 0
IsRowwise enc token_cnt embed =
    (batch : List Encoding)
    → All (IsPadded token_cnt) batch
    → enc.run (tensors_of (fields_of enc.inputs) batch) ≡ ok (map embed batch)

module _ {E F : Type 0} (ops : TensorOps F) (enc : Encoder E F) (token_cnt dims : ℕ)
    (embed : Encoding → List (List F)) (vector : Encoding → List F) where
  -- The encoding's vector is the pooling of what the model makes of it.
  abbrev pub IsPooled : Encoding → Type 0
  IsPooled e =
      pool_row ops enc.params.pooling_strategy dims (embed e) e.attention_mask ≡ some (vector e)

  module _ (law : IsRowwise enc token_cnt embed) (declared : enc.output_dims ≡ some dims)
      (wide : 0 < dims) where
    embed_chunk-group :
        (idx : ℕ) (group : List Encoding)
        → get_elem? (fields_of enc.inputs) idx ≡ some mask_of
        → All (IsPadded token_cnt) group
        → All IsPooled group
        → embed_chunk ops enc idx (tensors_of (fields_of enc.inputs) group) ≡ ok (map vector group)
    unfolding embed_chunk
    embed_chunk-group idx group at_ padded pooled =
        rw
          (
            law group padded,
            get_elem?-map (λ (f : Encoding → List ℕ). map f group) (fields_of enc.inputs) idx
                mask_of at_,
            declared,
            pool-rows ops embed mask_of vector enc.params.pooling_strategy dims group wide pooled,
          )
          refl

    embed_chunks-groups :
        (idx : ℕ) (groups : List (List Encoding))
        → get_elem? (fields_of enc.inputs) idx ≡ some mask_of
        → All (All (IsPadded token_cnt)) groups
        → All (All IsPooled) groups
        → embed_chunks ops enc idx (map (tensors_of (fields_of enc.inputs)) groups)
          ≡ ok (map (map vector) groups)
    unfolding embed_chunks
    embed_chunks-groups idx [] at_ padded pooled = refl
    embed_chunks-groups idx (group ∷ groups) at_ padded pooled =
        rw
          (
            embed_chunk-group idx group at_ padded.0 pooled.0,
            embed_chunks-groups idx groups at_ padded.1 pooled.1,
          )
          refl

    -- For a tokenizer that pads the encodings of the texts, of which there are some, to one positive
    -- length, a session that takes the attention mask and treats its rows one by one, a model whose
    -- memory is not zero, and whatever memory is available: the embeddings are the pooled vectors of
    -- the encodings, one for each text and in the order of the texts.
    pub process_text_bert-rows :
        (add_overhead : ℕ → ℕ) (available : ℕ) (encode : List String → Result E (List Encoding))
        (texts before after : List String) (encodings : List Encoding)
        → enc.inputs ≡ before ++ "attention_mask" ∷ after
        → enc.encode_batch ≡ some encode
        → encode texts ≡ ok encodings
        → length texts ≡ length encodings
        → 0 < length encodings
        → 0 < token_cnt
        → 0 < get_required_memory add_overhead enc.params token_cnt
        → All (IsPadded token_cnt) encodings
        → All IsPooled encodings
        → (r : EmbeddingResult (List F)) × (process_text_bert ops enc add_overhead
              (ok available)
              texts
            ≡ ok r)
          × (r.embeddings ≡ map vector encodings)
    unfolding process_text_bert
    process_text_bert-rows add_overhead available encode texts before after encodings named
          tokenized encoded same more pos needed padded pooled =
        let c = push_each encodings enc.inputs no_inputs in
        let v : IsCollected encodings (fields_of enc.inputs) c =
          push_each-IsCollected encodings enc.inputs [] no_inputs
            (record { collected = refl; indexed = λ i h. absurd_none i h }) in
        let found : (i : ℕ) × (c.attention_mask_idx ≡ some i) =
          rw named (push_each_found encodings before after no_inputs) in
        let at_ = v.indexed found.0 found.1 in
        let rows = rows_per_run add_overhead enc.params available token_cnt (length encodings) in
        let groups = chunks rows encodings in
        (
          record {
            processed_tokens = c.processed_tokens;
            embeddings = concat (map (map vector) groups);
          },
          rw
              (
                tokenized,
                encoded,
                found.1,
                same,
                v.collected,
                session_groups {E = E} add_overhead available enc.params token_cnt
                    (fields_of enc.inputs) encodings pos needed
                    (fields-IsWide token_cnt enc.inputs encodings padded)
                    (some_field (fields_of enc.inputs) found.0 mask_of at_) more,
                embed_chunks-groups found.0 groups at_
                    (All-chunk_loop (IsPadded token_cnt) (length encodings) rows encodings padded)
                    (All-chunk_loop IsPooled (length encodings) rows encodings pooled),
              )
              refl,
          concat-map-map vector groups
              ∙ ap (map vector)
                  (concat-chunk_loop (length encodings) rows encodings (omega arith) (omega arith)),
        )
      where
        absurd_none :
            (i : ℕ) → Option.none ≡ some i → get_elem? {A = Encoding → List ℕ} [] i ≡ some mask_of
        absurd_none i h = cc
