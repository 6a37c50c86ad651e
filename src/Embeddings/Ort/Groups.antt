-- ===== src/Embeddings/Ort/Groups.antt =====
-- What `chunk_session_input` of lantern_cli/src/embeddings/core/ort_runtime.rs makes of encodings
-- that are padded to one length.
use native.Mathlib.Nat.{mul-div_cancel, mul-div_cancel_left}
use lanterndb.Prelude.{
  ℕ, zero, suc, ◌*◌, ◌/◌, ◌<◌, ◌≡◌, refl, ap, sym, ◌∙◌, false, List, [], ◌∷◌, ◌++◌, map, min, max,
  arith, append-nil, append_assoc, ◌==◌, ==_refl, length, length-append, take-append, drop-append,
  All, chunks, chunk_loop-flat, length-flat, flat, All-chunk_loop, ok,
}
use lanterndb.Embeddings.Ort.{
  ModelParams, get_required_memory, rows_of, Tensor, from_shape_vec, push_tensor, divide,
  push_chunks, push_inputs, cut_inputs, chunk_session_input,
}

module _ {A E : Type 0} where
  push_tensor-new :
      (done : List (List A)) (t : A)
      → push_tensor {E = E} (length done) t done ≡ ok (done ++ (t ∷ []) ∷ [])
  unfolding push_tensor
  push_tensor-new [] t = refl
  push_tensor-new (group ∷ done) t = rw (push_tensor-new done t) refl

  push_tensor-old :
      (done : List (List A)) (group : List A) (rest : List (List A)) (t : A)
      → push_tensor {E = E} (length done) t (done ++ group ∷ rest)
        ≡ ok (done ++ (group ++ t ∷ []) ∷ rest)
  unfolding push_tensor
  push_tensor-old [] group rest t = refl
  push_tensor-old (g ∷ done) group rest t = rw (push_tensor-old done group rest t) refl

-- The encodings of a batch, all of this width in each of the inputs of the session.
module _ {A : Type 0} (token_cnt : ℕ) where
  abbrev pub IsWide : (A → List ℕ) → A → Type 0
  IsWide f a = length (f a) ≡ token_cnt

  rows_of-flat :
      (f : A → List ℕ) (group : List A)
      → All (IsWide f) group
      → rows_of (length group) token_cnt (flat f token_cnt group) ≡ map f group
  unfolding rows_of
  rows_of-flat f [] h = refl
  rows_of-flat f (a ∷ group) h =
      rw
        (
          take-append token_cnt (f a) (flat f token_cnt group) h.0,
          drop-append token_cnt (f a) (flat f token_cnt group) h.0,
        )
        (ap (λ t. f a ∷ t) (rows_of-flat f group h.1))

-- The tensors of one group, one for each input.
abbrev pub tensors_of : {A : Type 0} → List (A → List ℕ) → List A → List Tensor
tensors_of fields group = map (λ f. map f group) fields

tensors_of-append :
    {A : Type 0} (fields : List (A → List ℕ)) (f : A → List ℕ) (group : List A)
    → tensors_of fields group ++ map f group ∷ [] ≡ tensors_of (fields ++ f ∷ []) group
tensors_of-append [] f group = refl
tensors_of-append (g ∷ fields) f group =
    ap (λ (t : List Tensor). map g group ∷ t) (tensors_of-append fields f group)

divide_lem : {E : Type 0} (a b : ℕ) → 0 < b → divide {E = E} (a * b) b ≡ ok a
divide_lem a zero h = absurd (omega arith)
divide_lem a (suc b) h = ap ok (mul-div_cancel a (omega arith))

module _ {A : Type 0} (token_cnt : ℕ) (pos : 0 < token_cnt) (rows : ℕ) (some_ : 0 < rows)
    (encodings : List A) where
  chunks-input_of :
      (f : A → List ℕ)
      → All (IsWide token_cnt f) encodings
      → chunks (rows * token_cnt) (flat f token_cnt encodings)
        ≡ map (flat f token_cnt) (chunks rows encodings)
  chunks-input_of f h =
      chunk_loop-flat f token_cnt (length (flat f token_cnt encodings)) (length encodings) rows
        encodings pos some_ h (omega arith) (omega arith)

some_tokens : (rows token_cnt : ℕ) → 0 < rows → 0 < token_cnt → (rows * token_cnt == 0) ≡ false
some_tokens rows token_cnt h k = grind arith

divided : {E : Type 0} (a b : ℕ) → 0 < b → divide {E = E} a b ≡ ok (a / b)
divided a zero h = absurd (omega arith)
divided a (suc b) h = refl

module _ {E A : Type 0} (token_cnt : ℕ) (pos : 0 < token_cnt) where
  from_shape_vec-flat :
      (f : A → List ℕ) (group : List A)
      → All (IsWide token_cnt f) group
      → from_shape_vec {E = E} (length group) token_cnt (flat f token_cnt group) ≡ ok (map f group)
  unfolding from_shape_vec
  from_shape_vec-flat f group h =
      rw
        (
          length-flat f token_cnt group h,
          ==_refl (length group * token_cnt),
          rows_of-flat token_cnt f group h,
        )
        refl

  divide-flat :
      (f : A → List ℕ) (group : List A)
      → All (IsWide token_cnt f) group
      → divide {E = E} (length (flat f token_cnt group)) token_cnt ≡ ok (length group)
  divide-flat f group h =
      rw (length-flat f token_cnt group h) (divide_lem (length group) token_cnt pos)

  -- The first input makes the groups.
  push_chunks-new :
      (f : A → List ℕ) (index : ℕ) (done : List (List Tensor)) (groups : List (List A))
      → index ≡ length done
      → All (All (IsWide token_cnt f)) groups
      → push_chunks {E = E} token_cnt index (map (flat f token_cnt) groups) done
        ≡ ok (done ++ map (tensors_of (f ∷ [])) groups)
  unfolding push_chunks
  push_chunks-new f index done [] e h = rw append-nil refl
  push_chunks-new f index done (group ∷ groups) e h =
      rw
        (
          divide-flat f group h.0,
          from_shape_vec-flat f group h.0,
          e,
          push_tensor-new {E = E} done (map f group),
        )
        (push_chunks-new f (suc (length done)) (done ++ tensors_of (f ∷ []) group ∷ []) groups
            (omega (arith, length-append done (tensors_of (f ∷ []) group ∷ []))) h.1
          ∙ ap ok (
              append_assoc done (tensors_of (f ∷ []) group ∷ [])
                (map (tensors_of (f ∷ [])) groups)))

  -- A later input joins them.
  push_chunks-old :
      (fields : List (A → List ℕ)) (f : A → List ℕ) (index : ℕ) (done : List (List Tensor))
      (groups : List (List A))
      → index ≡ length done
      → All (All (IsWide token_cnt f)) groups
      → push_chunks {E = E} token_cnt index
          (map (flat f token_cnt) groups)
          (done ++ map (tensors_of fields) groups)
        ≡ ok (done ++ map (tensors_of (fields ++ f ∷ [])) groups)
  unfolding push_chunks
  push_chunks-old fields f index done [] e h = refl
  push_chunks-old fields f index done (group ∷ groups) e h =
      let joined : List Tensor = tensors_of fields group ++ map f group ∷ [] in
      rw
        (
          divide-flat f group h.0,
          from_shape_vec-flat f group h.0,
          e,
          push_tensor-old {E = E} done (tensors_of fields group) (map (tensors_of fields) groups)
              (map f group),
          sym (append_assoc done (joined ∷ []) (map (tensors_of fields) groups)),
        )
        (push_chunks-old fields f (suc (length done)) (done ++ joined ∷ []) groups
            (omega (arith, length-append done (joined ∷ []))) h.1
          ∙ ap ok (
              append_assoc done (joined ∷ []) (map (tensors_of (fields ++ f ∷ [])) groups)
              ∙ ap (λ (t : List Tensor). done ++ t ∷ map (tensors_of (fields ++ f ∷ [])) groups)
                  (tensors_of-append fields f group)))

  module _ (rows : ℕ) (some_ : 0 < rows) (encodings : List A) where
    push_inputs-old :
        (fields more : List (A → List ℕ))
        → All (λ f. All (IsWide token_cnt f) encodings) more
        → push_inputs {E = E} token_cnt
            (rows * token_cnt)
            (map (λ f. flat f token_cnt encodings) more)
            (map (tensors_of fields) (chunks rows encodings))
          ≡ ok (map (tensors_of (fields ++ more)) (chunks rows encodings))
    unfolding push_inputs
    push_inputs-old fields [] h = rw append-nil refl
    push_inputs-old fields (f ∷ more) h =
        rw
          (
            some_tokens rows token_cnt some_ pos,
            chunks-input_of token_cnt pos rows some_ encodings f h.0,
            push_chunks-old fields f 0 [] (chunks rows encodings) refl
                (All-chunk_loop (IsWide token_cnt f) (length encodings) rows encodings h.0),
          )
          (push_inputs-old (fields ++ f ∷ []) more h.1
            ∙ ap (λ (t : List (A → List ℕ)). ok (map (tensors_of t) (chunks rows encodings)))
                (append_assoc fields (f ∷ []) more))

    push_inputs-new :
        (f : A → List ℕ) (more : List (A → List ℕ))
        → All (λ f. All (IsWide token_cnt f) encodings) (f ∷ more)
        → push_inputs {E = E} token_cnt
            (rows * token_cnt)
            (map (λ g. flat g token_cnt encodings) (f ∷ more))
            []
          ≡ ok (map (tensors_of (f ∷ more)) (chunks rows encodings))
    unfolding push_inputs
    push_inputs-new f more h =
        rw
          (
            some_tokens rows token_cnt some_ pos,
            chunks-input_of token_cnt pos rows some_ encodings f h.0,
            push_chunks-new f 0 [] (chunks rows encodings) refl
                (All-chunk_loop (IsWide token_cnt f) (length encodings) rows encodings h.0),
          )
          (push_inputs-old (f ∷ []) more h.1)

-- The rows of one run: as many as fit, at least one, at most all.
abbrev pub rows_per_run : (ℕ → ℕ) → ModelParams → ℕ → ℕ → ℕ → ℕ
rows_per_run add_overhead params available token_cnt batch_size =
    min batch_size (max 1 (available / get_required_memory add_overhead params token_cnt))

-- For a session with some input, and encodings of one positive length: the groups are the parts of
-- the encodings of this many rows, with one tensor for each input.
pub chunk_session_input_groups :
    {E A : Type 0} (add_overhead : ℕ → ℕ) (available : ℕ) (params : ModelParams) (token_cnt : ℕ)
    (field : A → List ℕ) (fields : List (A → List ℕ)) (encoding : A) (encodings : List A)
    → 0 < token_cnt
    → 0 < get_required_memory add_overhead params token_cnt
    → All (λ f. All (IsWide token_cnt f) (encoding ∷ encodings)) (field ∷ fields)
    → chunk_session_input {E = E} add_overhead
        (ok available)
        params
        (map (λ f. flat f token_cnt (encoding ∷ encodings)) (field ∷ fields))
        (length (encoding ∷ encodings))
      ≡ ok (
          map (tensors_of (field ∷ fields)) (
            chunks
              (rows_per_run add_overhead params available token_cnt (length (encoding ∷ encodings)))
              (encoding ∷ encodings)))
unfolding chunk_session_input cut_inputs
chunk_session_input_groups {E} {A} add_overhead available params token_cnt field fields encoding
      encodings pos needed h =
    let all : List A = encoding ∷ encodings in
    let wide : length (flat field token_cnt all) ≡ length all * token_cnt =
      length-flat field token_cnt all h.0 in
    let each : length (flat field token_cnt all) / length all ≡ token_cnt =
      ap (λ t. t / length all) wide ∙ mul-div_cancel_left token_cnt (omega arith) in
    ap
      (cut_inputs {E = E} add_overhead (ok available) params
        (map (λ f. flat f token_cnt all) (field ∷ fields)) (length all))
      each
    ∙ rw (divided {E = E} available (get_required_memory add_overhead params token_cnt) needed) (
        push_inputs-new token_cnt pos
          (rows_per_run add_overhead params available token_cnt (length all)) (omega arith) all
          field fields h)
