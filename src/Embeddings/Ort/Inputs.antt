-- ===== src/Embeddings/Ort/Inputs.antt =====
-- The loop of `process_text_bert` in lantern_cli/src/embeddings/core/ort_runtime.rs that collects the
-- inputs of the session and the index of the attention mask.
use mathlib.Core.Path.{subst}
use Prim.Native.String.{String}
use text.Mathlib.Text.{◌==◌}
use lanterndb.Prelude.{
  ℕ, zero, suc, ◌≡◌, refl, ap, sym, ◌∙◌, inl, inr, Bool-cases, some, List, [], ◌∷◌, ◌++◌, map,
  arith, append_assoc, append-nil, if◌then◌else◌, length, length-map, get_elem?,
}
use lanterndb.Embeddings.Ort.Text.{Encoding, Collected, concat_field, push_input, push_each}

-- The parts of an encoding that the session takes, in its order.
abbrev pub field_of : String → List (Encoding → List ℕ)
field_of name =
    if name == "input_ids"
    then (λ e. e.ids) ∷ []
    else if name == "attention_mask"
    then (λ e. e.attention_mask) ∷ []
    else if name == "token_type_ids"
    then (λ e. e.type_ids) ∷ []
    else []

abbrev pub fields_of : List String → List (Encoding → List ℕ)
fields_of [] = []
fields_of (name ∷ names) = field_of name ++ fields_of names

abbrev pub mask_of : Encoding → List ℕ
mask_of e = e.attention_mask

-- The inputs that were collected are those of these parts, and the index is that of the mask.
pub record IsCollected (preprocessed : List Encoding) (fields : List (Encoding → List ℕ))
    (c : Collected) : Type 0 where
  pub collected : c.vecs ≡ map (λ f. concat_field f preprocessed) fields
  pub indexed : (i : ℕ) → c.attention_mask_idx ≡ some i → get_elem? fields i ≡ some mask_of

module _ {A : Type 0} where
  get_elem?-append :
      (xs ys : List A) (i : ℕ) (a : A) → get_elem? xs i ≡ some a → get_elem? (xs ++ ys) i ≡ some a
  get_elem?-append [] ys i a h = cc
  get_elem?-append (x ∷ xs) ys zero a h = h
  get_elem?-append (x ∷ xs) ys (suc i) a h = get_elem?-append xs ys i a h

  get_elem?-length : (xs : List A) (a : A) → get_elem? (xs ++ a ∷ []) (length xs) ≡ some a
  get_elem?-length [] a = refl
  get_elem?-length (x ∷ xs) a = get_elem?-length xs a

module _ {A B : Type 0} (f : A → B) where
  pub map-append : (xs ys : List A) → map f (xs ++ ys) ≡ map f xs ++ map f ys
  map-append [] ys = refl
  map-append (x ∷ xs) ys = ap (λ t. f x ∷ t) (map-append xs ys)

  pub get_elem?-map :
      (xs : List A) (i : ℕ) (a : A) → get_elem? xs i ≡ some a → get_elem? (map f xs) i ≡ some (f a)
  get_elem?-map [] i a h = cc
  get_elem?-map (x ∷ xs) zero a h = ground arith
  get_elem?-map (x ∷ xs) (suc i) a h = get_elem?-map xs i a h

module _ (preprocessed : List Encoding) where
  -- One more input, whose index is that of the mask only if it is the mask.
  joined-IsCollected :
      (fields : List (Encoding → List ℕ)) (f : Encoding → List ℕ) (c c' : Collected)
      → IsCollected preprocessed fields c
      → c'.vecs ≡ c.vecs ++ concat_field f preprocessed ∷ []
      → ((i : ℕ) → c'.attention_mask_idx ≡ some i → get_elem? (fields ++ f ∷ []) i ≡ some mask_of)
      → IsCollected preprocessed (fields ++ f ∷ []) c'
  joined-IsCollected fields f c c' v e indexed = record {
    collected =
        e
        ∙ (ap (λ t. t ++ concat_field f preprocessed ∷ []) v.collected
            ∙ sym (map-append (λ f. concat_field f preprocessed) fields (f ∷ [])));
    indexed = indexed;
  }

  at_end :
      (fields : List (Encoding → List ℕ)) (c : Collected)
      → IsCollected preprocessed fields c
      → length c.vecs ≡ length fields
  at_end fields c v = ap length v.collected ∙ length-map (λ f. concat_field f preprocessed) fields

  push_input-IsCollected :
      (name : String) (fields : List (Encoding → List ℕ)) (c : Collected)
      → IsCollected preprocessed fields c
      → IsCollected preprocessed (fields ++ field_of name) (push_input preprocessed name c)
  unfolding push_input
  push_input-IsCollected name fields c v = elim (Bool-cases (name == "input_ids")) [
    | inl e ↦ rw e (
        joined-IsCollected fields (λ e. e.ids) c _ v refl
          (λ i h. get_elem?-append fields _ i mask_of (v.indexed i h)))
    | inr e ↦ rw e (elim (Bool-cases (name == "attention_mask")) [
      | inl e' ↦ rw e' (
          joined-IsCollected fields mask_of c _ v refl (λ i h.
            subst (λ t. get_elem? (fields ++ mask_of ∷ []) t ≡ some mask_of)
              (sym (at_end fields c v) ∙ some_inj (length c.vecs) i h)
              (get_elem?-length fields mask_of)))
      | inr e' ↦ rw e' (elim (Bool-cases (name == "token_type_ids")) [
        | inl e'' ↦ rw e'' (
            joined-IsCollected fields (λ e. e.type_ids) c _ v refl
              (λ i h. get_elem?-append fields _ i mask_of (v.indexed i h)))
        | inr e'' ↦ rw e'' (subst (λ t. IsCollected preprocessed t c) (sym (append-nil fields)) v)
      ])
    ])
  ]
    where
      some_inj : (a b : ℕ) → some a ≡ some b → a ≡ b
      some_inj a b h = ground arith

  pub push_each-IsCollected :
      (names : List String) (fields : List (Encoding → List ℕ)) (c : Collected)
      → IsCollected preprocessed fields c
      → IsCollected preprocessed (fields ++ fields_of names) (push_each preprocessed names c)
  unfolding push_each
  push_each-IsCollected [] fields c v =
      subst (λ t. IsCollected preprocessed t c) (sym (append-nil fields)) v
  push_each-IsCollected (name ∷ names) fields c v =
      subst
        (λ t.
          IsCollected preprocessed t
            (push_each preprocessed names (push_input preprocessed name c)))
        (append_assoc fields (field_of name) (fields_of names))
        (push_each-IsCollected names (fields ++ field_of name) (push_input preprocessed name c)
          (push_input-IsCollected name fields c v))

  abbrev pub HasMask : Collected → Type 0
  HasMask c = (i : ℕ) × (c.attention_mask_idx ≡ some i)

  push_input-HasMask :
      (name : String) (c : Collected) → HasMask c → HasMask (push_input preprocessed name c)
  unfolding push_input
  push_input-HasMask name c (i, h) = elim (Bool-cases (name == "input_ids")) [
    | inl e ↦ rw e (i, h)
    | inr e ↦ rw e (elim (Bool-cases (name == "attention_mask")) [
      | inl e' ↦ rw e' (length c.vecs, refl)
      | inr e' ↦ rw e' (elim (Bool-cases (name == "token_type_ids")) [
        | inl e'' ↦ rw e'' (i, h)
        | inr e'' ↦ rw e'' (i, h)
      ])
    ])
  ]

  push_each-HasMask :
      (names : List String) (c : Collected) → HasMask c → HasMask (push_each preprocessed names c)
  unfolding push_each
  push_each-HasMask [] c h = h
  push_each-HasMask (name ∷ names) c h =
      push_each-HasMask names (push_input preprocessed name c) (push_input-HasMask name c h)

  -- The index is found.
  pub push_each_found :
      (before after : List String) (c : Collected)
      → HasMask (push_each preprocessed (before ++ "attention_mask" ∷ after) c)
  unfolding push_each push_input
  push_each_found [] after c =
      push_each-HasMask after (push_input preprocessed "attention_mask" c) (length c.vecs, refl)
  push_each_found (name ∷ before) after c =
      push_each_found before after (push_input preprocessed name c)
