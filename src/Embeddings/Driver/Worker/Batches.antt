-- ===== src/Embeddings/Driver/Worker/Batches.antt =====
-- The batches that `producer_worker` sends and the records that `embedding_worker` makes of them,
-- lantern_cli/src/embeddings/mod.rs.
use mathlib.Core.List.{reverse}
use mathlib.Mathlib.Data.List.Basic.{map-reverse_aux}
use lanterndb.Prelude.{
  chunk_loop, ℕ, zero, suc, ◌%◌, ◌≤◌, ◌<◌, ◌≡◌, inl, inr, refl, sym, ap, ◌∙◌, Bool, true, false,
  Option, none, some, List, [], ◌∷◌, ◌++◌, map, arith, append_assoc, append-nil, if◌then◌else◌,
  length, take, drop, length-drop, Result, ok, Bool-cases, ◌==◌, leb, ◌||◌,
}
use lanterndb.Embeddings.Driver.Records.{EmbeddingRecord}
use lanterndb.Embeddings.Driver.Worker.{
  Row, producer_worker, is_blank, push_row, inputs_of, pop_pairs,
}

-- A portal over the rows that are left, which gives all of them for a size that is not positive.
abbrev pub query_rows : List Row → ℕ → Result ⊥ (List Row) × List Row
query_rows rows size =
    if size == 0 || leb 2147483648 size
    then (ok rows, [])
    else (ok (take size rows), drop size rows)

-- A channel that stays open, with all that was sent, the earliest first.
abbrev pub send_open : {A : Type 0} → List A → A → Bool × List A
send_open sent msg = (true, sent ++ msg ∷ [])

small_mod : (size : ℕ) → size < 2147483648 → size % 4294967296 ≡ size
small_mod size h = omega arith

positive_test :
    (size : ℕ) → 0 < size → size < 2147483648 → (size == 0 || leb 2147483648 size) ≡ false
positive_test size pos small = ground arith

query_rows_part :
    (rows : List Row) (size : ℕ)
    → 0 < size
    → size < 2147483648
    → query_rows rows (size % 4294967296) ≡ (ok (take size rows), drop size rows)
query_rows_part rows size pos small = rw (small_mod size small, positive_test size pos small) refl

no_chunks : (steps size : ℕ) → chunk_loop {A = Row} steps size [] ≡ []
no_chunks zero size = refl
no_chunks (suc steps) size = refl

take_none : (size : ℕ) → take {A = Row} size [] ≡ []
take_none zero = refl
take_none (suc size) = refl

pub producer_worker-chunk_loop :
    (fuel steps size : ℕ) (rows : List Row) (tx : List (List Row))
    → 0 < size
    → size < 2147483648
    → length rows < fuel
    → length rows ≤ steps
    → producer_worker query_rows send_open fuel size rows tx
      ≡ some (ok tt, tx ++ chunk_loop steps size rows)
unfolding producer_worker
producer_worker-chunk_loop zero steps size rows tx pos small enough more = absurd (omega arith)
producer_worker-chunk_loop (suc fuel) steps size [] tx pos small enough more =
    rw (query_rows_part [] size pos small, take_none size, no_chunks steps size, append-nil tx) refl
producer_worker-chunk_loop (suc fuel) zero size (row ∷ rows) tx pos small enough more =
    absurd (omega arith)
producer_worker-chunk_loop (suc fuel) (suc steps) (suc size) (row ∷ rows) tx pos small enough more =
    rw (query_rows_part (row ∷ rows) (suc size) pos small) (
      producer_worker-chunk_loop fuel steps (suc size) (drop size rows)
        (tx ++ (row ∷ take size rows) ∷ []) pos small (omega (arith, length-drop size rows))
        (omega (arith, length-drop size rows))
      ∙ ap some (
          ap (λ t. (ok tt, t))
            (append_assoc tx ((row ∷ take size rows) ∷ [])
              (chunk_loop steps (suc size) (drop size rows)))))
producer_worker-chunk_loop (suc fuel) (suc steps) zero (row ∷ rows) tx pos small enough more =
    absurd (omega arith)

-- The keys and texts that are embedded.
abbrev pub keep :
    (ℕ → Bool) → List ℕ → Option (List ℕ) → List (List ℕ × List ℕ) → List (List ℕ × List ℕ)
keep is_whitespace pk none rest = rest
keep is_whitespace pk (some text) rest =
    if is_blank is_whitespace text then rest else (pk, text) ∷ rest

-- The rows that have a text with more than spaces, in their order.
unfoldable pub kept : (ℕ → Bool) → List Row → List (List ℕ × List ℕ)
kept is_whitespace [] = []
kept is_whitespace (row ∷ rows) = keep is_whitespace row.pk row.src_data (kept is_whitespace rows)

-- The texts of the pairs, and their keys.
abbrev pub columns : List (List ℕ × List ℕ) → List (List ℕ) × List (List ℕ)
columns pairs = (map (λ p. p.1) pairs, map (λ p. p.0) pairs)

push_row-keep :
    (is_whitespace : ℕ → Bool) (pk : List ℕ) (src_data : Option (List ℕ))
    (acc : List (List ℕ) × List (List ℕ)) (pairs : List (List ℕ × List ℕ))
    → acc ≡ columns pairs
    → push_row is_whitespace pk src_data acc ≡ columns (keep is_whitespace pk src_data pairs)
push_row-keep is_whitespace pk none acc pairs h = h
push_row-keep is_whitespace pk (some text) acc pairs h =
    elim (Bool-cases (is_blank is_whitespace text)) [
      | inl e ↦ rw (e, h) refl
      | inr e ↦ rw (e, h) refl
    ]

pub inputs_of-kept :
    (is_whitespace : ℕ → Bool) (rows : List Row)
    → inputs_of is_whitespace rows ≡ columns (kept is_whitespace rows)
unfolding inputs_of kept
inputs_of-kept is_whitespace [] = refl
inputs_of-kept is_whitespace (row ∷ rows) =
    push_row-keep is_whitespace row.pk row.src_data (inputs_of is_whitespace rows)
      (kept is_whitespace rows) (inputs_of-kept is_whitespace rows)

module _ {V : Type 0} (make : List ℕ → V → EmbeddingRecord) (f : List ℕ → V) where
  -- The record of a key and a text.
  abbrev pub record_of : List ℕ × List ℕ → EmbeddingRecord
  record_of (pk, text) = make pk (f text)

  pop_pairs-map :
      (pairs : List (List ℕ × List ℕ))
      → pop_pairs make (map (λ p. p.0) pairs) (map f (map (λ p. p.1) pairs))
        ≡ some (map record_of pairs)
  unfolding pop_pairs
  pop_pairs-map [] = refl
  pop_pairs-map ((pk, text) ∷ pairs) = rw (pop_pairs-map pairs) refl

  pub pop_pairs-reverse :
      (pairs : List (List ℕ × List ℕ))
      → pop_pairs make (reverse (map (λ p. p.0) pairs)) (reverse (map f (map (λ p. p.1) pairs)))
        ≡ some (reverse (map record_of pairs))
  pop_pairs-reverse pairs =
      rw
        (
          sym (map-reverse_aux (λ (p : List ℕ × List ℕ). p.0) pairs []),
          sym (map-reverse_aux f (map (λ (p : List ℕ × List ℕ). p.1) pairs) []),
          sym (map-reverse_aux (λ (p : List ℕ × List ℕ). p.1) pairs []),
          sym (map-reverse_aux record_of pairs []),
        )
        (pop_pairs-map (reverse pairs))

keep-append :
    (is_whitespace : ℕ → Bool) (pk : List ℕ) (src_data : Option (List ℕ))
    (xs ys : List (List ℕ × List ℕ))
    → keep is_whitespace pk src_data (xs ++ ys) ≡ keep is_whitespace pk src_data xs ++ ys
keep-append is_whitespace pk none xs ys = refl
keep-append is_whitespace pk (some text) xs ys = elim (Bool-cases (is_blank is_whitespace text)) [
  | inl e ↦ rw e refl
  | inr e ↦ rw e refl
]

pub kept-append :
    (is_whitespace : ℕ → Bool) (xs ys : List Row)
    → kept is_whitespace (xs ++ ys) ≡ kept is_whitespace xs ++ kept is_whitespace ys
unfolding kept
kept-append is_whitespace [] ys = refl
kept-append is_whitespace (row ∷ xs) ys =
    ap (keep is_whitespace row.pk row.src_data) (kept-append is_whitespace xs ys)
    ∙ keep-append is_whitespace row.pk row.src_data (kept is_whitespace xs) (kept is_whitespace ys)
