-- ===== src/Dotvecs/Files.antt =====
-- What `parse_vecs` of lantern_extras/src/dotvecs.rs reads of a file of vectors.
use lanterndb.Prelude.{
  ℕ, zero, suc, ◌+◌, ◌*◌, ◌^◌, ◌<◌, ◌≡◌, refl, ap, ◌∙◌, false, List, [], ◌∷◌, ◌++◌, map, arith,
  ==_iff, not, length, take, concat, All, length-append, take-append, append_assoc, drop-append, ok,
  chunk_loop-concat,
}
use lanterndb.Bytes.{to_le_bytes, length-to_le_bytes, from_le_bytes-to_le_bytes}
use lanterndb.Dotvecs.{pos, read_numbers, parse_chunk, parse_chunks, parse_vecs}

-- The numbers in four bytes each, and a vector after its dimension.
abbrev pub encode_numbers : List ℕ → List ℕ
encode_numbers v = concat (map (to_le_bytes 4) v)

abbrev pub encode_vec : List ℕ → List ℕ
encode_vec v = to_le_bytes 4 (length v) ++ encode_numbers v

abbrev pub encode_vecs : List (List ℕ) → List ℕ
encode_vecs vectors = concat (map encode_vec vectors)

abbrev pub IsWord : ℕ → Type 0
IsWord n = n < 256 ^ 4

-- A vector of this dimension, of 32-bit elements.
abbrev pub IsVec : ℕ → List ℕ → Type 0
IsVec dim v = (length v ≡ dim) × All IsWord v

length-encode_numbers : (v : List ℕ) → length (encode_numbers v) ≡ 4 * length v
length-encode_numbers [] = refl
length-encode_numbers (n ∷ v) = omega (
  arith,
  length-append (to_le_bytes 4 n) (encode_numbers v),
  length-to_le_bytes 4 n,
  length-encode_numbers v,
)

words-length : (v : List ℕ) → All (λ (part : List ℕ). length part ≡ 4) (map (to_le_bytes 4) v)
words-length [] = tt
words-length (n ∷ v) = (length-to_le_bytes 4 n, words-length v)

read_numbers_back : (v : List ℕ) → All IsWord v → read_numbers 4 (map (to_le_bytes 4) v) ≡ ok v
read_numbers_back [] h = refl
read_numbers_back (n ∷ v) h =
    rw (length-to_le_bytes 4 n, from_le_bytes-to_le_bytes 4 n h.0, read_numbers_back v h.1) refl

-- The chunk of a vector is read without its first element.
parse_chunk-encode_vec :
    (dim n : ℕ) (v : List ℕ)
    → IsWord (length (n ∷ v))
    → IsVec dim (n ∷ v)
    → parse_chunk 4 dim (encode_vec (n ∷ v)) ≡ ok (false, v)
unfolding parse_chunk
parse_chunk-encode_vec dim n v small h =
    rw
      (
        take-append 4 (to_le_bytes 4 (length (n ∷ v))) (encode_numbers (n ∷ v))
            (length-to_le_bytes 4 (length (n ∷ v))),
        drop-append 4 (to_le_bytes 4 (length (n ∷ v))) (encode_numbers (n ∷ v))
            (length-to_le_bytes 4 (length (n ∷ v))),
        drop-append 4 (to_le_bytes 4 n) (encode_numbers v) (length-to_le_bytes 4 n),
        length-to_le_bytes 4 (length (n ∷ v)),
        from_le_bytes-to_le_bytes 4 (length (n ∷ v)) small,
        chunk_loop-concat (length (encode_numbers v)) 4 (map (to_le_bytes 4) v) (omega arith)
            (words-length v) (omega arith),
        read_numbers_back v h.1.1,
      )
      (ap (λ b. ok (not b, v)) ((==_iff (length (n ∷ v)) dim).1 h.0))

-- A vector without its first element.
abbrev pub without_first : List ℕ → List ℕ
without_first [] = []
without_first (n ∷ v) = v

parse_chunks_back :
    (dim : ℕ) (vectors : List (List ℕ))
    → 0 < dim
    → IsWord dim
    → All (IsVec dim) vectors
    → parse_chunks 4 dim (map encode_vec vectors) ≡ ok (false, map without_first vectors)
unfolding parse_chunks
parse_chunks_back dim [] some_ small h = refl
parse_chunks_back dim ([] ∷ vectors) some_ small h = absurd (omega (arith, h.0.0))
parse_chunks_back dim ((n ∷ v) ∷ vectors) some_ small h =
    rw
      (
        parse_chunk-encode_vec dim n v (omega (arith, h.0.0, small)) h.0,
        parse_chunks_back dim vectors some_ small h.1,
      )
      refl

take-map :
    (n : ℕ) (vectors : List (List ℕ))
    → take n (map encode_vec vectors) ≡ map encode_vec (take n vectors)
take-map zero vectors = refl
take-map (suc n) [] = refl
take-map (suc n) (v ∷ vectors) = ap (λ t. encode_vec v ∷ t) (take-map n vectors)

take-All :
    (dim n : ℕ) (vectors : List (List ℕ))
    → All (IsVec dim) vectors
    → All (IsVec dim) (take n vectors)
take-All dim zero vectors h = tt
take-All dim (suc n) [] h = tt
take-All dim (suc n) (v ∷ vectors) h = (h.0, take-All dim n vectors h.1)

length-encode_vec : (dim : ℕ) (v : List ℕ) → IsVec dim v → length (encode_vec v) ≡ (dim + 1) * 4
length-encode_vec dim v h = omega (
  arith,
  length-append (to_le_bytes 4 (length v)) (encode_numbers v),
  length-to_le_bytes 4 (length v),
  length-encode_numbers v,
  h.0,
)

vecs-length :
    (dim : ℕ) (vectors : List (List ℕ))
    → All (IsVec dim) vectors
    → All (λ (part : List ℕ). length part ≡ (dim + 1) * 4) (map encode_vec vectors)
vecs-length dim [] h = tt
vecs-length dim (v ∷ vectors) h = (length-encode_vec dim v h.0, vecs-length dim vectors h.1)

-- A file of at least one vector, all of the same positive dimension below 2^32 and of elements of
-- four bytes: of the vectors that the count asks for, each is read without its first element.
pub parse_vecs-encode_vecs :
    (dim count : ℕ) (v : List ℕ) (vectors : List (List ℕ))
    → 0 < dim
    → IsWord dim
    → All (IsVec dim) (v ∷ vectors)
    → parse_vecs 4 (encode_vecs (v ∷ vectors)) (pos count)
      ≡ ok (map without_first (take count (v ∷ vectors)))
unfolding parse_vecs
parse_vecs-encode_vecs dim count v vectors some_ small h =
    let file = encode_vecs (v ∷ vectors) in
    let head : take 4 file ≡ to_le_bytes 4 dim =
      ap (take 4) (append_assoc (to_le_bytes 4 (length v)) (encode_numbers v) (encode_vecs vectors))
      ∙ take-append 4 (to_le_bytes 4 (length v)) (encode_numbers v ++ encode_vecs vectors)
          (length-to_le_bytes 4 (length v))
      ∙ ap (to_le_bytes 4) h.0.0 in
    rw
      (
        head,
        length-to_le_bytes 4 dim,
        from_le_bytes-to_le_bytes 4 dim small,
        chunk_loop-concat (length file) ((dim + 1) * 4) (map encode_vec (v ∷ vectors)) (omega arith)
            (vecs-length dim (v ∷ vectors) h) (omega arith),
        take-map count (v ∷ vectors),
        parse_chunks_back dim (take count (v ∷ vectors)) some_ small
            (take-All dim count (v ∷ vectors) h),
      )
      refl
