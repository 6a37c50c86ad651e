-- ===== src/Prelude/Chunks.antt =====
-- `slice::chunks`, and what is known of its parts.
use Prim.Native.Nat.{ℕ, zero, suc, ◌+◌, ◌*◌, ◌≤◌, ◌<◌}
use mathlib.Core.Path.{◌≡◌, refl, ap, ◌∙◌}
use mathlib.Core.List.{List, [], ◌∷◌, ◌++◌, map}
use native.Mathlib.Omega.{arith}
use lanterndb.Prelude.Lists.{
  length, take, drop, concat, All, take-append-drop, length-take, length-drop, length-append,
  take-append, drop-append,
}

-- Parts of `size`, the last one perhaps shorter. The fuel is the length, which is enough for a
-- positive size.
abbrev pub chunk_loop {ℓ} : {A : Type ℓ} → ℕ → ℕ → List A → List (List A)
chunk_loop zero size xs = []
chunk_loop (suc fuel) size [] = []
chunk_loop (suc fuel) size (x ∷ xs) = take size (x ∷ xs) ∷ chunk_loop fuel size (drop size (x ∷ xs))

abbrev pub chunks {ℓ} : {A : Type ℓ} → ℕ → List A → List (List A)
chunks size xs = chunk_loop (length xs) size xs

module _ {ℓ} {A : Type ℓ} where
  pub concat-chunk_loop :
      (fuel size : ℕ) (xs : List A)
      → 0 < size
      → length xs ≤ fuel
      → concat (chunk_loop fuel size xs) ≡ xs
  concat-chunk_loop zero size [] pos enough = refl
  concat-chunk_loop zero size (x ∷ xs) pos enough = absurd (omega arith)
  concat-chunk_loop (suc fuel) size [] pos enough = refl
  concat-chunk_loop (suc fuel) size (x ∷ xs) pos enough =
      ap (λ t. take size (x ∷ xs) ++ t)
        (concat-chunk_loop fuel size (drop size (x ∷ xs)) pos
          (omega (arith, length-drop size (x ∷ xs))))
      ∙ take-append-drop size (x ∷ xs)

  pub chunk_loop_sizes :
      (fuel size : ℕ) (xs : List A)
      → 0 < size
      → All (λ batch. (0 < length batch) × (length batch ≤ size)) (chunk_loop fuel size xs)
  chunk_loop_sizes zero size xs pos = tt
  chunk_loop_sizes (suc fuel) size [] pos = tt
  chunk_loop_sizes (suc fuel) size (x ∷ xs) pos = (
    (omega (arith, length-take size (x ∷ xs)), omega (arith, length-take size (x ∷ xs))),
    chunk_loop_sizes fuel size (drop size (x ∷ xs)) pos,
  )

  -- The parts of a list that is put together from parts of the size.
  pub chunk_loop-concat :
      (fuel size : ℕ) (parts : List (List A))
      → 0 < size
      → All (λ part. length part ≡ size) parts
      → length (concat parts) ≤ fuel
      → chunk_loop fuel size (concat parts) ≡ parts
  chunk_loop-concat zero size [] some_ h enough = refl
  chunk_loop-concat (suc fuel) size [] some_ h enough = refl
  chunk_loop-concat fuel size ([] ∷ parts) some_ h enough = absurd (omega (arith, h.0))
  chunk_loop-concat zero size ((c ∷ part) ∷ parts) some_ h enough = absurd (omega arith)
  chunk_loop-concat (suc fuel) size ((c ∷ part) ∷ parts) some_ h enough =
      rw
        (
          take-append size (c ∷ part) (concat parts) h.0,
          drop-append size (c ∷ part) (concat parts) h.0,
        )
        (ap (λ t. (c ∷ part) ∷ t)
          (chunk_loop-concat fuel size parts some_ h.1
            (omega (arith, length-append part (concat parts)))))

module _ {ℓ κ} {A : Type ℓ} (P : A → Type κ) where
  All-take : (n : ℕ) (xs : List A) → All P xs → All P (take n xs)
  All-take zero xs h = tt
  All-take (suc n) [] h = tt
  All-take (suc n) (x ∷ xs) h = (h.0, All-take n xs h.1)

  All-drop : (n : ℕ) (xs : List A) → All P xs → All P (drop n xs)
  All-drop zero xs h = h
  All-drop (suc n) [] h = h
  All-drop (suc n) (x ∷ xs) h = All-drop n xs h.1

  pub All-chunk_loop :
      (fuel size : ℕ) (xs : List A) → All P xs → All (All P) (chunk_loop fuel size xs)
  All-chunk_loop zero size xs h = tt
  All-chunk_loop (suc fuel) size [] h = tt
  All-chunk_loop (suc fuel) size (x ∷ xs) h = (
    All-take size (x ∷ xs) h,
    All-chunk_loop fuel size (drop size (x ∷ xs)) (All-drop size (x ∷ xs) h),
  )

module _ {ℓ} {A : Type ℓ} where
  take-nil : (n : ℕ) → take {A = A} n [] ≡ []
  take-nil zero = refl
  take-nil (suc n) = refl

  drop-nil : (n : ℕ) → drop {A = A} n [] ≡ []
  drop-nil zero = refl
  drop-nil (suc n) = refl

  take-past :
      (n k m : ℕ) (xs ys : List A) → length xs ≡ m → n ≡ m + k → take n (xs ++ ys) ≡ xs ++ take k ys
  take-past n k m [] ys h e = ap (λ t. take t ys) (omega arith)
  take-past zero k m (x ∷ xs) ys h e = absurd (omega arith)
  take-past (suc n) k m (x ∷ xs) ys h e =
      ap (λ t. x ∷ t) (take-past n k (length xs) xs ys refl (omega arith))

  drop-past :
      (n k m : ℕ) (xs ys : List A) → length xs ≡ m → n ≡ m + k → drop n (xs ++ ys) ≡ drop k ys
  drop-past n k m [] ys h e = ap (λ t. drop t ys) (omega arith)
  drop-past zero k m (x ∷ xs) ys h e = absurd (omega arith)
  drop-past (suc n) k m (x ∷ xs) ys h e = drop-past n k (length xs) xs ys refl (omega arith)

module _ {ℓ κ} {A : Type ℓ} {B : Type κ} (f : A → List B) (width : ℕ) where
  -- Items of the same width, put one after the other.
  abbrev pub flat : List A → List B
  flat xs = concat (map f xs)

  pub length-flat :
      (xs : List A) → All (λ a. length (f a) ≡ width) xs → length (flat xs) ≡ length xs * width
  length-flat [] h = omega arith
  length-flat (x ∷ xs) h = omega (arith, length-append (f x) (flat xs), length-flat xs h.1, h.0)

  take-flat :
      (n : ℕ) (xs : List A)
      → All (λ a. length (f a) ≡ width) xs
      → take (n * width) (flat xs) ≡ flat (take n xs)
  take-flat zero xs h = ap (λ t. take t (flat xs)) {y = 0} (omega arith)
  take-flat (suc n) [] h = take-nil (suc n * width)
  take-flat (suc n) (x ∷ xs) h =
      take-past (suc n * width) (n * width) width (f x) (flat xs) h.0 (omega arith)
      ∙ ap (λ t. f x ++ t) (take-flat n xs h.1)

  drop-flat :
      (n : ℕ) (xs : List A)
      → All (λ a. length (f a) ≡ width) xs
      → drop (n * width) (flat xs) ≡ flat (drop n xs)
  drop-flat zero xs h = ap (λ t. drop t (flat xs)) {y = 0} (omega arith)
  drop-flat (suc n) [] h = drop-nil (suc n * width)
  drop-flat (suc n) (x ∷ xs) h =
      drop-past (suc n * width) (n * width) width (f x) (flat xs) h.0 (omega arith)
      ∙ drop-flat n xs h.1

  chunk_loop-cons :
      (fuel size : ℕ) (ys : List B)
      → 0 < length ys
      → chunk_loop (suc fuel) size ys ≡ take size ys ∷ chunk_loop fuel size (drop size ys)
  chunk_loop-cons fuel size [] h = absurd (omega arith)
  chunk_loop-cons fuel size (y ∷ ys) h = refl

  -- The parts of such a list at a multiple of the width are those of the items.
  pub chunk_loop-flat :
      (fuel fuel' size : ℕ) (xs : List A)
      → 0 < width
      → 0 < size
      → All (λ a. length (f a) ≡ width) xs
      → length (flat xs) ≤ fuel
      → length xs ≤ fuel'
      → chunk_loop fuel (size * width) (flat xs) ≡ map flat (chunk_loop fuel' size xs)
  chunk_loop-flat zero zero size [] wide pos h enough enough' = refl
  chunk_loop-flat zero (suc fuel') size [] wide pos h enough enough' = refl
  chunk_loop-flat (suc fuel) zero size [] wide pos h enough enough' = refl
  chunk_loop-flat (suc fuel) (suc fuel') size [] wide pos h enough enough' = refl
  chunk_loop-flat fuel zero size (x ∷ xs) wide pos h enough enough' = absurd (omega arith)
  chunk_loop-flat zero (suc fuel') size (x ∷ xs) wide pos h enough enough' =
      absurd (omega (arith, length-append (f x) (flat xs), h.0))
  chunk_loop-flat (suc fuel) (suc fuel') size (x ∷ xs) wide pos h enough enough' =
      let grown : 0 < length (flat (x ∷ xs)) = omega (arith, length-append (f x) (flat xs), h.0) in
      let some_ : 0 < size * width = grind arith in
      chunk_loop-cons fuel (size * width) (flat (x ∷ xs)) grown
      ∙ rw (take-flat size (x ∷ xs) h, drop-flat size (x ∷ xs) h)
          (ap (λ t. flat (take size (x ∷ xs)) ∷ t)
            (chunk_loop-flat fuel fuel' size (drop size (x ∷ xs)) wide pos
              (All-drop (λ a. length (f a) ≡ width) size (x ∷ xs) h)
              (rw (← drop-flat size (x ∷ xs) h)
                (omega (arith, length-drop (size * width) (flat (x ∷ xs)))))
              (omega (arith, length-drop size (x ∷ xs)))))
