-- ===== src/Pq/Quantization/Closest.antt =====
-- What `get_closest_centroid` of lantern_cli/src/pq/quantization.rs finds.
use lanterndb.Prelude.{
  ℕ, zero, suc, ◌+◌, ◌%◌, ◌≤◌, ◌<◌, ◌≡◌, ◌⊎◌, inl, inr, refl, Bool, true, false, some, List, [],
  ◌∷◌, arith, length, get_elem?, if◌then◌else◌, Bool-cases, All,
}
use lanterndb.Pq.Quantization.{FloatOps, l2sq_dist, closest_loop, get_closest_centroid}

-- `<` on floats without NaN: nothing is less than itself, and what is less than a value is less than
-- all that the value is not greater than.
pub record IsOrdered {F : Type 0} (f : FloatOps F) : Type 0 where
  pub irreflexive : (x : F) → f.lt x x ≡ false
  pub weak : (x y z : F) → f.lt x y ≡ true → f.lt z y ≡ false → f.lt z x ≡ false

module _ {F : Type 0} (f : FloatOps F) (law : IsOrdered f) where
  abbrev pub distance_to : List F → List F → F
  distance_to subvector centroid = l2sq_dist f centroid subvector

  -- The index found is the one given, or that of a centroid; and no centroid is closer than `best`.
  abbrev IsClosest : List F → List (List F) → ℕ → F → ℕ → ℕ → Type 0
  IsClosest subvector centroids idx distance index found =
      (best : F) × (((found ≡ index) × (best ≡ distance))
        ⊎ ((i : ℕ) × (c : List F) × (found ≡ idx + i)
            × (get_elem? centroids i ≡ some c)
            × (best ≡ distance_to subvector c)
            × (f.lt best distance ≡ true)))
      × All (λ c. f.lt (distance_to subvector c) best ≡ false) centroids
      × (f.lt distance best ≡ false)

  nearer : (x y z : F) → f.lt x y ≡ true → f.lt y z ≡ true → f.lt x z ≡ true
  nearer x y z p q = elim (Bool-cases (f.lt x z)) [ inl e ↦ e | inr e ↦ cc (law.weak y z x q e) ]

  not_nearer : (x y z : F) → f.lt x y ≡ true → f.lt x z ≡ false → f.lt y z ≡ false
  not_nearer x y z p q = elim (Bool-cases (f.lt y z)) [ inl e ↦ cc (nearer x y z p e) | inr e ↦ e ]

  IsClosest-cons :
      (subvector c : List F) (cs : List (List F)) (idx index found : ℕ) (distance : F)
      (closer : Bool)
      → idx < 256
      → f.lt (distance_to subvector c) distance ≡ closer
      → IsClosest subvector cs
          (suc idx)
          (if closer then distance_to subvector c else distance)
          (if closer then idx % 256 else index)
          found
      → IsClosest subvector (c ∷ cs) idx distance index found
  IsClosest-cons subvector c cs idx index found distance true small e (best, inl (p, q), all, up) =
      (
        best,
        inr (0, c, omega arith, refl, q, cc),
        (up, all),
        not_nearer (distance_to subvector c) distance best e up,
      )
  IsClosest-cons subvector c cs idx index found distance true small e
        (best, inr (i, d, p, g, q, l), all, up) =
      (
        best,
        inr (suc i, d, omega arith, g, q, nearer best (distance_to subvector c) distance l e),
        (up, all),
        not_nearer (distance_to subvector c) distance best e up,
      )
  IsClosest-cons subvector c cs idx index found distance false small e (best, inl (p, q), all, up) =
      (best, inl (p, q), (cc, all), up)
  IsClosest-cons subvector c cs idx index found distance false small e
        (best, inr (i, d, p, g, q, l), all, up) =
      (
        best,
        inr (suc i, d, omega arith, g, q, l),
        (law.weak best distance (distance_to subvector c) l e, all),
        up,
      )

  closest_loop-IsClosest :
      (subvector : List F) (cs : List (List F)) (idx : ℕ) (distance : F) (index : ℕ)
      → idx + length cs ≤ 256
      → IsClosest subvector cs idx distance index (closest_loop f subvector cs idx distance index)
  unfolding closest_loop
  closest_loop-IsClosest subvector [] idx distance index small =
      (distance, inl (refl, refl), tt, law.irreflexive distance)
  closest_loop-IsClosest subvector (c ∷ cs) idx distance index small =
      let closer = f.lt (distance_to subvector c) distance in
      IsClosest-cons subvector c cs idx index (closest_loop f subvector (c ∷ cs) idx distance index)
        distance closer (omega arith) refl
        (closest_loop-IsClosest subvector cs (suc idx)
          (if closer then distance_to subvector c else distance)
          (if closer then idx % 256 else index) (omega arith))

  All-get_elem :
      (P : List F → Type 0) (cs : List (List F)) (i : ℕ) (c : List F)
      → get_elem? cs i ≡ some c
      → All P cs
      → P c
  All-get_elem P [] i c e h = cc
  All-get_elem P (d ∷ cs) zero c e h = let same : d ≡ c = cc in rw⁻¹ same h.0
  All-get_elem P (d ∷ cs) (suc i) c e h = All-get_elem P cs i c e h.1

  -- Among at most 256 centroids, one of which is closer than the largest float: the code found is
  -- the index of a centroid, and no centroid is closer to the subvector.
  pub get_closest_centroid_closest :
      (centroids : List (List F)) (subvector : List F) (i : ℕ) (c : List F)
      → length centroids ≤ 256
      → get_elem? centroids i ≡ some c
      → f.lt (distance_to subvector c) f.max_float ≡ true
      → (best : List F) × (get_elem? centroids (get_closest_centroid f centroids subvector)
          ≡ some best)
        × All (λ d. f.lt (distance_to subvector d) (distance_to subvector best) ≡ false) centroids
  unfolding get_closest_centroid
  get_closest_centroid_closest centroids subvector i c small e near =
      chosen (closest_loop-IsClosest subvector centroids 0 f.max_float 0 (omega arith))
    where
      chosen :
          IsClosest subvector centroids 0 f.max_float 0
            (closest_loop f subvector centroids 0 f.max_float 0)
          → (best : List F) × (get_elem? centroids
                (closest_loop f subvector centroids 0 f.max_float 0)
              ≡ some best)
            × All
                (λ d. f.lt (distance_to subvector d) (distance_to subvector best) ≡ false)
                centroids
      chosen (best, inl (p, q), all, up) = absurd (
          cc (
            All-get_elem (λ d. f.lt (distance_to subvector d) best ≡ false) centroids i c e all,
            q,
          ))
      chosen (best, inr (k, d, p, g, q, l), all, up) = (d, ground (arith, p, g), rw⁻¹ q all)
