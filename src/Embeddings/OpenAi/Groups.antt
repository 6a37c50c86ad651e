-- ===== src/Embeddings/OpenAi/Groups.antt =====
-- The groups of `group_vectors_by_token_count`,
-- lantern_cli/src/embeddings/core/openai_runtime.rs.
use lanterndb.Prelude.{
  concat-append, All-append, ℕ, ◌+◌, ◌≤◌, ◌≡◌, ◌≢◌, ◌⊎◌, inl, inr, refl, ap, sym, List, [], ◌∷◌,
  ◌++◌, append-nil, append_assoc, arith, leb, length, concat, All, Bool-cases,
}
use lanterndb.Embeddings.OpenAi.{
  Grouping, group_step, group_loop, group_vectors_by_token_count, last_group,
}

abbrev pub token_count : List (List ℕ) → ℕ
token_count [] = 0
token_count (v ∷ vs) = length v + token_count vs

-- A group is not empty and has at most `limit` tokens.
abbrev pub IsGroup : ℕ → List (List ℕ) → Type 0
IsGroup limit group = (group ≢ []) × (token_count group ≤ limit)

token_count-append :
    (xs ys : List (List ℕ)) → token_count (xs ++ ys) ≡ token_count xs + token_count ys
token_count-append [] ys = omega arith
token_count-append (x ∷ xs) ys = omega (arith, token_count-append xs ys)

-- Before every vector of the loop.
record IsGrouping (limit : ℕ) (g : Grouping) : Type 0 where
  counted : g.current_group_token_count ≡ token_count g.current_group
  bounded : g.current_group_token_count ≤ limit
  complete : All (IsGroup limit) g.result

group_step-IsGrouping :
    (limit : ℕ) (g : Grouping) (v : List ℕ)
    → length v ≤ limit
    → IsGrouping limit g
    → IsGrouping limit (group_step limit g v)
unfolding group_step
group_step-IsGrouping limit g v small h =
    elim (Bool-cases (leb (g.current_group_token_count + length v) limit)) [
      | inl fits ↦ rw fits (record {
        counted = omega (arith, h.counted, token_count-append g.current_group (v ∷ []));
        bounded = ground arith;
        complete = h.complete;
      })
      | inr full ↦ rw full (record {
        counted = omega arith;
        bounded = small;
        complete = All-append (IsGroup limit) g.result (g.current_group ∷ []) h.complete (
          ((λ e. ground (arith, h.counted, ap token_count e)), omega (arith, h.counted, h.bounded)),
          tt,
        );
      })
    ]

group_loop-IsGrouping :
    (limit : ℕ) (g : Grouping) (input : List (List ℕ))
    → All (λ v. length v ≤ limit) input
    → IsGrouping limit g
    → IsGrouping limit (group_loop limit g input)
unfolding group_loop
group_loop-IsGrouping limit g [] small h = h
group_loop-IsGrouping limit g (v ∷ input) small h =
    group_loop-IsGrouping limit (group_step limit g v) input small.1
      (group_step-IsGrouping limit g v small.0 h)

abbrev grouped : Grouping → List (List ℕ)
grouped g = concat g.result ++ g.current_group

grouped-group_step :
    (limit : ℕ) (g : Grouping) (v : List ℕ) → grouped (group_step limit g v) ≡ grouped g ++ v ∷ []
unfolding group_step
grouped-group_step limit g v = ground (
  arith,
  append_assoc (concat g.result) g.current_group (v ∷ []),
  concat-append g.result (g.current_group ∷ []),
  append-nil g.current_group,
)

grouped-group_loop :
    (limit : ℕ) (g : Grouping) (input : List (List ℕ))
    → grouped (group_loop limit g input) ≡ grouped g ++ input
unfolding group_loop
grouped-group_loop limit g [] = sym (append-nil (grouped g))
grouped-group_loop limit g (v ∷ input) = cc (
  grouped-group_loop limit (group_step limit g v) input,
  grouped-group_step limit g v,
  append_assoc (grouped g) (v ∷ []) input,
)

abbrev no_groups : Grouping
no_groups = record { result = []; current_group = []; current_group_token_count = 0 }

-- Whatever the limit, the groups hold the vectors of the input, all of them and in order.
pub concat-group_vectors_by_token_count :
    (input : List (List ℕ)) (limit : ℕ) → concat (group_vectors_by_token_count input limit) ≡ input
unfolding group_vectors_by_token_count
concat-group_vectors_by_token_count input limit =
    let whole = grouped-group_loop limit no_groups input in
    elim (last_cases (group_loop limit no_groups input).current_group) [
      | inl e ↦
          ground (arith, whole, e, append-nil (concat (group_loop limit no_groups input).result))
      | inr (v, vs, e) ↦ ground (
        arith,
        whole,
        e,
        append-nil (v ∷ vs),
        concat-append (group_loop limit no_groups input).result ((v ∷ vs) ∷ []),
      )
    ]
  where
    last_cases :
        (xs : List (List ℕ)) → (xs ≡ []) ⊎ ((v : List ℕ) × (vs : List (List ℕ)) × (xs ≡ v ∷ vs))
    last_cases [] = inl refl
    last_cases (v ∷ vs) = inr (v, vs, refl)

last_group-IsGroup :
    (limit : ℕ) (g : Grouping) (group : List (List ℕ))
    → g.current_group ≡ group
    → IsGrouping limit g
    → All (IsGroup limit) (last_group g.result group)
last_group-IsGroup limit g [] e h = h.complete
last_group-IsGroup limit g (v ∷ vs) e h =
    All-append (IsGroup limit) g.result ((v ∷ vs) ∷ []) h.complete
      (((λ d. cc), omega (arith, h.counted, h.bounded, ap token_count e)), tt)

-- When no vector of the input is longer than the limit, every group is non-empty and holds at most
-- `limit` tokens.
pub group_vectors_by_token_count-IsGroup :
    (input : List (List ℕ)) (limit : ℕ)
    → All (λ v. length v ≤ limit) input
    → All (IsGroup limit) (group_vectors_by_token_count input limit)
unfolding group_vectors_by_token_count
group_vectors_by_token_count-IsGroup input limit small =
    last_group-IsGroup limit (group_loop limit no_groups input)
      (group_loop limit no_groups input).current_group refl
      (group_loop-IsGrouping limit no_groups input small
        (record { counted = refl; bounded = omega arith; complete = tt }))
