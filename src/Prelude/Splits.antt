-- ===== src/Prelude/Splits.antt =====
-- A text, as its characters, cut at each separator: `str.split`.
use Prim.Native.Nat.{ℕ}
use mathlib.Core.Path.{◌≡◌}
use mathlib.Core.Logic.{◌≢◌}
use mathlib.Core.List.{List, [], ◌∷◌, ◌++◌, append-nil, append_assoc}
use native.Mathlib.Omega.{arith}
use lanterndb.Prelude.Tests.{◌==◌, if◌then◌else◌}
use lanterndb.Prelude.Lists.{All}

-- The parts before each `sep`, and what follows the last one.
unfoldable pub split : ℕ → List ℕ → List ℕ → List (List ℕ) × List ℕ
split sep part [] = ([], part)
split sep part (c ∷ text) =
    let next = split sep (if c == sep then [] else part ++ c ∷ []) text in
    if c == sep then (part ∷ next.0, next.1) else next

pub split-part :
    (sep : ℕ) (part text rest : List ℕ)
    → All (λ c. c ≢ sep) text
    → split sep part (text ++ sep ∷ rest)
      ≡ (((part ++ text) ∷ (split sep [] rest).0), (split sep [] rest).1)
unfolding split
split-part sep part [] rest h = ground (arith, append-nil part)
split-part sep part (c ∷ text) rest h =
    ground (arith, split-part sep (part ++ c ∷ []) text rest h.1, append_assoc part (c ∷ []) text)

pub split-last :
    (sep : ℕ) (part text : List ℕ)
    → All (λ c. c ≢ sep) text
    → split sep part text ≡ ([], part ++ text)
unfolding split
split-last sep part [] h = ground (arith, append-nil part)
split-last sep part (c ∷ text) h =
    ground (arith, split-last sep (part ++ c ∷ []) text h.1, append_assoc part (c ∷ []) text)
