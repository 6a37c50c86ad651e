-- ===== src/Dotvecs/Tests.antt =====
-- Concrete files for lantern_extras/src/dotvecs.rs.
use lanterndb.Prelude.{◌≡◌, [], ◌∷◌, arith, ok}
use lanterndb.Dotvecs.{pos, parse_vecs}
use lanterndb.Dotvecs.Files.{encode_vecs, parse_vecs-encode_vecs}

-- The first elements of two vectors of dimension three are lost.
parse_vecs-encode_vecs_example :
    parse_vecs 4 (encode_vecs ((1 ∷ 2 ∷ 3 ∷ []) ∷ (4 ∷ 5 ∷ 6 ∷ []) ∷ [])) (pos 10)
    ≡ ok ((2 ∷ 3 ∷ []) ∷ (5 ∷ 6 ∷ []) ∷ [])
parse_vecs-encode_vecs_example =
    parse_vecs-encode_vecs 3 10 (1 ∷ 2 ∷ 3 ∷ []) ((4 ∷ 5 ∷ 6 ∷ []) ∷ []) (omega arith) (omega arith)
      (omega arith)
