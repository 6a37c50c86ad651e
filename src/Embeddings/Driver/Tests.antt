-- ===== src/Embeddings/Driver/Tests.antt =====
-- Concrete runs of the driver of lantern_cli/src/embeddings/mod.rs.
use mathlib.Core.List.{Perm}
use lanterndb.Prelude.{
  ℕ, ◌≡◌, refl, Bool, false, none, some, List, [], ◌∷◌, map, arith, length, Result, ok, err, ◌==◌,
}
use lanterndb.Embeddings.Driver.Records.{EmbeddingRecord, null_text, copy_lines}
use lanterndb.Embeddings.Driver.Records.Copy.{copy_in}
use lanterndb.Embeddings.Driver.Worker.{Row, embedding_generation}
use lanterndb.Embeddings.Driver.Worker.Batches.{query_rows, kept}
use lanterndb.Embeddings.Driver.Worker.Answers.{record_for}
use lanterndb.Embeddings.Driver.Exporter.{Operation, copy_in as open_copy_in, Received, Exporter}
use lanterndb.Embeddings.Driver.Exporter.Trace.{exported}
use lanterndb.Embeddings.Driver.Pipeline.{EmbeddingArgs, create_embeddings_from_db}
use lanterndb.Embeddings.Driver.Pipeline.Refinement.{create_embeddings_from_db_refines}

-- Key 1 with a message of a backslash, a tab and an `a`; key 2 with an empty one; key 3 with `NULL`.
abbrev messages : List (List ℕ × List ℕ)
messages = (49 ∷ [], 92 ∷ 9 ∷ 97 ∷ []) ∷ (50 ∷ [], []) ∷ (51 ∷ [], null_text) ∷ []

-- A database that refuses the second opening of a copy, as a restarted server does.
abbrev refuse_reopen : List Operation → Operation → Result ℕ (Unit {0})
refuse_reopen trace (open_copy_in false) = err 1
refuse_reopen trace op = ok tt

abbrev percent : ℕ → ℕ → ℕ
percent total processed = 50

abbrev one : EmbeddingRecord
one = record { pk = 49 ∷ []; record_bytes = 97 ∷ [] }

abbrev arrivals : List Received
arrivals = record { rows = one ∷ one ∷ []; arrived = 1; flushed = 2 } ∷ []

-- A runtime that embeds a text as its characters.
abbrev echo : Unit {0} → List (List ℕ) → Result ℕ (List (List ℕ) × ℕ) × Unit {0}
echo r inputs = (ok (inputs, length inputs), r)

abbrev same : List ℕ → List ℕ
same text = text

map_same : (inputs : List (List ℕ)) → inputs ≡ map same inputs
map_same [] = refl
map_same (i ∷ inputs) = λ j. i ∷ map_same inputs j

echo_works :
    (r : Unit {0}) (inputs : List (List ℕ))
    → (tokens : ℕ) × (r' : Unit {0}) × (echo r inputs ≡ (ok (map same inputs, tokens), r'))
echo_works r inputs = (length inputs, r, λ j. (ok (map_same inputs j, length inputs), r))

abbrev is_space : ℕ → Bool
is_space c = c == 32

abbrev digits : ℕ → List ℕ
digits n = n ∷ []

abbrev accepts : List Operation → Operation → Result ℕ (Unit {0})
accepts trace op = ok tt

abbrev clock : ℕ → ℕ × ℕ
clock i = (i, i)

abbrev table : List Row
table =
    record { pk = 49 ∷ []; src_data = some (97 ∷ []) }
    ∷ record { pk = 50 ∷ []; src_data = none }
    ∷ record { pk = 51 ∷ []; src_data = some (32 ∷ []) }
    ∷ record { pk = 52 ∷ []; src_data = some (98 ∷ []) }
    ∷ []

abbrev two_at_once : EmbeddingArgs
two_at_once = record { batch_size = some 2; model = "m"; job_type = none; stream = false }

create_embeddings_from_db_refines_example :
    (tokens : ℕ) × (s : Exporter) × (records : List EmbeddingRecord) × (create_embeddings_from_db
        query_rows is_space digits echo echo accepts percent 4 clock 5 two_at_once tt table
      ≡ some (
        ok (
          length (map (record_for digits same same embedding_generation) (kept is_space table)),
          tokens,
        ),
        s,
      ))
    × Perm records (map (record_for digits same same embedding_generation) (kept is_space table))
    × (exported s ≡ copy_lines records)
create_embeddings_from_db_refines_example =
    create_embeddings_from_db_refines is_space digits echo echo accepts percent 4 clock same same
      echo_works echo_works (λ trace op. refl) 5 two_at_once tt table (omega arith) (omega arith)
      (omega arith)
