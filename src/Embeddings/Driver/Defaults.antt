-- ===== src/Embeddings/Driver/Defaults.antt =====
-- The sizes and the column types that are used when none is given, lantern_cli/src/embeddings/mod.rs.
use Prim.Native.String.{String}
use text.Mathlib.Text.{◌==◌}
use lanterndb.Prelude.{ℕ, ◌≤◌, arith, List, [], ◌∷◌, All, if◌then◌else◌, Bool-cases, inl, inr}
use lanterndb.Embeddings.Driver.Worker.{EmbeddingJobType, embedding_generation, completion}

abbrev pub size_of : List (String × ℕ) → String → ℕ
size_of [] model = 100
size_of ((name, size) ∷ sizes) model = if model == name then size else size_of sizes model

-- The arms of the `match`, in their order.
abbrev pub batch_sizes : List (String × ℕ)
batch_sizes =
    ("clip/ViT-B-32-textual", 2000)
    ∷ ("clip/ViT-B-32-visual", 50)
    ∷ ("BAAI/bge-small-en", 300)
    ∷ ("BAAI/bge-base-en", 100)
    ∷ ("BAAI/bge-large-en", 60)
    ∷ ("jinaai/jina-embeddings-v2-small-en", 500)
    ∷ ("jinaai/jina-embeddings-v2-base-en", 80)
    ∷ ("intfloat/e5-base-v2", 300)
    ∷ ("intfloat/e5-large-v2", 100)
    ∷ ("llmrails/ember-v1", 100)
    ∷ ("thenlper/gte-base", 1000)
    ∷ ("thenlper/gte-large", 800)
    ∷ ("microsoft/all-MiniLM-L12-v2", 1000)
    ∷ ("naver/splade-v3", 150)
    ∷ ("microsoft/all-mpnet-base-v2", 400)
    ∷ ("transformers/multi-qa-mpnet-base-dot-v1", 300)
    ∷ ("text-embedding-ada-002", 500)
    ∷ ("text-embedding-3-small", 500)
    ∷ ("text-embedding-3-large", 500)
    ∷ ("embed-english-v3.0", 5000)
    ∷ ("embed-multilingual-v3.0", 5000)
    ∷ ("embed-english-light-v3.0", 5000)
    ∷ ("embed-multilingual-light-v3.0", 5000)
    ∷ ("embed-english-v2.0", 5000)
    ∷ ("embed-english-light-v2.0", 5000)
    ∷ ("embed-multilingual-v2.0", 5000)
    ∷ ("gpt-4", 2)
    ∷ ("gpt-4o", 2)
    ∷ ("gpt-4-turbo", 2)
    ∷ ("gpt-4o-mini", 10)
    ∷ []

unfoldable pub get_default_batch_size : String → ℕ
get_default_batch_size model = size_of batch_sizes model

unfoldable pub get_default_column_type : EmbeddingJobType → String
get_default_column_type completion = "TEXT"
get_default_column_type embedding_generation = "REAL[]"

size_of_bounds :
    (sizes : List (String × ℕ)) (model : String)
    → All (λ entry. (2 ≤ entry.1) × (entry.1 ≤ 5000)) sizes
    → (2 ≤ size_of sizes model) × (size_of sizes model ≤ 5000)
size_of_bounds [] model h = omega arith
size_of_bounds ((name, size) ∷ sizes) model h = elim (Bool-cases (model == name)) [
  | inl e ↦ rw e h.0
  | inr e ↦ rw e (size_of_bounds sizes model h.1)
]

pub get_default_batch_size_bounds :
    (model : String) → (2 ≤ get_default_batch_size model) × (get_default_batch_size model ≤ 5000)
unfolding get_default_batch_size
get_default_batch_size_bounds model = size_of_bounds batch_sizes model (omega arith)
