-- ===== src/Embeddings/Driver/Records.antt =====
-- The records that are copied into the temporary table: `EmbeddingRecord` of
-- lantern_cli/src/embeddings/mod.rs. A text is its characters. How a float prints is a parameter.
pub mod Copy
use lanterndb.Prelude.{ℕ, suc, ◌-◌, List, [], ◌∷◌, ◌++◌, ◌==◌, if◌then◌else◌, length, take}

pub record EmbeddingRecord : Type 0 where
  pub pk : List ℕ
  pub record_bytes : List ℕ

-- `NULL`
abbrev pub null_text : List ℕ
null_text = 78 ∷ 85 ∷ 76 ∷ 76 ∷ []

abbrev pub comma : ℕ
comma = 44

-- Each value and a comma after it.
pub row_str {ℓ} : {F : Type ℓ} → (F → List ℕ) → List F → List ℕ
row_str show [] = []
row_str show (x ∷ value) = show x ++ comma ∷ row_str show value

-- The braces, and the values without the last comma.
unfoldable pub from_vec {ℓ} : {F : Type ℓ} → (F → List ℕ) → List ℕ → List F → EmbeddingRecord
unfolding row_str
from_vec show pk [] = record { pk = pk; record_bytes = null_text }
from_vec show pk (x ∷ value) =
    let text = row_str show (x ∷ value) in
    record { pk = pk; record_bytes = 123 ∷ (take (length text - 1) text ++ 125 ∷ []) }

-- `str.replace(c, with)`
pub replace : ℕ → List ℕ → List ℕ → List ℕ
replace c with_text [] = []
replace c with_text (d ∷ text) = (if d == c then with_text else d ∷ []) ++ replace c with_text text

-- A backslash, a line feed, a carriage return and a tab, in this order.
unfoldable pub escaped : List ℕ → List ℕ
unfolding replace
escaped value =
    replace 9 (92 ∷ 116 ∷ [])
      (replace 13 (92 ∷ 114 ∷ []) (replace 10 (92 ∷ 110 ∷ []) (replace 92 (92 ∷ 92 ∷ []) value)))

unfoldable pub from_string : List ℕ → List ℕ → EmbeddingRecord
unfolding escaped
from_string pk [] = record { pk = pk; record_bytes = null_text }
from_string pk (c ∷ value) = record { pk = pk; record_bytes = escaped (c ∷ value) }

-- The line of a record: its key, a tab, its bytes and a line feed.
unfoldable pub copy_line : EmbeddingRecord → List ℕ
copy_line row = row.pk ++ 9 ∷ (row.record_bytes ++ 10 ∷ [])

unfoldable pub copy_lines : List EmbeddingRecord → List ℕ
unfolding copy_line
copy_lines [] = []
copy_lines (row ∷ rows) = copy_line row ++ copy_lines rows
