-- ===== src/Embeddings/Driver/Records/Copy.antt =====
-- What Postgres reads from the lines of lantern_cli/src/embeddings/mod.rs: the text format of COPY,
-- as its manual describes it, with `NULL` as the null marker.
use mathlib.Core.Path.{subst}
use lanterndb.Prelude.{
  split, split-part, split-last, All-append, ℕ, ◌≡◌, ◌≢◌, refl, ap, ◌∙◌, sym, Bool, true, false,
  Option, none, some, List, [], ◌∷◌, ◌++◌, map, arith, ◌==◌, if◌then◌else◌, append_assoc, All,
}
use lanterndb.Embeddings.Driver.Records.{
  EmbeddingRecord, null_text, escaped, from_string, copy_line, copy_lines,
}

-- The character that a backslash and `c` stand for.
abbrev pub meaning : ℕ → ℕ
meaning c = if c == 110 then 10 else if c == 114 then 13 else if c == 116 then 9 else c

-- The text of a field; the flag tells whether a backslash stands before it.
unfoldable pub unescape : Bool → List ℕ → List ℕ
unescape after_backslash [] = []
unescape true (c ∷ text) = meaning c ∷ unescape false text
unescape false (c ∷ text) = let next = unescape (c == 92) text in if c == 92 then next else c ∷ next

abbrev pub same_text : List ℕ → List ℕ → Bool
same_text [] [] = true
same_text (c ∷ s) (d ∷ t) = if c == d then same_text s t else false
same_text _ _ = false

-- A field: the marker is recognised before any escape is.
abbrev pub read_field : List ℕ → Option (List ℕ)
read_field field = if same_text field null_text then none else some (unescape false field)

abbrev pub read_line : List ℕ → List (Option (List ℕ))
read_line line = let fields = split 9 [] line in map read_field (fields.0 ++ fields.1 ∷ [])

pub copy_in : List ℕ → List (List (Option (List ℕ)))
unfolding split unescape
copy_in text = map read_line (split 10 [] text).0

-- None of the characters that the format gives a meaning.
abbrev pub IsPlain : List ℕ → Type 0
IsPlain = All (λ c. (c ≢ 9) × (c ≢ 10) × (c ≢ 13) × (c ≢ 92))

-- None of the two that end a field.
abbrev pub IsField : List ℕ → Type 0
IsField = All (λ c. (c ≢ 9) × (c ≢ 10))

-- What one character of a value becomes.
abbrev escape_char : ℕ → List ℕ
escape_char c =
    if c == 92
    then 92 ∷ 92 ∷ []
    else if c == 10
    then 92 ∷ 110 ∷ []
    else if c == 13
    then 92 ∷ 114 ∷ []
    else if c == 9
    then 92 ∷ 116 ∷ []
    else c ∷ []

escaped-cons : (c : ℕ) (value : List ℕ) → escaped (c ∷ value) ≡ escape_char c ++ escaped value
unfolding escaped
escaped-cons c value = ground arith

unescape-escape_char :
    (c : ℕ) (text : List ℕ) → unescape false (escape_char c ++ text) ≡ c ∷ unescape false text
unfolding unescape
unescape-escape_char c text = ground arith

pub unescape-escaped : (value : List ℕ) → unescape false (escaped value) ≡ value
unfolding unescape escaped
unescape-escaped [] = refl
unescape-escaped (c ∷ value) =
    ap (unescape false) (escaped-cons c value)
    ∙ (unescape-escape_char c (escaped value) ∙ ap (λ t. c ∷ t) (unescape-escaped value))

escape_char-IsField : (c : ℕ) → IsField (escape_char c)
escape_char-IsField c = ground arith

-- An escaped text can stand in a field.
pub escaped-IsField : (value : List ℕ) → IsField (escaped value)
unfolding escaped
escaped-IsField [] = tt
escaped-IsField (c ∷ value) = subst IsField (sym (escaped-cons c value)) (
    All-append (λ c. (c ≢ 9) × (c ≢ 10)) (escape_char c) (escaped value) (escape_char-IsField c)
      (escaped-IsField value))

-- The column that a value is to be read as: none for an empty one, and for the word `NULL`.
abbrev pub stored : List ℕ → Option (List ℕ)
stored [] = none
stored (c ∷ value) = if same_text (c ∷ value) null_text then none else some (c ∷ value)

All-fst : (P Q : ℕ → Type 0) (text : List ℕ) → All (λ c. P c × Q c) text → All P text
All-fst P Q [] h = tt
All-fst P Q (c ∷ text) h = (h.0.0, All-fst P Q text h.1)

All-snd : (P Q : ℕ → Type 0) (text : List ℕ) → All (λ c. P c × Q c) text → All Q text
All-snd P Q [] h = tt
All-snd P Q (c ∷ text) h = (h.0.1, All-snd P Q text h.1)

-- A record whose two texts can stand in fields.
abbrev IsRow : EmbeddingRecord → Type 0
IsRow row = IsField row.pk × IsField row.record_bytes

read_line_row :
    (row : EmbeddingRecord)
    → IsRow row
    → read_line (row.pk ++ 9 ∷ row.record_bytes)
      ≡ read_field row.pk ∷ read_field row.record_bytes ∷ []
read_line_row row h =
    rw
      (
        split-part 9 [] row.pk row.record_bytes (All-fst (λ c. c ≢ 9) (λ c. c ≢ 10) row.pk h.0),
        split-last 9 [] row.record_bytes (All-fst (λ c. c ≢ 9) (λ c. c ≢ 10) row.record_bytes h.1),
      )
      refl

line-IsLine :
    (row : EmbeddingRecord) → IsRow row → All (λ c. c ≢ 10) (row.pk ++ 9 ∷ row.record_bytes)
line-IsLine row h =
    All-append (λ c. c ≢ 10) row.pk (9 ∷ row.record_bytes)
      (All-snd (λ c. c ≢ 9) (λ c. c ≢ 10) row.pk h.0)
      ((λ e. absurd (omega (arith, e))), All-snd (λ c. c ≢ 9) (λ c. c ≢ 10) row.record_bytes h.1)

copy_line-append :
    (row : EmbeddingRecord) (rest : List ℕ)
    → copy_line row ++ rest ≡ (row.pk ++ 9 ∷ row.record_bytes) ++ 10 ∷ rest
unfolding copy_line
copy_line-append row rest = simp (
  append_assoc row.pk (9 ∷ (row.record_bytes ++ 10 ∷ [])) rest,
  append_assoc row.record_bytes (10 ∷ []) rest,
  append_assoc row.pk (9 ∷ row.record_bytes) (10 ∷ rest),
)

pub copy_in-copy_lines :
    (rows : List EmbeddingRecord)
    → All IsRow rows
    → copy_in (copy_lines rows)
      ≡ map (λ (row : EmbeddingRecord). read_field row.pk ∷ read_field row.record_bytes ∷ []) rows
unfolding copy_in copy_lines
copy_in-copy_lines [] h = refl
copy_in-copy_lines (row ∷ rows) h =
    rw
      (
        copy_line-append row (copy_lines rows),
        split-part 10 [] (row.pk ++ 9 ∷ row.record_bytes) (copy_lines rows) (line-IsLine row h.0),
        read_line_row row h.0,
        copy_in-copy_lines rows h.1,
      )
      refl

-- A key that the line carries as it is: no character of it has a meaning, and it is not the marker.
abbrev pub IsKey : List ℕ → Type 0
IsKey pk = IsPlain pk × (same_text pk null_text ≡ false)

abbrev pub message_record : List ℕ × List ℕ → EmbeddingRecord
message_record (pk, value) = from_string pk value
