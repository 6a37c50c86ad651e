-- ===== src/Sql/Unquote.antt =====
-- That quoting loses nothing and lets nothing out of the quotes, for lantern_cli/src/utils/mod.rs.
use lanterndb.Prelude.{
  ℕ, ◌≡◌, ◌≢◌, inl, inr, refl, ap, ◌∙◌, false, Option, none, some, List, [], ◌∷◌, ◌++◌, arith, ◌==◌,
  ==_iff, ==_refl, if◌then◌else◌, append_assoc, Bool-cases,
}
use lanterndb.Sql.{doubled, quote_literal, get_full_table_name, double_quote, single_quote}

abbrev with_char : ℕ → Option (List ℕ × List ℕ) → Option (List ℕ × List ℕ)
with_char c none = none
with_char c (some (text, rest)) = some (c ∷ text, rest)

-- How Postgres reads what follows an opening quote: a doubled quote is a quote, a single one ends
-- the text. Gives the text and what follows it.
unfoldable pub read_quoted : ℕ → List ℕ → Option (List ℕ × List ℕ)
read_quoted q [] = none
read_quoted q (c ∷ []) = if c == q then some ([], []) else none
read_quoted q (c ∷ d ∷ str) =
    let skipped = read_quoted q str in
    let next = read_quoted q (d ∷ str) in
    if c == q then if d == q then with_char q skipped else some ([], d ∷ str) else with_char c next

-- The text does not go on with the quote.
abbrev pub IsClosed : ℕ → List ℕ → Type 0
IsClosed q [] = Unit
IsClosed q (c ∷ rest) = c ≢ q

read_plain :
    (q c : ℕ) (str text rest : List ℕ)
    → c ≢ q
    → read_quoted q str ≡ some (text, rest)
    → read_quoted q (c ∷ str) ≡ some (c ∷ text, rest)
unfolding read_quoted
read_plain q c [] text rest n h = cc
read_plain q c (d ∷ str) text rest n h = ground (arith, h)

other : (c q : ℕ) → (c == q) ≡ false → c ≢ q
other c q e = ground arith

read_twice :
    (q : ℕ) (str text rest : List ℕ)
    → read_quoted q str ≡ some (text, rest)
    → read_quoted q (q ∷ q ∷ str) ≡ some (q ∷ text, rest)
unfolding read_quoted
read_twice q str text rest h = rw (==_refl q) (rw h refl)

read_quoted-doubled :
    (q : ℕ) (str rest : List ℕ)
    → IsClosed q rest
    → read_quoted q (doubled q str ++ q ∷ rest) ≡ some (str, rest)
unfolding read_quoted doubled
read_quoted-doubled q [] [] h = ground arith
read_quoted-doubled q [] (c ∷ rest) h = ground arith
read_quoted-doubled q (c ∷ str) rest h =
    let ih = read_quoted-doubled q str rest h in
    elim (Bool-cases (c == q)) [
      | inl e ↦
          let same : c ≡ q = (==_iff c q).0 e in
          rw e (read_twice q (doubled q str ++ q ∷ rest) str rest ih ∙ cc)
      | inr e ↦
          let n : c ≢ q = other c q e in
          rw e (read_plain q c (doubled q str ++ q ∷ rest) str rest n ih)
    ]

-- After its opening quote, a quoted literal is read back as the text that was quoted, and what
-- follows it, unless that begins with a quote, is left as it was.
pub read_quoted-quote_literal :
    (str rest : List ℕ)
    → IsClosed single_quote rest
    → (body : List ℕ) × (quote_literal str ++ rest ≡ single_quote ∷ body)
      × (read_quoted single_quote body ≡ some (str, rest))
unfolding quote_literal
read_quoted-quote_literal str rest h = (
  doubled single_quote str ++ single_quote ∷ rest,
  ap (λ (t : List ℕ). single_quote ∷ t)
      (append_assoc (doubled single_quote str) (single_quote ∷ []) rest),
  read_quoted-doubled single_quote str rest h,
)

-- The full name of a table is read back as its schema, a dot and its table.
pub read_quoted-get_full_table_name :
    (schema table : List ℕ)
    → (body : List ℕ) × (rest : List ℕ) × (get_full_table_name schema table ≡ double_quote ∷ body)
      × (read_quoted double_quote body ≡ some (schema, 46 ∷ double_quote ∷ rest))
      × (read_quoted double_quote rest ≡ some (table, []))
unfolding get_full_table_name
read_quoted-get_full_table_name schema table =
    let rest = doubled double_quote table ++ double_quote ∷ [] in
    (
      doubled double_quote schema ++ double_quote ∷ 46 ∷ double_quote ∷ rest,
      rest,
      ap (λ (t : List ℕ). double_quote ∷ t)
          (append_assoc (doubled double_quote schema) (double_quote ∷ [])
            (46 ∷ double_quote ∷ rest)),
      read_quoted-doubled double_quote schema (46 ∷ double_quote ∷ rest) (λ e. omega arith),
      read_quoted-doubled double_quote table [] tt,
    )
