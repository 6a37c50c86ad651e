-- ===== src/Sql.antt =====
-- Quoting for SQL and connection strings, lantern_cli/src/utils/mod.rs. A text is its characters, a
-- character its code point.
pub mod Unquote
mod Tests
use lanterndb.Prelude.{
  ℕ, Bool, true, false, ◌||◌, Option, none, some, List, [], ◌∷◌, ◌++◌, ◌==◌, if◌then◌else◌,
}

-- `"`
abbrev pub double_quote : ℕ
double_quote = 34

-- `'`
abbrev pub single_quote : ℕ
single_quote = 39

abbrev slash : ℕ
slash = 47

abbrev question_mark : ℕ
question_mark = 63

-- `str.replace(q, qq)`
pub doubled : ℕ → List ℕ → List ℕ
doubled q [] = []
doubled q (c ∷ str) = let rest = doubled q str in if c == q then q ∷ q ∷ rest else c ∷ rest

abbrev quoted : ℕ → List ℕ → List ℕ
quoted q str = q ∷ (doubled q str ++ q ∷ [])

unfoldable pub quote_ident : List ℕ → List ℕ
unfolding doubled
quote_ident str = quoted double_quote str

unfoldable pub quote_literal : List ℕ → List ℕ
unfolding doubled
quote_literal str = quoted single_quote str

-- With the dot between the two names.
unfoldable pub get_full_table_name : List ℕ → List ℕ → List ℕ
unfolding quote_ident
get_full_table_name schema table = quote_ident schema ++ 46 ∷ quote_ident table

-- Whether the last of the parts between slashes contains a question mark; `seen` is whether the
-- part so far does.
pub last_part_has_params : Bool → List ℕ → Bool
last_part_has_params seen [] = seen
last_part_has_params seen (c ∷ uri) =
    last_part_has_params (if c == slash then false else seen || (c == question_mark)) uri

-- Appends `&params` or `?params`.
unfoldable pub append_params_to_uri : List ℕ → List ℕ → List ℕ
unfolding last_part_has_params
append_params_to_uri db_uri params =
    db_uri ++ (if last_part_has_params false db_uri then 38 else 63) ∷ params
