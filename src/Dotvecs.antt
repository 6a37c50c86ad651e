-- ===== src/Dotvecs.antt =====
-- Vector files, `parse_vecs` of lantern_extras/src/dotvecs.rs. A file is its bytes, and an element
-- the number that its bytes are, the lowest first. A panic is an error here.
pub mod Files
mod Tests
use lanterndb.Prelude.{
  ℕ, suc, ◌+◌, ◌-◌, ◌*◌, Bool, true, false, ◌||◌, not, Option, none, some, List, [], ◌∷◌, ◌==◌, ltb,
  if◌then◌else◌, length, take, drop, Result, ok, err, ◌>>=◌,
}
use lanterndb.Bytes.{from_le_bytes}
use lanterndb.Prelude.{chunks}

-- A 32-bit integer, as the SQL argument is.
pub data Count : Type 0 where
  pos : ℕ → Count
  negsuc : ℕ → Count

-- `count as usize`
abbrev pub as_usize : Count → ℕ
as_usize (pos n) = n
as_usize (negsuc n) = 18446744073709551615 - n

pub data ParseError : Type 0 where
  -- `unwrap` on a part of the wrong length
  panicked : ParseError
  varying_dimensions : ParseError

-- The number of a part that has the length of its type.
abbrev pub read_number : ℕ → List ℕ → Result ParseError ℕ
read_number size bytes = if length bytes == size then ok (from_le_bytes bytes) else err panicked

abbrev pub read_numbers : ℕ → List (List ℕ) → Result ParseError (List ℕ)
read_numbers size [] = ok []
read_numbers size (part ∷ parts) =
    read_number size part >>= λ n. read_numbers size parts >>= λ ns. ok (n ∷ ns)

-- The first four bytes are taken for the dimension; `dropping` drops four of those that follow.
unfoldable pub parse_chunk : ℕ → ℕ → List ℕ → Result ParseError (Bool × List ℕ)
parse_chunk size vector_dim chunk = read_number 4 (take 4 chunk) >>= λ dim.
    read_numbers size (chunks size (drop 4 (drop 4 chunk))) >>= λ vector.
    ok (not (dim == vector_dim), vector)

-- The flag tells whether a dimension differed.
pub parse_chunks : ℕ → ℕ → List (List ℕ) → Result ParseError (Bool × List (List ℕ))
unfolding parse_chunk
parse_chunks size vector_dim [] = ok (false, [])
parse_chunks size vector_dim (chunk ∷ rest) = parse_chunk size vector_dim chunk >>= λ first.
    parse_chunks size vector_dim rest >>= λ more. ok (first.0 || more.0, first.1 ∷ more.1)

abbrev pub checked : Bool × List (List ℕ) → Result ParseError (List (List ℕ))
checked (true, vectors) = err varying_dimensions
checked (false, vectors) = ok vectors

-- Four bytes for the dimension and four for each element, whatever the size of an element is.
unfoldable pub parse_vecs : ℕ → List ℕ → Count → Result ParseError (List (List ℕ))
unfolding parse_chunks
parse_vecs size file count = read_number 4 (take 4 file) >>= λ vector_dim.
    parse_chunks size vector_dim (take (as_usize count) (chunks ((vector_dim + 1) * 4) file))
    >>= checked
