-- ===== src/IndexServer/Rows/Labels.antt =====
-- Rows as the client sends them, and what `receive_rows` of
-- lantern_cli/src/external_index/server.rs makes of their labels.
use lanterndb.Prelude.{
  ℕ, ◌+◌, ◌%◌, ◌^◌, ◌≤◌, ◌<◌, ◌≡◌, ◌≢◌, refl, ap, ◌∙◌, sym, Bool, List, [], ◌∷◌, ◌++◌, map, arith,
  length, concat, All, take, length-append, take-append, drop-append, append-nil, length-map,
}
use lanterndb.Bytes.{from_le_bytes, to_le_bytes, length-to_le_bytes, from_le_bytes-to_le_bytes}
use lanterndb.IndexServer.Protocol.{Connection, header, end_msg, init_msg}
use lanterndb.IndexServer.Protocol.Framing.{IsStream, take_front}
use lanterndb.IndexServer.Rows.Exact.{Delivered, receive_rows-Delivered}
use mathlib.Core.Path.{subst}
use lanterndb.IndexServer.Rows.{Row, parse_tuple, UsearchIndex, receive_rows, expected_payload_size}
use lanterndb.IndexServer.Rows.Complete.{IsRowFrame}

-- The frame of a row: its label, eight bytes, and its vector.
abbrev pub encode_row : Row → List ℕ
encode_row row = to_le_bytes 8 row.label ++ row.vec

abbrev pub low_word : ℕ → ℕ
low_word label = label % 2 ^ 32

-- A row of the expected size whose label's low word is none of the two marks.
abbrev pub IsPlainRow : ℕ → Row → Type 0
IsPlainRow size row =
    (row.label < 2 ^ 64)
    × (8 + length row.vec ≡ size)
    × (low_word row.label ≢ end_msg)
    × (low_word row.label ≢ init_msg)

header_word : (n : ℕ) → from_le_bytes (take 4 (to_le_bytes 8 n)) ≡ low_word n
unfolding to_le_bytes from_le_bytes
header_word n = omega arith

pub header-encode_row :
    (row : Row) (more : List ℕ) → header (encode_row row ++ more) ≡ low_word row.label
header-encode_row row more =
    ap from_le_bytes (
      take_front 4 (encode_row row) more long
      ∙ take_front 4 (to_le_bytes 8 row.label) row.vec
          (omega (arith, length-to_le_bytes 8 row.label)))
    ∙ header_word row.label
  where
    long : 4 ≤ length (encode_row row)
    long =
        omega
          (arith, length-to_le_bytes 8 row.label, length-append (to_le_bytes 8 row.label) row.vec)

pub parse_tuple-encode_row : (row : Row) → row.label < 2 ^ 64 → parse_tuple (encode_row row) ≡ row
unfolding parse_tuple
parse_tuple-encode_row row h =
    let len = length-to_le_bytes 8 row.label in
    ground (
      arith,
      take-append 8 (to_le_bytes 8 row.label) row.vec len,
      drop-append 8 (to_le_bytes 8 row.label) row.vec len,
      from_le_bytes-to_le_bytes 8 row.label h,
    )

pub frames-of-rows :
    (size : ℕ) (rows : List Row) (h : All (IsPlainRow size) rows)
    → (map parse_tuple (map encode_row rows) ≡ rows) × All (IsRowFrame size) (map encode_row rows)
frames-of-rows size [] h = (refl, tt)
frames-of-rows size (row ∷ rows) h =
    let ih = frames-of-rows size rows h.1 in
    let word = ap header (sym (append-nil (encode_row row))) ∙ header-encode_row row [] in
    (
      cc (parse_tuple-encode_row row h.0.0, ih.0),
      (
        (
          omega (
            arith,
            h.0.1,
            length-append (to_le_bytes 8 row.label) row.vec,
            length-to_le_bytes 8 row.label,
          ),
          λ e. h.0.2 (sym word ∙ e),
          λ e. h.0.3 (sym word ∙ e),
        ),
        ih.1,
      ),
    )

module _ {S I : Type 0} (c : Connection S) (ix : UsearchIndex I) (is_open : ℕ → Bool)
    (pending : S → List ℕ) (st : IsStream c pending) where
  -- On a connection whose reads give the bytes in the order in which the peer sends them, however
  -- they cut them: rows of the expected size, whose labels' low words are none of the two marks,
  -- followed by an end mark, go to the workers as they were sent, in order; or receiving returns an
  -- error, and the rows that went are the first of them. It never succeeds with fewer or other rows.
  pub receive_rows-encode_row :
      (fuel : ℕ) (rows : List Row) (more : List ℕ) (stream : S) (index : I) (element_bits : ℕ)
      → length rows < fuel
      → All (IsPlainRow (expected_payload_size (ix.dimensions index) element_bits)) rows
      → pending stream ≡ concat (map encode_row rows) ++ (to_le_bytes 4 end_msg ++ more)
      → Delivered (receive_rows c ix is_open fuel stream index element_bits) rows
  unfolding to_le_bytes from_le_bytes
  receive_rows-encode_row fuel rows more stream index element_bits enough plain split =
      let f =
        frames-of-rows (expected_payload_size (ix.dimensions index) element_bits) rows plain in
      subst (Delivered (receive_rows c ix is_open fuel stream index element_bits)) f.0 (
        receive_rows-Delivered c ix is_open pending st fuel (map encode_row rows)
          (to_le_bytes 4 end_msg ++ more) stream index element_bits
          (omega (arith, length-map encode_row rows)) f.1 split (omega arith) refl)

  -- On such a connection, a row whose label's low word is the end mark ends the stream: receiving
  -- succeeds with the rows before it only, or returns an error after some of them. That row and all
  -- that follow it are lost.
  pub end_label_ends_stream :
      (fuel : ℕ) (rows : List Row) (row : Row) (more : List Row) (stream : S) (index : I)
      (element_bits : ℕ)
      → length rows < fuel
      → All (IsPlainRow (expected_payload_size (ix.dimensions index) element_bits)) rows
      → low_word row.label ≡ end_msg
      → pending stream ≡ concat (map encode_row rows) ++ concat (map encode_row (row ∷ more))
      → Delivered (receive_rows c ix is_open fuel stream index element_bits) rows
  end_label_ends_stream fuel rows row more stream index element_bits enough plain mark split =
      let f =
        frames-of-rows (expected_payload_size (ix.dimensions index) element_bits) rows plain in
      subst (Delivered (receive_rows c ix is_open fuel stream index element_bits)) f.0 (
        receive_rows-Delivered c ix is_open pending st fuel (map encode_row rows)
          (concat (map encode_row (row ∷ more))) stream index element_bits
          (omega (arith, length-map encode_row rows)) f.1 split
          (omega (
            arith,
            length-append (encode_row row) (concat (map encode_row more)),
            length-append (to_le_bytes 8 row.label) row.vec,
            length-to_le_bytes 8 row.label,
          ))
          (header-encode_row row (concat (map encode_row more)) ∙ mark))
