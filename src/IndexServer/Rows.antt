-- ===== src/IndexServer/Rows.antt =====
-- Receiving the rows to index: `parse_tuple` and `receive_rows` of
-- lantern_cli/src/external_index/server.rs. The usearch index is a parameter, and so is whether the
-- channel to the workers still has a receiver; log messages and timings are left out.
pub mod Sound
pub mod Complete
pub mod Exact
pub mod Capacity
pub mod Labels
use lanterndb.Prelude.{
  ℕ, zero, suc, ◌+◌, ◌*◌, ◌/◌, ◌%◌, ◌^◌, Bool, Option, none, some, List, [], ◌∷◌, ◌++◌, ltb, ◌==◌,
  if◌then◌else◌, length, take, drop, Result, ok, err, and_then, map_err,
}
use lanterndb.Bytes.{from_le_bytes}
use lanterndb.IndexServer.Protocol.{
  Connection, ProtocolMessage, init, payload, exit, ServerError, index_failed, invalid_message,
  channel_closed, char_bits, label_size, read_frame,
}

-- A label and the bytes of its vector.
pub record Row : Type 0 where
  pub label : ℕ
  pub vec : List ℕ

-- The slices are in bounds for a frame of at least `label_size` bytes.
unfoldable pub parse_tuple : List ℕ → Row
parse_tuple buf = record { label = from_le_bytes (take label_size buf); vec = drop label_size buf }

-- usearch's index: `reserve`, `add` and `size` as the server calls them, an error as its code.
pub record UsearchIndex (I : Type 0) : Type 0 where
  pub dimensions : I → ℕ
  pub capacity : I → ℕ
  pub size : I → ℕ
  pub reserve : I → ℕ → Result ℕ I
  pub add_raw : I → Row → ℕ → Result ℕ I

-- `usize` of the 64-bit targets.
abbrev pub usize_mod : ℕ
usize_mod = 2 ^ 64

abbrev pub div_ceil : ℕ → ℕ → ℕ
div_ceil n d = n / d + (if n % d == 0 then 0 else 1)

unfoldable pub expected_payload_size : ℕ → ℕ → ℕ
expected_payload_size dimensions element_bits =
    if ltb element_bits char_bits
    then label_size + div_ceil dimensions char_bits
    else label_size + dimensions * (element_bits / char_bits)

-- The variables of the loop, the connection, the index, and the rows sent to the workers so far.
pub record Receiving (S I : Type 0) : Type 0 where
  pub stream : S
  pub index : I
  pub current_capacity : ℕ
  pub received_rows : ℕ
  pub sent : List Row

abbrev pub Outcome : Type 0 → Type 0 → Type 0
Outcome S I = Result ServerError (Unit {0}) × Receiving S I

module _ {S I : Type 0} (c : Connection S) (ix : UsearchIndex I) (is_open : ℕ → Bool) where
  pub reserved : Receiving S I → Result ServerError I → Outcome S I
  reserved r (ok index) = (ok tt, record r { index = index })
  reserved r (err e) = (err e, r)

  abbrev pub as_index_error : Result ℕ I → Result ServerError I
  as_index_error (ok index) = ok index
  as_index_error (err e) = err (index_failed e)

  -- Doubles the capacity when all of it is used.
  pub make_room : Receiving S I → Outcome S I
  unfolding reserved
  make_room r =
      let doubled = (r.current_capacity * 2) % usize_mod in
      if r.received_rows == r.current_capacity
      then reserved (record r { current_capacity = doubled })
          (as_index_error (ix.reserve r.index doubled))
      else (ok tt, r)

  -- Counts a row and sends it to the workers.
  pub send_row : Row → Receiving S I → Outcome S I
  send_row row r =
      let counted = record r { received_rows = r.received_rows + 1 } in
      if is_open (length r.sent)
      then (ok tt, record counted { sent = r.sent ++ row ∷ [] })
      else (err channel_closed, counted)

  unfoldable pub accept_row : List ℕ → Receiving S I → Outcome S I
  unfolding make_room send_row
  accept_row buf r = and_then (make_room r) (λ _ r'. send_row (parse_tuple buf) r')

  abbrev pub continue_with :
      (Receiving S I → Option (Outcome S I)) → Outcome S I → Option (Outcome S I)
  continue_with loop (ok _, r) = loop r
  continue_with loop (err e, r) = some (err e, r)

  pub on_message :
      (Receiving S I → Option (Outcome S I))
      → Receiving S I
      → Result ServerError ProtocolMessage × S
      → Option (Outcome S I)
  on_message loop r (ok exit, s) = some (ok tt, record r { stream = s })
  on_message loop r (ok (payload buf), s) =
      continue_with loop (accept_row buf (record r { stream = s }))
  on_message loop r (ok (init buf), s) = some (err invalid_message, record r { stream = s })
  on_message loop r (err e, s) = some (err e, record r { stream = s })

  -- The loop, on fuel: `none` means that the fuel ran out.
  unfoldable pub receive_loop : ℕ → ℕ → Receiving S I → Option (Outcome S I)
  unfolding on_message accept_row
  receive_loop zero size r = none
  receive_loop (suc fuel) size r =
      on_message (receive_loop fuel size) r (read_frame c r.stream size size none)

  unfoldable pub receive_rows : ℕ → S → I → ℕ → Option (Outcome S I)
  unfolding receive_loop
  receive_rows fuel stream index element_bits =
      receive_loop fuel (expected_payload_size (ix.dimensions index) element_bits) (record {
        stream = stream;
        index = index;
        current_capacity = ix.capacity index;
        received_rows = 0;
        sent = [];
      })
