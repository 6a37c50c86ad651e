-- ===== src/IndexServer/Protocol.antt =====
-- The frames of the indexing protocol: the constants, the `Connection` trait and `read_frame` of
-- lantern_cli/src/external_index/server.rs. A connection's implementation (a socket, with or
-- without TLS) is a parameter; an I/O error is a number, its code.
pub mod Framing
pub mod Prompt
use lanterndb.Prelude.{
  ℕ, ◌-◌, ◌*◌, Bool, true, Option, none, some, List, ◌++◌, ltb, ◌==◌, if◌then◌else◌, length, take,
  replicate, Result, ok, err, and_then, map_err,
}
use lanterndb.Bytes.{from_le_bytes}

abbrev pub char_bits : ℕ
char_bits = 8

abbrev pub label_size : ℕ
label_size = 8

abbrev pub integer_size : ℕ
integer_size = 4

abbrev pub protocol_header_size : ℕ
protocol_header_size = 4

abbrev pub protocol_version : ℕ
protocol_version = 1

abbrev pub server_type : ℕ
server_type = 0x1

abbrev pub init_msg : ℕ
init_msg = 0x13333337

abbrev pub end_msg : ℕ
end_msg = 0x31333337

abbrev pub err_msg : ℕ
err_msg = 0x37333337

abbrev pub index_header_length : ℕ
index_header_length = integer_size * 12

-- What makes an indexing session fail, with the code of a failed I/O or index operation.
pub data ServerError : Type 0 where
  io : ℕ → ServerError
  index_failed : ℕ → ServerError
  invalid_frame invalid_header invalid_message init_first : ServerError
  invalid_quantization invalid_metric channel_closed worker_panicked write_panicked : ServerError

-- `read_data c n` reads into a buffer of `n` bytes and gives the bytes that were read.
pub record Connection (S : Type 0) : Type 0 where
  pub read_data : S → ℕ → Result ℕ (List ℕ) × S
  pub read_data_exact : S → ℕ → Result ℕ (List ℕ) × S
  pub write_data : S → List ℕ → Result ℕ ℕ × S
  pub write_data_all : S → List ℕ → Result ℕ (Unit {0}) × S

pub data ProtocolMessage : Type 0 where
  init : List ℕ → ProtocolMessage
  payload : List ℕ → ProtocolMessage
  exit : ProtocolMessage

-- What the buffer of `size` zeros holds after `bs` has been read into its front.
abbrev pub filled : ℕ → List ℕ → List ℕ
filled size bs = bs ++ replicate (size - length bs) 0

-- The header of a frame, its first four bytes.
abbrev pub header : List ℕ → ℕ
header bs = from_le_bytes (take protocol_header_size bs)

abbrev pub message : ℕ → List ℕ → ProtocolMessage
message msg buf = if msg == init_msg then init buf else payload buf

abbrev pub is_wanted : Option ℕ → ℕ → Bool
is_wanted none msg = true
is_wanted (some wanted) msg = msg == wanted

module _ {S : Type 0} (c : Connection S) where
  -- The rest of the frame, after a first read that gave `bs`.
  pub finish_frame : ℕ → ℕ → List ℕ → S → Result ServerError ProtocolMessage × S
  finish_frame size expected_size bs s =
      if ltb (length bs) expected_size
      then and_then (map_err io (c.read_data_exact s (size - length bs)))
          (λ rest s'. (ok (message (header bs) (bs ++ rest)), s'))
      else (ok (message (header bs) (filled size bs)), s)

  -- The decisions of `read_frame` once a first read has given `bs`.
  pub frame_of : ℕ → ℕ → Option ℕ → List ℕ → S → Result ServerError ProtocolMessage × S
  unfolding finish_frame
  frame_of size expected_size match_header bs s =
      if ltb (length bs) protocol_header_size
      then (err invalid_frame, s)
      else if header bs == end_msg
      then (ok exit, s)
      else if is_wanted match_header (header bs)
      then finish_frame size expected_size bs s
      else (err invalid_header, s)

  unfoldable pub read_frame : S → ℕ → ℕ → Option ℕ → Result ServerError ProtocolMessage × S
  unfolding frame_of
  read_frame s size expected_size match_header =
      and_then (map_err io (c.read_data s size)) (frame_of size expected_size match_header)
