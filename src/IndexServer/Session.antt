-- ===== src/IndexServer/Session.antt =====
-- One indexing session: `initialize_index` and `create_streaming_usearch_index` of
-- lantern_cli/src/external_index/server.rs. Parameters: the usearch index, what the worker threads
-- make of the rows (`run_workers`, proved about in Workers), and the bytes of the saved index file.
-- Log messages and timings are left out.
pub mod Written
pub mod Reply
use lanterndb.Prelude.{
  ℕ, zero, suc, Bool, Option, none, some, List, [], ◌∷◌, length, take, drop, Result, ok, err,
  and_then, map_err,
}
use lanterndb.Bytes.{to_le_bytes}
use lanterndb.IndexServer.Protocol.{
  Connection, ProtocolMessage, init, payload, exit, ServerError, io, index_failed, init_first,
  write_panicked, worker_panicked, protocol_header_size, protocol_version, server_type, init_msg,
  index_header_length, read_frame,
}
use lanterndb.IndexServer.Options.{IndexOptions, parse_index_options}
use lanterndb.IndexServer.Rows.{Row, UsearchIndex, Receiving, receive_rows}

-- What a session calls besides the connection: `Index::new`, the threads that add the rows (with
-- the element bits), and the file that `save` writes.
pub record Backend (I : Type 0) : Type 0 where
  pub create : IndexOptions → Result ℕ I
  pub run_workers : I → List Row → ℕ → Option I
  pub save : I → Result ℕ (List ℕ)

module _ {S I : Type 0} (c : Connection S) (ix : UsearchIndex I) (b : Backend I)
    (is_open : ℕ → Bool) where
  abbrev index_result : {A : Type 0} → Result ℕ A → S → Result ServerError A × S
  index_result (ok a) s = (ok a, s)
  index_result (err e) s = (err (index_failed e), s)

  -- `write_data(&[0]).unwrap()`
  abbrev acknowledged : ℕ → I → Result ℕ ℕ × S → Result ServerError (ℕ × I) × S
  acknowledged element_bits index (ok n, s) = (ok (element_bits, index), s)
  acknowledged element_bits index (err e, s) = (err write_panicked, s)

  pub create_index : IndexOptions × ℕ × ℕ → S → Result ServerError (ℕ × I) × S
  create_index (options, element_bits, estimated_capacity) s =
      and_then (index_result (b.create options) s) (λ index s₁.
        and_then (index_result (ix.reserve index estimated_capacity) s₁)
          (λ index' s₂. acknowledged element_bits index' (c.write_data s₂ (0 ∷ []))))

  abbrev after_options :
      Option (Result ServerError (IndexOptions × ℕ × ℕ) × S)
      → Option (Result ServerError (ℕ × I) × S)
  after_options none = none
  after_options (some (ok options, s)) = some (create_index options s)
  after_options (some (err e, s)) = some (err e, s)

  unfoldable pub on_init :
      ℕ → Result ServerError ProtocolMessage × S → Option (Result ServerError (ℕ × I) × S)
  unfolding create_index
  on_init fuel (ok (init buf), s) =
      after_options
        (parse_index_options c fuel s (drop protocol_header_size (take index_header_length buf)))
  on_init fuel (ok _, s) = some (err init_first, s)
  on_init fuel (err e, s) = some (err e, s)

  abbrev greeting : S → Result ServerError ℕ × S
  greeting s =
      and_then (map_err io (c.write_data s (to_le_bytes 4 protocol_version)))
        (λ _ s₁. map_err io (c.write_data s₁ (to_le_bytes 4 server_type)))

  abbrev after_greeting : ℕ → Result ServerError ℕ × S → Option (Result ServerError (ℕ × I) × S)
  after_greeting fuel (ok _, s) =
      on_init fuel (read_frame c s index_header_length index_header_length (some init_msg))
  after_greeting fuel (err e, s) = some (err e, s)

  -- The fuel is that of the loop that reads the codebook.
  unfoldable pub initialize_index : ℕ → S → Option (Result ServerError (ℕ × I) × S)
  unfolding on_init
  initialize_index fuel s = after_greeting fuel (greeting s)

  -- The count of the rows, the length of the file and the file.
  pub send_index : I → S → Result ServerError (Unit {0}) × S
  send_index index s =
      and_then (map_err io (c.write_data s (to_le_bytes 8 (ix.size index)))) (λ _ s₁.
        and_then (index_result (b.save index) s₁) (λ file s₂.
          and_then (map_err io (c.write_data s₂ (to_le_bytes 8 (length file))))
            (λ _ s₃. map_err io (c.write_data_all s₃ file))))

  abbrev after_workers : Option I → S → Result ServerError (Unit {0}) × S
  after_workers none s = (err worker_panicked, s)
  after_workers (some index) s = send_index index s

  pub finish_index : ℕ → Receiving S I → Result ServerError (Unit {0}) × S
  unfolding send_index
  finish_index element_bits r = after_workers (b.run_workers r.index r.sent element_bits) r.stream

  abbrev after_rows :
      ℕ
      → Option (Result ServerError (Unit {0}) × Receiving S I)
      → Option (Result ServerError (Unit {0}) × S)
  after_rows element_bits none = none
  after_rows element_bits (some (ok _, r)) = some (finish_index element_bits r)
  after_rows element_bits (some (err e, r)) = some (err e, r.stream)

  abbrev after_init :
      ℕ → Option (Result ServerError (ℕ × I) × S) → Option (Result ServerError (Unit {0}) × S)
  after_init fuel none = none
  after_init fuel (some (ok (element_bits, index), s)) =
      after_rows element_bits (receive_rows c ix is_open fuel s index element_bits)
  after_init fuel (some (err e, s)) = some (err e, s)

  unfoldable pub create_streaming_usearch_index : ℕ → S → Option (Result ServerError (Unit {0}) × S)
  unfolding initialize_index finish_index
  create_streaming_usearch_index fuel s = after_init fuel (initialize_index fuel s)
