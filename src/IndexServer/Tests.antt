-- ===== src/IndexServer/Tests.antt =====
-- The theorems on the rows of lantern_cli/src/external_index/server.rs at concrete inputs.
use lanterndb.Bytes.{from_le_bytes}
use lanterndb.IndexServer.Rows.{parse_tuple}
use lanterndb.Prelude.{
  ℕ, ◌≤◌, ◌≡◌, refl, some, List, [], ◌∷◌, ◌++◌, arith, length, concat, map, ok, All,
}
use lanterndb.Bytes.{to_le_bytes, from_le_bytes}
use lanterndb.IndexServer.Protocol.{end_msg, header, read_frame}
use lanterndb.IndexServer.Rows.{
  Row, Receiving, Outcome, accept_row, receive_rows, parse_tuple, expected_payload_size,
}
use lanterndb.IndexServer.Rows.Sound.{receive_rows_sound, receive_rows-returns}
use lanterndb.IndexServer.Rows.Capacity.{HasRoom, receive_rows-HasRoom}
use lanterndb.IndexServer.Rows.Complete.{receive_rows_complete}
use lanterndb.IndexServer.Rows.Exact.{Delivered}
use lanterndb.IndexServer.Rows.Labels.{
  frames-of-rows, encode_row, receive_rows-encode_row, end_label_ends_stream,
}
use lanterndb.IndexServer.Samples.{
  Socket, socket, pending, socket_of, socket-IsStream, socket-IsPrompt, Index, indexes,
  open_channel, indexes-IsReserving, indexes-IsReady, row_a, row_b, two_rows, empty_index, received,
}

receives :
    receive_rows socket indexes open_channel 30 two_rows empty_index 8 ≡ some (ok tt, received)
unfolding receive_rows accept_row read_frame expected_payload_size parse_tuple from_le_bytes
receives = refl

receive_rows_sound_example :
    (frames : List (List ℕ)) × (last : List ℕ) × (received.sent ≡ map parse_tuple frames)
    × All (λ buf. length buf ≡ expected_payload_size 1 8) frames
    × (pending two_rows ≡ concat frames ++ (last ++ []))
    × (4 ≤ length last)
    × (header last ≡ end_msg)
receive_rows_sound_example =
    receive_rows_sound socket indexes open_channel pending socket-IsStream 30 two_rows empty_index 8
      received receives

receive_rows-returns_example :
    (o : Outcome Socket Index) × (receive_rows socket indexes open_channel 30 two_rows empty_index 8
      ≡ some o)
receive_rows-returns_example =
    receive_rows-returns socket indexes open_channel pending socket-IsStream 30 two_rows empty_index
      8 (omega arith)

receive_rows-HasRoom_example : HasRoom indexes received
receive_rows-HasRoom_example =
    receive_rows-HasRoom socket indexes open_channel indexes-IsReserving 30 two_rows empty_index 8
      received (omega arith) (omega arith) receives

receive_rows-encode_row_example :
    Delivered
      (receive_rows socket indexes open_channel 3 two_rows empty_index 8)
      (row_a ∷ row_b ∷ [])
unfolding expected_payload_size to_le_bytes
receive_rows-encode_row_example =
    receive_rows-encode_row socket indexes open_channel pending socket-IsStream 3
      (row_a ∷ row_b ∷ []) [] two_rows empty_index 8 (omega arith)
      (
        (omega arith, refl, (λ e. omega arith), λ e. omega arith),
        ((omega arith, refl, (λ e. omega arith), λ e. omega arith), tt),
      )
      refl

-- The label is the end mark.
abbrev marked_row : Row
marked_row = record { label = 0x31333337; vec = 5 ∷ [] }

abbrev marked_rows : Socket
marked_rows =
    socket_of
      (concat (map encode_row (row_a ∷ [])) ++ concat (map encode_row (marked_row ∷ row_b ∷ [])))

end_label_ends_stream_example :
    Delivered (receive_rows socket indexes open_channel 3 marked_rows empty_index 8) (row_a ∷ [])
unfolding expected_payload_size
end_label_ends_stream_example =
    end_label_ends_stream socket indexes open_channel pending socket-IsStream 3 (row_a ∷ [])
      marked_row (row_b ∷ []) marked_rows empty_index 8 (omega arith)
      ((omega arith, refl, (λ e. omega arith), λ e. omega arith), tt) refl refl

-- A connection whose reads give all that was sent, and an index that grants its reservations.
whole_reads :
    (r' : Receiving Socket Index) × (receive_rows socket indexes open_channel 3 two_rows empty_index
        8
      ≡ some (ok tt, r'))
    × (r'.sent ≡ row_a ∷ row_b ∷ [])
unfolding expected_payload_size to_le_bytes from_le_bytes parse_tuple
whole_reads =
    receive_rows_complete socket indexes open_channel pending socket-IsStream socket-IsPrompt
      indexes-IsReady 3 (encode_row row_a ∷ encode_row row_b ∷ []) (to_le_bytes 4 0x31333337)
      two_rows empty_index 8 (omega arith)
      (frames-of-rows 9 (row_a ∷ row_b ∷ []) (
        (omega arith, refl, (λ e. omega arith), λ e. omega arith),
        ((omega arith, refl, (λ e. omega arith), λ e. omega arith), tt),
      )).1
      refl (omega arith) refl
