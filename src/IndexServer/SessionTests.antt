-- ===== src/IndexServer/SessionTests.antt =====
-- The theorems on the options, the workers, the session and the status of
-- lantern_cli/src/external_index/server.rs at concrete inputs.
use lanterndb.Prelude.{
  ℕ, ◌+◌, ◌^◌, ◌<◌, ◌≡◌, refl, some, List, [], ◌∷◌, ◌++◌, arith, length, map, Result, ok, err, All,
}
use lanterndb.Bytes.{to_le_bytes}
use lanterndb.IndexServer.Protocol.{ServerError, init_first, init_msg}
use lanterndb.IndexServer.Rows.{Row, UsearchIndex}
use lanterndb.IndexServer.Options.{parse_index_options, scalar_kind, from_u32, l2sq, f32}
use lanterndb.IndexServer.Options.Header.{
  Header, words, encode_header, plain_options, parse_index_options-encode_header,
}
use lanterndb.IndexServer.Workers.{Pool, started, Reach, send, take_row, fail, here, next}
use lanterndb.IndexServer.Session.{Backend}
use lanterndb.IndexServer.Samples.{
  Socket, socket, socket_of, Index, row_a, row_b, two_rows, empty_index,
}

abbrev plain_header : Header
plain_header = record {
  pq = 0;
  metric_kind = 3;
  quantization = 1;
  dim = 128;
  m = 16;
  ef_construction = 64;
  ef = 32;
  num_centroids = 0;
  num_subvectors = 0;
  estimated_capacity = 1000;
  element_bits = 8;
}

small_words : All (λ w. w < 2 ^ 32) (words plain_header)
small_words = (
  omega arith,
  (
    omega arith,
    (
      omega arith,
      (
        omega arith,
        (
          omega arith,
          (
            omega arith,
            (omega arith, (omega arith, (omega arith, (omega arith, (omega arith, tt))))),
          ),
        ),
      ),
    ),
  ),
)

parse_index_options-encode_header_example :
    parse_index_options socket 0 (socket_of []) (encode_header plain_header)
    ≡ some (ok (plain_options plain_header l2sq f32, 8, 1000), socket_of [])
unfolding scalar_kind from_u32
parse_index_options-encode_header_example =
    parse_index_options-encode_header socket 0 (socket_of []) plain_header l2sq f32 small_words
      (λ e. omega arith) refl refl

-- An index that refuses every row.
abbrev full_indexes : UsearchIndex Index
full_indexes = record {
  dimensions = λ _. 1;
  capacity = λ i. i.room;
  size = λ i. length i.labels;
  reserve = λ i n. ok i;
  add_raw = λ i row bits. err 12;
}

abbrev sent_pool : Pool Index
sent_pool = record (started empty_index 1) { queue = row_a ∷ []; sent = row_a ∷ [] }

abbrev busy_pool : Pool Index
busy_pool = record sent_pool { queue = []; idle = 0; busy = row_a ∷ [] }

abbrev failed_pool : Pool Index
failed_pool = record busy_pool { busy = []; lost = row_a ∷ [] }

abbrev waiting_pool : Pool Index
waiting_pool = record failed_pool { queue = row_b ∷ []; sent = row_a ∷ row_b ∷ [] }

failing : Reach full_indexes 8 (started empty_index 1) failed_pool
failing =
    next
      (next (next here (send (started empty_index 1) row_a refl (omega arith)))
        (take_row sent_pool row_a [] 0 refl refl))
      (fail busy_pool [] [] row_a 12 refl refl)

abbrev backend : Backend Index
backend = record {
  create = λ _. ok (record { room = 0; labels = [] });
  run_workers = λ i rows bits. some (record i { labels = map (λ (r : Row). r.label) rows });
  save = λ i. ok i.labels;
}

abbrev session_input : Socket
session_input =
    socket_of (to_le_bytes 4 init_msg ++ (encode_header plain_header ++ (two_rows.incoming)))

abbrev session_end : Socket
session_end = record {
  incoming = [];
  outgoing =
      (1 ∷ 0 ∷ 0 ∷ 0 ∷ [])
      ++ ((1 ∷ 0 ∷ 0 ∷ 0 ∷ [])
          ++ ((0 ∷ [])
              ++ ((2 ∷ 0 ∷ 0 ∷ 0 ∷ 0 ∷ 0 ∷ 0 ∷ 0 ∷ [])
                  ++ ((2 ∷ 0 ∷ 0 ∷ 0 ∷ 0 ∷ 0 ∷ 0 ∷ 0 ∷ []) ++ (7 ∷ 9 ∷ [])))));
}

abbrev refusing : Socket → Result ServerError (Unit {0}) × Socket
refusing s = (err init_first, s)

abbrev text_of : ServerError → List ℕ
text_of _ = 101 ∷ 114 ∷ 114 ∷ []

abbrev clock : ℕ → ℕ
clock n = 100 + n
