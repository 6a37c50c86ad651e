-- ===== src/IndexServer/Options.antt =====
-- The parameters of an index as the client sends them: `parse_index_options`,
-- `bytes_to_f32_vec_le` and the metric kinds of lantern_cli/src/external_index/server.rs and
-- lantern_cli/src/external_index/cli.rs. A float is its bit pattern, a `u32`.
pub mod Header
use lanterndb.Prelude.{
  ℕ, zero, suc, ◌*◌, ◌≡◌, refl, Bool, true, false, Option, none, some, List, [], ◌∷◌, ◌++◌, ◌==◌,
  leb, if◌then◌else◌, length, take, drop, Result, ok, err, ◌>>=◌,
}
use lanterndb.Bytes.{from_le_bytes}
use lanterndb.IndexServer.Protocol.{
  Connection, ProtocolMessage, init, payload, exit, ServerError, invalid_message,
  invalid_quantization, invalid_metric, integer_size, read_frame,
}

pub data ScalarKind : Type 0 where
  f32 f64 f16 i8 b1 : ScalarKind

pub data MetricKind : Type 0 where
  l2sq cos hamming : MetricKind

pub record IndexOptions : Type 0 where
  pub dimensions : ℕ
  pub metric : MetricKind
  pub quantization : ScalarKind
  pub multi : Bool
  pub connectivity : ℕ
  pub expansion_add : ℕ
  pub expansion_search : ℕ
  pub num_threads : ℕ
  pub pq_construction : Bool
  pub pq_output : Bool
  pub num_centroids : ℕ
  pub num_subvectors : ℕ
  pub codebook : Option (List ℕ)

unfoldable pub from_u32 : ℕ → Result ServerError MetricKind
from_u32 metric_kind =
    if metric_kind == 3
    then ok l2sq
    else if metric_kind == 1
    then ok cos
    else if metric_kind == 8
    then ok hamming
    else err invalid_metric

unfoldable pub scalar_kind : ℕ → Result ServerError ScalarKind
scalar_kind quantization =
    if leb quantization 1
    then ok f32
    else if quantization == 2
    then ok f64
    else if quantization == 3
    then ok f16
    else if quantization == 4
    then ok i8
    else if quantization == 5
    then ok b1
    else err invalid_quantization

-- `chunks_exact(4)`: what is left at the end is dropped.
unfoldable pub bytes_to_f32_vec_le : List ℕ → List ℕ
bytes_to_f32_vec_le (a ∷ b ∷ c ∷ d ∷ rest) =
    from_le_bytes (a ∷ b ∷ c ∷ d ∷ []) ∷ bytes_to_f32_vec_le rest
bytes_to_f32_vec_le _ = []

-- The `i`th parameter of the header.
unfoldable pub param : List ℕ → ℕ → ℕ
param buf i = from_le_bytes (take integer_size (drop (integer_size * i) buf))

-- The quantization is checked before the metric.
unfoldable pub kinds : ℕ → ℕ → Result ServerError (ScalarKind × MetricKind)
unfolding scalar_kind from_u32
kinds quantization metric_kind = do
  quantization' ← scalar_kind quantization
  metric ← from_u32 metric_kind
  ok (quantization', metric)

module _ {S : Type 0} (c : Connection S) where
  pub on_codebook_message :
      (S → List ℕ → Option (Result ServerError (List ℕ) × S))
      → List ℕ
      → Result ServerError ProtocolMessage × S
      → Option (Result ServerError (List ℕ) × S)
  on_codebook_message loop codebook (ok exit, s) = some (ok codebook, s)
  on_codebook_message loop codebook (ok (payload buf), s) =
      loop s (codebook ++ bytes_to_f32_vec_le buf)
  on_codebook_message loop codebook (ok (init buf), s) = some (err invalid_message, s)
  on_codebook_message loop codebook (err e, s) = some (err e, s)

  -- The loop that reads the codebook, on fuel.
  unfoldable pub codebook_loop : ℕ → ℕ → S → List ℕ → Option (Result ServerError (List ℕ) × S)
  unfolding on_codebook_message
  codebook_loop zero size s codebook = none
  codebook_loop (suc fuel) size s codebook =
      on_codebook_message (codebook_loop fuel size) codebook (read_frame c s size size none)

  abbrev options_with :
      List ℕ → Bool → MetricKind → ScalarKind → Option (List ℕ) → IndexOptions × ℕ × ℕ
  options_with buf pq metric quantization codebook = (
    record {
      dimensions = param buf 3;
      metric = metric;
      quantization = quantization;
      multi = false;
      connectivity = param buf 4;
      expansion_add = param buf 5;
      expansion_search = param buf 6;
      num_threads = 0;
      pq_construction = pq;
      pq_output = pq;
      num_centroids = param buf 7;
      num_subvectors = param buf 8;
      codebook = codebook;
    },
    param buf 10,
    param buf 9,
  )

  abbrev with_codebook :
      (List ℕ → IndexOptions × ℕ × ℕ)
      → Option (Result ServerError (List ℕ) × S)
      → Option (Result ServerError (IndexOptions × ℕ × ℕ) × S)
  with_codebook make none = none
  with_codebook make (some (ok codebook, s)) = some (ok (make codebook), s)
  with_codebook make (some (err e, s)) = some (err e, s)

  unfoldable pub read_options :
      ℕ
      → S
      → List ℕ
      → Result ServerError (ScalarKind × MetricKind)
      → Option (Result ServerError (IndexOptions × ℕ × ℕ) × S)
  unfolding codebook_loop
  read_options fuel s buf (err e) = some (err e, s)
  read_options fuel s buf (ok (quantization, metric)) =
      let pq = param buf 0 == 1 in
      if pq
      then with_codebook (λ codebook. options_with buf pq metric quantization (some codebook))
          (codebook_loop fuel (param buf 3 * integer_size) s [])
      else some (ok (options_with buf pq metric quantization none), s)

  -- The options, the element bits and the estimated capacity. The codebook is kept as a value: in
  -- the source it is a pointer.
  unfoldable pub parse_index_options :
      ℕ → S → List ℕ → Option (Result ServerError (IndexOptions × ℕ × ℕ) × S)
  unfolding read_options kinds
  parse_index_options fuel s buf = read_options fuel s buf (kinds (param buf 2) (param buf 1))
