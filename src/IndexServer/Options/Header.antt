-- ===== src/IndexServer/Options/Header.antt =====
-- The header of an index, written by the client and read by `parse_index_options` of
-- lantern_cli/src/external_index/server.rs.
use lanterndb.Prelude.{
  ℕ, ◌^◌, ◌<◌, ◌≡◌, ◌≢◌, ap, false, none, some, List, [], ◌∷◌, arith, ok, concat, map, ◌∙◌, All,
  ◌==◌,
}
use lanterndb.Bytes.{from_le_bytes, to_le_bytes, from_le_bytes-to_le_bytes}
use lanterndb.IndexServer.Protocol.{Connection}
use lanterndb.IndexServer.Options.{
  ScalarKind, MetricKind, IndexOptions, scalar_kind, from_u32, parse_index_options, read_options,
  param, kinds,
}

-- The numbers of the header, in the order of the bytes.
pub record Header : Type 0 where
  pub pq : ℕ
  pub metric_kind : ℕ
  pub quantization : ℕ
  pub dim : ℕ
  pub m : ℕ
  pub ef_construction : ℕ
  pub ef : ℕ
  pub num_centroids : ℕ
  pub num_subvectors : ℕ
  pub estimated_capacity : ℕ
  pub element_bits : ℕ

abbrev pub words : Header → List ℕ
words h =
    h.pq ∷ h.metric_kind ∷ h.quantization ∷ h.dim ∷ h.m ∷ h.ef_construction ∷ h.ef ∷ h.num_centroids
    ∷ h.num_subvectors ∷ h.estimated_capacity ∷ h.element_bits ∷ []

abbrev pub encode_header : Header → List ℕ
encode_header h = concat (map (to_le_bytes 4) (words h))

word_lem : (n : ℕ) → n < 2 ^ 32 → from_le_bytes (to_le_bytes 4 n) ≡ n
word_lem n h = from_le_bytes-to_le_bytes 4 n h

-- The parameter at `i` is the `i`th word of the header.
words_lem :
    (h : Header)
    → All (λ w. w < 2 ^ 32) (words h)
    → let buf = encode_header h in
      (param buf 0 ≡ h.pq)
      × (param buf 1 ≡ h.metric_kind)
      × (param buf 2 ≡ h.quantization)
      × (param buf 3 ≡ h.dim)
      × (param buf 4 ≡ h.m)
      × (param buf 5 ≡ h.ef_construction)
      × (param buf 6 ≡ h.ef)
      × (param buf 7 ≡ h.num_centroids)
      × (param buf 8 ≡ h.num_subvectors)
      × (param buf 9 ≡ h.estimated_capacity)
      × (param buf 10 ≡ h.element_bits)
unfolding to_le_bytes from_le_bytes param
words_lem h small = omega arith

-- The options without product quantization.
abbrev pub plain_options : Header → MetricKind → ScalarKind → IndexOptions
plain_options h metric kind = record {
  dimensions = h.dim;
  metric = metric;
  quantization = kind;
  multi = false;
  connectivity = h.m;
  expansion_add = h.ef_construction;
  expansion_search = h.ef;
  num_threads = 0;
  pq_construction = false;
  pq_output = false;
  num_centroids = h.num_centroids;
  num_subvectors = h.num_subvectors;
  codebook = none;
}

kinds_lem :
    (a b x y : ℕ) (kind : ScalarKind) (metric : MetricKind)
    → a ≡ x
    → b ≡ y
    → scalar_kind x ≡ ok kind
    → from_u32 y ≡ ok metric
    → kinds a b ≡ ok (kind, metric)
unfolding kinds
kinds_lem a b x y kind metric p q s k = rw (p, q) (ground (arith, s, k))

module _ {S : Type 0} (c : Connection S) where
  read_options-plain :
      (fuel : ℕ) (s : S) (buf : List ℕ) (flag : ℕ) (metric : MetricKind) (kind : ScalarKind)
      → param buf 0 ≡ flag
      → flag ≢ 1
      → read_options c fuel s buf (ok (kind, metric))
        ≡ some (
          ok (
            record {
              dimensions = param buf 3;
              metric = metric;
              quantization = kind;
              multi = false;
              connectivity = param buf 4;
              expansion_add = param buf 5;
              expansion_search = param buf 6;
              num_threads = 0;
              pq_construction = false;
              pq_output = false;
              num_centroids = param buf 7;
              num_subvectors = param buf 8;
              codebook = none;
            },
            param buf 10,
            param buf 9,
          ),
          s,
        )
  unfolding read_options
  read_options-plain fuel s buf flag metric kind p no_pq =
      let no_flag : (param buf 0 == 1) ≡ false = ground (arith, p) in rw no_flag

  -- A header of eleven `u32` words without product quantization, whose quantization and metric are
  -- known, is read word by word into the options of the index, and nothing more is read.
  pub parse_index_options-encode_header :
      (fuel : ℕ) (s : S) (h : Header) (metric : MetricKind) (kind : ScalarKind)
      → All (λ w. w < 2 ^ 32) (words h)
      → h.pq ≢ 1
      → scalar_kind h.quantization ≡ ok kind
      → from_u32 h.metric_kind ≡ ok metric
      → parse_index_options c fuel s (encode_header h)
        ≡ some (ok (plain_options h metric kind, h.element_bits, h.estimated_capacity), s)
  unfolding parse_index_options
  parse_index_options-encode_header fuel s h metric kind small no_pq q k =
      let w = words_lem h small in
      let buf = encode_header h in
      ap (read_options c fuel s buf)
        (kinds_lem (param buf 2) (param buf 1) h.quantization h.metric_kind kind metric w.2 w.1 q k)
      ∙ (read_options-plain fuel s buf h.pq metric kind w.0 no_pq
          ∙ cc (w.3, w.4, w.5, w.6, w.7, w.8, w.9, w.10))
