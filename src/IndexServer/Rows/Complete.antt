-- ===== src/IndexServer/Rows/Complete.antt =====
-- Which rows `receive_rows` of lantern_cli/src/external_index/server.rs receives on a connection
-- that delivers what the peer sends.
use lanterndb.Prelude.{
  ℕ, zero, suc, ◌*◌, ◌%◌, ◌≤◌, ◌<◌, ◌≡◌, ◌≢◌, ap, ◌∙◌, Bool, true, some, List, [], ◌∷◌, ◌++◌, map,
  append_assoc, append-nil, arith, length, concat, All, ok,
}
use lanterndb.IndexServer.Protocol.{Connection, header, end_msg, init_msg}
use lanterndb.IndexServer.Protocol.Framing.{IsStream}
use lanterndb.IndexServer.Protocol.Prompt.{IsPrompt, read_frame-next, read_frame-last}
use lanterndb.IndexServer.Rows.{
  parse_tuple, UsearchIndex, Receiving, accept_row, on_message, receive_loop, receive_rows,
  usize_mod, expected_payload_size,
}
use lanterndb.IndexServer.Rows.Sound.{accept_row-sent}

-- A frame of a row: of the expected size, and not taken for an end or an init message.
abbrev pub IsRowFrame : ℕ → List ℕ → Type 0
IsRowFrame size buf = (length buf ≡ size) × (header buf ≢ end_msg) × (header buf ≢ init_msg)

-- The index grants every reservation, and the workers keep the channel open.
pub record IsReady {I : Type 0} (ix : UsearchIndex I) (is_open : ℕ → Bool) : Type 0 where
  pub grants : (i : I) (n : ℕ) → (j : I) × (ix.reserve i n ≡ ok j)
  pub opened : (n : ℕ) → is_open n ≡ true

pub label-le-payload :
    (dimensions element_bits : ℕ) → 4 ≤ expected_payload_size dimensions element_bits
unfolding expected_payload_size
label-le-payload dimensions element_bits = ground arith

module _ {S I : Type 0} (c : Connection S) (ix : UsearchIndex I) (is_open : ℕ → Bool)
    (ready : IsReady ix is_open) where
  accept_row-ready :
      (buf : List ℕ) (r : Receiving S I)
      → accept_row c ix is_open buf r ≡ (ok tt, (accept_row c ix is_open buf r).1)
  unfolding accept_row
  accept_row-ready buf r =
      let x = ready.grants r.index ((r.current_capacity * 2) % usize_mod) in
      ground (arith, x.1, ready.opened (length r.sent))

module _ {S I : Type 0} (c : Connection S) (ix : UsearchIndex I) (is_open : ℕ → Bool)
    (pending : S → List ℕ) (st : IsStream c pending) (pr : IsPrompt c pending)
    (ready : IsReady ix is_open) where
  receive_loop_complete :
      (fuel size : ℕ) (frames : List (List ℕ)) (last : List ℕ) (r : Receiving S I)
      → length frames < fuel
      → 4 ≤ size
      → All (IsRowFrame size) frames
      → pending r.stream ≡ concat frames ++ last
      → 4 ≤ length last
      → header last ≡ end_msg
      → (r' : Receiving S I) × (receive_loop c ix is_open fuel size r ≡ some (ok tt, r'))
        × (r'.sent ≡ r.sent ++ map parse_tuple frames)
  unfolding receive_loop on_message
  receive_loop_complete zero size frames last r enough four good split long mark =
      absurd (omega arith)
  receive_loop_complete (suc fuel) size [] last r enough four good split long mark =
      let x =
        read_frame-last c pending st pr r.stream size four (omega (arith, ap length split))
          (ap header split ∙ mark) in
      (record r { stream = x.0 }, rw x.1, rw append-nil)
  receive_loop_complete (suc fuel) size (buf ∷ frames) last r enough four good split long mark =
      let x =
        read_frame-next c pending st pr r.stream size buf (concat frames ++ last) four
          (split ∙ append_assoc buf (concat frames) last) good.0.0 good.0.1 good.0.2 in
      let r₁ = (accept_row c ix is_open buf (record r { stream = x.0 })).1 in
      let a = accept_row-ready c ix is_open ready buf (record r { stream = x.0 }) in
      let g = accept_row-sent c ix is_open buf (record r { stream = x.0 }) r₁ a in
      let y =
        receive_loop_complete fuel size frames last r₁ (omega arith) four good.1
          (ap pending g.0 ∙ x.2) long mark in
      (
        y.0,
        rw (x.1, a) y.1,
        ground
            (arith, y.2, g.1, append_assoc r.sent (parse_tuple buf ∷ []) (map parse_tuple frames)),
      )

  -- On a connection that delivers what the peer sends, and an index that grants its reservations,
  -- the rows received are those of all frames before the first bytes that look like an end mark,
  -- whatever follows these bytes.
  pub receive_rows_complete :
      (fuel : ℕ) (frames : List (List ℕ)) (last : List ℕ) (stream : S) (index : I)
      (element_bits : ℕ)
      → length frames < fuel
      → All (IsRowFrame (expected_payload_size (ix.dimensions index) element_bits)) frames
      → pending stream ≡ concat frames ++ last
      → 4 ≤ length last
      → header last ≡ end_msg
      → (r' : Receiving S I) × (receive_rows c ix is_open fuel stream index element_bits
          ≡ some (ok tt, r'))
        × (r'.sent ≡ map parse_tuple frames)
  unfolding receive_rows
  receive_rows_complete fuel frames last stream index element_bits enough good split long mark =
      receive_loop_complete fuel (expected_payload_size (ix.dimensions index) element_bits) frames
        last
        (record {
          stream = stream;
          index = index;
          current_capacity = ix.capacity index;
          received_rows = 0;
          sent = [];
        })
        enough (label-le-payload (ix.dimensions index) element_bits) good split long mark
