-- ===== src/IndexServer/Rows/Exact.antt =====
-- Which rows `receive_rows` of lantern_cli/src/external_index/server.rs receives, however the reads
-- cut the bytes that the peer sends.
use lanterndb.Prelude.{
  ℕ, zero, suc, ◌≤◌, ◌<◌, ◌≡◌, ◌⊎◌, refl, ap, ◌∙◌, sym, Bool, Option, none, some, List, [], ◌∷◌,
  ◌++◌, map, append_assoc, append-nil, arith, length, concat, All, ok, err, inl, inr, result_cases,
}
use lanterndb.Bytes.{from_le_bytes}
use lanterndb.IndexServer.Protocol.{
  Connection, ServerError, invalid_message, header, end_msg, read_frame,
}
use lanterndb.IndexServer.Protocol.Framing.{
  IsStream, take_front, message_cases, read_frame-payload, read_frame-exit,
}
use lanterndb.IndexServer.Protocol.Prompt.{append_cancel}
use lanterndb.IndexServer.Rows.{
  Row, parse_tuple, UsearchIndex, Receiving, Outcome, accept_row, on_message, receive_loop,
  receive_rows, expected_payload_size,
}
use lanterndb.IndexServer.Rows.Sound.{accept_row-sent}
use lanterndb.IndexServer.Rows.Complete.{IsRowFrame, label-le-payload}

header_front : (bs rest : List ℕ) → 4 ≤ length bs → header (bs ++ rest) ≡ header bs
header_front bs rest four = ap from_le_bytes (take_front 4 bs rest four)

-- The rows went to the workers, in order; or an error is returned, and the rows that went are the
-- first of them.
abbrev pub Delivered : {S I : Type 0} → Option (Outcome S I) → List Row → Type 0
Delivered {S} {I} m rows =
    (r' : Receiving S I) × (((m ≡ some (ok tt, r')) × (r'.sent ≡ rows))
      ⊎ ((e : ServerError) × (rest : List Row) × (m ≡ some (err e, r')) × (r'.sent ++ rest ≡ rows)))

module _ {S I : Type 0} (c : Connection S) (ix : UsearchIndex I) (is_open : ℕ → Bool) where
  accept_row_refused :
      (buf : List ℕ) (r : Receiving S I) (e : ServerError) (r' : Receiving S I)
      → accept_row c ix is_open buf r ≡ (err e, r')
      → r'.sent ≡ r.sent
  unfolding accept_row
  accept_row_refused buf r e r' h = ground arith

module _ {S I : Type 0} (c : Connection S) (ix : UsearchIndex I) (is_open : ℕ → Bool)
    (pending : S → List ℕ) (st : IsStream c pending) where
  receive_loop-Delivered :
      (fuel size : ℕ) (frames : List (List ℕ)) (last : List ℕ) (r : Receiving S I)
      → length frames < fuel
      → 4 ≤ size
      → All (IsRowFrame size) frames
      → pending r.stream ≡ concat frames ++ last
      → 4 ≤ length last
      → header last ≡ end_msg
      → Delivered (receive_loop c ix is_open fuel size r) (r.sent ++ map parse_tuple frames)
  unfolding receive_loop on_message
  receive_loop-Delivered zero size frames last r enough four good split long mark =
      absurd (omega arith)
  receive_loop-Delivered (suc fuel) size [] last r enough four good split long mark =
      elim (message_cases (read_frame c r.stream size size none)) [
        | inl (buf, s, e) ↦
            let f = read_frame-payload c pending st r.stream size buf s e in
            absurd (
              f.3 (
                sym (header_front buf (pending s) (omega (arith, f.0)))
                ∙ ap header (sym f.1 ∙ split)
                ∙ mark))
        | inr (inl (s, e)) ↦ (record r { stream = s }, rw e (inl (refl, sym (append-nil r.sent))))
        | inr (inr (inl (buf, s, e))) ↦
            (record r { stream = s }, rw e (inr (invalid_message, [], refl, refl)))
        | inr (inr (inr (x, s, e))) ↦ (record r { stream = s }, rw e (inr (x, [], refl, refl)))
      ]
  receive_loop-Delivered (suc fuel) size (buf ∷ frames) last r enough four good split long mark =
      let all = map parse_tuple (buf ∷ frames) in
      let front : pending r.stream ≡ buf ++ (concat frames ++ last) =
        split ∙ append_assoc buf (concat frames) last in
      elim (message_cases (read_frame c r.stream size size none)) [
        | inl (buf', s, e) ↦
            let f = read_frame-payload c pending st r.stream size buf' s e in
            let k =
              append_cancel buf' buf (pending s) (concat frames ++ last) (sym f.1 ∙ front)
                (f.0 ∙ sym good.0.0) in
            elim (result_cases (accept_row c ix is_open buf' (record r { stream = s }))) [
              | inl (_, r₁, a) ↦
                  let g = accept_row-sent c ix is_open buf' (record r { stream = s }) r₁ a in
                  let sent : r₁.sent ++ map parse_tuple frames ≡ r.sent ++ all =
                    ap (λ t. t ++ map parse_tuple frames) g.1
                    ∙ append_assoc r.sent (parse_tuple buf' ∷ []) (map parse_tuple frames)
                    ∙ ap (λ b. r.sent ++ parse_tuple b ∷ map parse_tuple frames) k.0 in
                  let y =
                    receive_loop-Delivered fuel size frames last r₁ (omega arith) four good.1
                      (ap pending g.0 ∙ k.1) long mark in
                  (
                    y.0,
                    rw (e, a)
                        (elim y.1 [
                          | inl d ↦ inl (d.0, d.1 ∙ sent)
                          | inr (x, rest, d, k') ↦ inr (x, rest, d, k' ∙ sent)
                        ]),
                  )
              | inr (x, r₁, a) ↦ (
                r₁,
                rw (e, a)
                    (inr (
                      x,
                      all,
                      refl,
                      ap (λ t. t ++ all)
                          (accept_row_refused c ix is_open buf' (record r { stream = s }) x r₁ a),
                    )),
              )
            ]
        | inr (inl (s, e)) ↦
            let x = read_frame-exit c pending st r.stream size s e in
            absurd (
              good.0.1 (
                sym (header_front buf (concat frames ++ last) (omega (arith, good.0.0)))
                ∙ ap header (sym front ∙ x.1)
                ∙ header_front x.0 (pending s) x.2
                ∙ x.4))
        | inr (inr (inl (b, s, e))) ↦
            (record r { stream = s }, rw e (inr (invalid_message, all, refl, refl)))
        | inr (inr (inr (x, s, e))) ↦ (record r { stream = s }, rw e (inr (x, all, refl, refl)))
      ]

  pub receive_rows-Delivered :
      (fuel : ℕ) (frames : List (List ℕ)) (last : List ℕ) (stream : S) (index : I)
      (element_bits : ℕ)
      → length frames < fuel
      → All (IsRowFrame (expected_payload_size (ix.dimensions index) element_bits)) frames
      → pending stream ≡ concat frames ++ last
      → 4 ≤ length last
      → header last ≡ end_msg
      → Delivered
          (receive_rows c ix is_open fuel stream index element_bits)
          (map parse_tuple frames)
  unfolding receive_rows
  receive_rows-Delivered fuel frames last stream index element_bits enough good split long mark =
      receive_loop-Delivered fuel (expected_payload_size (ix.dimensions index) element_bits) frames
        last
        (record {
          stream = stream;
          index = index;
          current_capacity = ix.capacity index;
          received_rows = 0;
          sent = [];
        })
        enough (label-le-payload (ix.dimensions index) element_bits) good split long mark
