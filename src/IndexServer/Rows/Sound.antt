-- ===== src/IndexServer/Rows/Sound.antt =====
-- What `receive_rows` of lantern_cli/src/external_index/server.rs took from the stream when it
-- returns, and that it does return.
use lanterndb.Prelude.{
  ℕ, zero, suc, ◌≤◌, ◌<◌, ◌≡◌, ap, Bool, none, some, List, [], ◌∷◌, ◌++◌, map, append_assoc,
  append-nil, arith, length, concat, All, length-append, ok, err, inl, inr, result_cases,
}
use lanterndb.IndexServer.Protocol.{Connection, header, end_msg, read_frame, invalid_message}
use lanterndb.IndexServer.Protocol.Framing.{
  IsStream, message_cases, read_frame-payload, read_frame-exit,
}
use lanterndb.IndexServer.Rows.{
  parse_tuple, UsearchIndex, Receiving, Outcome, accept_row, on_message, receive_loop, receive_rows,
  expected_payload_size,
}

module _ {S I : Type 0} (c : Connection S) (ix : UsearchIndex I) (is_open : ℕ → Bool) where
  -- A row that is accepted is sent, last, and the stream is not touched.
  pub accept_row-sent :
      (buf : List ℕ) (r : Receiving S I) (r' : Receiving S I)
      → accept_row c ix is_open buf r ≡ (ok tt, r')
      → (r'.stream ≡ r.stream) × (r'.sent ≡ r.sent ++ parse_tuple buf ∷ [])
  unfolding accept_row
  accept_row-sent buf r r' h = ground arith

module _ {S I : Type 0} (c : Connection S) (ix : UsearchIndex I) (is_open : ℕ → Bool)
    (pending : S → List ℕ) (st : IsStream c pending) where
  -- From `r` to `r'` the loop took whole frames and an end mark off the stream, and sent the rows
  -- of the frames, in order.
  abbrev pub Received : ℕ → Receiving S I → Receiving S I → Type 0
  Received size r r' =
      (frames : List (List ℕ)) × (last : List ℕ) × (r'.sent ≡ r.sent ++ map parse_tuple frames)
      × All (λ buf. length buf ≡ size) frames
      × (pending r.stream ≡ concat frames ++ (last ++ pending r'.stream))
      × (4 ≤ length last)
      × (header last ≡ end_msg)

  Received-more :
      (size : ℕ) (buf : List ℕ) (s : S) (r r₁ r' : Receiving S I)
      → length buf ≡ size
      → pending r.stream ≡ buf ++ pending s
      → r₁.stream ≡ s
      → r₁.sent ≡ r.sent ++ parse_tuple buf ∷ []
      → Received size r₁ r'
      → Received size r r'
  Received-more size buf s r r₁ r' len front stream sent
        (frames, last, rows, sizes, rest, long, mark) =
      (
        buf ∷ frames,
        last,
        ground (arith, append_assoc r.sent (parse_tuple buf ∷ []) (map parse_tuple frames)),
        (len, sizes),
        ground (
          arith,
          append_assoc buf (concat frames) (last ++ pending r'.stream),
          ap pending stream,
        ),
        long,
        mark,
      )

  receive_loop_sound :
      (fuel size : ℕ) (r r' : Receiving S I)
      → receive_loop c ix is_open fuel size r ≡ some (ok tt, r')
      → Received size r r'
  unfolding receive_loop on_message
  receive_loop_sound zero size r r' h = cc
  receive_loop_sound (suc fuel) size r r' h =
      elim (message_cases (read_frame c r.stream size size none)) [
        | inl (buf, s, e) ↦
            elim (result_cases (accept_row c ix is_open buf (record r { stream = s }))) [
              | inl (_, r₁, a) ↦
                  let f = read_frame-payload c pending st r.stream size buf s e in
                  let g = accept_row-sent c ix is_open buf (record r { stream = s }) r₁ a in
                  Received-more size buf s r r₁ r' f.0 f.1 g.0 g.1
                    (receive_loop_sound fuel size r₁ r' (rw a at (rw e at h)))
              | inr (x, r₁, a) ↦ cc (rw a at (rw e at h))
            ]
        | inr (inl (s, e)) ↦
            let f = read_frame-exit c pending st r.stream size s e in
            let g : (s ≡ r'.stream) × (r.sent ≡ r'.sent) = ground (arith, rw e at h) in
            (
              [],
              f.0,
              ground (arith, append-nil r.sent),
              tt,
              ground (arith, ap pending g.0),
              f.2,
              f.4,
            )
        | inr (inr (inl (buf, s, e))) ↦ cc (rw e at h)
        | inr (inr (inr (x, s, e))) ↦ cc (rw e at h)
      ]

  -- Every data frame takes at least four bytes off the stream.
  receive_loop-returns :
      (fuel size : ℕ) (r : Receiving S I)
      → length (pending r.stream) < fuel
      → (o : Outcome S I) × (receive_loop c ix is_open fuel size r ≡ some o)
  unfolding receive_loop on_message
  receive_loop-returns zero size r h = absurd (omega arith)
  receive_loop-returns (suc fuel) size r h =
      elim (message_cases (read_frame c r.stream size size none)) [
        | inl (buf, s, e) ↦
            elim (result_cases (accept_row c ix is_open buf (record r { stream = s }))) [
              | inl (_, r₁, a) ↦
                  let f = read_frame-payload c pending st r.stream size buf s e in
                  let g = accept_row-sent c ix is_open buf (record r { stream = s }) r₁ a in
                  rw (e, a)
                    (receive_loop-returns fuel size r₁ (
                      omega (
                        arith,
                        ap length f.1,
                        length-append buf (pending s),
                        ap (λ (t : S). length (pending t)) g.0,
                        f.0,
                        f.2,
                      )))
              | inr (x, r₁, a) ↦ ((err x, r₁), rw (e, a))
            ]
        | inr (inl (s, e)) ↦ ((ok tt, record r { stream = s }), rw e)
        | inr (inr (inl (buf, s, e))) ↦ ((err invalid_message, record r { stream = s }), rw e)
        | inr (inr (inr (x, s, e))) ↦ ((err x, record r { stream = s }), rw e)
      ]

  -- When rows are received, each one is a whole frame of the stream: the rows that went to the
  -- workers are exactly the frames, in order, that stand before an end mark of four bytes or more,
  -- and nothing after that mark has been read, however the network segmented the bytes.
  pub receive_rows_sound :
      (fuel : ℕ) (stream : S) (index : I) (element_bits : ℕ) (r' : Receiving S I)
      → receive_rows c ix is_open fuel stream index element_bits ≡ some (ok tt, r')
      → (frames : List (List ℕ)) × (last : List ℕ) × (r'.sent ≡ map parse_tuple frames)
        × All (λ buf. length buf ≡ expected_payload_size (ix.dimensions index) element_bits) frames
        × (pending stream ≡ concat frames ++ (last ++ pending r'.stream))
        × (4 ≤ length last)
        × (header last ≡ end_msg)
  unfolding receive_rows
  receive_rows_sound fuel stream index element_bits r' h =
      receive_loop_sound fuel (expected_payload_size (ix.dimensions index) element_bits)
        (record {
          stream = stream;
          index = index;
          current_capacity = ix.capacity index;
          received_rows = 0;
          sent = [];
        })
        r' h

  -- Receiving rows returns, with a result or an error, with more fuel than there are bytes to read.
  pub receive_rows-returns :
      (fuel : ℕ) (stream : S) (index : I) (element_bits : ℕ)
      → length (pending stream) < fuel
      → (o : Outcome S I) × (receive_rows c ix is_open fuel stream index element_bits ≡ some o)
  unfolding receive_rows
  receive_rows-returns fuel stream index element_bits h =
      receive_loop-returns fuel (expected_payload_size (ix.dimensions index) element_bits)
        (record {
          stream = stream;
          index = index;
          current_capacity = ix.capacity index;
          received_rows = 0;
          sent = [];
        })
        h
