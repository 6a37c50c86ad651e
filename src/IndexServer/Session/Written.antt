-- ===== src/IndexServer/Session/Written.antt =====
-- Reading leaves alone what was written, for the loops of
-- lantern_cli/src/external_index/server.rs.
use lanterndb.Prelude.{
  ℕ, zero, suc, ◌-◌, ◌*◌, ◌≡◌, ap, ◌∙◌, sym, Bool, Option, none, some, List, [], ◌++◌, arith, take,
  length, Result, ok, err, inl, inr, result_cases, run_cases,
}
use lanterndb.IndexServer.Protocol.{
  Connection, ProtocolMessage, payload, exit, ServerError, read_frame, integer_size,
}
use lanterndb.IndexServer.Options.{
  IndexOptions, ScalarKind, MetricKind, kinds, bytes_to_f32_vec_le, param, codebook_loop,
  read_options, parse_index_options,
}
use lanterndb.IndexServer.Rows.{UsearchIndex, Receiving, accept_row, receive_loop, receive_rows}
use lanterndb.IndexServer.Protocol.Framing.{message_cases}
use lanterndb.IndexServer.Rows.Sound.{accept_row-sent}

-- `written s` is what the server has sent to the peer. A write that returns a number has
-- sent that many bytes of the front, which may be fewer than all, and reading sends nothing.
pub record IsWriter {S : Type 0} (c : Connection S) (written : S → List ℕ) : Type 0 where
  pub write_front :
      (s : S) (bs : List ℕ) (n : ℕ) (s' : S)
      → c.write_data s bs ≡ (ok n, s')
      → written s' ≡ written s ++ take n bs
  pub write_all :
      (s : S) (bs : List ℕ) (s' : S)
      → c.write_data_all s bs ≡ (ok tt, s')
      → written s' ≡ written s ++ bs
  pub read_keeps : (s : S) (n : ℕ) → written (c.read_data s n).1 ≡ written s
  pub exact_keeps : (s : S) (n : ℕ) → written (c.read_data_exact s n).1 ≡ written s

module _ {S : Type 0} (c : Connection S) (written : S → List ℕ) (w : IsWriter c written) where
  read_frame_keeps :
      (s : S) (size : ℕ) (wanted : Option ℕ)
      → written (read_frame c s size size wanted).1 ≡ written s
  unfolding read_frame
  read_frame_keeps s size wanted = elim (result_cases (c.read_data s size)) [
    | inl (bs, s₁, e) ↦
        let k = w.read_keeps s size in
        elim (result_cases (c.read_data_exact s₁ (size - length bs))) [
          | inl (rest, s₂, f) ↦ ground (arith, k, e, f, w.exact_keeps s₁ (size - length bs))
          | inr (x, s₂, f) ↦ ground (arith, k, e, f, w.exact_keeps s₁ (size - length bs))
        ]
    | inr (x, s₁, e) ↦ ground (arith, w.read_keeps s size)
  ]

  pub read_frame_written :
      (s : S) (size : ℕ) (wanted : Option ℕ) (r : Result ServerError ProtocolMessage) (s' : S)
      → read_frame c s size size wanted ≡ (r, s')
      → written s' ≡ written s
  read_frame_written s size wanted r s' e =
      sym (ap (λ (x : Result ServerError ProtocolMessage × S). written x.1) e)
      ∙ read_frame_keeps s size wanted

  codebook_loop_written :
      (fuel size : ℕ) (s : S) (codebook book : List ℕ) (s' : S)
      → codebook_loop c fuel size s codebook ≡ some (ok book, s')
      → written s' ≡ written s
  unfolding codebook_loop
  codebook_loop_written zero size s codebook book s' h = cc
  codebook_loop_written (suc fuel) size s codebook book s' h =
      elim (message_cases (read_frame c s size size none)) [
        | inl (buf, s₁, e) ↦
            codebook_loop_written fuel size s₁ (codebook ++ bytes_to_f32_vec_le buf) book s'
              (rw e at h)
            ∙ read_frame_written s size none (ok (payload buf)) s₁ e
        | inr (inl (s₁, e)) ↦
            ground (arith, rw e at h, read_frame_written s size none (ok exit) s₁ e)
        | inr (inr (inl (buf, s₁, e))) ↦ cc (rw e at h)
        | inr (inr (inr (x, s₁, e))) ↦ cc (rw e at h)
      ]

  read_options_written :
      (fuel : ℕ) (s : S) (buf : List ℕ) (k : Result ServerError (ScalarKind × MetricKind))
      (o : IndexOptions × ℕ × ℕ) (s' : S)
      → read_options c fuel s buf k ≡ some (ok o, s')
      → written s' ≡ written s
  unfolding read_options
  read_options_written fuel s buf (err x) o s' h = cc
  read_options_written fuel s buf (ok (q, m)) o s' h =
      elim (run_cases (codebook_loop c fuel (param buf 3 * integer_size) s [])) [
        | inl e ↦ ground (arith, e)
        | inr (inl (book, s₁, e)) ↦
            ground
              (arith, e, codebook_loop_written fuel (param buf 3 * integer_size) s [] book s₁ e)
        | inr (inr (x, s₁, e)) ↦ ground (arith, e)
      ]

  pub options_written :
      (fuel : ℕ) (s : S) (buf : List ℕ) (o : IndexOptions × ℕ × ℕ) (s' : S)
      → parse_index_options c fuel s buf ≡ some (ok o, s')
      → written s' ≡ written s
  unfolding parse_index_options
  options_written fuel s buf o s' h =
      read_options_written fuel s buf (kinds (param buf 2) (param buf 1)) o s' h

module _ {S I : Type 0} (c : Connection S) (ix : UsearchIndex I) (is_open : ℕ → Bool)
    (written : S → List ℕ) (w : IsWriter c written) where
  pub receive_loop_written :
      (fuel size : ℕ) (r r' : Receiving S I)
      → receive_loop c ix is_open fuel size r ≡ some (ok tt, r')
      → written r'.stream ≡ written r.stream
  unfolding receive_rows
  receive_loop_written zero size r r' h = cc
  receive_loop_written (suc fuel) size r r' h =
      elim (message_cases (read_frame c r.stream size size none)) [
        | inl (buf, s, e) ↦
            elim (result_cases (accept_row c ix is_open buf (record r { stream = s }))) [
              | inl (_, r₁, a) ↦
                  let g = accept_row-sent c ix is_open buf (record r { stream = s }) r₁ a in
                  receive_loop_written fuel size r₁ r' (rw a at (rw e at h))
                  ∙ (ap written g.0
                      ∙ read_frame_written c written w r.stream size none (ok (payload buf)) s e)
              | inr (x, r₁, a) ↦ cc (rw a at (rw e at h))
            ]
        | inr (inl (s, e)) ↦
            ground
              (arith, rw e at h, read_frame_written c written w r.stream size none (ok exit) s e)
        | inr (inr (inl (buf, s, e))) ↦ cc (rw e at h)
        | inr (inr (inr (x, s, e))) ↦ cc (rw e at h)
      ]
