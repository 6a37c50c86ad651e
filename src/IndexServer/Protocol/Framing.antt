-- ===== src/IndexServer/Protocol/Framing.antt =====
-- What a frame takes from the stream of bytes, for `read_frame` of
-- lantern_cli/src/external_index/server.rs.
use lanterndb.Prelude.{
  ℕ, zero, suc, ◌-◌, ◌≤◌, ◌≡◌, ◌≢◌, ◌⊎◌, refl, ap, none, List, [], ◌∷◌, ◌++◌, append_assoc,
  append-nil, arith, length, take, length-append, Result, ok, err, inl, inr, result_cases,
}
use lanterndb.IndexServer.Protocol.{
  Connection, ProtocolMessage, init, payload, exit, ServerError, header, end_msg, init_msg,
  frame_of, read_frame,
}

-- `pending s` is what the peer has sent and the server has not read. A read gives the front of it,
-- at most as much as the buffer holds, and `read_exact` exactly as much.
pub record IsStream {S : Type 0} (c : Connection S) (pending : S → List ℕ) : Type 0 where
  pub read_front :
      (s : S) (n : ℕ) (bs : List ℕ) (s' : S)
      → c.read_data s n ≡ (ok bs, s')
      → (length bs ≤ n) × (pending s ≡ bs ++ pending s')
  pub exact_front :
      (s : S) (n : ℕ) (bs : List ℕ) (s' : S)
      → c.read_data_exact s n ≡ (ok bs, s')
      → (length bs ≡ n) × (pending s ≡ bs ++ pending s')

-- The first bytes of a frame stay its first bytes when the rest is read.
pub take_front : (n : ℕ) (bs rest : List ℕ) → n ≤ length bs → take n (bs ++ rest) ≡ take n bs
take_front zero bs rest h = refl
take_front (suc n) [] rest h = absurd (omega arith)
take_front (suc n) (b ∷ bs) rest h = ap (λ (t : List ℕ). b ∷ t) (take_front n bs rest (omega arith))

-- The first message read, split with its equation.
pub message_cases :
    {S : Type 0} (m : Result ServerError ProtocolMessage × S)
    → ((buf : List ℕ) × (s : S) × (m ≡ (ok (payload buf), s)))
      ⊎ ((s : S) × (m ≡ (ok exit, s)))
      ⊎ ((buf : List ℕ) × (s : S) × (m ≡ (ok (init buf), s)))
      ⊎ ((e : ServerError) × (s : S) × (m ≡ (err e, s)))
message_cases (ok (payload buf), s) = inl (buf, s, refl)
message_cases (ok exit, s) = inr (inl (s, refl))
message_cases (ok (init buf), s) = inr (inr (inl (buf, s, refl)))
message_cases (err e, s) = inr (inr (inr (e, s, refl)))

module _ {S : Type 0} (c : Connection S) (pending : S → List ℕ) (st : IsStream c pending) where
  frame_of-payload :
      (start s : S) (size : ℕ) (bs buf : List ℕ) (s' : S)
      → length bs ≤ size
      → pending start ≡ bs ++ pending s
      → frame_of c size size none bs s ≡ (ok (payload buf), s')
      → (length buf ≡ size)
        × (pending start ≡ buf ++ pending s')
        × (4 ≤ size)
        × (header buf ≢ end_msg)
        × (header buf ≢ init_msg)
  unfolding frame_of
  frame_of-payload start s size bs buf s' small front h =
      elim (result_cases (c.read_data_exact s (size - length bs))) [
        | inl (rest, s'', e) ↦ ground (
          arith,
          st.exact_front s (size - length bs) rest s'' e,
          append_assoc bs rest (pending s''),
          length-append bs rest,
          take_front 4 bs rest,
          append-nil bs,
        )
        | inr (x, s'', e) ↦ ground (arith, append-nil bs)
      ]

  frame_of-exit :
      (start s : S) (size : ℕ) (bs : List ℕ) (s' : S)
      → pending start ≡ bs ++ pending s
      → frame_of c size size none bs s ≡ (ok exit, s')
      → (pending start ≡ bs ++ pending s') × (4 ≤ length bs) × (header bs ≡ end_msg)
  unfolding frame_of
  frame_of-exit start s size bs s' front h =
      elim (result_cases (c.read_data_exact s (size - length bs))) [
        | inl (rest, s'', e) ↦ ground arith
        | inr (x, s'', e) ↦ ground arith
      ]

  -- A data frame is the next `size` bytes of the stream, however the reads segmented them.
  pub read_frame-payload :
      (s : S) (size : ℕ) (buf : List ℕ) (s' : S)
      → read_frame c s size size none ≡ (ok (payload buf), s')
      → (length buf ≡ size)
        × (pending s ≡ buf ++ pending s')
        × (4 ≤ size)
        × (header buf ≢ end_msg)
        × (header buf ≢ init_msg)
  unfolding read_frame
  read_frame-payload s size buf s' h = elim (result_cases (c.read_data s size)) [
    | inl (bs, s'', e) ↦
        let f = st.read_front s size bs s'' e in
        frame_of-payload s s'' size bs buf s' f.0 f.1 (rw e at h)
    | inr (x, s'', e) ↦ ground arith
  ]

  -- The end is four bytes or more, read at once, that begin with the end mark.
  pub read_frame-exit :
      (s : S) (size : ℕ) (s' : S)
      → read_frame c s size size none ≡ (ok exit, s')
      → (bs : List ℕ) × (pending s ≡ bs ++ pending s')
        × (4 ≤ length bs)
        × (length bs ≤ size)
        × (header bs ≡ end_msg)
  unfolding read_frame
  read_frame-exit s size s' h = elim (result_cases (c.read_data s size)) [
    | inl (bs, s'', e) ↦
        let f = st.read_front s size bs s'' e in
        let x = frame_of-exit s s'' size bs s' f.1 (rw e at h) in (bs, x.0, x.1, f.0, x.2)
    | inr (x, s'', e) ↦ ground arith
  ]
