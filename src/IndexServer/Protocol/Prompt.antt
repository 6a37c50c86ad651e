-- ===== src/IndexServer/Protocol/Prompt.antt =====
-- A connection on which `read_frame` of lantern_cli/src/external_index/server.rs reads every frame:
-- the first read of a frame gives its header, and the rest comes before the timeout.
use lanterndb.Prelude.{
  ℕ, ◌+◌, ◌-◌, ◌≤◌, ◌≡◌, ◌≢◌, refl, ap, ◌∙◌, sym, none, List, [], ◌∷◌, ◌++◌, append_assoc,
  append-nil, arith, length, length-append, ok, inl, inr, Bool-cases, ltb,
}
use lanterndb.IndexServer.Protocol.{
  Connection, payload, exit, header, end_msg, init_msg, frame_of, read_frame,
}
use lanterndb.IndexServer.Protocol.Framing.{IsStream, take_front}

pub record IsPrompt {S : Type 0} (c : Connection S) (pending : S → List ℕ) : Type 0 where
  pub read_some :
      (s : S) (n : ℕ)
      → 4 ≤ n
      → 4 ≤ length (pending s)
      → (bs : List ℕ) × (s' : S) × (c.read_data s n ≡ (ok bs, s')) × (4 ≤ length bs)
  pub exact_all :
      (s : S) (n : ℕ)
      → n ≤ length (pending s)
      → (bs : List ℕ) × (s' : S) × (c.read_data_exact s n ≡ (ok bs, s'))

pub append_cancel {ℓ} :
    {A : Type ℓ} (xs ys us vs : List A)
    → xs ++ us ≡ ys ++ vs
    → length xs ≡ length ys
    → (xs ≡ ys) × (us ≡ vs)
append_cancel [] [] us vs h l = (refl, h)
append_cancel [] (y ∷ ys) us vs h l = absurd (omega arith)
append_cancel (x ∷ xs) [] us vs h l = absurd (omega arith)
append_cancel (x ∷ xs) (y ∷ ys) us vs h l =
    let tails : xs ++ us ≡ ys ++ vs = cc in
    let r = append_cancel xs ys us vs tails (omega arith) in (cc r.0, r.1)

module _ {S : Type 0} (c : Connection S) (pending : S → List ℕ) (st : IsStream c pending)
    (pr : IsPrompt c pending) where
  frame_of-next :
      (s : S) (size : ℕ) (bs buf rest : List ℕ)
      → length bs ≤ size
      → 4 ≤ length bs
      → bs ++ pending s ≡ buf ++ rest
      → length buf ≡ size
      → header buf ≢ end_msg
      → header buf ≢ init_msg
      → (s' : S) × (frame_of c size size none bs s ≡ (ok (payload buf), s')) × (pending s' ≡ rest)
  unfolding frame_of
  frame_of-next s size bs buf rest small four split len no_end no_init =
      elim (Bool-cases (ltb (length bs) size)) [
        | inl more ↦
            let lengths : length bs + length (pending s) ≡ length buf + length rest =
              sym (length-append bs (pending s)) ∙ (ap length split ∙ length-append buf rest) in
            let x = pr.exact_all s (size - length bs) (ground arith) in
            let f = st.exact_front s (size - length bs) x.0 x.1 x.2 in
            let eq : (bs ++ x.0) ++ pending x.1 ≡ buf ++ rest =
              append_assoc bs x.0 (pending x.1)
              ∙ (ap (λ (t : List ℕ). bs ++ t) (sym f.1) ∙ split) in
            let k =
              append_cancel (bs ++ x.0) buf (pending x.1) rest eq
                (ground (arith, length-append bs x.0)) in
            (x.1, ground (arith, x.2, k.0, take_front 4 bs x.0 four), k.1)
        | inr whole ↦
            let k = append_cancel bs buf (pending s) rest split (ground arith) in
            (s, ground (arith, k.0, append-nil bs), k.1)
      ]

  pub read_frame-next :
      (s : S) (size : ℕ) (buf rest : List ℕ)
      → 4 ≤ size
      → pending s ≡ buf ++ rest
      → length buf ≡ size
      → header buf ≢ end_msg
      → header buf ≢ init_msg
      → (s' : S) × (read_frame c s size size none ≡ (ok (payload buf), s')) × (pending s' ≡ rest)
  unfolding read_frame
  read_frame-next s size buf rest four split len no_end no_init =
      let lengths : length (pending s) ≡ length buf + length rest =
        ap length split ∙ length-append buf rest in
      let x = pr.read_some s size four (omega arith) in
      let f = st.read_front s size x.0 x.1 x.2 in
      let y = frame_of-next x.1 size x.0 buf rest f.0 x.3 (sym f.1 ∙ split) len no_end no_init in
      (y.0, rw x.2 y.1, y.2)

  pub read_frame-last :
      (s : S) (size : ℕ)
      → 4 ≤ size
      → 4 ≤ length (pending s)
      → header (pending s) ≡ end_msg
      → (s' : S) × (read_frame c s size size none ≡ (ok exit, s'))
  unfolding read_frame frame_of
  read_frame-last s size four long mark =
      let x = pr.read_some s size four long in
      let f = st.read_front s size x.0 x.1 x.2 in
      (x.1, ground (arith, x.2, mark, x.3, take_front 4 x.0 (pending x.1) x.3, ap header f.1))
