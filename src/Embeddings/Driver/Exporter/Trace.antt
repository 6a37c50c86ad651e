-- ===== src/Embeddings/Driver/Exporter/Trace.antt =====
-- What the operations of `db_exporter_worker`, lantern_cli/src/embeddings/mod.rs, leave in the target
-- table, and that it is the records received.
use lanterndb.Prelude.{
  ℕ, ◌≡◌, refl, sym, ap, ◌∙◌, Bool, true, false, List, [], ◌∷◌, ◌++◌, arith, inl, inr, append_assoc,
  append-nil, length, Result, ok, err, and_then, Bool-cases, ltb, ◌==◌, ==_iff, if◌then◌else◌,
}
use lanterndb.Embeddings.Driver.Exporter.{
  chunk_size, due, is_empty, Operation, begin, create_temp_table, copy_in, send, finish, update,
  commit, Received, Exporter, exporter_new, performed, perform, send_buf, send_rest, send_large,
  write_out, flush, flush_if_due, open_copy, close_copy,
}

-- The text that the operations committed, and the text sent since.
unfoldable pub sent : List Operation → List ℕ × List ℕ
sent [] = ([], [])
sent (begin ∷ trace) = sent trace
sent (create_temp_table ∷ trace) = sent trace
sent (copy_in b ∷ trace) = sent trace
sent (send text ∷ trace) = ((sent trace).0, (sent trace).1 ++ text)
sent (finish ∷ trace) = sent trace
sent (update ∷ trace) = sent trace
sent (commit ∷ trace) = ((sent trace).0 ++ (sent trace).1, [])

-- The text that is committed.
abbrev pub exported : Exporter → List ℕ
exported s = (sent s.trace).0

-- `text` is what is committed, what is sent since, and what the buffer holds; `count` rows are counted.
abbrev pub Holds : List ℕ → ℕ → Exporter → Type 0
Holds text count s =
    ((sent s.trace).0 ++ ((sent s.trace).1 ++ s.buf) ≡ text) × (s.processed_row_cnt ≡ count)

-- What is committed is a beginning of `text`.
abbrev pub IsPrefix : List ℕ → List ℕ → Type 0
IsPrefix start text = (rest : List ℕ) × (start ++ rest ≡ text)

-- `P` holds of a result and its state, and after an error a beginning of `text` is committed.
unfoldable pub Ensures :
    {E A : Type 0} → (A → Exporter → Type 0) → List ℕ → Result E A × Exporter → Type 0
Ensures P text (ok a, s) = P a s
Ensures P text (err e, s) = IsPrefix (exported s) text

module _ {E A B : Type 0} (text : List ℕ) where
  pub Ensures-and_then :
      (P : A → Exporter → Type 0) (Q : B → Exporter → Type 0) (m : Result E A × Exporter)
      (f : A → Exporter → Result E B × Exporter)
      → Ensures P text m
      → ((a : A) (s : Exporter) → P a s → Ensures Q text (f a s))
      → Ensures Q text (and_then m f)
  unfolding Ensures
  Ensures-and_then P Q (ok a, s) f h k = k a s h
  Ensures-and_then P Q (err e, s) f h k = h

left_nil : (xs ys : List ℕ) → xs ++ ys ≡ [] → xs ≡ []
left_nil [] ys h = refl
left_nil (x ∷ xs) ys h = absurd (cc h)

module _ {E A : Type 0} (P : A → Exporter → Type 0) (text more : List ℕ) where
  pub Ensures-append : (m : Result E A × Exporter) → Ensures P text m → Ensures P (text ++ more) m
  unfolding Ensures
  Ensures-append (ok a, s) h = h
  Ensures-append (err e, s) h =
      (h.0 ++ more, sym (append_assoc (exported s) h.0 more) ∙ ap (λ t. t ++ more) h.1)

module _ {E : Type 0} (text : List ℕ) (count : ℕ)
    (outcome : List Operation → Operation → Result E (Unit {0})) where
  -- The step's state has the property, or it failed.
  abbrev pub Reaches : (Exporter → Type 0) → Result E (Unit {0}) × Exporter → Type 0
  Reaches P m = Ensures (λ u s. P s) text m

  performed_lem :
      (P : Exporter → Type 0) (r : Result E (Unit {0})) (op : Operation) (s : Exporter)
      → IsPrefix (exported s) text
      → P (record s { trace = op ∷ s.trace })
      → Reaches P (performed outcome r op s)
  unfolding Ensures
  performed_lem P (ok u) op s h k = k
  performed_lem P (err e) op s h k = h

  perform_lem :
      (P : Exporter → Type 0) (op : Operation) (s : Exporter)
      → IsPrefix (exported s) text
      → P (record s { trace = op ∷ s.trace })
      → Reaches P (perform outcome op s)
  unfolding perform
  perform_lem P op s h k = performed_lem P (outcome s.trace op) op s h k

  prefix_of : (s : Exporter) → Holds text count s → IsPrefix (exported s) text
  prefix_of s h = (((sent s.trace).1 ++ s.buf), h.0)

  perform_then :
      {B : Type 0} (P : Exporter → Type 0) (Q : B → Exporter → Type 0) (op : Operation)
      (s : Exporter) (f : Exporter → Result E B × Exporter)
      → IsPrefix (exported s) text
      → P (record s { trace = op ∷ s.trace })
      → ((s : Exporter) → P s → Ensures Q text (f s))
      → Ensures Q text (and_then (perform outcome op s) λ _ s. f s)
  perform_then P Q op s f h k g =
      Ensures-and_then text (λ u s. P s) Q (perform outcome op s) (λ _ s. f s)
        (perform_lem P op s h k) λ u. g

  -- The buffer is empty.
  abbrev Empty : Exporter → Type 0
  Empty s = Holds text count s × (s.buf ≡ [])

  send_buf-Empty : (s : Exporter) → Holds text count s → Reaches Empty (send_buf outcome s)
  unfolding send_buf sent
  send_buf-Empty s h =
      perform_lem Empty (send s.buf) (record s { buf = [] }) (prefix_of s h)
        ((
          (ap (λ t. (sent s.trace).0 ++ t) (append-nil ((sent s.trace).1 ++ s.buf)) ∙ h.0, h.1),
          refl,
        ))

  send_rest-Empty : (s : Exporter) → Holds text count s → Reaches Empty (send_rest outcome s)
  unfolding send_rest
  send_rest-Empty s h = by_buf s.buf refl
    where
      by_buf :
          (buf : List ℕ)
          → s.buf ≡ buf
          → Reaches Empty (if is_empty buf then (ok tt, s) else send_buf outcome s)
      by_buf [] e = unfold Ensures in (h, e)
      by_buf (c ∷ buf) e = send_buf-Empty s h

  weaken : (m : Result E (Unit {0}) × Exporter) → Reaches Empty m → Reaches (Holds text count) m
  unfolding Ensures
  weaken (ok u, s) h = h.0
  weaken (err e, s) h = h

  pub send_large-Holds :
      (s : Exporter) → Holds text count s → Reaches (Holds text count) (send_large outcome s)
  unfolding send_large Ensures
  send_large-Holds s h = elim (Bool-cases (ltb chunk_size (length s.buf))) [
    | inl e ↦ rw e (weaken (send_buf outcome s) (send_buf-Empty s h))
    | inr e ↦ rw e h
  ]

  -- After a commit with an empty buffer everything is in the table, and nothing waits.
  abbrev Committed : Exporter → Type 0
  Committed s = Holds text count s × (exported s ≡ text)

  commit-Committed : (s : Exporter) → Empty s → Committed (record s { trace = commit ∷ s.trace })
  unfolding sent
  commit-Committed s h =
      let all : (sent s.trace).0 ++ (sent s.trace).1 ≡ text =
        ap (λ t. (sent s.trace).0 ++ t)
          (sym (append-nil (sent s.trace).1) ∙ ap (λ t. (sent s.trace).1 ++ t) (sym h.1))
        ∙ h.0.0 in
      (
        (
          ap (λ t. ((sent s.trace).0 ++ (sent s.trace).1) ++ t) h.1
              ∙ (append-nil ((sent s.trace).0 ++ (sent s.trace).1) ∙ all),
          h.0.1,
        ),
        all,
      )

  write_out-Committed :
      (s : Exporter) → Holds text count s → Reaches Committed (write_out outcome s)
  unfolding write_out sent
  write_out-Committed s h =
      Ensures-and_then text (λ u s. Empty s) (λ u s. Committed s) (send_rest outcome s) _
        (send_rest-Empty s h)
        λ u s h.
          perform_then Empty (λ u s. Committed s) finish s _ (prefix_of s h.0) h
            λ s h.
              perform_then Empty (λ u s. Committed s) update s _ (prefix_of s h.0) h
                λ s h. perform_lem Committed commit s (prefix_of s h.0) (commit-Committed s h)

  flush-Holds :
      (now : ℕ) (s : Exporter)
      → Holds text count s
      → Reaches (Holds text count) (flush outcome now s)
  unfolding flush sent Ensures
  flush-Holds now s h =
      Ensures-and_then text (λ u s. Committed s) (λ u s. Holds text count s) (write_out outcome s) _
        (write_out-Committed s h)
        λ u s h.
          perform_then (Holds text count) (λ u s. Holds text count s) begin s _ (prefix_of s h.0)
            h.0
            λ s h.
              perform_then (Holds text count) (λ u s. Holds text count s) (copy_in false) s _
                (prefix_of s h) h λ s h. h

  pub flush_if_due-Holds :
      (stream : Bool) (msg : Received) (s : Exporter)
      → Holds text count s
      → Reaches (Holds text count) (flush_if_due outcome stream msg s)
  unfolding flush_if_due Ensures
  flush_if_due-Holds stream msg s h = elim (Bool-cases (due stream msg s)) [
    | inl e ↦ rw e (flush-Holds msg.flushed s h)
    | inr e ↦ rw e h
  ]

  pub close_copy-Committed :
      (s : Exporter)
      → Holds text count s
      → (count ≡ 0 → text ≡ [])
      → Ensures (λ n s. (n ≡ count) × (exported s ≡ text)) text (close_copy outcome s)
  unfolding close_copy Ensures
  close_copy-Committed s h k = elim (Bool-cases (s.processed_row_cnt == 0)) [
    | inl e ↦ rw e (
      omega (arith, (==_iff s.processed_row_cnt 0).0 e, h.1),
      left_nil (exported s) ((sent s.trace).1 ++ s.buf)
            (h.0 ∙ k (omega (arith, (==_iff s.processed_row_cnt 0).0 e, h.1)))
          ∙ sym (k (omega (arith, (==_iff s.processed_row_cnt 0).0 e, h.1))),
    )
    | inr e ↦ rw e (
        Ensures-and_then text (λ u s. Committed s) (λ n s. (n ≡ count) × (exported s ≡ text))
          (write_out outcome s) _ (write_out-Committed s h) λ u t g. (h.1, g.1))
  ]

  commit-Holds :
      (s : Exporter) → Holds text count s → Holds text count (record s { trace = commit ∷ s.trace })
  unfolding sent
  commit-Holds s h = (append_assoc (sent s.trace).0 (sent s.trace).1 s.buf ∙ h.0, h.1)

  pub open_copy-Holds :
      Holds text count exporter_new → Reaches (Holds text count) (open_copy outcome exporter_new)
  unfolding open_copy sent
  open_copy-Holds h =
      perform_then (Holds text count) (λ u s. Holds text count s) begin exporter_new _
        (prefix_of exporter_new h) h
        λ s h.
          perform_then (Holds text count) (λ u s. Holds text count s) create_temp_table s _
            (prefix_of s h) h
            λ s h.
              perform_then (Holds text count) (λ u s. Holds text count s) commit s _ (prefix_of s h)
                (commit-Holds s h)
                λ s h.
                  perform_then (Holds text count) (λ u s. Holds text count s) begin s _
                    (prefix_of s h) h
                    λ s h. perform_lem (Holds text count) (copy_in true) s (prefix_of s h) h
