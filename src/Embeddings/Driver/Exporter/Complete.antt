-- ===== src/Embeddings/Driver/Exporter/Complete.antt =====
-- What `db_exporter_worker`, lantern_cli/src/embeddings/mod.rs, exports of all the messages.
use mathlib.Core.Path.{subst}
use lanterndb.Prelude.{
  ℕ, ◌+◌, ◌≡◌, refl, sym, ap, ◌∙◌, Bool, List, [], ◌∷◌, ◌++◌, arith, append_assoc, append-nil,
  length, Result, length-append,
}
use lanterndb.Embeddings.Driver.Records.{EmbeddingRecord, copy_lines, copy_line}
use lanterndb.Embeddings.Driver.Exporter.{
  Operation, Received, Exporter, exporter_new, collect, report, report_rest, send_large, receive,
  receive_all, open_copy, db_exporter_worker,
}
use lanterndb.Embeddings.Driver.Exporter.Trace.{
  sent, exported, Holds, Ensures, Reaches, Ensures-and_then, Ensures-append, send_large-Holds,
  flush_if_due-Holds, close_copy-Committed, open_copy-Holds,
}

pub copy_lines-append :
    (xs ys : List EmbeddingRecord) → copy_lines (xs ++ ys) ≡ copy_lines xs ++ copy_lines ys
unfolding copy_lines
copy_lines-append [] ys = refl
copy_lines-append (x ∷ xs) ys =
    ap (λ t. copy_line x ++ t) (copy_lines-append xs ys)
    ∙ sym (append_assoc (copy_line x) (copy_lines xs) (copy_lines ys))

zero_sum : (n : ℕ) → 0 + n ≡ n
zero_sum n = omega arith

sum_assoc : (a b c : ℕ) → a + (b + c) ≡ a + b + c
sum_assoc a b c = omega arith

nothing : (rows : List EmbeddingRecord) → length rows ≡ 0 → copy_lines rows ≡ []
unfolding copy_lines
nothing [] h = refl
nothing (x ∷ rows) h = absurd (omega (arith, h))

-- The records of all messages, in their order.
abbrev pub received : List Received → List EmbeddingRecord
received [] = []
received (msg ∷ msgs) = msg.rows ++ received msgs

collect-Holds :
    (text : List ℕ) (count : ℕ) (rows : List EmbeddingRecord) (s : Exporter)
    → Holds text count s
    → Holds (text ++ copy_lines rows) count (collect rows s)
unfolding collect
collect-Holds text count rows s h = (
  ap (λ t. (sent s.trace).0 ++ t) (sym (append_assoc (sent s.trace).1 s.buf (copy_lines rows)))
      ∙ (sym (append_assoc (sent s.trace).0 ((sent s.trace).1 ++ s.buf) (copy_lines rows))
          ∙ ap (λ t. t ++ copy_lines rows) h.0),
  h.1,
)

module _ {E : Type 0} (outcome : List Operation → Operation → Result E (Unit {0}))
    (percent : ℕ → ℕ → ℕ) (item_count : ℕ) (stream : Bool) where
  report-Holds :
      (text : List ℕ) (count n : ℕ) (s : Exporter)
      → Holds text count s
      → Holds text (count + n) (report percent item_count n s)
  unfolding report
  report-Holds text count n s h = (h.0, ap (λ t. t + n) h.1)

  receive-Holds :
      (text : List ℕ) (count : ℕ) (msg : Received) (s : Exporter)
      → Holds text count s
      → Reaches
          (text ++ copy_lines msg.rows)
          (count + length msg.rows)
          outcome
          (Holds (text ++ copy_lines msg.rows) (count + length msg.rows))
          (receive outcome percent item_count stream msg s)
  unfolding receive
  receive-Holds text count msg s h =
      let all = text ++ copy_lines msg.rows in
      let after = count + length msg.rows in
      Ensures-and_then all (λ u s. Holds all count s) (λ u s. Holds all after s)
        (send_large outcome (collect msg.rows s)) _
        (send_large-Holds all count outcome (collect msg.rows s)
          (collect-Holds text count msg.rows s h))
        λ u s h.
          flush_if_due-Holds all after outcome stream msg
            (report percent item_count (length msg.rows) s)
            (report-Holds all count (length msg.rows) s h)

  receive_all-Holds :
      (text : List ℕ) (count : ℕ) (msgs : List Received) (s : Exporter)
      → Holds text count s
      → Reaches
          (text ++ copy_lines (received msgs))
          (count + length (received msgs))
          outcome
          (Holds (text ++ copy_lines (received msgs)) (count + length (received msgs)))
          (receive_all outcome percent item_count stream msgs s)
  unfolding receive_all Ensures copy_lines
  receive_all-Holds text count [] s h = (h.0 ∙ sym (append-nil text), omega (arith, h.1))
  receive_all-Holds text count (msg ∷ msgs) s h =
      rw
        (
          copy_lines-append msg.rows (received msgs),
          length-append msg.rows (received msgs),
          sym (append_assoc text (copy_lines msg.rows) (copy_lines (received msgs))),
          sum_assoc count (length msg.rows) (length (received msgs)),
        )
        (Ensures-and_then ((text ++ copy_lines msg.rows) ++ copy_lines (received msgs))
          (λ u s. Holds (text ++ copy_lines msg.rows) (count + length msg.rows) s)
          (λ u s.
            Holds ((text ++ copy_lines msg.rows) ++ copy_lines (received msgs))
              (count + length msg.rows + length (received msgs)) s)
          (receive outcome percent item_count stream msg s) _
          (Ensures-append (λ u s. Holds (text ++ copy_lines msg.rows) (count + length msg.rows) s)
            (text ++ copy_lines msg.rows) (copy_lines (received msgs))
            (receive outcome percent item_count stream msg s) (receive-Holds text count msg s h))
          (λ u s h.
            receive_all-Holds (text ++ copy_lines msg.rows) (count + length msg.rows) msgs s h))

  pub db_exporter_worker-Ensures :
      (msgs : List Received)
      → Ensures
          (λ n s. (n ≡ length (received msgs)) × (exported s ≡ copy_lines (received msgs)))
          (copy_lines (received msgs))
          (db_exporter_worker outcome percent item_count stream msgs)
  unfolding db_exporter_worker sent
  db_exporter_worker-Ensures msgs =
      let all = copy_lines (received msgs) in
      let count = length (received msgs) in
      let Q : ℕ → Exporter → Type 0 = λ n s. (n ≡ count) × (exported s ≡ all) in
      Ensures-and_then all (λ u s. Holds [] 0 s) Q (open_copy outcome exporter_new) _
        (Ensures-append (λ u s. Holds [] 0 s) [] all (open_copy outcome exporter_new)
          (open_copy-Holds [] 0 outcome (refl, refl)))
        λ u s h.
          Ensures-and_then all (λ u s. Holds all count s) Q
            (receive_all outcome percent item_count stream msgs s) _
            (subst
              (λ n.
                Ensures (λ u s. Holds all n s) all
                  (receive_all outcome percent item_count stream msgs s))
              (zero_sum count) (receive_all-Holds [] 0 msgs s h))
            λ u s h.
              close_copy-Committed all count outcome (report_rest s) h (nothing (received msgs))
