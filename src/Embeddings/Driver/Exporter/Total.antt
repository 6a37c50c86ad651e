-- ===== src/Embeddings/Driver/Exporter/Total.antt =====
-- `db_exporter_worker` of lantern_cli/src/embeddings/mod.rs when no operation of Postgres fails.
use lanterndb.Prelude.{
  ℕ, ◌≡◌, inl, inr, ap, Bool, true, false, List, [], ◌∷◌, length, Result, ok, err, and_then,
  Bool-cases, ltb, ◌==◌,
}
use lanterndb.Embeddings.Driver.Records.{EmbeddingRecord, copy_lines}
use lanterndb.Embeddings.Driver.Exporter.{
  Operation, begin, create_temp_table, copy_in, send, finish, update, commit, chunk_size, due,
  is_empty, perform, send_buf, send_rest, write_out, flush, Received, Exporter, exporter_new,
  collect, report, report_rest, send_large, flush_if_due, receive, receive_all, close_copy,
  open_copy, db_exporter_worker,
}
use lanterndb.Embeddings.Driver.Exporter.Trace.{exported, Ensures}
use lanterndb.Embeddings.Driver.Exporter.Complete.{received, db_exporter_worker-Ensures}

-- No error is returned.
Succeeds : {E A : Type 0} → Result E A × Exporter → Type 0
Succeeds (ok a, s) = Unit
Succeeds (err e, s) = ⊥

Succeeds-and_then :
    {E A B : Type 0} (m : Result E A × Exporter) (f : A → Exporter → Result E B × Exporter)
    → Succeeds m
    → ((a : A) (s : Exporter) → Succeeds (f a s))
    → Succeeds (and_then m f)
unfolding Succeeds
Succeeds-and_then (ok a, s) f h k = k a s
Succeeds-and_then (err e, s) f h k = absurd h

total :
    {E : Type 0} (run : Result E ℕ × Exporter) (rows : List EmbeddingRecord)
    → Succeeds run
    → Ensures (λ n s. (n ≡ length rows) × (exported s ≡ copy_lines rows)) (copy_lines rows) run
    → (run.0 ≡ ok (length rows)) × (exported run.1 ≡ copy_lines rows)
unfolding Succeeds Ensures
total (ok n, s) rows h k = (ap ok k.0, k.1)
total (err e, s) rows h k = absurd h

module _ {E : Type 0} (outcome : List Operation → Operation → Result E (Unit {0}))
    (percent : ℕ → ℕ → ℕ) (item_count : ℕ) (stream : Bool)
    (works : (trace : List Operation) (op : Operation) → outcome trace op ≡ ok tt) where
  perform-Succeeds : (op : Operation) (s : Exporter) → Succeeds (perform outcome op s)
  unfolding perform Succeeds
  perform-Succeeds op s = rw (works s.trace op) tt

  send_rest-Succeeds : (s : Exporter) → Succeeds (send_rest outcome s)
  unfolding send_rest send_buf Succeeds
  send_rest-Succeeds s = elim (Bool-cases (is_empty s.buf)) [
    | inl e ↦ rw e tt
    | inr e ↦ rw e (perform-Succeeds (send s.buf) (record s { buf = [] }))
  ]

  send_large-Succeeds : (s : Exporter) → Succeeds (send_large outcome s)
  unfolding send_large send_buf Succeeds
  send_large-Succeeds s = elim (Bool-cases (ltb chunk_size (length s.buf))) [
    | inl e ↦ rw e (perform-Succeeds (send s.buf) (record s { buf = [] }))
    | inr e ↦ rw e tt
  ]

  write_out-Succeeds : (s : Exporter) → Succeeds (write_out outcome s)
  unfolding write_out
  write_out-Succeeds s = Succeeds-and_then (send_rest outcome s) _ (send_rest-Succeeds s) λ u s.
      Succeeds-and_then (perform outcome finish s) _ (perform-Succeeds finish s) λ u s.
        Succeeds-and_then (perform outcome update s) _ (perform-Succeeds update s)
          λ u s. perform-Succeeds commit s

  flush_if_due-Succeeds :
      (msg : Received) (s : Exporter) → Succeeds (flush_if_due outcome stream msg s)
  unfolding flush_if_due flush Succeeds
  flush_if_due-Succeeds msg s = elim (Bool-cases (due stream msg s)) [
    | inl e ↦ rw e (
        Succeeds-and_then (write_out outcome s) _ (write_out-Succeeds s) λ u s.
          Succeeds-and_then (perform outcome begin s) _ (perform-Succeeds begin s) λ u s.
            Succeeds-and_then (perform outcome (copy_in false) s) _
              (perform-Succeeds (copy_in false) s) λ u s. tt)
    | inr e ↦ rw e tt
  ]

  receive_all-Succeeds :
      (msgs : List Received) (s : Exporter)
      → Succeeds (receive_all outcome percent item_count stream msgs s)
  unfolding receive_all receive Succeeds
  receive_all-Succeeds [] s = tt
  receive_all-Succeeds (msg ∷ msgs) s =
      Succeeds-and_then (receive outcome percent item_count stream msg s) _
        (Succeeds-and_then (send_large outcome (collect msg.rows s)) _
          (send_large-Succeeds (collect msg.rows s))
          λ u s. flush_if_due-Succeeds msg (report percent item_count (length msg.rows) s))
        λ u s. receive_all-Succeeds msgs s

  db_exporter_worker-Succeeds :
      (msgs : List Received) → Succeeds (db_exporter_worker outcome percent item_count stream msgs)
  unfolding db_exporter_worker open_copy close_copy Succeeds
  db_exporter_worker-Succeeds msgs =
      Succeeds-and_then (open_copy outcome exporter_new) _
        (Succeeds-and_then (perform outcome begin exporter_new) _
          (perform-Succeeds begin exporter_new)
          λ u s.
            Succeeds-and_then (perform outcome create_temp_table s) _
              (perform-Succeeds create_temp_table s)
              λ u s.
                Succeeds-and_then (perform outcome commit s) _ (perform-Succeeds commit s) λ u s.
                  Succeeds-and_then (perform outcome begin s) _ (perform-Succeeds begin s)
                    λ u s. perform-Succeeds (copy_in true) s)
        λ u s.
          Succeeds-and_then (receive_all outcome percent item_count stream msgs s) _
            (receive_all-Succeeds msgs s)
            λ u s. elim (Bool-cases (s.processed_row_cnt == 0)) [
              | inl e ↦ rw e tt
              | inr e ↦ rw e (
                  Succeeds-and_then (write_out outcome (report_rest s)) _
                    (write_out-Succeeds (report_rest s)) λ u t. tt)
            ]

  -- When every operation of Postgres succeeds, the task returns the number of all the records, and
  -- the text committed is their lines in order.
  pub db_exporter_worker_total :
      (msgs : List Received)
      → let run = db_exporter_worker outcome percent item_count stream msgs in
        (run.0 ≡ ok (length (received msgs))) × (exported run.1 ≡ copy_lines (received msgs))
  db_exporter_worker_total msgs =
      total (db_exporter_worker outcome percent item_count stream msgs) (received msgs)
        (db_exporter_worker-Succeeds msgs)
        (db_exporter_worker-Ensures outcome percent item_count stream msgs)
