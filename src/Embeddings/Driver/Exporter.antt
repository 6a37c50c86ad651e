-- ===== src/Embeddings/Driver/Exporter.antt =====
-- The task of `db_exporter_worker` in lantern_cli/src/embeddings/mod.rs: the records that arrive are
-- copied into a temporary table, and the target table is updated from it. Postgres is a parameter:
-- whether an operation succeeds, given the operations before it.
pub mod Trace
pub mod Complete
pub mod Total
use lanterndb.Prelude.{
  ℕ, zero, suc, ◌+◌, ◌-◌, ◌*◌, min, Bool, true, false, ◌&&◌, ◌||◌, not, List, [], ◌∷◌, ◌++◌, ltb,
  leb, ◌==◌, if◌then◌else◌, length, Result, ok, err, and_then,
}
use lanterndb.Embeddings.Driver.Records.{EmbeddingRecord, copy_lines}

pub data Operation : Type 0 where
  begin : Operation
  create_temp_table : Operation
  -- `copy_in`; the flag tells whether the statement has `WITH NULL AS 'NULL'`.
  copy_in : Bool → Operation
  send : List ℕ → Operation
  finish : Operation
  update : Operation
  commit : Operation

-- A message of the channel, the second of its arrival, and the second a flush after it ends.
pub record Received : Type 0 where
  pub rows : List EmbeddingRecord
  pub arrived : ℕ
  pub flushed : ℕ

-- The variables of the task. `trace` holds the operations that succeeded, the latest first;
-- `reported` the calls of `progress_cb`, the latest first.
pub record Exporter : Type 0 where
  pub trace : List Operation
  pub buf : List ℕ
  pub collected_row_cnt : ℕ
  pub processed_row_cnt : ℕ
  pub old_progress : ℕ
  pub start : ℕ
  pub reported : List ℕ

abbrev pub exporter_new : Exporter
exporter_new = record {
  trace = [];
  buf = [];
  collected_row_cnt = 0;
  processed_row_cnt = 0;
  old_progress = 0;
  start = 0;
  reported = [];
}

-- 10 MB
abbrev pub chunk_size : ℕ
chunk_size = 1024 * 1024 * 10

abbrev pub flush_interval : ℕ
flush_interval = 10

abbrev pub min_flush_rows : ℕ
min_flush_rows = 50

abbrev pub max_flush_rows : ℕ
max_flush_rows = 1000

-- The quotient of the floats times 100 is a parameter; `as u8` saturates.
unfoldable pub calculate_progress : (ℕ → ℕ → ℕ) → ℕ → ℕ → ℕ
calculate_progress percent total processed =
    if total == 0 then 0 else min 255 (percent total processed)

-- The lines of the rows are added to the buffer.
unfoldable pub collect : List EmbeddingRecord → Exporter → Exporter
collect rows s = record s {
  buf = s.buf ++ copy_lines rows;
  collected_row_cnt = s.collected_row_cnt + length rows;
}

-- The rows are counted, and a higher progress is reported.
unfoldable pub report : (ℕ → ℕ → ℕ) → ℕ → ℕ → Exporter → Exporter
unfolding calculate_progress
report percent item_count row_cnt s =
    let processed = s.processed_row_cnt + row_cnt in
    let progress = calculate_progress percent item_count processed in
    let higher = ltb s.old_progress progress in
    record s {
      processed_row_cnt = processed;
      old_progress = if higher then progress else s.old_progress;
      reported = if higher then progress ∷ s.reported else s.reported;
    }

abbrev pub restart : ℕ → Exporter → Exporter
restart now s = record s { collected_row_cnt = 0; start = now }

abbrev pub report_rest : Exporter → Exporter
report_rest s = record s {
  reported = if s.old_progress == 100 then s.reported else 100 ∷ s.reported;
}

abbrev pub is_empty : List ℕ → Bool
is_empty [] = true
is_empty (c ∷ text) = false

-- The test for a flush: only in streaming mode, by the rows collected or the time passed.
abbrev pub due : Bool → Received → Exporter → Bool
due stream msg s =
    stream
    && (leb max_flush_rows s.collected_row_cnt
        || (leb flush_interval (msg.arrived - s.start) && leb min_flush_rows s.collected_row_cnt))

module _ {E : Type 0} (outcome : List Operation → Operation → Result E (Unit {0})) where
  abbrev pub performed : Result E (Unit {0}) → Operation → Exporter → Result E (Unit {0}) × Exporter
  performed (ok u) operation s = (ok tt, record s { trace = operation ∷ s.trace })
  performed (err e) operation s = (err e, s)

  unfoldable pub perform : Operation → Exporter → Result E (Unit {0}) × Exporter
  perform operation s = performed (outcome s.trace operation) operation s

  -- `writer_sink.send(buf.split().freeze())`
  unfoldable pub send_buf : Exporter → Result E (Unit {0}) × Exporter
  unfolding perform
  send_buf s = perform (send s.buf) (record s { buf = [] })

  unfoldable pub send_rest : Exporter → Result E (Unit {0}) × Exporter
  unfolding send_buf
  send_rest s = if is_empty s.buf then (ok tt, s) else send_buf s

  unfoldable pub send_large : Exporter → Result E (Unit {0}) × Exporter
  unfolding send_buf
  send_large s = if ltb chunk_size (length s.buf) then send_buf s else (ok tt, s)

  -- The copy is ended, and the table updated from it.
  unfoldable pub write_out : Exporter → Result E (Unit {0}) × Exporter
  unfolding send_rest perform
  write_out s =
      and_then (send_rest s) λ _ s.
        and_then (perform finish s) λ _ s. and_then (perform update s) λ _ s. perform commit s

  unfoldable pub flush : ℕ → Exporter → Result E (Unit {0}) × Exporter
  unfolding write_out perform
  flush now s = and_then (write_out s) λ _ s.
      and_then (perform begin s)
        λ _ s. and_then (perform (copy_in false) s) λ _ s. (ok tt, restart now s)

  unfoldable pub flush_if_due : Bool → Received → Exporter → Result E (Unit {0}) × Exporter
  unfolding flush
  flush_if_due stream msg s = if due stream msg s then flush msg.flushed s else (ok tt, s)

  -- The body of the loop.
  unfoldable pub receive :
      (ℕ → ℕ → ℕ) → ℕ → Bool → Received → Exporter → Result E (Unit {0}) × Exporter
  unfolding collect send_large report flush_if_due
  receive percent item_count stream msg s =
      and_then (send_large (collect msg.rows s))
        λ _ s. flush_if_due stream msg (report percent item_count (length msg.rows) s)

  unfoldable pub receive_all :
      (ℕ → ℕ → ℕ) → ℕ → Bool → List Received → Exporter → Result E (Unit {0}) × Exporter
  unfolding receive
  receive_all percent item_count stream [] s = (ok tt, s)
  receive_all percent item_count stream (msg ∷ msgs) s =
      and_then (receive percent item_count stream msg s)
        λ _ s. receive_all percent item_count stream msgs s

  unfoldable pub open_copy : Exporter → Result E (Unit {0}) × Exporter
  unfolding perform
  open_copy s = and_then (perform begin s) λ _ s. and_then (perform create_temp_table s) λ _ s.
      and_then (perform commit s) λ _ s. and_then (perform begin s) λ _ s. perform (copy_in true) s

  -- What follows the loop.
  unfoldable pub close_copy : Exporter → Result E ℕ × Exporter
  unfolding write_out
  close_copy s =
      if s.processed_row_cnt == 0
      then (ok 0, s)
      else and_then (write_out s) λ _ t. (ok s.processed_row_cnt, t)

  -- The task, for the messages that arrive before the channel is closed.
  unfoldable pub db_exporter_worker : (ℕ → ℕ → ℕ) → ℕ → Bool → List Received → Result E ℕ × Exporter
  unfolding open_copy receive_all close_copy
  db_exporter_worker percent item_count stream msgs = and_then (open_copy exporter_new) λ _ s.
      and_then (receive_all percent item_count stream msgs s) λ _ s. close_copy (report_rest s)
