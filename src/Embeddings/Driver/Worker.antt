-- ===== src/Embeddings/Driver/Worker.antt =====
-- The tasks `producer_worker` and `embedding_worker` of lantern_cli/src/embeddings/mod.rs. The
-- portal, the runtime and the channels are parameters; a channel's other end may be closed.
pub mod Batches
pub mod Answers
use mathlib.Core.List.{reverse}
use lanterndb.Prelude.{
  ℕ, zero, suc, ◌+◌, ◌%◌, Bool, true, false, ◌&&◌, Option, none, some, List, [], ◌∷◌, if◌then◌else◌,
  length, Result, ok, err, and_then,
}
use lanterndb.Embeddings.Driver.Records.{EmbeddingRecord, from_vec, from_string}

-- A row of the portal: the key, and the text when the column has one.
pub record Row : Type 0 where
  pub pk : List ℕ
  pub src_data : Option (List ℕ)

-- The producer: on fuel, one unit for each poll.
module _ {P E T : Type 0} (query_portal : P → ℕ → Result E (List Row) × P)
    (send : T → List Row → Bool × T) where
  abbrev pub rows_sent :
      (P → T → Option (Result E (Unit {0}) × T)) → P → Bool × T → Option (Result E (Unit {0}) × T)
  rows_sent next portal (false, tx) = some (ok tt, tx)
  rows_sent next portal (true, tx) = next portal tx

  abbrev pub rows_polled :
      (P → T → Option (Result E (Unit {0}) × T))
      → Result E (List Row) × P
      → T
      → Option (Result E (Unit {0}) × T)
  rows_polled next (err e, portal) tx = some (err e, tx)
  rows_polled next (ok [], portal) tx = some (ok tt, tx)
  rows_polled next (ok (row ∷ rows), portal) tx = rows_sent next portal (send tx (row ∷ rows))

  -- The batch size is given as `i32`: its low 32 bits.
  unfoldable pub producer_worker : ℕ → ℕ → P → T → Option (Result E (Unit {0}) × T)
  producer_worker zero batch_size portal tx = none
  producer_worker (suc fuel) batch_size portal tx =
      rows_polled (producer_worker fuel batch_size) (query_portal portal (batch_size % 4294967296))
        tx

pub data EmbeddingJobType : Type 0 where
  embedding_generation : EmbeddingJobType
  completion : EmbeddingJobType

pub data Message : Type 0 where
  batch : List Row → Message
  cancelled : Message

pub data WorkerError (E : Type 0) : Type 0 where
  runtime_failed : E → WorkerError E
  job_cancelled : WorkerError E
  -- `unwrap` on the end of a vector
  panicked : WorkerError E

-- The variables of the loop, with the runtime's state and the channel to the exporter.
pub record Worker (R T : Type 0) : Type 0 where
  pub count : ℕ
  pub processed_tokens : ℕ
  pub runtime : R
  pub tx : T

-- `str.trim() == ""`
abbrev pub is_blank : (ℕ → Bool) → List ℕ → Bool
is_blank is_whitespace [] = true
is_blank is_whitespace (c ∷ text) = is_whitespace c && is_blank is_whitespace text

-- The inputs and their keys: the rows that have a text with more than spaces.
abbrev pub push_row :
    (ℕ → Bool)
    → List ℕ
    → Option (List ℕ)
    → List (List ℕ) × List (List ℕ)
    → List (List ℕ) × List (List ℕ)
push_row is_whitespace pk none acc = acc
push_row is_whitespace pk (some text) acc =
    if is_blank is_whitespace text then acc else (text ∷ acc.0, pk ∷ acc.1)

unfoldable pub inputs_of : (ℕ → Bool) → List Row → List (List ℕ) × List (List ℕ)
inputs_of is_whitespace [] = ([], [])
inputs_of is_whitespace (row ∷ rows) =
    push_row is_whitespace row.pk row.src_data (inputs_of is_whitespace rows)

abbrev pub push_record :
    EmbeddingRecord → Option (List EmbeddingRecord) → Option (List EmbeddingRecord)
push_record r none = none
push_record r (some rs) = some (r ∷ rs)

-- The two vectors are popped together, once for each answer; both are given from their ends.
unfoldable pub pop_pairs :
    {V : Type 0}
    → (List ℕ → V → EmbeddingRecord)
    → List (List ℕ)
    → List V
    → Option (List EmbeddingRecord)
pop_pairs make ids [] = some []
pop_pairs make [] (v ∷ values) = none
pop_pairs make (id ∷ ids) (v ∷ values) = push_record (make id v) (pop_pairs make ids values)

module _ {F E R T : Type 0} (is_whitespace : ℕ → Bool) (show : F → List ℕ)
    (process : R → List (List ℕ) → Result E (List (List F) × ℕ) × R)
    (batch_completion : R → List (List ℕ) → Result E (List (List ℕ) × ℕ) × R)
    (send : T → List EmbeddingRecord → Bool × T) where
  abbrev pub records_sent : Bool × T → Worker R T → Result (WorkerError E) Bool × Worker R T
  records_sent (is_open, tx) s = (ok is_open, record s { tx = tx })

  abbrev pub send_records :
      Option (List EmbeddingRecord) → Worker R T → Result (WorkerError E) Bool × Worker R T
  send_records none s = (err panicked, s)
  send_records (some response_data) s = records_sent (send s.tx response_data) s

  -- The answer of the runtime: the tokens and the answers are counted, and the records sent.
  abbrev pub answered :
      {V : Type 0}
      → (List ℕ → V → EmbeddingRecord)
      → List (List ℕ)
      → Result E (List V × ℕ) × R
      → Worker R T
      → Result (WorkerError E) Bool × Worker R T
  answered make input_ids (err e, r) s = (err (runtime_failed e), record s { runtime = r })
  answered make input_ids (ok (values, tokens), r) s =
      send_records (pop_pairs make (reverse input_ids) (reverse values)) (record s {
        count = s.count + length values;
        processed_tokens = s.processed_tokens + tokens;
        runtime = r;
      })

  unfoldable pub generate :
      EmbeddingJobType
      → List (List ℕ) × List (List ℕ)
      → Worker R T
      → Result (WorkerError E) Bool × Worker R T
  unfolding pop_pairs
  generate job_type ([], input_ids) s = (ok true, s)
  generate embedding_generation (i ∷ inputs, input_ids) s =
      answered (from_vec show) input_ids (process s.runtime (i ∷ inputs)) s
  generate completion (i ∷ inputs, input_ids) s =
      answered from_string input_ids (batch_completion s.runtime (i ∷ inputs)) s

  abbrev pub go_on :
      (Worker R T → Result (WorkerError E) ℕ × Worker R T)
      → Bool
      → Worker R T
      → Result (WorkerError E) ℕ × Worker R T
  go_on next true s = next s
  go_on next false s = (ok s.processed_tokens, s)

  -- The loop, for the messages that `select!` takes; the channel is closed after the last one.
  unfoldable pub embedding_worker :
      EmbeddingJobType → List Message → Worker R T → Result (WorkerError E) ℕ × Worker R T
  unfolding inputs_of generate
  embedding_worker job_type [] s = (ok s.processed_tokens, s)
  embedding_worker job_type (cancelled ∷ msgs) s = (err job_cancelled, s)
  embedding_worker job_type (batch rows ∷ msgs) s =
      and_then (generate job_type (inputs_of is_whitespace rows) s)
        (go_on (embedding_worker job_type msgs))
