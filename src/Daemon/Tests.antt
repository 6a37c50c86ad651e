-- ===== src/Daemon/Tests.antt =====
-- The theorems on lantern_cli/src/daemon/ at concrete inputs.
use Prim.Native.String.{String}
use lanterndb.Prelude.{
  ℕ, zero, suc, ◌*◌, ◌/◌, ◌≡◌, refl, true, false, Option, none, some, [], ◌∷◌, arith, ltb,
  if◌then◌else◌, Result,
}
use lanterndb.Daemon.Stream.{
  JobEvent, done, errored, Streaming, JobRow, start_of, stream_rows, stream_job,
}
use lanterndb.Daemon.Stream.Batches.{IsStreamed, stream_rows-IsStreamed}
use lanterndb.Daemon.Queue.{Lock, BatchJob, Queue, locks_of}

abbrev empty_queue : Queue
empty_queue = record { locks = []; batching = []; jobs = []; retries = []; lost = [] }

abbrev load_job : ℕ → Option ℕ
load_job id = if ltb id 5 then some 3 else none

abbrev failing_job : BatchJob
failing_job = record { id = 1; is_init = false; row_ids = some ("a" ∷ "b" ∷ []) }

abbrev failing_queue : Queue
failing_queue = record empty_queue { locks = locks_of 1 ("a" ∷ "b" ∷ []); jobs = failing_job ∷ [] }

abbrev row_a : Lock
row_a = record { job_id = 1; row_id = "a" }

-- The worker reports no error, then one for the second batch.
abbrev all_done : ℕ → Option JobEvent
all_done k = some done

abbrev second_fails : ℕ → Option JobEvent
second_fails zero = some done
second_fails (suc k) = some (errored "no model")

abbrev percentage : ℕ → ℕ → ℕ
percentage processed total = processed * 100 / total

abbrev new_job : JobRow
new_job = record { finished = false; failure = none; percent_done = 0; client_job = false }

streams_all :
    stream_job all_done percentage true 4 2 ("a" ∷ "b" ∷ "c" ∷ []) new_job
    ≡ some (
      record { finished = true; failure = none; percent_done = 100; client_job = true },
      record {
        table = [];
        processed_rows = 3;
        progress = 100;
        batches = ("a" ∷ "b" ∷ []) ∷ ("c" ∷ []) ∷ [];
        init_progress = 66 ∷ 100 ∷ [];
      },
    )
unfolding stream_job
streams_all = refl

streams_one :
    stream_job second_fails percentage true 4 2 ("a" ∷ "b" ∷ "c" ∷ []) new_job
    ≡ some (
      record { finished = false; failure = some "no model"; percent_done = 66; client_job = false },
      record {
        table = [];
        processed_rows = 2;
        progress = 66;
        batches = ("a" ∷ "b" ∷ []) ∷ ("c" ∷ []) ∷ [];
        init_progress = 66 ∷ [];
      },
    )
unfolding stream_job
streams_one = refl

stream_rows-IsStreamed_example :
    (result : Result String (Unit {0})) × (s' : Streaming) × (stream_rows second_fails percentage
        true 4 2
        ("a" ∷ "b" ∷ "c" ∷ [])
      ≡ some (result, s'))
    × IsStreamed 2 (start_of ("a" ∷ "b" ∷ "c" ∷ [])) result s'
stream_rows-IsStreamed_example =
    stream_rows-IsStreamed second_fails percentage true 4 2 ("a" ∷ "b" ∷ "c" ∷ []) (omega arith)
      (omega arith)
