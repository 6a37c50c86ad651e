-- ===== src/Daemon/Stream/Finished.antt =====
-- What becomes of the job, for `stream_job` of lantern_cli/src/daemon/embedding_jobs.rs.
use Prim.Native.String.{String}
use lanterndb.Prelude.{◌≡◌, ◌⊎◌, ◌++◌, concat, true, false, some, List}
use lanterndb.Daemon.Stream.{Streaming, JobRow}

-- What a job's row says after it was streamed, and which of its rows the batches hold.
abbrev pub IsSettled : List String → JobRow → Streaming → Type 0
IsSettled rows job s =
    ((job.finished ≡ true)
      × (job.percent_done ≡ 100)
      × (job.client_job ≡ true)
      × (concat s.batches ≡ rows))
    ⊎ ((e : String) × (job.finished ≡ false)
        × (job.failure ≡ some e)
        × (job.client_job ≡ false)
        × (concat s.batches ++ s.table ≡ rows))
