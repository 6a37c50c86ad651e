-- ===== src/Lib.antt =====
-- Lantern: vector search for Postgres, and the programs beside the database. This development models
-- the logic of lantern_cli, the program that builds indexes outside the database, generates
-- embeddings, runs the jobs of the daemon and quantizes vectors, and the ranking of documents in
-- lantern_extras, the extension.
--
-- Parts and files
-- - IndexServer models lantern_cli/src/external_index/server.rs. Protocol has the frames of the
--   protocol (`read_frame`), Rows the loop that receives rows (`parse_tuple`, `receive_rows`), Options
--   the header (`parse_index_options`, and `UMetricKind::from_u32` of external_index/cli.rs), Workers
--   the threads that add rows as a step relation, Session the whole session (`initialize_index`,
--   `create_streaming_usearch_index`) and Status the accept loop (`start_indexing_server`,
--   `ServerContext`). A session calls Options, then Rows, and gives its rows to the workers.
-- - Embeddings models lantern_cli/src/embeddings/core/: Http the requests with retries
--   (`post_with_retries` of utils.rs, `post_request` of http_runtime.rs), OpenAi and Cohere the
--   runtimes that cut the inputs into requests (`chunk_inputs`, `group_vectors_by_token_count`,
--   `process`).
-- - Embeddings.Driver models lantern_cli/src/embeddings/mod.rs, which runs three tasks over two
--   channels: Records has the lines that are copied (`EmbeddingRecord`), Worker the producer and the
--   worker (`producer_worker`, `embedding_worker`), Exporter the exporter (`db_exporter_worker`) as a
--   trace of operations on Postgres, Defaults the tables of sizes, and Pipeline the three joined
--   (`create_embeddings_from_db`). The runtimes of Embeddings stand behind the worker as a parameter.
-- - Embeddings.Ort models the models that run locally, lantern_cli/src/embeddings/core/ort_runtime.rs:
--   its own file how the inputs are cut to fit the memory (`chunk_session_input`), Pooling the
--   strategies, Text and Images the encoders (`process_text_bert`, `process_image_clip` and the
--   visual branch of `process`), Models the models and their builder, Loading how a model is made
--   ready (`check_and_download_files`, `check_available_memory`) and Runtime `process` with its cache.
-- - Daemon.Queue models the way of a row through lantern_cli/src/daemon/embedding_jobs.rs: `lock_row`,
--   the batching map and the collector of `job_insert_processor`, `embedding_worker`, `unlock_rows`,
--   and `schedule_job_retry` of daemon/helpers.rs. Daemon.Stream models `stream_job` of the same
--   file, which streams the rows of a new job in batches, and Daemon.Targets the targets of
--   daemon/types.rs and daemon/mod.rs with the restarts of their jobs. Daemon.Clients models the jobs
--   that listen on a client's table, daemon/client_embedding_jobs.rs: their map, their tasks and
--   signals, the payloads of the triggers (Payload), and the updates that start and stop them
--   (Updates, `job_update_processor` of daemon/embedding_jobs.rs). Daemon.IndexJobs models the
--   autotune jobs, daemon/autotune_jobs.rs with daemon/helpers.rs: the jobs that are taken up
--   (`collect_pending_index_jobs`, `job_insert_processor`), the handles, the notifications
--   (`db_notification_listener`), and in Run one job as the steps of `autotune_worker` and
--   `autotune_job_processor`, which wait for each other.
-- - Autotune models lantern_cli/src/index_autotune/mod.rs: the loop over the variants of an index
--   (`autotune_index`) and the choice of the best (`find_best_variant`).
-- - Bm25 models lantern_extras/src/bm25_agg.rs: the scores of a group of rows and the choice of the
--   best (`calculate_bm25`, `state_base`, `finalize_base`). Dotvecs models the vector files of
--   lantern_extras/src/dotvecs.rs (`parse_vecs`).
-- - Pq models lantern_cli/src/pq/: Quantization the codes (`get_closest_centroid`,
--   `quantize_vectors`), Ranges the division of rows and subvectors between tasks and connections
--   (`quantize_and_write_vectors` of quantization.rs, `create_codebook` of codebook.rs), Progress
--   the progress of mod.rs, Driver what `quantize_table` calls, in which order and with what, and
--   Driver.Gcp the same on GCP, with the sizes of the batches of gcp_batch.rs.
-- - Sql models lantern_cli/src/utils/mod.rs: quoting and connection strings.
-- - Prelude has the shared names and lemmas, Bytes the little-endian integers.
--
-- How code corresponds to definitions
-- - A function keeps its name. A body that Rust writes as one match is cut into helpers by clauses,
--   named for the step they do. `?` is `and_then`; an error is a value of the module's own type; a
--   panic is an error of its own or `none`.
-- - Shared state is passed and returned. A constructor named `data` in the source is `payload` here.
-- - A connection, the usearch index, the HTTP service, the tokenizer, the floats, the clock and the
--   tables of the database are parameters; what the code relies on is a record of laws: IsStream,
--   IsPrompt and IsWriter for a connection, IsReserving and IsReady for an index, IsService for a
--   service, IsOrdered for the floats; in Embeddings.Ort, IsPadded for a tokenizer, IsRowwise and
--   IsVision for a session. In Bm25 the laws of the heap, the sort and the order of floats
--   are the parameters of a section.
-- - Integers are natural numbers; `usize` and `u8` wrap where the source may (the doubled capacity,
--   the code of a centroid, the progress). A float that is only passed on is its bit pattern.
--
-- Bounds and fuel
-- - `receive_loop` and `codebook_loop` run on fuel, one unit for each frame: more fuel than there
--   are bytes to read is enough, since a frame takes at least four. `stream_loop` takes one unit for
--   each batch, and `producer_worker` one for each poll: more fuel than there are rows is enough.
--   `chunk_loop` has the length of the list as fuel, which is enough for a positive size.
-- - A sort of the standard library is an insertion sort by the comparator (Prelude.Sorting).
-- - The event channel of a running job holds one event, as in the source.
--
-- Not modelled: log messages, timings and the progress lines of the server; TLS, timeouts of sockets
-- and the status endpoint; the database tables beyond the lock table and the job's own row; parsing
-- of JSON; the SQL texts of the driver, of the triggers, of autotune and of BM25, and a comparison of
-- NaN; in the joined driver a channel that is closed early, and among the client jobs two overlapping
-- starts of one job, a restart that never succeeds and the pings; the setup of tables and triggers in
-- daemon/helpers.rs; decoding and resizing of images, the tokenizer and the sessions of
-- ort_runtime.rs, whose arrays are nested lists; the requests of `run_batch_job`, the image and the
-- region of a batch in pq/gcp_batch.rs; the HTTP server of lantern_cli; the bindings of
-- lantern_extras; the C extension lantern_hnsw.
pub mod Prelude
pub mod Bytes
pub mod IndexServer
pub mod Embeddings
pub mod Daemon
pub mod Autotune
pub mod Bm25
pub mod Dotvecs
pub mod Pq
pub mod Sql
