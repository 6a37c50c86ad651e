-- ===== src/IndexServer/Status.antt =====
-- The server around the sessions: `ServerStatus`, `ServerContext` and `start_indexing_server` of
-- lantern_cli/src/external_index/server.rs. A session is a parameter (Session gives one); the
-- clock, the accepted sockets and the error texts are parameters too.
use lanterndb.Prelude.{ℕ, ◌%◌, ◌^◌, List, [], ◌∷◌, ◌++◌, length, Result, ok, err}
use lanterndb.Bytes.{to_le_bytes}
use lanterndb.IndexServer.Protocol.{Connection, ServerError, write_panicked, err_msg}

pub data ServerStatus : Type 0 where
  idle in_progress failed succeded : ServerStatus

-- `history` is every status that was set, the latest last.
pub record ServerContext : Type 0 where
  pub status : ServerStatus
  pub status_updated_at : ℕ
  pub history : List ServerStatus

unfoldable pub set_status : ServerContext → ServerStatus → ℕ → ServerContext
set_status ctx status now = record {
  status = status;
  status_updated_at = now;
  history = ctx.history ++ status ∷ [];
}

unfoldable pub new_context : ℕ → ServerContext
unfolding set_status
new_context now =
    set_status (record { status = idle; status_updated_at = 0; history = [] }) idle now

-- The header, the length as a `u32` and the text.
unfoldable pub error_reply : List ℕ → List ℕ
error_reply error_text =
    to_le_bytes 4 err_msg ++ (to_le_bytes 4 (length error_text % 2 ^ 32) ++ error_text)

-- What `listener.incoming()` gives: a connection, one whose timeouts or TLS state cannot be set up
-- (the error's code), or an error.
pub data Incoming (S : Type 0) : Type 0 where
  connected : S → Incoming S
  unusable : ℕ → Incoming S
  refused : ℕ → Incoming S

-- How the server stops: the listener ended, `?` returned an error, or a panic.
pub data Stop : Type 0 where
  listener_ended : Stop
  returned : ℕ → Stop
  panicked : Stop

module _ {S : Type 0} (c : Connection S) (session : S → Result ServerError (Unit {0}) × S)
    (error_text : ServerError → List ℕ) (clock : ℕ → ℕ) where
  -- The reply is sent as far as it goes: its result is dropped.
  pub after_session :
      ServerContext
      → Result ServerError (Unit {0}) × S
      → Result Stop (Unit {0}) × (ServerContext × S)
  unfolding set_status
  after_session ctx (ok _, s) = (ok tt, (set_status ctx succeded (clock (length ctx.history)), s))
  after_session ctx (err write_panicked, s) = (err panicked, (ctx, s))
  after_session ctx (err e, s) =
      let ctx' = set_status ctx failed (clock (length ctx.history)) in
      let s' = (c.write_data s (error_reply (error_text e))).1 in
      (ok tt, (set_status ctx' succeded (clock (length ctx'.history)), s'))

  pub serve_connection : ServerContext → S → Result Stop (Unit {0}) × (ServerContext × S)
  unfolding after_session set_status
  serve_connection ctx s =
      after_session (set_status ctx in_progress (clock (length ctx.history))) (session s)

  abbrev serve_next :
      (ServerContext → Stop × ServerContext)
      → Result Stop (Unit {0}) × (ServerContext × S)
      → Stop × ServerContext
  serve_next rest (ok _, (ctx, s)) = rest ctx
  serve_next rest (err stop, (ctx, s)) = (stop, ctx)

  unfoldable pub start_indexing_server : List (Incoming S) → ServerContext → Stop × ServerContext
  unfolding serve_connection
  start_indexing_server [] ctx = (listener_ended, ctx)
  start_indexing_server (connected s ∷ incoming) ctx =
      serve_next (start_indexing_server incoming) (serve_connection ctx s)
  start_indexing_server (unusable e ∷ incoming) ctx = (returned e, ctx)
  start_indexing_server (refused e ∷ incoming) ctx = start_indexing_server incoming ctx
