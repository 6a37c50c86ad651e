-- ===== src/Daemon/Stream/Batches.antt =====
-- The batches that `stream_job` of lantern_cli/src/daemon/embedding_jobs.rs sends.
use Prim.Native.String.{String}
use lanterndb.Prelude.{
  ℕ, zero, suc, ◌≤◌, ◌<◌, ◌≡◌, refl, ap, ◌∙◌, sym, Bool, Option, none, some, List, [], ◌∷◌, ◌++◌,
  arith, length, take, drop, concat, All, length-take, length-drop, length-append, take-append-drop,
  append_assoc, append-nil, Result, ok, err,
}
use lanterndb.Daemon.Stream.{
  JobEvent, done, errored, Streaming, advance, on_rows, stream_loop, start_of, stream_rows,
}

-- What a run of the loop did from `s` to `s'`: it sent batches of at most `size` rows, in the order
-- of the table, and left the others, none of them unless it was told of an error.
pub record IsStreamed (size : ℕ) (s : Streaming) (result : Result String (Unit {0}))
    (s' : Streaming) : Type 0 where
  pub added : List (List String)
  pub sent : s'.batches ≡ s.batches ++ added
  pub ordered : s.table ≡ concat added ++ s'.table
  pub sized : All (λ batch. (0 < length batch) × (length batch ≤ size)) added
  pub whole : result ≡ ok tt → s'.table ≡ []

module _ (event : ℕ → Option JobEvent) (percent : ℕ → ℕ → ℕ) (is_init : Bool) (total_rows : ℕ) where
  advance_keeps :
      (sent : ℕ) (s : Streaming)
      → ((advance event percent is_init total_rows sent s).table ≡ s.table)
        × ((advance event percent is_init total_rows sent s).batches ≡ s.batches)
  unfolding advance
  advance_keeps sent s = ground arith

  one_batch :
      (size : ℕ) (batch : List String) (s s₁ s' : Streaming) (result : Result String (Unit {0}))
      → 0 < length batch
      → length batch ≤ size
      → s.table ≡ batch ++ s₁.table
      → s₁.batches ≡ s.batches ++ batch ∷ []
      → IsStreamed size s₁ result s'
      → IsStreamed size s result s'
  one_batch size batch s s₁ s' result some_row small front sent h = record {
    added = batch ∷ h.added;
    sent =
        h.sent
        ∙ (ap (λ (t : List (List String)). t ++ h.added) sent
            ∙ append_assoc s.batches (batch ∷ []) h.added);
    ordered =
        front
        ∙ (ap (λ (t : List String). batch ++ t) h.ordered
            ∙ sym (append_assoc batch (concat h.added) s'.table));
    sized = ((some_row, small), h.sized);
    whole = h.whole;
  }

  abbrev StreamsFrom : ℕ → ℕ → Streaming → Type 0
  StreamsFrom fuel size s =
      (result : Result String (Unit {0})) × (s' : Streaming) × (stream_loop event percent is_init
          total_rows fuel size s
        ≡ some (result, s'))
      × IsStreamed size s result s'

  none_left : (size : ℕ) (table : List String) → 0 < size → take size table ≡ [] → table ≡ []
  none_left size [] pos e = refl
  none_left zero (row ∷ table) pos e = absurd (omega arith)
  none_left (suc size) (row ∷ table) pos e = cc

  after_rows :
      (fuel size : ℕ) (s : Streaming) (rows : List String) (o : Option JobEvent)
      → ((t : Streaming) → length t.table < fuel → StreamsFrom fuel size t)
      → 0 < size
      → length s.table < suc fuel
      → take size s.table ≡ rows
      → event (length s.batches) ≡ o
      → (result : Result String (Unit {0})) × (s' : Streaming) × (on_rows event percent is_init
            total_rows
            (stream_loop event percent is_init total_rows fuel size)
            rows
            (record s { table = drop size s.table })
          ≡ some (result, s'))
        × IsStreamed size s result s'
  after_rows fuel size s [] o ih pos enough e f = (
    ok tt,
    record s { table = drop size s.table },
    refl,
    record {
      added = [];
      sent = sym (append-nil s.batches);
      ordered = ground (arith, e, take-append-drop size s.table);
      sized = tt;
      whole = λ _. ground (arith, none_left size s.table pos e, take-append-drop size s.table, e);
    },
  )
  after_rows fuel size s (row ∷ rows) o ih pos enough e f = outcome o f
    where
      batch : List String
      batch = row ∷ rows

      t : Streaming
      t = record s { table = drop size s.table; batches = s.batches ++ batch ∷ [] }

      small : length batch ≤ size
      small = omega (arith, length-take size s.table, ap length e)

      front : s.table ≡ batch ++ drop size s.table
      front =
          sym (
            ap (λ (x : List String). x ++ drop size s.table) (sym e)
            ∙ take-append-drop size s.table)

      fewer : length (drop size s.table) < fuel
      fewer = omega (
        arith,
        length-drop size s.table,
        ap length front,
        length-append batch (drop size s.table),
      )

      outcome :
          (m : Option JobEvent)
          → event (length s.batches) ≡ m
          → (result : Result String (Unit {0})) × (s' : Streaming) × (on_rows event percent is_init
                total_rows
                (stream_loop event percent is_init total_rows fuel size)
                (row ∷ rows)
                (record s { table = drop size s.table })
              ≡ some (result, s'))
            × IsStreamed size s result s'
      outcome none g =
          let x = ih t fewer in
          (
            x.0,
            x.1,
            rw g x.2,
            one_batch size (row ∷ rows) s t x.1 x.0 (omega arith) small front refl x.3,
          )
      outcome (some done) g =
          let t' = advance event percent is_init total_rows (length (row ∷ rows)) t in
          let k = advance_keeps (length (row ∷ rows)) t in
          let x = ih t' (omega (arith, ap length k.0, fewer)) in
          (
            x.0,
            x.1,
            rw g x.2,
            one_batch size (row ∷ rows) s t' x.1 x.0 (omega arith) small
                (front ∙ ap (λ (y : List String). (row ∷ rows) ++ y) (sym k.0)) k.1 x.3,
          )
      outcome (some (errored x)) g = (
        err x,
        t,
        rw g refl,
        record {
          added = (row ∷ rows) ∷ [];
          sent = refl;
          ordered =
              front
              ∙ ap (λ (y : List String). y ++ drop size s.table) (sym (append-nil (row ∷ rows)));
          sized = ((omega arith, small), tt);
          whole = λ c. cc;
        },
      )

  stream_loop-IsStreamed :
      (fuel size : ℕ) (s : Streaming) → 0 < size → length s.table < fuel → StreamsFrom fuel size s
  unfolding stream_loop
  stream_loop-IsStreamed zero size s pos enough = absurd (omega arith)
  stream_loop-IsStreamed (suc fuel) size s pos enough =
      after_rows fuel size s (take size s.table) (event (length s.batches))
        (λ t l. stream_loop-IsStreamed fuel size t pos l) pos enough refl refl

-- For a positive batch size, with more fuel than there are rows: streaming returns. It sent batches
-- of at most that size, none of them empty, that hold the rows in their order, and all of them
-- unless the worker reported an error.
pub stream_rows-IsStreamed :
    (event : ℕ → Option JobEvent) (percent : ℕ → ℕ → ℕ) (is_init : Bool) (fuel batch_size : ℕ)
    (rows : List String)
    → 0 < batch_size
    → length rows < fuel
    → (result : Result String (Unit {0})) × (s' : Streaming) × (stream_rows event percent is_init
          fuel batch_size rows
        ≡ some (result, s'))
      × IsStreamed batch_size (start_of rows) result s'
unfolding stream_rows
stream_rows-IsStreamed event percent is_init fuel batch_size [] pos enough = (
  ok tt,
  start_of [],
  refl,
  record { added = []; sent = refl; ordered = refl; sized = tt; whole = λ _. refl },
)
stream_rows-IsStreamed event percent is_init fuel batch_size (row ∷ rows) pos enough =
    stream_loop-IsStreamed event percent is_init (length (row ∷ rows)) fuel batch_size
      (start_of (row ∷ rows)) pos enough
