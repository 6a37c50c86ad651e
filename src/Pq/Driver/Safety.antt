-- ===== src/Pq/Driver/Safety.antt =====
-- What it is for the calls of lantern_cli/src/pq/ to be safe, and the steps that keep it.
use native.Mathlib.Nat.{div-mul-le_self, le-div_iff_mul-le}
use lanterndb.Prelude.{
  ℕ, zero, suc, ◌+◌, ◌*◌, ◌/◌, ◌≤◌, ◌<◌, ◌≡◌, refl, Bool, true, false, [], ◌∷◌, arith,
  if◌then◌else◌, All, All-append, Result, ok, err, and_then,
}
use lanterndb.Pq.Progress.{Progress}
use lanterndb.Pq.Driver.{
  PqArgs, CodebookArgs, Operation, setup_tables, setup_triggers, commit, quantize_and_write_vectors,
  create_codebook, make_codebook_logged_and_readonly, quantize_vectors, write_quantized_rows,
  cluster_on_gcp, quantize_on_gcp, PqError, PqRun, PqWorld, performed, call, report, ask, ensured,
  divided, rows_to_take,
}

-- What a codebook wants: as many rows as clusters, all of them rows of the table after the offset,
-- and subvectors that are not empty and fit the vector.
abbrev pub IsServed : PqArgs → ℕ → CodebookArgs → Type 0
IsServed args table_rows c =
    (args.clusters ≤ c.total_row_count)
    × (c.start_offset_id + c.total_row_count ≤ table_rows)
    × (0 < c.subvector_dim)
    × (c.subvector_dim * args.splits ≤ c.vector_dim)

abbrev pub IsSafe : PqArgs → ℕ → Operation → Type 0
IsSafe args table_rows (setup_tables overwrite) = Unit
IsSafe args table_rows setup_triggers = Unit
IsSafe args table_rows commit = Unit
IsSafe args table_rows (quantize_and_write_vectors n) = Unit
IsSafe args table_rows (create_codebook c) = IsServed args table_rows c
IsSafe args table_rows make_codebook_logged_and_readonly = Unit
IsSafe args table_rows quantize_vectors = Unit
IsSafe args table_rows write_quantized_rows = Unit
IsSafe args table_rows (cluster_on_gcp v r) =
    (r.task_count ≡ v.split_count) × (v.offset + rows_to_take v.limit v.total_rows ≤ table_rows)
IsSafe args table_rows (quantize_on_gcp v r) =
    (r.task_count ≡ v.quantization_task_count) × (v.total_rows ≡ table_rows)

module _ {E : Type 0} (w : PqWorld E) (args : PqArgs) (table_rows : ℕ) where
  abbrev pub AllSafe : PqRun → Type 0
  AllSafe s = All (IsSafe args table_rows) s.calls

  -- Whatever an operation returns, the calls so far are safe.
  unfoldable pub Keeps : {A : Type 0} → Result (PqError E) A × PqRun → Type 0
  Keeps m = AllSafe m.1

  pub kept : {A : Type 0} (m : Result (PqError E) A × PqRun) → Keeps m → AllSafe m.1
  unfolding Keeps
  kept m v = v

  -- A step after a step, of whose value something is known.
  pub and_then-Keeps :
      {A B : Type 0} (Q : A → Type 0) (m : Result (PqError E) A × PqRun)
      (f : A → PqRun → Result (PqError E) B × PqRun)
      → Keeps m
      → ((a : A) → m.0 ≡ ok a → Q a)
      → ((a : A) (s : PqRun) → Q a → AllSafe s → Keeps (f a s))
      → Keeps (and_then m f)
  unfolding Keeps
  and_then-Keeps Q (ok a, s) f v known next = next a s (known a refl) v
  and_then-Keeps Q (err e, s) f v known next = v

  pub then-Keeps :
      {A B : Type 0} (m : Result (PqError E) A × PqRun)
      (f : A → PqRun → Result (PqError E) B × PqRun)
      → Keeps m
      → ((a : A) (s : PqRun) → AllSafe s → Keeps (f a s))
      → Keeps (and_then m f)
  then-Keeps m f v next = and_then-Keeps (λ a. Unit) m f v (λ a e. tt) λ a s u. next a s

  performed-Keeps :
      (op : Operation) (m : Result E (Unit {0}) × Progress) (s : PqRun)
      → IsSafe args table_rows op
      → AllSafe s
      → Keeps (performed w op m s)
  unfolding Keeps
  performed-Keeps op (ok u, p) s safe v =
      All-append (IsSafe args table_rows) s.calls (op ∷ []) v (safe, tt)
  performed-Keeps op (err e, p) s safe v =
      All-append (IsSafe args table_rows) s.calls (op ∷ []) v (safe, tt)

  pub call-Keeps :
      (op : Operation) (s : PqRun) → IsSafe args table_rows op → AllSafe s → Keeps (call w op s)
  unfolding call
  call-Keeps op s safe v = performed-Keeps op (w.perform op s.progress) s safe v

  pub report-Keeps : (n : ℕ) (s : PqRun) → AllSafe s → Keeps (report w n s)
  unfolding Keeps
  report-Keeps n s v = v

  pub done-Keeps : {A : Type 0} (s : PqRun) (a : A) → AllSafe s → Keeps (ok a, s)
  unfolding Keeps
  done-Keeps s a v = v

  pub ensured-Keeps : (b : Bool) (e : PqError E) (s : PqRun) → AllSafe s → Keeps (ensured w b e s)
  unfolding Keeps
  ensured-Keeps true e s v = v
  ensured-Keeps false e s v = v

  ensured_ok :
      (b : Bool) (e : PqError E) (s : PqRun) (u : Unit {0}) → (ensured w b e s).0 ≡ ok u → b ≡ true
  ensured_ok true e s u h = refl
  ensured_ok false e s u h = cc

  -- After a check, what it checked holds.
  pub checked-Keeps :
      {B : Type 0} (b : Bool) (e : PqError E) (s : PqRun)
      (f : Unit {0} → PqRun → Result (PqError E) B × PqRun)
      → AllSafe s
      → ((u : Unit {0}) (s : PqRun) → b ≡ true → AllSafe s → Keeps (f u s))
      → Keeps (and_then (ensured w b e s) f)
  checked-Keeps b e s f v next =
      and_then-Keeps (λ u. b ≡ true) (ensured w b e s) f (ensured-Keeps b e s v)
        (λ u h. ensured_ok b e s u h) next

  pub ask-Keeps : {A : Type 0} (m : Result E A) (s : PqRun) → AllSafe s → Keeps (ask w m s)
  unfolding Keeps
  ask-Keeps (ok a) s v = v
  ask-Keeps (err e) s v = v

  pub divided-Keeps : (a b : ℕ) (s : PqRun) → AllSafe s → Keeps (divided w a b s)
  unfolding Keeps
  divided-Keeps a zero s v = v
  divided-Keeps a (suc b) s v = v

  pub divided_ok :
      (a b q : ℕ) (s : PqRun) → b ≤ a → (divided w a b s).0 ≡ ok q → (0 < q) × (q * b ≤ a)
  divided_ok a zero q s le h = cc
  divided_ok a (suc b) q s le h =
      let e : a / suc b ≡ q = ground (arith, h) in
      rw (← e) ((le-div_iff_mul-le (omega arith)).1 (omega arith), div-mul-le_self a (suc b))

  pub if-Keeps :
      {A : Type 0} (b : Bool) (m m' : Result (PqError E) A × PqRun)
      → Keeps m
      → Keeps m'
      → Keeps (if b then m else m')
  if-Keeps true m m' v v' = v
  if-Keeps false m m' v v' = v'
