-- ===== src/Daemon/IndexJobs/Pending.antt =====
-- Which jobs a start of lantern_cli/src/daemon/autotune_jobs.rs takes up.
use mathlib.Core.List.{Perm}
use lanterndb.Prelude.Sorting.{
  insert_by, sort_by, Sorted, sort_by-perm, All-insert_by, All-sort_by, IsComparator,
  sort_by-Sorted, is_gt,
}
use lanterndb.Prelude.{
  ℕ, ◌≡◌, ◌≢◌, refl, ap, sym, ◌∙◌, inl, inr, Bool, true, false, ◌&&◌, not, Bool-cases, Option, none,
  some, List, [], ◌∷◌, ◌++◌, append_assoc, append-nil, arith, ◌==◌, ==_refl, if◌then◌else◌, All,
}
use lanterndb.Daemon.Clients.{JobInsertNotification}
use lanterndb.Daemon.IndexJobs.{
  IndexJobRow, find_job, start_row, mark_started, Inserts, send_job, start_job, found_job,
  job_insert_processor, collect_pending_index_jobs, id_order, pending_of,
}

ne_test : (a b : ℕ) → a ≢ b → (a == b) ≡ false
ne_test a b h = ground arith

module _ {A : Type 0} where
  -- No row has the number.
  abbrev pub Lacks : ℕ → List (IndexJobRow A) → Type 0
  Lacks id rows = All (λ (row : IndexJobRow A). row.id ≢ id) rows

  -- The number is a primary key.
  abbrev pub IsKeyed : List (IndexJobRow A) → Type 0
  IsKeyed [] = Unit
  IsKeyed (row ∷ rows) = Lacks row.id rows × IsKeyed rows

  -- The jobs to take up: neither failed, nor finished, nor cancelled.
  abbrev pub open_jobs : List (IndexJobRow A) → List ℕ
  open_jobs [] = []
  open_jobs (row ∷ rows) =
      let rest = open_jobs rows in
      if not row.failed && not row.finished
      then if row.canceled then rest else row.id ∷ rest
      else rest

  start_row_ne : (id : ℕ) (row : IndexJobRow A) → row.id ≢ id → start_row id row ≡ row
  start_row_ne id row h =
      ap (λ t. if t then record row { started = true } else row) (ne_test row.id id h)

  start_row_eq : (row : IndexJobRow A) → start_row row.id row ≡ record row { started = true }
  start_row_eq row = ap (λ t. if t then record row { started = true } else row) (==_refl row.id)

  find_job-Lacks : (id : ℕ) (rows : List (IndexJobRow A)) → Lacks id rows → find_job id rows ≡ none
  unfolding find_job
  find_job-Lacks id [] h = refl
  find_job-Lacks id (row ∷ rows) h = ground (arith, h.0, find_job-Lacks id rows h.1)

  find_job_lem :
      (done rest : List (IndexJobRow A)) (row : IndexJobRow A)
      → Lacks row.id done
      → Lacks row.id rest
      → find_job row.id (done ++ row ∷ rest) ≡ (if row.canceled then none else some row)
  unfolding find_job
  find_job_lem [] rest row h k =
      rw (==_refl row.id)
        (canceled_or row.canceled (some row) (find_job row.id rest) (find_job-Lacks row.id rest k))
    where
      canceled_or :
          (c : Bool) (o p : Option (IndexJobRow A))
          → p ≡ none
          → (if true && not c then o else p) ≡ (if c then none else o)
      canceled_or true o p e = e
      canceled_or false o p e = refl
  find_job_lem (d ∷ done) rest row h k =
      rw (ne_test d.id row.id h.0) (find_job_lem done rest row h.1 k)

  -- Starting a job changes no other row.
  find_job-mark_started :
      (i id : ℕ) (rows : List (IndexJobRow A))
      → i ≢ id
      → find_job i (mark_started id rows) ≡ find_job i rows
  unfolding find_job mark_started
  find_job-mark_started i id [] h = refl
  find_job-mark_started i id (row ∷ rows) h = ground (arith, find_job-mark_started i id rows h)

  -- The row is the one that the table has under its number.
  abbrev Found : List (IndexJobRow A) → IndexJobRow A → Type 0
  Found table row = find_job row.id table ≡ (if row.canceled then none else some row)

  -- What a round does of the row that it finds.
  round_canceled :
      (n : JobInsertNotification) (row : IndexJobRow A) (s : Inserts A)
      → row.canceled ≡ true
      → found_job n (if row.canceled then none else some row) s ≡ s
  round_canceled n row s e = ap (λ t. found_job n (if t then none else some row) s) e

  round_open :
      (n : JobInsertNotification) (row : IndexJobRow A) (s : Inserts A)
      → row.canceled ≡ false
      → row.finished ≡ false
      → n.generate_missing ≡ row.started
      → found_job n (if row.canceled then none else some row) s
        ≡ send_job n.id (record s { rows = mark_started n.id s.rows })
  round_open n row s c f g =
      ap (λ t. found_job n (if t then none else some row) s) c
      ∙ (ap (λ t. if t then send_job n.id s else start_job n.id row.started n.generate_missing s) f
          ∙ (ap (λ t. start_job n.id row.started t s) g
              ∙ ap
                  (λ t.
                    if t then s else send_job n.id (record s { rows = mark_started n.id s.rows }))
                  (never row.started)))
    where
      never : (b : Bool) → (b && not b) ≡ false
      never true = refl
      never false = refl

  job_of_row : IndexJobRow A → JobInsertNotification
  job_of_row row = record {
    id = row.id;
    generate_missing = row.started;
    row_id = none;
    filter = false;
  }

  queue_after : List JobInsertNotification → List (IndexJobRow A) → List ℕ → List ℕ
  queue_after ns rows queue =
      (job_insert_processor ns (record { rows = rows; queue = queue })).queue

  Found-mark_started :
      (id : ℕ) (table rest : List (IndexJobRow A))
      → Lacks id rest
      → All (Found table) rest
      → All (Found (mark_started id table)) rest
  Found-mark_started id table [] h f = tt
  Found-mark_started id table (r ∷ rest) h f =
      (find_job-mark_started r.id id table h.0 ∙ f.0, Found-mark_started id table rest h.1 f.1)

  -- The round of a pending row, and those of the rows after it.
  queue_of_open :
      (table rest : List (IndexJobRow A)) (row : IndexJobRow A) (queue : List ℕ)
      (ns : List JobInsertNotification)
      → Found table row
      → row.finished ≡ false
      → ((queue : List ℕ) → queue_after ns table queue ≡ queue ++ open_jobs rest)
      → ((queue : List ℕ)
          → queue_after ns (mark_started row.id table) queue ≡ queue ++ open_jobs rest)
      → queue_after (job_of_row row ∷ ns) table queue
        ≡ queue ++ (if row.canceled then open_jobs rest else row.id ∷ open_jobs rest)
  unfolding job_insert_processor queue_after job_of_row
  queue_of_open table rest row queue ns there unfinished same marked =
      let n = job_of_row row in
      let s : Inserts A = record { rows = table; queue = queue } in
      let found = ap (λ o. found_job n o s) there in
      let after : (t u : Inserts A)
          → t ≡ u
          → (job_insert_processor ns t).queue ≡ (job_insert_processor ns u).queue =
        λ t u e. ap (λ v. (job_insert_processor ns v).queue) e in
      let chosen = λ (t : Bool). queue ++ (if t then open_jobs rest else row.id ∷ open_jobs rest) in
      elim (Bool-cases row.canceled) [
        | inl c ↦ after _ _ (found ∙ round_canceled n row s c) ∙ same queue ∙ ap chosen (sym c)
        | inr c ↦
            after _ _ (found ∙ round_open n row s c unfinished refl)
            ∙ marked (queue ++ row.id ∷ [])
            ∙ append_assoc queue (row.id ∷ []) (open_jobs rest)
            ∙ ap chosen (sym c)
      ]

  queue_of :
      (table rest : List (IndexJobRow A)) (queue : List ℕ)
      → IsKeyed rest
      → All (Found table) rest
      → queue_after (pending_of rest) table queue ≡ queue ++ open_jobs rest
  unfolding job_insert_processor pending_of queue_after job_of_row
  queue_of table [] queue keyed there = sym (append-nil queue)
  queue_of table (row ∷ rest) queue keyed there =
      elim (Bool-cases (not row.failed && not row.finished)) [
        | inl p ↦ rw p (
            queue_of_open table rest row queue (pending_of rest) there.0
              (unfinished row.failed row.finished p)
              (λ queue. queue_of table rest queue keyed.1 there.1)
              λ queue.
                queue_of (mark_started row.id table) rest queue keyed.1
                  (Found-mark_started row.id table rest keyed.0 there.1))
        | inr p ↦ rw p (queue_of table rest queue keyed.1 there.1)
      ]
    where
      unfinished : (a b : Bool) → (not a && not b) ≡ true → b ≡ false
      unfinished true b h = cc
      unfinished false true h = cc
      unfinished false false h = refl

  Found-cons :
      (row : IndexJobRow A) (table rest : List (IndexJobRow A))
      → Lacks row.id rest
      → All (Found table) rest
      → All (Found (row ∷ table)) rest
  unfolding find_job
  Found-cons row table [] h f = tt
  Found-cons row table (r ∷ rest) h f =
      (rw (ne_test row.id r.id (λ e. h.0 (sym e))) f.0, Found-cons row table rest h.1 f.1)

  IsKeyed-Found : (rows : List (IndexJobRow A)) → IsKeyed rows → All (Found rows) rows
  IsKeyed-Found [] keyed = tt
  IsKeyed-Found (row ∷ rows) keyed = (
    find_job_lem [] rows row tt keyed.0,
    Found-cons row rows rows keyed.0 (IsKeyed-Found rows keyed.1),
  )

  IsKeyed-insert_by :
      (row : IndexJobRow A) (rows : List (IndexJobRow A))
      → Lacks row.id rows
      → IsKeyed rows
      → IsKeyed (insert_by id_order row rows)
  IsKeyed-insert_by row [] h keyed = (tt, tt)
  IsKeyed-insert_by row (r ∷ rows) h keyed = elim (Bool-cases (is_gt (id_order row r))) [
    | inl t ↦ rw t (
      All-insert_by id_order (λ (d : IndexJobRow A). d.id ≢ r.id) row rows (λ e. h.0 (sym e))
          keyed.0,
      IsKeyed-insert_by row rows h.1 keyed.1,
    )
    | inr t ↦ rw t (h, keyed)
  ]

  IsKeyed-sort_by : (rows : List (IndexJobRow A)) → IsKeyed rows → IsKeyed (sort_by id_order rows)
  unfolding sort_by
  IsKeyed-sort_by [] keyed = tt
  IsKeyed-sort_by (row ∷ rows) keyed =
      IsKeyed-insert_by row (sort_by id_order rows)
        (All-sort_by id_order (λ (d : IndexJobRow A). d.id ≢ row.id) rows keyed.0)
        (IsKeyed-sort_by rows keyed.1)

  id_order-IsComparator : IsComparator (id_order {A = A})
  id_order-IsComparator = record {
    flips = λ x y h. ground arith;
    chains = λ x y z h k. ground arith;
  }

  -- For a table whose numbers are a key: after a start, the worker is sent the jobs that neither
  -- failed, nor finished, nor were cancelled, each once and in the order of their numbers, however
  -- the table has them, also those that were running when the daemon stopped.
  pub pending_jobs_queue :
      (rows : List (IndexJobRow A))
      → IsKeyed rows
      → (ordered : List (IndexJobRow A)) × Perm ordered rows
        × Sorted id_order ordered
        × ((job_insert_processor
              (collect_pending_index_jobs rows)
              (record { rows = rows; queue = [] })).queue
            ≡ open_jobs ordered)
  unfolding collect_pending_index_jobs queue_after
  pending_jobs_queue rows keyed = (
    sort_by id_order rows,
    sort_by-perm id_order rows,
    sort_by-Sorted id_order id_order-IsComparator rows,
    queue_of rows (sort_by id_order rows) [] (IsKeyed-sort_by rows keyed)
        (All-sort_by id_order (Found rows) rows (IsKeyed-Found rows keyed)),
  )
