-- ===== src/Pq/Driver/Limits.antt =====
-- A limit that the random offset of lantern_cli/src/pq/mod.rs cannot serve.
use lanterndb.Prelude.{
  ℕ, zero, suc, ◌-◌, ◌≤◌, ◌<◌, ◌≡◌, ap, true, ◌&&◌, not, none, some, arith, ltb, if◌then◌else◌, ok,
  err,
}
use lanterndb.Pq.Driver.{dataset_rows, ask}
use lanterndb.Prelude.{Option, Result, ok, err, some, none, refl}
use lanterndb.Pq.Driver.{
  PqArgs, panicked, PqRun, PqWorld, random_below, random_offset, after_setup, quantize_table_local,
}

module _ {E : Type 0} (w : PqWorld E) where
  no_range :
      (limit total : ℕ) (s : PqRun)
      → 0 < limit
      → total ≤ limit
      → random_offset w limit total s ≡ (err panicked, s)
  no_range zero total s pos over = absurd (omega arith)
  no_range (suc l) total s pos over =
      let empty : (if ltb total (suc l) then 0 else total - suc l) ≡ 0 = ground arith in
      ap (λ t. random_below w t s) empty

  dataset_rows_same :
      (given : Option ℕ) (total : ℕ) (s : PqRun)
      → (dataset_rows w given s).0 ≡ ok total
      → dataset_rows w given s ≡ (ok total, s)
  dataset_rows_same (some n) total s h = let e : n ≡ total = grind (arith, h) in rw e refl
  dataset_rows_same none total s h = asked w.row_count h
    where
      asked : (m : Result E ℕ) → (ask w m s).0 ≡ ok total → ask w m s ≡ (ok total, s)
      asked (ok n) h = let e : n ≡ total = grind (arith, h) in rw e refl
      asked (err e) h = cc

  -- With the database connected, the setup of the tables skipped and no offset given, a positive
  -- limit of at least as many rows as the table has, given or counted, which are as many as there
  -- are clusters or more: the driver panics on the empty range of the offset.
  pub limit_panics :
      (args : PqArgs) (s : PqRun) (limit total : ℕ)
      → w.connected ≡ ok tt
      → args.skip_table_setup ≡ true
      → args.dataset_limit ≡ some limit
      → args.start_offset_id ≡ none
      → (dataset_rows w args.dataset_size s).0 ≡ ok total
      → 0 < limit
      → args.clusters ≤ total
      → total ≤ limit
      → quantize_table_local w args s ≡ (err panicked, s)
  unfolding quantize_table_local after_setup
  limit_panics args s limit total up skip l o d pos enough over =
      let t : (not (ltb 0 limit && ltb limit args.clusters)) ≡ true = ground arith in
      let t' : (not (ltb total args.clusters)) ≡ true = ground arith in
      simp (
        up,
        skip,
        l,
        o,
        t,
        t',
        no_range limit total s pos over,
        dataset_rows_same args.dataset_size total s d,
      )
