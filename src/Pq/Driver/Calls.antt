-- ===== src/Pq/Driver/Calls.antt =====
-- What the driver of lantern_cli/src/pq/mod.rs hands to the codebook.
use lanterndb.Prelude.{
  ℕ, zero, suc, ◌+◌, ◌-◌, ◌*◌, ◌≤◌, ◌<◌, ◌≡◌, refl, ap, sym, ◌∙◌, true, ◌&&◌, not, Option, none,
  some, arith, ltb, if◌then◌else◌, ok, and_then,
}
use lanterndb.Pq.Driver.{
  PqArgs, setup_tables, setup_triggers, commit, quantize_and_write_vectors, create_codebook,
  make_codebook_logged_and_readonly, quantize_vectors, write_quantized_rows,
  dimensions_below_splits, dataset_below_clusters, limit_below_clusters, job_cancelled, PqRun,
  PqWorld, limit_of, is_none, call, report, ask, random_below, random_offset, start_offset,
  rows_to_take, dataset_rows, write_vectors, make_readonly, with_codebook, quantize_only,
  after_setup, set_up, quantize_table_local,
}
use lanterndb.Pq.Driver.Safety.{
  AllSafe, Keeps, and_then-Keeps, then-Keeps, call-Keeps, report-Keeps, done-Keeps, ensured-Keeps,
  checked-Keeps, ask-Keeps, divided-Keeps, divided_ok, if-Keeps,
}

module _ {E : Type 0} (w : PqWorld E) (args : PqArgs) (table_rows : ℕ) where
  make_readonly-Keeps :
      (s : PqRun) → AllSafe w args table_rows s → Keeps w args table_rows (make_readonly w args s)
  make_readonly-Keeps s v =
      if-Keeps w args table_rows (is_none args.subvector_id) _ _
        (call-Keeps w args table_rows make_codebook_logged_and_readonly s tt v)
        (done-Keeps w args table_rows s tt v)

  write_vectors-Keeps :
      (s : PqRun) → AllSafe w args table_rows s → Keeps w args table_rows (write_vectors w args s)
  write_vectors-Keeps s v =
      if-Keeps w args table_rows args.skip_vector_quantization _ _
        (done-Keeps w args table_rows s tt v)
        (then-Keeps w args table_rows _ _ (call-Keeps w args table_rows quantize_vectors s tt v)
          λ u s v. then-Keeps w args table_rows _ _ (report-Keeps w args table_rows 90 s v) λ u s v.
            then-Keeps w args table_rows _ _
              (ensured-Keeps w args table_rows (not w.is_canceled) job_cancelled s v)
              λ u s v. call-Keeps w args table_rows write_quantized_rows s tt v)

  finish-Keeps :
      (s : PqRun)
      → AllSafe w args table_rows s
      → Keeps w args table_rows (
          and_then (make_readonly w args s) λ _ s.
            and_then
              (write_vectors w args s)
              λ _ s. and_then (call w commit s) λ _ s. report w 100 s)
  finish-Keeps s v = then-Keeps w args table_rows _ _ (make_readonly-Keeps s v) λ u s v.
      then-Keeps w args table_rows _ _ (write_vectors-Keeps s v) λ u s v.
        then-Keeps w args table_rows _ _ (call-Keeps w args table_rows commit s tt v)
          λ u s v. report-Keeps w args table_rows 100 s v

  fits : (n k : ℕ) → not (ltb n k) ≡ true → k ≤ n
  fits n k h = ground arith

  with_codebook-Keeps :
      (offset rows : ℕ) (s : PqRun)
      → args.clusters ≤ rows
      → offset + rows ≤ table_rows
      → AllSafe w args table_rows s
      → Keeps w args table_rows (with_codebook w args offset rows s)
  unfolding with_codebook
  with_codebook-Keeps offset rows s enough inside v =
      then-Keeps w args table_rows _ _ (ask-Keeps w args table_rows w.dimensions s v) λ dim s v.
        checked-Keeps w args table_rows (not (ltb dim args.splits)) dimensions_below_splits s _ v
          λ u s le v.
            and_then-Keeps w args table_rows (λ q. (0 < q) × (q * args.splits ≤ dim)) _ _
              (divided-Keeps w args table_rows dim args.splits s v)
              (λ q e. divided_ok w args table_rows dim args.splits q s (fits dim args.splits le) e)
              λ q s sub v.
                then-Keeps w args table_rows _ _
                  (call-Keeps w args table_rows
                    (create_codebook (record {
                      total_row_count = rows;
                      start_offset_id = offset;
                      vector_dim = dim;
                      subvector_dim = q;
                    }))
                    s (enough, inside, sub.0, sub.1) v)
                  λ u s v. finish-Keeps s v

  quantize_only-Keeps :
      (rows : ℕ) (s : PqRun)
      → AllSafe w args table_rows s
      → Keeps w args table_rows (quantize_only w rows s)
  quantize_only-Keeps rows s v =
      then-Keeps w args table_rows _ _
        (call-Keeps w args table_rows (quantize_and_write_vectors rows) s tt v)
        λ u s v. report-Keeps w args table_rows 100 s v

  pub dataset_rows-Keeps :
      (given : Option ℕ) (s : PqRun)
      → AllSafe w args table_rows s
      → Keeps w args table_rows (dataset_rows w given s)
  unfolding Keeps
  dataset_rows-Keeps none s v = ask-Keeps w args table_rows w.row_count s v
  dataset_rows-Keeps (some n) s v = v

  pub dataset_rows_ok :
      (given : Option ℕ) (total : ℕ) (s : PqRun)
      → ((n : ℕ) → given ≡ some n → n ≡ table_rows)
      → w.row_count ≡ ok table_rows
      → (dataset_rows w given s).0 ≡ ok total
      → total ≡ table_rows
  dataset_rows_ok none total s is counted h =
      let e : (ask w (ok table_rows) s).0 ≡ ok total = sym (ap (λ m. (ask w m s).0) counted) ∙ h in
      grind (arith, e)
  dataset_rows_ok (some n) total s is counted h =
      let e : n ≡ total = grind (arith, h) in sym e ∙ is n refl

  pub random_below-Keeps :
      (n : ℕ) (s : PqRun)
      → AllSafe w args table_rows s
      → Keeps w args table_rows (random_below w n s)
  unfolding Keeps
  random_below-Keeps zero s v = v
  random_below-Keeps (suc n) s v = v

  start_offset-Keeps :
      (given : Option ℕ) (limit total : ℕ) (s : PqRun)
      → AllSafe w args table_rows s
      → Keeps w args table_rows (start_offset w given limit total s)
  unfolding Keeps
  start_offset-Keeps (some id) limit total s v = v
  start_offset-Keeps none zero total s v = v
  start_offset-Keeps none (suc l) total s v =
      random_below-Keeps (if ltb total (suc l) then 0 else total - suc l) s v

  random_below_ok :
      (n o : ℕ) (s : PqRun)
      → ((k : ℕ) → 0 < k → w.gen_range k < k)
      → (random_below w n s).0 ≡ ok o
      → o < n
  random_below_ok zero o s range h = cc
  random_below_ok (suc n) o s range h =
      let e : w.gen_range (suc n) ≡ o = grind (arith, h) in rw (← e) (range (suc n) (omega arith))

  pub taken_inside :
      (limit total o : ℕ) (s : PqRun)
      → ((k : ℕ) → 0 < k → w.gen_range k < k)
      → (random_offset w limit total s).0 ≡ ok o
      → o + rows_to_take limit total ≤ total
  taken_inside zero total o s range h = let e : 0 ≡ o = grind (arith, h) in ground arith
  taken_inside (suc l) total o s range h =
      let below : o < (if ltb total (suc l) then 0 else total - suc l) =
        random_below_ok (if ltb total (suc l) then 0 else total - suc l) o s range h in
      ground arith

  taken_enough :
      (limit total : ℕ)
      → not (ltb 0 limit && ltb limit args.clusters) ≡ true
      → args.clusters ≤ total
      → args.clusters ≤ rows_to_take limit total
  taken_enough limit total l enough = ground arith

  after_setup-Keeps :
      (s : PqRun)
      → args.start_offset_id ≡ none
      → ((n : ℕ) → args.dataset_size ≡ some n → n ≡ table_rows)
      → w.row_count ≡ ok table_rows
      → ((n : ℕ) → 0 < n → w.gen_range n < n)
      → AllSafe w args table_rows s
      → Keeps w args table_rows (after_setup w args s)
  unfolding after_setup
  after_setup-Keeps s no_offset given counted range v =
      let limit = limit_of args.dataset_limit in
      checked-Keeps w args table_rows (not (ltb 0 limit && ltb limit args.clusters))
        limit_below_clusters s _ v
        λ u s l v.
          and_then-Keeps w args table_rows (λ total. total ≡ table_rows) _ _
            (dataset_rows-Keeps args.dataset_size s v)
            (λ total e. dataset_rows_ok args.dataset_size total s given counted e)
            λ total s is v.
              checked-Keeps w args table_rows (not (ltb total args.clusters)) dataset_below_clusters
                s _ v
                λ u s le v.
                  and_then-Keeps w args table_rows (λ o. o + rows_to_take limit total ≤ total) _ _
                    (start_offset-Keeps args.start_offset_id limit total s v)
                    (λ o e.
                      taken_inside limit total o s range
                        (ap (λ i. (start_offset w i limit total s).0) (sym no_offset) ∙ e))
                    λ o s inside v.
                      then-Keeps w args table_rows _ _
                        (ask-Keeps w args table_rows w.max_connections s v)
                        λ n s v.
                          if-Keeps w args table_rows
                            (args.skip_codebook_creation && not args.skip_vector_quantization) _ _
                            (quantize_only-Keeps (rows_to_take limit total) s v)
                            (with_codebook-Keeps o (rows_to_take limit total) s
                              (taken_enough limit total l (fits total args.clusters le))
                              (rw (← is) inside) v)

  pub set_up-Keeps :
      (s : PqRun) → AllSafe w args table_rows s → Keeps w args table_rows (set_up w args s)
  set_up-Keeps s v =
      then-Keeps w args table_rows _ _
        (call-Keeps w args table_rows (setup_tables args.overwrite) s tt v)
        λ u s v.
          then-Keeps w args table_rows _ _ (call-Keeps w args table_rows setup_triggers s tt v)
            λ u s v. call-Keeps w args table_rows commit s tt v

  pub quantize_table_local-Keeps :
      (s : PqRun)
      → args.start_offset_id ≡ none
      → ((n : ℕ) → args.dataset_size ≡ some n → n ≡ table_rows)
      → w.row_count ≡ ok table_rows
      → ((n : ℕ) → 0 < n → w.gen_range n < n)
      → AllSafe w args table_rows s
      → Keeps w args table_rows (quantize_table_local w args s)
  unfolding quantize_table_local
  quantize_table_local-Keeps s no_offset given counted range v =
      then-Keeps w args table_rows _ _ (ask-Keeps w args table_rows w.connected s v) λ u s v.
        if-Keeps w args table_rows args.skip_table_setup _ _
          (after_setup-Keeps s no_offset given counted range v)
          (then-Keeps w args table_rows _ _ (set_up-Keeps s v) λ u s v.
            if-Keeps w args table_rows
              (args.skip_codebook_creation && args.skip_vector_quantization) _ _
              (report-Keeps w args table_rows 100 s v)
              (after_setup-Keeps s no_offset given counted range v))
