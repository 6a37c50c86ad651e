-- ===== src/Pq/Driver/Gcp/Batches.antt =====
-- What the driver of lantern_cli/src/pq/ calls, on GCP or here.
use lanterndb.Prelude.{
  ℕ, zero, suc, ◌+◌, ◌-◌, ◌≤◌, ◌<◌, ◌≡◌, refl, ◌&&◌, not, Option, none, some, arith, ltb, leb,
  length, if◌then◌else◌, ok,
}
use lanterndb.Pq.Driver.{
  PqArgs, commit, make_codebook_logged_and_readonly, cluster_on_gcp, quantize_on_gcp, name_too_long,
  project_required, limit_below_clusters, PqRun, PqWorld, limit_of, random_offset, rows_to_take,
  codebook_table_name_of,
}
use lanterndb.Pq.Driver.Safety.{
  AllSafe, Keeps, kept, and_then-Keeps, then-Keeps, call-Keeps, report-Keeps, done-Keeps,
  checked-Keeps, ask-Keeps, divided-Keeps, if-Keeps,
}
use lanterndb.Pq.Driver.Calls.{
  dataset_rows-Keeps, dataset_rows_ok, random_below-Keeps, taken_inside, set_up-Keeps,
  quantize_table_local-Keeps,
}
use lanterndb.Pq.Driver.Gcp.{
  or_default, is_given, GcpSizes, sizes_of, clustering_variables, clustering_resources,
  quantization_variables, quantization_resources, gcp_sizes, gcp_set_up, gcp_cluster, gcp_quantize,
  quantize_table_on_gcp, quantize_table,
}

module _ {E : Type 0} (w : PqWorld E) (args : PqArgs) (table_rows : ℕ) where
  random_offset-Keeps :
      (limit total : ℕ) (s : PqRun)
      → AllSafe w args table_rows s
      → Keeps w args table_rows (random_offset w limit total s)
  unfolding Keeps
  random_offset-Keeps zero total s v = v
  random_offset-Keeps (suc l) total s v =
      random_below-Keeps w args table_rows (if ltb total (suc l) then 0 else total - suc l) s v

  gcp_sizes-Keeps :
      (total max_connections : ℕ) (s : PqRun)
      → AllSafe w args table_rows s
      → Keeps w args table_rows (gcp_sizes w args total max_connections s)
  unfolding gcp_sizes
  gcp_sizes-Keeps total max_connections s v =
      then-Keeps w args table_rows _ _
        (divided-Keeps w args table_rows max_connections (or_default args.gcp_quantization_cpu 4) s
          v)
        λ c s v.
          then-Keeps w args table_rows _ _
            (divided-Keeps w args table_rows max_connections args.splits s v)
            λ d s v. done-Keeps w args table_rows s (sizes_of args total c d) v

  gcp_set_up-Keeps :
      (s : PqRun) → AllSafe w args table_rows s → Keeps w args table_rows (gcp_set_up w args s)
  gcp_set_up-Keeps s v =
      if-Keeps w args table_rows args.skip_table_setup _ _ (done-Keeps w args table_rows s tt v) (
        then-Keeps w args table_rows _ _ (set_up-Keeps w args table_rows s v)
          λ u s v. report-Keeps w args table_rows 5 s v)

  -- Without a limit, the tasks are told the size of the table as their limit.
  limit_told :
      (given : Option ℕ) (total o : ℕ) (s : PqRun)
      → ((n : ℕ) → 0 < n → w.gen_range n < n)
      → (random_offset w (limit_of given) total s).0 ≡ ok o
      → o + rows_to_take (or_default given total) total ≤ total
  limit_told none total o s range h = let e : 0 ≡ o = grind (arith, h) in ground arith
  limit_told (some limit) total o s range h = taken_inside w args total limit total o s range h

  gcp_cluster-Keeps :
      (sizes : GcpSizes) (total : ℕ) (s : PqRun)
      → ((n : ℕ) → 0 < n → w.gen_range n < n)
      → total ≡ table_rows
      → AllSafe w args table_rows s
      → Keeps w args table_rows (gcp_cluster w args sizes total s)
  gcp_cluster-Keeps sizes total s range is v =
      let limit = limit_of args.dataset_limit in
      if-Keeps w args table_rows args.skip_codebook_creation _ _
        (done-Keeps w args table_rows s tt v)
        (checked-Keeps w args table_rows (not (ltb 0 limit && ltb limit args.clusters))
          limit_below_clusters s _ v
          λ u s l v.
            and_then-Keeps w args table_rows
              (λ o. o + rows_to_take (or_default args.dataset_limit total) total ≤ total) _ _
              (random_offset-Keeps limit total s v)
              (λ o e. limit_told args.dataset_limit total o s range e)
              λ o s inside v.
                then-Keeps w args table_rows _ _
                  (call-Keeps w args table_rows
                    (cluster_on_gcp (clustering_variables args sizes total o)
                      (clustering_resources args sizes))
                    s (refl, rw (← is) inside) v)
                  λ u s v.
                    then-Keeps w args table_rows _ _
                      (call-Keeps w args table_rows make_codebook_logged_and_readonly s tt v)
                      λ u s v.
                        then-Keeps w args table_rows _ _
                          (call-Keeps w args table_rows commit s tt v)
                          λ u s v. report-Keeps w args table_rows 90 s v)

  gcp_quantize-Keeps :
      (sizes : GcpSizes) (total : ℕ) (s : PqRun)
      → total ≡ table_rows
      → AllSafe w args table_rows s
      → Keeps w args table_rows (gcp_quantize w args sizes total s)
  gcp_quantize-Keeps sizes total s is v =
      if-Keeps w args table_rows args.skip_vector_quantization _ _
        (done-Keeps w args table_rows s tt v)
        (call-Keeps w args table_rows
          (quantize_on_gcp (quantization_variables args sizes total) (quantization_resources sizes))
          s (refl, is) v)

  quantize_table_on_gcp-Keeps :
      (s : PqRun)
      → ((n : ℕ) → args.dataset_size ≡ some n → n ≡ table_rows)
      → w.row_count ≡ ok table_rows
      → ((n : ℕ) → 0 < n → w.gen_range n < n)
      → AllSafe w args table_rows s
      → Keeps w args table_rows (quantize_table_on_gcp w args s)
  unfolding quantize_table_on_gcp
  quantize_table_on_gcp-Keeps s given counted range v =
      checked-Keeps w args table_rows (is_given args.gcp_project) project_required s _ v λ u s p v.
        then-Keeps w args table_rows _ _ (ask-Keeps w args table_rows w.connected s v) λ u s v.
          then-Keeps w args table_rows _ _ (ask-Keeps w args table_rows w.max_connections s v)
            λ m s v.
              and_then-Keeps w args table_rows (λ total. total ≡ table_rows) _ _
                (dataset_rows-Keeps w args table_rows args.dataset_size s v)
                (λ total e.
                  dataset_rows_ok w args table_rows args.dataset_size total s given counted e)
                λ total s is v.
                  then-Keeps w args table_rows _ _ (gcp_sizes-Keeps total m s v) λ z s v.
                    then-Keeps w args table_rows _ _ (gcp_set_up-Keeps s v) λ u s v.
                      then-Keeps w args table_rows _ _ (gcp_cluster-Keeps z total s range is v)
                        λ u s v.
                          then-Keeps w args table_rows _ _ (gcp_quantize-Keeps z total s is v)
                            λ u s v. report-Keeps w args table_rows 100 s v

  -- With no offset given, a size that is right where it is given, a database that counts the rows
  -- of the table, and random numbers below their bound, whatever a run calls is safe, here or on
  -- GCP: a codebook is asked of at least as many rows as clusters, which lie in the table after the
  -- offset, in subvectors that are not empty and that all fit the vector; the tasks of a batch are
  -- one for each split, of rows in the table, or as many as they are told, of all rows.
  pub quantize_table-AllSafe :
      (s : PqRun)
      → args.start_offset_id ≡ none
      → ((n : ℕ) → args.dataset_size ≡ some n → n ≡ table_rows)
      → w.row_count ≡ ok table_rows
      → ((n : ℕ) → 0 < n → w.gen_range n < n)
      → AllSafe w args table_rows s
      → AllSafe w args table_rows (quantize_table w args s).1
  unfolding quantize_table
  quantize_table-AllSafe s no_offset given counted range v = kept w args table_rows _ (
      checked-Keeps w args table_rows
        (leb (length (codebook_table_name_of args args.codebook_table_name)) 63) name_too_long s _ v
        λ u s short v.
          if-Keeps w args table_rows args.run_on_gcp _ _
            (quantize_table_on_gcp-Keeps s given counted range v)
            (quantize_table_local-Keeps w args table_rows s no_offset given counted range v))
