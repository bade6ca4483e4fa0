-- ===== src/Store/Leftover.antt =====
-- pkg/pipelinedb/db.go: NewDB after a crash that has left tables in its temporary file.
use crypto_batch_payment.Base.{
  true, false, some, ◌≡◌, refl, sym, ap, ◌∙◌, subst, is_err, Result, ok, err, Action, ◌>>=◌, ◌>>◌,
  raise_if, database_exists, arith, [], ◌∷◌,
}
use crypto_batch_payment.Base.Rules.{bind_rule, raise_if_rule}
use crypto_batch_payment.Host.{Host}
use crypto_batch_payment.Payoutdb.{MetadataRow}
use crypto_batch_payment.Store.{
  Table, FilePath, Disk, Handle, found, create_metadata, create_payout_group_table,
  create_payout_table, create_tx, run_sql, exec, exec_all,
}
use crypto_batch_payment.Store.Opening.{
  db_version, schema, create_if_missing, tmp_path, open_handle, close_handle,
  create_no_return_metadata, stat, mkdir_all, rename, init_db, new_db, open_db,
}
use crypto_batch_payment.Store.Rules.{
  put_file_same, ExecTo, exec-ExecTo, ChangedBy, open_handle-ChangedBy,
}
use crypto_batch_payment.Store.Kept.{handle_of}

module _ {H : Host} (path : FilePath) (table : Table MetadataRow) where
  -- The temporary file has the table `metadata`.
  abbrev pub HasMetadata : Disk H → Type 0
  HasMetadata s = (found (s.files (tmp_path path))).metadata ≡ some table

  abbrev Fails : {A : Type 0} → Result A × Disk H → Type 0
  Fails (r, s) = is_err r ≡ true

  HasMetadata-same : (s s' : Disk H) → s'.files ≡ s.files → HasMetadata s → HasMetadata s'
  HasMetadata-same s s' e h = ap (λ f. (found (f (tmp_path path))).metadata) e ∙ h

  create-Fails :
      (s : Disk H) (r : Result (Unit {0})) (s' : Disk H)
      → HasMetadata s
      → ExecTo
          (handle_of (tmp_path path) false)
          create_metadata
          (found (s.files (tmp_path path)))
          s
          (r, s')
      → Fails (r, s')
  unfolding run_sql
  create-Fails s (err e) s' h k = refl
  create-Fails s (ok u) s' h (_, d, ran, _) = ground arith

  fill-Fails :
      (s : Disk H)
      → HasMetadata s
      → Fails (
          (do
            exec_all (handle_of (tmp_path path) false) schema
            create_no_return_metadata (handle_of (tmp_path path) false) db_version 0
            close_handle (handle_of (tmp_path path) false)
            rename (tmp_path path) path)
            s)
  unfolding exec_all
  fill-Fails s h =
      bind_rule Fails (exec_all (handle_of (tmp_path path) false) schema)
        (λ u. do
          create_no_return_metadata (handle_of (tmp_path path) false) db_version 0
          close_handle (handle_of (tmp_path path) false)
          rename (tmp_path path) path)
        s (λ e k. refl) λ u k. absurd (differ (subst Fails_ k schema_fails))
    where
      Fails_ : Result (Unit {0}) → Type 0
      Fails_ r = is_err r ≡ true

      differ : false ≡ true → ⊥
      differ e = cc

      schema_fails : Fails_ (exec_all (handle_of (tmp_path path) false) schema s).0
      schema_fails =
          bind_rule Fails (exec (handle_of (tmp_path path) false) create_metadata)
            (λ u.
              exec_all (handle_of (tmp_path path) false)
                (create_payout_group_table ∷ create_payout_table ∷ create_tx ∷ []))
            s (λ e k. refl)
            λ u k. absurd (
              differ (
                subst Fails_ k (
                  create-Fails s (exec (handle_of (tmp_path path) false) create_metadata s).0
                    (exec (handle_of (tmp_path path) false) create_metadata s).1 h
                    (exec-ExecTo (handle_of (tmp_path path) false) create_metadata s))))

  -- The steps of initDB on an open handle.
  abbrev filling : Handle → Action (Disk H) (Unit {0})
  filling h = do
    exec_all h schema
    create_no_return_metadata h db_version 0
    close_handle h
    rename (tmp_path path) path

  OpensIt : Result Handle × Disk H → Type 0
  OpensIt (err e, s) = Unit
  OpensIt (ok h, s) = (h ≡ handle_of (tmp_path path) false) × HasMetadata s

  opens_it :
      (s : Disk H) (r : Result Handle) (s' : Disk H)
      → HasMetadata s
      → ChangedBy (handle_of (tmp_path path) false) (create_if_missing (tmp_path path)) s (r, s')
      → OpensIt (r, s')
  unfolding OpensIt
  opens_it s (err e) s' h k = tt
  opens_it s (ok x) s' h (is, k) = (
    is,
    ap (λ f. (found (f (tmp_path path))).metadata) k
        ∙ ap (λ o. (found o).metadata)
            (put_file_same (tmp_path path) (some (found (s.files (tmp_path path)))) s.files)
        ∙ h,
  )

  open-Fails :
      (s : Disk H) → HasMetadata s → Fails ((do h ← open_handle (tmp_path path) false; filling h) s)
  unfolding OpensIt
  open-Fails s h =
      bind_rule Fails (open_handle (tmp_path path) false) filling s (λ e k. refl)
        λ x k.
          let opened =
            subst (λ r. OpensIt (r, s1)) k
              (opens_it s (open_handle (tmp_path path) false s).0 s1 h
                (open_handle-ChangedBy (tmp_path path) false s)) in
          subst (λ y. Fails (filling y s1)) (sym opened.0) (fill-Fails s1 opened.1)
    where
      s1 : Disk H
      s1 = (open_handle (tmp_path path) false s).1

  init_db-Fails : (s : Disk H) → HasMetadata s → Fails (init_db path s)
  unfolding init_db mkdir_all
  init_db-Fails s h =
      bind_rule Fails (mkdir_all path.dir)
        (λ u. do x ← open_handle (tmp_path path) false; filling x) s (λ e k. refl)
        λ u k. open-Fails _ (HasMetadata-same s (mkdir_all path.dir s).1 (ground arith) h)

  -- If a crash has left the table `metadata` in the temporary file, NewDB returns an error.
  pub new_db-is_err : (s : Disk H) → HasMetadata s → is_err (new_db path s).0 ≡ true
  unfolding new_db stat
  new_db-is_err s h =
      bind_rule Fails (stat path)
        (λ b. do raise_if b database_exists; init_db path; open_db path false) s (λ e k. refl)
        λ b k.
          raise_if_rule Fails b database_exists (λ u. init_db path >> open_db path false) s1
            (λ t. refl)
            λ f.
              bind_rule Fails (init_db path) (λ u. open_db path false) s1 (λ e l. refl)
                λ u l. absurd (differ (subst (λ r. is_err r ≡ true) l (init_db-Fails s1 kept)))
    where
      s1 : Disk H
      s1 = (stat path s).1

      kept : HasMetadata s1
      kept = HasMetadata-same s s1 (ground arith) h

      differ : false ≡ true → ⊥
      differ e = cc
