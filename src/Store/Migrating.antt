-- ===== src/Store/Migrating.antt =====
-- pkg/pipelinedb/db.go: the migration of a file of version 1.
use crypto_batch_payment.Base.{
  Bool, false, Option, none, some, map, ◌≡◌, refl, sym, ap, ◌∙◌, subst, Result, ok, err, Action,
  ◌>>◌, pure,
}
use crypto_batch_payment.Base.Rules.{bind_rule}
use crypto_batch_payment.Host.{Host}
use crypto_batch_payment.Payoutdb.{Tables}
use crypto_batch_payment.Store.{
  current, payer_column, Database, FilePath, same_path, Disk, found, set_version, with_version,
  run_sql, run_all, exec, in_transaction,
}
use crypto_batch_payment.Store.Opening.{migration_to_2, migrate_v2, migrate_db}
use crypto_batch_payment.Store.Kept.{handle_of, At, At-same}
use crypto_batch_payment.Store.Rules.{
  put_file_same, put_file_other, ExecTo, exec-ExecTo, RanAll, exec_all-RanAll,
  in_transaction_atomic, in_transaction_done,
}

-- A file of version 1 with these rows.
abbrev pub old_database : Tables → Database
old_database t = record {
  metadata = some (record { column = payer_column; rows = t.metadata });
  metadata_new = none;
  payout_group = some t.payout_group;
  payout = some t.payout;
  tx = some (record { column = payer_column; rows = t.tx });
  tx_new = none;
}

-- All rows are kept, but for the version.
abbrev pub upgraded : Tables → Tables
upgraded t = record t { metadata = map (with_version 2) t.metadata }

migration_lem : (t : Tables) → run_all migration_to_2 (old_database t) ≡ ok (current t)
unfolding run_sql
migration_lem t = refl

module _ {H : Host} (path other : FilePath) (there : Option Database)
    (differ : same_path path other ≡ false) where
  -- The migration is done, or the file is as it was.
  abbrev pub Migrating : Tables → Result (Unit {0}) × Disk H → Type 0
  Migrating t (err e, s) = At path other there differ (old_database t) s
  Migrating t (ok u, s) = At path other there differ (current (upgraded t)) s

  abbrev Steps : Tables → Result (Unit {0}) × Disk H → Type 0
  Steps t (err e, s) = Unit
  Steps t (ok u, s) = At path other there differ (current (upgraded t)) s

  versioned_At :
      (ro : Bool) (t : Tables) (s : Disk H) (r : Result (Unit {0})) (s' : Disk H)
      → At path other there differ (current t) s
      → ExecTo (handle_of path ro) (set_version 2) (found (s.files path)) s (r, s')
      → Steps t (r, s')
  unfolding run_sql
  versioned_At ro t s (err e) s' a k = tt
  versioned_At ro t s (ok u) s' (a, b) (_, d, ran, same) =
      let ran' : ok (current (upgraded t)) ≡ ok d =
        subst (λ x. run_sql (set_version 2) x ≡ ok d) a ran in
      let is : d ≡ current (upgraded t) = cc in
      (
        ap (λ f. found (f path)) same ∙ ap found (put_file_same path (some d) s.files) ∙ is,
        ap (λ f. f other) same ∙ put_file_other path other (some d) s.files differ ∙ b,
      )

  steps_lem :
      (ro : Bool) (t : Tables) (s : Disk H)
      → At path other there differ (old_database t) s
      → Steps t ((migrate_v2 (handle_of path ro) >> exec (handle_of path ro) (set_version 2)) s)
  steps_lem ro t s (a, b) =
      bind_rule (Steps t) (migrate_v2 (handle_of path ro))
        (λ u. exec (handle_of path ro) (set_version 2)) s (λ e k. tt)
        λ u k.
          let (d, ran, now, same) =
            subst (λ r. RanAll (handle_of path ro) migration_to_2 other s (r, s1)) k
              (exec_all-RanAll (handle_of path ro) migration_to_2 other s differ) in
          let ran' : ok (current t) ≡ ok d =
            sym (migration_lem t) ∙ subst (λ x. run_all migration_to_2 x ≡ ok d) a ran in
          let is : d ≡ current t = cc in
          versioned_At ro t s1 (exec (handle_of path ro) (set_version 2) s1).0 _
            (now ∙ is, same ∙ b) (exec-ExecTo (handle_of path ro) (set_version 2) s1)
    where
      s1 : Disk H
      s1 = (migrate_v2 (handle_of path ro) s).1

  pub migrate_db-Migrating :
      (ro : Bool) (t : Tables) (s : Disk H)
      → At path other there differ (old_database t) s
      → Migrating t (migrate_db (handle_of path ro) 1 1 s)
  unfolding migrate_db
  migrate_db-Migrating ro t s a =
      bind_rule (Migrating t) (in_transaction work) (λ u. pure u) s
        (λ e k.
          At-same path other there differ (old_database t) s (in_transaction work s).1
            (in_transaction_atomic work s k) a)
        λ u k.
          let (did, files) = in_transaction_done work s k in
          At-same path other there differ (current (upgraded t)) (work begun).1
            (in_transaction work s).1 files
            (subst (λ r. Steps t (r, (work begun).1)) did (steps_lem ro t begun a))
    where
      work : Action (Disk H) (Unit {0})
      work = migrate_v2 (handle_of path ro) >> exec (handle_of path ro) (set_version 2)

      begun : Disk H
      begun = record s { world = (H.statement_fault s.world).1 }
