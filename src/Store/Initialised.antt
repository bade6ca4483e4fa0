-- ===== src/Store/Initialised.antt =====
-- pkg/pipelinedb/db.go: what initDB makes, in its temporary file.
use crypto_batch_payment.Base.{
  ℕ, ◌-◌, ◌%◌, false, Option, none, some, [], ◌∷◌, ◌≡◌, refl, sym, ap, ◌∙◌, subst, Result, ok, err,
  Action, ◌>>=◌, ◌>>◌, arith,
}
use crypto_batch_payment.Base.Rules.{bind_rule}
use crypto_batch_payment.Host.{Host}
use crypto_batch_payment.Payoutdb.{Tables}
use crypto_batch_payment.Store.{
  current, Database, empty_database, FilePath, same_path, Files, put_file, Disk, Handle, found,
  insert_metadata, new_metadata, run_sql, run_all, exec, exec_all,
}
use crypto_batch_payment.Store.Opening.{
  db_version, schema, create_if_missing, tmp_path, open_handle, close_handle,
  create_no_return_metadata, mkdir_all, rename_in, rename, init_db,
}
use crypto_batch_payment.Store.Rules.{
  put_file_same, put_file_other, system_rule, ExecTo, exec-ExecTo, RanAll, exec_all-RanAll,
  ChangedBy, open_handle-ChangedBy, close_handle-files,
}
use crypto_batch_payment.Store.Kept.{handle_of}

-- The tables of the schema, and those of a new database: one row of metadata.
abbrev pub no_rows_yet : Tables
no_rows_yet = record { metadata = []; payout_group = []; payout = []; tx = [] }

abbrev pub fresh : ℕ → Tables
fresh now = record no_rows_yet { metadata = new_metadata now 2 0 [] ∷ [] }

schema_lem : run_all schema empty_database ≡ ok (current no_rows_yet)
unfolding run_sql
schema_lem = refl

metadata_lem :
    (now : ℕ) → run_sql (insert_metadata now 2 0) (current no_rows_yet) ≡ ok (current (fresh now))
unfolding run_sql
metadata_lem now = refl

module _ {H : Host} (path other : FilePath) (there : Option Database)
    (final : same_path (tmp_path path) path ≡ false)
    (apart : same_path (tmp_path path) other ≡ false) (differ : same_path path other ≡ false) where
  -- There is no database yet, and another file is as it was.
  abbrev pub Elsewhere : Disk H → Type 0
  Elsewhere s = (s.files path ≡ none) × (s.files other ≡ there)

  -- The temporary file has these tables.
  abbrev pub Built : Database → Disk H → Type 0
  Built d s =
      (found (s.files (tmp_path path)) ≡ d) × (s.files path ≡ none) × (s.files other ≡ there)

  abbrev pub BuiltBy : Database → Result (Unit {0}) × Disk H → Type 0
  BuiltBy d (err e, s) = Elsewhere s
  BuiltBy d (ok u, s) = Built d s

  -- What InitDB leaves.
  abbrev pub Initialised : Result (Unit {0}) × Disk H → Type 0
  Initialised (err e, s) = Elsewhere s
  Initialised (ok u, s) =
      (now : ℕ) × (s.files path ≡ some (current (fresh now))) × (s.files other ≡ there)

  pub Built-same : (d : Database) (s s' : Disk H) → s'.files ≡ s.files → Built d s → Built d s'
  Built-same d s s' e (a, b, c) =
      (ap (λ f. found (f (tmp_path path))) e ∙ a, ap (λ f. f path) e ∙ b, ap (λ f. f other) e ∙ c)

  renamed_to :
      (now : ℕ) (s : Disk H) (at : Option Database) (u : Unit {0}) (files : Files)
      → Built (current (fresh now)) s
      → s.files (tmp_path path) ≡ at
      → rename_in (tmp_path path) path at s.files ≡ ok (u, files)
      → (files path ≡ some (current (fresh now))) × (files other ≡ there)
  renamed_to now s none u files b e k = cc
  renamed_to now s (some d) u files (a, b, c) e k =
      let is : d ≡ current (fresh now) = sym (ap found e) ∙ a in
      let moved : put_file path (some d) (put_file (tmp_path path) none s.files) ≡ files =
        ground (arith, k) in
      (
        sym (ap (λ f. f path) moved)
            ∙ put_file_same path (some d) (put_file (tmp_path path) none s.files)
            ∙ ap some is,
        sym (ap (λ f. f other) moved)
            ∙ put_file_other path other (some d) (put_file (tmp_path path) none s.files) differ
            ∙ put_file_other (tmp_path path) other none s.files apart
            ∙ c,
      )

  rename-Initialised :
      (now : ℕ) (s : Disk H)
      → Built (current (fresh now)) s
      → Initialised (rename (tmp_path path) path s)
  unfolding rename
  rename-Initialised now s b =
      system_rule Initialised
        (λ files. rename_in (tmp_path path) path (files (tmp_path path)) files) s
        (λ e s' k. let same = Built-same (current (fresh now)) s s' k b in (same.1, same.2))
        λ u s' k.
          let (here, elsewhere) = renamed_to now s (s.files (tmp_path path)) u s'.files b refl k in
          (now, here, elsewhere)

  close-Initialised :
      (now : ℕ) (s : Disk H)
      → Built (current (fresh now)) s
      → Initialised
          ((close_handle (handle_of (tmp_path path) false) >> rename (tmp_path path) path) s)
  close-Initialised now s b =
      bind_rule Initialised (close_handle (handle_of (tmp_path path) false))
        (λ u. rename (tmp_path path) path) s (λ e k. (closed.1, closed.2))
        λ u k. rename-Initialised now _ closed
    where
      closed : Built (current (fresh now)) (close_handle (handle_of (tmp_path path) false) s).1
      closed =
          Built-same (current (fresh now)) s (close_handle (handle_of (tmp_path path) false) s).1
            (close_handle-files (handle_of (tmp_path path) false) s) b

  inserted_Built :
      (now : ℕ) (s : Disk H) (r : Result (Unit {0})) (s' : Disk H)
      → Built (current no_rows_yet) s
      → ExecTo
          (handle_of (tmp_path path) false)
          (insert_metadata now 2 0)
          (found (s.files (tmp_path path)))
          s
          (r, s')
      → BuiltBy (current (fresh now)) (r, s')
  inserted_Built now s (err e) s' b k =
      let same = Built-same (current no_rows_yet) s s' k b in (same.1, same.2)
  inserted_Built now s (ok u) s' (a, b, c) (_, d, ran, same) =
      let ran' : ok (current (fresh now)) ≡ ok d =
        sym (metadata_lem now) ∙ subst (λ x. run_sql (insert_metadata now 2 0) x ≡ ok d) a ran in
      let is : d ≡ current (fresh now) = cc in
      (
        ap (λ f. found (f (tmp_path path))) same
            ∙ ap found (put_file_same (tmp_path path) (some d) s.files)
            ∙ is,
        ap (λ f. f path) same ∙ put_file_other (tmp_path path) path (some d) s.files final ∙ b,
        ap (λ f. f other) same ∙ put_file_other (tmp_path path) other (some d) s.files apart ∙ c,
      )

  metadata-Initialised :
      (s : Disk H)
      → Built (current no_rows_yet) s
      → Initialised (
          (do
            create_no_return_metadata (handle_of (tmp_path path) false) db_version 0
            close_handle (handle_of (tmp_path path) false)
            rename (tmp_path path) path)
            s)
  unfolding create_no_return_metadata
  metadata-Initialised s b =
      bind_rule Initialised
        (create_no_return_metadata (handle_of (tmp_path path) false) db_version 0)
        (λ u. close_handle (handle_of (tmp_path path) false) >> rename (tmp_path path) path) s
        (λ e k. subst (λ r. BuiltBy (current (fresh now)) (r, s1)) k built)
        λ u k. close-Initialised now s1 (subst (λ r. BuiltBy (current (fresh now)) (r, s1)) k built)
    where
      now : ℕ
      now = (H.now s.world).0 - (H.now s.world).0 % 1000000

      s0 : Disk H
      s0 = record s { world = (H.now s.world).1 }

      s1 : Disk H
      s1 = (exec (handle_of (tmp_path path) false) (insert_metadata now 2 0) s0).1

      built :
          BuiltBy
            (current (fresh now))
            (exec (handle_of (tmp_path path) false) (insert_metadata now 2 0) s0)
      built =
          inserted_Built now s0
            (exec (handle_of (tmp_path path) false) (insert_metadata now 2 0) s0).0 s1 b
            (exec-ExecTo (handle_of (tmp_path path) false) (insert_metadata now 2 0) s0)

  schema-BuiltBy :
      (s : Disk H) (r : Result (Unit {0})) (s' : Disk H)
      → Built empty_database s
      → RanAll (handle_of (tmp_path path) false) schema path s (r, s')
      → RanAll (handle_of (tmp_path path) false) schema other s (r, s')
      → BuiltBy (current no_rows_yet) (r, s')
  schema-BuiltBy s (err e) s' (a, b, c) here there = (here ∙ b, there ∙ c)
  schema-BuiltBy s (ok u) s' (a, b, c) (d, ran, now, here) (_, _, _, there) =
      let ran' : ok (current no_rows_yet) ≡ ok d =
        sym schema_lem ∙ subst (λ x. run_all schema x ≡ ok d) a ran in
      let is : d ≡ current no_rows_yet = cc in (now ∙ is, here ∙ b, there ∙ c)

  schema-Initialised :
      (s : Disk H)
      → Built empty_database s
      → Initialised (
          (do
            exec_all (handle_of (tmp_path path) false) schema
            create_no_return_metadata (handle_of (tmp_path path) false) db_version 0
            close_handle (handle_of (tmp_path path) false)
            rename (tmp_path path) path)
            s)
  schema-Initialised s b =
      bind_rule Initialised (exec_all (handle_of (tmp_path path) false) schema)
        (λ u. do
          create_no_return_metadata (handle_of (tmp_path path) false) db_version 0
          close_handle (handle_of (tmp_path path) false)
          rename (tmp_path path) path)
        s (λ e k. subst (λ r. BuiltBy (current no_rows_yet) (r, s1)) k built)
        λ u k. metadata-Initialised s1 (subst (λ r. BuiltBy (current no_rows_yet) (r, s1)) k built)
    where
      s1 : Disk H
      s1 = (exec_all (handle_of (tmp_path path) false) schema s).1

      built : BuiltBy (current no_rows_yet) (exec_all (handle_of (tmp_path path) false) schema s)
      built =
          schema-BuiltBy s (exec_all (handle_of (tmp_path path) false) schema s).0 s1 b
            (exec_all-RanAll (handle_of (tmp_path path) false) schema path s final)
            (exec_all-RanAll (handle_of (tmp_path path) false) schema other s apart)

  -- A handle on the temporary file.
  abbrev OpensTmp : Result Handle × Disk H → Type 0
  OpensTmp (err e, s) = Elsewhere s
  OpensTmp (ok h, s) = (h ≡ handle_of (tmp_path path) false) × Built empty_database s

  open_tmp :
      (s : Disk H) (r : Result Handle) (s' : Disk H)
      → Built empty_database s
      → ChangedBy (handle_of (tmp_path path) false) (create_if_missing (tmp_path path)) s (r, s')
      → OpensTmp (r, s')
  open_tmp s (err e) s' b k = let same = Built-same empty_database s s' k b in (same.1, same.2)
  open_tmp s (ok h) s' (a, b, c) (is, k) =
      let made : Option Database = some (found (s.files (tmp_path path))) in
      (
        is,
        (
          ap (λ f. found (f (tmp_path path))) k
              ∙ ap found (put_file_same (tmp_path path) made s.files)
              ∙ a,
          ap (λ f. f path) k ∙ put_file_other (tmp_path path) path made s.files final ∙ b,
          ap (λ f. f other) k ∙ put_file_other (tmp_path path) other made s.files apart ∙ c,
        ),
      )

  -- The steps of InitDB on an open handle.
  abbrev fill_tmp : Handle → Action (Disk H) (Unit {0})
  fill_tmp h = do
    exec_all h schema
    create_no_return_metadata h db_version 0
    close_handle h
    rename (tmp_path path) path

  open-Initialised :
      (s : Disk H)
      → Built empty_database s
      → Initialised ((do h ← open_handle (tmp_path path) false; fill_tmp h) s)
  open-Initialised s b =
      bind_rule Initialised (open_handle (tmp_path path) false) fill_tmp s
        (λ e k. subst (λ r. OpensTmp (r, s1)) k opens)
        λ h k.
          let opened = subst (λ r. OpensTmp (r, s1)) k opens in
          subst (λ x. Initialised (fill_tmp x s1)) (sym opened.0) (schema-Initialised s1 opened.1)
    where
      s1 : Disk H
      s1 = (open_handle (tmp_path path) false s).1

      opens : OpensTmp (open_handle (tmp_path path) false s)
      opens =
          open_tmp s (open_handle (tmp_path path) false s).0 s1 b
            (open_handle-ChangedBy (tmp_path path) false s)

  pub init_db-Initialised : (s : Disk H) → Built empty_database s → Initialised (init_db path s)
  unfolding init_db mkdir_all
  init_db-Initialised s b =
      bind_rule Initialised (mkdir_all path.dir)
        (λ u. do h ← open_handle (tmp_path path) false; fill_tmp h) s (λ e k. (made.1, made.2))
        λ u k. open-Initialised _ made
    where
      made : Built empty_database (mkdir_all path.dir s).1
      made = Built-same empty_database s (mkdir_all path.dir s).1 (ground arith) b
