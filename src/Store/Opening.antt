-- ===== src/Store/Opening.antt =====
-- pkg/pipelinedb/db.go: NewDB, OpenDB, Close and the migration.
use crypto_batch_payment.Base.{
  ℕ, zero, suc, ◌-◌, ◌%◌, String, Bool, false, Option, none, some, List, [], ◌∷◌, ltb, is_some,
  Result, ok, err, or_error, no_table, no_column, nil_dereference, database_exists, file_missing,
  version_in_future, no_migration, metadata_missing, Action, ◌>>=◌, ◌>>◌, pure, raise, raise_if,
  of_result, choose,
}
use crypto_batch_payment.Host.{Host}
use crypto_batch_payment.Payoutdb.{MetadataRow}
use crypto_batch_payment.Payoutdb.Reads.{head?}
use crypto_batch_payment.Store.{
  payer_column, owner_column, Database, FilePath, Files, put_file, Disk, Handle, found, Sql,
  create_metadata, create_payout_group_table, create_payout_table, create_tx, insert_metadata,
  create_metadata_new, copy_metadata, drop_metadata, rename_metadata, create_tx_new, copy_tx,
  drop_tx, rename_tx, set_version, system, read, exec, exec_all, in_transaction,
}

abbrev pub db_version : ℕ
db_version = 2

abbrev pub schema : List Sql
schema = create_metadata ∷ create_payout_group_table ∷ create_payout_table ∷ create_tx ∷ []

abbrev pub migration_to_2 : List Sql
migration_to_2 =
    create_metadata_new ∷ copy_metadata ∷ drop_metadata ∷ rename_metadata ∷ create_tx_new ∷ copy_tx
    ∷ drop_tx ∷ rename_tx ∷ []

-- `SELECT metadata.version FROM metadata LIMIT 1`
abbrev pub metadata_version : Database → Result (Option ℕ)
metadata_version d = elim d.metadata [
  | none ↦ err no_table
  | some table ↦ ok (elim (head? table.rows) [ none ↦ none | some m ↦ some m.version ])
]

-- The columns that `First_Metadata` reads have the names of the present version.
abbrev pub metadata_row : Database → Result (Option MetadataRow)
metadata_row d = elim d.metadata [
  | none ↦ err no_table
  | some table ↦ elim table.column [
    | payer_column ↦ err no_column
    | owner_column ↦ ok (head? table.rows)
  ]
]

abbrev pub create_if_missing : FilePath → Files → Files
create_if_missing path files = put_file path (some (found (files path))) files

-- `path + ".tmp"`
abbrev pub tmp_path : FilePath → FilePath
tmp_path path = record path { suffix = ".tmp" }

-- DB: the open database, and the metadata that was read when it was opened.
pub record OpenedDb : Type 0 where
  pub handle : Handle
  pub metadata : MetadataRow

abbrev pub rename_in : FilePath → FilePath → Option Database → Files → Result (Unit {0} × Files)
rename_in from to none files = err file_missing
rename_in from to (some d) files = ok (tt, put_file to (some d) (put_file from none files))

module _ {H : Host} where
  -- `openDB`; the first connection makes the file if it is missing.
  unfoldable pub open_handle : FilePath → Bool → Action (Disk H) Handle
  open_handle path read_only = do
    system (λ files. ok (tt, create_if_missing path files))
    pure (record { path = path; read_only = read_only })

  -- The checkpoint's error is ignored, and the checkpoint changes no row.
  unfoldable pub close_handle : Handle → Action (Disk H) (Unit {0})
  close_handle h = system (λ files. ok (tt, files))

  abbrev pub disk_now : Action (Disk H) ℕ
  disk_now s = let (t, w) = H.now s.world in (ok (t - t % 1000000), record s { world = w })

  unfoldable pub create_no_return_metadata : Handle → ℕ → ℕ → Action (Disk H) (Unit {0})
  create_no_return_metadata h version attempts = do
    now ← disk_now
    exec h (insert_metadata now version attempts)

  unfoldable pub first_metadata_version : Handle → Action (Disk H) (Option ℕ)
  first_metadata_version h = read h metadata_version

  unfoldable pub first_metadata_of : Handle → Action (Disk H) (Option MetadataRow)
  first_metadata_of h = read h metadata_row

  unfoldable pub stat : FilePath → Action (Disk H) Bool
  stat path = system (λ files. ok (is_some (files path), files))

  -- `os.MkdirAll`; directories are not modelled but as parts of paths.
  unfoldable pub mkdir_all : String → Action (Disk H) (Unit {0})
  mkdir_all dir = system (λ files. ok (tt, files))

  -- `os.Rename`, given what is at the old path.
  unfoldable pub rename : FilePath → FilePath → Action (Disk H) (Unit {0})
  rename from to = system (λ files. rename_in from to (files from) files)

  abbrev pub migrate_v2 : Handle → Action (Disk H) (Unit {0})
  migrate_v2 h = exec_all h migration_to_2

  -- The `switch` on the version to migrate to.
  abbrev pub migrate_to : Handle → ℕ → Action (Disk H) (Unit {0})
  migrate_to h (suc (suc zero)) = migrate_v2 h
  migrate_to h _ = raise no_migration

  -- `migrateDB`, with as many rounds left as versions.
  unfoldable pub migrate_db : Handle → ℕ → ℕ → Action (Disk H) (Unit {0})
  migrate_db h zero from = pure tt
  migrate_db h (suc rounds) from = do
    in_transaction (migrate_to h (suc from) >> exec h (set_version (suc from)))
    migrate_db h rounds (suc from)

  -- A read-only handle is opened again for writing.
  abbrev pub writable : Handle → Action (Disk H) Handle
  writable h = choose h.read_only (close_handle h >> open_handle h.path false) (pure h)

  abbrev pub upgrade : Handle → ℕ → Action (Disk H) Handle
  upgrade h version = do
    w ← writable h
    migrate_db w (db_version - version) version
    close_handle w
    open_handle h.path h.read_only

  -- The `switch` on the version of the file.
  abbrev pub by_version : Handle → ℕ → Action (Disk H) Handle
  by_version h version =
      choose (ltb version db_version) (upgrade h version)
        (choose (ltb db_version version) (raise version_in_future) (pure h))

  -- The handle with its metadata.
  abbrev pub with_metadata : Handle → Action (Disk H) OpenedDb
  with_metadata handle = do
    metadata ← first_metadata_of handle
    known ← of_result (or_error metadata metadata_missing)
    pure (record { handle = handle; metadata = known })

  -- A row of metadata that is missing is dereferenced.
  abbrev pub open_version : Handle → Option ℕ → Action (Disk H) OpenedDb
  open_version first none = raise nil_dereference
  open_version first (some version) = do handle ← by_version first version; with_metadata handle

  -- The deferred Close after an error changes no file, and is left out.
  unfoldable pub open_db : FilePath → Bool → Action (Disk H) OpenedDb
  open_db path read_only = do
    first ← open_handle path read_only
    version ← first_metadata_version first
    open_version first version

  unfoldable pub init_db : FilePath → Action (Disk H) (Unit {0})
  init_db path = do
    mkdir_all path.dir
    handle ← open_handle (tmp_path path) false
    exec_all handle schema
    create_no_return_metadata handle db_version 0
    close_handle handle
    rename (tmp_path path) path

  unfoldable pub new_db : FilePath → Action (Disk H) OpenedDb
  new_db path = do
    exists ← stat path
    raise_if exists database_exists
    init_db path
    open_db path false
