-- ===== src/Payouts/Directory.antt =====
-- pkg/payouts/import.go: Import, which makes the directory of a payout database from a CSV file. The
-- directory that a path stands for is the `dir` of the paths in it.
pub mod Whole
pub mod Imports
use crypto_batch_payment.Base.{
  ℕ, String, Bool, List, none, str_eq, if◌then◌else◌, Result, ok, err, already_imported, failed,
  is_some, ◌||◌, Action, ◌>>=◌, ◌>>◌, pure, of_result, raise_if,
}
use crypto_batch_payment.Host.{Host}
use crypto_batch_payment.Csv.{Row, parse}
use crypto_batch_payment.Store.{FilePath, Files, Disk, Handle, system, outside, on_tables}
use crypto_batch_payment.Store.Opening.{OpenedDb, new_db, close_handle, mkdir_all, stat, tmp_path}
use crypto_batch_payment.Payouts.{from_csv, create_payout_groups}

-- `DBPathFromDir`
abbrev pub db_path_from_dir : String → FilePath
db_path_from_dir dir = record { dir = dir; name = "payouts.db"; suffix = "" }

-- Whether a directory has a database, or the temporary file of one.
abbrev pub has_database : String → Files → Bool
has_database dir files =
    is_some (files (db_path_from_dir dir)) || is_some (files (tmp_path (db_path_from_dir dir)))

-- What `os.Rename` of a directory leaves, if it does not fail.
abbrev pub move_dir : String → String → Files → Files
move_dir from to files q =
    if str_eq to q.dir
    then files (record q { dir = from })
    else if str_eq from q.dir
    then none
    else files q

abbrev pub remove_dir : String → Files → Files
remove_dir dir files q = if str_eq dir q.dir then none else files q

module _ (H : Host) (read_all : String → Result (List (List String)))
    (read_file : String → Action H.World String) (mkdir_temp : String → Action H.World String) where
  -- `os.Rename` of a directory: ENOTEMPTY where the other directory has files. Of these the model
  -- has the databases; for any other file the system may refuse the call, as it may any.
  unfoldable pub rename_dir : String → String → Action (Disk H) (Unit {0})
  rename_dir from to =
      system (λ files.
        if has_database to files then err (failed 39) else ok (tt, move_dir from to files))

  -- `defer func() { _ = os.RemoveAll(dir) }()`: its error is ignored.
  abbrev pub removing : {A : Type 0} → String → Action (Disk H) A → Action (Disk H) A
  removing dir m s =
      let (r, s1) = m s in
      let (ignored, s2) = system (λ files. ok (tt {0}, remove_dir dir files)) s1 in (r, s2)

  -- `csv.Load`
  unfoldable pub load : String → Action (Disk H) (List (Row H))
  load csv_path = do bytes ← outside (read_file csv_path); of_result (parse H read_all bytes)

  -- What is done in the temporary directory.
  unfoldable pub fill_dir : List (Row H) → String → String → Action (Disk H) (Unit {0})
  fill_dir rows tmp dir = do
    opened ← new_db (db_path_from_dir tmp)
    on_tables opened.handle (create_payout_groups H 0 (from_csv rows))
    close_handle opened.handle
    rename_dir tmp dir

  -- `parent` is `filepath.Dir(dir)`.
  unfoldable pub import_payouts : String → String → String → Action (Disk H) (Unit {0})
  import_payouts csv_path parent dir = do
    rows ← load csv_path
    mkdir_all parent
    tmp ← outside (mkdir_temp parent)
    removing tmp (fill_dir rows tmp dir)

  -- Import, given the directory that `dbDirFromCSVPath` makes of the names.
  unfoldable pub import_csv : Result String → String → String → Action (Disk H) (Unit {0})
  import_csv db_dir csv_path parent = do
    dir ← of_result db_dir
    exists ← stat (db_path_from_dir dir)
    raise_if exists already_imported
    import_payouts csv_path parent dir
