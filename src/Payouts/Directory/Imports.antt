-- ===== src/Payouts/Directory/Imports.antt =====
-- pkg/payouts/import.go: Import as a whole, from the CSV file to the directory of the database.
use crypto_batch_payment.Base.{
  String, false, Option, none, some, List, str_eq, ◌≡◌, refl, sym, ap, ◌∙◌, subst, Result, ok, err,
  Action, ◌>>=◌, ◌>>◌, of_result, arith,
}
use crypto_batch_payment.Base.Rules.{bind_rule}
use crypto_batch_payment.Host.{Host}
use crypto_batch_payment.Csv.{Row, parse}
use crypto_batch_payment.Payoutdb.{Tables}
use crypto_batch_payment.Store.{current, Database, FilePath, Files, Disk, found, outside}
use crypto_batch_payment.Store.Opening.{mkdir_all, tmp_path}
use crypto_batch_payment.Store.Rules.{system-ChangedBy}
use crypto_batch_payment.Payouts.Directory.{
  db_path_from_dir, remove_dir, removing, load, fill_dir, import_payouts,
}
use crypto_batch_payment.Payouts.Directory.Whole.{HasAll, Whole, fill_dir-Whole, removed_Whole}

-- What is known of a directory that `os.MkdirTemp` makes: it is a new one, with no files in it.
abbrev pub IsNew : FilePath → String → String → Files → Type 0
IsNew other tmp dir files =
    (str_eq tmp dir ≡ false)
    × (str_eq tmp other.dir ≡ false)
    × (files (tmp_path (db_path_from_dir tmp)) ≡ none)
    × (files (db_path_from_dir tmp) ≡ none)

abbrev pub MakesNew :
    (H : Host) → (String → Action H.World String) → FilePath → String → String → Files → Type 0
MakesNew H mkdir_temp other parent dir files =
    (w : H.World) (tmp : String) → (mkdir_temp parent w).0 ≡ ok tmp → IsNew other tmp dir files

module _ {H : Host} (read_all : String → Result (List (List String)))
    (read_file : String → Action H.World String) (mkdir_temp : String → Action H.World String)
    (other : FilePath) (there : Option Database) where
  -- The rows of a CSV file.
  abbrev pub Loads : String → H.World → List (Row H) → Type 0
  Loads csv_path w rows =
      (bytes : String) × ((read_file csv_path w).0 ≡ ok bytes) × (parse H read_all bytes ≡ ok rows)

  -- The rows of the CSV file are in the database; or there is no database.
  abbrev pub WholeFile : String → String → H.World → Result (Unit {0}) × Disk H → Type 0
  WholeFile csv_path dir w (err e, s) =
      (s.files (db_path_from_dir dir) ≡ none) × (s.files other ≡ there)
  WholeFile csv_path dir w (ok u, s) =
      (rows : List (Row H)) × Loads csv_path w rows
      × (t : Tables) × (s.files (db_path_from_dir dir) ≡ some (current t))
      × HasAll read_all read_file mkdir_temp other there rows t
      × (s.files other ≡ there)

  whole_file :
      (csv_path dir : String) (w : H.World) (rows : List (Row H)) (r : Result (Unit {0}))
      (s : Disk H)
      → Loads csv_path w rows
      → Whole read_all read_file mkdir_temp other there rows dir (r, s)
      → WholeFile csv_path dir w (r, s)
  whole_file csv_path dir w rows (err e) s l k = k
  whole_file csv_path dir w rows (ok u) s l k = (rows, l, k.0, k.1, k.2, k.3)

  removing-Whole :
      (rows : List (Row H)) (tmp dir : String) (s : Disk H)
      → str_eq dir other.dir ≡ false
      → IsNew other tmp dir s.files
      → s.files (db_path_from_dir dir) ≡ none
      → s.files other ≡ there
      → Whole read_all read_file mkdir_temp other there rows dir (
          removing H read_all read_file mkdir_temp tmp
            (fill_dir H read_all read_file mkdir_temp rows tmp dir)
            s)
  removing-Whole rows tmp dir s away (apart, far, left, none_yet) final elsewhere =
      removed_Whole read_all read_file mkdir_temp other there rows tmp dir (work s).0 (work s).1 _ _
        apart far
        (fill_dir-Whole read_all read_file mkdir_temp other there rows tmp dir s apart away far
          (ap found left, none_yet, final, elsewhere))
        (system-ChangedBy tt (remove_dir tmp) (work s).1)
    where
      work : Action (Disk H) (Unit {0})
      work = fill_dir H read_all read_file mkdir_temp rows tmp dir

  -- From the temporary directory on.
  abbrev in_new_dir : List (Row H) → String → String → Action (Disk H) (Unit {0})
  in_new_dir rows parent dir = do
    tmp ← outside (mkdir_temp parent)
    removing H read_all read_file mkdir_temp tmp
        (fill_dir H read_all read_file mkdir_temp rows tmp dir)

  in_new_dir-Whole :
      (rows : List (Row H)) (parent dir : String) (s : Disk H)
      → MakesNew H mkdir_temp other parent dir s.files
      → str_eq dir other.dir ≡ false
      → s.files (db_path_from_dir dir) ≡ none
      → s.files other ≡ there
      → Whole read_all read_file mkdir_temp other there rows dir (in_new_dir rows parent dir s)
  in_new_dir-Whole rows parent dir s news away final elsewhere =
      bind_rule (Whole read_all read_file mkdir_temp other there rows dir)
        (outside (mkdir_temp parent))
        (λ tmp.
          removing H read_all read_file mkdir_temp tmp
            (fill_dir H read_all read_file mkdir_temp rows tmp dir))
        s (λ e k. (final, elsewhere))
        λ tmp k.
          removing-Whole rows tmp dir (outside (mkdir_temp parent) s).1 away (news s.world tmp k)
            final elsewhere

  mkdir-Whole :
      (rows : List (Row H)) (parent dir : String) (s : Disk H)
      → MakesNew H mkdir_temp other parent dir s.files
      → str_eq dir other.dir ≡ false
      → s.files (db_path_from_dir dir) ≡ none
      → s.files other ≡ there
      → Whole read_all read_file mkdir_temp other there rows dir
          ((mkdir_all parent >> in_new_dir rows parent dir) s)
  unfolding mkdir_all
  mkdir-Whole rows parent dir s news away final elsewhere =
      bind_rule (Whole read_all read_file mkdir_temp other there rows dir) (mkdir_all parent)
        (λ u. in_new_dir rows parent dir) s
        (λ e k.
          (ap (λ f. f (db_path_from_dir dir)) same ∙ final, ap (λ f. f other) same ∙ elsewhere))
        λ u k.
          in_new_dir-Whole rows parent dir s1
            (subst (MakesNew H mkdir_temp other parent dir) (sym same) news) away
            (ap (λ f. f (db_path_from_dir dir)) same ∙ final) (ap (λ f. f other) same ∙ elsewhere)
    where
      s1 : Disk H
      s1 = (mkdir_all parent s).1

      same : s1.files ≡ s.files
      same = ground arith

  abbrev LoadTo : String → Disk H → Result (List (Row H)) × Disk H → Type 0
  LoadTo csv_path s (err e, s') = s'.files ≡ s.files
  LoadTo csv_path s (ok rows, s') = (s'.files ≡ s.files) × Loads csv_path s.world rows

  load-LoadTo :
      (csv_path : String) (s : Disk H)
      → LoadTo csv_path s (load H read_all read_file mkdir_temp csv_path s)
  unfolding load
  load-LoadTo csv_path s =
      bind_rule (LoadTo csv_path s) (outside (read_file csv_path))
        (λ bytes. of_result (parse H read_all bytes)) s (λ e k. refl)
        λ bytes k. go bytes k (parse H read_all bytes) refl
    where
      s1 : Disk H
      s1 = (outside (read_file csv_path) s).1

      go :
          (bytes : String)
          → (read_file csv_path s.world).0 ≡ ok bytes
          → (r : Result (List (Row H))) → parse H read_all bytes ≡ r
          → LoadTo csv_path s (r, s1)
      go bytes k (err e) h = refl
      go bytes k (ok rows) h = (refl, (bytes, k, h))

  -- Where there is no database in the directory yet, importPayouts makes one with all of the rows of
  -- the CSV file, each as a payout in a group of its own, numbered in order; or, wherever it fails,
  -- there is still none. A file of any other directory, but the temporary one, stays as it was. The
  -- temporary directory is a new one, as `os.MkdirTemp` makes it.
  pub import_payouts-WholeFile :
      (csv_path parent dir : String) (s : Disk H)
      → MakesNew H mkdir_temp other parent dir s.files
      → str_eq dir other.dir ≡ false
      → s.files (db_path_from_dir dir) ≡ none
      → s.files other ≡ there
      → WholeFile csv_path dir s.world
          (import_payouts H read_all read_file mkdir_temp csv_path parent dir s)
  unfolding import_payouts
  import_payouts-WholeFile csv_path parent dir s news away final elsewhere =
      bind_rule (WholeFile csv_path dir s.world) (load H read_all read_file mkdir_temp csv_path)
        (λ rows. mkdir_all parent >> in_new_dir rows parent dir) s
        (λ e k.
          let same = subst (λ r. LoadTo csv_path s (r, s1)) k loads in
          (ap (λ f. f (db_path_from_dir dir)) same ∙ final, ap (λ f. f other) same ∙ elsewhere))
        λ rows k.
          let (same, loaded) = subst (λ r. LoadTo csv_path s (r, s1)) k loads in
          whole_file csv_path dir s.world rows
            ((mkdir_all parent >> in_new_dir rows parent dir) s1).0
            ((mkdir_all parent >> in_new_dir rows parent dir) s1).1 loaded
            (mkdir-Whole rows parent dir s1
              (subst (MakesNew H mkdir_temp other parent dir) (sym same) news) away
              (ap (λ f. f (db_path_from_dir dir)) same ∙ final)
              (ap (λ f. f other) same ∙ elsewhere))
    where
      s1 : Disk H
      s1 = (load H read_all read_file mkdir_temp csv_path s).1

      loads : LoadTo csv_path s (load H read_all read_file mkdir_temp csv_path s)
      loads = load-LoadTo csv_path s
