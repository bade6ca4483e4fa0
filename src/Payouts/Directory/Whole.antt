-- ===== src/Payouts/Directory/Whole.antt =====
-- pkg/payouts/import.go: Import leaves the whole of the database or none of it.
use crypto_batch_payment.Base.{
  ℕ, String, false, Option, none, some, List, [], ◌∷◌, map, append-nil, str_eq, eq_refl, ◌≡◌, sym,
  ap, ◌∙◌, subst, Result, ok, err, failed, if◌then◌else◌, Action, ◌>>◌, arith,
}
use crypto_batch_payment.Base.Rules.{bind_rule}
use crypto_batch_payment.Host.{Host}
use crypto_batch_payment.Csv.{Row}
use crypto_batch_payment.Payoutdb.{Tables, Conn}
use crypto_batch_payment.Pipelinedb.Imported.{columns}
use crypto_batch_payment.Store.{
  current, tables_of, Database, empty_database, FilePath, same_path, put_file, Disk, Handle, found,
  on_found, on_tables,
}
use crypto_batch_payment.Store.Opening.{OpenedDb, new_db, close_handle, tmp_path}
use crypto_batch_payment.Store.Rules.{put_file_same, ChangedBy, system_rule, close_handle-files}
use crypto_batch_payment.Store.Kept.{handle_of}
use crypto_batch_payment.Store.Initialised.{fresh}
use crypto_batch_payment.Store.Created.{NewAt, Created, new_db-NewAt}
use crypto_batch_payment.Payouts.{from_csv, create_payout_groups}
use crypto_batch_payment.Payouts.Import.{
  ids, numbered, numbers, Numbered, create_payout_groups-Numbered,
}
use crypto_batch_payment.Payouts.Directory.{
  db_path_from_dir, has_database, move_dir, remove_dir, rename_dir, fill_dir,
}

-- Paths in two directories are not the same.
apart_path : (p q : FilePath) → str_eq p.dir q.dir ≡ false → same_path p q ≡ false
apart_path p q e = ground arith

-- Nor are a file and its temporary file.
tmp_apart :
    (dir : String) → same_path (tmp_path (db_path_from_dir dir)) (db_path_from_dir dir) ≡ false
tmp_apart dir = ground arith

some-found : (d : Option Database) (t : Tables) → found d ≡ current t → d ≡ some (current t)
some-found none t e = cc
some-found (some x) t e = ap some e

module _ {H : Host} (read_all : String → Result (List (List String)))
    (read_file : String → Action H.World String) (mkdir_temp : String → Action H.World String)
    (other : FilePath) (there : Option Database) where
  -- A payout for each row, in a group of its own, with the row's number.
  abbrev pub HasAll : List (Row H) → Tables → Type 0
  HasAll rows t =
      (map columns t.payout ≡ numbered 0 (from_csv rows)) × (ids t ≡ numbers 0 (from_csv rows))

  -- The whole database, or none.
  abbrev pub Whole : List (Row H) → String → Result (Unit {0}) × Disk H → Type 0
  Whole rows dir (err e, s) = (s.files (db_path_from_dir dir) ≡ none) × (s.files other ≡ there)
  Whole rows dir (ok u, s) =
      (t : Tables) × (s.files (db_path_from_dir dir) ≡ some (current t))
      × HasAll rows t
      × (s.files other ≡ there)

  -- The database in the temporary directory.
  abbrev Ready : Tables → String → String → Disk H → Type 0
  Ready t tmp dir s =
      (found (s.files (db_path_from_dir tmp)) ≡ current t)
      × (s.files (db_path_from_dir dir) ≡ none)
      × (s.files other ≡ there)

  Ready-same :
      (t : Tables) (tmp dir : String) (s s' : Disk H)
      → s'.files ≡ s.files
      → Ready t tmp dir s
      → Ready t tmp dir s'
  Ready-same t tmp dir s s' e (a, b, c) = (
    ap (λ f. found (f (db_path_from_dir tmp))) e ∙ a,
    ap (λ f. f (db_path_from_dir dir)) e ∙ b,
    ap (λ f. f other) e ∙ c,
  )

  moved_Whole :
      (rows : List (Row H)) (t : Tables) (tmp dir : String) (s : Disk H) (r : Result (Unit {0}))
      (s' : Disk H)
      → str_eq dir other.dir ≡ false
      → str_eq tmp other.dir ≡ false
      → HasAll rows t
      → Ready t tmp dir s
      → ChangedBy tt (move_dir tmp dir) s (r, s')
      → Whole rows dir (r, s')
  moved_Whole rows t tmp dir s (err e) s' away far all (a, b, c) k =
      (ap (λ f. f (db_path_from_dir dir)) k ∙ b, ap (λ f. f other) k ∙ c)
  moved_Whole rows t tmp dir s (ok u) s' away far all (a, b, c) (_, k) = (
    t,
    ap (λ f. f (db_path_from_dir dir)) k
        ∙ rw (eq_refl dir) (some-found (s.files (db_path_from_dir tmp)) t a),
    all,
    ap (λ f. f other) k ∙ rw (away, far) c,
  )

  rename_dir-ChangedBy :
      (tmp dir : String) (s : Disk H)
      → ChangedBy tt (move_dir tmp dir) s (rename_dir H read_all read_file mkdir_temp tmp dir s)
  unfolding rename_dir
  rename_dir-ChangedBy tmp dir s =
      system_rule (ChangedBy tt (move_dir tmp dir) s)
        (λ files.
          if has_database dir files then err (failed 39) else ok (tt, move_dir tmp dir files))
        s (λ e s' same. same) λ b s' done. ground (arith, done)

  rename_dir-Whole :
      (rows : List (Row H)) (t : Tables) (tmp dir : String) (s : Disk H)
      → str_eq dir other.dir ≡ false
      → str_eq tmp other.dir ≡ false
      → HasAll rows t
      → Ready t tmp dir s
      → Whole rows dir (rename_dir H read_all read_file mkdir_temp tmp dir s)
  rename_dir-Whole rows t tmp dir s away far all ready =
      moved_Whole rows t tmp dir s _ (rename_dir H read_all read_file mkdir_temp tmp dir s).1 away
        far all ready (rename_dir-ChangedBy tmp dir s)

  close-Whole :
      (rows : List (Row H)) (t : Tables) (tmp dir : String) (s : Disk H)
      → str_eq dir other.dir ≡ false
      → str_eq tmp other.dir ≡ false
      → HasAll rows t
      → Ready t tmp dir s
      → Whole rows dir (
          (close_handle (handle_of (db_path_from_dir tmp) false)
              >> rename_dir H read_all read_file mkdir_temp tmp dir)
            s)
  close-Whole rows t tmp dir s away far all ready =
      bind_rule (Whole rows dir) (close_handle (handle_of (db_path_from_dir tmp) false))
        (λ u. rename_dir H read_all read_file mkdir_temp tmp dir) s (λ e k. (closed.1, closed.2))
        λ u k. rename_dir-Whole rows t tmp dir _ away far all closed
    where
      closed : Ready t tmp dir (close_handle (handle_of (db_path_from_dir tmp) false) s).1
      closed =
          Ready-same t tmp dir s (close_handle (handle_of (db_path_from_dir tmp) false) s).1
            (close_handle-files (handle_of (db_path_from_dir tmp) false) s) ready

  -- What creating the groups leaves in the temporary file.
  abbrev Filling : List (Row H) → String → String → Result (Unit {0}) × Disk H → Type 0
  Filling rows tmp dir (err e, s) =
      (s.files (db_path_from_dir dir) ≡ none) × (s.files other ≡ there)
  Filling rows tmp dir (ok u, s) = (t : Tables) × HasAll rows t × Ready t tmp dir s

  filled_lem :
      (rows : List (Row H)) (tmp dir : String) (now : ℕ) (s : Disk H) (r : Result (Unit {0}))
      (c : Conn H)
      → str_eq tmp dir ≡ false
      → str_eq tmp other.dir ≡ false
      → Ready (fresh now) tmp dir s
      → Numbered 0 (from_csv rows) (fresh now) (r, c)
      → Filling rows tmp dir (
        r,
        record {
          files = put_file (db_path_from_dir tmp) (some (current c.tables)) s.files;
          world = c.world;
        },
      )
  filled_lem rows tmp dir now s (err e) c away far (a, b, d) n = (rw away b, rw far d)
  filled_lem rows tmp dir now s (ok u) c away far (a, b, d) (first, [], e, payouts, groups, fails) =
      let whole : from_csv rows ≡ first = e ∙ append-nil first in
      (
        c.tables,
        (payouts ∙ ap (numbered 0) (sym whole), groups ∙ ap (numbers 0) (sym whole)),
        (
          ap found (put_file_same (db_path_from_dir tmp) (some (current c.tables)) s.files),
          rw away b,
          rw far d,
        ),
      )
  filled_lem rows tmp dir now s (ok u) c away far ready
        (first, p ∷ rest, e, payouts, groups, fails) =
      cc

  groups-Filling :
      (rows : List (Row H)) (tmp dir : String) (now : ℕ) (s : Disk H)
      → str_eq tmp dir ≡ false
      → str_eq tmp other.dir ≡ false
      → Ready (fresh now) tmp dir s
      → Filling rows tmp dir (
          on_tables
            (handle_of (db_path_from_dir tmp) false)
            (create_payout_groups H 0 (from_csv rows))
            s)
  groups-Filling rows tmp dir now s away far ready =
      subst
        (λ d. Filling rows tmp dir (
          on_found (handle_of (db_path_from_dir tmp) false)
            (create_payout_groups H 0 (from_csv rows)) (tables_of d) s))
        (sym (ready.0))
        (filled_lem rows tmp dir now s (create_payout_groups H 0 (from_csv rows) begun).0
          (create_payout_groups H 0 (from_csv rows) begun).1 away far ready
          (create_payout_groups-Numbered 0 (from_csv rows) begun))
    where
      begun : Conn H
      begun = record { tables = fresh now; world = s.world }

  -- What is done with the database once it is made.
  abbrev use_handle : List (Row H) → String → String → Handle → Action (Disk H) (Unit {0})
  use_handle rows tmp dir handle = do
    on_tables handle (create_payout_groups H 0 (from_csv rows))
    close_handle handle
    rename_dir H read_all read_file mkdir_temp tmp dir

  use_handle-Whole :
      (rows : List (Row H)) (tmp dir : String) (now : ℕ) (s : Disk H)
      → str_eq tmp dir ≡ false
      → str_eq dir other.dir ≡ false
      → str_eq tmp other.dir ≡ false
      → Ready (fresh now) tmp dir s
      → Whole rows dir (use_handle rows tmp dir (handle_of (db_path_from_dir tmp) false) s)
  use_handle-Whole rows tmp dir now s apart away far ready =
      bind_rule (Whole rows dir)
        (on_tables (handle_of (db_path_from_dir tmp) false)
          (create_payout_groups H 0 (from_csv rows)))
        (λ u. do
          close_handle (handle_of (db_path_from_dir tmp) false)
          rename_dir H read_all read_file mkdir_temp tmp dir)
        s (λ e k. subst (λ r. Filling rows tmp dir (r, s1)) k filling)
        λ u k.
          let (t, all, ready') = subst (λ r. Filling rows tmp dir (r, s1)) k filling in
          close-Whole rows t tmp dir s1 away far all ready'
    where
      s1 : Disk H
      s1 =
          (on_tables (handle_of (db_path_from_dir tmp) false)
            (create_payout_groups H 0 (from_csv rows)) s).1

      filling : Filling rows tmp dir (
          on_tables
            (handle_of (db_path_from_dir tmp) false)
            (create_payout_groups H 0 (from_csv rows))
            s)
      filling = groups-Filling rows tmp dir now s apart far ready

  -- The temporary directory is new, and there is no database yet.
  abbrev pub Empty : String → String → Disk H → Type 0
  Empty tmp dir s =
      (found (s.files (tmp_path (db_path_from_dir tmp))) ≡ empty_database)
      × (s.files (db_path_from_dir tmp) ≡ none)
      × (s.files (db_path_from_dir dir) ≡ none)
      × (s.files other ≡ there)

  -- A new database in the temporary directory, and another file.
  abbrev MadeBeside : String → FilePath → Option Database → Result OpenedDb × Disk H → Type 0
  MadeBeside tmp q at (err e, s) = s.files q ≡ at
  MadeBeside tmp q at (ok o, s) =
      (now : ℕ) × (found (s.files (db_path_from_dir tmp)) ≡ current (fresh now))
      × (o.handle ≡ handle_of (db_path_from_dir tmp) false)
      × (s.files q ≡ at)

  new_db-MadeBeside :
      (tmp : String) (q : FilePath) (at : Option Database) (s : Disk H)
      → str_eq tmp q.dir ≡ false
      → found (s.files (tmp_path (db_path_from_dir tmp))) ≡ empty_database
      → s.files (db_path_from_dir tmp) ≡ none
      → s.files q ≡ at
      → MadeBeside tmp q at (new_db (db_path_from_dir tmp) s)
  new_db-MadeBeside tmp q at s away left none_yet same = go (new_db p s).0 (new_db p s).1 (
      subst
        (λ d.
          NewAt p q at (tmp_apart tmp) (apart_path (tmp_path p) q away) (apart_path p q away) d
            s.files (new_db p s))
        none_yet
        (new_db-NewAt p q at (tmp_apart tmp) (apart_path (tmp_path p) q away) (apart_path p q away)
          s left same))
    where
      p : FilePath
      p = db_path_from_dir tmp

      go :
          (r : Result OpenedDb) (s' : Disk H)
          → Created p q at
              (tmp_apart tmp)
              (apart_path (tmp_path p) q away)
              (apart_path p q away)
              (r, s')
          → MadeBeside tmp q at (r, s')
      go (err e) s' k = k.1
      go (ok o) s' (now, here, is, _, there) = (now, here, is, there)

  -- In a new directory, which is neither the final one nor that of the other file.
  pub fill_dir-Whole :
      (rows : List (Row H)) (tmp dir : String) (s : Disk H)
      → str_eq tmp dir ≡ false
      → str_eq dir other.dir ≡ false
      → str_eq tmp other.dir ≡ false
      → Empty tmp dir s
      → Whole rows dir (fill_dir H read_all read_file mkdir_temp rows tmp dir s)
  unfolding fill_dir
  fill_dir-Whole rows tmp dir s apart away far (left, none_yet, final, elsewhere) =
      bind_rule (Whole rows dir) (new_db (db_path_from_dir tmp))
        (λ o. use_handle rows tmp dir o.handle) s
        (λ e k. (
          subst (λ r. MadeBeside tmp (db_path_from_dir dir) none (r, s1)) k beside_final,
          subst (λ r. MadeBeside tmp other there (r, s1)) k beside_other,
        ))
        λ o k.
          let (now, here, is, absent) =
            subst (λ r. MadeBeside tmp (db_path_from_dir dir) none (r, s1)) k beside_final in
          let (_, _, _, same) = subst (λ r. MadeBeside tmp other there (r, s1)) k beside_other in
          subst (λ h. Whole rows dir (use_handle rows tmp dir h s1)) (sym is)
            (use_handle-Whole rows tmp dir now s1 apart away far (here, absent, same))
    where
      s1 : Disk H
      s1 = (new_db (db_path_from_dir tmp) s).1

      beside_final : MadeBeside tmp (db_path_from_dir dir) none (new_db (db_path_from_dir tmp) s)
      beside_final = new_db-MadeBeside tmp (db_path_from_dir dir) none s apart left none_yet final

      beside_other : MadeBeside tmp other there (new_db (db_path_from_dir tmp) s)
      beside_other = new_db-MadeBeside tmp other there s far left none_yet elsewhere

  pub removed_Whole :
      (rows : List (Row H)) (tmp dir : String) (r : Result (Unit {0})) (s : Disk H)
      (ignored : Result (Unit {0})) (s' : Disk H)
      → str_eq tmp dir ≡ false
      → str_eq tmp other.dir ≡ false
      → Whole rows dir (r, s)
      → ChangedBy tt (remove_dir tmp) s (ignored, s')
      → Whole rows dir (r, s')
  removed_Whole rows tmp dir (err x) s (err e) s' apart far (a, b) k =
      (ap (λ f. f (db_path_from_dir dir)) k ∙ a, ap (λ f. f other) k ∙ b)
  removed_Whole rows tmp dir (err x) s (ok v) s' apart far (a, b) (_, k) =
      (ap (λ f. f (db_path_from_dir dir)) k ∙ rw apart a, ap (λ f. f other) k ∙ rw far b)
  removed_Whole rows tmp dir (ok u) s (err e) s' apart far (t, a, all, b) k =
      (t, ap (λ f. f (db_path_from_dir dir)) k ∙ a, all, ap (λ f. f other) k ∙ b)
  removed_Whole rows tmp dir (ok u) s (ok v) s' apart far (t, a, all, b) (_, k) =
      (t, ap (λ f. f (db_path_from_dir dir)) k ∙ rw apart a, all, ap (λ f. f other) k ∙ rw far b)
