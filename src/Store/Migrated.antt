-- ===== src/Store/Migrated.antt =====
-- pkg/pipelinedb/db.go: what OpenDB does to a file of version 1, and to no other.
use crypto_batch_payment.Base.{
  Bool, false, Option, some, ◌≡◌, sym, ap, subst, inl, inr, ◌⊎◌, Result, ok, err, ◌>>=◌, ◌>>◌,
  arith,
}
use crypto_batch_payment.Base.Rules.{bind_rule}
use crypto_batch_payment.Host.{Host}
use crypto_batch_payment.Payoutdb.{MetadataRow, Tables}
use crypto_batch_payment.Payoutdb.Reads.{head?}
use crypto_batch_payment.Store.{current, Database, FilePath, same_path, Disk, Handle, found}
use crypto_batch_payment.Store.Opening.{
  migrate_db, open_handle, close_handle, open_db, by_version, upgrade, writable,
  first_metadata_version, metadata_version, OpenedDb, with_metadata, open_version,
}
use crypto_batch_payment.Store.Kept.{
  handle_of, At, At-same, read_At, Opens, open_handle-Opens, writable-Opens, OpensCurrent,
  with_metadata-OpensCurrent,
}
use crypto_batch_payment.Store.Rules.{ReadTo, read-ReadTo, close_handle-files}
use crypto_batch_payment.Store.Migrating.{old_database, upgraded, Migrating, migrate_db-Migrating}

module _ {H : Host} (path other : FilePath) (there : Option Database)
    (differ : same_path path other ≡ false) where
  -- The file is as it was, or migrated.
  abbrev pub OldOrNew : Tables → Disk H → Type 0
  OldOrNew t s =
      ((found (s.files path) ≡ old_database t) ⊎ (found (s.files path) ≡ current (upgraded t)))
      × (s.files other ≡ there)

  abbrev Upgrades : Tables → Bool → Result Handle × Disk H → Type 0
  Upgrades t ro (err e, s) = OldOrNew t s
  Upgrades t ro (ok h, s) =
      (h ≡ handle_of path ro) × At path other there differ (current (upgraded t)) s

  reopened :
      (ro : Bool) (t : Tables) (r : Result Handle) (s : Disk H)
      → Opens path other there differ (current (upgraded t)) ro (r, s)
      → Upgrades t ro (r, s)
  reopened ro t (err e) s (a, b) = (inr a, b)
  reopened ro t (ok h) s k = k

  after_migration :
      (ro : Bool) (t : Tables) (s : Disk H)
      → At path other there differ (current (upgraded t)) s
      → Upgrades t ro ((close_handle (handle_of path false) >> open_handle path ro) s)
  after_migration ro t s a =
      bind_rule (Upgrades t ro) (close_handle (handle_of path false)) (λ u. open_handle path ro) s
        (λ e k. (inr closed.0, closed.1))
        λ u k.
          reopened ro t (open_handle path ro s1).0 (open_handle path ro s1).1
            (open_handle-Opens path other there differ ro (current (upgraded t)) s1 closed)
    where
      s1 : Disk H
      s1 = (close_handle (handle_of path false) s).1

      closed : At path other there differ (current (upgraded t)) s1
      closed =
          At-same path other there differ (current (upgraded t)) s s1
            (close_handle-files (handle_of path false) s) a

  migrated-Upgrades :
      (ro : Bool) (t : Tables) (s : Disk H)
      → At path other there differ (old_database t) s
      → Upgrades t ro (
          (do
            migrate_db (handle_of path false) 1 1
            close_handle (handle_of path false)
            open_handle path ro)
            s)
  migrated-Upgrades ro t s a =
      bind_rule (Upgrades t ro) (migrate_db (handle_of path false) 1 1)
        (λ u. close_handle (handle_of path false) >> open_handle path ro) s
        (λ e k.
          let (x, y) = subst (λ r. Migrating path other there differ t (r, s1)) k did in (inl x, y))
        λ u k.
          after_migration ro t s1 (subst (λ r. Migrating path other there differ t (r, s1)) k did)
    where
      s1 : Disk H
      s1 = (migrate_db (handle_of path false) 1 1 s).1

      did : Migrating path other there differ t (migrate_db (handle_of path false) 1 1 s)
      did = migrate_db-Migrating path other there differ false t s a

  upgrade-Upgrades :
      (ro : Bool) (t : Tables) (s : Disk H)
      → At path other there differ (old_database t) s
      → Upgrades t ro (upgrade (handle_of path ro) 1 s)
  upgrade-Upgrades ro t s a =
      bind_rule (Upgrades t ro) (writable (handle_of path ro))
        (λ w. do migrate_db w 1 1; close_handle w; open_handle path ro) s
        (λ e k.
          let (x, y) =
            subst (λ r. Opens path other there differ (old_database t) false (r, s1)) k opens in
          (inl x, y))
        λ w k.
          let (is, at) =
            subst (λ r. Opens path other there differ (old_database t) false (r, s1)) k opens in
          subst (λ h. Upgrades t ro ((do migrate_db h 1 1; close_handle h; open_handle path ro) s1))
            (sym is) (migrated-Upgrades ro t s1 at)
    where
      s1 : Disk H
      s1 = (writable (handle_of path ro) s).1

      opens : Opens path other there differ (old_database t) false (writable (handle_of path ro) s)
      opens = writable-Opens path other there differ ro (old_database t) s a

  -- What OpenDB returns.
  abbrev pub Opened : Tables → Bool → Result OpenedDb × Disk H → Type 0
  Opened t ro (err e, s) = OldOrNew t s
  Opened t ro (ok o, s) =
      (o.handle ≡ handle_of path ro)
      × (head? (upgraded t).metadata ≡ some o.metadata)
      × (found (s.files path) ≡ current (upgraded t))
      × (s.files other ≡ there)

  opens_upgraded :
      (ro : Bool) (t : Tables) (r : Result OpenedDb) (s : Disk H)
      → OpensCurrent path other there differ (upgraded t) ro (r, s)
      → Opened t ro (r, s)
  opens_upgraded ro t (err e) s (a, b) = (inr a, b)
  opens_upgraded ro t (ok o) s (is, row, a) = (is, row, a.0, a.1)

  open_version-Opened :
      (ro : Bool) (t : Tables) (s : Disk H)
      → At path other there differ (old_database t) s
      → Opened t ro (open_version (handle_of path ro) (some 1) s)
  open_version-Opened ro t s a =
      bind_rule (Opened t ro) (by_version (handle_of path ro) 1) with_metadata s
        (λ e k. subst (λ r. Upgrades t ro (r, s1)) k opens)
        λ h k.
          let (is, at) = subst (λ r. Upgrades t ro (r, s1)) k opens in
          subst (λ x. Opened t ro (with_metadata x s1)) (sym is)
            (opens_upgraded ro t (with_metadata (handle_of path ro) s1).0
              (with_metadata (handle_of path ro) s1).1
              (with_metadata-OpensCurrent path other there differ ro (upgraded t) s1 at))
    where
      s1 : Disk H
      s1 = (upgrade (handle_of path ro) 1 s).1

      opens : Upgrades t ro (upgrade (handle_of path ro) 1 s)
      opens = upgrade-Upgrades ro t s a

  version_1-Opened :
      (ro : Bool) (t : Tables) (m : MetadataRow) (s : Disk H)
      → head? t.metadata ≡ some m
      → m.version ≡ 1
      → At path other there differ (old_database t) s
      → Opened t ro (
          (do
            version ← first_metadata_version (handle_of path ro)
            open_version (handle_of path ro) version)
            s)
  unfolding first_metadata_version
  version_1-Opened ro t m s first one a =
      bind_rule (Opened t ro) (first_metadata_version (handle_of path ro))
        (open_version (handle_of path ro)) s (λ e k. (inl at.0, at.1))
        λ v k.
          let (got, _) =
            subst (λ r. ReadTo (handle_of path ro) metadata_version s (r, s1)) k reads in
          let got' : metadata_version (old_database t) ≡ ok v =
            subst (λ d. metadata_version d ≡ ok v) a.0 got in
          let is : some 1 ≡ v = ground arith in
          subst (λ x. Opened t ro (open_version (handle_of path ro) x s1)) is
            (open_version-Opened ro t s1 at)
    where
      s1 : Disk H
      s1 = (first_metadata_version (handle_of path ro) s).1

      reads :
          ReadTo
            (handle_of path ro)
            metadata_version
            s
            (first_metadata_version (handle_of path ro) s)
      reads = read-ReadTo (handle_of path ro) metadata_version s

      at : At path other there differ (old_database t) s1
      at =
          read_At path other there differ (handle_of path ro) metadata_version (old_database t) s _
            s1 reads a

  -- OpenDB on a file of version 1, for reading only or not: wherever it fails, the file has its old
  -- tables or is migrated; if it does not, the file is migrated, with all its rows and version 2, and
  -- the metadata is its first row. Another file stays as it was.
  pub open_db-Opened :
      (ro : Bool) (t : Tables) (m : MetadataRow) (s : Disk H)
      → head? t.metadata ≡ some m
      → m.version ≡ 1
      → s.files path ≡ some (old_database t)
      → s.files other ≡ there
      → Opened t ro (open_db path ro s)
  unfolding open_db
  open_db-Opened ro t m s first one here elsewhere =
      bind_rule (Opened t ro) (open_handle path ro)
        (λ h. do version ← first_metadata_version h; open_version h version) s
        (λ e k.
          let (x, y) =
            subst (λ r. Opens path other there differ (old_database t) ro (r, s1)) k opens in
          (inl x, y))
        λ h k.
          let (is, at) =
            subst (λ r. Opens path other there differ (old_database t) ro (r, s1)) k opens in
          subst (λ x. Opened t ro ((do v ← first_metadata_version x; open_version x v) s1)) (sym is)
            (version_1-Opened ro t m s1 first one at)
    where
      s1 : Disk H
      s1 = (open_handle path ro s).1

      opens : Opens path other there differ (old_database t) ro (open_handle path ro s)
      opens =
          open_handle-Opens path other there differ ro (old_database t) s (ap found here, elsewhere)
