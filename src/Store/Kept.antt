-- ===== src/Store/Kept.antt =====
-- pkg/pipelinedb/db.go: OpenDB on a file of the present version; and what its calls leave of a
-- file and of another.
use crypto_batch_payment.Base.{
  Bool, true, false, Option, none, some, ◌≡◌, refl, sym, ap, ◌∙◌, subst, Result, ok, err, ◌>>=◌,
  pure, of_result, or_error, metadata_missing, arith,
}
use crypto_batch_payment.Base.Rules.{bind_rule}
use crypto_batch_payment.Host.{Host}
use crypto_batch_payment.Payoutdb.{MetadataRow, Tables}
use crypto_batch_payment.Payoutdb.Reads.{head?}
use crypto_batch_payment.Store.{current, Database, FilePath, same_path, Disk, Handle, found}
use crypto_batch_payment.Store.Opening.{
  open_handle, close_handle, create_if_missing, open_db, writable, first_metadata_version,
  first_metadata_of, metadata_version, metadata_row, OpenedDb, with_metadata, open_version,
}
use crypto_batch_payment.Store.Rules.{
  put_file_same, put_file_other, ReadTo, read-ReadTo, ChangedBy, open_handle-ChangedBy,
  close_handle-files,
}

abbrev pub handle_of : FilePath → Bool → Handle
handle_of path read_only = record { path = path; read_only = read_only }

module _ {H : Host} (path other : FilePath) (there : Option Database)
    (differ : same_path path other ≡ false) where
  -- The file has these tables, and the other file is as it was.
  abbrev pub At : Database → Disk H → Type 0
  At d s = (found (s.files path) ≡ d) × (s.files other ≡ there)

  pub At-same : (d : Database) (s s' : Disk H) → s'.files ≡ s.files → At d s → At d s'
  At-same d s s' e (a, b) = (ap (λ f. found (f path)) e ∙ a, ap (λ f. f other) e ∙ b)

  pub read_At :
      {A : Type 0} (h : Handle) (f : Database → Result A) (d : Database) (s : Disk H) (r : Result A)
      (s' : Disk H)
      → ReadTo h f s (r, s')
      → At d s
      → At d s'
  read_At h f d s (err e) s' k a = At-same d s s' k a
  read_At h f d s (ok x) s' k a = At-same d s s' k.1 a

  opened_At :
      {A : Type 0} (x : A) (d : Database) (s : Disk H) (r : Result A) (s' : Disk H)
      → ChangedBy x (create_if_missing path) s (r, s')
      → At d s
      → At d s'
  opened_At x d s (err e) s' k a = At-same d s s' k a
  opened_At x d s (ok y) s' (_, k) (a, b) = (
    ap (λ f. found (f path)) k
        ∙ ap found (put_file_same path (some (found (s.files path))) s.files)
        ∙ a,
    ap (λ f. f other) k
        ∙ put_file_other path other (some (found (s.files path))) s.files differ
        ∙ b,
  )

  -- A handle, with the file as it was before.
  abbrev pub Opens : Database → Bool → Result Handle × Disk H → Type 0
  Opens d ro (err e, s) = At d s
  Opens d ro (ok h, s) = (h ≡ handle_of path ro) × At d s

  pub open_handle-Opens :
      (ro : Bool) (d : Database) (s : Disk H) → At d s → Opens d ro (open_handle path ro s)
  open_handle-Opens ro d s a = go (open_handle path ro s).0 _ (open_handle-ChangedBy path ro s)
    where
      go :
          (r : Result Handle) (s' : Disk H)
          → ChangedBy (handle_of path ro) (create_if_missing path) s (r, s')
          → Opens d ro (r, s')
      go (err e) s' k = opened_At (handle_of path ro) d s (err e) s' k a
      go (ok h) s' k = (k.0, opened_At (handle_of path ro) d s (ok h) s' k a)

  pub writable-Opens :
      (ro : Bool) (d : Database) (s : Disk H)
      → At d s
      → Opens d false (writable (handle_of path ro) s)
  writable-Opens false d s a = (refl, a)
  writable-Opens true d s a =
      bind_rule (Opens d false) (close_handle (handle_of path true)) (λ u. open_handle path false) s
        (λ e k. closed) λ u k. open_handle-Opens false d _ closed
    where
      closed : At d (close_handle (handle_of path true) s).1
      closed =
          At-same d s (close_handle (handle_of path true) s).1
            (close_handle-files (handle_of path true) s) a

  -- The handle and the first row of metadata, of a file of the present version.
  abbrev pub OpensCurrent : Tables → Bool → Result OpenedDb × Disk H → Type 0
  OpensCurrent t ro (err e, s) = At (current t) s
  OpensCurrent t ro (ok o, s) =
      (o.handle ≡ handle_of path ro) × (head? t.metadata ≡ some o.metadata) × At (current t) s

  known_row :
      (ro : Bool) (t : Tables) (row : Option MetadataRow) (s : Disk H)
      → head? t.metadata ≡ row
      → At (current t) s
      → OpensCurrent t ro (
          (do
            known ← of_result (or_error row metadata_missing)
            pure (record { handle = handle_of path ro; metadata = known }))
            s)
  known_row ro t none s e a = a
  known_row ro t (some m) s e a = (refl, e, a)

  pub with_metadata-OpensCurrent :
      (ro : Bool) (t : Tables) (s : Disk H)
      → At (current t) s
      → OpensCurrent t ro (with_metadata (handle_of path ro) s)
  unfolding first_metadata_of
  with_metadata-OpensCurrent ro t s a =
      bind_rule (OpensCurrent t ro) (first_metadata_of (handle_of path ro))
        (λ row. do
          known ← of_result (or_error row metadata_missing)
          pure (record { handle = handle_of path ro; metadata = known }))
        s (λ e k. at)
        λ row k.
          let (got, _) = subst (λ r. ReadTo (handle_of path ro) metadata_row s (r, s1)) k reads in
          let got' : ok (head? t.metadata) ≡ ok row =
            subst (λ d. metadata_row d ≡ ok row) a.0 got in
          known_row ro t row s1 (cc) at
    where
      s1 : Disk H
      s1 = (first_metadata_of (handle_of path ro) s).1

      reads : ReadTo (handle_of path ro) metadata_row s (first_metadata_of (handle_of path ro) s)
      reads = read-ReadTo (handle_of path ro) metadata_row s

      at : At (current t) s1
      at = read_At (handle_of path ro) metadata_row (current t) s _ s1 reads a

  version_known :
      (ro : Bool) (t : Tables) (m : MetadataRow) (s : Disk H)
      → head? t.metadata ≡ some m
      → m.version ≡ 2
      → At (current t) s
      → OpensCurrent t ro (
          (do
            version ← first_metadata_version (handle_of path ro)
            open_version (handle_of path ro) version)
            s)
  unfolding first_metadata_version
  version_known ro t m s first two a =
      bind_rule (OpensCurrent t ro) (first_metadata_version (handle_of path ro))
        (open_version (handle_of path ro)) s (λ e k. at)
        λ v k.
          let (got, _) =
            subst (λ r. ReadTo (handle_of path ro) metadata_version s (r, s1)) k reads in
          let got' : metadata_version (current t) ≡ ok v =
            subst (λ d. metadata_version d ≡ ok v) a.0 got in
          let is : some 2 ≡ v = ground arith in
          subst (λ x. OpensCurrent t ro (open_version (handle_of path ro) x s1)) is
            (with_metadata-OpensCurrent ro t s1 at)
    where
      s1 : Disk H
      s1 = (first_metadata_version (handle_of path ro) s).1

      reads :
          ReadTo
            (handle_of path ro)
            metadata_version
            s
            (first_metadata_version (handle_of path ro) s)
      reads = read-ReadTo (handle_of path ro) metadata_version s

      at : At (current t) s1
      at = read_At (handle_of path ro) metadata_version (current t) s _ s1 reads a

  -- OpenDB on a file of version 2 changes no file, and reads the first row of its metadata.
  pub open_current :
      (ro : Bool) (t : Tables) (m : MetadataRow) (s : Disk H)
      → head? t.metadata ≡ some m
      → m.version ≡ 2
      → s.files path ≡ some (current t)
      → s.files other ≡ there
      → OpensCurrent t ro (open_db path ro s)
  unfolding open_db
  open_current ro t m s first two here elsewhere =
      bind_rule (OpensCurrent t ro) (open_handle path ro)
        (λ h. do version ← first_metadata_version h; open_version h version) s
        (λ e k. subst (λ r. Opens (current t) ro (r, s1)) k opens)
        λ h k.
          let (is, at) = subst (λ r. Opens (current t) ro (r, s1)) k opens in
          subst (λ x. OpensCurrent t ro ((do v ← first_metadata_version x; open_version x v) s1))
            (sym is) (version_known ro t m s1 first two at)
    where
      s1 : Disk H
      s1 = (open_handle path ro s).1

      opens : Opens (current t) ro (open_handle path ro s)
      opens = open_handle-Opens ro (current t) s (ap found here, elsewhere)
