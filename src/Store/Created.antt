-- ===== src/Store/Created.antt =====
-- pkg/pipelinedb/db.go: what NewDB makes, and where.
use crypto_batch_payment.Base.{
  ℕ, Bool, true, false, Option, none, some, [], ◌≡◌, refl, ap, ◌∙◌, subst, ◌⊎◌, inl, inr, is_some,
  is_err, Result, ok, err, Error, ◌>>◌, raise_if, arith, database_exists,
}
use crypto_batch_payment.Base.Rules.{bind_rule}
use crypto_batch_payment.Host.{Host}
use crypto_batch_payment.Store.{
  current, Database, empty_database, FilePath, same_path, Files, Disk, found, new_metadata,
}
use crypto_batch_payment.Store.Opening.{tmp_path, stat, init_db, new_db, open_db, OpenedDb}
use crypto_batch_payment.Store.Rules.{system_rule}
use crypto_batch_payment.Store.Kept.{handle_of, OpensCurrent, open_current}
use crypto_batch_payment.Store.Initialised.{
  fresh, Built, Built-same, Initialised, init_db-Initialised,
}

module _ {H : Host} (path other : FilePath) (there : Option Database)
    (final : same_path (tmp_path path) path ≡ false)
    (apart : same_path (tmp_path path) other ≡ false) (differ : same_path path other ≡ false) where
  -- A new database, or none; where opening it fails there is a new one too.
  abbrev pub Created : Result OpenedDb × Disk H → Type 0
  Created (err e, s) =
      ((s.files path ≡ none) ⊎ ((now : ℕ) × (found (s.files path) ≡ current (fresh now))))
      × (s.files other ≡ there)
  Created (ok o, s) =
      (now : ℕ) × (found (s.files path) ≡ current (fresh now))
      × (o.handle ≡ handle_of path false)
      × (o.metadata ≡ new_metadata now 2 0 [])
      × (s.files other ≡ there)

  opened_Created :
      (now : ℕ) (r : Result OpenedDb) (s : Disk H)
      → OpensCurrent path other there differ (fresh now) false (r, s)
      → Created (r, s)
  opened_Created now (err e) s (a, b) = (inr (now, a), b)
  opened_Created now (ok o) s (is, row, a) = (now, a.0, is, ground (arith, row), a.1)

  -- What NewDB does, given what is at the path.
  abbrev pub NewAt : Option Database → Files → Result OpenedDb × Disk H → Type 0
  NewAt none files (r, s) = Created (r, s)
  NewAt (some d) files (r, s) = (is_err r ≡ true) × (s.files ≡ files)

  init-Created :
      (s : Disk H)
      → Built path other there final apart differ empty_database s
      → Created ((init_db path >> open_db path false) s)
  init-Created s b =
      bind_rule Created (init_db path) (λ u. open_db path false) s
        (λ e k.
          let (x, y) =
            subst (λ r. Initialised path other there final apart differ (r, s1)) k done in
          (inl x, y))
        λ u k.
          let (now, here, elsewhere) =
            subst (λ r. Initialised path other there final apart differ (r, s1)) k done in
          opened_Created now (open_db path false s1).0 (open_db path false s1).1 (
            open_current path other there differ false (fresh now) (new_metadata now 2 0 []) s1 refl
              refl here elsewhere)
    where
      s1 : Disk H
      s1 = (init_db path s).1

      done : Initialised path other there final apart differ (init_db path s)
      done = init_db-Initialised path other there final apart differ s b

  abbrev StatTo : Disk H → Result Bool × Disk H → Type 0
  StatTo s (err e, s') = s'.files ≡ s.files
  StatTo s (ok b, s') = (b ≡ is_some (s.files path)) × (s'.files ≡ s.files)

  stat-StatTo : (s : Disk H) → StatTo s (stat path s)
  unfolding stat
  stat-StatTo s =
      system_rule (StatTo s) (λ files. ok (is_some (files path), files)) s (λ e s' k. k)
        λ b s' k. (ground (arith, k), ground (arith, k))

  new_db_rest :
      (at : Option Database) (b : Bool) (s s1 : Disk H)
      → s.files path ≡ at
      → b ≡ is_some at
      → s1.files ≡ s.files
      → Built path other there final apart differ empty_database s ⊎ (is_some at ≡ true)
      → NewAt at s.files ((do raise_if b database_exists; init_db path; open_db path false) s1)
  new_db_rest none true s s1 e k same built = cc
  new_db_rest none false s s1 e k same (inl built) =
      init-Created s1
        (Built-same path other there final apart differ empty_database s s1 same built)
  new_db_rest none false s s1 e k same (inr no_db) = cc
  new_db_rest (some d) true s s1 e k same built = (refl, same)
  new_db_rest (some d) false s s1 e k same built = cc

  stat_failed :
      (at : Option Database) (e : Error) (s s1 : Disk H)
      → s.files path ≡ at
      → s.files other ≡ there
      → s1.files ≡ s.files
      → NewAt at s.files (err e, s1)
  stat_failed none e s s1 here elsewhere same =
      (inl (ap (λ f. f path) same ∙ here), ap (λ f. f other) same ∙ elsewhere)
  stat_failed (some d) e s s1 here elsewhere same = (refl, same)

  tmp-Built :
      (at : Option Database) (s : Disk H)
      → s.files path ≡ at
      → found (s.files (tmp_path path)) ≡ empty_database
      → s.files other ≡ there
      → Built path other there final apart differ empty_database s ⊎ (is_some at ≡ true)
  tmp-Built none s here tmp elsewhere = inl (tmp, here, elsewhere)
  tmp-Built (some d) s here tmp elsewhere = inr refl

  -- NewDB, where no tables are left in its temporary file: if there is a file at the path, it is an
  -- error, and nothing changes. If there is none, and no error, there is a database of version 2
  -- with one row of metadata and no other rows, and it is open. If there is an error, there is such a
  -- database or no file. Any file but these two stays as it was.
  pub new_db-NewAt :
      (s : Disk H)
      → found (s.files (tmp_path path)) ≡ empty_database
      → s.files other ≡ there
      → NewAt (s.files path) s.files (new_db path s)
  unfolding new_db
  new_db-NewAt s tmp elsewhere =
      bind_rule (NewAt (s.files path) s.files) (stat path)
        (λ b. do raise_if b database_exists; init_db path; open_db path false) s
        (λ e k.
          stat_failed (s.files path) e s s1 refl elsewhere (subst (λ r. StatTo s (r, s1)) k stats))
        λ b k.
          let (is, same) = subst (λ r. StatTo s (r, s1)) k stats in
          new_db_rest (s.files path) b s s1 refl is same
            (tmp-Built (s.files path) s refl tmp elsewhere)
    where
      s1 : Disk H
      s1 = (stat path s).1

      stats : StatTo s (stat path s)
      stats = stat-StatTo s
