-- ===== src/Store/Rules.antt =====
-- pkg/pipelinedb/db.go: how to reason about calls on files, and which file a call changes.
use crypto_batch_payment.Base.{
  ℕ, Bool, true, false, Option, none, some, List, [], ◌∷◌, ◌≡◌, refl, sym, ap, ◌∙◌, subst, eq_iff,
  Result, ok, err, Error, failed, Action, pure, arith,
}
use crypto_batch_payment.Base.Rules.{bind_rule}
use crypto_batch_payment.Host.{Host}
use crypto_batch_payment.Store.Opening.{create_if_missing, open_handle, close_handle}
use crypto_batch_payment.Store.{
  Database, FilePath, same_path, Files, put_file, Disk, Handle, found, Sql, run_sql, run_all,
  written, and_then, system, read, exec, exec_all, in_transaction,
}

pub same_path_self : (p : FilePath) → same_path p p ≡ true
same_path_self p =
    ground (arith, eq_iff p.dir p.dir, eq_iff p.name p.name, eq_iff p.suffix p.suffix)

pub put_file_same : (p : FilePath) (d : Option Database) (files : Files) → put_file p d files p ≡ d
put_file_same p d files = rw (same_path_self p) refl

pub put_file_other :
    (p other : FilePath) (d : Option Database) (files : Files)
    → same_path p other ≡ false
    → put_file p d files other ≡ files other
put_file_other p other d files e = rw e refl

read_done :
    {A : Type 0} (r : Result A) (files files' : Files) (a : A)
    → and_then {B = A × Files} r (λ x. (x, files)) ≡ ok (a, files')
    → (r ≡ ok a) × (files' ≡ files)
read_done (err e) files files' a k = cc
read_done (ok x) files files' a k = ground arith

run_all_step :
    (sql : Sql) (more : List Sql) (d d' : Database)
    → run_sql sql d ≡ ok d'
    → run_all (sql ∷ more) d ≡ run_all more d'
run_all_step sql more d d' ran =
    let f : Result Database → Result Database =
      λ r. elim r [ err e ↦ err e | ok x ↦ run_all more x ] in
    ap f ran

module _ {H : Host} {A : Type 0} (Q : Result A × Disk H → Type 0) where
  pub system_rule :
      (run : Files → Result (A × Files)) (s : Disk H)
      → ((e : Error) (s' : Disk H) → s'.files ≡ s.files → Q (err e, s'))
      → ((a : A) (s' : Disk H) → run s.files ≡ ok (a, s'.files) → Q (ok a, s'))
      → Q (system run s)
  system_rule run s failed_ done = go (H.statement_fault s.world).0 (run s.files) refl
    where
      w : H.World
      w = (H.statement_fault s.world).1

      go :
          (fault : Option ℕ) (r : Result (A × Files))
          → run s.files ≡ r
          → Q (elim fault [
            | some code ↦ (err (failed code), record s { world = w })
            | none ↦ elim r [
              | ok (a, files) ↦ (ok a, record { files = files; world = w })
              | err e ↦ (err e, record s { world = w })
            ]
          ])
      go (some code) r e = failed_ (failed code) (record s { world = w }) refl
      go none (err x) e = failed_ x (record s { world = w }) refl
      go none (ok (a, files)) e = done a (record { files = files; world = w }) e

module _ {H : Host} where
  -- One statement, on what it finds in the file.
  abbrev pub ExecTo : Handle → Sql → Database → Disk H → Result (Unit {0}) × Disk H → Type 0
  ExecTo h sql d s (err e, s') = s'.files ≡ s.files
  ExecTo h sql d s (ok u, s') =
      (h.read_only ≡ false)
      × (d' : Database) × (run_sql sql d ≡ ok d')
      × (s'.files ≡ put_file h.path (some d') s.files)

  exec_run :
      (read_only : Bool) (h : Handle) (sql : Sql) (r : Result Database) (s s' : Disk H)
      (u : Unit {0})
      → h.read_only ≡ read_only
      → run_sql sql (found (s.files h.path)) ≡ r
      → written read_only h.path r s.files ≡ ok (u, s'.files)
      → ExecTo h sql (found (s.files h.path)) s (ok u, s')
  exec_run true h sql r s s' u e x k = cc
  exec_run false h sql (err y) s s' u e x k = cc
  exec_run false h sql (ok d) s s' u e x k = (e, d, x, ground (arith, k))

  pub exec-ExecTo :
      (h : Handle) (sql : Sql) (s : Disk H) → ExecTo h sql (found (s.files h.path)) s (exec h sql s)
  unfolding exec
  exec-ExecTo h sql s =
      system_rule (ExecTo h sql (found (s.files h.path)) s)
        (λ files. written h.read_only h.path (run_sql sql (found (files h.path))) files) s
        (λ e s' same. same)
        λ u s' done.
          exec_run h.read_only h sql (run_sql sql (found (s.files h.path))) s s' u refl refl done

  -- A list of statements on a file; other files stay as they are.
  abbrev pub RanAll : Handle → List Sql → FilePath → Disk H → Result (Unit {0}) × Disk H → Type 0
  RanAll h sqls other s (err e, s') = s'.files other ≡ s.files other
  RanAll h sqls other s (ok u, s') =
      (d : Database) × (run_all sqls (found (s.files h.path)) ≡ ok d)
      × (found (s'.files h.path) ≡ d)
      × (s'.files other ≡ s.files other)

  pub exec-other :
      (h : Handle) (sql : Sql) (other : FilePath) (s : Disk H)
      → same_path h.path other ≡ false
      → (exec h sql s).1.files other ≡ s.files other
  exec-other h sql other s differ = go (exec h sql s).0 refl
    where
      go :
          (r : Result (Unit {0}))
          → (exec h sql s).0 ≡ r
          → (exec h sql s).1.files other ≡ s.files other
      go (err e) k =
          ap (λ f. f other)
            (subst (λ r. ExecTo h sql (found (s.files h.path)) s (r, (exec h sql s).1)) k
              (exec-ExecTo h sql s))
      go (ok u) k =
          let (_, d, _, same) =
            subst (λ r. ExecTo h sql (found (s.files h.path)) s (r, (exec h sql s).1)) k
              (exec-ExecTo h sql s) in
          ap (λ f. f other) same ∙ put_file_other h.path other (some d) s.files differ

  pub exec_all-RanAll :
      (h : Handle) (sqls : List Sql) (other : FilePath) (s : Disk H)
      → same_path h.path other ≡ false
      → RanAll h sqls other s (exec_all h sqls s)
  unfolding exec_all
  exec_all-RanAll h [] other s differ = (found (s.files h.path), refl, refl, refl)
  exec_all-RanAll h (sql ∷ more) other s differ =
      bind_rule (RanAll h (sql ∷ more) other s) (exec h sql) (λ _. exec_all h more) s
        (λ e k. exec-other h sql other s differ)
        λ u k.
          let (_, d, ran, same) =
            subst (λ r. ExecTo h sql (found (s.files h.path)) s (r, s1)) k (exec-ExecTo h sql s) in
          let now : found (s1.files h.path) ≡ d =
            ap (λ f. found (f h.path)) same ∙ ap found (put_file_same h.path (some d) s.files) in
          next (exec_all h more s1).0 (exec_all h more s1).1 d ran now
            (exec-other h sql other s differ) (exec_all-RanAll h more other s1 differ)
    where
      s1 : Disk H
      s1 = (exec h sql s).1

      next :
          (r : Result (Unit {0})) (s2 : Disk H) (d : Database)
          → run_sql sql (found (s.files h.path)) ≡ ok d
          → found (s1.files h.path) ≡ d
          → s1.files other ≡ s.files other
          → RanAll h more other s1 (r, s2)
          → RanAll h (sql ∷ more) other s (r, s2)
      next (err e) s2 d ran now same rest = rest ∙ same
      next (ok u) s2 d ran now same (d', ran', now', same') = (
        d',
        run_all_step sql more (found (s.files h.path)) d ran ∙ ap (run_all more) (sym now) ∙ ran',
        now',
        same' ∙ same,
      )

module _ {H : Host} {A : Type 0} where
  -- A transaction that fails leaves the files as they were.
  pub in_transaction_atomic :
      (fn : Action (Disk H) A) (s : Disk H) {e : Error}
      → (in_transaction fn s).0 ≡ err e
      → (in_transaction fn s).1.files ≡ s.files
  unfolding in_transaction
  in_transaction_atomic fn s h = ground arith

  -- One that does not leaves what `fn` has left.
  pub in_transaction_done :
      (fn : Action (Disk H) A) (s : Disk H) {a : A}
      → (in_transaction fn s).0 ≡ ok a
      → let begun = record s { world = (H.statement_fault s.world).1 } in
        ((fn begun).0 ≡ ok a) × ((in_transaction fn s).1.files ≡ (fn begun).1.files)
  unfolding in_transaction
  in_transaction_done fn s h = ground arith

module _ {H : Host} where
  -- A query leaves the files as they are, and reads the file of its handle.
  abbrev pub ReadTo :
      {A : Type 0} → Handle → (Database → Result A) → Disk H → Result A × Disk H → Type 0
  ReadTo h f s (err e, s') = s'.files ≡ s.files
  ReadTo h f s (ok a, s') = (f (found (s.files h.path)) ≡ ok a) × (s'.files ≡ s.files)

  pub read-ReadTo :
      {A : Type 0} (h : Handle) (f : Database → Result A) (s : Disk H) → ReadTo h f s (read h f s)
  read-ReadTo h f s =
      system_rule (ReadTo h f s) (λ files. and_then (f (found (files h.path))) λ a. (a, files)) s
        (λ e s' same. same)
        λ a s' done. read_done (f (found (s.files h.path))) s.files s'.files a done

  -- A call that changes the files by a function, if it does not fail.
  abbrev pub ChangedBy : {A : Type 0} → A → (Files → Files) → Disk H → Result A × Disk H → Type 0
  ChangedBy a g s (err e, s') = s'.files ≡ s.files
  ChangedBy a g s (ok b, s') = (b ≡ a) × (s'.files ≡ g s.files)

  pub system-ChangedBy :
      {A : Type 0} (a : A) (g : Files → Files) (s : Disk H)
      → ChangedBy a g s (system (λ files. ok (a, g files)) s)
  system-ChangedBy a g s =
      system_rule (ChangedBy a g s) (λ files. ok (a, g files)) s (λ e s' same. same)
        λ b s' done. ground arith

  pub open_handle-ChangedBy :
      (path : FilePath) (read_only : Bool) (s : Disk H)
      → ChangedBy
          (record { path = path; read_only = read_only })
          (create_if_missing path)
          s
          (open_handle path read_only s)
  unfolding open_handle
  open_handle-ChangedBy path read_only s =
      bind_rule
        (ChangedBy (record { path = path; read_only = read_only }) (create_if_missing path) s)
        (system (λ files. ok (tt, create_if_missing path files)))
        (λ u. pure (record { path = path; read_only = read_only })) s
        (λ e k. subst (λ r. ChangedBy {A = Unit {0}} tt (create_if_missing path) s (r, s1)) k made)
        λ u k. (
          refl,
          (subst (λ r. ChangedBy {A = Unit {0}} tt (create_if_missing path) s (r, s1)) k made).1,
        )
    where
      s1 : Disk H
      s1 = (system (λ files. ok (tt {0}, create_if_missing path files)) s).1

      made :
          ChangedBy tt
            (create_if_missing path)
            s
            (system (λ files. ok (tt {0}, create_if_missing path files)) s)
      made = system-ChangedBy tt (create_if_missing path) s

  pub close_handle-files : (h : Handle) (s : Disk H) → (close_handle h s).1.files ≡ s.files
  unfolding close_handle
  close_handle-files h s = ground arith
