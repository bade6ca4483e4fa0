-- ===== src/Store.antt =====
-- pkg/pipelinedb/db.go: the files in which databases are, the handle on an open one, and the SQL
-- that creates and migrates the tables. A path is its directory, its last element and what the
-- program appends to it; `Abs` changes nothing that is compared.
pub mod Opening
pub mod Rules
pub mod Kept
pub mod Migrating
pub mod Migrated
pub mod Initialised
pub mod Created
pub mod Leftover
use crypto_batch_payment.Base.{
  ℕ, String, Bool, true, false, not, ◌&&◌, Option, none, some, List, [], ◌∷◌, ◌++◌, map, str_eq,
  is_some, if◌then◌else◌, Result, ok, err, failed, no_table, table_exists, no_column, query_only,
  file_missing, Action, ◌>>=◌, ◌>>◌, pure,
}
use crypto_batch_payment.Host.{Host}
use crypto_batch_payment.Payoutdb.{
  MetadataRow, PayoutGroupRow, PayoutRow, TransactionRow, Tables, Conn, next_pk,
}

-- The column with the owner's address, which was called `payer` in version 1.
pub data OwnerColumn : Type 0 where
  payer_column owner_column : OwnerColumn

pub record Table (R : Type 0) : Type 0 where
  pub column : OwnerColumn
  pub rows : List R

-- The tables of a file, `none` where there is no such table. The index of the schema only makes
-- queries faster.
pub record Database : Type 0 where
  pub metadata : Option (Table MetadataRow)
  pub metadata_new : Option (Table MetadataRow)
  pub payout_group : Option (List PayoutGroupRow)
  pub payout : Option (List PayoutRow)
  pub tx : Option (Table TransactionRow)
  pub tx_new : Option (Table TransactionRow)

abbrev pub empty_database : Database
empty_database = record {
  metadata = none;
  metadata_new = none;
  payout_group = none;
  payout = none;
  tx = none;
  tx_new = none;
}

pub record FilePath : Type 0 where
  pub dir : String
  pub name : String
  pub suffix : String

abbrev pub same_path : FilePath → FilePath → Bool
same_path p q = str_eq p.dir q.dir && (str_eq p.name q.name && str_eq p.suffix q.suffix)

abbrev pub Files : Type 0
Files = FilePath → Option Database

abbrev pub put_file : FilePath → Option Database → Files → Files
put_file p d files q = if same_path p q then d else files q

pub record Disk (H : Host) : Type 0 where
  pub files : Files
  pub world : H.World

-- An open database, `_query_only` if it is read-only.
pub record Handle : Type 0 where
  pub path : FilePath
  pub read_only : Bool

-- What a statement finds in a file.
abbrev pub found : Option Database → Database
found none = empty_database
found (some d) = d

-- The statements, each on the tables of a file. One creates a table only if there is none of the
-- name, and reads or drops it only if there is.
pub data Sql : Type 0 where
  create_metadata create_payout_group_table create_payout_table create_tx : Sql
  insert_metadata : (now version attempts : ℕ) → Sql
  create_metadata_new copy_metadata drop_metadata rename_metadata : Sql
  create_tx_new copy_tx drop_tx rename_tx : Sql
  set_version : ℕ → Sql

abbrev pub new_table : {R : Type 0} → Table R
new_table = record { column = owner_column; rows = [] }

abbrev pub new_metadata : ℕ → ℕ → ℕ → List MetadataRow → MetadataRow
new_metadata now version attempts rows = record {
  pk = next_pk (map (λ m. m.pk) rows);
  created_at = now;
  updated_at = now;
  version = version;
  attempts = attempts;
  spender = none;
  owner = none;
}

-- `CREATE TABLE`, given the table of that name.
abbrev pub create_over : {T : Type 0} → Option T → Database → Result Database
create_over none made = ok made
create_over (some old) made = err table_exists

-- `DROP TABLE`
abbrev pub drop_over : {T : Type 0} → Option T → Database → Result Database
drop_over none made = err no_table
drop_over (some old) made = ok made

-- `INSERT INTO` the new table, in which the column is `owner`, `SELECT` the rows of the old, in which
-- it is `payer`. The keys of the old rows are unique, and the new table is empty.
abbrev pub copied : {R : Type 0} → Option (Table R) → Option (Table R) → Result (Table R)
copied none old = err no_table
copied (some new) none = err no_table
copied (some new) (some old) = elim old.column [
  | owner_column ↦ err no_column
  | payer_column ↦ ok (record new { rows = new.rows ++ old.rows })
]

-- `ALTER TABLE new RENAME TO old`
abbrev pub renamed : {R : Type 0} → Option (Table R) → Option (Table R) → Result (Table R)
renamed none old = err no_table
renamed (some new) none = ok new
renamed (some new) (some old) = err table_exists

abbrev pub and_then : {A B : Type 0} → Result A → (A → B) → Result B
and_then (err e) f = err e
and_then (ok a) f = ok (f a)

abbrev pub inserted : ℕ → ℕ → ℕ → Option (Table MetadataRow) → Result (Table MetadataRow)
inserted now version attempts none = err no_table
inserted now version attempts (some table) = elim table.column [
  | payer_column ↦ err no_column
  | owner_column ↦
      ok (record table { rows = table.rows ++ new_metadata now version attempts table.rows ∷ [] })
]

abbrev pub with_version : ℕ → MetadataRow → MetadataRow
with_version v m = record m { version = v }

abbrev pub versioned : ℕ → Option (Table MetadataRow) → Result (Table MetadataRow)
versioned v none = err no_table
versioned v (some table) = ok (record table { rows = map (with_version v) table.rows })

unfoldable pub run_sql : Sql → Database → Result Database
run_sql create_metadata d = create_over d.metadata (record d { metadata = some new_table })
run_sql create_payout_group_table d =
    create_over d.payout_group (record d { payout_group = some [] })
run_sql create_payout_table d = create_over d.payout (record d { payout = some [] })
run_sql create_tx d = create_over d.tx (record d { tx = some new_table })
run_sql (insert_metadata now version attempts) d =
    and_then (inserted now version attempts d.metadata) λ m. record d { metadata = some m }
run_sql create_metadata_new d =
    create_over d.metadata_new (record d { metadata_new = some new_table })
run_sql copy_metadata d =
    and_then (copied d.metadata_new d.metadata) λ m. record d { metadata_new = some m }
run_sql drop_metadata d = drop_over d.metadata (record d { metadata = none })
run_sql rename_metadata d =
    and_then (renamed d.metadata_new d.metadata)
      λ m. record d { metadata = some m; metadata_new = none }
run_sql create_tx_new d = create_over d.tx_new (record d { tx_new = some new_table })
run_sql copy_tx d = and_then (copied d.tx_new d.tx) λ x. record d { tx_new = some x }
run_sql drop_tx d = drop_over d.tx (record d { tx = none })
run_sql rename_tx d = and_then (renamed d.tx_new d.tx) λ x. record d { tx = some x; tx_new = none }
run_sql (set_version v) d = and_then (versioned v d.metadata) λ m. record d { metadata = some m }

-- A file of the present version.
abbrev pub current : Tables → Database
current t = record {
  metadata = some (record { column = owner_column; rows = t.metadata });
  metadata_new = none;
  payout_group = some t.payout_group;
  payout = some t.payout;
  tx = some (record { column = owner_column; rows = t.tx });
  tx_new = none;
}

-- The tables of such a file.
abbrev pub tables_from :
    Option (Table MetadataRow)
    → Option (List PayoutGroupRow)
    → Option (List PayoutRow)
    → Option (Table TransactionRow)
    → Option Tables
tables_from (some m) (some gs) (some ps) (some x) = elim m.column [
  | payer_column ↦ none
  | owner_column ↦ elim x.column [
    | payer_column ↦ none
    | owner_column ↦
        some (record { metadata = m.rows; payout_group = gs; payout = ps; tx = x.rows })
  ]
]
tables_from _ _ _ _ = none

abbrev pub tables_of : Database → Option Tables
tables_of d = tables_from d.metadata d.payout_group d.payout d.tx

abbrev pub run_all : List Sql → Database → Result Database
run_all [] d = ok d
run_all (sql ∷ more) d = elim (run_sql sql d) [ err e ↦ err e | ok d' ↦ run_all more d' ]

-- What a statement writes to a file.
abbrev pub written : Bool → FilePath → Result Database → Files → Result (Unit {0} × Files)
written true path r files = err query_only
written false path (err e) files = err e
written false path (ok d) files = ok (tt, put_file path (some d) files)

module _ {H : Host} where
  -- A call on the files, which the system may refuse.
  abbrev pub system : {A : Type 0} → (Files → Result (A × Files)) → Action (Disk H) A
  system run s =
      let (fault, w) = H.statement_fault s.world in
      elim fault [
        | some code ↦ (err (failed code), record s { world = w })
        | none ↦ elim (run s.files) [
          | ok (a, files) ↦ (ok a, record { files = files; world = w })
          | err e ↦ (err e, record s { world = w })
        ]
      ]

  -- A query on an open database.
  abbrev pub read : {A : Type 0} → Handle → (Database → Result A) → Action (Disk H) A
  read h f = system λ files. and_then (f (found (files h.path))) λ a. (a, files)

  -- A statement that writes.
  unfoldable pub exec : Handle → Sql → Action (Disk H) (Unit {0})
  exec h sql = system λ files. written h.read_only h.path (run_sql sql (found (files h.path))) files

  unfoldable pub exec_all : Handle → List Sql → Action (Disk H) (Unit {0})
  exec_all h [] = pure tt
  exec_all h (sql ∷ more) = do exec h sql; exec_all h more

  -- A transaction: what is not committed is rolled back.
  unfoldable pub in_transaction : {A : Type 0} → Action (Disk H) A → Action (Disk H) A
  in_transaction fn s =
      let (begun, s1) = system (λ files. ok (tt, files)) s in
      elim begun [
        | err e ↦ (err e, s1)
        | ok _ ↦
            let (r, s2) = fn s1 in
            elim r [
              | err e ↦ (err e, record s2 { files = s.files })
              | ok a ↦
                  let (done, s3) = system (λ files. ok (tt, files)) s2 in
                  elim done [ err e ↦ (err e, record s3 { files = s.files }) | ok _ ↦ (ok a, s3) ]
            ]
      ]

  -- A method of the database, over a handle that is open for writing.
  abbrev pub on_found :
      {A : Type 0} → Handle → Action (Conn H) A → Option Tables → Action (Disk H) A
  on_found h m none s = (err no_table, s)
  on_found h m (some t) s =
      let (r, c) = m (record { tables = t; world = s.world }) in
      (r, record { files = put_file h.path (some (current c.tables)) s.files; world = c.world })

  abbrev pub on_tables : {A : Type 0} → Handle → Action (Conn H) A → Action (Disk H) A
  on_tables h m s = on_found h m (tables_of (found (s.files h.path))) s

  -- A call of what is outside of the database files.
  abbrev pub outside : {A : Type 0} → Action H.World A → Action (Disk H) A
  outside m s = let (r, w) = m s.world in (r, record s { world = w })
