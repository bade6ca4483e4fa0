-- ===== src/Payoutdb.antt =====
-- pkg/payoutdb: the tables of payoutdb.dbx.go and the statements over them. A statement may be
-- refused by the disk; a row's `pk` is SQLite's row id, one more than the largest in the table.
-- Ids, lines and pks are only compared, so they are naturals.
pub mod Rows
pub mod Writes
pub mod Reads
pub mod Atomic
pub mod Fresh
pub mod Same
pub mod Inserted
pub mod Keys
use crypto_batch_payment.Base.{
  ℕ, suc, ◌+◌, ◌-◌, ◌%◌, String, Bool, true, false, not, ◌&&◌, Option, none, some, List, [], ◌∷◌,
  ◌++◌, map, ◌==◌, leb, str_eq, if◌then◌else◌, is_some, any, filter, find, length, Result, ok, err,
  Error, failed, unique_violation, foreign_key_violation, Action,
}
use crypto_batch_payment.Host.{Host}

pub record MetadataRow : Type 0 where
  pub pk : ℕ
  pub created_at : ℕ
  pub updated_at : ℕ
  pub version : ℕ
  pub attempts : ℕ
  pub spender : Option String
  pub owner : Option String

pub record PayoutGroupRow : Type 0 where
  pub pk : ℕ
  pub created_at : ℕ
  pub updated_at : ℕ
  pub id : ℕ
  pub final_tx_hash : Option String

pub record PayoutRow : Type 0 where
  pub pk : ℕ
  pub created_at : ℕ
  pub csv_line : ℕ
  pub payee : String
  pub usd : String
  pub payout_group_id : ℕ

pub record TransactionRow : Type 0 where
  pub pk : ℕ
  pub created_at : ℕ
  pub updated_at : ℕ
  pub hash : String
  pub owner : String
  pub spender : String
  pub nonce : ℕ
  pub estimated_gas_price : String
  pub storj_price : String
  pub storj_tokens : String
  pub payout_group_id : ℕ
  pub raw : String
  pub state : String
  pub receipt : Option String

pub record Tables : Type 0 where
  pub metadata : List MetadataRow
  pub payout_group : List PayoutGroupRow
  pub payout : List PayoutRow
  pub tx : List TransactionRow

-- An open database, with the world that its statements run in.
pub record Conn (H : Host) : Type 0 where
  pub tables : Tables
  pub world : H.World

-- The largest row id so far, plus one.
unfoldable pub next_pk : List ℕ → ℕ
next_pk [] = 1
next_pk (pk ∷ pks) = let rest = next_pk pks in if leb rest pk then suc pk else rest

module _ {H : Host} where
  -- One statement: it reads the tables, and replaces them if it succeeds.
  abbrev pub statement : {A : Type 0} → (Tables → Result (A × Tables)) → Action (Conn H) A
  statement run c =
      let (fault, w) = H.statement_fault c.world in
      elim fault [
        | some code ↦ (err (failed code), record c { world = w })
        | none ↦ elim (run c.tables) [
          | ok (a, t) ↦ (ok a, record { tables = t; world = w })
          | err e ↦ (err e, record c { world = w })
        ]
      ]

  abbrev pub query : {A : Type 0} → (Tables → A) → Action (Conn H) A
  query read = statement (λ t. ok (read t, t))

  -- `db.Hooks.Now`, as `openDB` sets it: truncated to the millisecond.
  unfoldable pub hooks_now : Action (Conn H) ℕ
  hooks_now c = let (t, w) = H.now c.world in (ok (t - t % 1000000), record c { world = w })

  -- `WithTx`: a transaction is begun, and committed if `fn` succeeds. What is not committed is
  -- rolled back.
  unfoldable pub with_tx : {A : Type 0} → Action (Conn H) A → Action (Conn H) A
  with_tx fn c =
      let (begun, c1) = query (λ t. tt) c in
      elim begun [
        | err e ↦ (err e, c1)
        | ok _ ↦
            let (r, c2) = fn c1 in
            elim r [
              | err e ↦ (err e, record c2 { tables = c.tables })
              | ok a ↦
                  let (done, c3) = query (λ t. tt) c2 in
                  elim done [ err e ↦ (err e, record c3 { tables = c.tables }) | ok _ ↦ (ok a, c3) ]
            ]
      ]
