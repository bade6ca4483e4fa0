-- ===== src/Examples/Disks.antt =====
-- Database files, CSV files and their imports, and the theorems about them at these.
use crypto_batch_payment.Base.{
  ℕ, suc, String, true, false, none, some, List, [], ◌∷◌, ◌≡◌, ◌↔◌, refl, subst, is_err, Result, ok,
  Action, if◌then◌else◌,
}
use crypto_batch_payment.Csv.{Row, parse}
use crypto_batch_payment.Csv.Parsed.{FileOf, contents, parse-FileOf}
use crypto_batch_payment.Prepayoutcsv.{PrepayoutRow, parse_prepayout_csv}
use crypto_batch_payment.Prepayoutcsv.Parsed.{WithHeader, parse_prepayout_csv-WithHeader}
use crypto_batch_payment.Payoutdb.{MetadataRow, Tables}
use crypto_batch_payment.Store.{empty_database, new_table, FilePath, same_path, Disk}
use crypto_batch_payment.Store.Opening.{open_db, new_db}
use crypto_batch_payment.Store.Migrating.{old_database}
use crypto_batch_payment.Store.Migrated.{Opened, open_db-Opened}
use crypto_batch_payment.Store.Created.{NewAt, new_db-NewAt}
use crypto_batch_payment.Store.Leftover.{new_db-is_err}
use crypto_batch_payment.Payouts.Directory.{import_payouts}
use crypto_batch_payment.Payouts.Directory.Imports.{WholeFile, IsNew, import_payouts-WholeFile}
use crypto_batch_payment.Examples.{host, tables}

abbrev records : List (List String)
records = ("addr" ∷ "usdAmnt" ∷ []) ∷ ("#" ∷ []) ∷ ("1" ∷ "2" ∷ []) ∷ []

abbrev read_all : String → Result (List (List String))
read_all bytes = ok records

abbrev row : Row host
row = record { line = 3; address = 1; usd = 2 }

parse-FileOf_example :
    (parse host read_all "" ≡ ok (row ∷ [])) ↔ FileOf (contents 1 records) (row ∷ [])
parse-FileOf_example = parse-FileOf read_all "" records (row ∷ []) refl

abbrev prepayouts : List (List String)
prepayouts =
    ("address" ∷ "amount" ∷ "address-kind" ∷ "mandatory" ∷ "sanctioned" ∷ "bonus" ∷ [])
    ∷ ("1" ∷ "2" ∷ "eth" ∷ "true" ∷ "false" ∷ "f" ∷ [])
    ∷ []

abbrev read_prepayouts : String → Result (List (List String))
read_prepayouts bytes = ok prepayouts

abbrev prepayout : PrepayoutRow host
prepayout = record {
  line = 2;
  address = 1;
  amount = 2;
  kind = "eth";
  mandatory = true;
  sanctioned = false;
  bonus = false;
}

parse_prepayout_csv-WithHeader_example :
    (parse_prepayout_csv host read_prepayouts "" ≡ ok (prepayout ∷ []))
    ↔ WithHeader host prepayouts (prepayout ∷ [])
parse_prepayout_csv-WithHeader_example =
    parse_prepayout_csv-WithHeader host read_prepayouts "" prepayouts (prepayout ∷ []) refl

abbrev old_path : FilePath
old_path = record { dir = "may"; name = "payouts.db"; suffix = "" }

abbrev new_path : FilePath
new_path = record { dir = "june"; name = "payouts.db"; suffix = "" }

abbrev first_row : MetadataRow
first_row = record {
  pk = 1;
  created_at = 0;
  updated_at = 0;
  version = 1;
  attempts = 1;
  spender = some "1";
  owner = none;
}

abbrev old_tables : Tables
old_tables = record tables { metadata = first_row ∷ [] }

-- One file of version 1.
abbrev disk : Disk host
disk = record {
  files = λ p. if same_path old_path p then some (old_database old_tables) else none;
  world = 3;
}

open_db-Opened_example :
    Opened old_path new_path none refl old_tables true (open_db old_path true disk)
open_db-Opened_example =
    open_db-Opened old_path new_path none refl true old_tables first_row disk refl refl refl refl

new_db-NewAt_example :
    NewAt new_path old_path
      (some (old_database old_tables))
      refl
      refl
      refl
      (disk.files new_path)
      disk.files
      (new_db new_path disk)
new_db-NewAt_example =
    new_db-NewAt new_path old_path (some (old_database old_tables)) refl refl refl disk refl refl

-- A temporary file that has been left behind.
abbrev crashed : Disk host
crashed = record {
  files = λ p. some (record empty_database { metadata = some new_table });
  world = 3;
}

new_db-is_err_example : is_err (new_db new_path crashed).0 ≡ true
new_db-is_err_example = new_db-is_err new_path new_table crashed refl

abbrev read_file : String → Action ℕ String
read_file path w = (ok "", suc w)

abbrev mkdir_temp : String → Action ℕ String
mkdir_temp parent w = (ok "tmp", suc w)

tmp-IsNew :
    (w : ℕ) (tmp : String) → (mkdir_temp "" w).0 ≡ ok tmp → IsNew old_path tmp "june" disk.files
tmp-IsNew w tmp k =
    let e : "tmp" ≡ tmp = cc in
    subst (λ t. IsNew old_path t "june" disk.files) e (refl, refl, refl, refl)

import_payouts-WholeFile_example :
    WholeFile read_all read_file mkdir_temp old_path
      (some (old_database old_tables))
      "june.csv"
      "june"
      3
      (import_payouts host read_all read_file mkdir_temp "june.csv" "" "june" disk)
import_payouts-WholeFile_example =
    import_payouts-WholeFile read_all read_file mkdir_temp old_path (some (old_database old_tables))
      "june.csv" "" "june" disk tmp-IsNew refl refl refl
