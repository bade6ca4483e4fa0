-- ===== src/Csv.antt =====
-- pkg/csv/csv.go: the CSV file of payouts. `encoding/csv` has split the file into records, each of
-- which has a field at least.
pub mod Parsed
use Prim.Native.Char.{code}
use crypto_batch_payment.Base.{
  ℕ, suc, ◌==◌, String, Bool, true, false, not, ◌&&◌, ◌||◌, Option, none, some, List, [], ◌∷◌,
  str_eq, if◌then◌else◌, any, Result, ok, err, on_line, index_out_of_range, wrong_fields,
  bad_header, bad_payee, bad_amount, amount_not_positive,
}
use crypto_batch_payment.Host.{Host}

pub record Row (H : Host) : Type 0 where
  pub line : ℕ
  pub address : ℕ
  pub usd : H.Decimal

abbrev pub string_in_set : String → List String → Bool
string_in_set s = any (λ x. str_eq s x)

abbrev pub usd_headers : List String
usd_headers = "usdAmnt" ∷ "amnt" ∷ []

-- `record[0][0] == '#'`
abbrev pub is_comment : String → Bool
is_comment String.[] = false
is_comment (String.◌∷◌ c s) = code c == b'#'

-- An empty line or a comment.
abbrev pub is_skipped : String → Bool
is_skipped first = str_eq first "" || is_comment first

abbrev pub is_header : String → String → Bool
is_header first second = str_eq first "addr" || string_in_set second usd_headers

module _ (H : Host) where
  -- The amount of a row, whose address has been read.
  abbrev pub parse_amount : ℕ → ℕ → Option H.Decimal → Result (Row H)
  parse_amount line address none = err (on_line line bad_amount)
  parse_amount line address (some usd) =
      if H.decimal_is_positive usd
      then ok (record { line = line; address = address; usd = usd })
      else err (on_line line amount_not_positive)

  abbrev pub parse_row : ℕ → String → String → Result (Row H)
  parse_row line address usd =
      if H.is_hex_address address
      then parse_amount line (H.hex_to_address address) (H.decimal_from_string usd)
      else err (on_line line bad_payee)

  -- What comes before the rest of the rows, if there is a row.
  abbrev pub before : Result (Row H) → Result (List (Row H)) → Result (List (Row H))
  before (err e) rest = err e
  before (ok row) (err e) = err e
  before (ok row) (ok rows) = ok (row ∷ rows)

  -- The loop over the records from a line on.
  unfoldable pub parse_records : ℕ → Bool → List (List String) → Result (List (Row H))
  parse_records line in_header [] = ok []
  parse_records line in_header ([] ∷ records) = err index_out_of_range
  parse_records line in_header ((first ∷ []) ∷ records) =
      let rest = parse_records (suc line) in_header records in
      if is_skipped first then rest else err (on_line line wrong_fields)
  parse_records line true ((first ∷ second ∷ []) ∷ records) =
      let skipped = parse_records (suc line) true records in
      let rest = parse_records (suc line) false records in
      if is_skipped first
      then skipped
      else if not (str_eq first "addr") && not (string_in_set second usd_headers)
      then err (on_line line bad_header)
      else rest
  parse_records line false ((first ∷ second ∷ []) ∷ records) =
      let rest = parse_records (suc line) false records in
      if is_skipped first then rest else before (parse_row line first second) rest
  parse_records line in_header ((first ∷ second ∷ third ∷ fields) ∷ records) =
      let rest = parse_records (suc line) in_header records in
      if is_skipped first then rest else err (on_line line wrong_fields)

  abbrev pub parse_split : Result (List (List String)) → Result (List (Row H))
  parse_split (err e) = err e
  parse_split (ok records) = parse_records 1 true records

  -- `Parse`, over the reader of `encoding/csv`.
  unfoldable pub parse : (String → Result (List (List String))) → String → Result (List (Row H))
  unfolding parse_records
  parse read_all bytes = parse_split (read_all bytes)
