-- ===== src/Prepayoutcsv.antt =====
-- pkg/prepayoutcsv/load.go: the CSV file of what is owed before the payouts are chosen.
-- `encoding/csv` has split the file into records.
pub mod Parsed
use Prim.Native.String.{◌++◌ as ◌<>◌}
use crypto_batch_payment.Base.{
  ℕ, suc, String, Bool, true, false, Option, none, some, List, [], ◌∷◌, str_eq, if◌then◌else◌, any,
  Result, ok, err, Error, or_error, on_line, bad_header, wrong_fields, bad_payee, bad_amount,
  empty_kind, bad_mandatory, bad_sanctioned, bad_bonus,
}
use crypto_batch_payment.Base.Bind.{◌>>=◌}
use crypto_batch_payment.Host.{Host}

pub record PrepayoutRow (H : Host) : Type 0 where
  pub line : ℕ
  pub address : ℕ
  pub amount : H.Decimal
  pub kind : String
  pub mandatory : Bool
  pub sanctioned : Bool
  pub bonus : Bool

abbrev pub expect_header : String
expect_header = "address,amount,address-kind,mandatory,sanctioned,bonus"

-- `strings.Join(record, ",")`
abbrev pub join : List String → String
join [] = ""
join (field ∷ []) = field
join (field ∷ second ∷ fields) = field <> ("," <> join (second ∷ fields))

-- `strconv.ParseBool`
abbrev pub true_texts : List String
true_texts = "1" ∷ "t" ∷ "T" ∷ "true" ∷ "TRUE" ∷ "True" ∷ []

abbrev pub false_texts : List String
false_texts = "0" ∷ "f" ∷ "F" ∷ "false" ∷ "FALSE" ∷ "False" ∷ []

unfoldable pub parse_bool : String → Option Bool
parse_bool s =
    if any (str_eq s) true_texts
    then some true
    else if any (str_eq s) false_texts
    then some false
    else none

abbrev pub non_empty : String → Error → Result String
non_empty s e = if str_eq s "" then err e else ok s

module _ (H : Host) where
  -- An empty address is Go's zero.
  abbrev pub parse_address : ℕ → String → Result ℕ
  parse_address line text =
      if str_eq text ""
      then ok 0
      else if H.is_hex_address text
      then ok (H.hex_to_address text)
      else err (on_line line bad_payee)

  abbrev pub parse_prepayout : ℕ → List String → Result (PrepayoutRow H)
  parse_prepayout line
        (address_value ∷ amount_value ∷ kind_value ∷ mandatory_value ∷ sanctioned_value
          ∷ bonus_value ∷ []) =
      do
        address ← parse_address line address_value
        amount ← or_error (H.decimal_from_string amount_value) (on_line line bad_amount)
        kind ← non_empty kind_value (on_line line empty_kind)
        mandatory ← or_error (parse_bool mandatory_value) (on_line line bad_mandatory)
        sanctioned ← or_error (parse_bool sanctioned_value) (on_line line bad_sanctioned)
        bonus ← or_error (parse_bool bonus_value) (on_line line bad_bonus)
        ok (record {
          line = line;
          address = address;
          amount = amount;
          kind = kind;
          mandatory = mandatory;
          sanctioned = sanctioned;
          bonus = bonus;
        })
  parse_prepayout line _ = err (on_line line wrong_fields)

  unfoldable pub parse_prepayouts : ℕ → List (List String) → Result (List (PrepayoutRow H))
  parse_prepayouts line [] = ok []
  parse_prepayouts line (r ∷ records) = do
    row ← parse_prepayout line r
    rows ← parse_prepayouts (suc line) records
    ok (row ∷ rows)

  -- The first record must be the header.
  abbrev pub parse_with_header : List (List String) → Result (List (PrepayoutRow H))
  parse_with_header [] = ok []
  parse_with_header (header ∷ records) =
      if str_eq (join header) expect_header
      then parse_prepayouts 2 records
      else err (on_line 1 bad_header)

  abbrev pub parse_prepayout_split : Result (List (List String)) → Result (List (PrepayoutRow H))
  parse_prepayout_split (err e) = err e
  parse_prepayout_split (ok records) = parse_with_header records

  -- `Parse`, over the reader of `encoding/csv`.
  unfoldable pub parse_prepayout_csv :
      (String → Result (List (List String))) → String → Result (List (PrepayoutRow H))
  unfolding parse_prepayouts
  parse_prepayout_csv read_all bytes = parse_prepayout_split (read_all bytes)
