-- ===== src/Csv/Parsed.antt =====
-- pkg/csv/csv.go: which rows Parse reads.
use crypto_batch_payment.Base.{
  ℕ, suc, String, Bool, true, false, not, some, List, [], ◌∷◌, ◌≡◌, ◌↔◌, refl, Bool-cases,
  Option-cases, inl, inr, filter, Result, ok, err, arith, subst, sym,
}
use crypto_batch_payment.Host.{Host}
use crypto_batch_payment.Csv.{
  Row, is_skipped, is_header, before, parse_row, parse_records, parse_split, parse,
}

abbrev pub numbered_from : ℕ → List (List String) → List (ℕ × List String)
numbered_from n [] = []
numbered_from n (r ∷ rs) = (n, r) ∷ numbered_from (suc n) rs

abbrev pub has_content : ℕ × List String → Bool
has_content (n, []) = true
has_content (n, first ∷ fields) = not (is_skipped first)

-- The records that are neither empty nor comments, with their numbers.
abbrev pub contents : ℕ → List (List String) → List (ℕ × List String)
contents n records = filter has_content (numbered_from n records)

abbrev pub IsHeader : ℕ × List String → Type 0
IsHeader (n, first ∷ second ∷ []) = is_header first second ≡ true
IsHeader _ = ⊥

module _ {H : Host} where
  -- A record of a positive amount to an address.
  abbrev pub RowOf : ℕ × List String → Row H → Type 0
  RowOf (n, address ∷ usd ∷ []) row =
      (row.line ≡ n)
      × (H.is_hex_address address ≡ true)
      × (row.address ≡ H.hex_to_address address)
      × (H.decimal_from_string usd ≡ some row.usd)
      × (H.decimal_is_positive row.usd ≡ true)
  RowOf _ row = ⊥

  abbrev pub RowsOf : List (ℕ × List String) → List (Row H) → Type 0
  RowsOf [] [] = Unit
  RowsOf [] (_ ∷ _) = ⊥
  RowsOf (_ ∷ _) [] = ⊥
  RowsOf (r ∷ rs) (row ∷ rows) = RowOf r row × RowsOf rs rows

  -- A header, and a row for each record after it; or nothing at all.
  abbrev pub FileOf : List (ℕ × List String) → List (Row H) → Type 0
  FileOf [] rows = rows ≡ []
  FileOf (r ∷ rs) rows = IsHeader r × RowsOf rs rows

  parse_row-RowOf :
      (n : ℕ) (address usd : String) (row : Row H)
      → parse_row H n address usd ≡ ok row
      → RowOf (n, address ∷ usd ∷ []) row
  parse_row-RowOf n address usd row h = elim (Option-cases (H.decimal_from_string usd)) [
    | inl e ↦ ground (arith, e)
    | inr (d, e) ↦ ground (arith, e)
  ]

  row_parsed :
      (n : ℕ) (address usd : String) (row : Row H)
      → RowOf (n, address ∷ usd ∷ []) row
      → parse_row H n address usd ≡ ok row
  row_parsed n address usd row h = ground arith

  rest_read :
      (r : Result (Row H)) (rest : Result (List (Row H))) (rows : List (Row H))
      → before H r rest ≡ ok rows
      → (row : Row H) × (more : List (Row H)) × (rows ≡ row ∷ more)
        × (r ≡ ok row)
        × (rest ≡ ok more)
  rest_read (err e) rest rows h = cc
  rest_read (ok row) (err e) rows h = cc
  rest_read (ok row) (ok more) rows h = (row, more, ground arith, refl, refl)

  first_row :
      (r : ℕ × List String) (rs : List (ℕ × List String)) (rows : List (Row H))
      → RowsOf (r ∷ rs) rows
      → (row : Row H) × (more : List (Row H)) × (rows ≡ row ∷ more) × RowOf r row × RowsOf rs more
  first_row r rs [] h = absurd h
  first_row r rs (row ∷ rows) h = (row, rows, refl, h.0, h.1)

  records-RowsOf :
      (n : ℕ) (records : List (List String)) (rows : List (Row H))
      → parse_records H n false records ≡ ok rows
      → RowsOf (contents n records) rows
  unfolding parse_records
  records-RowsOf n [] [] h = tt
  records-RowsOf n [] (row ∷ rows) h = cc
  records-RowsOf n ([] ∷ records) rows h = cc
  records-RowsOf n ((first ∷ []) ∷ records) rows h = elim (Bool-cases (is_skipped first)) [
    | inl e ↦ rw e (records-RowsOf (suc n) records rows (ground (arith, e)))
    | inr e ↦ absurd (ground (arith, e))
  ]
  records-RowsOf n ((first ∷ second ∷ []) ∷ records) rows h = elim (Bool-cases (is_skipped first)) [
    | inl e ↦ rw e (records-RowsOf (suc n) records rows (ground (arith, e)))
    | inr e ↦
        let (row, more, same, read, tail) =
          rest_read (parse_row H n first second) (parse_records H (suc n) false records) rows
            (rw e at h) in
        rw (e, same)
          (parse_row-RowOf n first second row read, records-RowsOf (suc n) records more tail)
  ]
  records-RowsOf n ((first ∷ second ∷ third ∷ fields) ∷ records) rows h =
      elim (Bool-cases (is_skipped first)) [
        | inl e ↦ rw e (records-RowsOf (suc n) records rows (ground (arith, e)))
        | inr e ↦ absurd (ground (arith, e))
      ]

  records_parsed :
      (n : ℕ) (records : List (List String)) (rows : List (Row H))
      → RowsOf (contents n records) rows
      → parse_records H n false records ≡ ok rows
  unfolding parse_records
  records_parsed n [] [] h = refl
  records_parsed n [] (row ∷ rows) h = absurd h
  records_parsed n ([] ∷ records) [] h = absurd h
  records_parsed n ([] ∷ records) (row ∷ rows) h = absurd h.0
  records_parsed n ((first ∷ []) ∷ records) rows h = elim (Bool-cases (is_skipped first)) [
    | inl e ↦ rw e (records_parsed (suc n) records rows (rw e at h))
    | inr e ↦ absurd ((first_row (n, first ∷ []) _ rows (rw e at h)).3)
  ]
  records_parsed n ((first ∷ second ∷ []) ∷ records) rows h = elim (Bool-cases (is_skipped first)) [
    | inl e ↦ rw e (records_parsed (suc n) records rows (rw e at h))
    | inr e ↦
        let (row, more, same, here, tail) =
          first_row (n, first ∷ second ∷ []) (contents (suc n) records) rows (rw e at h) in
        rw (e, same, row_parsed n first second row here, records_parsed (suc n) records more tail)
          refl
  ]
  records_parsed n ((first ∷ second ∷ third ∷ fields) ∷ records) rows h =
      elim (Bool-cases (is_skipped first)) [
        | inl e ↦ rw e (records_parsed (suc n) records rows (rw e at h))
        | inr e ↦ absurd ((first_row (n, first ∷ second ∷ third ∷ fields) _ rows (rw e at h)).3)
      ]

  records-FileOf :
      (n : ℕ) (records : List (List String)) (rows : List (Row H))
      → parse_records H n true records ≡ ok rows
      → FileOf (contents n records) rows
  unfolding parse_records
  records-FileOf n [] rows h = ground arith
  records-FileOf n ([] ∷ records) rows h = cc
  records-FileOf n ((first ∷ []) ∷ records) rows h = elim (Bool-cases (is_skipped first)) [
    | inl e ↦ rw e (records-FileOf (suc n) records rows (ground (arith, e)))
    | inr e ↦ absurd (ground (arith, e))
  ]
  records-FileOf n ((first ∷ second ∷ []) ∷ records) rows h = elim (Bool-cases (is_skipped first)) [
    | inl e ↦ rw e (records-FileOf (suc n) records rows (ground (arith, e)))
    | inr e ↦ rw e (ground (arith, e), records-RowsOf (suc n) records rows (ground (arith, e)))
  ]
  records-FileOf n ((first ∷ second ∷ third ∷ fields) ∷ records) rows h =
      elim (Bool-cases (is_skipped first)) [
        | inl e ↦ rw e (records-FileOf (suc n) records rows (ground (arith, e)))
        | inr e ↦ absurd (ground (arith, e))
      ]

  file_parsed :
      (n : ℕ) (records : List (List String)) (rows : List (Row H))
      → FileOf (contents n records) rows
      → parse_records H n true records ≡ ok rows
  unfolding parse_records
  file_parsed n [] rows h = ground arith
  file_parsed n ([] ∷ records) rows h = absurd h.0
  file_parsed n ((first ∷ []) ∷ records) rows h = elim (Bool-cases (is_skipped first)) [
    | inl e ↦ rw e (file_parsed (suc n) records rows (rw e at h))
    | inr e ↦ absurd ((rw e at h).0)
  ]
  file_parsed n ((first ∷ second ∷ []) ∷ records) rows h = elim (Bool-cases (is_skipped first)) [
    | inl e ↦ rw e (file_parsed (suc n) records rows (rw e at h))
    | inr e ↦ let k = rw e at h in ground (arith, e, k.0, records_parsed (suc n) records rows k.1)
  ]
  file_parsed n ((first ∷ second ∷ third ∷ fields) ∷ records) rows h =
      elim (Bool-cases (is_skipped first)) [
        | inl e ↦ rw e (file_parsed (suc n) records rows (rw e at h))
        | inr e ↦ absurd ((rw e at h).0)
      ]

  -- Parse reads rows from the records just if these, without the empty ones and the comments, are a
  -- header and one record for each row, in order, of an address and a positive amount; or if there
  -- are none, and no rows. A row has the number of its record as its line.
  pub parse-FileOf :
      (read_all : String → Result (List (List String))) (bytes : String)
      (records : List (List String)) (rows : List (Row H))
      → read_all bytes ≡ ok records
      → (parse H read_all bytes ≡ ok rows) ↔ FileOf (contents 1 records) rows
  unfolding parse
  parse-FileOf read_all bytes records rows h =
      subst (λ r. (parse_split H r ≡ ok rows) ↔ FileOf (contents 1 records) rows) (sym h)
        (records-FileOf 1 records rows, file_parsed 1 records rows)
