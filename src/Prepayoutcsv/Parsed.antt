-- ===== src/Prepayoutcsv/Parsed.antt =====
-- pkg/prepayoutcsv/load.go: which rows Parse reads.
use crypto_batch_payment.Base.{
  ℕ, suc, String, true, false, some, List, [], ◌∷◌, str_eq, ◌≡◌, ◌↔◌, refl, Bool-cases, inl, inr,
  ◌⊎◌, Result, ok, err, Result-cases, arith, subst, sym, ap, ◌∙◌,
}
use crypto_batch_payment.Base.Bind.{◌>>=◌}
use crypto_batch_payment.Host.{Host}
use crypto_batch_payment.Prepayoutcsv.{
  PrepayoutRow, join, expect_header, parse_bool, parse_address, parse_prepayout, parse_prepayouts,
  parse_with_header, parse_prepayout_split, parse_prepayout_csv,
}

module _ (H : Host) where
  -- An empty text, which is read as the zero address, or the text of an address.
  abbrev pub AddressOf : String → ℕ → Type 0
  AddressOf text address =
      ((str_eq text "" ≡ true) × (address ≡ 0))
      ⊎ ((str_eq text "" ≡ false)
          × (H.is_hex_address text ≡ true)
          × (address ≡ H.hex_to_address text))

  -- A record with the fields of a row.
  abbrev pub PrepayoutOf : ℕ → List String → PrepayoutRow H → Type 0
  PrepayoutOf n (address ∷ amount ∷ kind ∷ mandatory ∷ sanctioned ∷ bonus ∷ []) row =
      (row.line ≡ n)
      × AddressOf address row.address
      × (H.decimal_from_string amount ≡ some row.amount)
      × (row.kind ≡ kind)
      × (str_eq kind "" ≡ false)
      × (parse_bool mandatory ≡ some row.mandatory)
      × (parse_bool sanctioned ≡ some row.sanctioned)
      × (parse_bool bonus ≡ some row.bonus)
  PrepayoutOf n _ row = ⊥

  abbrev pub PrepayoutsOf : ℕ → List (List String) → List (PrepayoutRow H) → Type 0
  PrepayoutsOf n [] [] = Unit
  PrepayoutsOf n [] (_ ∷ _) = ⊥
  PrepayoutsOf n (_ ∷ _) [] = ⊥
  PrepayoutsOf n (r ∷ rs) (row ∷ rows) = PrepayoutOf n r row × PrepayoutsOf (suc n) rs rows

  -- The header and a row for each record after it; or nothing at all.
  abbrev pub WithHeader : List (List String) → List (PrepayoutRow H) → Type 0
  WithHeader [] rows = rows ≡ []
  WithHeader (header ∷ rs) rows =
      (str_eq (join header) expect_header ≡ true) × PrepayoutsOf 2 rs rows

  parse_address-AddressOf :
      (n : ℕ) (text : String) (address : ℕ)
      → parse_address H n text ≡ ok address
      → AddressOf text address
  parse_address-AddressOf n text address h = elim (Bool-cases (str_eq text "")) [
    | inl e ↦ inl (e, ground (arith, e))
    | inr e ↦ inr (e, ground (arith, e), ground (arith, e))
  ]

  address_parsed :
      (n : ℕ) (text : String) (address : ℕ)
      → AddressOf text address
      → parse_address H n text ≡ ok address
  address_parsed n text address (inl h) = ground arith
  address_parsed n text address (inr h) = ground arith

  parse_prepayout-PrepayoutOf :
      (n : ℕ) (fields : List String) (row : PrepayoutRow H)
      → parse_prepayout H n fields ≡ ok row
      → PrepayoutOf n fields row
  parse_prepayout-PrepayoutOf n (a ∷ m ∷ k ∷ x ∷ y ∷ z ∷ []) row h =
      elim (Result-cases (parse_address H n a)) [
        | inr (e, bad) ↦ absurd (ground (arith, bad))
        | inl (address, good) ↦
            let same : row.address ≡ address = ground (arith, good) in
            (
              ground (arith, good),
              parse_address-AddressOf n a row.address (good ∙ ap ok (sym same)),
              ground (arith, good),
              ground (arith, good),
              ground (arith, good),
              ground (arith, good),
              ground (arith, good),
              ground (arith, good),
            )
      ]
  parse_prepayout-PrepayoutOf n _ row h = cc

  prepayout_parsed :
      (n : ℕ) (fields : List String) (row : PrepayoutRow H)
      → PrepayoutOf n fields row
      → parse_prepayout H n fields ≡ ok row
  prepayout_parsed n (a ∷ m ∷ k ∷ x ∷ y ∷ z ∷ []) row
        (line, address, amount, kind, filled, p, q, r) =
      rw (address_parsed n a row.address address, amount, filled, p, q, r) (ground arith)
  prepayout_parsed n _ row h = absurd h

  cons_read :
      (n : ℕ) (r : List String) (records : List (List String)) (rows : List (PrepayoutRow H))
      → parse_prepayouts H n (r ∷ records) ≡ ok rows
      → (row : PrepayoutRow H) × (more : List (PrepayoutRow H)) × (rows ≡ row ∷ more)
        × (parse_prepayout H n r ≡ ok row)
        × (parse_prepayouts H (suc n) records ≡ ok more)
  unfolding parse_prepayouts
  cons_read n r records rows h = go (parse_prepayout H n r) (parse_prepayouts H (suc n) records) h
    where
      go :
          (one : Result (PrepayoutRow H)) (rest : Result (List (PrepayoutRow H)))
          → (do row ← one; more ← rest; ok (row ∷ more)) ≡ ok rows
          → (row : PrepayoutRow H) × (more : List (PrepayoutRow H)) × (rows ≡ row ∷ more)
            × (one ≡ ok row)
            × (rest ≡ ok more)
      go (err e) rest k = cc
      go (ok row) (err e) k = cc
      go (ok row) (ok more) k = (row, more, ground arith, refl, refl)

  records-PrepayoutsOf :
      (n : ℕ) (records : List (List String)) (rows : List (PrepayoutRow H))
      → parse_prepayouts H n records ≡ ok rows
      → PrepayoutsOf n records rows
  unfolding parse_prepayouts
  records-PrepayoutsOf n [] [] h = tt
  records-PrepayoutsOf n [] (row ∷ rows) h = cc
  records-PrepayoutsOf n (r ∷ records) rows h =
      let (row, more, same, here, tail) = cons_read n r records rows h in
      rw same
        (parse_prepayout-PrepayoutOf n r row here, records-PrepayoutsOf (suc n) records more tail)

  prepayouts_parsed :
      (n : ℕ) (records : List (List String)) (rows : List (PrepayoutRow H))
      → PrepayoutsOf n records rows
      → parse_prepayouts H n records ≡ ok rows
  unfolding parse_prepayouts
  prepayouts_parsed n [] [] h = refl
  prepayouts_parsed n [] (row ∷ rows) h = absurd h
  prepayouts_parsed n (r ∷ records) [] h = absurd h
  prepayouts_parsed n (r ∷ records) (row ∷ rows) h =
      rw (prepayout_parsed n r row h.0, prepayouts_parsed (suc n) records rows h.1) refl

  with_header_lem :
      (records : List (List String)) (rows : List (PrepayoutRow H))
      → (parse_with_header H records ≡ ok rows) ↔ WithHeader records rows
  with_header_lem [] rows = (λ h. ground arith, λ h. ground arith)
  with_header_lem (header ∷ records) rows = elim (Bool-cases (str_eq (join header) expect_header)) [
    | inr e ↦ (λ h. absurd (ground (arith, e)), λ h. absurd (ground (arith, e)))
    | inl e ↦ (
      λ h. (e, records-PrepayoutsOf 2 records rows (ground (arith, e))),
      λ h. rw e (prepayouts_parsed 2 records rows h.1),
    )
  ]

  -- Parse reads rows from the records just if the first is the header and each of the others, in
  -- order, has the six fields of its row, the address being empty or an address; or if there are no
  -- records, and no rows. A row has the number of its record as its line.
  pub parse_prepayout_csv-WithHeader :
      (read_all : String → Result (List (List String))) (bytes : String)
      (records : List (List String)) (rows : List (PrepayoutRow H))
      → read_all bytes ≡ ok records
      → (parse_prepayout_csv H read_all bytes ≡ ok rows) ↔ WithHeader records rows
  unfolding parse_prepayout_csv
  parse_prepayout_csv-WithHeader read_all bytes records rows h =
      subst (λ r. (parse_prepayout_split H r ≡ ok rows) ↔ WithHeader records rows) (sym h)
        (with_header_lem records rows)
