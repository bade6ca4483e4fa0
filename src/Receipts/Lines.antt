-- ===== src/Receipts/Lines.antt =====
-- pkg/receipts/buffer.go: what Finalize returns, whatever has been called before.
use crypto_batch_payment.Base.{
  String, ◌≡◌, ◌∙◌, refl, sym, ap, subst, Option, none, some, List, [], ◌∷◌, ◌++◌, append_assoc,
  append-nil, map, map-append,
}
use crypto_batch_payment.Host.{Host}
use crypto_batch_payment.Receipts.{
  Buffer, empty_buffer, Receipt, header, add_text, flushed, write, init_buffer, finalize, fields,
  emit,
}

-- The calls that a buffer takes.
pub data Call (H : Host) : Type 0 where
  emit_call : Receipt H → Call H
  finalize_call : Call H

module _ (H : Host) (csv_line : List String → String) where
  abbrev pub after : List (Call H) → Buffer → Buffer
  after [] b = b
  after (emit_call r ∷ calls) b = after calls (emit H csv_line r b)
  after (finalize_call ∷ calls) b = after calls (finalize csv_line b).1

  abbrev pub emitted : List (Call H) → List (Receipt H)
  emitted [] = []
  emitted (emit_call r ∷ calls) = r ∷ emitted calls
  emitted (finalize_call ∷ calls) = emitted calls

  abbrev pub lines : List (Receipt H) → List String
  lines rs = map (λ r. csv_line (fields H csv_line r)) rs

  -- With a header or not yet, a buffer has a line for each receipt.
  abbrev Holds : List (Receipt H) → List String → Option (List String) → Type 0
  Holds rs buf none = (buf ≡ []) × (rs ≡ [])
  Holds rs buf (some waiting) = buf ++ waiting ≡ csv_line header ∷ lines rs

  abbrev HoldsIn : List (Receipt H) → Buffer → Type 0
  HoldsIn rs b = Holds rs b.buf b.csv

  -- A buffer whose writer has been made.
  abbrev Ready : List (Receipt H) → Buffer → Type 0
  Ready rs b =
      (waiting : List String) × (b.csv ≡ some waiting)
      × (b.buf ++ waiting ≡ csv_line header ∷ lines rs)

  init-Ready :
      (rs : List (Receipt H)) (buf : List String) (csv : Option (List String))
      → Holds rs buf csv
      → Ready rs (init_buffer csv_line (record { buf = buf; csv = csv }))
  unfolding init_buffer write
  init-Ready rs buf none (e, none_yet) = (csv_line header ∷ [], refl, rw (e, none_yet) refl)
  init-Ready rs buf (some waiting) h = (waiting, refl, h)

  emit-Holds :
      (rs : List (Receipt H)) (r : Receipt H) (b : Buffer)
      → HoldsIn rs b
      → HoldsIn (rs ++ r ∷ []) (emit H csv_line r b)
  unfolding emit write
  emit-Holds rs r b h =
      let (waiting, e, all) = init-Ready rs b.buf b.csv h in
      subst (λ csv. Holds (rs ++ r ∷ []) start.buf (add_text (csv_line (fields H csv_line r)) csv))
        (sym e)
        (sym (append_assoc start.buf waiting (csv_line (fields H csv_line r) ∷ []))
          ∙ ap (λ xs. xs ++ csv_line (fields H csv_line r) ∷ []) all
          ∙ ap (λ xs. csv_line header ∷ xs)
              (sym (map-append (λ x. csv_line (fields H csv_line x)) rs (r ∷ []))))
    where
      start : Buffer
      start = init_buffer csv_line b

  finalize-Holds :
      (rs : List (Receipt H)) (b : Buffer)
      → HoldsIn rs b
      → HoldsIn rs (finalize csv_line b).1 × ((finalize csv_line b).0 ≡ csv_line header ∷ lines rs)
  unfolding finalize
  finalize-Holds rs b h =
      let (waiting, e, all) = init-Ready rs b.buf b.csv h in
      let text : flushed start.buf start.csv ≡ csv_line header ∷ lines rs =
        ap (flushed start.buf) e ∙ all in
      (append-nil (flushed start.buf start.csv) ∙ text, text)
    where
      start : Buffer
      start = init_buffer csv_line b

  after-Holds :
      (calls : List (Call H)) (rs : List (Receipt H)) (b : Buffer)
      → HoldsIn rs b
      → HoldsIn (rs ++ emitted calls) (after calls b)
  after-Holds [] rs b h = subst (λ xs. HoldsIn xs b) (sym (append-nil rs)) h
  after-Holds (emit_call r ∷ calls) rs b h =
      subst (λ xs. HoldsIn xs (after calls (emit H csv_line r b)))
        (append_assoc rs (r ∷ []) (emitted calls))
        (after-Holds calls (rs ++ r ∷ []) (emit H csv_line r b) (emit-Holds rs r b h))
  after-Holds (finalize_call ∷ calls) rs b h =
      after-Holds calls rs (finalize csv_line b).1 (finalize-Holds rs b h).0

  -- Whatever calls a new buffer has taken, Finalize returns the header, once, and then a line for
  -- each receipt that has been emitted, in order.
  pub finalize-lines :
      (calls : List (Call H))
      → (finalize csv_line (after calls empty_buffer)).0 ≡ csv_line header ∷ lines (emitted calls)
  finalize-lines calls =
      (finalize-Holds (emitted calls) (after calls empty_buffer)
        (after-Holds calls [] empty_buffer (refl, refl))).1
