-- ===== src/Payouts/Audit/Paid.antt =====
-- pkg/payouts/audit.go: when Audit writes the receipts, and which.
use crypto_batch_payment.Base.{
  ℕ, ◌+◌, String, Bool, true, ◌||◌, ◌==◌, str_eq, ◌≡◌, ◌∙◌, refl, sym, ap, ◌⊎◌, inl, inr, List, [],
  ◌∷◌, ◌++◌, map, Result, ok, Action, pure, choose, subst, arith,
}
use crypto_batch_payment.Base.Rules.{choose_rule}
use crypto_batch_payment.Host.{Host}
use crypto_batch_payment.Payer.Types.{PayerType}
use crypto_batch_payment.Payoutdb.{Conn}
use crypto_batch_payment.Pipelinedb.{Payout}
use crypto_batch_payment.Receipts.{Receipt, Buffer, empty_buffer, header, finalize, emit}
use crypto_batch_payment.Receipts.Lines.{Call, emit_call, after, emitted, lines, finalize-lines}
use crypto_batch_payment.Payouts.Audit.{Auditor, Progress, audit}
use crypto_batch_payment.Payouts.Audit.Report.{buffer_of, write_receipts}
use crypto_batch_payment.Payouts.Audit.Summed.{unpaid, Complete, audit-Complete}

module _ {H : Host} where
  -- The receipts in the order in which they were emitted.
  abbrev pub in_order : PayerType → List (ℕ × H.Decimal × String) → List (Receipt H)
  in_order type [] = []
  in_order type ((wallet, amount, hash) ∷ earlier) =
      in_order type earlier
      ++ record { wallet = wallet; amount = amount; tx_hash = hash; mechanism = type } ∷ []

  calls_of : List (Receipt H) → List (Call H)
  calls_of rs = map emit_call rs

module _ (H : Host) (csv_line : List String → String) where
  emitted_calls : (rs : List (Receipt H)) → emitted H csv_line (calls_of rs) ≡ rs
  unfolding calls_of
  emitted_calls [] = refl
  emitted_calls (r ∷ rs) = ap (λ xs. r ∷ xs) (emitted_calls rs)

  after_snoc :
      (rs : List (Receipt H)) (r : Receipt H) (b : Buffer)
      → after H csv_line (calls_of (rs ++ r ∷ [])) b
        ≡ emit H csv_line r (after H csv_line (calls_of rs) b)
  unfolding calls_of
  after_snoc [] r b = refl
  after_snoc (x ∷ rs) r b = after_snoc rs r (emit H csv_line x b)

module _ (H : Host) (csv_line : List String → String)
    (write_file : String → List String → Action H.World (Unit {0})) where
  buffer_of-after :
      (type : PayerType) (rs : List (ℕ × H.Decimal × String))
      → buffer_of H csv_line write_file type rs
        ≡ after H csv_line (calls_of (in_order type rs)) empty_buffer
  unfolding calls_of
  buffer_of-after type [] = refl
  buffer_of-after type ((wallet, amount, hash) ∷ earlier) =
      ap (emit H csv_line r) (buffer_of-after type earlier)
      ∙ sym (after_snoc H csv_line (in_order type earlier) r empty_buffer)
    where
      r : Receipt H
      r = record { wallet = wallet; amount = amount; tx_hash = hash; mechanism = type }

  file_of :
      (type : PayerType) (rs : List (ℕ × H.Decimal × String))
      → (finalize csv_line (buffer_of H csv_line write_file type rs)).0
        ≡ csv_line header ∷ lines H csv_line (in_order type rs)
  file_of type rs =
      ap (λ b. (finalize csv_line b).0) (buffer_of-after type rs)
      ∙ finalize-lines H csv_line (calls_of (in_order type rs))
      ∙ ap (λ xs. csv_line header ∷ lines H csv_line xs)
          (emitted_calls H csv_line (in_order type rs))

  -- No file; or all payouts are confirmed or the receipts forced, and the file has the header and
  -- a line for each receipt, in order.
  abbrev pub Paid :
      PayerType → String → Bool → Progress H → H.World → Result (Unit {0}) × H.World → Type 0
  Paid type out force st w r =
      (r ≡ (ok tt, w))
      ⊎ (((unpaid st.stats ≡ 0) ⊎ (force ≡ true))
          × (r ≡ write_file out (csv_line header ∷ lines H csv_line (in_order type st.receipts)) w))

  sum_of :
      (r : Result (Progress H)) (c : Conn H) (st : Progress H)
      → Complete (r, c)
      → r ≡ ok st
      → st.payouts_confirmed + unpaid st.stats ≡ st.stats.total
  sum_of r c st k h = subst (λ x. Complete (x, c)) h k

  decide :
      (type : PayerType) (out : String) (force : Bool) (st : Progress H) (w : H.World)
      → st.payouts_confirmed + unpaid st.stats ≡ st.stats.total
      → Paid type out force st w (write_receipts H csv_line write_file type out force st w)
  unfolding write_receipts
  decide type out force st w sum =
      choose_rule (Paid type out force st w) (str_eq out "") (pure tt) rest w (λ e. inl refl)
        λ e.
          choose_rule (Paid type out force st w) (st.payouts_confirmed == st.stats.total || force)
            (write_file out file) (pure tt) w
            (λ k. inr (all_or_forced k, ap (λ f. write_file out f w) (file_of type st.receipts)))
            λ k. inl refl
    where
      file : List String
      file = (finalize csv_line (buffer_of H csv_line write_file type st.receipts)).0

      rest : Action H.World (Unit {0})
      rest =
          choose (st.payouts_confirmed == st.stats.total || force) (write_file out file) (pure tt)

      all_or_forced :
          (st.payouts_confirmed == st.stats.total || force) ≡ true
          → (unpaid st.stats ≡ 0) ⊎ (force ≡ true)
      all_or_forced k = ground (arith, sum)

  -- After an audit that ends without an error, no file of receipts is written; or all payouts are
  -- confirmed, or the receipts are forced, and the file has the header and then a line for each
  -- receipt of the audit, in order.
  pub write_receipts-Paid :
      (A : Auditor H) (csv : List (Payout H)) (type : PayerType) (out : String) (force : Bool)
      (c : Conn H) (st : Progress H) (w : H.World)
      → (audit A csv c).0 ≡ ok st
      → Paid type out force st w (write_receipts H csv_line write_file type out force st w)
  write_receipts-Paid A csv type out force c st w h =
      decide type out force st w
        (sum_of (audit A csv c).0 (audit A csv c).1 st (audit-Complete A csv c) h)
