-- ===== src/Pipeline.antt =====
-- pkg/pipeline/pipeline.go: the state of a run, and the calls into the database, the payer and
-- the price service.
pub mod Send
pub mod Resuming
pub mod Sending
pub mod Invariant
pub mod Check
pub mod Step
pub mod Quotes
pub mod Youngest
pub mod Waiting
pub mod Nonces
pub mod Filling
pub mod Advance
use crypto_batch_payment.Base.{
  ℕ, suc, ◌+◌, ◌-◌, ◌%◌, Bool, true, false, ◌==◌, if◌then◌else◌, List, [], ◌∷◌, Result, ok, err,
  canceled, still_waiting, Action, ◌>>=◌, ◌>>◌, pure, raise, ltb,
}
use crypto_batch_payment.Host.{Host}
use crypto_batch_payment.Payoutdb.{Conn}
use crypto_batch_payment.Pipelinedb.{NonceGroup}
use crypto_batch_payment.Payer.{Payer, RawTransaction}

-- The fields of `Pipeline` that `New` fills and nothing changes. A negative limit, with which the
-- pipeline would only drain, is not represented.
pub record Config : Type 0 where
  pub owner : ℕ
  pub limit : ℕ
  pub tx_delay : ℕ
  pub drain : Bool
  pub poll_interval : ℕ

-- `New`: the defaults.
unfoldable pub new : Config → Config
new c = record c {
  limit = if c.limit == 0 then 16 else c.limit;
  poll_interval = if c.poll_interval == 0 then 1000000000 else c.poll_interval;
}

-- The rest of `Pipeline`, with the open database. `sent` is what the payer has been asked to send
-- during the run, the latest first.
pub record Run (H : Host) : Type 0 where
  pub conn : Conn H
  pub expected_nonce : ℕ
  pub nonce_groups : List (NonceGroup H)
  pub sent : List (RawTransaction H)

-- uint64 addition wraps.
abbrev pub u64 : ℕ → ℕ
u64 n = n % 18446744073709551616

-- A `select` on a timer and on the context.
abbrev pub pause : (H : Host) → ℕ → Action H.World (Unit {0})
pause H d w =
    let (stopped, w') = H.sleep_canceled d w in (if stopped then err canceled else ok tt, w')

module _ {H : Host} where
  abbrev pub on_db : {A : Type 0} → Action (Conn H) A → Action (Run H) A
  on_db m s = let (r, c) = m s.conn in (r, record s { conn = c })

  abbrev pub with_world : Run H → H.World → Run H
  with_world s w = record s { conn = record { tables = s.conn.tables; world = w } }

  abbrev pub put_groups : List (NonceGroup H) → Action (Run H) (Unit {0})
  put_groups gs s = (ok tt, record s { nonce_groups = gs })

abbrev pub on_world : (H : Host) {A : Type 0} → Action H.World A → Action (Run H) A
on_world H m s = let (r, w) = m s.conn.world in (r, with_world s w)
