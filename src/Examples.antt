-- ===== src/Examples.antt =====
-- A database with two payout groups, a simulated payer and a node, with which the witnesses run.
pub mod Witnesses
pub mod Disks
pub mod Reports
pub mod Payers
use crypto_batch_payment.Base.{
  ℕ, zero, suc, ◌+◌, ◌*◌, String, Bool, true, false, Option, none, some, List, [], ◌∷◌, ◌==◌,
  str_eq, if◌then◌else◌, Result, ok, err, Action, pure, refl,
}
use crypto_batch_payment.Base.Int.{ℤ, pos}
use crypto_batch_payment.Host.{Host}
use crypto_batch_payment.Txstatus.{TxState, TxStatus, failed_tx, pending, confirmed}
use crypto_batch_payment.Payoutdb.{
  MetadataRow, PayoutGroupRow, PayoutRow, TransactionRow, Tables, Conn,
}
use crypto_batch_payment.Pipelinedb.{Payout, PayoutGroup, Transaction, NonceGroup}
use crypto_batch_payment.Payer.{Payer, RawTransaction, IsSound}
use crypto_batch_payment.Payer.Sim.{sim_payer, sim_payer-IsSound}
use crypto_batch_payment.Txstatus.{confirmed}
use crypto_batch_payment.Zksyncera
use crypto_batch_payment.Payouts.Audit.{Auditor, AuditStats, Progress}
use crypto_batch_payment.Eth.{Client, Account}
use crypto_batch_payment.Pipeline.{Config, Run}
use crypto_batch_payment.Coinmarketcap.{CachingClient}
use crypto_batch_payment.Infura.{FeeCache}
use crypto_batch_payment.Pipeline.Invariant.Process.{New}
use crypto_batch_payment.Pipeline.Invariant.Loop.{Kept}

abbrev pub digit : ℕ → String
digit n =
    if n == 0
    then "0"
    else if n == 1
    then "1"
    else if n == 2
    then "2"
    else if n == 3
    then "3"
    else if n == 4
    then "4"
    else if n == 5
    then "5"
    else "many"

abbrev pub digit_back : String → ℕ
digit_back s = if str_eq s "1" then 1 else if str_eq s "2" then 2 else if str_eq s "3" then 3 else 0

abbrev pub coefficient : ℤ → String
coefficient (pos n) = digit n
coefficient _ = "negative"

-- The world is the time in seconds, which is also the next random hash.
abbrev pub host : Host
host = record {
  World = ℕ;
  Decimal = ℕ;
  Receipt = ℕ;
  RawTx = String;
  is_hex_address = λ s. true;
  hex_to_address = digit_back;
  address_string = digit;
  hex_to_hash = digit_back;
  hash_hex = digit;
  decimal_zero = 0;
  decimal_add = λ m n. m + n;
  decimal_equal = λ m n. m == n;
  decimal_is_positive = λ n. true;
  decimal_string = digit;
  decimal_from_string = λ s. some (digit_back s);
  decimal_shift = λ d n. d;
  decimal_quo = λ a b. some a;
  decimal_coefficient = pos;
  int_string = coefficient;
  int_from_string = λ s. some (pos (digit_back s));
  receipt_status = λ r. r;
  receipt_json = λ r. ok (digit r);
  receipt_from_json = λ s. some (digit_back s);
  raw_json = λ s. ok s;
  statement_fault = λ w. (none, w);
  now = λ w. (w * 1000000000, suc w);
  sleep_canceled = λ d w. (false, suc w);
}

abbrev pub sim : Payer host
sim = sim_payer (λ w. (ok (digit w), suc w)) (λ h. h) 1

abbrev pub quoter : Action ℕ ℕ
quoter w = (ok 1, w)

abbrev pub cfg : Config
cfg = record { owner = 1; limit = 2; tx_delay = 0; drain = false; poll_interval = 1000000000 }

abbrev pub group_row : ℕ → PayoutGroupRow
group_row n = record { pk = n; created_at = 0; updated_at = 0; id = n; final_tx_hash = none }

abbrev pub payout_row : ℕ → PayoutRow
payout_row n = record {
  pk = n;
  created_at = 0;
  csv_line = n;
  payee = "3";
  usd = "2";
  payout_group_id = n;
}

abbrev pub tables : Tables
tables = record {
  metadata = [];
  payout_group = group_row 1 ∷ group_row 2 ∷ [];
  payout = payout_row 1 ∷ payout_row 2 ∷ [];
  tx = [];
}

abbrev pub start : Run host
start = record {
  conn = record { tables = tables; world = 1 };
  expected_nonce = 0;
  nonce_groups = [];
  sent = [];
}

abbrev pub start_Kept : Kept start
start_Kept =
    (record { write_ahead = tt; groups_ok = tt; distinct = tt; keyed = (refl, (refl, tt)) }, tt)

abbrev pub sim_IsSound : IsSound sim
sim_IsSound = sim_payer-IsSound (λ w. (ok (digit w), suc w)) (λ h. h) 1

-- A pending transaction of the first group, with its row.
abbrev pub pending_tx : Transaction host
pending_tx = record {
  created_at = 0;
  hash = "3";
  owner = 1;
  spender = 1;
  nonce = 5;
  estimated_gas_price = pos 0;
  storj_price = 1;
  storj_tokens = pos 2;
  payout_group_id = 1;
  raw = "3";
  state = pending;
  receipt = none;
}

abbrev pub tx_row : TransactionRow
tx_row = record {
  pk = 1;
  created_at = 0;
  updated_at = 0;
  hash = "3";
  owner = "1";
  spender = "1";
  nonce = 5;
  estimated_gas_price = "0";
  storj_price = "1";
  storj_tokens = "2";
  payout_group_id = 1;
  raw = "3";
  state = "pending";
  receipt = none;
}

abbrev pub busy_group : NonceGroup host
busy_group = record { nonce = 5; payout_group_id = 1; txs = pending_tx ∷ [] }

abbrev pub busy : Run host
busy = record {
  conn = record { tables = record tables { tx = tx_row ∷ [] }; world = 1 };
  expected_nonce = 0;
  nonce_groups = busy_group ∷ [];
  sent = [];
}

-- The same database, before a run.
abbrev pub restarted : Run host
restarted = record busy { nonce_groups = []; sent = [] }

abbrev pub restarted_New : New sim quoter 1 cfg restarted
restarted_New = (((refl, (refl, tt)), ((refl, refl), tt)), refl, refl)

abbrev pub third_payout : Payout host
third_payout = record { csv_line = 3; payee = 3; usd = 2; payout_group_id = 3 }

abbrev pub started : MetadataRow
started = record {
  pk = 1;
  created_at = 0;
  updated_at = 0;
  version = 1;
  attempts = 1;
  spender = some "1";
  owner = none;
}

-- A node on which every transaction has been mined and has succeeded.
abbrev pub node : Client host
node = record {
  nonce_at = λ a. pure 5;
  base_fee = pure (pos 1);
  balance_of = λ a. pure (pos 9);
  allowance = λ a b. pure (pos 9);
  transfer = λ nonce payee tokens. pure (3, "3");
  transfer_from = λ nonce owner payee tokens. pure (3, "3");
  pending_balance_at = λ a. pure (pos 9);
  send_transaction = λ raw. pure tt;
  transaction_by_hash = λ h. pure false;
  transaction_receipt = λ h. pure 1;
}

abbrev pub account : Account
account = record { owner = 1; from = 2; gas_tip_cap = pos 1; max_gas = pos 9; token_decimals = 8 }

abbrev pub zk_client : Zksyncera.Client host
zk_client = record {
  nonce = pure 5;
  balance = pure (pos 9);
  decimals = pure 8;
  sign_transfer = λ payee tokens nonce. pure (3, "3");
  send_raw_transaction = λ raw. pure 3;
  transaction_receipt = λ h. pure (some 1);
  transaction_status = λ h. pure "verified";
  receipt_batch = λ h. pure 1;
  batch_status = λ b. pure "verified";
  to_lower = λ s. s;
}

abbrev pub auditor : Auditor host
auditor = record { check_state = λ h. pure confirmed; check_confirmed_state = λ h. pure confirmed }

abbrev pub audit_start : Progress host
audit_start = record {
  stats = record {
    total = 2;
    confirmed_payouts = 0;
    false_confirmed = 0;
    overpaid = 0;
    unstarted = 0;
    pending_payouts = 0;
    failed_payouts = 0;
    dropped_payouts = 0;
    unknown_payouts = 0;
    mismatched = 0;
    double_pays = 0;
    double_pay_storj = pos 0;
  };
  group_status = [];
  receipts = [];
  payouts_confirmed = 0;
}

abbrev pub first_payout : Payout host
first_payout = record { csv_line = 1; payee = 3; usd = 2; payout_group_id = 1 }

-- Each price is the number of the call; one symbol has a price that expires.
abbrev pub prices : String → Action ℕ ℕ
prices symbol w = (ok w, suc w)

abbrev pub priced : CachingClient host ℕ
priced = record { cache = ("STORJ", record { quote = some 7; updated = some 1 }) ∷ []; world = 2 }

abbrev pub gas_fees : ℕ → Action ℕ ℕ
gas_fees chain_id w = (ok w, suc w)

-- Fees of one chain that have not expired.
abbrev pub fee_cache : FeeCache host ℕ
fee_cache = record { suggested = (1, record { fees = 7; ts = 1999999990 }) ∷ []; world = 2 }
