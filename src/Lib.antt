-- ===== src/Lib.antt =====
-- Verification library of the batch payment program, which pays a list of payees in STORJ tokens.
--
-- A payout database (SQLite) holds payout groups, each with its payouts, and the transactions that
-- have been made for them. The pipeline (pkg/pipeline) repeats a step: it drops the nonce groups
-- that are finished, fills up to its limit with payout groups that have neither a final nor a
-- pending transaction, giving each the next nonce, and asks the payer about the groups in the order
-- of their nonces. A transaction is recorded as pending before it is sent. A group that is
-- confirmed or has failed is recorded in one database transaction; one whose transactions have all
-- been dropped gets another.
--
-- - Base: the names that all modules share; Base/Outcome is the state monad with errors in which
--   every call is written, Base/Rules are its proof rules. A call that fails keeps what it has
--   written.
-- - Host: what the program uses and does not implement (go-ethereum's addresses and hashes,
--   decimals, JSON, the disk under SQLite, the clock, the context) as a parameter of the model.
-- - Helpers (pkg/helpers.go), Storjtoken (pkg/storjtoken/token.go), Txstatus
--   (pkg/pipelinedb/txstatus.go).
-- - Payoutdb (pkg/payoutdb): the tables and statements of payoutdb.dbx.go, payout_group.go and
--   common.go. A statement may be refused by the disk at any time. Rows are those of the dbx file;
--   Writes and Reads have one definition per method; Same, Inserted, Keys and Fresh say what a
--   write changes.
-- - Pipelinedb (pkg/pipelinedb/db.go): Convert reads rows, Groups sorts transactions into nonce
--   groups, Operations has the methods of DB, Stats its statistics. The other children are about
--   these.
-- - Payer (pkg/payer): the interface, with what the pipeline relies on of its answers (IsSound), and
--   what an answer of a chain's payer rests on (IsExact); Sim (sim.go), Eth (pkg/eth) and Zksyncera
--   (pkg/zksyncera) implement it. The node's client is a parameter of the last two.
-- - Pipeline (pkg/pipeline/pipeline.go): Send is sendTransaction, Check is checkNonceGroups, Step is
--   payoutStep, initPayout and ProcessPayouts. Run is the pipeline's state with the open database
--   and a list of what has been sent. Sending, Resuming, Advance, Filling, Nonces, Quotes, Youngest, Waiting
--   and Invariant are about these; Invariant.Starts says with which database a run may begin.
-- - Coinmarketcap (pkg/coinmarketcap/caching_client.go) and Infura (pkg/infura/cache.go): the caches
--   of prices and of gas fees, over clients that are parameters, for calls that do not overlap.
--   Coinmarketcap.Client (client.go) is such a client, over the HTTP request as a parameter.
-- - Csv (pkg/csv/csv.go) and Prepayoutcsv (pkg/prepayoutcsv/load.go): the rows of a CSV file, over
--   the reader of encoding/csv, which is a parameter.
-- - Store (pkg/pipelinedb/db.go): the database files, with the SQL statements that create and migrate
--   tables; Opening has NewDB, OpenDB, Close and the migration. A file's path is its directory, its
--   last element and an appended suffix, and any call on a file may be refused by the system. The
--   other children say what these leave of a file, and of another.
-- - Receipts (pkg/receipts/buffer.go): the CSV file of receipts.
-- - Payouts (pkg/payouts): FromCSV and createPayoutGroups of source.go and import.go; Directory has
--   Import with its temporary directory, which a parameter makes, and of the files of a directory
--   the databases; Running has Preview and Run (run.go)
--   with doRun (cmd/crybapy/cmd_run.go), Ready an import with the run after it; Rowstats is stats.go;
--   Audit (audit.go) works over an auditor that is a parameter, and its child Report has the choice
--   of the auditor and the file of receipts; Classing and Classes are about the class of each group,
--   the other children about totals.
-- - Factory (cmd/crybapy/factory_payer.go): CreatePayer, with NewPayer of pkg/eth and pkg/zksyncera;
--   dialing, keys and contracts are parameters. Creating makes the payer, Dialed and Sound are about
--   which one. Payer.Types (pkg/payer/types.go) has the payment methods.
-- - Examples: a database, a simulated payer and a node, in Disks database files, in Reports receipts,
--   in Payers settings, and the theorems at them.
--
-- Numbers of the source that are only compared (ids, lines, hashes, addresses, times) are naturals;
-- uint64 addition of nonces wraps. Go's loops over lists are recursions; the loop that fills the
-- pipeline runs on fuel, of which the limit and one more is enough. The loop of ProcessPayouts and
-- the wait for a payer's preconditions need not end in the source, and run on fuel that the caller
-- gives. A panic (a nil row, a missing payout, a price of zero, too few decimals) is an error of its
-- own.
--
-- Not modelled: logging and reports; the configuration files, and the commands but for doRun and
-- CreatePayer, which are I/O or only call libraries; a crash in the middle of a call, but for what it
-- leaves; the HTTP client of the gas service; the generated contract bindings and SQL
-- builder.
pub mod Base
pub mod Host
pub mod Helpers
pub mod Txstatus
pub mod Payoutdb
pub mod Pipelinedb
pub mod Storjtoken
pub mod Payer
pub mod Eth
pub mod Pipeline
pub mod Examples
pub mod Payouts
pub mod Zksyncera
pub mod Coinmarketcap
pub mod Infura
pub mod Csv
pub mod Prepayoutcsv
pub mod Receipts
pub mod Factory
pub mod Store
