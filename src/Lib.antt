-- ===== src/Lib.antt =====
-- Verification of wallet-bot, a Telegram wallet: money arithmetic, the state machines, logins and
-- PINs, the ledger of cash, outgoing and scheduled transfers, the policy of the signer, the
-- synchronisation with the chains, the queue of jobs, the limits of requests, and the encodings of
-- EVM transactions.
--
-- How the program hangs together. The web application, the bot and the worker call the services of
-- packages/core, which keep their state in tables (packages/db) and compute with the exact
-- arithmetic of packages/shared. A user logs in with Telegram's signed payload and may set a PIN
-- (packages/core/src/auth), and enters cash by hand (packages/core/src/services/transactions.ts),
-- whose balances a trigger of the database keeps. An outgoing transfer is quoted and confirmed by
-- packages/core/src/services/send.ts over the table of packages/db/src/repositories/send.ts; the
-- signer (apps/signer), a process of its own, authenticates each request and enforces its own
-- policy before it signs. packages/core/src/services/scheduler.ts runs due payments through the same
-- service. The worker takes jobs from a queue in the database (packages/core/src/jobs/runner.ts);
-- its scans read the transfers of each wallet from a chain and record them, with their balances
-- (packages/core/src/services/chain-sync.ts). Transactions of EVM chains are encoded by
-- packages/blockchain/src/evm.
--
-- Files and sources:
--   Base             shared names: lists, integers, results, texts as lists of character codes
--   Domain           packages/shared/src/domain/enums.ts and state-machines.ts, the codes of errors.ts
--   Money.FixedPoint packages/shared/src/money/fixed-point.ts, the functions on numbers
--                    (divide_rounded is divideRounded, rescale, mul_div is mulDiv, pow10)
--   Money.Decimal    the same file, parseDecimal, formatDecimal and parseIntegerString
--   Money.Fiat       packages/shared/src/money/fiat.ts, FiatAmount
--   Money.Token      packages/shared/src/money/token.ts, TokenAmount
--   Money.Rate       packages/shared/src/money/rate.ts, ExchangeRate and AssetPrice
--   Util.Keys        packages/shared/src/util/keys.ts
--   Signer.Requests  apps/signer/src/policy.ts, NonceCache and verifySignedRequest
--   Signer.Spending  the same file, SpendTracker and enforceSpendPolicy, and handleSign of
--                    apps/signer/src/index.ts
--   Send.Store       packages/db/src/repositories/send.ts, a table as a list of rows
--   Send.Quote       packages/core/src/services/send.ts, quote
--   Send.Execute     the same file, confirm, execute and cancel
--   Schedule.Payments packages/db/src/repositories/planning.ts, claims and statuses of scheduled
--                    payments, and markFailed of packages/core/src/services/scheduler.ts
--   Schedule.Execute packages/core/src/services/scheduler.ts, tick and executeOne over the send service
--   Evm.Hex          packages/blockchain/src/evm/hex.ts, hexadecimal text, quantities and words
--   Evm.Rlp          the same file, rlpEncode; Evm.Rlp.Spec is RLP after its definition
--   Evm.Transaction  packages/blockchain/src/evm/transaction.ts
--   Chain.Ledger     the statements of packages/db/src/repositories that the synchronisation uses
--   Chain.Tables     the rows and what providers report, packages/blockchain/src/types.ts
--   Chain.Ingest     packages/core/src/services/chain-sync.ts, ingestTransfer
--   Chain.Sync       the same file, scanWallet
--   Chain.Confirm    the same file, trackConfirmations and reconcileBalances
--   Jobs.Queue       packages/db/src/repositories/ops.ts and supabase/migrations/0006_functions.sql
--   Jobs.Runner      packages/core/src/jobs/runner.ts, runOne, and the events of the queue
--   Limits           packages/core/src/rate-limit.ts, RateLimiter
--   Auth             packages/db/src/client.ts, withUser, and the tables of users and sessions
--   Auth.Pin         packages/core/src/auth/service.ts, setPin and requirePin, and tokens.ts beside it
--   Auth.InitData    packages/telegram/src/initdata.ts, verifyInitData
--   Auth.Login       packages/core/src/auth/service.ts, logins, sessions and their end
--   Cash             supabase/migrations/0004_ledger.sql and 0006_functions.sql, cash rows, accounts and
--                    the trigger that keeps the balances
--   Cash.Statements  the constraints of the former, and the statements on rows and balances
--   Cash.Owned       packages/db/src/repositories/accounts.ts, the cash accounts of a user
--   Cash.Entries     packages/core/src/services/transactions.ts, createCash and get
--   Cash.Edits       the same file, update and remove
--   Cash.Cursor      packages/db/src/repositories/transactions.ts, encodeCursor and decodeCursor
--   Cash.Listing     the same file, listTransactions, over rows with times in microseconds
--   Tests            runs on concrete inputs
-- The children of these modules hold proofs and are named for what they prove.
--
-- Choices. A `bigint` is an integer of Base.Int over the native numbers, which has no bound, as in
-- the source; a number of JavaScript that the code wants to be a count is a natural number. An
-- exception is a value of Result, with the error code. Times are milliseconds, but for the times
-- of the rows of Cash, which are microseconds as in the database. A table is a list of rows, and
-- each statement of SQL is one function on it, so a statement is one step, as a single statement
-- is in the database; services are functions from a state to a result and a state, and a sequence
-- of their calls is a list of steps. A transaction of the database is a function on the tables
-- whose changes are dropped when it throws. Loops are structural recursion on a list or on a
-- count. There is fuel where the digits of a number are written (Base.Text.Digits and Evm.Hex),
-- for which its own value is enough, and in the decoder of Evm.Rlp.Spec, for which the size of the
-- encoded input is. Workers and instances that run at the same time are sequences of steps on the
-- tables that they share.
--
-- Parameters: the keyed hash, the digests, scrypt and Base64 of node, the query parser and the schema
-- of a Telegram user, random texts and ids, the texts of dates, keccak256, the keystore and the
-- signing, chain providers, random delays, address validation, the currency service, the
-- notifications, and the tables that a modelled function only reads.
--
-- Not modelled: the user interface and the routes, SQL beyond the statements named above, network
-- code, the keystore, translations, configuration, and the services that the manifest lists as
-- such. Row-level security is left out, and the statements modelled here name the user themselves.
-- Audit rows and the transport form of answers are left out of the transfers and of the ledger, and
-- the columns that hold texts which are only shown. The columns of amounts have no bound here, while
-- those of the database have 64 bits.
pub mod Auth
pub mod Base
pub mod Cash
pub mod Chain
pub mod Domain
pub mod Evm
pub mod Jobs
pub mod Limits
pub mod Money
pub mod Schedule
pub mod Send
pub mod Signer
pub mod Util
mod Tests
