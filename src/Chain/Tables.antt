-- ===== src/Chain/Tables.antt =====
-- What the synchronisation reads and writes: the tables, what a provider reports
-- (packages/blockchain/src/types.ts), and the rows of packages/db/src/types.ts.
use wallet_bot.Base.{ℕ, Bool, List, Option}
use wallet_bot.Base.Int.{ℤ}
use wallet_bot.Base.Result.{Result}
use wallet_bot.Base.Text.{Text}
use wallet_bot.Domain.Enums.{Network, NetworkEnv, ErrorCode}
use wallet_bot.Money.Fiat.{FiatAmount}
use wallet_bot.Money.Rate.{AssetPrice}
use wallet_bot.Chain.Ledger.{TxDirection, Transactions, Balances, NotificationRow}

-- What a provider reports of one movement; the hints of its symbol are left out.
pub record ChainTransfer : Type 0 where
  pub tx_hash : Text
  pub log_index : ℤ
  pub direction : TxDirection
  pub counterparty : Option Text
  pub contract_address : Option Text
  pub raw_amount : ℤ
  pub fee_raw_amount : Option ℤ
  pub memo : Option Text
  pub block_number : Option ℤ
  pub block_time : Option ℕ
  pub confirmations : Option ℤ
  pub succeeded : Bool

pub record TransferPage (Cursor : Type 0) : Type 0 where
  pub transfers : List ChainTransfer
  pub cursor : Option Cursor

pub record ChainTransactionStatus : Type 0 where
  pub found : Bool
  pub succeeded : Bool
  pub confirmations : ℤ
  pub block_number : Option ℤ

pub record TokenBalance : Type 0 where
  pub contract_address : Option Text
  pub raw_amount : ℤ

pub record AssetRow : Type 0 where
  pub id : Text
  pub symbol : Text
  pub decimals : ℕ
  pub network : Network
  pub env : NetworkEnv
  pub contract_address : Option Text
  pub is_active : Bool

pub record WalletRow (Cursor : Type 0) : Type 0 where
  pub id : Text
  pub user_id : Text
  pub address : Text
  pub network : Network
  pub env : NetworkEnv
  pub scan_cursor : Option Cursor
  pub last_scanned_at : Option ℕ
  pub last_scan_error : Option ErrorCode
  pub consecutive_failures : ℕ

-- The tables. The rows that only record the scans are left out.
pub record Tables (Cursor : Type 0) : Type 0 where
  pub events : List Text
  pub transactions : Transactions
  pub balances : Balances
  pub notifications : List NotificationRow
  pub wallets : List (WalletRow Cursor)
  pub assets : List AssetRow

-- What other parts answer: the currency service, the provider of a network, and the identity that
-- the database gives to a new row.
pub record Collaborators (Cursor : Type 0) : Type 0 where
  pub get_price : AssetRow → Result ErrorCode (Option AssetPrice)
  pub convert_to_ils : FiatAmount → Result ErrorCode (Option FiatAmount)
  pub list_transfers : Network → Text → Option Cursor → ℕ → Result ErrorCode (TransferPage Cursor)
  pub get_transaction_status : Network → Text → Result ErrorCode ChainTransactionStatus
  pub get_token_balances : Network → Text → List AssetRow → Result ErrorCode (List TokenBalance)
  pub required_confirmations : Network → ℤ
  pub new_id : Transactions → Text
