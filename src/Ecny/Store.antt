-- ===== src/Ecny/Store.antt =====
-- The e-CNY tables of backend/database.py and the session over them. An identifier, a name or a
-- hash is only compared, so a number stands for it; a currency is its ISO 4217 number; an instant
-- is in seconds. Rows are in the order of insertion. Of the unique constraints, only the one on an
-- account's identifier is checked; the other identifiers are drawn from uuid4 and taken to be new.
pub mod Accounts
use swift.Prelude.{
  ℕ, suc, ◌+◌, Option, none, some, Bool, true, false, List, [], ◌∷◌, ◌++◌, length, find, ◌==◌,
  if◌then◌else◌,
}
use swift.Prelude.Int.{ℤ, pos}
use swift.Prelude.Exec.{Exec, ok, err}

abbrev pub cny : ℕ
cny = 156

pub data OwnerType : Type 0 where
  central_bank operator wallet offline_escrow program_escrow : OwnerType

abbrev pub is_central_bank : OwnerType → Bool
is_central_bank OwnerType.central_bank = true
is_central_bank _ = false

abbrev pub is_operator : OwnerType → Bool
is_operator OwnerType.operator = true
is_operator _ = false

abbrev pub is_wallet : OwnerType → Bool
is_wallet OwnerType.wallet = true
is_wallet _ = false

pub record Account : Type 0 where
  pub id : ℕ
  pub account_id : ℕ
  pub owner_type : OwnerType
  pub owner_ref : ℕ
  pub currency : ℕ
  pub balance : ℤ

pub data TxType : Type 0 where
  mint burn transfer exchange : TxType

pub data TxStatus : Type 0 where
  pending settled : TxStatus

abbrev pub is_settled : TxStatus → Bool
is_settled TxStatus.pending = false
is_settled TxStatus.settled = true

pub record Transaction : Type 0 where
  pub tx_id : ℕ
  pub tx_type : TxType
  pub status : TxStatus
  pub amount : ℤ
  pub currency : ℕ
  pub from_account : Option ℕ
  pub to_account : Option ℕ
  pub created_at : ℕ
  pub settled_at : Option ℕ

pub data Direction : Type 0 where
  debit credit : Direction

pub record Entry : Type 0 where
  pub entry_id : ℕ
  pub tx_id : ℕ
  pub account_id : ℕ
  pub direction : Direction
  pub amount : ℤ
  pub currency : ℕ

pub data WalletStatus : Type 0 where
  active frozen closed : WalletStatus

abbrev pub is_active : WalletStatus → Bool
is_active WalletStatus.active = true
is_active _ = false

pub record Wallet : Type 0 where
  pub wallet_id : ℕ
  pub holder_id : Option ℕ
  pub tier : ℕ
  pub operator_id : ℕ
  pub currency : ℕ
  pub status : WalletStatus

pub record Holder : Type 0 where
  pub holder_id : ℕ
  pub real_name : Option ℕ
  pub id_type : Option ℕ
  pub id_hash : Option ℕ
  pub kyc_level : ℤ
  pub country_code : ℕ

pub data ReportType : Type 0 where
  large_cash cross_border suspicious : ReportType

pub record Report : Type 0 where
  pub report_id : ℕ
  pub report_type : ReportType
  pub amount : ℤ
  pub currency : ℕ
  pub threshold : Option ℤ
  pub wallet : ℕ

pub data BridgeStatus : Type 0 where
  pending settled failed : BridgeStatus

pub record BridgeTx : Type 0 where
  pub bridge_tx_id : ℕ
  pub uetr : ℕ
  pub from_currency : ℕ
  pub from_amount : ℤ
  pub to_currency : ℕ
  pub to_amount : ℤ
  pub status : BridgeStatus
  pub counterparty_ref : Option ℕ
  pub settled_at : Option ℕ

-- `uuids` are the values that uuid4 yields, `drawn` how many were used; `now` is the clock.
pub record Db : Type 0 where
  pub accounts : List Account
  pub transactions : List Transaction
  pub entries : List Entry
  pub wallets : List Wallet
  pub holders : List Holder
  pub reports : List Report
  pub bridge_txs : List BridgeTx
  pub uuids : ℕ → ℕ
  pub drawn : ℕ
  pub now : ℕ

-- The exceptions' messages, and their classes.
pub data Reason : Type 0 where
  account_not_found amount_not_positive same_account currency_mismatch insufficient_balance
        mint_amount mint_target no_issuance_account burn_amount burn_source exchange_amounts :
      Reason
  invalid_tier not_an_operator kyc_required kyc_level no_ledger_account not_active per_tx_limit
        balance_cap daily_limit :
      Reason
  issuance_cap wallet_not_found insufficient_wallet_balance settlement_failed : Reason

pub data Error : Type 0 where
  ledger_error wallet_error issuance_error cips_error : Reason → Error
  key_error integrity_error : Error
  http : ℕ → Error

abbrev pub Session : Type 0 → Type 0
Session A = Exec Db Error A

-- `_new_id`
abbrev pub new_id : Session ℕ
new_id db = (ok (db.uuids db.drawn), record db { drawn = db.drawn + 1 })

abbrev pub find_account : ℕ → List Account → Option Account
find_account id accounts = find (λ a. a.account_id == id) accounts

abbrev pub add_unique : Option Account → Account → Session Account
add_unique none acct db = (ok acct, record db { accounts = db.accounts ++ acct ∷ [] })
add_unique (some taken) acct db = (err integrity_error, db)

-- `db.add(EcnyAccount(...)); db.flush()`, with the column's unique constraint.
abbrev pub insert_account : ℕ → OwnerType → ℕ → ℕ → Session Account
insert_account account_id owner_type owner_ref currency db =
    let acct : Account = record {
      id = suc (length db.accounts);
      account_id = account_id;
      owner_type = owner_type;
      owner_ref = owner_ref;
      currency = currency;
      balance = pos 0;
    } in
    add_unique (find_account account_id db.accounts) acct db
