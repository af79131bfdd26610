-- ===== src/Ecny/Ledger.antt =====
-- backend/ecny/ledger/engine.py: the double-entry ledger. The proofs are in the modules below.
-- The JSON memo of a transaction is not modelled: the code only stores it.
pub mod Posting
pub mod Issuing
pub mod Soundness
pub mod Supply
use swift.Prelude.{
  ℕ, not, Option, none, some, List, [], ◌∷◌, ◌++◌, find, select, update, ◌==◌, ◌||◌, ◌&&◌,
}
use swift.Prelude.Int.{ℤ, pos, ◌+ℤ◌, ◌-ℤ◌, leb_ℤ, ltb_ℤ}
use swift.Prelude.Exec.{pure, gets, raise_if, or_raise, modify, ◌>>=◌, ◌>>◌}
use swift.Ecny.Store.{
  Account, OwnerType, TxType, TxStatus, Transaction, Direction, debit, credit, Entry, Reason,
  ledger_error, Session, new_id, find_account, insert_account, is_operator, is_central_bank,
}
use swift.Ecny.Store.Accounts.{adjust}

unfoldable pub get_or_create_account : ℕ → OwnerType → ℕ → ℕ → Session Account
get_or_create_account account_id owner_type owner_ref currency = do
  acct ← gets (λ db. find_account account_id db.accounts)
  elim acct [ some a ↦ pure a | none ↦ insert_account account_id owner_type owner_ref currency ]

abbrev pub account : ℕ → Session Account
account account_id = do
  acct ← gets (λ db. find_account account_id db.accounts)
  or_raise acct (ledger_error Reason.account_not_found)

unfoldable pub balance : ℕ → Session ℤ
balance account_id = do acct ← account account_id; pure acct.balance

-- `acct.balance += amount` and `acct.balance -= amount` on a row that a query has found.
abbrev pub increase : ℕ → ℤ → Session Unit
increase account_id amount =
    modify (λ db. record db { accounts = adjust account_id (λ b. b +ℤ amount) db.accounts })

abbrev pub decrease : ℕ → ℤ → Session Unit
decrease account_id amount =
    modify (λ db. record db { accounts = adjust account_id (λ b. b -ℤ amount) db.accounts })

-- `db.add(EcnyEntry(...))`; the fields of an entry are fixed by the arguments.
unfoldable pub add_entry : ℕ → ℕ → Direction → ℤ → ℕ → Session Unit
add_entry tx_id account_id direction amount currency = do
  entry_id ← new_id
  modify (λ db. record db {
    entries =
        db.entries
        ++ record {
          entry_id = entry_id;
          tx_id = tx_id;
          account_id = account_id;
          direction = direction;
          amount = amount;
          currency = currency;
        }
          ∷ [];
  })

-- `tx = EcnyTransaction(status="pending", ...); db.add(tx); db.flush()`
unfoldable pub begin_tx : TxType → ℤ → ℕ → Option ℕ → Option ℕ → Session ℕ
begin_tx tx_type amount currency from_account to_account = do
  tx_id ← new_id
  modify (λ db. record db {
    transactions =
        db.transactions
        ++ record {
          tx_id = tx_id;
          tx_type = tx_type;
          status = TxStatus.pending;
          amount = amount;
          currency = currency;
          from_account = from_account;
          to_account = to_account;
          created_at = db.now;
          settled_at = none;
        }
          ∷ [];
  })
  pure tx_id

unfoldable pub settle : ℕ → Session ℕ
settle tx_id = do
  modify (λ db. record db {
    transactions =
        update (λ t. t.tx_id == tx_id)
          (λ t. record t { status = TxStatus.settled; settled_at = some db.now }) db.transactions;
  })
  pure tx_id

-- `_apply_transfer`
unfoldable pub apply_transfer : ℕ → Account → Account → ℤ → Session Unit
apply_transfer tx_id from_acct to_acct amount = do
  raise_if (leb_ℤ amount (pos 0)) (ledger_error Reason.amount_not_positive)
  raise_if (from_acct.account_id == to_acct.account_id) (ledger_error Reason.same_account)
  raise_if (not (from_acct.currency == to_acct.currency)) (ledger_error Reason.currency_mismatch)
  raise_if (ltb_ℤ from_acct.balance amount) (ledger_error Reason.insufficient_balance)
  decrease from_acct.account_id amount
  increase to_acct.account_id amount
  add_entry tx_id from_acct.account_id debit amount from_acct.currency
  add_entry tx_id to_acct.account_id credit amount to_acct.currency

-- The query for the issuance account of a currency.
abbrev pub issuance_account : ℕ → Session Account
issuance_account currency = do
  cb ← gets (λ db. find (λ a. is_central_bank a.owner_type && (a.currency == currency)) db.accounts)
  or_raise cb (ledger_error Reason.no_issuance_account)

unfoldable pub mint : ℕ → ℤ → Session ℕ
mint to_account_id amount = do
  raise_if (leb_ℤ amount (pos 0)) (ledger_error Reason.mint_amount)
  to_acct ← account to_account_id
  raise_if (not (is_operator to_acct.owner_type)) (ledger_error Reason.mint_target)
  tx_id ← begin_tx TxType.mint amount to_acct.currency none (some to_account_id)
  increase to_account_id amount
  cb ← issuance_account to_acct.currency
  add_entry tx_id cb.account_id debit amount to_acct.currency
  add_entry tx_id to_account_id credit amount to_acct.currency
  settle tx_id

unfoldable pub burn : ℕ → ℤ → Session ℕ
burn from_account_id amount = do
  raise_if (leb_ℤ amount (pos 0)) (ledger_error Reason.burn_amount)
  from_acct ← account from_account_id
  raise_if (not (is_operator from_acct.owner_type)) (ledger_error Reason.burn_source)
  raise_if (ltb_ℤ from_acct.balance amount) (ledger_error Reason.insufficient_balance)
  tx_id ← begin_tx TxType.burn amount from_acct.currency (some from_account_id) none
  decrease from_account_id amount
  cb ← issuance_account from_acct.currency
  add_entry tx_id from_account_id debit amount from_acct.currency
  add_entry tx_id cb.account_id credit amount from_acct.currency
  settle tx_id

unfoldable pub transfer : ℕ → ℕ → ℤ → Session ℕ
transfer from_account_id to_account_id amount = do
  from_acct ← account from_account_id
  to_acct ← account to_account_id
  tx_id ←
      begin_tx TxType.transfer amount from_acct.currency (some from_account_id) (some to_account_id)
  apply_transfer tx_id from_acct to_acct amount
  settle tx_id

unfoldable pub exchange : ℕ → ℕ → ℤ → ℤ → Session ℕ
exchange from_account_id to_account_id from_amount to_amount = do
  raise_if (leb_ℤ from_amount (pos 0) || leb_ℤ to_amount (pos 0))
      (ledger_error Reason.exchange_amounts)
  from_acct ← account from_account_id
  to_acct ← account to_account_id
  raise_if (ltb_ℤ from_acct.balance from_amount) (ledger_error Reason.insufficient_balance)
  tx_id ←
      begin_tx TxType.exchange from_amount from_acct.currency (some from_account_id)
        (some to_account_id)
  decrease from_account_id from_amount
  increase to_account_id to_amount
  add_entry tx_id from_account_id debit from_amount from_acct.currency
  add_entry tx_id to_account_id credit to_amount to_acct.currency
  settle tx_id

unfoldable pub transaction : ℕ → Session (Option Transaction)
transaction tx_id = gets (λ db. find (λ t. t.tx_id == tx_id) db.transactions)

unfoldable pub entries_for : ℕ → Session (List Entry)
entries_for tx_id = gets (λ db. select (λ e. e.tx_id == tx_id) db.entries)
