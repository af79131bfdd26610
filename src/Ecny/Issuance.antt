-- ===== src/Ecny/Issuance.antt =====
-- backend/ecny/issuance/service.py: issuance under the cap, redemption, and the exchange between
-- operators and wallets.
pub mod Cap
use swift.Prelude.{ℕ, not, ◌&&◌, Bool, true, false, ◌==◌}
use swift.Prelude.Int.{ℤ, pos, ◌+ℤ◌, leb_ℤ, ltb_ℤ}
use swift.Prelude.Exec.{gets, raise_if, or_raise, rethrow, ◌>>=◌, ◌>>◌}
use swift.Ecny.Store.{
  Account, Db, Reason, Error, ledger_error, wallet_error, issuance_error, Session, cny,
  is_central_bank,
}
use swift.Ecny.Store.Accounts.{total}
use swift.Ecny.Ledger.{mint, burn, transfer}
use swift.Ecny.Wallet.{check_limits, get_wallet, ledger_account_id_for, wallet_balance}

abbrev pub issuance_cap_fen : ℕ
issuance_cap_fen = 100_000_000_000

-- The filter of `_net_issuance`.
abbrev pub circulates : Account → Bool
circulates a = (a.currency == cny) && not (is_central_bank a.owner_type)

abbrev pub net_issuance_of : Db → ℤ
net_issuance_of db = total circulates db.accounts

unfoldable pub net_issuance : Session ℤ
net_issuance = gets net_issuance_of

-- `except LedgerError`; the wallet's own exceptions are caught too where the code names them.
abbrev pub wrap_ledger : Error → Error
wrap_ledger (ledger_error r) = issuance_error r
wrap_ledger e = e

abbrev pub wrap_both : Error → Error
wrap_both (ledger_error r) = issuance_error r
wrap_both (wallet_error r) = issuance_error r
wrap_both e = e

unfoldable pub issue_to_operator : ℕ → ℤ → Session ℕ
issue_to_operator operator_account_id amount = do
  raise_if (leb_ℤ amount (pos 0)) (issuance_error Reason.amount_not_positive)
  net ← gets net_issuance_of
  raise_if (ltb_ℤ (pos issuance_cap_fen) (net +ℤ amount)) (issuance_error Reason.issuance_cap)
  rethrow wrap_ledger (mint operator_account_id amount)

unfoldable pub redeem_from_operator : ℕ → ℤ → Session ℕ
redeem_from_operator operator_account_id amount = do
  raise_if (leb_ℤ amount (pos 0)) (issuance_error Reason.amount_not_positive)
  rethrow wrap_ledger (burn operator_account_id amount)

unfoldable pub exchange_to_wallet : ℕ → ℕ → ℤ → Session ℕ
exchange_to_wallet operator_account_id wallet_id amount = do
  found ← get_wallet wallet_id
  wallet ← or_raise found (issuance_error Reason.wallet_not_found)
  rethrow wrap_both (do
    check_limits wallet amount true
    account_id ← ledger_account_id_for wallet_id
    transfer operator_account_id account_id amount)

unfoldable pub redeem_from_wallet : ℕ → ℕ → ℤ → Session ℕ
redeem_from_wallet wallet_id operator_account_id amount = do
  found ← get_wallet wallet_id
  wallet ← or_raise found (issuance_error Reason.wallet_not_found)
  raise_if (leb_ℤ amount (pos 0)) (issuance_error Reason.insufficient_wallet_balance)
  current ← wallet_balance wallet_id
  raise_if (ltb_ℤ current amount) (issuance_error Reason.insufficient_wallet_balance)
  rethrow wrap_both (do
    check_limits wallet amount false
    account_id ← ledger_account_id_for wallet_id
    transfer account_id operator_account_id amount)
