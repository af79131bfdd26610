-- ===== src/Ecny/Wallet/CheckLimits.antt =====
-- What `check_limits` lets pass.
use mathlib.Core.Logic.{◌↔◌}
use swift.Prelude.{◌≡◌, Bool, true, false, some, arith, ◌&&◌, ◌==◌}
use swift.Prelude.Int.{ℤ, pos, ◌+ℤ◌, ◌≤ℤ◌}
use swift.Prelude.Exec.{ok}
use swift.Ecny.Store.{Account, Db, Wallet, is_active, is_wallet, find_account}
use swift.Ecny.Store.Accounts.{Unique, find_account-find}
use swift.Ecny.Wallet.{
  Limits, tier_limits, backing, ledger_account_id_for, wallet_balance, outgoing_today, check_limits,
}

module _ (w : Wallet) (x : ℤ) (db : Db) (lim : Limits) (acct : Account) where
  -- What is left of the limit that the direction of the movement is under.
  abbrev pub HasRoom : Bool → Type 0
  HasRoom true = acct.balance +ℤ x ≤ℤ pos lim.balance_cap
  HasRoom false = outgoing_today acct.account_id db +ℤ x ≤ℤ pos lim.daily

  pub record Allowed (incoming : Bool) : Type 0 where
    pub active : is_active w.status ≡ true
    pub positive : pos 1 ≤ℤ x
    pub single : x ≤ℤ pos lim.per_tx
    pub room : HasRoom incoming

module _ (w : Wallet) (x : ℤ) (db : Db) (lim : Limits) (acct : Account) (u : Unique db.accounts)
    (tier : tier_limits w.tier ≡ some lim)
    (backed : backing w.wallet_id db.accounts ≡ some acct) where
  found : find_account acct.account_id db.accounts ≡ some acct
  found =
      find_account-find (λ a. (a.owner_ref == w.wallet_id) && is_wallet a.owner_type) db.accounts
        acct u backed

  -- For a wallet of a known tier with a ledger account, and where no account is listed twice,
  -- check_limits passes exactly if the wallet is active, the amount is positive and within the
  -- limit of a single transaction, and there is room: under the balance cap for an incoming
  -- amount, under the daily limit for an outgoing one.
  pub check_limits_exact :
      (incoming : Bool)
      → ((check_limits w x incoming db).0 ≡ ok tt) ↔ Allowed w x db lim acct incoming
  unfolding check_limits ledger_account_id_for wallet_balance
  check_limits_exact true = (λ h. ground (arith, found), λ h. ground (arith, found))
  check_limits_exact false = (λ h. ground (arith, found), λ h. ground (arith, found))
