-- ===== src/Nextgen/Retail.antt =====
-- backend/nextgen/cbdc.py, `HkRetailService`: retail wallets that operators issue to, with limits by
-- tier, over the operators of backend/nextgen/cips.py and the ledger of backend/ecny. The key of an
-- operator stands for the identifier of its row.
pub mod Control
pub mod TopUp
mod Tests
use swift.Prelude.{
  ℕ, ◌+◌, ◌-◌, Bool, true, false, not, ◌||◌, ◌&&◌, Option, none, some, List, [], ◌∷◌, ◌++◌, find,
  ◌==◌, if◌then◌else◌, is_some,
}
use mathlib.Core.Option.{map}
use swift.Prelude.Int.{ℤ, pos, ◌+ℤ◌, leb_ℤ, ltb_ℤ}
use swift.Prelude.Exec.{Exec, zoom, pure, raise, gets, raise_if, or_raise, modify, ◌>>=◌, ◌>>◌}
use swift.Ecny.Store.{
  Db as Ledger, Error as LedgerError, Account, OwnerType, Wallet, WalletStatus, is_active, cny,
  is_wallet, is_operator, new_id, insert_account,
}
use swift.Ecny.Ledger.{transfer}
use swift.Nextgen.Operators.{Books, OperatorError, OperatorSession, find_operator, issue}

pub record RetailLimits : Type 0 where
  pub balance : ℤ
  pub single : ℤ
  pub daily : ℤ

-- `HK_RETAIL_LIMITS`
unfoldable pub retail_limits : ℕ → Option RetailLimits
retail_limits tier =
    if tier == 4
    then some (record { balance = pos 1_000_000; single = pos 200_000; daily = pos 500_000 })
    else if tier == 3
    then some (record { balance = pos 5_000_000; single = pos 1_000_000; daily = pos 2_000_000 })
    else if tier == 2
    then some (record { balance = pos 50_000_000; single = pos 5_000_000; daily = pos 10_000_000 })
    else if tier == 1
    then some
        (record { balance = pos 500_000_000; single = pos 50_000_000; daily = pos 100_000_000 })
    else none

-- What the service puts into the outbox.
pub data RetailEvent : Type 0 where
  hk_topup hk_merchant_payment : ℕ → ℤ → RetailEvent

pub record Retail : Type 0 where
  pub books : Books
  pub events : List RetailEvent

pub data RetailError : Type 0 where
  unsupported_tier inactive_operator wallet_not_found wallet_not_active single_limit_exceeded
        balance_limit_exceeded no_merchant_category p2p_disabled no_wallet_account
        no_operator_account key_error :
      RetailError
  operator_raised : OperatorError → RetailError
  ledger_raised : LedgerError → RetailError

abbrev pub RetailSession : Type 0 → Type 0
RetailSession A = Exec Retail RetailError A

abbrev pub on_books : {A : Type 0} → OperatorSession A → RetailSession A
on_books m = zoom Retail.books (λ b retail. record retail { books = b }) operator_raised m

abbrev pub ledger_of : Retail → Ledger
ledger_of retail = retail.books.ledger

abbrev pub with_ledger : Ledger → Retail → Retail
with_ledger l retail = record retail { books = record retail.books { ledger = l } }

abbrev pub on_ledger : {A : Type 0} → Exec Ledger LedgerError A → RetailSession A
on_ledger m = zoom ledger_of with_ledger ledger_raised m

abbrev pub enqueue : RetailEvent → RetailSession Unit
enqueue event = modify (λ retail. record retail { events = retail.events ++ event ∷ [] })

abbrev pub is_account_of : ℕ → Account → Bool
is_account_of wallet_id a = is_wallet a.owner_type && a.owner_ref == wallet_id && a.currency == cny

-- `_wallet_account`
unfoldable pub wallet_account : ℕ → RetailSession Account
wallet_account wallet_id = do
  found ← gets (λ retail. find (is_account_of wallet_id) (ledger_of retail).accounts)
  or_raise found no_wallet_account

-- `_operator_account`
unfoldable pub operator_account : ℕ → RetailSession Account
operator_account operator_id = do
  found ← gets (λ retail.
      find (λ a. is_operator a.owner_type && a.owner_ref == operator_id && a.currency == cny)
        (ledger_of retail).accounts)
  or_raise found no_operator_account

-- `_wallet`
unfoldable pub wallet : ℕ → RetailSession Wallet
wallet wallet_id = do
  found ← gets (λ retail. find (λ w. w.wallet_id == wallet_id) (ledger_of retail).wallets)
  row ← or_raise found wallet_not_found
  raise_if (not (is_active row.status)) wallet_not_active
  pure row

-- `_check_amount`: the limits are looked up for a positive amount only.
unfoldable pub check_amount : Wallet → ℤ → RetailSession Unit
check_amount row amount = do
  raise_if (leb_ℤ amount (pos 0)) single_limit_exceeded
  limits ← or_raise (retail_limits row.tier) key_error
  raise_if (ltb_ℤ limits.single amount) single_limit_exceeded

abbrev pub phone_hash_type : ℕ
phone_hash_type = 1

-- The rows of the holder, of the wallet and of its ledger account.
unfoldable pub add_rows : ℕ → ℕ → Option ℕ → ℕ → Exec Ledger LedgerError ℕ
add_rows operator_id tier phone_hash country_code = do
  wallet_id ← new_id
  holder_id ← new_id
  modify (λ db. record db {
    holders =
        db.holders
        ++ record {
          holder_id = holder_id;
          real_name = none;
          id_type = map (λ h. phone_hash_type) phone_hash;
          id_hash = phone_hash;
          kyc_level = pos (4 - tier);
          country_code = country_code;
        }
          ∷ [];
    wallets =
        db.wallets
        ++ record {
          wallet_id = wallet_id;
          holder_id = some holder_id;
          tier = tier;
          operator_id = operator_id;
          currency = cny;
          status = WalletStatus.active;
        }
          ∷ [];
  })
  account_id ← new_id
  insert_account account_id OwnerType.wallet wallet_id cny
  pure wallet_id

unfoldable pub create_wallet : ℕ → ℕ → Option ℕ → ℕ → RetailSession ℕ
create_wallet operator_id tier phone_hash country_code = do
  raise_if (not (is_some (retail_limits tier))) unsupported_tier
  found ← gets (λ retail. find_operator operator_id retail.books.operators)
  operator ← or_raise found inactive_operator
  raise_if (not operator.active) inactive_operator
  on_ledger (add_rows operator.operator_id tier phone_hash country_code)

unfoldable pub merchant_payment : ℕ → ℕ → ℤ → Option ℕ → RetailSession ℕ
merchant_payment wallet_id merchant_wallet_id amount merchant_category = do
  row ← wallet wallet_id
  wallet merchant_wallet_id
  check_amount row amount
  raise_if (not (is_some merchant_category)) no_merchant_category
  source ← wallet_account wallet_id
  target ← wallet_account merchant_wallet_id
  tx_id ← on_ledger (transfer source.account_id target.account_id amount)
  enqueue (hk_merchant_payment wallet_id amount)
  pure tx_id

abbrev pub p2p_transfer : RetailSession Unit
p2p_transfer = raise p2p_disabled

-- The transfer from the operator to the wallet.
unfoldable pub hand_over : ℕ → ℕ → ℤ → RetailSession ℕ
hand_over operator_id wallet_id amount = do
  source ← operator_account operator_id
  target ← wallet_account wallet_id
  movement ← on_ledger (transfer source.account_id target.account_id amount)
  enqueue (hk_topup wallet_id amount)
  pure movement

module _ (account_of : ℕ → ℕ) where
  unfoldable pub issue_to : ℕ → ℕ → ℤ → RetailSession (ℕ × ℕ)
  issue_to operator_id wallet_id amount = do
    issuance ← on_books (issue account_of operator_id amount)
    movement ← hand_over operator_id wallet_id amount
    pure (issuance, movement)

  unfoldable pub fps_top_up : ℕ → ℕ → ℤ → RetailSession (ℕ × ℕ)
  fps_top_up operator_id wallet_id amount = do
    row ← wallet wallet_id
    check_amount row amount
    current ← wallet_account wallet_id
    limits ← or_raise (retail_limits row.tier) key_error
    raise_if (ltb_ℤ limits.balance (current.balance +ℤ amount)) balance_limit_exceeded
    issue_to operator_id wallet_id amount
