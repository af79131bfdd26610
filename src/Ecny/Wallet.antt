-- ===== src/Ecny/Wallet.antt =====
-- backend/ecny/wallet/service.py: wallet tiers, their limits, and opening a wallet.
pub mod CheckLimits
use swift.Prelude.{
  ℕ, ◌*◌, ◌/◌, Bool, false, not, ◌&&◌, Option, none, some, List, [], ◌∷◌, ◌++◌, find, is_some, ltb,
  leb, ◌==◌, if◌then◌else◌,
}
use swift.Prelude.Int.{ℤ, pos, ◌+ℤ◌, leb_ℤ, ltb_ℤ}
use swift.Prelude.Exec.{pure, raise, gets, raise_if, or_raise, modify, ◌>>=◌, ◌>>◌}
use swift.Ecny.Store.{
  Account, OwnerType, Transaction, Wallet, WalletStatus, Db, Reason, wallet_error, key_error,
  Session, cny, new_id, find_account, insert_account, is_operator, is_wallet, is_settled, is_active,
}

pub record Limits : Type 0 where
  pub per_tx : ℕ
  pub daily : ℕ
  pub balance_cap : ℕ
  pub kyc_required : ℕ

abbrev pub tier_one : Limits
tier_one = record {
  per_tx = 5_000_000;
  daily = 20_000_000;
  balance_cap = 100_000_000;
  kyc_required = 3;
}

abbrev pub tier_two : Limits
tier_two = record { per_tx = 100_000; daily = 500_000; balance_cap = 1_000_000; kyc_required = 2 }

abbrev pub tier_three : Limits
tier_three = record { per_tx = 20_000; daily = 200_000; balance_cap = 500_000; kyc_required = 0 }

-- `TIER_LIMITS.get(tier)`
unfoldable pub tier_limits : ℕ → Option Limits
tier_limits tier =
    if tier == 1
    then some tier_one
    else if tier == 2
    then some tier_two
    else if tier == 3
    then some tier_three
    else none

abbrev pub large_cash_threshold : ℕ
large_cash_threshold = 500_000

-- The `holder` dict; a missing key, and an empty name, is `none`.
pub record HolderInfo : Type 0 where
  pub real_name : Option ℕ
  pub id_type : Option ℕ
  pub id_hash : Option ℕ
  pub kyc_level : Option ℤ
  pub country_code : Option ℕ

-- The ISO 3166 number of "CN".
abbrev pub cn : ℕ
cn = 156

abbrev pub get_or {ℓ} : {A : Type ℓ} → Option A → A → A
get_or none d = d
get_or (some a) d = a

abbrev named : Option HolderInfo → Bool
named none = false
named (some h) = is_some h.real_name

abbrev level_too_low : Option HolderInfo → ℕ → Bool
level_too_low none required = false
level_too_low (some h) required = ltb_ℤ (get_or h.kyc_level (pos required)) (pos required)

abbrev pub operator_row : Option Account → Session ℕ
operator_row none = raise (wallet_error Reason.not_an_operator)
operator_row (some a) =
    if is_operator a.owner_type && (a.currency == cny)
    then pure a.id
    else raise (wallet_error Reason.not_an_operator)

-- The operator's row number, or the number that the caller gave.
unfoldable pub resolve_operator : ℕ → Option ℕ → Session ℕ
resolve_operator operator_id none = pure operator_id
resolve_operator operator_id (some account_id) = do
  operator ← gets (λ db. find_account account_id db.accounts)
  operator_row operator

unfoldable pub add_holder : ℕ → Option HolderInfo → Session (Option ℕ)
add_holder required none = pure none
add_holder required (some h) = do
  holder_id ← new_id
  modify (λ db. record db {
    holders =
        db.holders
        ++ record {
          holder_id = holder_id;
          real_name = h.real_name;
          id_type = h.id_type;
          id_hash = h.id_hash;
          kyc_level = get_or h.kyc_level (pos required);
          country_code = get_or h.country_code cn;
        }
          ∷ [];
  })
  pure (some holder_id)

-- The rows of the wallet and of its ledger account.
unfoldable pub add_wallet : ℕ → Option ℕ → ℕ → Session ℕ
add_wallet tier holder_id operator_id = do
  wallet_id ← new_id
  modify (λ db. record db {
    wallets =
        db.wallets
        ++ record {
          wallet_id = wallet_id;
          holder_id = holder_id;
          tier = tier;
          operator_id = operator_id;
          currency = cny;
          status = WalletStatus.active;
        }
          ∷ [];
  })
  account_id ← new_id
  insert_account account_id OwnerType.wallet wallet_id cny
  pure wallet_id

unfoldable pub open_wallet : ℕ → ℕ → Option HolderInfo → Option ℕ → Session ℕ
open_wallet operator_id tier holder operator_account_id = do
  limits ← or_raise (tier_limits tier) (wallet_error Reason.invalid_tier)
  operator ← resolve_operator operator_id operator_account_id
  raise_if (ltb tier 3 && not (named holder)) (wallet_error Reason.kyc_required)
  raise_if (level_too_low holder limits.kyc_required) (wallet_error Reason.kyc_level)
  holder_id ← add_holder limits.kyc_required holder
  add_wallet tier holder_id operator

abbrev pub find_wallet : ℕ → List Wallet → Option Wallet
find_wallet wallet_id wallets = find (λ w. w.wallet_id == wallet_id) wallets

abbrev pub get_wallet : ℕ → Session (Option Wallet)
get_wallet wallet_id = gets (λ db. find_wallet wallet_id db.wallets)

-- The wallet's row in the ledger.
abbrev pub backing : ℕ → List Account → Option Account
backing wallet_id accounts =
    find (λ a. (a.owner_ref == wallet_id) && is_wallet a.owner_type) accounts

unfoldable pub ledger_account_id_for : ℕ → Session ℕ
ledger_account_id_for wallet_id = do
  found ← gets (λ db. backing wallet_id db.accounts)
  acct ← or_raise found (wallet_error Reason.no_ledger_account)
  pure acct.account_id

unfoldable pub wallet_balance : ℕ → Session ℤ
wallet_balance wallet_id = do
  account_id ← ledger_account_id_for wallet_id
  found ← gets (λ db. find_account account_id db.accounts)
  acct ← or_raise found (wallet_error Reason.no_ledger_account)
  pure acct.balance

abbrev pub day : ℕ
day = 86_400

abbrev pub from_eq : Option ℕ → ℕ → Bool
from_eq none account_id = false
from_eq (some id) account_id = id == account_id

-- The filter of `_outgoing_today`: midnight, in UTC, starts the day.
abbrev pub counts_today : ℕ → ℕ → Transaction → Bool
counts_today account_id now t =
    from_eq t.from_account account_id && is_settled t.status && leb (now / day * day) t.created_at

unfoldable pub sum_amounts : (Transaction → Bool) → List Transaction → ℤ
sum_amounts keep [] = pos 0
sum_amounts keep (t ∷ rest) = (if keep t then t.amount else pos 0) +ℤ sum_amounts keep rest

abbrev pub outgoing_today : ℕ → Db → ℤ
outgoing_today account_id db = sum_amounts (counts_today account_id db.now) db.transactions

unfoldable pub check_limits : Wallet → ℤ → Bool → Session Unit
check_limits wallet amount incoming = do
  raise_if (not (is_active wallet.status)) (wallet_error Reason.not_active)
  raise_if (leb_ℤ amount (pos 0)) (wallet_error Reason.amount_not_positive)
  limits ← or_raise (tier_limits wallet.tier) key_error
  raise_if (ltb_ℤ (pos limits.per_tx) amount) (wallet_error Reason.per_tx_limit)
  account_id ← ledger_account_id_for wallet.wallet_id
  current ← wallet_balance wallet.wallet_id
  spent ← gets (outgoing_today account_id)
  (if incoming
      then raise_if (ltb_ℤ (pos limits.balance_cap) (current +ℤ amount))
          (wallet_error Reason.balance_cap)
      else raise_if (ltb_ℤ (pos limits.daily) (spent +ℤ amount)) (wallet_error Reason.daily_limit))

unfoldable pub is_traceable : Wallet → Bool
is_traceable wallet = ltb wallet.tier 3
