-- ===== src/Nextgen/Offline.antt =====
-- backend/nextgen/cbdc.py, `OfflineValueService`: vouchers that reserve online value in an escrow
-- account and are redeemed once, over the ledger of backend/ecny.
pub mod Redemption
pub mod Conservation
pub mod Samples
mod Tests
use swift.Prelude.{
  ℕ, ◌+◌, ◌*◌, Bool, true, false, not, ◌||◌, ◌&&◌, Option, none, some, List, [], ◌∷◌, ◌++◌, find,
  select, update_found, ltb, ◌==◌, if◌then◌else◌,
}
use swift.Prelude.Int.{ℤ, pos, leb_ℤ}
use swift.Prelude.Exec.{Exec, zoom, pure, raise, gets, raise_if, or_raise, modify, ◌>>=◌, ◌>>◌}
use swift.Ecny.Store.{
  Db as Ledger, Error as LedgerError, Account, OwnerType, cny, is_wallet, new_id,
}
use swift.Ecny.Ledger.{get_or_create_account, transfer}

pub data VoucherStatus : Type 0 where
  issued redeemed invalidated expired : VoucherStatus

pub record Voucher : Type 0 where
  pub voucher_id : ℕ
  pub wallet_id : ℕ
  pub device_id : ℕ
  pub amount : ℤ
  pub nonce : ℕ
  pub expires_at : ℕ
  pub status : VoucherStatus
  pub redeemed_by : Option ℕ

-- What the service puts into the outbox.
pub data OfflineEvent : Type 0 where
  offline_redeemed offline_invalidated : ℕ → OfflineEvent

pub record Vault : Type 0 where
  pub ledger : Ledger
  pub vouchers : List Voucher
  pub events : List OfflineEvent

pub data OfflineError : Type 0 where
  invalid_amount no_wallet_account no_result consumed voucher_expired wrong_nonce not_issued :
      OfflineError
  ledger_raised : LedgerError → OfflineError

abbrev pub OfflineSession : Type 0 → Type 0
OfflineSession A = Exec Vault OfflineError A

abbrev pub on_ledger : {A : Type 0} → Exec Ledger LedgerError A → OfflineSession A
on_ledger m = zoom Vault.ledger (λ l vault. record vault { ledger = l }) ledger_raised m

abbrev pub is_issued : VoucherStatus → Bool
is_issued VoucherStatus.issued = true
is_issued _ = false

abbrev pub is_escrow : OwnerType → Bool
is_escrow OwnerType.offline_escrow = true
is_escrow _ = false

abbrev pub find_voucher : ℕ → List Voucher → Option Voucher
find_voucher voucher_id vouchers = find (λ v. v.voucher_id == voucher_id) vouchers

-- `_wallet_account`
unfoldable pub wallet_account : ℕ → OfflineSession Account
wallet_account wallet_id = do
  found ← gets (λ vault.
      find (λ a. is_wallet a.owner_type && a.owner_ref == wallet_id && a.currency == cny)
        vault.ledger.accounts)
  or_raise found no_wallet_account

-- `.one()`
abbrev pub only {ℓ} : {A : Type ℓ} → List A → Option A
only (a ∷ []) = some a
only _ = none

unfoldable pub escrow_account : ℕ → OfflineSession Account
escrow_account voucher_id = do
  found ← gets (λ vault.
      only
        (select (λ a. is_escrow a.owner_type && a.owner_ref == voucher_id) vault.ledger.accounts))
  or_raise found no_result

unfoldable pub issue : ℕ → ℕ → ℤ → ℕ → OfflineSession ℕ
issue wallet_id device_id amount ttl_minutes = do
  raise_if (leb_ℤ amount (pos 0) || ttl_minutes == 0) invalid_amount
  voucher_id ← on_ledger new_id
  account_id ← on_ledger new_id
  escrow ← on_ledger (get_or_create_account account_id OwnerType.offline_escrow voucher_id cny)
  source ← wallet_account wallet_id
  on_ledger (transfer source.account_id escrow.account_id amount)
  nonce ← on_ledger new_id
  modify (λ vault. record vault {
    vouchers =
        vault.vouchers
        ++ record {
          voucher_id = voucher_id;
          wallet_id = wallet_id;
          device_id = device_id;
          amount = amount;
          nonce = nonce;
          expires_at = vault.ledger.now + ttl_minutes * 60;
          status = VoucherStatus.issued;
          redeemed_by = none;
        }
          ∷ [];
  })
  pure voucher_id

-- An assignment to the status of a voucher that a query has found.
abbrev pub set_status : ℕ → VoucherStatus → Option ℕ → OfflineSession Unit
set_status voucher_id status redeemed_by = modify (λ vault. record vault {
  vouchers =
      update_found (λ v. v.voucher_id == voucher_id)
        (λ v. record v { status = status; redeemed_by = redeemed_by }) vault.vouchers;
})

abbrev pub enqueue : OfflineEvent → OfflineSession Unit
enqueue event = modify (λ vault. record vault { events = vault.events ++ event ∷ [] })

unfoldable pub expire : Voucher → OfflineSession Unit
expire voucher = do
  set_status voucher.voucher_id VoucherStatus.expired voucher.redeemed_by
  raise voucher_expired

unfoldable pub pay_out : Voucher → ℕ → OfflineSession ℕ
pay_out voucher merchant_wallet_id = do
  escrow ← escrow_account voucher.voucher_id
  target ← wallet_account merchant_wallet_id
  tx_id ← on_ledger (transfer escrow.account_id target.account_id voucher.amount)
  set_status voucher.voucher_id VoucherStatus.redeemed (some merchant_wallet_id)
  enqueue (offline_redeemed voucher.voucher_id)
  pure tx_id

-- What follows the check of the status.
unfoldable pub redeem_issued : Voucher → ℕ → ℕ → OfflineSession ℕ
redeem_issued voucher nonce merchant_wallet_id = do
  now ← gets (λ vault. vault.ledger.now)
  (if ltb voucher.expires_at now then expire voucher else pure tt)
  raise_if (not (voucher.nonce == nonce)) wrong_nonce
  pay_out voucher merchant_wallet_id

unfoldable pub redeem : ℕ → ℕ → ℕ → OfflineSession ℕ
redeem voucher_id nonce merchant_wallet_id = do
  found ← gets (λ vault. find_voucher voucher_id vault.vouchers)
  voucher ← or_raise found no_result
  raise_if (not (is_issued voucher.status)) consumed
  redeem_issued voucher nonce merchant_wallet_id

unfoldable pub invalidate : ℕ → OfflineSession Unit
invalidate voucher_id = do
  found ← gets (λ vault. find_voucher voucher_id vault.vouchers)
  voucher ← or_raise found no_result
  raise_if (not (is_issued voucher.status)) not_issued
  set_status voucher_id VoucherStatus.invalidated voucher.redeemed_by
  enqueue (offline_invalidated voucher_id)
