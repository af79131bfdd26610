-- ===== src/Nextgen/Offline/Tests.antt =====
-- The theorems on a wallet that reserves a voucher for a merchant.
use swift.Prelude.{◌≡◌, refl, some, List, [], ◌∷◌}
use swift.Prelude.Int.{ℤ, pos, ◌+ℤ◌, ◌-ℤ◌}
use swift.Prelude.Exec.{err}
use swift.Ecny.Store.Accounts.{adjust, balance_of}
use swift.Ecny.Ledger.{get_or_create_account, transfer, apply_transfer, begin_tx, settle, add_entry}
use swift.Nextgen.Offline.{
  Voucher, VoucherStatus, Vault, consumed, wallet_account, escrow_account, issue, redeem,
  redeem_issued, expire, pay_out, invalidate,
}
use swift.Nextgen.Offline.Samples.{two_wallets, funded_ledger, funded-Sums}
use swift.Nextgen.Offline.Redemption.{
  Request, issued, redeemed, invalidated, perform_all, redeem-spent,
}
use swift.Nextgen.Offline.Conservation.{Keeping, vouchers_conserve}

-- The wallet 31 has `x`.
abbrev vault : ℤ → Vault
vault x = record { ledger = two_wallets x; vouchers = []; events = [] }

-- The voucher 1000 has the nonce 1005, after the identifiers of its account and of its transaction.
abbrev requests : List Request
requests =
    issued 31 8 (pos 90) 60
    ∷ redeemed 1000 7 41
    ∷ redeemed 1000 1005 41
    ∷ redeemed 1000 1005 41
    ∷ []

perform_all-requests :
    let after = perform_all requests (vault (pos 100)) in
    (balance_of 3 after.ledger.accounts ≡ pos 10) × (balance_of 4 after.ledger.accounts ≡ pos 90)
unfolding issue redeem redeem_issued expire pay_out wallet_account escrow_account
    get_or_create_account transfer apply_transfer begin_tx settle add_entry adjust ◌+ℤ◌ ◌-ℤ◌
perform_all-requests = (refl, refl)

-- A voucher that is invalidated leaves its amount in the escrow account.
perform_all-invalidated :
    let after = perform_all (issued 31 8 (pos 90) 60 ∷ invalidated 1000 ∷ []) (vault (pos 100)) in
    (balance_of 3 after.ledger.accounts ≡ pos 10) × (balance_of 1001 after.ledger.accounts ≡ pos 90)
unfolding issue invalidate wallet_account get_or_create_account transfer apply_transfer begin_tx
    settle add_entry adjust ◌+ℤ◌ ◌-ℤ◌
perform_all-invalidated = (refl, refl)

abbrev spent : Voucher
spent = record {
  voucher_id = 9;
  wallet_id = 31;
  device_id = 8;
  amount = pos 5;
  nonce = 6;
  expires_at = 700;
  status = VoucherStatus.redeemed;
  redeemed_by = some 41;
}

redeem-spent_example :
    redeem 9 6 31 (perform_all requests (record (vault (pos 100)) { vouchers = spent ∷ [] }))
    ≡ (err consumed, perform_all requests (record (vault (pos 100)) { vouchers = spent ∷ [] }))
redeem-spent_example =
    redeem-spent spent requests 6 31 (record (vault (pos 100)) { vouchers = spent ∷ [] }) refl refl

abbrev funded : Vault
funded = record { ledger = funded_ledger; vouchers = []; events = [] }

vouchers_conserve_example : Keeping (pos 100) (perform_all requests funded)
vouchers_conserve_example =
    vouchers_conserve requests (pos 100) funded (record { sums = funded-Sums })
