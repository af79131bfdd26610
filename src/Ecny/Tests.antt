-- ===== src/Ecny/Tests.antt =====
-- A central bank, an operator and two wallets: the theorems on them, and runs of the code.
use swift.Prelude.{ℕ, ◌+◌, ◌≡◌, refl, false, none, some, List, [], ◌∷◌, arith, length}
use swift.Prelude.Int.{ℤ, pos, ◌+ℤ◌, ◌-ℤ◌}
use swift.Prelude.Exec.{ok, atomic}
use swift.Ecny.Store.{Account, OwnerType, Wallet, WalletStatus, Db, ReportType, cny}
use swift.Ecny.Store.Accounts.{Unique, balance_of, total, adjust}
use swift.Ecny.Ledger.{mint, burn, transfer, exchange, apply_transfer, begin_tx, settle, add_entry}
use swift.Ecny.Ledger.Posting.{
  posted, Moved, Transferred, Outcome, transfer-Outcome, exchange-Outcome,
}
use swift.Ecny.Ledger.Issuing.{Issued, Redeemed, mint-Outcome, burn-Outcome}
use swift.Ecny.Ledger.Soundness.{IsSound}
use swift.Ecny.Wallet.{
  tier_limits, tier_three, check_limits, ledger_account_id_for, wallet_balance, sum_amounts,
}
use swift.Ecny.Wallet.CheckLimits.{Allowed, check_limits_exact}
use swift.Ecny.Issuance.{
  issue_to_operator, redeem_from_operator, exchange_to_wallet, redeem_from_wallet,
}
use swift.Ecny.Issuance.Cap.{Capped, issue_to_operator-Capped}
use swift.Ecny.Compliance.{check_transaction}
use swift.Ecny.Compliance.Reports.{Due, check_transaction_domestic}
use swift.Ecny.Cips.{settle_via_cips}
use swift.Ecny.Cips.Settlement.{settle_via_cips-Outcome}
use swift.Ecny.Api.{Action, Request, serve, serve_all, issuance_endpoint, transfer_endpoint}
use swift.Ecny.Api.Soundness.{serve_all-IsSound}
use mathlib.Core.Logic.{◌↔◌}

abbrev row : ℕ → OwnerType → ℕ → ℤ → Account
row id owner_type owner_ref balance = record {
  id = id;
  account_id = id;
  owner_type = owner_type;
  owner_ref = owner_ref;
  currency = cny;
  balance = balance;
}

abbrev wallet : ℕ → Wallet
wallet id = record {
  wallet_id = id;
  holder_id = none;
  tier = 3;
  operator_id = 2;
  currency = cny;
  status = WalletStatus.active;
}

-- The operator has `x`, the wallet 31 has `y`.
abbrev holding : ℤ → ℤ → Db
holding x y = record {
  accounts =
      row 1 OwnerType.central_bank 0 (pos 0)
      ∷ row 2 OwnerType.operator 5 x
      ∷ row 3 OwnerType.wallet 31 y
      ∷ row 4 OwnerType.wallet 41 (pos 0)
      ∷ [];
  transactions = [];
  entries = [];
  wallets = wallet 31 ∷ wallet 41 ∷ [];
  holders = [];
  reports = [];
  bridge_txs = [];
  uuids = λ n. 1000 + n;
  drawn = 0;
  now = 0;
}

abbrev fresh : Db
fresh = holding (pos 0) (pos 0)

abbrev funded : Db
funded = holding (pos 9000) (pos 500)

fresh-IsSound : IsSound fresh
unfolding posted
fresh-IsSound = record {
  unique = (refl, (refl, (refl, (refl, tt))));
  nonneg = λ id. ground arith;
  reconciled = λ id h. ground arith;
}

funded-Unique : Unique funded.accounts
funded-Unique = (refl, (refl, (refl, (refl, tt))))

abbrev requests : List (ℕ × Request)
requests =
    (100, Request.issuance Action.mint 2 (pos 9000))
    ∷ (200, Request.issuance (Action.issue_to_wallet (some 31)) 2 (pos 500))
    ∷ (300, Request.transfers 31 41 (pos 200))
    ∷ (400, Request.transfers 31 41 (pos 900))
    ∷ (500, Request.issuance (Action.redeem_from (some 41)) 2 (pos 50))
    ∷ (600, Request.issuance Action.burn 2 (pos 1000))
    ∷ []

serve_all-IsSound_example : IsSound (serve_all requests fresh)
serve_all-IsSound_example = serve_all-IsSound requests fresh fresh-IsSound

transfer-Outcome_example :
    Outcome (Transferred 3 4 (pos 200) funded) funded (transfer 3 4 (pos 200) funded)
transfer-Outcome_example = transfer-Outcome 3 4 (pos 200) funded

exchange-Outcome_example :
    Outcome (Moved 3 4 (pos 200) (pos 30) funded) funded (exchange 3 4 (pos 200) (pos 30) funded)
exchange-Outcome_example = exchange-Outcome 3 4 (pos 200) (pos 30) funded

mint-Outcome_example : Outcome (Issued 2 (pos 70) funded) funded (atomic (mint 2 (pos 70)) funded)
mint-Outcome_example = mint-Outcome 2 (pos 70) funded funded-Unique

burn-Outcome_example : Outcome (Redeemed 2 (pos 70) funded) funded (atomic (burn 2 (pos 70)) funded)
burn-Outcome_example = burn-Outcome 2 (pos 70) funded funded-Unique

issue_to_operator-Capped_example : Capped 2 (pos 70) funded (issue_to_operator 2 (pos 70) funded).1
unfolding issue_to_operator mint begin_tx settle add_entry ◌+ℤ◌ ◌-ℤ◌ total adjust
issue_to_operator-Capped_example = issue_to_operator-Capped 2 (pos 70) funded funded-Unique

check_limits_exact_example :
    ((check_limits (wallet 31) (pos 200) false funded).0 ≡ ok tt)
    ↔ Allowed (wallet 31) (pos 200) funded tier_three (row 3 OwnerType.wallet 31 (pos 500)) false
unfolding tier_limits
check_limits_exact_example =
    check_limits_exact (wallet 31) (pos 200) funded tier_three (row 3 OwnerType.wallet 31 (pos 500))
      funded-Unique refl refl false

settle_via_cips-Outcome_example :
    Outcome
      (Transferred 3 4 (pos 200) funded)
      funded
      (settle_via_cips 3 4 (pos 200) (some 7) funded)
settle_via_cips-Outcome_example = settle_via_cips-Outcome 3 4 (pos 200) (some 7) funded

check_transaction_domestic_example :
    (types : List ReportType) × ((check_transaction (wallet 31) (pos 700_000) false funded).0
      ≡ ok types)
    × Due (pos 700_000) types
    × (length (check_transaction (wallet 31) (pos 700_000) false funded).1.reports
        ≡ 0 + length types)
check_transaction_domestic_example = check_transaction_domestic (wallet 31) (pos 700_000) funded

-- The transfer of 900 fails, since 31 has 300 left; the rest succeeds.
serve_all-requests :
    let db = serve_all requests fresh in
    (balance_of 2 db.accounts ≡ pos 7550)
    × (balance_of 3 db.accounts ≡ pos 300)
    × (balance_of 4 db.accounts ≡ pos 150)
    × (length db.entries ≡ 10)
unfolding serve_all serve issuance_endpoint transfer_endpoint issue_to_operator redeem_from_operator
    exchange_to_wallet redeem_from_wallet mint burn transfer apply_transfer begin_tx settle
    add_entry check_limits tier_limits ledger_account_id_for wallet_balance sum_amounts
    check_transaction total adjust ◌+ℤ◌ ◌-ℤ◌
serve_all-requests = (refl, refl, refl, refl)
