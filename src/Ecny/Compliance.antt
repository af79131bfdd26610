-- ===== src/Ecny/Compliance.antt =====
-- backend/ecny/compliance/service.py: the reports that a transaction gives rise to.
pub mod Reports
use swift.Prelude.{ℕ, Bool, Option, none, some, List, [], ◌∷◌, ◌++◌, ◌&&◌, if◌then◌else◌}
use swift.Prelude.Int.{ℤ, pos, leb_ℤ, ltb_ℤ}
use swift.Prelude.Exec.{pure, modify, ◌>>=◌, ◌>>◌}
use swift.Ecny.Store.{
  ReportType, large_cash, cross_border, suspicious, Wallet, Session, cny, new_id,
}
use swift.Ecny.Wallet.{large_cash_threshold}

-- `int(LARGE_CASH_THRESHOLD * 1.01)`
abbrev pub adjacent_bound : ℕ
adjacent_bound = 505_000

unfoldable pub add_report : ReportType → ℤ → Option ℤ → ℕ → Session Unit
add_report report_type amount threshold wallet = do
  report_id ← new_id
  modify (λ db. record db {
    reports =
        db.reports
        ++ record {
          report_id = report_id;
          report_type = report_type;
          amount = amount;
          currency = cny;
          threshold = threshold;
          wallet = wallet;
        }
          ∷ [];
  })

abbrev pub report_if : Bool → ReportType → ℤ → Option ℤ → ℕ → Session (List ReportType)
report_if c report_type amount threshold wallet =
    if c
    then (do add_report report_type amount threshold wallet; pure (report_type ∷ []))
    else pure []

-- The list of the reports' types stands for the list of the report rows.
unfoldable pub check_transaction : Wallet → ℤ → Bool → Session (List ReportType)
check_transaction wallet amount is_cross_border = do
  large ←
      report_if (leb_ℤ (pos large_cash_threshold) amount) large_cash amount
        (some (pos large_cash_threshold)) wallet.wallet_id
  cross ← report_if is_cross_border cross_border amount none wallet.wallet_id
  adjacent ←
      report_if (leb_ℤ (pos large_cash_threshold) amount && ltb_ℤ amount (pos adjacent_bound))
        suspicious amount (some (pos large_cash_threshold)) wallet.wallet_id
  pure (large ++ (cross ++ adjacent))
