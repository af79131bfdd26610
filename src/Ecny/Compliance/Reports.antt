-- ===== src/Ecny/Compliance/Reports.antt =====
-- Which reports a transaction gives rise to.
use swift.Prelude.{
  ◌+◌, ◌≡◌, refl, false, List, [], ◌∷◌, arith, length, length-append, Bool-cases, inl, inr,
}
use swift.Prelude.Int.{ℤ, pos, ◌≤ℤ◌, leb_ℤ, ltb_ℤ}
use swift.Prelude.Exec.{ok}
use swift.Ecny.Store.{Db, Wallet, ReportType, large_cash, suspicious}
use swift.Ecny.Wallet.{large_cash_threshold}
use swift.Ecny.Compliance.{adjacent_bound, add_report, check_transaction}

-- The types of report by the amount: below the threshold, next to it, and above.
pub data Due : ℤ → List ReportType → Type 0 where
  small : {x : ℤ} → ¬ (pos large_cash_threshold ≤ℤ x) → Due x []
  adjacent :
      {x : ℤ}
      → pos large_cash_threshold ≤ℤ x
      → ¬ (pos adjacent_bound ≤ℤ x)
      → Due x (large_cash ∷ suspicious ∷ [])
  large : {x : ℤ} → pos adjacent_bound ≤ℤ x → Due x (large_cash ∷ [])

-- A domestic transaction returns the reports that its amount asks for, none below the large-cash
-- threshold, two from there to the bound next to it, and one above, and adds as many rows.
pub check_transaction_domestic :
    (w : Wallet) (x : ℤ) (db : Db)
    → (types : List ReportType) × ((check_transaction w x false db).0 ≡ ok types)
      × Due x types
      × (length (check_transaction w x false db).1.reports ≡ length db.reports + length types)
unfolding check_transaction add_report
check_transaction_domestic w x db = elim (Bool-cases (leb_ℤ (pos large_cash_threshold) x)) [
  | inr h ↦ ([], rw h refl, small (ground arith), rw h (omega arith))
  | inl h ↦ elim (Bool-cases (ltb_ℤ x (pos adjacent_bound))) [
    | inl h₁ ↦ (
      large_cash ∷ suspicious ∷ [],
      rw (h, h₁) refl,
      adjacent (ground arith) (ground arith),
      rw (h, h₁) (omega (arith, length-append {0})),
    )
    | inr h₁ ↦ (
      large_cash ∷ [],
      rw (h, h₁) refl,
      large (ground arith),
      rw (h, h₁) (omega (arith, length-append {0})),
    )
  ]
]
