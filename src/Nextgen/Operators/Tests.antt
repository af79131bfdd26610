-- ===== src/Nextgen/Operators/Tests.antt =====
-- The theorems on an operator that registers, issues, redeems, and issues too much.
use swift.Prelude.{◌≡◌, refl, true, List, [], ◌∷◌}
use swift.Prelude.Int.{pos, ◌+ℤ◌, ◌-ℤ◌}
use swift.Prelude.Exec.{ok}
use swift.Ecny.Store.Accounts.{total, adjust}
use swift.Ecny.Ledger.{get_or_create_account, mint, burn, begin_tx, settle, add_entry}
use swift.Ecny.Issuance.{net_issuance_of}
use swift.Nextgen.Operators.{register, issue, redeem, reconcile}
use swift.Nextgen.Operators.Samples.{account_of, books, books-Controlled}
use swift.Nextgen.Operators.Limits.{
  Controlled, Request, registered, issued, redeemed, perform_all, perform_all-Controlled,
}

abbrev requests : List Request
requests =
    registered 5 (pos 900) (pos 20)
    ∷ issued 5 (pos 700)
    ∷ issued 5 (pos 300)
    ∷ redeemed 5 (pos 100)
    ∷ []

perform_all-Controlled_example : Controlled (perform_all account_of requests books)
perform_all-Controlled_example = perform_all-Controlled account_of requests books books-Controlled

reconcile-requests :
    (reconcile account_of 5 (perform_all account_of requests books)).0
    ≡ ok (record {
      issued_amount = pos 600;
      ledger_balance = pos 600;
      reserve_amount = pos 20;
      within_limit = true;
      reconciled = true;
    })
unfolding register issue redeem reconcile get_or_create_account mint burn begin_tx settle add_entry
    adjust ◌+ℤ◌ ◌-ℤ◌
reconcile-requests = refl

-- An operator's limit may be above the cap on all issuance, and then its issuance passes the cap.
perform_all-past_cap :
    net_issuance_of
      (perform_all account_of
        (registered 5 (pos 200_000_000_000) (pos 0) ∷ issued 5 (pos 150_000_000_000) ∷ [])
        books).ledger
    ≡ pos 150_000_000_000
unfolding register issue get_or_create_account mint begin_tx settle add_entry adjust total ◌+ℤ◌ ◌-ℤ◌
perform_all-past_cap = refl
