-- ===== src/Nextgen/Retail/Tests.antt =====
-- The theorems on an operator with one wallet of tier 4, which is topped up twice.
use swift.Prelude.{◌≡◌, refl, none, some, List, [], ◌∷◌, find}
use swift.Prelude.Int.{pos, ◌+ℤ◌, ◌-ℤ◌}
use swift.Prelude.Exec.Keeps.{OnOk}
use swift.Ecny.Store.{Account, OwnerType, cny}
use swift.Ecny.Store.Accounts.{adjust, balance_of}
use swift.Ecny.Ledger.{
  get_or_create_account, mint, transfer, apply_transfer, begin_tx, settle, add_entry,
}
use swift.Nextgen.Operators.{register, issue}
use swift.Nextgen.Operators.Samples.{account_of, books, books-Controlled}
use swift.Nextgen.Operators.Limits.{
  registered, perform_all as perform_books, perform_all-Controlled,
}
use swift.Nextgen.Retail.{
  Retail, is_account_of, retail_limits, wallet_account, operator_account, wallet, check_amount,
  add_rows, create_wallet, hand_over, issue_to, fps_top_up, merchant_payment,
}
use swift.Nextgen.Retail.Control.{
  IsControlled, Request, created, topped_up, paid, sent, perform, perform_all,
  perform_all-IsControlled,
}
use swift.Nextgen.Retail.TopUp.{ToppedUp, fps_top_up-ToppedUp}

abbrev start : Retail
start = record {
  books = perform_books account_of (registered 5 (pos 9_000_000) (pos 20) ∷ []) books;
  events = [];
}

start-IsControlled : IsControlled start
start-IsControlled = record {
  controlled =
      perform_all-Controlled account_of (registered 5 (pos 9_000_000) (pos 20) ∷ []) books
        books-Controlled;
}

-- The wallets 1000 and 1003; the first top-up is above the limit on a single amount, and the last
-- would pass the limit on the balance.
abbrev requests : List Request
requests =
    created 5 4 none 344
    ∷ created 5 2 (some 77) 344
    ∷ topped_up 5 1000 (pos 200_001)
    ∷ topped_up 5 1003 (pos 900_000)
    ∷ paid 1003 1000 (pos 850_000) (some 5411)
    ∷ topped_up 5 1000 (pos 150_000)
    ∷ topped_up 5 1000 (pos 1)
    ∷ sent
    ∷ []

perform_all-requests :
    let accounts = (perform_all account_of requests start).books.ledger.accounts in
    (balance_of 1002 accounts ≡ pos 1_000_000) × (balance_of 1005 accounts ≡ pos 50_000)
unfolding register create_wallet add_rows retail_limits fps_top_up wallet wallet_account
    operator_account check_amount issue_to hand_over merchant_payment issue mint
    get_or_create_account transfer apply_transfer begin_tx settle add_entry adjust ◌+ℤ◌ ◌-ℤ◌
perform_all-requests = (refl, refl)

perform_all-IsControlled_example : IsControlled (perform_all account_of requests start)
perform_all-IsControlled_example =
    perform_all-IsControlled account_of requests start start-IsControlled

abbrev opened : Retail
opened = perform account_of (created 5 4 none 344) start

abbrev account : Account
account = record {
  id = 3;
  account_id = 1002;
  owner_type = OwnerType.wallet;
  owner_ref = 1000;
  currency = cny;
  balance = pos 0;
}

found : find (is_account_of 1000) opened.books.ledger.accounts ≡ some account
unfolding register create_wallet add_rows retail_limits get_or_create_account
found = refl

fps_top_up-ToppedUp_example :
    OnOk (ToppedUp 1000 (pos 700) opened) (fps_top_up account_of 5 1000 (pos 700) opened)
fps_top_up-ToppedUp_example =
    fps_top_up-ToppedUp account_of 5 1000 (pos 700) opened
      (perform_all-IsControlled account_of (created 5 4 none 344 ∷ []) start start-IsControlled)
      account found refl
