-- ===== src/Production/Ledger/Tests.antt =====
-- The theorems on a small set of books: cash, a deposit, a journal, its reversal, and funds that
-- are set aside.
use swift.Prelude.{ℕ, ◌+◌, ◌≡◌, refl, none, some, List, [], ◌∷◌}
use swift.Prelude.Int.{pos, negsuc, ◌+ℤ◌, ◌-ℤ◌}
use swift.Prelude.Exec.{◌>>◌}
use swift.Prelude.Exec.Keeps.{OnOk}
use swift.Production.Ledger.{
  debit, credit, asset, liability, Item, given, Books, HoldState, post_journal, create_account,
  reserve, consume, normal_balance, apply_items, check_items, insert_entries, insert_journal,
  validate_entries, sum_if, reserve_new, consume_reserved,
}
use swift.Production.Ledger.Journals.{reverse_journal}
use swift.Production.Ledger.Rows.{sum}
use swift.Production.Ledger.Posting.{balance_of}
use swift.Production.Ledger.Equation.{equation, InBalance}
use swift.Production.Ledger.Requests.{
  Request, opened, reserved_for, consumed, held, hold_moved, posted, reversed, perform_all,
}
use swift.Production.Ledger.DoubleEntry.{perform_all-InBalance}
use swift.Production.Ledger.Reserving.{IsReserved}
use swift.Production.Ledger.ReservedRequests.{perform_all-IsReserved}
use swift.Production.Ledger.Undo.{reverse-post}

abbrev digest_of : List Item → ℕ
digest_of items = 7

abbrev sub_id_of : ℕ → ℕ → ℕ
sub_id_of journal_id currency = journal_id + currency

abbrev empty : Books
empty = record {
  accounts = [];
  reservations = [];
  holds = [];
  journals = [];
  entries = [];
  templates = [];
  ids = λ n. 1000 + n;
  drawn = 0;
}

abbrev usd : ℕ
usd = 840

abbrev deposit : List Item
deposit =
    record { account_id = 1; direction = debit; currency = usd; amount = pos 90 }
    ∷ record { account_id = 2; direction = credit; currency = usd; amount = pos 90 }
    ∷ []

abbrev funded : List Request
funded =
    opened 1 5 6 usd (some asset) (pos 0)
    ∷ opened 2 5 6 usd (some liability) (pos 0)
    ∷ posted 10 5 6 (given 3) deposit none
    ∷ []

abbrev used : List Request
used =
    reserved_for 1 20 (pos 40) usd
    ∷ held 1 30 (pos 50) usd none
    ∷ held 30 1 (pos 50) usd none
    ∷ hold_moved 30 HoldState.unknown 1
    ∷ consumed 20
    ∷ reversed 10 11 (some 1) (some 2) (some 3)
    ∷ []

perform_all-InBalance_example :
    InBalance (λ c. pos 0) (perform_all digest_of sub_id_of funded empty)
unfolding sum
perform_all-InBalance_example =
    perform_all-InBalance digest_of sub_id_of funded empty (refl, (refl, (tt, tt)))
      record { nonneg = tt; equal = λ c. refl }

perform_all-IsReserved_example :
    IsReserved (perform_all digest_of sub_id_of used (perform_all digest_of sub_id_of funded empty))
unfolding sum ◌+ℤ◌
perform_all-IsReserved_example =
    perform_all-IsReserved digest_of sub_id_of used (perform_all digest_of sub_id_of funded empty) (
      perform_all-IsReserved digest_of sub_id_of funded empty
        record { exact = λ j. refl; amounts = tt; hold_amounts = tt })

abbrev opened_books : Books
opened_books =
    perform_all digest_of sub_id_of
      (opened 1 5 6 usd (some asset) (pos 0) ∷ opened 2 5 6 usd (some liability) (pos 0) ∷ []) empty

reverse-post_example :
    OnOk
      (λ t. (j : ℕ) → balance_of j t.accounts ≡ balance_of j opened_books.accounts)
      ((post_journal digest_of 10 5 6 (given 3) deposit none
          >> reverse_journal digest_of sub_id_of 10 11 (some 1) (some 2) (some 3))
        opened_books)
unfolding create_account
reverse-post_example =
    reverse-post digest_of sub_id_of 10 5 6 (given 3) deposit none 11 (some 1) (some 2) (some 3)
      opened_books refl

-- The deposit is reversed as a whole.
reversed_balance :
    balance_of 1
      (perform_all digest_of sub_id_of
        (reversed 10 11 (some 1) (some 2) (some 3) ∷ [])
        (perform_all digest_of sub_id_of funded empty)).accounts
    ≡ pos 0
unfolding create_account post_journal validate_entries check_items apply_items insert_journal
    insert_entries normal_balance sum_if reverse_journal ◌+ℤ◌ ◌-ℤ◌
reversed_balance = refl

-- Consumption takes from one account only: the equation falls by what is consumed.
consumed_equation :
    equation usd
      (perform_all digest_of sub_id_of
        (reserved_for 1 20 (pos 40) usd ∷ consumed 20 ∷ [])
        (perform_all digest_of sub_id_of funded empty)).accounts
    ≡ negsuc 39
unfolding create_account post_journal validate_entries check_items apply_items insert_journal
    insert_entries normal_balance sum_if sum reserve reserve_new consume consume_reserved ◌+ℤ◌ ◌-ℤ◌
consumed_equation = refl
