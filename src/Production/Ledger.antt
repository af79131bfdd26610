-- ===== src/Production/Ledger.antt =====
-- backend/production/_ledger_core.py: the accounts of the subledger, reservations of funds, and
-- the posting of journals. Templates, drafts and reversals are in Journals, the holds of
-- funding_service.py in Holds.
pub mod Store
pub mod Holds
pub mod Journals
pub mod Rows
pub mod Posting
pub mod Outcome
pub mod Equation
pub mod Balance
pub mod Requests
pub mod DoubleEntry
pub mod Reserving
pub mod ReservedFunds
pub mod HeldFunds
pub mod Undo
mod Tests
pub mod ReservedRequests
pub use Store.*
use swift.Prelude.{
  ℕ, ◌+◌, Bool, true, false, not, ◌&&◌, ◌||◌, Option, none, some, List, [], ◌∷◌, ◌++◌, length, find,
  update_found, is_some, ltb, ◌==◌, if◌then◌else◌,
}
use swift.Prelude.Int.{ℤ, pos, ◌+ℤ◌, ◌-ℤ◌, leb_ℤ, ltb_ℤ, eqb_ℤ}
use swift.Prelude.Exec.{Exec, Result, ok, pure, gets, raise_if, or_raise, modify, ◌>>=◌, ◌>>◌}

-- `NORMAL_BALANCE`
unfoldable pub normal_balance : AccountType → Direction
normal_balance asset = debit
normal_balance expense = debit
normal_balance liability = credit
normal_balance equity = credit
normal_balance income = credit
normal_balance contra = credit
normal_balance suspense = debit

-- The account type is none if its name is no key of `NORMAL_BALANCE`.
unfoldable pub create_account : ℕ → ℕ → ℕ → ℕ → Option AccountType → ℤ → BooksSession ℕ
create_account account_id legal_entity book currency account_type opening_balance = do
  raise_if (ltb_ℤ opening_balance (pos 0)) negative_opening
  kind ← or_raise account_type unsupported_type
  found ← gets (λ db. find_account account_id db.accounts)
  raise_if (is_some found) account_exists
  modify (λ db. record db {
    accounts =
        db.accounts
        ++ record {
          account_id = account_id;
          legal_entity = legal_entity;
          book = book;
          currency = currency;
          account_type = kind;
          balance = opening_balance;
          reserved = pos 0;
          version = 1;
          active = true;
        }
          ∷ [];
  })
  pure account_id

abbrev pub find_reservation : ℕ → List Reservation → Option Reservation
find_reservation id reservations = find (λ r. r.reservation_id == id) reservations

abbrev pub set_aside : ℤ → Account → Account
set_aside amount a = record a { reserved = a.reserved +ℤ amount }

-- What follows when the reservation is new.
unfoldable pub reserve_new : Account → ℕ → ℤ → ℕ → BooksSession ℕ
reserve_new account reservation_id amount currency = do
  raise_if (leb_ℤ amount (pos 0) || ltb_ℤ (account.balance -ℤ account.reserved) amount) insufficient
  write_account account.account_id (set_aside amount)
  modify (λ db. record db {
    reservations =
        db.reservations
        ++ record {
          reservation_id = reservation_id;
          funding_reference = account.account_id;
          currency = currency;
          amount = amount;
          state = ReservationState.reserved;
        }
          ∷ [];
  })
  pure reservation_id

unfoldable pub reserve : ℕ → ℕ → ℤ → ℕ → BooksSession ℕ
reserve account_id reservation_id amount currency = do
  found ← gets (λ db. find_active account_id db.accounts)
  account ← or_raise found account_unavailable
  raise_if (not (account.currency == currency)) account_unavailable
  current ← gets (λ db. find_reservation reservation_id db.reservations)
  (if is_some current
      then pure reservation_id
      else reserve_new account reservation_id amount currency)

-- `max(0, x)`
abbrev pub at_least_zero : ℤ → ℤ
at_least_zero x = if ltb_ℤ x (pos 0) then pos 0 else x

abbrev pub give_back : ℤ → Account → Account
give_back amount a = record a { reserved = at_least_zero (a.reserved -ℤ amount) }

abbrev pub spend : ℤ → Account → Account
spend amount a = record a {
  reserved = at_least_zero (a.reserved -ℤ amount);
  balance = a.balance -ℤ amount;
}

abbrev pub set_reservation : ℕ → ReservationState → BooksSession Unit
set_reservation id state = modify (λ db. record db {
  reservations =
      update_found (λ r. r.reservation_id == id) (λ r. record r { state = state }) db.reservations;
})

-- What follows the check of the state, in `release` and in `consume`.
unfoldable pub release_reserved : Reservation → BooksSession ℕ
release_reserved reservation = do
  found ← gets (λ db. find_account reservation.funding_reference db.accounts)
  account ← or_raise found no_result
  write_account account.account_id (give_back reservation.amount)
  set_reservation reservation.reservation_id ReservationState.released
  pure reservation.reservation_id

unfoldable pub consume_reserved : Reservation → BooksSession ℕ
consume_reserved reservation = do
  found ← gets (λ db. find_account reservation.funding_reference db.accounts)
  account ← or_raise found no_result
  raise_if (ltb_ℤ (account.balance -ℤ reservation.amount) (pos 0)) check_violated
  write_account account.account_id (spend reservation.amount)
  set_reservation reservation.reservation_id ReservationState.consumed
  pure reservation.reservation_id

unfoldable pub release : ℕ → BooksSession ℕ
release reservation_id = do
  found ← gets (λ db. find_reservation reservation_id db.reservations)
  reservation ← or_raise found no_result
  (if is_reserved reservation.state then release_reserved reservation else pure reservation_id)

unfoldable pub consume : ℕ → BooksSession ℕ
consume reservation_id = do
  found ← gets (λ db. find_reservation reservation_id db.reservations)
  reservation ← or_raise found no_result
  (if is_reserved reservation.state then consume_reserved reservation else pure reservation_id)

-- `sum(... if entry["direction"] == "DEBIT")`, and the same of the credits.
unfoldable pub sum_if : (Direction → Bool) → List Item → ℤ
sum_if test [] = pos 0
sum_if test (e ∷ rest) = (if test e.direction then e.amount else pos 0) +ℤ sum_if test rest

abbrev pub all_in : ℕ → List Item → Bool
all_in currency [] = true
all_in currency (e ∷ rest) = e.currency == currency && all_in currency rest

-- `len(currencies) == 1`
abbrev pub one_currency_only : List Item → Bool
one_currency_only [] = false
one_currency_only (e ∷ rest) = all_in e.currency rest

abbrev pub debits_equal_credits : List Item → Bool
debits_equal_credits entries =
    ltb_ℤ (pos 0) (sum_if is_debit entries)
    && eqb_ℤ (sum_if is_debit entries) (sum_if is_credit entries)

-- `_validate_entries`, with which `post_journal` begins too.
unfoldable pub validate_entries : List Item → BooksSession Unit
validate_entries entries = do
  raise_if (ltb (length entries) 2) too_few_entries
  raise_if (not (one_currency_only entries)) mixed_currencies
  raise_if (not (debits_equal_credits entries)) unbalanced

abbrev pub find_journal : ℕ → List Journal → Option Journal
find_journal id journals = find (λ j. j.journal_id == id) journals

abbrev pub is_valid_item : Item → Bool
is_valid_item e = ltb_ℤ (pos 0) e.amount && (is_debit e.direction || is_credit e.direction)

-- The first loop, which locks the accounts: `next(iter(currencies))` is the one currency.
unfoldable pub check_items : ℕ → List Item → BooksSession Unit
check_items currency [] = pure tt
check_items currency (e ∷ rest) = do
  raise_if (not (is_valid_item e)) invalid_entry
  found ← gets (λ db. find_active e.account_id db.accounts)
  account ← or_raise found unknown_account
  raise_if (not (account.currency == currency)) wrong_currency
  check_items currency rest

abbrev pub same_direction : Direction → Direction → Bool
same_direction debit debit = true
same_direction credit credit = true
same_direction _ _ = false

abbrev pub delta : AccountType → Item → ℤ
delta kind e =
    if same_direction e.direction (normal_balance kind) then e.amount else pos 0 -ℤ e.amount

abbrev pub post_to : Item → Account → Account
post_to e a = record a { balance = a.balance +ℤ delta a.account_type e; version = a.version + 1 }

-- The second loop. The rows are the locked ones, as the loop before has left them.
unfoldable pub apply_items : List Item → BooksSession Unit
apply_items [] = pure tt
apply_items (e ∷ rest) = do
  found ← gets (λ db. find_active e.account_id db.accounts)
  account ← or_raise found unknown_account
  raise_if (ltb_ℤ (account.balance +ℤ delta account.account_type e) (pos 0)) would_be_negative
  write_account e.account_id (post_to e)
  apply_items rest

-- The rows of the entries. CHECK constraints refuse other directions and amounts.
unfoldable pub insert_entries : ℕ → List Item → BooksSession Unit
insert_entries journal_id [] = pure tt
insert_entries journal_id (e ∷ rest) = do
  raise_if (not (is_valid_item e)) check_violated
  modify (λ db. record db {
    drawn = db.drawn + 1;
    entries =
        db.entries ++ record { entry_id = db.ids db.drawn; journal_id = journal_id; item = e } ∷ [];
  })
  insert_entries journal_id rest

unfoldable pub insert_journal : Journal → List Item → BooksSession ℕ
insert_journal journal entries = do
  modify (λ db. record db { journals = db.journals ++ journal ∷ [] })
  insert_entries journal.journal_id entries
  pure journal.journal_id

abbrev pub currency_of : List Item → ℕ
currency_of [] = 0
currency_of (e ∷ rest) = e.currency

-- `digest` is the SHA-256 of the entries' canonical JSON. The business date and the batch
-- reference, which is the identifier again, are left out.
module _ (digest : List Item → ℕ) where
  abbrev pub new_journal : ℕ → Option ℕ → ℕ → ℕ → JournalState → Reason → List Item → Journal
  new_journal journal_id order_id legal_entity book state reason entries = record {
    journal_id = journal_id;
    order_id = order_id;
    legal_entity = legal_entity;
    book = book;
    state = state;
    reason_code = reason;
    payload_hash = digest entries;
    reverses = none;
  }

  unfoldable pub post_journal : ℕ → ℕ → ℕ → Reason → List Item → Option ℕ → BooksSession ℕ
  post_journal journal_id legal_entity book reason entries order_id = do
    validate_entries entries
    found ← gets (λ db. find_journal journal_id db.journals)
    raise_if (is_some found) journal_exists
    check_items (currency_of entries) entries
    apply_items entries
    insert_journal
        (new_journal journal_id order_id legal_entity book JournalState.posted reason entries)
        entries
