-- ===== src/Production/Ledger/Holds.antt =====
-- backend/production/funding_service.py: `HoldService`, holds on accounts of the subledger.
use swift.Prelude.{
  ℕ, ◌+◌, Bool, true, false, not, ◌&&◌, Option, none, some, List, [], ◌∷◌, ◌++◌, find, select,
  update_found, is_some, leb, ◌==◌, if◌then◌else◌,
}
use swift.Prelude.Int.{ℤ, pos, ◌-ℤ◌, leb_ℤ, ltb_ℤ}
use swift.Prelude.Exec.{pure, gets, raise_if, or_raise, modify, ◌>>=◌, ◌>>◌}
use swift.Production.Ledger.{
  Account, HoldState, Hold, BooksSession, find_account, find_active, write_account, set_aside,
  no_result, insufficient, hold_not_positive, hold_exists, hold_version, invalid_hold_transition,
}

abbrev pub find_hold : ℕ → List Hold → Option Hold
find_hold id holds = find (λ h. h.hold_id == id) holds

abbrev pub is_held : HoldState → Bool
is_held HoldState.held = true
is_held _ = false

-- The states that a transition may lead to, and those that free the funds.
abbrev pub is_target : HoldState → Bool
is_target HoldState.held = false
is_target _ = true

abbrev pub frees : HoldState → Bool
frees HoldState.held = false
frees HoldState.unknown = false
frees _ = true

abbrev pub in_currency : ℕ → Option Account → Option Account
in_currency currency none = none
in_currency currency (some a) = if a.currency == currency then some a else none

unfoldable pub create : ℕ → ℕ → ℤ → ℕ → Option ℕ → BooksSession ℕ
create hold_id account_id amount currency expires_at = do
  raise_if (leb_ℤ amount (pos 0)) hold_not_positive
  found ← gets (λ db. in_currency currency (find_active account_id db.accounts))
  account ← or_raise found insufficient
  raise_if (ltb_ℤ (account.balance -ℤ account.reserved) amount) insufficient
  current ← gets (λ db. find_hold hold_id db.holds)
  raise_if (is_some current) hold_exists
  write_account account_id (set_aside amount)
  modify (λ db. record db {
    holds =
        db.holds
        ++ record {
          hold_id = hold_id;
          account_id = account_id;
          amount = amount;
          currency = currency;
          state = HoldState.held;
          expires_at = expires_at;
          external_reference = none;
          version = 1;
        }
          ∷ [];
  })
  pure hold_id

abbrev pub set_free : ℤ → Account → Account
set_free amount a = record a { reserved = a.reserved -ℤ amount }

unfoldable pub free_funds : Hold → BooksSession Unit
free_funds hold = do
  found ← gets (λ db. find_account hold.account_id db.accounts)
  account ← or_raise found no_result
  write_account hold.account_id (set_free hold.amount)

unfoldable pub transition : ℕ → HoldState → ℕ → BooksSession ℕ
transition hold_id state expected_version = do
  found ← gets (λ db. find_hold hold_id db.holds)
  hold ← or_raise found hold_version
  raise_if (not (hold.version == expected_version)) hold_version
  raise_if (not (is_target state && is_held hold.state)) invalid_hold_transition
  (if frees state then free_funds hold else pure tt)
  modify (λ db. record db {
    holds =
        update_found (λ h. h.hold_id == hold_id)
          (λ h. record h { state = state; version = h.version + 1 }) db.holds;
  })
  pure hold_id

abbrev pub is_past : Option ℕ → ℕ → Bool
is_past none now = false
is_past (some t) now = leb t now

abbrev pub expiry_state : Option ℕ → HoldState
expiry_state none = HoldState.unknown
expiry_state (some reference) = HoldState.expired

unfoldable pub expire_each : List Hold → BooksSession (List ℕ)
expire_each [] = pure []
expire_each (h ∷ rest) = do
  id ← transition h.hold_id (expiry_state h.external_reference) h.version
  others ← expire_each rest
  pure (id ∷ others)

unfoldable pub expire_due : ℕ → BooksSession (List ℕ)
expire_due now = do
  due ← gets (λ db. select (λ h. is_held h.state && is_past h.expires_at now) db.holds)
  expire_each due
