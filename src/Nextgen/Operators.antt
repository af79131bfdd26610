-- ===== src/Nextgen/Operators.antt =====
-- backend/nextgen/cips.py, `EcnyOperatorService`: the operators of the e-CNY and their limits, over
-- the ledger of backend/ecny. `account_of` is the name `acct-operator-<id>` of an operator's account.
pub mod Limits
pub mod Samples
mod Tests
use swift.Prelude.{
  ℕ, Bool, true, not, ◌||◌, ◌&&◌, Option, none, some, List, [], ◌∷◌, ◌++◌, find, update_found,
  is_some, ◌==◌,
}
use swift.Prelude.Int.{ℤ, pos, pos_part, neg_part, ◌+ℤ◌, ◌-ℤ◌, leb_ℤ, ltb_ℤ}
use swift.Prelude.Exec.{Exec, map_error, pure, gets, raise_if, or_raise, modify, ◌>>=◌, ◌>>◌}
use swift.Ecny.Store.{Db as Ledger, Error as LedgerError, OwnerType, cny, find_account, is_operator}
use swift.Ecny.Ledger.{get_or_create_account, mint, burn}

pub record Operator : Type 0 where
  pub operator_id : ℕ
  pub issuance_limit : ℤ
  pub issued_amount : ℤ
  pub reserve_amount : ℤ
  pub active : Bool

pub record Books : Type 0 where
  pub ledger : Ledger
  pub operators : List Operator

pub data OperatorError : Type 0 where
  invalid_amounts operator_exists no_result not_active limit_exceeded invalid_redemption :
      OperatorError
  ledger_raised : LedgerError → OperatorError

abbrev pub OperatorSession : Type 0 → Type 0
OperatorSession A = Exec Books OperatorError A

-- A call of the ledger, in the same session.
abbrev pub on_ledger : {A : Type 0} → Exec Ledger LedgerError A → OperatorSession A
on_ledger m books =
    let (r, ledger) = m books.ledger in
    (map_error ledger_raised r, record books { ledger = ledger })

abbrev pub find_operator : ℕ → List Operator → Option Operator
find_operator operator_id operators = find (λ o. o.operator_id == operator_id) operators

abbrev pub write_operator : ℕ → (Operator → Operator) → Books → Books
write_operator operator_id f books = record books {
  operators = update_found (λ o. o.operator_id == operator_id) f books.operators;
}

abbrev pub issued_more : ℤ → Operator → Operator
issued_more amount o = record o { issued_amount = o.issued_amount +ℤ amount }

abbrev pub issued_less : ℤ → Operator → Operator
issued_less amount o = record o { issued_amount = o.issued_amount -ℤ amount }

abbrev equal_ℤ : ℤ → ℤ → Bool
equal_ℤ a b = (pos_part a == pos_part b) && (neg_part a == neg_part b)

pub record Reconciliation : Type 0 where
  pub issued_amount : ℤ
  pub ledger_balance : ℤ
  pub reserve_amount : ℤ
  pub within_limit : Bool
  pub reconciled : Bool

module _ (account_of : ℕ → ℕ) where
  unfoldable pub register : ℕ → ℤ → ℤ → OperatorSession ℕ
  register operator_id issuance_limit reserve_amount = do
    raise_if (leb_ℤ issuance_limit (pos 0) || ltb_ℤ reserve_amount (pos 0)) invalid_amounts
    found ← gets (λ books. find_operator operator_id books.operators)
    raise_if (is_some found) operator_exists
    modify (λ books. record books {
      operators =
          books.operators
          ++ record {
            operator_id = operator_id;
            issuance_limit = issuance_limit;
            issued_amount = pos 0;
            reserve_amount = reserve_amount;
            active = true;
          }
            ∷ [];
    })
    on_ledger (get_or_create_account (account_of operator_id) OwnerType.operator operator_id cny)
    pure operator_id

  unfoldable pub issue : ℕ → ℤ → OperatorSession ℕ
  issue operator_id amount = do
    found ← gets (λ books. find_operator operator_id books.operators)
    operator ← or_raise found no_result
    raise_if (not operator.active) not_active
    raise_if
        (leb_ℤ amount (pos 0) || ltb_ℤ operator.issuance_limit (operator.issued_amount +ℤ amount))
        limit_exceeded
    tx_id ← on_ledger (mint (account_of operator_id) amount)
    modify (write_operator operator_id (issued_more amount))
    pure tx_id

  unfoldable pub redeem : ℕ → ℤ → OperatorSession ℕ
  redeem operator_id amount = do
    found ← gets (λ books. find_operator operator_id books.operators)
    operator ← or_raise found no_result
    raise_if (leb_ℤ amount (pos 0) || ltb_ℤ operator.issued_amount amount) invalid_redemption
    tx_id ← on_ledger (burn (account_of operator_id) amount)
    modify (write_operator operator_id (issued_less amount))
    pure tx_id

  unfoldable pub reconcile : ℕ → OperatorSession Reconciliation
  reconcile operator_id = do
    found ← gets (λ books. find_operator operator_id books.operators)
    operator ← or_raise found no_result
    row ← gets (λ books. find_account (account_of operator_id) books.ledger.accounts)
    acct ← or_raise row no_result
    pure (record {
      issued_amount = operator.issued_amount;
      ledger_balance = acct.balance;
      reserve_amount = operator.reserve_amount;
      within_limit = leb_ℤ operator.issued_amount operator.issuance_limit;
      reconciled = equal_ℤ operator.issued_amount acct.balance;
    })
