-- ===== src/Production/Ledger/Store.antt =====
-- The rows of the subledger, their states, and the queries for an account.
use swift.Prelude.{
  ℕ, Bool, true, false, Option, none, some, List, find, update_found, ◌==◌, if◌then◌else◌,
}
use swift.Prelude.Int.{ℤ}
use swift.Prelude.Exec.{Exec, modify}

-- An entry's direction comes from the caller, so it may be any text.
pub data Direction : Type 0 where
  debit credit : Direction
  unknown_direction : ℕ → Direction

pub data AccountType : Type 0 where
  asset expense liability equity income contra suspense : AccountType

pub record Account : Type 0 where
  pub account_id : ℕ
  pub legal_entity : ℕ
  pub book : ℕ
  pub currency : ℕ
  pub account_type : AccountType
  pub balance : ℤ
  pub reserved : ℤ
  pub version : ℕ
  pub active : Bool

pub data ReservationState : Type 0 where
  pending reserved released consumed : ReservationState

pub record Reservation : Type 0 where
  pub reservation_id : ℕ
  pub funding_reference : ℕ
  pub currency : ℕ
  pub amount : ℤ
  pub state : ReservationState

pub data HoldState : Type 0 where
  held consumed released expired unknown : HoldState

pub record Hold : Type 0 where
  pub hold_id : ℕ
  pub account_id : ℕ
  pub amount : ℤ
  pub currency : ℕ
  pub state : HoldState
  pub expires_at : Option ℕ
  pub external_reference : Option ℕ
  pub version : ℕ

-- What the caller gives for an entry; a row has an identifier and its journal besides.
pub record Item : Type 0 where
  pub account_id : ℕ
  pub direction : Direction
  pub currency : ℕ
  pub amount : ℤ

pub record JournalEntry : Type 0 where
  pub entry_id : ℕ
  pub journal_id : ℕ
  pub item : Item

pub data JournalState : Type 0 where
  draft validated posted : JournalState

-- `templated t v` is the text `t:v`.
pub data Reason : Type 0 where
  given : ℕ → Reason
  reversal : Reason
  templated : ℕ → ℕ → Reason

pub record Reversal : Type 0 where
  pub reverses_journal_id : ℕ
  pub reason : ℕ
  pub approval_ref : ℕ
  pub evidence_ref : ℕ

pub record Journal : Type 0 where
  pub journal_id : ℕ
  pub order_id : Option ℕ
  pub legal_entity : ℕ
  pub book : ℕ
  pub state : JournalState
  pub reason_code : Reason
  pub payload_hash : ℕ
  pub reverses : Option Reversal

-- A template's mapping is none if its JSON is no list.
pub record Template : Type 0 where
  pub template_id : ℕ
  pub template_type : ℕ
  pub version : ℕ
  pub mapping : Option (List (ℕ × Direction))
  pub active : Bool

-- `ids` are the identifiers that uuid4 yields, `drawn` how many were used.
pub record Books : Type 0 where
  pub accounts : List Account
  pub reservations : List Reservation
  pub holds : List Hold
  pub journals : List Journal
  pub entries : List JournalEntry
  pub templates : List Template
  pub ids : ℕ → ℕ
  pub drawn : ℕ

-- `check_violated` is a failed CHECK constraint, `no_result` a `.one()` without a row.
pub data Conflict : Type 0 where
  negative_opening unsupported_type account_exists account_unavailable insufficient : Conflict
  no_result check_violated too_few_entries mixed_currencies unbalanced journal_exists : Conflict
  invalid_entry unknown_account wrong_currency would_be_negative : Conflict
  not_validateable one_currency no_clearing no_clearing_leg not_posted no_approval : Conflict
  no_template bad_mapping : Conflict
  hold_not_positive hold_exists hold_version invalid_hold_transition : Conflict

abbrev pub BooksSession : Type 0 → Type 0
BooksSession A = Exec Books Conflict A

abbrev pub is_debit : Direction → Bool
is_debit debit = true
is_debit _ = false

abbrev pub is_credit : Direction → Bool
is_credit credit = true
is_credit _ = false

abbrev pub is_reserved : ReservationState → Bool
is_reserved ReservationState.reserved = true
is_reserved _ = false

abbrev pub find_account : ℕ → List Account → Option Account
find_account id accounts = find (λ a. a.account_id == id) accounts

-- `account_id` is unique, so `filter_by(account_id=..., active=True)` finds this row.
abbrev pub if_active : Option Account → Option Account
if_active none = none
if_active (some a) = if a.active then some a else none

abbrev pub find_active : ℕ → List Account → Option Account
find_active id accounts = if_active (find_account id accounts)

abbrev pub write_account : ℕ → (Account → Account) → BooksSession Unit
write_account id f =
    modify (λ db. record db { accounts = update_found (λ a. a.account_id == id) f db.accounts })
