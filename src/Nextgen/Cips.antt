-- ===== src/Nextgen/Cips.antt =====
-- backend/nextgen/cips.py, `CipsService`: participants, accounts, and settlement in RTGS and DNS.
pub mod Accounts
pub mod Netting
pub mod Positions
pub mod Solvency
pub mod Batches
pub mod Conservation
pub mod Routing
pub mod Tests
use swift.Prelude.{
  ℕ, ◌+◌, Bool, true, false, not, ◌&&◌, Option, none, some, List, [], ◌∷◌, ◌++◌, map, find, select,
  update, is_some, ◌==◌, if◌then◌else◌,
}
use swift.Prelude.Int.{ℤ, pos, ◌+ℤ◌, ◌-ℤ◌, ltb_ℤ, leb_ℤ}
use swift.Prelude.Exec.{pure, raise, gets, raise_if, or_raise, modify, finally, ◌>>=◌, ◌>>◌}
use swift.Nextgen.Store.{
  Participant, CipsAccount, Mode, rtgs, dns, Settlement, LensEvent, Topic, Db, Error, no_result,
  duplicate_participant, negative_balance, not_direct, amount_not_positive, account_not_found,
  no_queued_settlements, insufficient_dns_liquidity, Session, new_id,
}
use swift.Nextgen.Runtime.{enqueue, acquire, release}
use swift.Nextgen.Payments.{add_lens}
use swift.Nextgen.Cips.Accounts.{settlement_account, update_first, pay, receive}

-- The currency `CNY`, by its ISO 4217 number.
abbrev pub cny : ℕ
cny = 156

abbrev pub find_participant : ℕ → List Participant → Option Participant
find_participant participant_id participants =
    find (λ p. p.participant_id == participant_id) participants

-- The capability `RTGS`. Names of capabilities are numbers.
abbrev rtgs_capability : ℕ
rtgs_capability = 1

-- `capabilities or ["RTGS"]`
abbrev capabilities_or_rtgs : List ℕ → List ℕ
capabilities_or_rtgs [] = rtgs_capability ∷ []
capabilities_or_rtgs (c ∷ rest) = c ∷ rest

-- The name, the LEI and the settlement hours, which the code only stores, are left out; `direct`
-- stands for a type that is one of the two, and `country` for the name in upper case. The order of
-- the capabilities and repetitions among them do not matter where they are read.
unfoldable pub register_participant : ℕ → Bool → ℕ → Option ℕ → List ℕ → Session ℕ
register_participant participant_id direct country bic capabilities = do
  found ← gets (λ db. find_participant participant_id db.participants)
  raise_if (is_some found) duplicate_participant
  modify (λ db. record db {
    participants =
        db.participants
        ++ record {
          participant_id = participant_id;
          direct = direct;
          bic = bic;
          country = country;
          capabilities = capabilities_or_rtgs capabilities;
          active = true;
        }
          ∷ [];
  })
  pure participant_id

unfoldable pub open_account : ℕ → ℤ → ℕ → Session ℕ
open_account participant_id initial_balance currency = do
  raise_if (ltb_ℤ initial_balance (pos 0)) negative_balance
  found ← gets (λ db. find_participant participant_id db.participants)
  participant ← or_raise found no_result
  raise_if (not participant.direct) not_direct
  account_id ← new_id
  modify (λ db. record db {
    accounts =
        db.accounts
        ++ record {
          account_id = account_id;
          participant_id = participant_id;
          balance = initial_balance;
          reserved = pos 0;
          currency = currency;
          version = 1;
        }
          ∷ [];
  })
  pure account_id

-- `_account`
unfoldable pub account : ℕ → ℕ → Session CipsAccount
account participant_id currency = do
  found ← gets (λ db. settlement_account participant_id currency db.accounts)
  or_raise found account_not_found

abbrev pub find_settlement : ℕ → List Settlement → Option Settlement
find_settlement settlement_id settlements = find (λ s. s.settlement_id == settlement_id) settlements

unfoldable pub mark_settled : ℕ → Session Unit
mark_settled settlement_id = modify (λ db. record db {
  settlements =
      update (λ s. s.settlement_id == settlement_id)
        (λ s. record s { settled = true; settled_at = some db.now }) db.settlements;
})

-- The branch without liquidity, and the one that moves the money. The result tells whether the
-- settlement is settled.
unfoldable pub stay_queued : Settlement → Session Bool
stay_queued settlement = do
  modify (λ db. record db {
    settlements =
        update (λ s. s.settlement_id == settlement.settlement_id)
          (λ s. record s { settled = false }) db.settlements;
  })
  add_lens settlement.uetr LensEvent.no_liquidity
  pure false

unfoldable pub move_funds : Settlement → Session Bool
move_funds settlement = do
  modify (λ db. record db {
    accounts =
        update_first settlement.debtor_participant settlement.currency (pay settlement.amount)
          db.accounts;
  })
  modify (λ db. record db {
    accounts =
        update_first settlement.creditor_participant settlement.currency (receive settlement.amount)
          db.accounts;
  })
  mark_settled settlement.settlement_id
  add_lens settlement.uetr LensEvent.rtgs_settled
  enqueue Topic.cips_settled settlement.uetr
  pure true

unfoldable pub attempt_rtgs : Settlement → Session Bool
attempt_rtgs settlement = do
  debtor ← account settlement.debtor_participant settlement.currency
  creditor ← account settlement.creditor_participant settlement.currency
  (if ltb_ℤ (debtor.balance -ℤ debtor.reserved) settlement.amount
      then stay_queued settlement
      else move_funds settlement)

abbrev pub rtgs_lease_seconds : ℕ
rtgs_lease_seconds = 30

unfoldable pub with_lease : Settlement → Session Bool
with_lease settlement = do
  owner ← new_id
  token ← acquire settlement.settlement_id owner rtgs_lease_seconds
  finally (attempt_rtgs settlement) (release settlement.settlement_id token)

unfoldable pub settle_rtgs : ℕ → Session Bool
settle_rtgs settlement_id = do
  found ← gets (λ db. find_settlement settlement_id db.settlements)
  settlement ← or_raise found no_result
  (if settlement.settled then pure true else with_lease settlement)

unfoldable pub settle_at_once : Mode → ℕ → Session Bool
settle_at_once rtgs settlement_id = settle_rtgs settlement_id
settle_at_once dns settlement_id = pure false

unfoldable pub submit_settlement : ℕ → Mode → ℕ → ℕ → ℤ → ℤ → Option ℕ → Session ℕ
submit_settlement uetr mode debtor_participant creditor_participant amount priority batch_id = do
  raise_if (leb_ℤ amount (pos 0)) amount_not_positive
  settlement_id ← new_id
  modify (λ db. record db {
    settlements =
        db.settlements
        ++ record {
          settlement_id = settlement_id;
          uetr = uetr;
          mode = mode;
          debtor_participant = debtor_participant;
          creditor_participant = creditor_participant;
          amount = amount;
          currency = cny;
          priority = priority;
          settled = false;
          batch_id = batch_id;
          settled_at = none;
        }
          ∷ [];
  })
  add_lens uetr LensEvent.submitted
  settle_at_once mode settlement_id
  pure settlement_id

abbrev pub is_rtgs : Mode → Bool
is_rtgs rtgs = true
is_rtgs dns = false

-- `order_by(priority.desc(), id)` on rows that are in the order of their ids.
unfoldable pub insert_by_priority : Settlement → List Settlement → List Settlement
insert_by_priority s [] = s ∷ []
insert_by_priority s (t ∷ rest) =
    if leb_ℤ t.priority s.priority then s ∷ t ∷ rest else t ∷ insert_by_priority s rest

unfoldable pub by_priority : List Settlement → List Settlement
by_priority [] = []
by_priority (s ∷ rest) = insert_by_priority s (by_priority rest)

unfoldable pub release_each : List Settlement → Session (List ℕ)
release_each [] = pure []
release_each (s ∷ rest) = do
  settled ← settle_rtgs s.settlement_id
  others ← release_each rest
  pure (if settled then s.settlement_id ∷ others else others)

unfoldable pub release_rtgs_queue : Session (List ℕ)
release_rtgs_queue = do
  queue ← gets (λ db. by_priority (select (λ s. is_rtgs s.mode && not s.settled) db.settlements))
  release_each queue
