-- ===== src/Nextgen/Programs.antt =====
-- backend/nextgen/cbdc.py, `ProgrammableMoneyService`: instruments that hold money in an escrow
-- account and pay it out when the conditions of their template hold.
pub mod Templates
pub mod Escrow
pub mod Payouts
pub mod Accounting
pub mod Keys
pub mod Conservation
mod Tests
use swift.Prelude.{
  ℕ, ◌+◌, Bool, true, false, not, ◌||◌, ◌&&◌, Option, none, some, List, [], ◌∷◌, ◌++◌, find, select,
  update_found, ◌==◌, if◌then◌else◌,
}
use swift.Prelude.Int.{ℤ, pos, ◌-ℤ◌, leb_ℤ, ltb_ℤ, eqb_ℤ}
use swift.Prelude.Exec.{Exec, zoom, pure, gets, raise_if, or_raise, modify, ◌>>=◌, ◌>>◌}
use swift.Ecny.Store.{
  Db as Ledger, Error as LedgerError, Account, OwnerType, cny, is_wallet, new_id,
}
use swift.Ecny.Ledger.{get_or_create_account, transfer}
use swift.Nextgen.Offline.{only}
use swift.Nextgen.Programs.Templates.{
  Template, is_supported, Conditions, Context, validate_conditions, allows,
}

pub data InstrumentStatus : Type 0 where
  active spent refunded : InstrumentStatus

pub record Instrument : Type 0 where
  pub instrument_id : ℕ
  pub template : Template
  pub owner_wallet : ℕ
  pub amount : ℤ
  pub conditions : Conditions
  pub status : InstrumentStatus

pub record Programs : Type 0 where
  pub ledger : Ledger
  pub instruments : List Instrument

pub data ProgramError : Type 0 where
  unsupported_template amount_not_positive missing_conditions no_wallet_account no_result not_active
        invalid_amount key_error not_satisfied not_refundable :
      ProgramError
  ledger_raised : LedgerError → ProgramError

abbrev pub ProgramSession : Type 0 → Type 0
ProgramSession A = Exec Programs ProgramError A

abbrev pub on_ledger : {A : Type 0} → Exec Ledger LedgerError A → ProgramSession A
on_ledger m = zoom Programs.ledger (λ l programs. record programs { ledger = l }) ledger_raised m

abbrev pub is_active : InstrumentStatus → Bool
is_active InstrumentStatus.active = true
is_active _ = false

abbrev pub is_program_escrow : OwnerType → Bool
is_program_escrow OwnerType.program_escrow = true
is_program_escrow _ = false

abbrev pub find_instrument : ℕ → List Instrument → Option Instrument
find_instrument instrument_id instruments = find (λ p. p.instrument_id == instrument_id) instruments

-- `_wallet_account`
unfoldable pub wallet_account : ℕ → ProgramSession Account
wallet_account wallet_id = do
  found ← gets (λ programs.
      find (λ a. is_wallet a.owner_type && a.owner_ref == wallet_id && a.currency == cny)
        programs.ledger.accounts)
  or_raise found no_wallet_account

unfoldable pub escrow_account : ℕ → ProgramSession Account
escrow_account instrument_id = do
  found ← gets (λ programs. only (
      select (λ a. is_program_escrow a.owner_type && a.owner_ref == instrument_id)
        programs.ledger.accounts))
  or_raise found no_result

unfoldable pub create : ℕ → ℤ → Template → Conditions → ProgramSession ℕ
create owner_wallet amount template conditions = do
  raise_if (not (is_supported template)) unsupported_template
  raise_if (leb_ℤ amount (pos 0)) amount_not_positive
  raise_if (not (validate_conditions template conditions)) missing_conditions
  instrument_id ← on_ledger new_id
  account_id ← on_ledger new_id
  escrow ← on_ledger (get_or_create_account account_id OwnerType.program_escrow instrument_id cny)
  source ← wallet_account owner_wallet
  on_ledger (transfer source.account_id escrow.account_id amount)
  modify (λ programs. record programs {
    instruments =
        programs.instruments
        ++ record {
          instrument_id = instrument_id;
          template = template;
          owner_wallet = owner_wallet;
          amount = amount;
          conditions = conditions;
          status = InstrumentStatus.active;
        }
          ∷ [];
  })
  pure instrument_id

-- An assignment to the amount and the status of an instrument that a query has found.
abbrev pub set_amount : ℕ → ℤ → InstrumentStatus → ProgramSession Unit
set_amount instrument_id amount status = modify (λ programs. record programs {
  instruments =
      update_found (λ p. p.instrument_id == instrument_id)
        (λ p. record p { amount = amount; status = status }) programs.instruments;
})

-- The transfer out of the escrow account, and what is written of the instrument.
unfoldable pub pay_out : ℕ → ℕ → ℤ → ℤ → InstrumentStatus → ProgramSession ℕ
pay_out instrument_id destination_wallet amount left status = do
  escrow ← escrow_account instrument_id
  target ← wallet_account destination_wallet
  tx_id ← on_ledger (transfer escrow.account_id target.account_id amount)
  set_amount instrument_id left status
  pure tx_id

abbrev pub status_after : Instrument → ℤ → InstrumentStatus
status_after instrument amount =
    if eqb_ℤ (instrument.amount -ℤ amount) (pos 0)
    then InstrumentStatus.spent
    else instrument.status

unfoldable pub execute : ℕ → ℕ → ℤ → Context → ProgramSession ℕ
execute instrument_id destination_wallet amount context = do
  found ← gets (λ programs. find_instrument instrument_id programs.instruments)
  instrument ← or_raise found no_result
  raise_if (not (is_active instrument.status)) not_active
  raise_if (leb_ℤ amount (pos 0) || ltb_ℤ instrument.amount amount) invalid_amount
  now ← gets (λ programs. programs.ledger.now)
  allowed ← or_raise (allows instrument.template instrument.conditions amount context now) key_error
  raise_if (not allowed) not_satisfied
  pay_out instrument_id destination_wallet amount (instrument.amount -ℤ amount)
      (status_after instrument amount)

unfoldable pub refund : ℕ → ProgramSession ℕ
refund instrument_id = do
  found ← gets (λ programs. find_instrument instrument_id programs.instruments)
  instrument ← or_raise found no_result
  raise_if (not (is_active instrument.status)) not_refundable
  pay_out instrument_id instrument.owner_wallet instrument.amount (pos 0) InstrumentStatus.refunded
