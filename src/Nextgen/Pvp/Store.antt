-- ===== src/Nextgen/Pvp/Store.antt =====
-- The rows of the multi-CBDC services, their states, and the session that holds them.
use swift.Prelude.{ℕ, Bool, true, false, Option, List, find, ◌==◌}
use swift.Prelude.Int.{ℤ}
use swift.Prelude.Exec.{Exec, zoom}
use swift.Ecny.Store.{Db as Ledger, Error as LedgerError}
use swift.Nextgen.Store.{Db as Platform, Error as PlatformError}

pub record Jurisdiction : Type 0 where
  pub code : ℕ
  pub currency : ℕ
  pub central_bank : ℕ
  pub data_residency : ℕ
  pub max_cross_border_amount : ℤ
  pub allowed_purposes : List ℕ
  pub active : Bool

pub data Role : Type 0 where
  central_bank commercial_bank observer operator : Role

pub record Node : Type 0 where
  pub node_id : ℕ
  pub jurisdiction : ℕ
  pub participant : ℕ
  pub role : Role

-- A decimal number: its digits over a power of ten.
pub record Decimal : Type 0 where
  pub coefficient : ℤ
  pub places : ℕ

pub record FxQuote : Type 0 where
  pub quote_id : ℕ
  pub provider : ℕ
  pub base_currency : ℕ
  pub quote_currency : ℕ
  pub rate : Decimal
  pub fee : ℤ
  pub max_amount : ℤ
  pub expires_at : ℕ
  pub active : Bool

-- The JSON of a leg, with the four keys that the code reads.
pub record Leg : Type 0 where
  pub from_account : ℕ
  pub to_account : ℕ
  pub currency : ℕ
  pub amount : ℤ

pub data PvpState : Type 0 where
  created locked committed aborted : PvpState

pub data PvpError : Type 0 where
  bad_role no_jurisdiction invalid_rate invalid_quote quote_inactive over_capacity bad_amount :
      PvpError
  legs_mismatch version_conflict source_mismatch already_committed no_result integrity_error :
      PvpError
  ledger_raised : LedgerError → PvpError
  platform_raised : PlatformError → PvpError

-- The reason of an abort is the caller's text, or that of the error.
pub data Failure : Type 0 where
  given : ℕ → Failure
  raised : PvpError → Failure

pub record Pvp : Type 0 where
  pub pvp_id : ℕ
  pub quote_id : ℕ
  pub debit_leg : Leg
  pub credit_leg : Leg
  pub state : PvpState
  pub version : ℕ
  pub failure_reason : Option Failure

-- The session. The clock is the platform's.
pub record Desk : Type 0 where
  pub ledger : Ledger
  pub platform : Platform
  pub jurisdictions : List Jurisdiction
  pub nodes : List Node
  pub quotes : List FxQuote
  pub pvps : List Pvp

abbrev pub PvpSession : Type 0 → Type 0
PvpSession A = Exec Desk PvpError A

abbrev pub on_ledger : {A : Type 0} → Exec Ledger LedgerError A → PvpSession A
on_ledger m = zoom Desk.ledger (λ l desk. record desk { ledger = l }) ledger_raised m

abbrev pub on_platform : {A : Type 0} → Exec Platform PlatformError A → PvpSession A
on_platform m = zoom Desk.platform (λ p desk. record desk { platform = p }) platform_raised m

abbrev pub is_created : PvpState → Bool
is_created PvpState.created = true
is_created _ = false

abbrev pub is_locked : PvpState → Bool
is_locked PvpState.locked = true
is_locked _ = false

abbrev pub is_committed : PvpState → Bool
is_committed PvpState.committed = true
is_committed _ = false

abbrev pub find_jurisdiction : ℕ → List Jurisdiction → Option Jurisdiction
find_jurisdiction code js = find (λ j. j.code == code) js
