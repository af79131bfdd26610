-- ===== src/Production/LimitReservation.antt =====
-- backend/production/limit_reservation.py: reservations against a daily limit and an exposure
-- limit. A row is referred to by its scope, the columns that its unique constraint names,
-- so that `one_or_none` is `find`. The CHECK constraints and the width of the columns are left out.
pub mod Rows
pub mod Bounds
pub mod Admission
mod Tests
use swift.Prelude.{
  ℕ, ◌+◌, Bool, true, false, ◌&&◌, ◌||◌, Option, none, some, List, [], ◌∷◌, ◌++◌, find,
  update_found, ◌==◌, if◌then◌else◌,
}
use swift.Prelude.Int.{ℤ, pos, ◌+ℤ◌, ◌-ℤ◌, leb_ℤ, ltb_ℤ}
use swift.Prelude.Exec.{Exec, pure, gets, raise_if, or_raise, modify, ◌>>=◌, ◌>>◌}

-- The columns of a counter; a position has all of them but the service and the date.
pub record Scope : Type 0 where
  pub tenant : ℕ
  pub participant : ℕ
  pub service : ℕ
  pub corridor : ℕ
  pub currency : ℕ
  pub business_date : ℕ

pub record LimitCounter : Type 0 where
  pub scope : Scope
  pub reserved : ℤ
  pub consumed : ℤ
  pub version : ℕ

pub record ExposurePosition : Type 0 where
  pub scope : Scope
  pub exposure : ℤ
  pub version : ℕ

pub record Limits : Type 0 where
  pub counters : List LimitCounter
  pub positions : List ExposurePosition

pub data LimitError : Type 0 where
  not_positive daily_exceeded exposure_exceeded invalid_release invalid_exposure no_row : LimitError

abbrev pub LimitSession : Type 0 → Type 0
LimitSession A = Exec Limits LimitError A

abbrev pub same_position : Scope → Scope → Bool
same_position s t =
    s.tenant == t.tenant
    && s.participant == t.participant
    && s.corridor == t.corridor
    && s.currency == t.currency

abbrev pub same_scope : Scope → Scope → Bool
same_scope s t = same_position s t && s.service == t.service && s.business_date == t.business_date

abbrev pub find_counter : Scope → List LimitCounter → Option LimitCounter
find_counter scope counters = find (λ c. same_scope c.scope scope) counters

abbrev pub find_position : Scope → List ExposurePosition → Option ExposurePosition
find_position scope positions = find (λ p. same_position p.scope scope) positions

abbrev pub write_counter : Scope → (LimitCounter → LimitCounter) → LimitSession Unit
write_counter scope f =
    modify
      (λ db. record db { counters = update_found (λ c. same_scope c.scope scope) f db.counters })

abbrev pub write_position : Scope → (ExposurePosition → ExposurePosition) → LimitSession Unit
write_position scope f =
    modify (λ db. record db {
      positions = update_found (λ p. same_position p.scope scope) f db.positions;
    })

abbrev pub fresh_counter : Scope → LimitCounter
fresh_counter scope = record { scope = scope; reserved = pos 0; consumed = pos 0; version = 1 }

abbrev pub fresh_position : Scope → ExposurePosition
fresh_position scope = record { scope = scope; exposure = pos 0; version = 1 }

-- The row that the query found, or a new one.
abbrev pub counter_or_new : Scope → Option LimitCounter → LimitSession LimitCounter
counter_or_new scope (some c) = pure c
counter_or_new scope none = do
  modify (λ db. record db { counters = db.counters ++ fresh_counter scope ∷ [] })
  pure (fresh_counter scope)

abbrev pub position_or_new : Scope → Option ExposurePosition → LimitSession ExposurePosition
position_or_new scope (some p) = pure p
position_or_new scope none = do
  modify (λ db. record db { positions = db.positions ++ fresh_position scope ∷ [] })
  pure (fresh_position scope)

abbrev pub exceeds : ℤ → Option ℤ → Bool
exceeds amount none = false
exceeds amount (some limit) = ltb_ℤ limit amount

abbrev pub exposed : ℤ → ExposurePosition → ExposurePosition
exposed amount p = record p { exposure = p.exposure +ℤ amount; version = p.version + 1 }

abbrev pub unexposed : ℤ → ExposurePosition → ExposurePosition
unexposed amount p = record p { exposure = p.exposure -ℤ amount; version = p.version + 1 }

abbrev pub reserved_more : ℤ → LimitCounter → LimitCounter
reserved_more amount c = record c { reserved = c.reserved +ℤ amount; version = c.version + 1 }

abbrev pub reserved_less : ℤ → LimitCounter → LimitCounter
reserved_less amount c = record c { reserved = c.reserved -ℤ amount; version = c.version + 1 }

-- The amount leaves the reservation, and is consumed if the flag says so.
abbrev pub settled : Bool → ℤ → LimitCounter → LimitCounter
settled consumed amount c = record c {
  reserved = c.reserved -ℤ amount;
  consumed = if consumed then c.consumed +ℤ amount else c.consumed;
  version = c.version + 1;
}

-- The branch on `exposure_limit_minor`.
unfoldable pub expose : Scope → ℤ → Option ℤ → LimitSession (Option Scope)
expose scope amount none = pure none
expose scope amount (some limit) = do
  found ← gets (λ db. find_position scope db.positions)
  position ← position_or_new scope found
  raise_if (ltb_ℤ limit (position.exposure +ℤ amount)) exposure_exceeded
  write_position scope (exposed amount)
  pure (some scope)

-- It returns the two rows, the position only if there is a limit on exposure.
unfoldable pub reserve : Scope → ℤ → Option ℤ → Option ℤ → LimitSession (Scope × Option Scope)
reserve scope amount daily_limit exposure_limit = do
  raise_if (leb_ℤ amount (pos 0)) not_positive
  found ← gets (λ db. find_counter scope db.counters)
  counter ← counter_or_new scope found
  raise_if (exceeds (counter.reserved +ℤ counter.consumed +ℤ amount) daily_limit) daily_exceeded
  position ← expose scope amount exposure_limit
  write_counter scope (reserved_more amount)
  pure (scope, position)

-- The branch on `position is not None`.
unfoldable pub cover : Option Scope → ℤ → LimitSession Unit
cover none amount = pure tt
cover (some scope) amount = do
  found ← gets (λ db. find_position scope db.positions)
  position ← or_raise found no_row
  raise_if (ltb_ℤ position.exposure amount) invalid_exposure
  write_position scope (unexposed amount)

-- `release` and `finalize` differ in what they write to the counter, and in the words of their
-- errors, which are one here.
abbrev pub leave_reservation :
    Scope → Option Scope → ℤ → (LimitCounter → LimitCounter) → LimitSession Unit
leave_reservation scope position amount write = do
  found ← gets (λ db. find_counter scope db.counters)
  counter ← or_raise found no_row
  raise_if (leb_ℤ amount (pos 0) || ltb_ℤ counter.reserved amount) invalid_release
  write_counter scope write
  cover position amount

unfoldable pub release : Scope → Option Scope → ℤ → LimitSession Unit
release scope position amount = leave_reservation scope position amount (reserved_less amount)

unfoldable pub finalize : Scope → Option Scope → ℤ → Bool → LimitSession Unit
finalize scope position amount consumed =
    leave_reservation scope position amount (settled consumed amount)
