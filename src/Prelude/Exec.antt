-- ===== src/Prelude/Exec.antt =====
-- A call that reads and writes a session and may raise. What was written before a raise stays in
-- the session, so the state comes back beside the error too.
pub mod Keeps
pub mod Returns
use mathlib.Core.Bool.{Bool}
use mathlib.Core.Option.{Option, none, some}
use swift.Prelude.Tests.{if◌then◌else◌}

pub data Result {ℓ} (E A : Type ℓ) : Type ℓ where
  ok : A → Result E A
  err : E → Result E A

abbrev pub Exec {ℓ} : Type ℓ → Type ℓ → Type ℓ → Type ℓ
Exec S E A = S → Result E A × S

module _ {ℓ} {S E A : Type ℓ} where
  abbrev pub pure : A → Exec S E A
  pure a s = (ok a, s)

  abbrev pub raise : E → Exec S E A
  raise e s = (err e, s)

  abbrev pub gets : (S → A) → Exec S E A
  gets f s = (ok (f s), s)

  abbrev pub lift : Result E A → Exec S E A
  lift r s = (r, s)

  abbrev pub or_raise : Option A → E → Exec S E A
  or_raise none e s = (err e, s)
  or_raise (some a) e s = (ok a, s)

module _ {S E : Type 0} where
  abbrev pub raise_if : Bool → E → Exec S E (Unit {0})
  raise_if c e s = (if c then err e else ok tt, s)

  abbrev pub modify : (S → S) → Exec S E (Unit {0})
  modify f s = (ok tt, f s)

-- The rest of a block after the result `r` of its first step.
abbrev pub continue {ℓ} : {S E A B : Type ℓ} → Result E A → (A → Exec S E B) → Exec S E B
continue (ok a) f s = f a s
continue (err e) f s = (err e, s)

infixl 5 ◌>>=◌ ◌>>◌
abbrev pub ◌>>=◌ {ℓ} : {S E A B : Type ℓ} → Exec S E A → (A → Exec S E B) → Exec S E B
◌>>=◌ m f s = let (r, s') = m s in continue r f s'

abbrev pub ◌>>◌ {ℓ} : {S E A B : Type ℓ} → Exec S E A → Exec S E B → Exec S E B
m >> k = m >>= λ _. k

abbrev pub map_error {ℓ} : {E F A : Type ℓ} → (E → F) → Result E A → Result F A
map_error convert (ok a) = ok a
map_error convert (err e) = err (convert e)

-- `try: m except E as e: raise convert(e)`
abbrev pub rethrow {ℓ} : {S E F A : Type ℓ} → (E → F) → Exec S E A → Exec S F A
rethrow convert m s = let (r, s') = m s in (map_error convert r, s')

-- A request whose session is committed when it returns, and rolled back when it raises.
abbrev pub commit {ℓ} : {S E A : Type ℓ} → S → Result E A → S → Result E A × S
commit before (ok a) after = (ok a, after)
commit before (err e) after = (err e, before)

abbrev pub atomic {ℓ} : {S E A : Type ℓ} → Exec S E A → Exec S E A
atomic m s = let (r, s') = m s in commit s r s'

-- The result of a call, as a value, for a handler to look at.
abbrev pub attempt {ℓ} : {S E F A : Type ℓ} → Exec S E A → Exec S F (Result E A)
attempt m s = let (r, s') = m s in (ok r, s')

-- `try: m finally: last`. An error of `last` replaces the result of `m`.
abbrev pub leave {ℓ} : {S E A B : Type ℓ} → Result E A → Result E B × S → Result E A × S
leave r (ok b, s) = (r, s)
leave r (err e, s) = (err e, s)

abbrev pub finally {ℓ} : {S E A B : Type ℓ} → Exec S E A → Exec S E B → Exec S E A
finally m last s = let (r, s') = m s in leave r (last s')

-- A call on one part of the session.
abbrev pub zoom {ℓ} :
    {S T E F A : Type ℓ} → (S → T) → (T → S → S) → (E → F) → Exec T E A → Exec S F A
zoom get put convert m s = let (r, t) = m (get s) in (map_error convert r, put t s)
