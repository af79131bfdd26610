-- ===== src/Prelude/Exec/Keeps.antt =====
-- Invariants of calls: what holds before a call holds after it, if it returns. There is one rule
-- for each way to build a call.
use mathlib.Core.Bool.{Bool, true, false}
use mathlib.Core.Option.{Option, none, some}
use swift.Prelude.Tests.{if◌then◌else◌}
use swift.Prelude.Exec.{
  Result, ok, err, Exec, pure, raise, gets, or_raise, raise_if, modify, rethrow, map_error, commit,
  atomic, continue, leave, finally, zoom, ◌>>=◌,
}

abbrev pub OnOk {ℓ} : {S E A : Type ℓ} → (S → Type ℓ) → Result E A × S → Type ℓ
OnOk P (ok a, s) = P s
OnOk P (err e, s) = Unit

pub record Keeps {S E A : Type 0} (P : S → Type 0) (m : Exec S E A) : Type 0 where
  pub at : (s : S) → P s → OnOk P (m s)

module _ {S E A : Type 0} {P : S → Type 0} where
  pub Keeps-pure : (a : A) → Keeps {E = E} P (pure a)
  Keeps-pure a = record { at = λ s h. h }

  pub Keeps-raise : (e : E) → Keeps {A = A} P (raise e)
  Keeps-raise e = record { at = λ s h. tt }

  pub Keeps-gets : (f : S → A) → Keeps {E = E} P (gets f)
  Keeps-gets f = record { at = λ s h. h }

  pub Keeps-or_raise : (o : Option A) (e : E) → Keeps P (or_raise o e)
  Keeps-or_raise none e = record { at = λ s h. tt }
  Keeps-or_raise (some a) e = record { at = λ s h. h }

  pub Keeps-if :
      (b : Bool) (m n : Exec S E A) → Keeps P m → Keeps P n → Keeps P (if b then m else n)
  Keeps-if true m n km kn = km
  Keeps-if false m n km kn = kn

  -- Committed or rolled back, a request keeps the invariant.
  pub Keeps-atomic : (m : Exec S E A) → Keeps P m → (s : S) → P s → P (atomic m s).1
  Keeps-atomic m k s h = rolled (m s).0 (m s).1 (k.at s h)
    where
      rolled : (r : Result E A) (s' : S) → OnOk P (r, s') → P (commit s r s').1
      rolled (ok a) s' q = q
      rolled (err e) s' q = h

module _ {S E : Type 0} {P : S → Type 0} where
  pub Keeps-raise_if : (c : Bool) (e : E) → Keeps P (raise_if {S = S} c e)
  Keeps-raise_if true e = record { at = λ s h. tt }
  Keeps-raise_if false e = record { at = λ s h. h }

  pub Keeps-modify : (f : S → S) → ((s : S) → P s → P (f s)) → Keeps {E = E} P (modify f)
  Keeps-modify f kf = record { at = λ s h. kf s h }

module _ {S E A B : Type 0} {P : S → Type 0} where
  pub Keeps-bind :
      (m : Exec S E A) (f : A → Exec S E B)
      → Keeps P m
      → ((a : A) → Keeps P (f a))
      → Keeps P (m >>= f)
  Keeps-bind m f km kf = record { at = λ s h. next (m s).0 (m s).1 (km.at s h) }
    where
      next : (r : Result E A) (s' : S) → OnOk P (r, s') → OnOk P (continue r f s')
      next (ok a) s' q = (kf a).at s' q
      next (err e) s' q = tt

module _ {S E A B : Type 0} {P : S → Type 0} where
  pub Keeps-finally :
      (m : Exec S E A) (last : Exec S E B) → Keeps P m → Keeps P last → Keeps P (finally m last)
  Keeps-finally m last km kl = record { at = λ s h. left (m s).0 (m s).1 (km.at s h) }
    where
      ended : (a : A) (r : Result E B) (s : S) → OnOk P (r, s) → OnOk P (leave (ok a) (r, s))
      ended a (ok b) s q = q
      ended a (err e) s q = tt

      failed : (e : E) (r : Result E B × S) → OnOk P (leave {A = A} (err e) r)
      failed e (ok b, s) = tt
      failed e (err f, s) = tt

      left : (r : Result E A) (s : S) → OnOk P (r, s) → OnOk P (leave r (last s))
      left (ok a) s q = ended a (last s).0 (last s).1 (kl.at s q)
      left (err e) s q = failed e (last s)

module _ {S E F A : Type 0} {P : S → Type 0} where
  pub Keeps-rethrow : (convert : E → F) (m : Exec S E A) → Keeps P m → Keeps P (rethrow convert m)
  Keeps-rethrow convert m km = record { at = λ s h. thrown (m s).0 (m s).1 (km.at s h) }
    where
      thrown : (r : Result E A) (s' : S) → OnOk P (r, s') → OnOk P (map_error convert r, s')
      thrown (ok a) s' q = q
      thrown (err e) s' q = tt

module _ {S T E F A : Type 0} (P : S → Type 0) (Q : T → Type 0) where
  pub Keeps-zoom :
      (get : S → T) (put : T → S → S) (convert : E → F) (m : Exec T E A)
      → Keeps Q m
      → ((s : S) → P s → Q (get s))
      → ((s : S) (t : T) → P s → Q t → P (put t s))
      → Keeps P (zoom get put convert m)
  Keeps-zoom get put convert m k down up = record {
    at = λ s h. lifted s h (m (get s)).0 (m (get s)).1 (k.at (get s) (down s h));
  }
    where
      lifted :
          (s : S)
          → P s
          → (r : Result E A) (t : T) → OnOk Q (r, t)
          → OnOk P (map_error convert r, put t s)
      lifted s h (ok a) t q = up s t h q
      lifted s h (err e) t q = tt

pub ruleset keeps_rules = (
  Keeps-pure, Keeps-raise, Keeps-gets, Keeps-or_raise, Keeps-if, Keeps-raise_if, Keeps-bind,
  Keeps-rethrow, Keeps-finally,
)
