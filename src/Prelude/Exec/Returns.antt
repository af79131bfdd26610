-- ===== src/Prelude/Exec/Returns.antt =====
-- What holds of the session after a call that returns, from what holds after its parts.
use mathlib.Core.Path.{◌≡◌, refl, subst, sym}
use mathlib.Core.Bool.{Bool, true, false}
use mathlib.Core.Option.{Option, none, some}
use swift.Prelude.Tests.{if◌then◌else◌}
use swift.Prelude.Exec.{
  Result, ok, err, Exec, or_raise, raise_if, continue, commit, atomic, map_error, zoom, ◌>>=◌,
}
use swift.Prelude.Exec.Keeps.{OnOk}

module _ {S E A : Type 0} {P Q : S → Type 0} where
  pub OnOk-map : (r : Result E A × S) → ((s : S) → P s → Q s) → OnOk P r → OnOk Q r
  OnOk-map (ok a, s) f h = f s h
  OnOk-map (err e, s) f h = tt

-- A request leaves what it ensures, or the session as it was.
module _ {S E A : Type 0} (P : S → Type 0) where
  pub OnOk-atomic : (m : Exec S E A) (s : S) → P s → OnOk P (m s) → P (atomic m s).1
  OnOk-atomic m s h k = ended (m s).0 (m s).1 k
    where
      ended : (r : Result E A) (s' : S) → OnOk P (r, s') → P (commit s r s').1
      ended (ok a) s' q = q
      ended (err e) s' q = h

module _ {S E A B : Type 0} (P Q : S → Type 0) where
  pub OnOk-bind :
      (m : Exec S E A) (f : A → Exec S E B) (s : S)
      → OnOk P (m s)
      → ((a : A) (s' : S) → P s' → OnOk Q (f a s'))
      → OnOk Q ((m >>= f) s)
  OnOk-bind m f s h k = next (m s).0 (m s).1 h
    where
      next : (r : Result E A) (s' : S) → OnOk P (r, s') → OnOk Q (continue r f s')
      next (ok a) s' p = k a s' p
      next (err e) s' p = tt

module _ {S E A B : Type 0} {F : Type 0} (Q : S → Type 0) where
  -- A first step that leaves the session alone, and returns only if `F`.
  pub OnOk-check :
      (m : Exec S E A) (f : A → Exec S E B) (s : S)
      → OnOk (λ s'. (s' ≡ s) × F) (m s)
      → ((a : A) → F → OnOk Q (f a s))
      → OnOk Q ((m >>= f) s)
  OnOk-check m f s h k =
      OnOk-bind (λ s'. (s' ≡ s) × F) Q m f s h
        (λ a s' p. subst (λ t. OnOk Q (f a t)) (sym p.0) (k a p.1))

module _ {S E B : Type 0} (Q : S → Type 0) where
  pub OnOk-raise_if :
      (c : Bool) (e : E) (f : Unit {0} → Exec S E B) (s : S)
      → (c ≡ false → OnOk Q (f tt s))
      → OnOk Q ((raise_if c e >>= f) s)
  OnOk-raise_if true e f s k = tt
  OnOk-raise_if false e f s k = k refl

module _ {S E A B : Type 0} (Q : S → Type 0) where
  pub OnOk-or_raise :
      (o : Option A) (e : E) (f : A → Exec S E B) (s : S)
      → ((a : A) → o ≡ some a → OnOk Q (f a s))
      → OnOk Q ((or_raise o e >>= f) s)
  OnOk-or_raise none e f s k = tt
  OnOk-or_raise (some a) e f s k = k a refl

module _ {S E A : Type 0} (Q : S → Type 0) where
  pub OnOk-if :
      (c : Bool) (m n : Exec S E A) (s : S)
      → (c ≡ true → OnOk Q (m s))
      → (c ≡ false → OnOk Q (n s))
      → OnOk Q ((if c then m else n) s)
  OnOk-if true m n s km kn = km refl
  OnOk-if false m n s km kn = kn refl

-- What holds after a call that returns, and what after one that raises.
abbrev pub Ends {ℓ} : {S E A : Type ℓ} → (S → Type ℓ) → (S → Type ℓ) → Result E A × S → Type ℓ
Ends P R (ok a, s) = P s
Ends P R (err e, s) = R s

module _ {S E A : Type 0} {P Q R T : S → Type 0} where
  pub Ends-map :
      (r : Result E A × S) → ((s : S) → P s → Q s) → ((s : S) → R s → T s) → Ends P R r → Ends Q T r
  Ends-map (ok a, s) f g h = f s h
  Ends-map (err e, s) f g h = g s h

module _ {S E A B : Type 0} (P Q R : S → Type 0) where
  pub Ends-bind :
      (m : Exec S E A) (f : A → Exec S E B) (s : S)
      → Ends P R (m s)
      → ((a : A) (s' : S) → P s' → Ends Q R (f a s'))
      → Ends Q R ((m >>= f) s)
  Ends-bind m f s h k = next (m s).0 (m s).1 h
    where
      next : (r : Result E A) (s' : S) → Ends P R (r, s') → Ends Q R (continue r f s')
      next (ok a) s' p = k a s' p
      next (err e) s' r = r

module _ {S E A : Type 0} (P R : S → Type 0) where
  -- A request leaves the session as it was, if it raises.
  pub Ends-atomic : (m : Exec S E A) (s : S) → OnOk P (m s) → Ends P (λ s'. s' ≡ s) (atomic m s)
  Ends-atomic m s h = ended (m s).0 (m s).1 h
    where
      ended : (r : Result E A) (s' : S) → OnOk P (r, s') → Ends P (λ t. t ≡ s) (commit s r s')
      ended (ok a) s' p = p
      ended (err e) s' p = refl

module _ {S E B : Type 0} (Q R : S → Type 0) where
  pub Ends-raise_if :
      (c : Bool) (e : E) (f : Unit {0} → Exec S E B) (s : S)
      → R s
      → (c ≡ false → Ends Q R (f tt s))
      → Ends Q R ((raise_if c e >>= f) s)
  Ends-raise_if true e f s r k = r
  Ends-raise_if false e f s r k = k refl

module _ {S E A B : Type 0} (Q R : S → Type 0) where
  pub Ends-or_raise :
      (o : Option A) (e : E) (f : A → Exec S E B) (s : S)
      → R s
      → ((a : A) → o ≡ some a → Ends Q R (f a s))
      → Ends Q R ((or_raise o e >>= f) s)
  Ends-or_raise none e f s r k = r
  Ends-or_raise (some a) e f s r k = k a refl

-- A call on one part of the session, of which it says what that part is after it.
module _ {S T E F A : Type 0} (P : T → Type 0) where
  pub OnOk-zoom :
      (get : S → T) (put : T → S → S) (convert : E → F) (m : Exec T E A) (s : S)
      → ((t : T) → get (put t s) ≡ t)
      → OnOk P (m (get s))
      → OnOk (λ s'. P (get s')) (zoom get put convert m s)
  OnOk-zoom get put convert m s back h = part (m (get s)).0 (m (get s)).1 h
    where
      part :
          (r : Result E A) (t : T)
          → OnOk P (r, t)
          → OnOk (λ s'. P (get s')) (map_error convert r, put t s)
      part (ok a) t q = subst P (sym (back t)) q
      part (err e) t q = tt

module _ {S E A : Type 0} (P Q : S → Type 0) where
  pub OnOk-both : (r : Result E A × S) → OnOk P r → OnOk Q r → OnOk (λ s. P s × Q s) r
  OnOk-both (ok a, s) p q = (p, q)
  OnOk-both (err e, s) p q = tt

-- What holds of the result and of the session after a call that returns.
abbrev pub Yields : {S E A : Type 0} → (A → S → Type 0) → Result E A × S → Type 0
Yields P (ok a, s) = P a s
Yields P (err e, s) = Unit

module _ {S E A B : Type 0} (P : A → S → Type 0) (Q : S → Type 0) where
  pub Yields-bind :
      (m : Exec S E A) (f : A → Exec S E B) (s : S)
      → Yields P (m s)
      → ((a : A) (s' : S) → P a s' → OnOk Q (f a s'))
      → OnOk Q ((m >>= f) s)
  Yields-bind m f s h k = next (m s).0 (m s).1 h
    where
      next : (r : Result E A) (s' : S) → Yields P (r, s') → OnOk Q (continue r f s')
      next (ok a) s' p = k a s' p
      next (err e) s' p = tt
