-- ===== src/Nextgen/Payments/Endings.antt =====
-- The statuses that end a payment.
use swift.Prelude.{
  ℕ, ◌≡◌, refl, sym, ap, ◌∙◌, ◌⊎◌, inl, inr, Bool, true, false, Option, none, some, List, arith,
}
use Prim.{⊥, absurd}
use mathlib.Core.Path.{subst}
use mathlib.Core.Bool.{true≢false}
use swift.Nextgen.Store.{Db, Lifecycle, Status}
use swift.Nextgen.Store.Payload.{Json}
use swift.Nextgen.Payments.{is_allowed, find_lifecycle}
use swift.Nextgen.Payments.Evolution.{Moves, stay, move, Request, perform_all, payment_evolves}

-- From a status that allows nothing, and from `settled`, which allows the return only.
abbrev pub is_over : Status → Bool
is_over Status.returned = true
is_over Status.rejected = true
is_over Status.cancelled = true
is_over _ = false

over-stays : (s t : Status) → is_over s ≡ true → is_allowed s t ≡ false
unfolding is_allowed
over-stays Status.returned t h = refl
over-stays Status.rejected t h = refl
over-stays Status.cancelled t h = refl
over-stays _ t h = cc

Moves-over : (n : ℕ) (s t : Status) → is_over s ≡ true → Moves n s t → (n ≡ 0) × (t ≡ s)
Moves-over n s t over stay = (refl, refl)
Moves-over n s u over (move {n = m} {t = t} ms a) =
    let (k, same) = Moves-over m s t over ms in
    absurd (true≢false (sym a ∙ ap (λ q. is_allowed q u) same ∙ over-stays s u over))

only_return : (u : Status) → is_allowed Status.settled u ≡ true → u ≡ Status.returned
unfolding is_allowed
only_return Status.returned h = refl
only_return _ h = cc

Moves-settled :
    (n : ℕ) (t : Status) → Moves n Status.settled t → (t ≡ Status.settled) ⊎ (t ≡ Status.returned)
Moves-settled n t stay = inl refl
Moves-settled n u (move {n = m} {t = t} ms a) = elim (Moves-settled m t ms) [
  | inl h ↦ inr (only_return u (sym (ap (λ q. is_allowed q u) h) ∙ a))
  | inr h ↦
      absurd (true≢false (sym a ∙ ap (λ q. is_allowed q u) h ∙ over-stays Status.returned u refl))
]

-- What a payment that ends as it did may have become.
abbrev pub Ends : Lifecycle → Option Lifecycle → Type 0
Ends l none = ⊥
Ends l (some row) =
    (is_over l.status ≡ true → (row.status ≡ l.status) × (row.version ≡ l.version))
    × (l.status ≡ Status.settled → (row.status ≡ Status.settled) ⊎ (row.status ≡ Status.returned))

module _ (uuid_version : ℕ → Option ℕ) (hash : Json → ℕ) where
  -- Under any requests, in any order, a payment that is returned, rejected or cancelled keeps its
  -- status and its version, and a payment that is settled stays settled or becomes returned.
  pub payment-Ends :
      (rs : List Request) (db : Db) (l : Lifecycle)
      → find_lifecycle l.uetr db.lifecycles ≡ some l
      → Ends l (find_lifecycle l.uetr (perform_all uuid_version hash rs db).lifecycles)
  payment-Ends rs db l h =
      let e = payment_evolves uuid_version hash rs db l h in
      rw e.stored (
        (λ over.
            let (none_left, same) = Moves-over e.moves l.status e.row.status over e.allowed in
            (same, omega (arith, e.counted, none_left))),
        (λ settled.
            Moves-settled e.moves e.row.status
              (subst (λ q. Moves e.moves q e.row.status) settled e.allowed)),
      )
