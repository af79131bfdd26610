-- ===== src/Production/Ledger/Reserving.antt =====
-- What an account has reserved is what its open reservations and holds are for.
use swift.Prelude.{
  ℕ, ◌≡◌, refl, ◌∙◌, Bool, true, false, ◌&&◌, some, List, [], ◌∷◌, All, arith, find, update_found,
  Bool-cases, inl, inr, ◌==◌, if◌then◌else◌,
}
use mathlib.Core.Path.{subst}
use mathlib.Core.Option.{some-injective}
use swift.Prelude.Int.{ℤ, pos, ◌+ℤ◌, ◌-ℤ◌, ◌≤ℤ◌, ltb_ℤ, int_laws}
use swift.Production.Ledger.{
  Account, Reservation, Hold, HoldState, Books, find_account, is_reserved, at_least_zero,
}
use swift.Production.Ledger.Rows.{sum, column, find-write}

-- A hold of unknown outcome keeps its funds.
abbrev pub is_open : HoldState → Bool
is_open HoldState.held = true
is_open HoldState.unknown = true
is_open _ = false

abbrev pub open_reservation : ℕ → Reservation → ℤ
open_reservation id r = if r.funding_reference == id && is_reserved r.state then r.amount else pos 0

abbrev pub open_hold : ℕ → Hold → ℤ
open_hold id h = if h.account_id == id && is_open h.state then h.amount else pos 0

abbrev pub reserved_at : ℕ → List Account → ℤ
reserved_at id accounts = column (pos 0) Account.reserved (find_account id accounts)

pub record IsReserved (db : Books) : Type 0 where
  pub exact :
      (id : ℕ)
      → reserved_at id db.accounts
        ≡ sum (open_reservation id) db.reservations +ℤ sum (open_hold id) db.holds
  pub amounts : All (λ r. pos 0 ≤ℤ r.amount) db.reservations
  pub hold_amounts : All (λ h. pos 0 ≤ℤ h.amount) db.holds

module _ {ℓ} {A : Type ℓ} (weight amount : A → ℤ)
    (part : (a : A) → pos 0 ≤ℤ amount a → pos 0 ≤ℤ weight a) where
  pub sum_nonneg : (xs : List A) → All (λ a. pos 0 ≤ℤ amount a) xs → pos 0 ≤ℤ sum weight xs
  unfolding sum
  sum_nonneg [] h = omega arith
  sum_nonneg (x ∷ xs) h = omega (int_laws, part x h.0, sum_nonneg xs h.1)

  -- A row counts for no more than the sum.
  pub weight-le-sum :
      (p : A → Bool) (xs : List A) (a : A)
      → All (λ a. pos 0 ≤ℤ amount a) xs
      → find p xs ≡ some a
      → weight a ≤ℤ sum weight xs
  unfolding sum
  weight-le-sum p [] a h e = cc
  weight-le-sum p (x ∷ xs) a h e = elim (Bool-cases (p x)) [
    | inl t ↦
        subst (λ b. weight b ≤ℤ weight x +ℤ sum weight xs) (some-injective x a (rw t at e))
          (omega (int_laws, sum_nonneg xs h.1))
    | inr t ↦ omega (int_laws, part x h.0, weight-le-sum p xs a h.1 (rw t at e))
  ]

pub open_reservation_nonneg :
    (id : ℕ) (r : Reservation) → pos 0 ≤ℤ r.amount → pos 0 ≤ℤ open_reservation id r
open_reservation_nonneg id r h =
    elim (Bool-cases (r.funding_reference == id && is_reserved r.state)) [
      | inl e ↦ rw e h
      | inr e ↦ rw e (omega arith)
    ]

pub open_hold_nonneg : (id : ℕ) (h : Hold) → pos 0 ≤ℤ h.amount → pos 0 ≤ℤ open_hold id h
open_hold_nonneg id h k = elim (Bool-cases (h.account_id == id && is_open h.state)) [
  | inl e ↦ rw e k
  | inr e ↦ rw e (omega arith)
]

-- A write to the reserved amounts of one account.
module _ (id : ℕ) (f : Account → Account)
    (same_id : (a : Account) → (f a).account_id ≡ a.account_id) (accounts : List Account)
    (a : Account) (found : find_account id accounts ≡ some a) where
  pub reserved_at-write :
      (j : ℕ)
      → reserved_at j (update_found (λ b. b.account_id == id) f accounts)
        ≡ (if id == j then (f a).reserved else reserved_at j accounts)
  reserved_at-write j = elim (Bool-cases (id == j)) [
    | inl s ↦
        let same : id ≡ j = ground arith in
        let here : find_account j accounts ≡ some a =
          subst (λ k. find_account k accounts ≡ some a) same found in
        rw (find-write f same_id id j accounts, s, here) refl
    | inr s ↦ rw (find-write f same_id id j accounts, s) refl
  ]

  reserved_at-found : (j : ℕ) → (id == j) ≡ true → reserved_at j accounts ≡ a.reserved
  reserved_at-found j s =
      let same : id ≡ j = ground arith in
      subst (λ k. reserved_at k accounts ≡ a.reserved) same (rw found refl)

  pub reserved_at-by :
      (g : ℤ → ℤ)
      → (f a).reserved ≡ g a.reserved
      → (j : ℕ)
      → reserved_at j (update_found (λ b. b.account_id == id) f accounts)
        ≡ (if id == j then g (reserved_at j accounts) else reserved_at j accounts)
  reserved_at-by g e j = elim (Bool-cases (id == j)) [
    | inl s ↦ reserved_at-write j ∙ rw (s, reserved_at-found j s) e
    | inr s ↦ reserved_at-write j ∙ rw s refl
  ]

pub at_least_zero_of_le : (r x : ℤ) → x ≤ℤ r → at_least_zero (r -ℤ x) ≡ r -ℤ x
at_least_zero_of_le r x h = elim (Bool-cases (ltb_ℤ (r -ℤ x) (pos 0))) [
  | inl e ↦ absurd (nonneg (r -ℤ x) e (omega (int_laws, h)))
  | inr e ↦ rw e refl
]
  where
    nonneg : (y : ℤ) → ltb_ℤ y (pos 0) ≡ true → pos 0 ≤ℤ y → ⊥
    nonneg y e k = ground arith
