-- ===== src/Production/Ledger/Rows.antt =====
-- Sums over rows of the subledger, and what a query finds after a write.
use swift.Prelude.{
  ℕ, ◌≡◌, refl, ◌∙◌, ap, Bool, true, false, Option, none, some, List, [], ◌∷◌, ◌++◌, arith, find,
  update_found, Bool-cases, inl, inr, ◌==◌, if◌then◌else◌,
}
use mathlib.Core.Path.{subst}
use mathlib.Core.Option.{some-injective}
use swift.Prelude.Int.{ℤ, pos, pos_part, neg_part, ◌+ℤ◌, int_laws}
use swift.Production.Ledger.{Account, find_account}

module _ {ℓ} {A : Type ℓ} (weight : A → ℤ) where
  unfoldable pub sum : List A → ℤ
  sum [] = pos 0
  sum (x ∷ rest) = weight x +ℤ sum rest

  pub sum-append : (xs ys : List A) → sum (xs ++ ys) ≡ sum xs +ℤ sum ys
  unfolding sum
  sum-append [] ys = omega int_laws
  sum-append (x ∷ xs) ys = rw (sum-append xs ys) (omega int_laws)

  sum_step : (w u v s t : ℤ) → s +ℤ u ≡ t +ℤ v → w +ℤ s +ℤ u ≡ w +ℤ t +ℤ v
  sum_step w u v s t h = omega (int_laws, ap pos_part h, ap neg_part h)

  -- One written row moves the sum by the change of its weight.
  pub sum-update_found :
      (p : A → Bool) (f : A → A) (xs : List A) (a : A)
      → find p xs ≡ some a
      → sum (update_found p f xs) +ℤ weight a ≡ sum xs +ℤ weight (f a)
  unfolding sum
  sum-update_found p f [] a h = cc
  sum-update_found p f (x ∷ xs) a h = elim (Bool-cases (p x)) [
    | inl e ↦
        let row : x ≡ a = some-injective x a (rw e at h) in
        subst (λ b. sum (update_found p f (x ∷ xs)) +ℤ weight b ≡ sum (x ∷ xs) +ℤ weight (f b)) row
          (rw e (omega int_laws))
    | inr e ↦ rw e (
        sum_step (weight x) (weight a) (weight (f a)) (sum (update_found p f xs)) (sum xs)
          (sum-update_found p f xs a (rw e at h)))
  ]

  pub sum-update_found_same :
      (p : A → Bool) (f : A → A) (xs : List A)
      → ((a : A) → weight (f a) ≡ weight a)
      → sum (update_found p f xs) ≡ sum xs
  unfolding sum
  sum-update_found_same p f [] same = refl
  sum-update_found_same p f (x ∷ xs) same = elim (Bool-cases (p x)) [
    | inl e ↦ rw (e, same x) refl
    | inr e ↦ rw (e, sum-update_found_same p f xs same) refl
  ]

-- What a column of the row with an identifier holds, or a default.
abbrev pub column {ℓ} : {A : Type ℓ} → A → (Account → A) → Option Account → A
column d get none = d
column d get (some a) = get a

abbrev pub rewritten : (Account → Account) → Option Account → Option Account
rewritten f none = none
rewritten f (some a) = some (f a)

module _ (f : Account → Account) (same_id : (a : Account) → (f a).account_id ≡ a.account_id) where
  pub find-write :
      (id j : ℕ) (accounts : List Account)
      → find_account j (update_found (λ a. a.account_id == id) f accounts)
        ≡ (if id == j then rewritten f (find_account j accounts) else find_account j accounts)
  find-write id j [] = ground arith
  find-write id j (a ∷ rest) = ground (arith, find-write id j rest, same_id a)

  -- A column that the write leaves alone.
  pub column-write {ℓ} :
      {A : Type ℓ} (d : A) (get : Account → A) (id j : ℕ) (accounts : List Account)
      → ((a : Account) → get (f a) ≡ get a)
      → column d get (find_account j (update_found (λ a. a.account_id == id) f accounts))
        ≡ column d get (find_account j accounts)
  column-write d get id j accounts same =
      ap (column d get) (find-write id j accounts) ∙ kept (id == j) (find_account j accounts)
    where
      kept :
          (b : Bool) (o : Option Account)
          → column d get (if b then rewritten f o else o) ≡ column d get o
      kept false o = refl
      kept true none = refl
      kept true (some a) = same a
