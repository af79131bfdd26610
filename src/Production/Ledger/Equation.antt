-- ===== src/Production/Ledger/Equation.antt =====
-- The accounting equation: in each currency, what stands on the accounts that a debit increases,
-- less what stands on the others.
use swift.Prelude.{
  ◌⊎◌, ℕ, ◌≡◌, refl, ap, true, ◌||◌, some, List, [], ◌∷◌, All, arith, Bool-cases, inl, inr, ◌==◌,
  if◌then◌else◌,
}
use mathlib.Core.Path.{subst}
use mathlib.Core.Option.{some-injective}
use swift.Prelude.Int.{ℤ, pos, pos_part, neg_part, ◌+ℤ◌, ◌-ℤ◌, ◌≤ℤ◌, int_laws}
use swift.Production.Ledger.{
  Direction, debit, credit, unknown_direction, AccountType, asset, expense, liability, equity,
  income, contra, suspense, Account, Item, Books, find_account, is_debit, is_credit, sum_if,
  normal_balance, same_direction, post_to, is_valid_item,
}
use swift.Production.Ledger.Rows.{sum, sum-update_found}
use swift.Production.Ledger.Posting.{currency_at, written}

-- What a balance of an account counts for.
abbrev pub side : Account → ℤ
side a = if is_debit (normal_balance a.account_type) then a.balance else pos 0 -ℤ a.balance

abbrev pub side_in : ℕ → Account → ℤ
side_in currency a = if a.currency == currency then side a else pos 0

abbrev pub equation : ℕ → List Account → ℤ
equation currency accounts = sum (side_in currency) accounts

-- What an item with a direction adds to the equation.
abbrev pub weight_of : Item → ℤ
weight_of e = if is_debit e.direction then e.amount else pos 0 -ℤ e.amount

pub normal_cases : (k : AccountType) → (normal_balance k ≡ debit) ⊎ (normal_balance k ≡ credit)
unfolding normal_balance
normal_cases asset = inl refl
normal_cases expense = inl refl
normal_cases liability = inr refl
normal_cases equity = inr refl
normal_cases income = inr refl
normal_cases contra = inr refl
normal_cases suspense = inl refl

-- The branches on the direction and on the normal balance.
moved :
    (d n : Direction) (b x : ℤ)
    → (n ≡ debit) ⊎ (n ≡ credit)
    → (is_debit d || is_credit d) ≡ true
    → (if is_debit n
        then b +ℤ (if same_direction d n then x else pos 0 -ℤ x)
        else pos 0 -ℤ (b +ℤ (if same_direction d n then x else pos 0 -ℤ x)))
      ≡ (if is_debit n then b else pos 0 -ℤ b) +ℤ (if is_debit d then x else pos 0 -ℤ x)
moved debit n b x (inl e) v = rw e refl
moved debit n b x (inr e) v = rw e (omega int_laws)
moved credit n b x (inl e) v = rw e refl
moved credit n b x (inr e) v = rw e (omega int_laws)
moved (unknown_direction u) n b x h v = cc

pub side-post :
    (e : Item) (a : Account) → is_valid_item e ≡ true → side (post_to e a) ≡ side a +ℤ weight_of e
side-post e a valid =
    moved e.direction (normal_balance a.account_type) a.balance e.amount
      (normal_cases a.account_type) (ground arith)

-- What valid items add to the equation: their debits less their credits.
pub sum-weight_of :
    (items : List Item)
    → All (λ e. is_valid_item e ≡ true) items
    → sum weight_of items ≡ sum_if is_debit items -ℤ sum_if is_credit items
unfolding sum sum_if
sum-weight_of [] h = omega int_laws
sum-weight_of (e ∷ rest) h =
    rw (sum-weight_of rest h.1)
      (split e.direction (sum_if is_debit rest) (sum_if is_credit rest) (ground (arith, h.0)))
  where
    split :
        (d : Direction) (p q : ℤ)
        → (is_debit d || is_credit d) ≡ true
        → (if is_debit d then e.amount else pos 0 -ℤ e.amount) +ℤ (p -ℤ q)
          ≡ ((if is_debit d then e.amount else pos 0) +ℤ p)
            -ℤ ((if is_credit d then e.amount else pos 0) +ℤ q)
    split debit p q v = omega int_laws
    split credit p q v = omega int_laws
    split (unknown_direction u) p q v = cc

pub located :
    (c : ℕ) (e : Item) (db : Books) (a : Account)
    → find_account e.account_id db.accounts ≡ some a
    → currency_at e.account_id db.accounts ≡ some c
    → a.currency ≡ c
located c e db a found at = some-injective a.currency c (rw found at at)

side_in-post :
    (c currency : ℕ) (e : Item) (a : Account)
    → a.currency ≡ currency
    → is_valid_item e ≡ true
    → side_in c (post_to e a) ≡ side_in c a +ℤ (if currency == c then weight_of e else pos 0)
side_in-post c currency e a same valid =
    subst (λ k. side_in c (post_to e a) ≡ side_in c a +ℤ (if k == c then weight_of e else pos 0))
      same
      (elim (Bool-cases (a.currency == c)) [
        | inl t ↦ rw t (side-post e a valid)
        | inr t ↦ rw t (omega int_laws)
      ])

moves_by : (after before x y w : ℤ) → after +ℤ x ≡ before +ℤ y → y ≡ x +ℤ w → after ≡ before +ℤ w
moves_by after before x y w h k =
    omega (int_laws, ap pos_part h, ap neg_part h, ap pos_part k, ap neg_part k)

-- One write of the second loop.
pub equation-post :
    (c currency : ℕ) (e : Item) (db : Books) (a : Account)
    (found : find_account e.account_id db.accounts ≡ some a)
    → a.currency ≡ currency
    → is_valid_item e ≡ true
    → equation c (written e db a found).accounts
      ≡ equation c db.accounts +ℤ (if currency == c then weight_of e else pos 0)
equation-post c currency e db a found same valid =
    moves_by _ _ (side_in c a) (side_in c (post_to e a)) _
      (sum-update_found (side_in c) (λ b. b.account_id == e.account_id) (post_to e) db.accounts a
        found)
      (side_in-post c currency e a same valid)

-- Balances that are not negative, and what the equation comes to in each currency.
pub record InBalance (base : ℕ → ℤ) (db : Books) : Type 0 where
  pub nonneg : All (λ a. pos 0 ≤ℤ a.balance) db.accounts
  pub equal : (c : ℕ) → equation c db.accounts ≡ base c
