-- ===== src/Ecny/Store/Accounts.antt =====
-- Updates and sums of the account rows, by the identifier that a query finds them with.
use swift.Prelude.{
  ℕ, ◌≡◌, refl, Bool, false, ◌&&◌, Option, none, some, List, [], ◌∷◌, ◌++◌, arith, ap, is_some,
  ◌==◌, ==_iff, find, find-append_none, Bool-cases, inl, inr, if◌then◌else◌,
}
use mathlib.Core.Path.{subst}
use swift.Prelude.Int.{ℤ, pos, pos_part, neg_part, ◌+ℤ◌, int_laws}
use swift.Ecny.Store.{Account, find_account, is_central_bank}

-- `acct.balance = f(acct.balance)` on the row that `.first()` found.
unfoldable pub adjust : ℕ → (ℤ → ℤ) → List Account → List Account
adjust id f [] = []
adjust id f (a ∷ rest) =
    if a.account_id == id then record a { balance = f a.balance } ∷ rest else a ∷ adjust id f rest

abbrev pub known : ℕ → List Account → Bool
known id accounts = is_some (find_account id accounts)

abbrev pub balance_in : Option Account → ℤ
balance_in none = pos 0
balance_in (some a) = a.balance

-- The balance that a query by identifier reads; zero where there is no such account.
abbrev pub balance_of : ℕ → List Account → ℤ
balance_of id accounts = balance_in (find_account id accounts)

abbrev pub issuer_in : Option Account → Bool
issuer_in none = false
issuer_in (some a) = is_central_bank a.owner_type

abbrev pub issuer_at : ℕ → List Account → Bool
issuer_at id accounts = issuer_in (find_account id accounts)

abbrev rebalance : (ℤ → ℤ) → Option Account → Option Account
rebalance f none = none
rebalance f (some a) = some (record a { balance = f a.balance })

pub find-adjust :
    (id j : ℕ) (f : ℤ → ℤ) (accounts : List Account)
    → find_account j (adjust id f accounts)
      ≡ (if id == j then rebalance f (find_account j accounts) else find_account j accounts)
unfolding adjust
find-adjust id j f [] = ground arith
find-adjust id j f (a ∷ rest) = ground (arith, find-adjust id j f rest)

pub find_account-eq_some :
    (id : ℕ) (accounts : List Account) (a : Account)
    → find_account id accounts ≡ some a
    → a.account_id ≡ id
find_account-eq_some id [] a h = cc
find_account-eq_some id (x ∷ rest) a h = ground (arith, find_account-eq_some id rest a)

pub known-adjust :
    (id j : ℕ) (f : ℤ → ℤ) (accounts : List Account)
    → known j (adjust id f accounts) ≡ known j accounts
known-adjust id j f accounts = ground (arith, find-adjust id j f accounts)

pub issuer_at-adjust :
    (id j : ℕ) (f : ℤ → ℤ) (accounts : List Account)
    → issuer_at j (adjust id f accounts) ≡ issuer_at j accounts
issuer_at-adjust id j f accounts = ground (arith, find-adjust id j f accounts)

pub balance_of-adjust :
    (id j : ℕ) (f : ℤ → ℤ) (accounts : List Account)
    → balance_of j (adjust id f accounts)
      ≡ (if (id == j) && known j accounts then f (balance_of j accounts) else balance_of j accounts)
balance_of-adjust id j f accounts = ground (arith, find-adjust id j f accounts)

-- The sum of the balances of the rows that a filter keeps.
unfoldable pub total : (Account → Bool) → List Account → ℤ
total keep [] = pos 0
total keep (a ∷ rest) = (if keep a then a.balance else pos 0) +ℤ total keep rest

pub total-append :
    (keep : Account → Bool) (xs ys : List Account)
    → total keep (xs ++ ys) ≡ total keep xs +ℤ total keep ys
unfolding total
total-append keep [] ys = omega int_laws
total-append keep (a ∷ xs) ys = rw (total-append keep xs ys) (omega int_laws)

-- One adjusted row moves the sum by the change of its balance, if the filter keeps the row
-- whatever its balance.
module _ (keep : Account → Bool)
    (blind : (a : Account) (b : ℤ) → keep (record a { balance = b }) ≡ keep a) where
  abbrev Moved : List Account → List Account → (ℤ → ℤ) → Account → Type 0
  Moved after before f a =
      total keep after +ℤ (if keep a then a.balance else pos 0)
      ≡ total keep before +ℤ (if keep a then f a.balance else pos 0)

  total_head :
      (f : ℤ → ℤ) (x : Account) (rest : List Account)
      → Moved (record x { balance = f x.balance } ∷ rest) (x ∷ rest) f x
  unfolding total
  total_head f x rest = rw (blind x (f x.balance)) (omega int_laws)

  total_tail :
      (f : ℤ → ℤ) (x a : Account) (after before : List Account)
      → Moved after before f a
      → Moved (x ∷ after) (x ∷ before) f a
  unfolding total
  total_tail f x a after before h = omega (int_laws, ap pos_part h, ap neg_part h)

  pub total-adjust :
      (id : ℕ) (f : ℤ → ℤ) (accounts : List Account) (a : Account)
      → find_account id accounts ≡ some a
      → Moved (adjust id f accounts) accounts f a
  unfolding total adjust
  total-adjust id f [] a h = cc
  total-adjust id f (x ∷ rest) a h = elim (Bool-cases (x.account_id == id)) [
    | inl e ↦
        let same : some x ≡ some a = rw e at h in
        let row : x ≡ a = cc in
        subst (λ c. Moved (adjust id f (x ∷ rest)) (x ∷ rest) f c) row (rw e (total_head f x rest))
    | inr e ↦ rw e (total_tail f x a (adjust id f rest) rest (total-adjust id f rest a (rw e at h)))
  ]

-- The unique constraint on `account_id`.
abbrev pub Unique : List Account → Type 0
Unique [] = Unit
Unique (a ∷ rest) = (find_account a.account_id rest ≡ none) × Unique rest

pub adjust-Unique :
    (id : ℕ) (f : ℤ → ℤ) (accounts : List Account) → Unique accounts → Unique (adjust id f accounts)
unfolding adjust
adjust-Unique id f [] u = tt
adjust-Unique id f (x ∷ rest) u =
    ground (arith, adjust-Unique id f rest u.1, find-adjust id x.account_id f rest)

-- A row that another query finds is the one that its identifier finds.
pub find_account-find :
    (p : Account → Bool) (accounts : List Account) (a : Account)
    → Unique accounts
    → find p accounts ≡ some a
    → find_account a.account_id accounts ≡ some a
find_account-find p [] a u h = cc
find_account-find p (x ∷ rest) a u h =
    ground (arith, find_account-find p rest a u.1, ==_iff x.account_id a.account_id)

pub append-Unique :
    (accounts : List Account) (a : Account)
    → Unique accounts
    → find_account a.account_id accounts ≡ none
    → Unique (accounts ++ a ∷ [])
append-Unique [] a u h = (refl, tt)
append-Unique (x ∷ rest) a u h = ground (
  arith,
  append-Unique rest a u.1,
  find-append_none (λ r. r.account_id == x.account_id) rest (a ∷ []),
)
