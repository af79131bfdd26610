-- ===== src/Nextgen/Cips/Accounts.antt =====
-- The settlement accounts: the row that a query finds, its update, and the sum of the balances.
use swift.Prelude.{
  ℕ, ◌+◌, ◌≡◌, refl, ap, Bool, false, ◌&&◌, Option, some, List, [], ◌∷◌, arith, find, All,
  Bool-cases, inl, inr, ◌==◌, if◌then◌else◌,
}
use mathlib.Core.Path.{subst}
use swift.Prelude.Int.{ℤ, pos, pos_part, neg_part, ◌+ℤ◌, ◌-ℤ◌, ◌≤ℤ◌, int_laws}
use swift.Nextgen.Store.{CipsAccount}

abbrev pub holds : ℕ → ℕ → CipsAccount → Bool
holds participant_id currency a = a.participant_id == participant_id && a.currency == currency

abbrev pub settlement_account : ℕ → ℕ → List CipsAccount → Option CipsAccount
settlement_account participant_id currency accounts = find (holds participant_id currency) accounts

-- What is written to the row that `.first()` found.
unfoldable pub update_first :
    ℕ → ℕ → (CipsAccount → CipsAccount) → List CipsAccount → List CipsAccount
update_first participant_id currency f [] = []
update_first participant_id currency f (a ∷ rest) =
    if holds participant_id currency a
    then f a ∷ rest
    else a ∷ update_first participant_id currency f rest

abbrev pub pay : ℤ → CipsAccount → CipsAccount
pay amount a = record a { balance = a.balance -ℤ amount; version = a.version + 1 }

abbrev pub receive : ℤ → CipsAccount → CipsAccount
receive amount a = record a { balance = a.balance +ℤ amount; version = a.version + 1 }

unfoldable pub total_balance : List CipsAccount → ℤ
total_balance [] = pos 0
total_balance (a ∷ rest) = a.balance +ℤ total_balance rest

-- Reservations are not negative, and the balance covers them.
abbrev pub IsSolvent : CipsAccount → Type 0
IsSolvent a = (pos 0 ≤ℤ a.reserved) × (a.reserved ≤ℤ a.balance)

module _ (p c : ℕ) (f : CipsAccount → CipsAccount) where
  abbrev Shifted : List CipsAccount → List CipsAccount → CipsAccount → Type 0
  Shifted after before a = total_balance after +ℤ a.balance ≡ total_balance before +ℤ (f a).balance

  Shifted-head : (x : CipsAccount) (rest : List CipsAccount) → Shifted (f x ∷ rest) (x ∷ rest) x
  unfolding total_balance
  Shifted-head x rest = omega int_laws

  Shifted-tail :
      (x a : CipsAccount) (after before : List CipsAccount)
      → Shifted after before a
      → Shifted (x ∷ after) (x ∷ before) a
  unfolding total_balance
  Shifted-tail x a after before h = omega (int_laws, ap pos_part h, ap neg_part h)

  -- The sum moves by the change of the row that is written.
  pub total_balance-update_first :
      (accounts : List CipsAccount) (a : CipsAccount)
      → settlement_account p c accounts ≡ some a
      → Shifted (update_first p c f accounts) accounts a
  unfolding update_first
  total_balance-update_first [] a h = cc
  total_balance-update_first (x ∷ rest) a h = elim (Bool-cases (holds p c x)) [
    | inl e ↦
        let same : some x ≡ some a = rw e at h in
        let row : x ≡ a = cc in
        subst (λ q. Shifted (update_first p c f (x ∷ rest)) (x ∷ rest) q) row
          (rw e (Shifted-head x rest))
    | inr e ↦ rw e (
        Shifted-tail x a (update_first p c f rest) rest
          (total_balance-update_first rest a (rw e at h)))
  ]

  pub All-update_first :
      (P : CipsAccount → Type 0) (accounts : List CipsAccount)
      → ((a : CipsAccount) → settlement_account p c accounts ≡ some a → P a → P (f a))
      → All P accounts
      → All P (update_first p c f accounts)
  unfolding update_first
  All-update_first P [] k h = tt
  All-update_first P (x ∷ rest) k h = elim (Bool-cases (holds p c x)) [
    | inl e ↦ rw e (k x (rw e refl) h.0, h.1)
    | inr e ↦ rw e (h.0, All-update_first P rest (λ a q. k a (rw e q)) h.1)
  ]

-- A payment into one account leaves what a query for another participant finds.
pub settlement_account-receive :
    (p q c : ℕ) (amount : ℤ) (accounts : List CipsAccount)
    → (p == q) ≡ false
    → settlement_account q c (update_first p c (receive amount) accounts)
      ≡ settlement_account q c accounts
unfolding update_first
settlement_account-receive p q c amount [] d = refl
settlement_account-receive p q c amount (x ∷ rest) d = elim (Bool-cases (holds p c x)) [
  | inl e ↦ let other : holds q c x ≡ false = ground arith in rw (e, other) refl
  | inr e ↦ rw (e, settlement_account-receive p q c amount rest d) refl
]
