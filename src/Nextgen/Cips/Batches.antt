-- ===== src/Nextgen/Cips/Batches.antt =====
-- A DNS batch: what is required of the accounts, and what is applied to them.
use swift.Prelude.{
  ℕ, ◌≡◌, refl, ap, sym, ◌∙◌, false, some, List, [], ◌∷◌, All, Option-cases, Bool-cases, inl, inr,
  if◌then◌else◌,
}
use mathlib.Core.Path.{subst}
use mathlib.Core.Option.{some-injective}
use swift.Prelude.Int.{ℤ, pos, pos_part, neg_part, ◌+ℤ◌, ◌-ℤ◌, ltb_ℤ, int_laws}
use swift.Prelude.Exec.{Result, ok, err, pure, continue}
use swift.Prelude.Exec.Keeps.{OnOk}
use swift.Nextgen.Store.{Db, CipsAccount, Error, Session}
use swift.Nextgen.Cips.Accounts.{
  settlement_account, update_first, receive, total_balance, IsSolvent, total_balance-update_first,
  All-update_first, settlement_account-receive,
}
use swift.Nextgen.Cips.Positions.{Others, Distinct, sum_positions}
use swift.Nextgen.Cips.Solvency.{not_below, receive-IsSolvent}
use swift.Nextgen.Cips.{cny, account}
use swift.Nextgen.Cips.Netting.{require, require_all, apply_position, apply_all}

-- A position that the account of its participant can bear.
abbrev pub Bears : List CipsAccount → ℕ × ℤ → Type 0
Bears accounts (p, x) =
    (a : CipsAccount)
    → settlement_account p cny accounts ≡ some a
    → IsSolvent a
    → IsSolvent (receive x a)

required_Bears :
    (x : ℤ) (a : CipsAccount)
    → ltb_ℤ (a.balance -ℤ a.reserved) (pos 0 -ℤ x) ≡ false
    → IsSolvent a
    → IsSolvent (receive x a)
required_Bears x a l s = (s.0, omega (int_laws, not_below (a.balance -ℤ a.reserved) (pos 0 -ℤ x) l))

-- A check that returns leaves the session as it was.
abbrev pub Checked : Db → (Db → Type 0) → Result Error Unit × Db → Type 0
Checked db P (ok u, after) = (after ≡ db) × P db
Checked db P (err e, after) = Unit

require-Bears :
    (p : ℕ) (x : ℤ) (db : Db) → Checked db (λ d. Bears d.accounts (p, x)) (require p x db)
unfolding require account
require-Bears p x db = elim (Option-cases (settlement_account p cny db.accounts)) [
  | inl e ↦ rw e tt
  | inr (a, e) ↦ elim (Bool-cases (ltb_ℤ (a.balance -ℤ a.reserved) (pos 0 -ℤ x))) [
    | inl l ↦ rw (e, l) tt
    | inr l ↦
        let bears : Bears db.accounts (p, x) = λ b q. required_Bears x b (
          subst (λ r. ltb_ℤ (r.balance -ℤ r.reserved) (pos 0 -ℤ x) ≡ false)
            (some-injective a b (sym e ∙ q)) l) in
        rw (e, l) (refl, bears)
  ]
]

required_if-Bears :
    (p : ℕ) (x : ℤ) (db : Db)
    → Checked db
        (λ d. Bears d.accounts (p, x))
        ((if ltb_ℤ x (pos 0) then require p x else pure tt) db)
required_if-Bears p x db = elim (Bool-cases (ltb_ℤ x (pos 0))) [
  | inl l ↦ rw l (require-Bears p x db)
  | inr l ↦ rw l (refl, λ a q. receive-IsSolvent x a (not_below x (pos 0) l))
]

then_Checked :
    (P Q : Db → Type 0) (db after : Db) (r : Result Error Unit) (next : Session Unit)
    → Checked db P (r, after)
    → Checked db Q (next db)
    → Checked db (λ d. P d × Q d) (continue r (λ _. next) after)
then_Checked P Q db after (err e) next c d = tt
then_Checked P Q db after (ok u) next c d =
    subst (λ s. Checked db (λ d. P d × Q d) (next s)) (sym c.0) (both (next db).0 (next db).1 d)
  where
    both :
        (r : Result Error Unit) (s : Db) → Checked db Q (r, s) → Checked db (λ d. P d × Q d) (r, s)
    both (ok u) s q = (q.0, (c.1, q.1))
    both (err e) s q = tt

-- If the checks of a batch return, the accounts can bear each of its positions.
pub require_all-Bears :
    (net : List (ℕ × ℤ)) (db : Db)
    → Checked db (λ d. All (Bears d.accounts) net) (require_all net db)
unfolding require_all
require_all-Bears [] db = (refl, tt)
require_all-Bears ((p, x) ∷ rest) db =
    then_Checked (λ d. Bears d.accounts (p, x)) (λ d. All (Bears d.accounts) rest) db _ _
      (require_all rest) (required_if-Bears p x db) (require_all-Bears rest db)

-- The accounts once a position is applied.
abbrev applied : ℕ → ℤ → Db → Db
applied p x db = record db { accounts = update_first p cny (receive x) db.accounts }

abbrev Applied : List (ℕ × ℤ) → Db → Db → Type 0
Applied net db after =
    (total_balance after.accounts ≡ total_balance db.accounts +ℤ sum_positions net)
    × All IsSolvent after.accounts
    × (after.settlements ≡ db.settlements)

Bears-applied :
    (p : ℕ) (x : ℤ) (accounts : List CipsAccount) (rest : List (ℕ × ℤ))
    → Others p rest
    → All (Bears accounts) rest
    → All (Bears (update_first p cny (receive x) accounts)) rest
Bears-applied p x accounts [] o b = tt
Bears-applied p x accounts ((q, y) ∷ rest) o b = (
  (λ a found. b.0 a (sym (settlement_account-receive p q cny x accounts o.0) ∙ found)),
  Bears-applied p x accounts rest o.1 b.1,
)

shift_total :
    (before mid after x s b : ℤ)
    → mid +ℤ b ≡ before +ℤ (b +ℤ x)
    → after ≡ mid +ℤ s
    → after ≡ before +ℤ (x +ℤ s)
shift_total before mid after x s b h k =
    omega (int_laws, ap pos_part h, ap neg_part h, ap pos_part k, ap neg_part k)

zero_right : (x : ℤ) → x ≡ x +ℤ pos 0
zero_right x = omega int_laws

Applied-cons :
    (p : ℕ) (x : ℤ) (rest : List (ℕ × ℤ)) (db : Db) (a : CipsAccount) (r : Result Error Unit × Db)
    → settlement_account p cny db.accounts ≡ some a
    → OnOk (Applied rest (applied p x db)) r
    → OnOk (Applied ((p, x) ∷ rest) db) r
unfolding sum_positions
Applied-cons p x rest db a (ok u, after) e (t, s, k) = (
  shift_total _ (total_balance (applied p x db).accounts) _ x (sum_positions rest) a.balance
      (total_balance-update_first p cny (receive x) db.accounts a e) t,
  s,
  k,
)
Applied-cons p x rest db a (err f, after) e h = tt

-- Positions of different participants that the accounts can bear leave them solvent, and move the
-- sum of the balances by the sum of the positions.
pub apply_all-Applied :
    (net : List (ℕ × ℤ)) (db : Db)
    → Distinct net
    → All (Bears db.accounts) net
    → All IsSolvent db.accounts
    → OnOk (Applied net db) (apply_all net db)
unfolding apply_all apply_position account sum_positions
apply_all-Applied [] db d b s = (zero_right (total_balance db.accounts), s, refl)
apply_all-Applied ((p, x) ∷ rest) db d b s =
    elim (Option-cases (settlement_account p cny db.accounts)) [
      | inl e ↦ rw e tt
      | inr (a, e) ↦ rw e (
          Applied-cons p x rest db a (apply_all rest (applied p x db)) e (
            apply_all-Applied rest (applied p x db) d.1 (Bears-applied p x db.accounts rest d.0 b.1)
              (All-update_first p cny (receive x) IsSolvent db.accounts b.0 s)))
    ]
