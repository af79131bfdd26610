-- ===== src/Ecny/Ledger/Supply.antt =====
-- The sums of balances that the operations keep or change.
use swift.Prelude.{
  ℕ, ◌≡◌, refl, ap, Bool, true, false, Option, none, some, List, arith, Option-cases, inl, inr,
  ◌==◌, if◌then◌else◌,
}
use swift.Prelude.Int.{ℤ, pos, pos_part, neg_part, ◌+ℤ◌, ◌-ℤ◌, int_laws}
use swift.Prelude.Exec.Keeps.{OnOk}
use swift.Ecny.Ledger.{transfer}
use swift.Ecny.Store.{Db, Account, find_account}
use swift.Ecny.Store.Accounts.{adjust, known, total, total-adjust, find-adjust}
use swift.Ecny.Ledger.Posting.{Transferred, transfer-Outcome, Outcome-OnOk}
use swift.Ecny.Ledger.Issuing.{Issued}

abbrev pub in_currency : ℕ → Account → Bool
in_currency c a = a.currency == c

-- The row behind a known identifier.
pub known_row :
    (id : ℕ) (accounts : List Account)
    → known id accounts ≡ true
    → (a : Account) × (find_account id accounts ≡ some a)
known_row id accounts k = elim (Option-cases (find_account id accounts)) [
  | inl e ↦ cc (k, e)
  | inr (a, e) ↦ (a, e)
]

-- Two rows that a filter treats alike trade `x`.
trade :
    (k k' : Bool) (x before between after u v : ℤ)
    → k ≡ k'
    → between +ℤ (if k then u else pos 0) ≡ before +ℤ (if k then u -ℤ x else pos 0)
    → after +ℤ (if k' then v else pos 0) ≡ between +ℤ (if k' then v +ℤ x else pos 0)
    → after ≡ before
trade true true x before between after u v e p q =
    omega (int_laws, ap pos_part p, ap neg_part p, ap pos_part q, ap neg_part q)
trade false false x before between after u v e p q =
    omega (int_laws, ap pos_part p, ap neg_part p, ap pos_part q, ap neg_part q)
trade true false x before between after u v e p q = cc e
trade false true x before between after u v e p q = cc e

module _ (f t : ℕ) (x : ℤ) {db db' : Db} (m : Transferred f t x db db') where
  total-transferred :
      (c : ℕ) → total (in_currency c) db'.accounts ≡ total (in_currency c) db.accounts
  total-transferred c =
      let debited = adjust f (λ b. b -ℤ x) db.accounts in
      let (a, ea) = known_row f db.accounts m.moved.source_known in
      let (b, eb) = known_row t db.accounts m.moved.target_known in
      let eb' : find_account t debited ≡ some b =
        ground (arith, find-adjust f t (λ v. v -ℤ x) db.accounts, m.distinct, eb) in
      let same : some a.currency ≡ some b.currency = rw (ea, eb) at m.same_currency in
      let alike : in_currency c a ≡ in_currency c b = ground arith in
      let out = total-adjust (in_currency c) (λ r v. refl) f (λ v. v -ℤ x) db.accounts a ea in
      let inn = total-adjust (in_currency c) (λ r v. refl) t (λ v. v +ℤ x) debited b eb' in
      rw m.moved.accounts (
        trade (in_currency c a) (in_currency c b) x (total (in_currency c) db.accounts)
          (total (in_currency c) debited) (total (in_currency c) (adjust t (λ v. v +ℤ x) debited))
          a.balance b.balance alike out inn)

-- A transfer that succeeds leaves the sum of the balances of each currency as it was.
pub transfer_conserves :
    (f t : ℕ) (x : ℤ) (c : ℕ) (db : Db)
    → OnOk
        (λ db'. total (in_currency c) db'.accounts ≡ total (in_currency c) db.accounts)
        (transfer f t x db)
transfer_conserves f t x c db =
    Outcome-OnOk (Transferred f t x db)
      (λ db'. total (in_currency c) db'.accounts ≡ total (in_currency c) db.accounts) db
      (transfer f t x db).0 (transfer f t x db).1 (λ d m. total-transferred f t x m c)
      (transfer-Outcome f t x db)

-- A row that gains `x` adds `x` to a sum that counts it, and nothing to any other.
gain :
    (k : Bool) (x before after u : ℤ)
    → after +ℤ (if k then u else pos 0) ≡ before +ℤ (if k then u +ℤ x else pos 0)
    → after ≡ before +ℤ (if k then x else pos 0)
gain true x before after u p = omega (int_laws, ap pos_part p, ap neg_part p)
gain false x before after u p = omega (int_laws, ap pos_part p, ap neg_part p)

abbrev pub counted : (Account → Bool) → Option Account → Bool
counted keep none = false
counted keep (some a) = keep a

module _ (keep : Account → Bool)
    (blind : (a : Account) (b : ℤ) → keep (record a { balance = b }) ≡ keep a) where
  -- Issuance raises the sum over the accounts of its currency by its amount.
  pub total-issue :
      (id : ℕ) (x : ℤ) {db db' : Db}
      → Issued id x db db'
      → total keep db'.accounts
        ≡ total keep db.accounts
          +ℤ (if counted keep (find_account id db.accounts) then x else pos 0)
  total-issue id x {db} m =
      let (a, ea) = known_row id db.accounts m.target_known in
      let moved = total-adjust keep blind id (λ v. v +ℤ x) db.accounts a ea in
      rw (m.accounts, ea) (gain (keep a) x _ _ a.balance moved)
