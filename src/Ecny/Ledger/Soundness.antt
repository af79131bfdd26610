-- ===== src/Ecny/Ledger/Soundness.antt =====
-- The invariant of the ledger, and its operations.
use swift.Prelude.{
  ℕ, ◌≡◌, refl, ap, ◌∙◌, true, false, none, List, [], ◌∷◌, ◌++◌, arith, ◌==◌, Bool-cases,
  Option-cases, inl, inr, find-append_none, find-append_some,
}
use swift.Prelude.Int.{ℤ, pos, ◌+ℤ◌, ◌-ℤ◌, ◌≤ℤ◌, int_laws}
use swift.Ecny.Store.{Db, Account, find_account}
use swift.Ecny.Store.Accounts.{
  adjust, known, balance_of, issuer_at, Unique, adjust-Unique, append-Unique, issuer_at-adjust,
  balance_of-adjust, known-adjust,
}
use swift.Ecny.Ledger.Posting.{posted, flow, Moved, Untouched}
use swift.Ecny.Ledger.Issuing.{Issued, Redeemed}

-- No account is listed twice, no balance is negative, and every balance but an issuance account's
-- is what its entries add up to.
pub record IsSound (db : Db) : Type 0 where
  pub unique : Unique db.accounts
  pub nonneg : (id : ℕ) → pos 0 ≤ℤ balance_of id db.accounts
  pub reconciled :
      (id : ℕ) → issuer_at id db.accounts ≡ false → balance_of id db.accounts ≡ posted id db.entries

-- An account that is no issuance account sees nothing of an issuance account's leg.
pub flow_ne :
    (j id : ℕ) (x : ℤ) (accounts : List Account)
    → issuer_at id accounts ≡ true
    → issuer_at j accounts ≡ false
    → flow j id x ≡ pos 0
flow_ne j id x accounts hi hj = elim (Bool-cases (id == j)) [
  | inl e ↦ let same : id ≡ j = ground arith in cc (hi, hj, ap (λ k. issuer_at k accounts) same)
  | inr e ↦ rw e
]

module _ (j id : ℕ) (x : ℤ) (accounts : List Account) (k : known id accounts ≡ true) where
  pub balance_of-increase :
      balance_of j (adjust id (λ b. b +ℤ x) accounts) ≡ balance_of j accounts +ℤ flow j id x
  balance_of-increase = elim (Bool-cases (id == j)) [
    | inl e ↦ let same : id ≡ j = ground arith in rw (balance_of-adjust, e, rw same at k) refl
    | inr e ↦ rw (balance_of-adjust, e) (omega int_laws)
  ]

  pub balance_of-decrease :
      balance_of j (adjust id (λ b. b -ℤ x) accounts)
      ≡ balance_of j accounts +ℤ flow j id (pos 0 -ℤ x)
  balance_of-decrease = elim (Bool-cases (id == j)) [
    | inl e ↦
        let same : id ≡ j = ground arith in rw (balance_of-adjust, e, rw same at k) (omega int_laws)
    | inr e ↦ rw (balance_of-adjust, e) (omega int_laws)
  ]

pub flow_nonneg : (j id : ℕ) (x : ℤ) → pos 1 ≤ℤ x → pos 0 ≤ℤ flow j id x
flow_nonneg j id x h = ground arith

-- A covered debit leaves no balance below zero.
pub debit_nonneg :
    (j id : ℕ) (x : ℤ) (accounts : List Account)
    → x ≤ℤ balance_of id accounts
    → pos 0 ≤ℤ balance_of j accounts
    → pos 0 ≤ℤ balance_of j accounts +ℤ flow j id (pos 0 -ℤ x)
debit_nonneg j id x accounts covered h = elim (Bool-cases (id == j)) [
  | inl e ↦
      let same : id ≡ j = ground arith in
      let enough : x ≤ℤ balance_of j accounts = rw same at covered in rw e (omega int_laws)
  | inr e ↦ rw e (omega int_laws)
]

module _ (f t : ℕ) (x y : ℤ) {db db' : Db} (m : Moved f t x y db db') where
  pub balance_of-move :
      (j : ℕ)
      → balance_of j db'.accounts
        ≡ balance_of j db.accounts +ℤ (flow j f (pos 0 -ℤ x) +ℤ flow j t y)
  balance_of-move j =
      rw
        (
          m.accounts,
          balance_of-increase j t y (adjust f (λ b. b -ℤ x) db.accounts)
              (known-adjust f t (λ b. b -ℤ x) db.accounts ∙ m.target_known),
          balance_of-decrease j f x db.accounts m.source_known,
        )
        (omega int_laws)

  issuer_at-move : (j : ℕ) → issuer_at j db'.accounts ≡ issuer_at j db.accounts
  issuer_at-move j = rw (
    m.accounts,
    issuer_at-adjust t j (λ b. b +ℤ y) (adjust f (λ b. b -ℤ x) db.accounts),
    issuer_at-adjust f j (λ b. b -ℤ x) db.accounts,
  )

  -- A movement keeps the ledger sound.
  pub Moved-IsSound : IsSound db → IsSound db'
  Moved-IsSound s = record {
    unique =
        rw m.accounts
          (adjust-Unique t (λ b. b +ℤ y) _ (adjust-Unique f (λ b. b -ℤ x) db.accounts s.unique));
    nonneg = λ j. rw (balance_of-move j) (
        omega (
          int_laws,
          debit_nonneg j f x db.accounts m.covered (s.nonneg j),
          flow_nonneg j t y m.positive.1,
        ));
    reconciled =
        λ j h. rw (balance_of-move j, m.entries j, s.reconciled j (rw issuer_at-move at h)) refl;
  }

module _ (t : ℕ) (x : ℤ) {db db' : Db} (m : Issued t x db db') where
  pub balance_of-issue :
      (j : ℕ) → balance_of j db'.accounts ≡ balance_of j db.accounts +ℤ flow j t x
  balance_of-issue j = rw m.accounts (balance_of-increase j t x db.accounts m.target_known)

  pub issuer_at-issue : (j : ℕ) → issuer_at j db'.accounts ≡ issuer_at j db.accounts
  issuer_at-issue j = rw (m.accounts, issuer_at-adjust t j (λ b. b +ℤ x) db.accounts)

  -- The issuance account's entries are the only ones with no balance behind them.
  pub Issued-IsSound : IsSound db → IsSound db'
  Issued-IsSound s = record {
    unique = rw m.accounts (adjust-Unique t (λ b. b +ℤ x) db.accounts s.unique);
    nonneg =
        λ j. rw (balance_of-issue j) (omega (int_laws, s.nonneg j, flow_nonneg j t x m.positive));
    reconciled = λ j h.
        let h' = rw issuer_at-issue at h in
        rw
          (
            balance_of-issue j,
            m.entries j,
            s.reconciled j h',
            flow_ne j m.issuer (pos 0 -ℤ x) db.accounts m.issuer_known h',
          )
          (omega int_laws);
  }

module _ (f : ℕ) (x : ℤ) {db db' : Db} (m : Redeemed f x db db') where
  pub balance_of-redeem :
      (j : ℕ) → balance_of j db'.accounts ≡ balance_of j db.accounts +ℤ flow j f (pos 0 -ℤ x)
  balance_of-redeem j = rw m.accounts (balance_of-decrease j f x db.accounts m.source_known)

  issuer_at-redeem : (j : ℕ) → issuer_at j db'.accounts ≡ issuer_at j db.accounts
  issuer_at-redeem j = rw (m.accounts, issuer_at-adjust f j (λ b. b -ℤ x) db.accounts)

  pub Redeemed-IsSound : IsSound db → IsSound db'
  Redeemed-IsSound s = record {
    unique = rw m.accounts (adjust-Unique f (λ b. b -ℤ x) db.accounts s.unique);
    nonneg = λ j. rw (balance_of-redeem j) (debit_nonneg j f x db.accounts m.covered (s.nonneg j));
    reconciled = λ j h.
        let h' = rw issuer_at-redeem at h in
        rw
          (
            balance_of-redeem j,
            m.entries j,
            s.reconciled j h',
            flow_ne j m.issuer x db.accounts m.issuer_known h',
          )
          (omega int_laws);
  }

pub Untouched-IsSound : {db db' : Db} → Untouched db db' → IsSound db → IsSound db'
Untouched-IsSound u s = record {
  unique = rw u.accounts s.unique;
  nonneg = λ j. rw u.accounts (s.nonneg j);
  reconciled = λ j. rw (u.accounts, u.entries) (s.reconciled j);
}

-- A new account starts at zero, and no entry names it yet.
module _ (db : Db) (a : Account) (zero_balance : a.balance ≡ pos 0)
    (free : find_account a.account_id db.accounts ≡ none) where
  balance_of-append : (j : ℕ) → balance_of j (db.accounts ++ a ∷ []) ≡ balance_of j db.accounts
  balance_of-append j = elim (Option-cases (find_account j db.accounts)) [
    | inl e ↦
        rw (find-append_none (λ r. r.account_id == j) db.accounts (a ∷ []) e, e) (ground arith)
    | inr (b, e) ↦ rw (find-append_some (λ r. r.account_id == j) db.accounts (a ∷ []) b e, e)
  ]

  issuer_at-append :
      (j : ℕ) → issuer_at j (db.accounts ++ a ∷ []) ≡ false → issuer_at j db.accounts ≡ false
  issuer_at-append j h = elim (Option-cases (find_account j db.accounts)) [
    | inl e ↦ rw e
    | inr (b, e) ↦
        rw e (rw (find-append_some (λ r. r.account_id == j) db.accounts (a ∷ []) b e) at h)
  ]

  pub append-IsSound : IsSound db → IsSound (record db { accounts = db.accounts ++ a ∷ [] })
  append-IsSound s = record {
    unique = append-Unique db.accounts a s.unique free;
    nonneg = λ j. rw (balance_of-append j) (s.nonneg j);
    reconciled = λ j h. balance_of-append j ∙ s.reconciled j (issuer_at-append j h);
  }
