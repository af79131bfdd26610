-- ===== src/Ecny/Ledger/Issuing.antt =====
-- Issuance and redemption: one balance moves, and the entries have the issuance account as the
-- other side.
use swift.Prelude.{
  ℕ, ◌≡◌, refl, true, some, arith, Bool-cases, Option-cases, inl, inr, ◌==◌, ◌&&◌, find,
  find-eq_some,
}
use swift.Prelude.Int.{ℤ, pos, ◌+ℤ◌, ◌-ℤ◌, ◌≤ℤ◌, leb_ℤ, ltb_ℤ}
use swift.Prelude.Exec.{atomic}
use swift.Ecny.Store.{Db, Account, find_account, is_operator, is_central_bank}
use swift.Ecny.Store.Accounts.{
  adjust, known, balance_of, issuer_at, Unique, adjust-Unique, find_account-find, issuer_at-adjust,
}
use swift.Ecny.Ledger.{add_entry, begin_tx, settle, mint, burn}
use swift.Ecny.Ledger.Posting.{posted, flow, Outcome, posted-append_two}

-- The central bank's side of the posting is the account `issuer`.
pub record Issued (target : ℕ) (amount : ℤ) (db db' : Db) : Type 0 where
  pub positive : pos 1 ≤ℤ amount
  pub target_known : known target db.accounts ≡ true
  pub issuer : ℕ
  pub issuer_known : issuer_at issuer db.accounts ≡ true
  pub accounts : db'.accounts ≡ adjust target (λ b. b +ℤ amount) db.accounts
  pub entries :
      (id : ℕ)
      → posted id db'.entries
        ≡ posted id db.entries +ℤ (flow id issuer (pos 0 -ℤ amount) +ℤ flow id target amount)

pub record Redeemed (source : ℕ) (amount : ℤ) (db db' : Db) : Type 0 where
  pub positive : pos 1 ≤ℤ amount
  pub source_known : known source db.accounts ≡ true
  pub covered : amount ≤ℤ balance_of source db.accounts
  pub issuer : ℕ
  pub issuer_known : issuer_at issuer db.accounts ≡ true
  pub accounts : db'.accounts ≡ adjust source (λ b. b -ℤ amount) db.accounts
  pub entries :
      (id : ℕ)
      → posted id db'.entries
        ≡ posted id db.entries +ℤ (flow id source (pos 0 -ℤ amount) +ℤ flow id issuer amount)

module _ (id : ℕ) (x : ℤ) (db : Db) (u : Unique db.accounts) (a : Account)
    (ea : find_account id db.accounts ≡ some a) where
  -- The issuance account is found after the balance has been written.
  issuer_at-find :
      (f : ℤ → ℤ) (cb : Account)
      → find
          (λ c. is_central_bank c.owner_type && (c.currency == a.currency))
          (adjust id f db.accounts)
        ≡ some cb
      → issuer_at cb.account_id db.accounts ≡ true
  issuer_at-find f cb e = ground (
    arith,
    find_account-find (λ c. is_central_bank c.owner_type && (c.currency == a.currency))
        (adjust id f db.accounts) cb (adjust-Unique id f db.accounts u) e,
    find-eq_some (λ c. is_central_bank c.owner_type && (c.currency == a.currency))
        (adjust id f db.accounts) cb e,
    issuer_at-adjust id cb.account_id f db.accounts,
  )

  mint_found : Outcome (Issued id x db) db (atomic (mint id x) db)
  unfolding mint begin_tx settle add_entry
  mint_found = elim (Bool-cases (leb_ℤ x (pos 0))) [
    | inl h ↦ ground arith
    | inr h ↦ elim (Bool-cases (is_operator a.owner_type)) [
      | inr h₁ ↦ rw (h, ea, h₁) (ground arith)
      | inl h₁ ↦
          elim (Option-cases (
            find (λ c. is_central_bank c.owner_type && (c.currency == a.currency))
              (adjust id (λ b. b +ℤ x) db.accounts))) [
                | inl e ↦ rw (h, ea, h₁, e) (ground arith)
                | inr (cb, e) ↦
                    rw (h, ea, h₁, e)
                      (record {
                        positive = ground arith;
                        target_known = rw ea refl;
                        issuer = cb.account_id;
                        issuer_known = issuer_at-find (λ b. b +ℤ x) cb e;
                        accounts = refl;
                        entries = λ j. rw posted-append_two;
                      })
              ]
    ]
  ]

  burn_found : Outcome (Redeemed id x db) db (atomic (burn id x) db)
  unfolding burn begin_tx settle add_entry
  burn_found = elim (Bool-cases (leb_ℤ x (pos 0))) [
    | inl h ↦ ground arith
    | inr h ↦ elim (Bool-cases (is_operator a.owner_type)) [
      | inr h₁ ↦ rw (h, ea, h₁) (ground arith)
      | inl h₁ ↦ elim (Bool-cases (ltb_ℤ a.balance x)) [
        | inl h₂ ↦ rw (h, ea, h₁, h₂) (ground arith)
        | inr h₂ ↦
            elim (Option-cases (
              find (λ c. is_central_bank c.owner_type && (c.currency == a.currency))
                (adjust id (λ b. b -ℤ x) db.accounts))) [
                  | inl e ↦ rw (h, ea, h₁, h₂, e) (ground arith)
                  | inr (cb, e) ↦
                      rw (h, ea, h₁, h₂, e)
                        (record {
                          positive = ground arith;
                          source_known = rw ea refl;
                          covered = rw ea (ground arith);
                          issuer = cb.account_id;
                          issuer_known = issuer_at-find (λ b. b -ℤ x) cb e;
                          accounts = refl;
                          entries = λ j. rw posted-append_two;
                        })
                ]
      ]
    ]
  ]

-- Where no account is listed twice, a mint that is committed adds a positive amount to the target
-- account, and posts it as a debit of an issuance account and a credit of the target; one that
-- raises is rolled back.
pub mint-Outcome :
    (id : ℕ) (x : ℤ) (db : Db)
    → Unique db.accounts
    → Outcome (Issued id x db) db (atomic (mint id x) db)
unfolding mint
mint-Outcome id x db u = elim (Option-cases (find_account id db.accounts)) [
  | inl e ↦ ground arith
  | inr (a, e) ↦ mint_found id x db u a e
]

-- Where no account is listed twice, a burn that is committed takes a positive amount that the
-- source covers, and posts it as a debit of the source and a credit of an issuance account; one
-- that raises is rolled back.
pub burn-Outcome :
    (id : ℕ) (x : ℤ) (db : Db)
    → Unique db.accounts
    → Outcome (Redeemed id x db) db (atomic (burn id x) db)
unfolding burn
burn-Outcome id x db u = elim (Option-cases (find_account id db.accounts)) [
  | inl e ↦ ground arith
  | inr (a, e) ↦ burn_found id x db u a e
]
