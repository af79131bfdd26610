-- ===== src/Ecny/Issuance/Cap.antt =====
-- The issuance cap and what circulates.
use swift.Prelude.{ℕ, ◌≡◌, refl, Bool, Bool-cases, inl, inr, arith, if◌then◌else◌}
use swift.Prelude.Int.{ℤ, pos, ◌+ℤ◌, ◌≤ℤ◌, leb_ℤ, ltb_ℤ, int_laws}
use swift.Prelude.Exec.{Result, ok, err, commit, map_error}
use swift.Prelude.Exec.Keeps.{OnOk}
use swift.Ecny.Store.{Db, Error, find_account}
use swift.Ecny.Store.Accounts.{Unique}
use swift.Ecny.Ledger.{mint}
use swift.Ecny.Ledger.Posting.{Outcome}
use swift.Ecny.Ledger.Issuing.{Issued, mint-Outcome}
use swift.Ecny.Ledger.Supply.{total-issue, counted}
use swift.Ecny.Issuance.{
  issuance_cap_fen, circulates, net_issuance_of, wrap_ledger, issue_to_operator,
}

-- The operator's own currency decides whether the amount counts.
pub record Capped (id : ℕ) (x : ℤ) (db db' : Db) : Type 0 where
  pub within : net_issuance_of db' ≤ℤ pos issuance_cap_fen
  pub grown :
      net_issuance_of db'
      ≡ net_issuance_of db
        +ℤ (if counted circulates (find_account id db.accounts) then x else pos 0)

at_most : (k : Bool) (x : ℤ) → pos 1 ≤ℤ x → (if k then x else pos 0) ≤ℤ x
at_most k x h = ground arith

module _ (id : ℕ) (x : ℤ) (db : Db) (room : net_issuance_of db +ℤ x ≤ℤ pos issuance_cap_fen) where
  Issued-Capped : (db' : Db) → Issued id x db db' → Capped id x db db'
  Issued-Capped db' m =
      let grown = total-issue circulates (λ a b. refl) id x m in
      record {
        within = rw grown (
            omega (
              int_laws,
              room,
              at_most (counted circulates (find_account id db.accounts)) x m.positive,
            ));
        grown = grown;
      }

  minted_Capped :
      (r : Result Error ℕ) (db' : Db)
      → Outcome (Issued id x db) db (commit db r db')
      → OnOk (Capped id x db) (map_error wrap_ledger r, db')
  minted_Capped (ok a) db' o = Issued-Capped db' o
  minted_Capped (err e) db' o = tt

-- Where no account is listed twice, an issuance to an operator that succeeds leaves at most the
-- cap in circulation, and what circulates has grown by its amount, or not at all if the account
-- does not count.
pub issue_to_operator-Capped :
    (id : ℕ) (x : ℤ) (db : Db)
    → Unique db.accounts
    → OnOk (Capped id x db) (issue_to_operator id x db)
unfolding issue_to_operator
issue_to_operator-Capped id x db u = elim (Bool-cases (leb_ℤ x (pos 0))) [
  | inl h ↦ rw (h, OnOk) tt
  | inr h ↦ elim (Bool-cases (ltb_ℤ (pos issuance_cap_fen) (net_issuance_of db +ℤ x))) [
    | inl h₁ ↦ rw (h, h₁) tt
    | inr h₁ ↦
        rw (h, h₁)
          (minted_Capped id x db (ground arith) (mint id x db).0 (mint id x db).1
            (mint-Outcome id x db u))
  ]
]
