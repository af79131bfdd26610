-- ===== src/Ecny/Cips/Settlement.antt =====
-- What a settlement through CIPS does to the ledger.
use swift.Prelude.{ℕ, ◌≡◌, refl, ◌∙◌, Option, Bool-cases, inl, inr}
use swift.Prelude.Int.{ℤ, pos, leb_ℤ}
use swift.Prelude.Exec.{Result, ok, err}
use swift.Ecny.Store.{
  Db, Error, ledger_error, wallet_error, issuance_error, cips_error, key_error, integrity_error,
  http,
}
use swift.Ecny.Ledger.{transfer}
use swift.Ecny.Ledger.Posting.{Outcome, Transferred, Untouched, transfer-Outcome}
use swift.Ecny.Cips.{conclude, settle_via_cips}

module _ (f t : ℕ) (x : ℤ) (id : ℕ) (db before : Db) (a : before.accounts ≡ db.accounts)
    (e : before.entries ≡ db.entries) where
  retarget : (d : Db) → Transferred f t x before d → Transferred f t x db d
  retarget d m = record {
    moved = record {
      positive = m.moved.positive;
      covered = rw (← a) m.moved.covered;
      source_known = rw (← a) m.moved.source_known;
      target_known = rw (← a) m.moved.target_known;
      accounts = rw (← a) m.moved.accounts;
      entries = λ j. rw (← e) (m.moved.entries j);
    };
    distinct = m.distinct;
    same_currency = rw (← a) m.same_currency;
  }

  retarget-Untouched : (d : Db) → Untouched before d → Untouched db d
  retarget-Untouched d m = record { accounts = m.accounts ∙ a; entries = m.entries ∙ e }

  concluded :
      (r : Result Error ℕ) (d : Db)
      → Outcome (Transferred f t x before) before (r, d)
      → Outcome (Transferred f t x db) db (conclude id r d)
  concluded (ok tx) d o =
      let m = retarget d o in
      record {
        moved = record {
          positive = m.moved.positive;
          covered = m.moved.covered;
          source_known = m.moved.source_known;
          target_known = m.moved.target_known;
          accounts = m.moved.accounts;
          entries = m.moved.entries;
        };
        distinct = m.distinct;
        same_currency = m.same_currency;
      }
  concluded (err (ledger_error r)) d o = record {
    accounts = (retarget-Untouched d o).accounts;
    entries = (retarget-Untouched d o).entries;
  }
  concluded (err (wallet_error r)) d o = retarget-Untouched d o
  concluded (err (issuance_error r)) d o = retarget-Untouched d o
  concluded (err (cips_error r)) d o = retarget-Untouched d o
  concluded (err key_error) d o = retarget-Untouched d o
  concluded (err integrity_error) d o = retarget-Untouched d o
  concluded (err (http n)) d o = retarget-Untouched d o

-- A settlement through CIPS that succeeds moves the amount from one account to the other, both of
-- one currency, on balances and entries alike; one that raises moves nothing.
pub settle_via_cips-Outcome :
    (f t : ℕ) (x : ℤ) (counterparty : Option ℕ) (db : Db)
    → Outcome (Transferred f t x db) db (settle_via_cips f t x counterparty db)
unfolding settle_via_cips
settle_via_cips-Outcome f t x counterparty db = elim (Bool-cases (leb_ℤ x (pos 0))) [
  | inl h ↦ rw h (record { accounts = refl; entries = refl })
  | inr h ↦ rw h (
      concluded f t x _ db _ refl refl (transfer f t x _).0 (transfer f t x _).1
        (transfer-Outcome f t x _))
]
