-- ===== src/Nextgen/Pvp/Settling.antt =====
-- How a commit ends.
use swift.Prelude.{
  ℕ, ◌≡◌, sym, ◌⊎◌, Bool, true, false, not, ◌||◌, Option, some, List, arith, update_found,
  find-eq_some, find-update_found, inl, inr, ◌==◌, ==_iff,
}
use mathlib.Core.Path.{subst}
use swift.Prelude.Exec.{atomic}
use swift.Prelude.Exec.Returns.{OnOk-bind, OnOk-raise_if, OnOk-or_raise, Ends, Ends-atomic}
use swift.Nextgen.Pvp.{
  Desk, Pvp, PvpState, PvpError, Failure, raised, find_pvp, is_locked, moved_to, commit_locked,
  commit_pvp,
}
use swift.Nextgen.Pvp.Legs.{BothMoved, On, Closed, commit_locked-Closes}

-- What a commit that returns has made of the settlement.
pub record Committed (id : ℕ) (pvp : Pvp) (db s : Desk) : Type 0 where
  pub row : find_pvp id s.pvps ≡ some (moved_to PvpState.committed pvp.failure_reason pvp)
  pub legs : BothMoved pvp db.ledger s.ledger

pub record Aborted (id : ℕ) (pvp : Pvp) (db s : Desk) : Type 0 where
  pub reason : PvpError
  pub row : find_pvp id s.pvps ≡ some (moved_to PvpState.aborted (some (raised reason)) pvp)
  pub unmoved : s.ledger ≡ db.ledger

pub record Settled (id expected_version : ℕ) (db s : Desk) : Type 0 where
  pub pvp : Pvp
  pub was : find_pvp id db.pvps ≡ some pvp
  pub was_locked : is_locked pvp.state ≡ true
  pub was_current : pvp.version ≡ expected_version
  pub either : Committed id pvp db s ⊎ Aborted id pvp db s

close_row :
    (id : ℕ) (pvps : List Pvp) (pvp : Pvp) (state : PvpState) (reason : Option Failure)
    → find_pvp id pvps ≡ some pvp
    → pvp.pvp_id ≡ id
    → find_pvp id (update_found (λ p. p.pvp_id == pvp.pvp_id) (moved_to state reason) pvps)
      ≡ some (moved_to state reason pvp)
close_row id pvps pvp state reason found same =
    subst
      (λ k.
        find_pvp id (update_found (λ p. p.pvp_id == k) (moved_to state reason) pvps)
        ≡ some (moved_to state reason pvp))
      (sym same)
      (find-update_found (λ p. p.pvp_id == id) (moved_to state reason) pvps pvp found
        ((==_iff pvp.pvp_id id).1 same))

neither : (b c : Bool) → (not b || not c) ≡ false → (b ≡ true) × (c ≡ true)
neither b c h = (ground arith, ground arith)

module _ (lease_of owner_of : ℕ → ℕ) where
  -- A commit of a settlement of two legs that returns found it locked and of the version expected,
  -- and either it is now committed and both legs are moved, or it is now aborted, with the error
  -- as its reason, and the ledger is as it was; its version is one higher. A commit that raises
  -- leaves the session as it was.
  pub commit_pvp-Settles :
      (id expected_version : ℕ) (db : Desk)
      → Ends
          (Settled id expected_version db)
          (λ s. s ≡ db)
          (atomic (commit_pvp lease_of owner_of id expected_version) db)
  unfolding commit_pvp
  commit_pvp-Settles id expected_version db =
      let Q : Desk → Type 0 = Settled id expected_version db in
      Ends-atomic Q (λ s. s ≡ db) (commit_pvp lease_of owner_of id expected_version) db
        (OnOk-or_raise Q (find_pvp id db.pvps) _ _ db λ pvp found.
          OnOk-raise_if Q (not (pvp.version == expected_version) || not (is_locked pvp.state)) _ _
            db
            λ free.
              let (current, locked_state) =
                neither (pvp.version == expected_version) (is_locked pvp.state) free in
              let same : pvp.pvp_id ≡ id =
                (==_iff pvp.pvp_id id).0 (find-eq_some (λ p. p.pvp_id == id) db.pvps pvp found) in
              OnOk-bind (On (Closed lease_of owner_of pvp db.ledger db.pvps)) Q
                (commit_locked lease_of owner_of pvp) _ db
                (commit_locked-Closes lease_of owner_of pvp db)
                λ u s closed. record {
                  pvp = pvp;
                  was = found;
                  was_locked = locked_state;
                  was_current = (==_iff pvp.version expected_version).0 current;
                  either = elim closed [
                    | inl done ↦ inl (record {
                      row = rw done.1 (
                          close_row id db.pvps pvp PvpState.committed pvp.failure_reason found
                            same);
                      legs = done.0;
                    })
                    | inr (reason, unmoved, rows) ↦ inr (record {
                      reason = reason;
                      row = rw rows (
                          close_row id db.pvps pvp PvpState.aborted (some (raised reason)) found
                            same);
                      unmoved = unmoved;
                    })
                  ];
                })
