-- ===== src/Nextgen/Pvp/Verdicts.antt =====
-- Settlements that are committed or aborted, and further requests.
use swift.Prelude.{
  ℕ, ◌≡◌, refl, ◌∙◌, sym, ap, Bool, true, false, not, ◌||◌, Option, none, some, List, [], ◌∷◌, ◌++◌,
  arith, update_found, find-eq_some, find-append_some, Bool-cases, inl, inr, ◌==◌, ==_iff,
  if◌then◌else◌,
}
use mathlib.Core.Path.{subst}
use mathlib.Core.Option.{some-injective}
use swift.Prelude.Int.{ℤ}
use swift.Prelude.Exec.{Exec, Result, ok, err, map_error, modify, atomic}
use swift.Prelude.Exec.Keeps.{OnOk, Keeps, Keeps-atomic, keeps_rules}
use swift.Prelude.Exec.Returns.{OnOk-bind, OnOk-raise_if, OnOk-or_raise}
use swift.Nextgen.Store.{Db as Platform, Error as PlatformError}
use swift.Nextgen.Pvp.{
  Desk, Pvp, PvpState, Leg, Role, Decimal, PvpError, Failure, raised, given, PvpSession,
  on_platform, platform_raised, find_pvp, is_created, is_locked, is_committed, moved_to,
  register_jurisdiction, register_node, create_quote, active_quote, quote_amount, create_pvp,
  check_source, lock_pvp, commit_locked, commit_pvp, abort_pvp,
}
use swift.Nextgen.Pvp.Legs.{On, Closed, commit_locked-Closes}

abbrev pub is_final : PvpState → Bool
is_final PvpState.committed = true
is_final PvpState.aborted = true
is_final _ = false

abbrev pub Verdict : ℕ → PvpState → List Pvp → Type 0
Verdict id state pvps = (p : Pvp) × (find_pvp id pvps ≡ some p) × (p.state ≡ state)

abbrev rewritten : (Pvp → Pvp) → Option Pvp → Option Pvp
rewritten f none = none
rewritten f (some p) = some (f p)

find-write :
    (k j : ℕ) (state : PvpState) (reason : Option Failure) (pvps : List Pvp)
    → find_pvp j (update_found (λ p. p.pvp_id == k) (moved_to state reason) pvps)
      ≡ (if k == j then rewritten (moved_to state reason) (find_pvp j pvps) else find_pvp j pvps)
find-write k j state reason [] = ground arith
find-write k j state reason (p ∷ rest) = ground (arith, find-write k j state reason rest)

-- A write keeps a verdict, if it is to another settlement or gives the same verdict.
write-Verdict :
    (k j : ℕ) (state verdict : PvpState) (reason : Option Failure) (pvps : List Pvp) (p : Pvp)
    → find_pvp k pvps ≡ some p
    → (p.state ≡ verdict → state ≡ verdict)
    → Verdict j verdict pvps
    → Verdict j verdict (update_found (λ q. q.pvp_id == k) (moved_to state reason) pvps)
write-Verdict k j state verdict reason pvps p found allowed (q, at, is) =
    elim (Bool-cases (k == j)) [
      | inl e ↦
          let same : k ≡ j = (==_iff k j).0 e in
          let row : p ≡ q =
            some-injective p q (sym found ∙ subst (λ i. find_pvp i pvps ≡ some q) (sym same) at) in
          (
            moved_to state reason q,
            rw (find-write k j state reason pvps, e, at) refl,
            allowed (ap Pvp.state row ∙ is),
          )
      | inr e ↦ (q, rw (find-write k j state reason pvps, e) at, is)
    ]

-- These only read.
active_quote-Keeps : {P : Desk → Type 0} (q : ℕ) (x : ℤ) → Keeps P (active_quote q x)
unfolding active_quote
active_quote-Keeps q x = search keeps_rules depth 30

check_source-Keeps : {P : Desk → Type 0} (leg : Leg) → Keeps P (check_source leg)
unfolding check_source
check_source-Keeps leg = search keeps_rules depth 30

module _ (id : ℕ) (verdict : PvpState) (final : is_final verdict ≡ true) where
  abbrev Stays : Desk → Type 0
  Stays s = Verdict id verdict s.pvps

  not_created : (s : PvpState) → is_created s ≡ true → s ≡ verdict → PvpState.locked ≡ verdict
  not_created PvpState.created c e = cc (ap is_final e, final)
  not_created PvpState.locked c e = cc
  not_created PvpState.committed c e = cc
  not_created PvpState.aborted c e = cc

  not_locked : (s t : PvpState) → is_locked s ≡ true → s ≡ verdict → t ≡ verdict
  not_locked PvpState.locked t c e = cc (ap is_final e, final)
  not_locked PvpState.created t c e = cc
  not_locked PvpState.committed t c e = cc
  not_locked PvpState.aborted t c e = cc

  still_aborted : (s : PvpState) → is_committed s ≡ false → s ≡ verdict → PvpState.aborted ≡ verdict
  still_aborted PvpState.committed c e = cc
  still_aborted PvpState.aborted c e = e
  still_aborted PvpState.created c e = cc (ap is_final e, final)
  still_aborted PvpState.locked c e = cc (ap is_final e, final)

  modify-Stays :
      (f : Desk → Desk) → ((s : Desk) → (f s).pvps ≡ s.pvps) → Keeps {E = PvpError} Stays (modify f)
  modify-Stays f same = record { at = λ s h. subst (λ ps. Verdict id verdict ps) (sym (same s)) h }

  on_platform-Stays : {A : Type 0} (m : Exec Platform PlatformError A) → Keeps Stays (on_platform m)
  on_platform-Stays m = record { at = λ s h. kept (m s.platform).0 (m s.platform).1 s h }
    where
      kept :
          {A : Type 0} (r : Result PlatformError A) (p : Platform) (s : Desk)
          → Stays s
          → OnOk Stays (map_error platform_raised r, record s { platform = p })
      kept (ok a) p s h = h
      kept (err e) p s h = tt

  register_jurisdiction-Stays :
      (c u b d : ℕ) (x : ℤ) (ps : List ℕ) → Keeps Stays (register_jurisdiction c u b d x ps)
  unfolding register_jurisdiction
  register_jurisdiction-Stays c u b d x ps = search (keeps_rules, modify-Stays) depth 20

  register_node-Stays : (n j p : ℕ) (role : Option Role) → Keeps Stays (register_node n j p role)
  unfolding register_node
  register_node-Stays n j p role = search (keeps_rules, modify-Stays) depth 30

  create_quote-Stays :
      (p b q : ℕ) (rate : Option Decimal) (m f t : ℤ) → Keeps Stays (create_quote p b q rate m f t)
  unfolding create_quote
  create_quote-Stays p b q rate m f t =
      search (keeps_rules, modify-Stays, on_platform-Stays) depth 30

  quote_amount-Stays : (q : ℕ) (x : ℤ) → Keeps Stays (quote_amount q x)
  unfolding quote_amount
  quote_amount-Stays q x = search (keeps_rules, active_quote-Keeps) depth 30

  add_pvp-Stays :
      (p : Pvp) → Keeps {E = PvpError} Stays (modify (λ s. record s { pvps = s.pvps ++ p ∷ [] }))
  add_pvp-Stays p = record {
    at = λ s h. (h.0, find-append_some (λ (q : Pvp). q.pvp_id == id) s.pvps (p ∷ []) h.0 h.1, h.2);
  }

  create_pvp-Stays : (q : ℕ) (d c : Leg) → Keeps Stays (create_pvp q d c)
  unfolding create_pvp
  create_pvp-Stays q d c =
      search (keeps_rules, active_quote-Keeps, quote_amount-Stays, on_platform-Stays, add_pvp-Stays)
        depth 50

  -- The last step of a lock, where the rows are those that the first step read.
  abbrev Read : List Pvp → Desk → Type 0
  Read pvps s = s.pvps ≡ pvps

  lock_pvp-Stays : (k v : ℕ) → Keeps Stays (lock_pvp k v)
  unfolding lock_pvp
  lock_pvp-Stays k v = record {
    at = λ db h. OnOk-or_raise Stays (find_pvp k db.pvps) _ _ db λ p found.
        OnOk-raise_if Stays (not (p.version == v) || not (is_created p.state)) _ _ db λ free.
          let fresh : is_created p.state ≡ true = ground arith in
          OnOk-bind (Read db.pvps) Stays (active_quote p.quote_id p.debit_leg.amount) _ db
            ((active_quote-Keeps p.quote_id p.debit_leg.amount).at db refl)
            λ q s e.
              OnOk-bind (Read db.pvps) Stays (check_source p.debit_leg) _ s
                ((check_source-Keeps p.debit_leg).at s e)
                λ u s' e'.
                  OnOk-bind (Read db.pvps) Stays (check_source p.credit_leg) _ s'
                    ((check_source-Keeps p.credit_leg).at s' e')
                    λ u' t e''.
                      write-Verdict k id PvpState.locked verdict p.failure_reason t.pvps p
                        (rw e'' found) (not_created p.state fresh)
                        (subst (λ ps. Verdict id verdict ps) (sym e'') h);
  }

  abort_pvp-Stays : (k reason : ℕ) → Keeps Stays (abort_pvp k reason)
  unfolding abort_pvp
  abort_pvp-Stays k reason = record {
    at = λ db h. OnOk-or_raise Stays (find_pvp k db.pvps) _ _ db λ p found.
        OnOk-raise_if Stays (is_committed p.state) _ _ db λ free.
          write-Verdict k id PvpState.aborted verdict (some (given reason)) db.pvps p found
            (still_aborted p.state free) h;
  }

  commit_pvp-Stays :
      (lease_of owner_of : ℕ → ℕ) (k v : ℕ) → Keeps Stays (commit_pvp lease_of owner_of k v)
  unfolding commit_pvp
  commit_pvp-Stays lease_of owner_of k v = record {
    at = λ db h. OnOk-or_raise Stays (find_pvp k db.pvps) _ _ db λ p found.
        OnOk-raise_if Stays (not (p.version == v) || not (is_locked p.state)) _ _ db λ free.
          let locked_row : is_locked p.state ≡ true = ground arith in
          let same : p.pvp_id ≡ k =
            (==_iff p.pvp_id k).0 (find-eq_some (λ q. q.pvp_id == k) db.pvps p found) in
          let own : find_pvp p.pvp_id db.pvps ≡ some p =
            subst (λ i. find_pvp i db.pvps ≡ some p) (sym same) found in
          OnOk-bind (On (Closed lease_of owner_of p db.ledger db.pvps)) Stays
            (commit_locked lease_of owner_of p) _ db (commit_locked-Closes lease_of owner_of p db)
            λ u s closed. elim closed [
              | inl done ↦
                  subst (λ ps. Verdict id verdict ps) (sym done.1)
                    (write-Verdict p.pvp_id id PvpState.committed verdict p.failure_reason db.pvps p
                      own (not_locked p.state PvpState.committed locked_row) h)
              | inr (reason, unmoved, rows) ↦
                  subst (λ ps. Verdict id verdict ps) (sym rows)
                    (write-Verdict p.pvp_id id PvpState.aborted verdict (some (raised reason))
                      db.pvps p own (not_locked p.state PvpState.aborted locked_row) h)
            ];
  }

pub data Request : Type 0 where
  jurisdiction_registered : ℕ → ℕ → ℕ → ℕ → ℤ → List ℕ → Request
  node_registered : ℕ → ℕ → ℕ → Option Role → Request
  quoted : ℕ → ℕ → ℕ → Option Decimal → ℤ → ℤ → ℤ → Request
  agreed : ℕ → Leg → Leg → Request
  locked commit_asked abort_asked : ℕ → ℕ → Request

module _ (lease_of owner_of : ℕ → ℕ) where
  abbrev pub call : Request → PvpSession ℕ
  call (jurisdiction_registered c u b d x ps) = register_jurisdiction c u b d x ps
  call (node_registered n j p role) = register_node n j p role
  call (quoted p b q rate m f t) = create_quote p b q rate m f t
  call (agreed q d c) = create_pvp q d c
  call (Request.locked k v) = lock_pvp k v
  call (commit_asked k v) = commit_pvp lease_of owner_of k v
  call (abort_asked k reason) = abort_pvp k reason

  abbrev pub perform : Request → Desk → Desk
  perform r desk = (atomic (call r) desk).1

  abbrev pub perform_all : List Request → Desk → Desk
  perform_all [] desk = desk
  perform_all (r ∷ rs) desk = perform_all rs (perform r desk)

  call-Stays :
      (id : ℕ) (verdict : PvpState) (final : is_final verdict ≡ true) (r : Request)
      → Keeps (Stays id verdict final) (call r)
  call-Stays id verdict final (jurisdiction_registered c u b d x ps) =
      register_jurisdiction-Stays id verdict final c u b d x ps
  call-Stays id verdict final (node_registered n j p role) =
      register_node-Stays id verdict final n j p role
  call-Stays id verdict final (quoted p b q rate m f t) =
      create_quote-Stays id verdict final p b q rate m f t
  call-Stays id verdict final (agreed q d c) = create_pvp-Stays id verdict final q d c
  call-Stays id verdict final (Request.locked k v) = lock_pvp-Stays id verdict final k v
  call-Stays id verdict final (commit_asked k v) =
      commit_pvp-Stays id verdict final lease_of owner_of k v
  call-Stays id verdict final (abort_asked k reason) = abort_pvp-Stays id verdict final k reason

  -- A settlement of two legs that is committed stays committed, and one that is aborted stays
  -- aborted, under any requests to register, to quote, to agree on, to lock, to commit and to
  -- abort settlements, in any order, whether they return or raise.
  pub perform_all-Verdict :
      (rs : List Request) (id : ℕ) (verdict : PvpState) (desk : Desk)
      → is_final verdict ≡ true
      → Verdict id verdict desk.pvps
      → Verdict id verdict (perform_all rs desk).pvps
  perform_all-Verdict [] id verdict desk final h = h
  perform_all-Verdict (r ∷ rs) id verdict desk final h =
      perform_all-Verdict rs id verdict (perform r desk) final
        (Keeps-atomic (call r) (call-Stays id verdict final r) desk h)
