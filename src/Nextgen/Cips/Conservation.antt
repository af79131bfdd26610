-- ===== src/Nextgen/Cips/Conservation.antt =====
-- Requests to the whole service, and the balances of the accounts.
use swift.Prelude.{
  ℕ, ◌≡◌, ap, sym, ◌∙◌, true, false, Option, List, [], ◌∷◌, ◌++◌, arith, All, All-append, All-find,
  Option-cases, Bool-cases, inl, inr, ◌==◌, select,
}
use mathlib.Core.Path.{subst}
use swift.Prelude.Int.{ℤ, pos, ◌+ℤ◌, ◌≤ℤ◌, leb_ℤ, int_laws}
use swift.Prelude.Exec.{Result, ok, err, pure, continue, atomic, ◌>>◌}
use swift.Prelude.Exec.Keeps.{
  OnOk, Keeps, Keeps-atomic, Keeps-bind, Keeps-if, Keeps-pure, Keeps-modify, Keeps-raise_if,
  keeps_rules,
}
use swift.Nextgen.Store.{Db, Settlement, Mode, rtgs, dns, Error, Session, LensEvent, Topic}
use swift.Nextgen.Runtime.{enqueue}
use swift.Nextgen.Cips.Accounts.{total_balance, IsSolvent}
use swift.Nextgen.Cips.Positions.{sum_positions, net_positions_exact}
use swift.Nextgen.Cips.Batches.{Checked, Bears, require_all-Bears, apply_all-Applied}
use swift.Nextgen.Cips.Solvency.{
  Holds, acquire-Holds, release-Holds, mark_settled-Holds, add_lens-Holds, enqueue-Holds,
  new_id-Holds, attempt_rtgs-Holds,
}
use swift.Nextgen.Cips.{
  find_settlement, attempt_rtgs, with_lease, settle_rtgs, settle_at_once, submit_settlement,
  release_each, release_rtgs_queue,
}
use swift.Nextgen.Cips.Netting.{
  in_batch, is_empty, net_positions, require_all, apply_all, settle_each, settle_dns_batch,
}

positive_amount : (amount : ℤ) → leb_ℤ amount (pos 0) ≡ false → pos 0 ≤ℤ amount
positive_amount amount h = ground arith

zero_right : (x : ℤ) → x +ℤ pos 0 ≡ x
zero_right x = omega int_laws

module _ {money : ℤ} where
  attempt-Holds : (s : Settlement) → pos 0 ≤ℤ s.amount → Keeps (Holds money) (attempt_rtgs s)
  attempt-Holds s p = record { at = λ db h. attempt_rtgs-Holds s db p h }

  with_lease-Holds : (s : Settlement) → pos 0 ≤ℤ s.amount → Keeps (Holds money) (with_lease s)
  unfolding with_lease
  with_lease-Holds s p =
      search (keeps_rules, new_id-Holds, acquire-Holds, release-Holds, attempt-Holds) depth 20

  settle_rtgs-Holds : (id : ℕ) → Keeps (Holds money) (settle_rtgs id)
  unfolding settle_rtgs
  settle_rtgs-Holds id = record {
    at = λ db h. elim (Option-cases (find_settlement id db.settlements)) [
      | inl e ↦ rw e tt
      | inr (s, e) ↦
          let p : pos 0 ≤ℤ s.amount =
            All-find (λ t. pos 0 ≤ℤ t.amount) (λ t. t.settlement_id == id) db.settlements s
              h.positive e in
          rw e (
            (Keeps-if s.settled (pure true) (with_lease s) (Keeps-pure true)
                (with_lease-Holds s p)).at
              db h)
    ];
  }

  settle_at_once-Holds : (m : Mode) (id : ℕ) → Keeps (Holds money) (settle_at_once m id)
  unfolding settle_at_once
  settle_at_once-Holds rtgs id = settle_rtgs-Holds id
  settle_at_once-Holds dns id = search keeps_rules

  release_each-Holds : (ss : List Settlement) → Keeps (Holds money) (release_each ss)
  unfolding release_each
  release_each-Holds [] = search keeps_rules
  release_each-Holds (s ∷ rest) =
      Keeps-bind _ _ (settle_rtgs-Holds s.settlement_id)
        (λ settled. Keeps-bind _ _ (release_each-Holds rest) (λ others. search keeps_rules))

  release_rtgs_queue-Holds : Keeps (Holds money) release_rtgs_queue
  unfolding release_rtgs_queue
  release_rtgs_queue-Holds = search (keeps_rules, release_each-Holds) depth 20

  add_settlement-Holds :
      (s : Settlement) (db : Db)
      → pos 0 ≤ℤ s.amount
      → Holds money db
      → Holds money (record db { settlements = db.settlements ++ s ∷ [] })
  add_settlement-Holds s db p h = record {
    conserved = h.conserved;
    solvent = h.solvent;
    positive = All-append (λ t. pos 0 ≤ℤ t.amount) db.settlements (s ∷ []) h.positive (p, tt);
  }

  submit_settlement-Holds :
      (u : ℕ) (m : Mode) (d c : ℕ) (amount priority : ℤ) (b : Option ℕ)
      → Keeps (Holds money) (submit_settlement u m d c amount priority b)
  unfolding submit_settlement
  submit_settlement-Holds u m d c amount priority b = elim (Bool-cases (leb_ℤ amount (pos 0))) [
    | inl e ↦ record { at = λ db h. rw e tt }
    | inr e ↦ Keeps-bind _ _ (Keeps-raise_if (leb_ℤ amount (pos 0)) _) (λ _.
        search
          (
            keeps_rules,
            new_id-Holds,
            add_lens-Holds,
            settle_at_once-Holds,
            Keeps-modify,
            add_settlement-Holds,
            positive_amount amount e,
          )
          depth 30)
  ]

  settle_each-Holds : (ss : List Settlement) → Keeps (Holds money) (settle_each ss)
  unfolding settle_each
  settle_each-Holds [] = search keeps_rules
  settle_each-Holds (s ∷ rest) = Keeps-bind _ _ (mark_settled-Holds s.settlement_id) (λ _.
      Keeps-bind _ _ (add_lens-Holds s.uetr LensEvent.dns_settled) (λ _. settle_each-Holds rest))

  Applied-Holds :
      (ss : List Settlement) (db after : Db)
      → Holds money db
      → (total_balance after.accounts
          ≡ total_balance db.accounts +ℤ sum_positions (net_positions ss []))
        × All IsSolvent after.accounts
        × (after.settlements ≡ db.settlements)
      → Holds money after
  Applied-Holds ss db after h (t, s, k) = record {
    conserved =
        t
        ∙ ap (λ x. total_balance db.accounts +ℤ x) (net_positions_exact ss).1
        ∙ zero_right (total_balance db.accounts)
        ∙ h.conserved;
    solvent = s;
    positive = rw k h.positive;
  }

  after_applied :
      (ss : List Settlement) (next : Session (List (ℕ × ℤ))) (db : Db) (r : Result Error Unit)
      (s : Db)
      → Holds money db
      → Keeps (Holds money) next
      → OnOk
          (λ after.
            (total_balance after.accounts
              ≡ total_balance db.accounts +ℤ sum_positions (net_positions ss []))
            × All IsSolvent after.accounts
            × (after.settlements ≡ db.settlements))
          (r, s)
      → OnOk (Holds money) (continue r (λ _. next) s)
  after_applied ss next db (ok u) s h k a = k.at s (Applied-Holds ss db s h a)
  after_applied ss next db (err e) s h k a = tt

  after_required :
      (ss : List Settlement) (next : Session (List (ℕ × ℤ))) (db : Db) (r : Result Error Unit)
      (s : Db)
      → Holds money db
      → Keeps (Holds money) next
      → Checked db (λ d. All (Bears d.accounts) (net_positions ss [])) (r, s)
      → OnOk (Holds money) (continue r (λ _. apply_all (net_positions ss []) >> next) s)
  after_required ss next db (err e) s h k c = tt
  after_required ss next db (ok u) s h k c =
      subst (λ d. OnOk (Holds money) ((apply_all (net_positions ss []) >> next) d)) (sym c.0)
        (after_applied ss next db _ _ h k
          (apply_all-Applied (net_positions ss []) db (net_positions_exact ss).0 c.1 h.solvent))

  settle_dns_batch-Holds : (b : ℕ) → Keeps (Holds money) (settle_dns_batch b)
  unfolding settle_dns_batch
  settle_dns_batch-Holds b = record {
    at = λ db h.
        let queued : List Settlement = select (in_batch b) db.settlements in
        let net : List (ℕ × ℤ) = net_positions queued [] in
        let next : Session (List (ℕ × ℤ)) = (do
          settle_each queued
          enqueue Topic.cips_dns_settled b
          pure net) in
        let keeps : Keeps (Holds money) next =
          Keeps-bind _ _ (settle_each-Holds queued)
            (λ _. Keeps-bind _ _ (enqueue-Holds Topic.cips_dns_settled b) (λ _. Keeps-pure net)) in
        elim (Bool-cases (is_empty queued)) [
          | inl e ↦ rw e tt
          | inr e ↦ rw e (
              after_required queued next db (require_all net db).0 (require_all net db).1 h keeps
                (require_all-Bears net db))
        ];
  }

-- What is asked of the service once the accounts are open.
pub data Request : Type 0 where
  submit : ℕ → Mode → ℕ → ℕ → ℤ → ℤ → Option ℕ → Request
  settle : ℕ → Request
  release_queue : Request
  settle_batch : ℕ → Request

abbrev pub perform : Request → Db → Db
perform (submit u m d c amount priority b) db =
    (atomic (submit_settlement u m d c amount priority b) db).1
perform (settle id) db = (atomic (settle_rtgs id) db).1
perform release_queue db = (atomic release_rtgs_queue db).1
perform (settle_batch b) db = (atomic (settle_dns_batch b) db).1

abbrev pub perform_all : List Request → Db → Db
perform_all [] db = db
perform_all (r ∷ rs) db = perform_all rs (perform r db)

perform-Holds : (money : ℤ) (r : Request) (db : Db) → Holds money db → Holds money (perform r db)
perform-Holds money (submit u m d c amount priority b) db h =
    Keeps-atomic _ (submit_settlement-Holds u m d c amount priority b) db h
perform-Holds money (settle id) db h = Keeps-atomic _ (settle_rtgs-Holds id) db h
perform-Holds money release_queue db h = Keeps-atomic _ release_rtgs_queue-Holds db h
perform-Holds money (settle_batch b) db h = Keeps-atomic _ (settle_dns_batch-Holds b) db h

-- Where the settlement accounts are solvent and no settlement has a negative amount, this stays so
-- under any requests to submit and to settle (RTGS, the queue, DNS batches), in any order, whether
-- they return or raise; and the accounts hold the same money together.
pub settlement_conserves :
    (rs : List Request) (db : Db) (money : ℤ) → Holds money db → Holds money (perform_all rs db)
settlement_conserves [] db money h = h
settlement_conserves (r ∷ rs) db money h =
    settlement_conserves rs (perform r db) money (perform-Holds money r db h)
