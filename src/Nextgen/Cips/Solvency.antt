-- ===== src/Nextgen/Cips/Solvency.antt =====
-- Settlement, the balances of the accounts and their sum.
use swift.Prelude.{
  ℕ, ◌≡◌, refl, ap, sym, ◌∙◌, Bool, true, false, some, List, [], ◌∷◌, arith, All, All-update,
  update, Option-cases, Bool-cases, inl, inr, ◌==◌,
}
use Prim.{absurd}
use mathlib.Core.Path.{subst}
use mathlib.Core.Option.{some-injective, none-ne-some}
use swift.Prelude.Int.{ℤ, pos, pos_part, neg_part, ◌+ℤ◌, ◌-ℤ◌, ◌≤ℤ◌, ltb_ℤ, int_laws}
use swift.Prelude.Exec.{modify}
use swift.Prelude.Exec.Keeps.{
  OnOk, Keeps, Keeps-atomic, Keeps-modify, Keeps-pure, Keeps-raise, Keeps-gets, Keeps-or_raise,
  Keeps-if, Keeps-raise_if, Keeps-bind, Keeps-rethrow, Keeps-finally, keeps_rules,
}
use swift.Nextgen.Store.{Db, CipsAccount, Settlement, LensEvent, Topic, Error, new_id}
use swift.Nextgen.Runtime.{enqueue, acquire, release}
use swift.Nextgen.Payments.{add_lens}
use swift.Nextgen.Cips.Accounts.{
  settlement_account, update_first, pay, receive, total_balance, IsSolvent,
  total_balance-update_first, All-update_first, holds,
}
use swift.Nextgen.Cips.{mark_settled, stay_queued, move_funds, attempt_rtgs, account}

-- The accounts hold `money` together, each is solvent, and no settlement has a negative amount.
pub record Holds (money : ℤ) (db : Db) : Type 0 where
  pub conserved : total_balance db.accounts ≡ money
  pub solvent : All IsSolvent db.accounts
  pub positive : All (λ s. pos 0 ≤ℤ s.amount) db.settlements

module _ {money : ℤ} where
  pub same-Holds :
      {db after : Db}
      → after.accounts ≡ db.accounts
      → after.settlements ≡ db.settlements
      → Holds money db
      → Holds money after
  same-Holds e f h = record {
    conserved = rw e h.conserved;
    solvent = rw e h.solvent;
    positive = rw f h.positive;
  }

  pub modify-Holds :
      (f : Db → Db)
      → ((db : Db) → (f db).accounts ≡ db.accounts)
      → ((db : Db) → (f db).settlements ≡ db.settlements)
      → Keeps {E = Error} (Holds money) (modify f)
  modify-Holds f e g = Keeps-modify f (λ db h. same-Holds (e db) (g db) h)

  pub new_id-Holds : Keeps {E = Error} (Holds money) new_id
  new_id-Holds = record { at = λ db h. same-Holds refl refl h }

  pub add_lens-Holds : (u : ℕ) (e : LensEvent) → Keeps (Holds money) (add_lens u e)
  unfolding add_lens
  add_lens-Holds u e = record { at = λ db h. same-Holds refl refl h }

  pub enqueue-Holds : (t : Topic) (id : ℕ) → Keeps (Holds money) (enqueue t id)
  unfolding enqueue
  enqueue-Holds t id = record { at = λ db h. same-Holds refl refl h }

  pub ruleset holds_rules = (keeps_rules, new_id-Holds, add_lens-Holds, enqueue-Holds, modify-Holds)

  pub acquire-Holds : (r o t : ℕ) → Keeps (Holds money) (acquire r o t)
  unfolding acquire
  acquire-Holds r o t = search holds_rules depth 30

  pub release-Holds : (r t : ℕ) → Keeps (Holds money) (release r t)
  unfolding release
  release-Holds r t = search holds_rules depth 30

  update-Holds :
      (p : Settlement → Bool) (f : Settlement → Settlement) (db : Db)
      → ((s : Settlement) → (f s).amount ≡ s.amount)
      → Holds money db
      → Holds money (record db { settlements = update p f db.settlements })
  update-Holds p f db same h = record {
    conserved = h.conserved;
    solvent = h.solvent;
    positive =
        All-update (λ s. pos 0 ≤ℤ s.amount) p f db.settlements (λ s q. rw (same s) q) h.positive;
  }

  pub mark_settled-Holds : (id : ℕ) → Keeps (Holds money) (mark_settled id)
  unfolding mark_settled
  mark_settled-Holds id = record {
    at = λ db h.
        update-Holds (λ s. s.settlement_id == id)
          (λ s. record s { settled = true; settled_at = some db.now }) db (λ s. refl) h;
  }

  stay_queued-Holds : (s : Settlement) → Keeps (Holds money) (stay_queued s)
  unfolding stay_queued add_lens
  stay_queued-Holds s = record {
    at = λ db h. same-Holds refl refl (
        update-Holds (λ t. t.settlement_id == s.settlement_id) (λ t. record t { settled = false })
          db (λ t. refl) h);
  }

pub not_below : (a b : ℤ) → ltb_ℤ a b ≡ false → b ≤ℤ a
not_below a b h = ground arith

pay-IsSolvent :
    (amount : ℤ) (a : CipsAccount)
    → pos 0 ≤ℤ amount
    → ltb_ℤ (a.balance -ℤ a.reserved) amount ≡ false
    → IsSolvent a
    → IsSolvent (pay amount a)
pay-IsSolvent amount a p l s =
    (s.0, omega (int_laws, s.1, not_below (a.balance -ℤ a.reserved) amount l))

pub receive-IsSolvent :
    (amount : ℤ) (a : CipsAccount) → pos 0 ≤ℤ amount → IsSolvent a → IsSolvent (receive amount a)
receive-IsSolvent amount a p s = (s.0, omega (int_laws, s.1, p))

-- What the two postings of a settlement do to the accounts.
module _ (debtor creditor currency : ℕ) (amount : ℤ) where
  abbrev paid_out : List CipsAccount → List CipsAccount
  paid_out accounts = update_first debtor currency (pay amount) accounts

  abbrev booked : List CipsAccount → List CipsAccount
  booked accounts = update_first creditor currency (receive amount) (paid_out accounts)

  both_sides :
      (before mid after d c : ℤ)
      → mid +ℤ d ≡ before +ℤ (d -ℤ amount)
      → after +ℤ c ≡ mid +ℤ (c +ℤ amount)
      → after ≡ before
  both_sides before mid after d c h k =
      omega (int_laws, ap pos_part h, ap neg_part h, ap pos_part k, ap neg_part k)

  booked-total :
      (accounts : List CipsAccount) (d c : CipsAccount)
      → settlement_account debtor currency accounts ≡ some d
      → settlement_account creditor currency (paid_out accounts) ≡ some c
      → total_balance (booked accounts) ≡ total_balance accounts
  booked-total accounts d c hd hc =
      both_sides _ (total_balance (paid_out accounts)) _ d.balance c.balance
        (total_balance-update_first debtor currency (pay amount) accounts d hd)
        (total_balance-update_first creditor currency (receive amount) (paid_out accounts) c hc)

  booked-IsSolvent :
      (accounts : List CipsAccount) (d : CipsAccount)
      → pos 0 ≤ℤ amount
      → settlement_account debtor currency accounts ≡ some d
      → ltb_ℤ (d.balance -ℤ d.reserved) amount ≡ false
      → All IsSolvent accounts
      → All IsSolvent (booked accounts)
  booked-IsSolvent accounts d p hd l s =
      All-update_first creditor currency (receive amount) IsSolvent (paid_out accounts)
        (λ a q. receive-IsSolvent amount a p)
        (All-update_first debtor currency (pay amount) IsSolvent accounts
          (λ a q. pay-IsSolvent amount a p (
            subst (λ r. ltb_ℤ (r.balance -ℤ r.reserved) amount ≡ false)
              (some-injective d a (sym hd ∙ q)) l))
          s)

-- A query that finds an account still finds one after a payment.
still_there :
    (p q c : ℕ) (amount : ℤ) (accounts : List CipsAccount) (a : CipsAccount)
    → settlement_account q c accounts ≡ some a
    → (b : CipsAccount) × (settlement_account q c (update_first p c (pay amount) accounts) ≡ some b)
unfolding update_first
still_there p q c amount [] a h = absurd (none-ne-some a h)
still_there p q c amount (x ∷ rest) a h = elim (Bool-cases (holds p c x)) [
  | inl e ↦ elim (Bool-cases (holds q c x)) [
    | inl k ↦ (pay amount x, rw (e, k) refl)
    | inr k ↦ (a, rw (e, k) (rw k at h))
  ]
  | inr e ↦ elim (Bool-cases (holds q c x)) [
    | inl k ↦ (x, rw (e, k) refl)
    | inr k ↦ let (b, found) = still_there p q c amount rest a (rw k at h) in (b, rw (e, k) found)
  ]
]

module _ {money : ℤ} where
  booked-Holds :
      (s : Settlement) (db : Db) (d c : CipsAccount)
      → pos 0 ≤ℤ s.amount
      → settlement_account s.debtor_participant s.currency db.accounts ≡ some d
      → settlement_account s.creditor_participant s.currency db.accounts ≡ some c
      → ltb_ℤ (d.balance -ℤ d.reserved) s.amount ≡ false
      → Holds money db
      → Holds money (record db {
        accounts =
            booked s.debtor_participant s.creditor_participant s.currency s.amount db.accounts;
      })
  booked-Holds s db d c p hd hc l h =
      let (c', found) =
        still_there s.debtor_participant s.creditor_participant s.currency s.amount db.accounts c
          hc in
      record {
        conserved =
            booked-total s.debtor_participant s.creditor_participant s.currency s.amount db.accounts
              d c' hd found
            ∙ h.conserved;
        solvent =
            booked-IsSolvent s.debtor_participant s.creditor_participant s.currency s.amount
              db.accounts d p hd l h.solvent;
        positive = h.positive;
      }

  move_funds-Holds :
      (s : Settlement) (db : Db)
      → Holds money (record db {
        accounts =
            booked s.debtor_participant s.creditor_participant s.currency s.amount db.accounts;
      })
      → OnOk (Holds money) (move_funds s db)
  unfolding move_funds mark_settled add_lens enqueue
  move_funds-Holds s db h = same-Holds refl refl (
      update-Holds (λ t. t.settlement_id == s.settlement_id)
        (λ t. record t { settled = true; settled_at = some db.now }) _ (λ t. refl) h)

  pub attempt_rtgs-Holds :
      (s : Settlement) (db : Db)
      → pos 0 ≤ℤ s.amount
      → Holds money db
      → OnOk (Holds money) (attempt_rtgs s db)
  unfolding attempt_rtgs account
  attempt_rtgs-Holds s db p h =
      elim (Option-cases (settlement_account s.debtor_participant s.currency db.accounts)) [
        | inl d ↦ rw d tt
        | inr (d, hd) ↦
            elim (Option-cases (settlement_account s.creditor_participant s.currency db.accounts)) [
              | inl c ↦ rw (hd, c) tt
              | inr (c, hc) ↦ elim (Bool-cases (ltb_ℤ (d.balance -ℤ d.reserved) s.amount)) [
                | inl l ↦ rw (hd, hc, l) ((stay_queued-Holds s).at db h)
                | inr l ↦ rw (hd, hc, l) (move_funds-Holds s db (booked-Holds s db d c p hd hc l h))
              ]
            ]
      ]
