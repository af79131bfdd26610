-- ===== src/Nextgen/Retail/TopUp.antt =====
-- What a top-up does to the wallet.
use swift.Prelude.{
  ℕ, ◌≡◌, refl, sym, ◌∙◌, true, false, ◌||◌, ◌&&◌, some, List, [], ◌∷◌, arith, find, Option-cases,
  Bool-cases, inl, inr, ◌==◌,
}
use Prim.{absurd}
use mathlib.Core.Option.{some-injective}
use swift.Prelude.Int.{ℤ, pos, ◌+ℤ◌, ◌≤ℤ◌, leb_ℤ, ltb_ℤ, int_laws}
use swift.Prelude.Exec.{Result, ok, err, commit, continue, map_error, modify, pure, ◌>>◌}
use swift.Prelude.Exec.Keeps.{OnOk}
use swift.Prelude.Exec.Returns.{OnOk-map, OnOk-bind, OnOk-zoom}
use swift.Ecny.Store.{
  Db as Ledger, Error as LedgerError, Account, Wallet, find_account, is_active, is_operator, cny,
}
use swift.Ecny.Store.Accounts.{adjust, balance_of, Unique, find_account-find}
use swift.Ecny.Ledger.{mint, transfer}
use swift.Ecny.Ledger.Posting.{Outcome, Outcome-OnOk, Transferred, transfer-Outcome}
use swift.Ecny.Ledger.Issuing.{Issued, mint-Outcome}
use swift.Ecny.Ledger.Soundness.{balance_of-issue, balance_of-move}
use swift.Nextgen.Operators.{
  Books, ledger_raised as mint_raised, find_operator, write_operator, issued_more, issue,
}
use swift.Nextgen.Retail.{
  RetailLimits, retail_limits, Retail, operator_raised, on_books, on_ledger, ledger_of,
  is_account_of, with_ledger, ledger_raised, wallet_account, operator_account, wallet, check_amount,
  hand_over, issue_to, fps_top_up,
}
use swift.Nextgen.Retail.Control.{IsControlled}

mint-Issued :
    (id : ℕ) (x : ℤ) (db : Ledger) → Unique db.accounts → OnOk (Issued id x db) (mint id x db)
mint-Issued id x db u = returned (mint id x db).0 (mint id x db).1 (mint-Outcome id x db u)
  where
    returned :
        (r : Result LedgerError ℕ) (d : Ledger)
        → Outcome (Issued id x db) db (commit db r d)
        → OnOk (Issued id x db) (r, d)
    returned (ok a) d o = o
    returned (err e) d o = tt

-- The row that a query finds keeps its name when balances change.
same_row :
    (w id : ℕ) (f : ℤ → ℤ) (accounts : List Account) (a b : Account)
    → find (is_account_of w) accounts ≡ some a
    → find (is_account_of w) (adjust id f accounts) ≡ some b
    → b.account_id ≡ a.account_id
unfolding adjust
same_row w id f [] a b h k = cc
same_row w id f (x ∷ rest) a b h k = ground (arith, same_row w id f rest a b)

module _ (account_of : ℕ → ℕ) where
  issue-Issued :
      (id : ℕ) (x : ℤ) (books : Books)
      → Unique books.ledger.accounts
      → OnOk
          (λ after. Issued (account_of id) x books.ledger after.ledger)
          (issue account_of id x books)
  unfolding issue
  issue-Issued id x books u = elim (Option-cases (find_operator id books.operators)) [
    | inl e ↦ rw e tt
    | inr (o, e) ↦ elim (Bool-cases o.active) [
      | inr a ↦ rw (e, a) tt
      | inl a ↦
          elim (Bool-cases (leb_ℤ x (pos 0) || ltb_ℤ o.issuance_limit (o.issued_amount +ℤ x))) [
            | inl t ↦ rw e (simp (a, t) tt)
            | inr t ↦ rw e (
                simp (a, t)
                  (noted (mint (account_of id) x books.ledger).0
                    (mint (account_of id) x books.ledger).1
                    (mint-Issued (account_of id) x books.ledger u)))
          ]
    ]
  ]
    where
      noted :
          (r : Result LedgerError ℕ) (l : Ledger)
          → OnOk (Issued (account_of id) x books.ledger) (r, l)
          → OnOk
              (λ after. Issued (account_of id) x books.ledger after.ledger)
              (continue
                (map_error mint_raised r)
                (λ tx. modify (write_operator id (issued_more x)) >> pure tx)
                (record books { ledger = l }))
      noted (ok a) l i = i
      noted (err e) l i = tt

-- What an amount on the wallet's row, which comes by way of an operator's, adds to its balance.
pub record Credited (w : ℕ) (x : ℤ) (before after : Ledger) : Type 0 where
  pub account : Account
  pub found : find (is_account_of w) before.accounts ≡ some account
  pub credited :
      balance_of account.account_id after.accounts
      ≡ balance_of account.account_id before.accounts +ℤ x

moved_on :
    (w target : ℕ) (x : ℤ) (before between after : Ledger) (a b : Account) (source : ℕ)
    → find (is_account_of w) before.accounts ≡ some a
    → find (is_account_of w) between.accounts ≡ some b
    → Issued target x before between
    → (target == a.account_id) ≡ false
    → Transferred source b.account_id x between after
    → Credited w x before after
moved_on w target x before between after a b source found found' i other t = record {
  account = a;
  found = found;
  credited =
      let same : b.account_id ≡ a.account_id =
        same_row w target (λ y. y +ℤ x) before.accounts a b found (rw i.accounts at found') in
      let from_other : (source == a.account_id) ≡ false =
        elim (Bool-cases (source == a.account_id)) [
          | inl e ↦ absurd (t.distinct (ground arith))
          | inr e ↦ e
        ] in
      let self : (a.account_id == a.account_id) ≡ true = ground arith in
      rw
        (
          balance_of-move source b.account_id x x t.moved a.account_id,
          balance_of-issue target x i a.account_id,
          same,
          other,
          from_other,
          self,
        )
        (omega int_laws);
}

hand_over-Credited :
    (o w target : ℕ) (x : ℤ) (before : Ledger) (retail : Retail) (a : Account)
    → find (is_account_of w) before.accounts ≡ some a
    → Issued target x before (ledger_of retail)
    → (target == a.account_id) ≡ false
    → OnOk (λ after. Credited w x before (ledger_of after)) (hand_over o w x retail)
unfolding hand_over operator_account wallet_account
hand_over-Credited o w target x before retail a found i other =
    let l = ledger_of retail in
    elim (Option-cases
      (find (λ r. is_operator r.owner_type && r.owner_ref == o && r.currency == cny) l.accounts)) [
        | inl e ↦ rw e tt
        | inr (s, e) ↦ elim (Option-cases (find (is_account_of w) l.accounts)) [
          | inl e' ↦ rw (e, e') tt
          | inr (b, e') ↦
              let m = transfer s.account_id b.account_id x in
              let Sent : Ledger → Type 0 = Transferred s.account_id b.account_id x l in
              rw (e, e')
                (OnOk-bind (λ after. Sent (ledger_of after))
                  (λ after. Credited w x before (ledger_of after)) (on_ledger m) _ retail
                  (OnOk-zoom Sent ledger_of with_ledger ledger_raised m retail (λ d. refl)
                    (Outcome-OnOk Sent Sent l (m l).0 (m l).1 (λ d t. t)
                      (transfer-Outcome s.account_id b.account_id x l)))
                  (λ movement r t.
                    moved_on w target x before l (ledger_of r) a b s.account_id found e' i other t))
        ]
      ]

within_limit :
    (w : ℕ) (x : ℤ) (before after : Ledger) (a : Account) (limit : ℤ)
    (c : Credited w x before after)
    → Unique before.accounts
    → find (is_account_of w) before.accounts ≡ some a
    → ltb_ℤ limit (a.balance +ℤ x) ≡ false
    → balance_of c.account.account_id after.accounts ≤ℤ limit
within_limit w x before after a limit c u found k =
    let row : a ≡ c.account = some-injective a c.account (sym found ∙ c.found) in
    let known : find_account c.account.account_id before.accounts ≡ some c.account =
      find_account-find (is_account_of w) before.accounts c.account u c.found in
    let fits : ltb_ℤ limit (c.account.balance +ℤ x) ≡ false = rw row at k in
    rw (c.credited, known) (ground arith)

-- A top-up of an active wallet, within the limits of its tier.
pub record ToppedUp (w : ℕ) (x : ℤ) (before after : Retail) : Type 0 where
  pub owner : Wallet
  pub on_record : find (λ r. r.wallet_id == w) (ledger_of before).wallets ≡ some owner
  pub active : is_active owner.status ≡ true
  pub limits : RetailLimits
  pub of_tier : retail_limits owner.tier ≡ some limits
  pub single : (pos 1 ≤ℤ x) × (x ≤ℤ limits.single)
  pub wallet : Credited w x (ledger_of before) (ledger_of after)
  pub within : balance_of wallet.account.account_id (ledger_of after).accounts ≤ℤ limits.balance

module _ (account_of : ℕ → ℕ) (o w : ℕ) (x : ℤ) (retail : Retail) (h : IsControlled retail)
    (a : Account) (found : find (is_account_of w) (ledger_of retail).accounts ≡ some a)
    (other : (account_of o == a.account_id) ≡ false) where
  issue_to-Credited :
      OnOk
        (λ after. Credited w x (ledger_of retail) (ledger_of after))
        (issue_to account_of o w x retail)
  unfolding issue_to
  issue_to-Credited =
      let l = ledger_of retail in
      let Minted : Books → Type 0 = λ b. Issued (account_of o) x l b.ledger in
      let Q : Retail → Type 0 = λ after. Credited w x l (ledger_of after) in
      let m = issue account_of o x in
      OnOk-bind (λ s. Minted s.books) Q (on_books m) _ retail
        (OnOk-zoom Minted Retail.books (λ b r. record r { books = b }) operator_raised m retail
          (λ b. refl) (issue-Issued account_of o x retail.books h.controlled.sound.unique))
        (λ issuance s i.
          OnOk-bind Q Q (hand_over o w x) _ s
            (hand_over-Credited o w (account_of o) x l s a found i other) (λ movement r c. c))

  -- Where the ledger is sound, the operators are within their limits, and the operator's account
  -- is another one than the wallet's: a top-up that returns is of a positive amount within the
  -- limit on a single amount of an active wallet of a known tier, adds that amount to the balance
  -- of its account, and leaves it within the limit on the balance.
  pub fps_top_up-ToppedUp : OnOk (ToppedUp w x retail) (fps_top_up account_of o w x retail)
  unfolding fps_top_up wallet check_amount wallet_account
  fps_top_up-ToppedUp =
      let l = ledger_of retail in
      elim (Option-cases (find (λ r. r.wallet_id == w) l.wallets)) [
        | inl e ↦ rw e tt
        | inr (owner, e) ↦ elim (Bool-cases (is_active owner.status)) [
          | inr q ↦ rw (e, q) tt
          | inl q ↦ elim (Bool-cases (leb_ℤ x (pos 0))) [
            | inl p ↦ rw (e, q, p) tt
            | inr p ↦ elim (Option-cases (retail_limits owner.tier)) [
              | inl t ↦ rw (e, q, p, t) tt
              | inr (limits, t) ↦ elim (Bool-cases (ltb_ℤ limits.single x)) [
                | inl g ↦ rw (e, q, p, t, g) tt
                | inr g ↦ elim (Bool-cases (ltb_ℤ limits.balance (a.balance +ℤ x))) [
                  | inl k ↦ rw (e, q, p, t, g, found, k) tt
                  | inr k ↦
                      rw (e, q, p, t, g, found, k)
                        (OnOk-map (issue_to account_of o w x retail)
                          (λ after c. record {
                            owner = owner;
                            on_record = e;
                            active = q;
                            limits = limits;
                            of_tier = t;
                            single = (ground arith, ground arith);
                            wallet = c;
                            within =
                                within_limit w x l (ledger_of after) a limits.balance c
                                  h.controlled.sound.unique found k;
                          })
                          issue_to-Credited)
                ]
              ]
            ]
          ]
        ]
      ]
