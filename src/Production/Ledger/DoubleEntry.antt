-- ===== src/Production/Ledger/DoubleEntry.antt =====
-- The accounting equation under requests to the subledger.
use swift.Prelude.{
  ℕ, ◌≡◌, refl, ◌∙◌, Bool, true, false, Option, List, [], ◌∷◌, ◌++◌, All, All-append,
  All-update_found, arith, ◌==◌, if◌then◌else◌,
}
use swift.Prelude.Int.{ℤ, pos, ◌+ℤ◌, ◌-ℤ◌, ◌≤ℤ◌, int_laws}
use swift.Prelude.Exec.{pure, modify, ◌>>◌}
use swift.Prelude.Exec.Keeps.{Keeps, Keeps-atomic, Keeps-bind, Keeps-pure, keeps_rules}
use swift.Production.Ledger.{
  AccountType, Account, Item, Reason, Reservation, Hold, HoldState, Books, BooksSession, Conflict,
  write_account, create_account, reserve_new, reserve, release_reserved, release, validate_entries,
  normal_balance, is_debit,
}
use swift.Production.Ledger.Holds.{
  expiry_state, create, free_funds, transition, expire_each, expire_due,
}
use swift.Production.Ledger.Journals.{
  Text, validate_journal, create_journal_draft, post_group, post_groups, post_multi_currency,
  reverse_journal, post_template,
}
use swift.Production.Ledger.Rows.{sum, sum-append, sum-update_found_same}
use swift.Production.Ledger.Equation.{side_in, equation, InBalance}
use swift.Production.Ledger.Balance.{
  modify-InBalance, insert_journal-InBalance, post_journal-InBalance,
}
use swift.Production.Ledger.Requests.{
  Request, opened, reserved_for, released, consumed, held, hold_moved, holds_expired, posted,
  drafted, posted_multi, draft_validated, reversed, from_template, IsDoubleEntry, call, perform,
  perform_all,
}

-- An account without balance counts for nothing.
weightless : (a : Account) (c : ℕ) (x : ℤ) → a.balance ≡ pos 0 → x +ℤ (side_in c a +ℤ pos 0) ≡ x
weightless a c x z =
    nothing (a.currency == c) (is_debit (normal_balance a.account_type)) a.balance z
  where
    nothing :
        (here left : Bool) (b : ℤ)
        → b ≡ pos 0
        → x +ℤ ((if here then (if left then b else pos 0 -ℤ b) else pos 0) +ℤ pos 0) ≡ x
    nothing true true b e = rw e (omega int_laws)
    nothing true false b e = rw e (omega int_laws)
    nothing false left b e = omega int_laws

module _ {base : ℕ → ℤ} where
  -- A write to another column.
  write-InBalance :
      (id : ℕ) (f : Account → Account)
      → ((a : Account) → (f a).balance ≡ a.balance)
      → ((c : ℕ) (a : Account) → side_in c (f a) ≡ side_in c a)
      → Keeps (InBalance base) (write_account id f)
  write-InBalance id f same sides = record {
    at = λ db h. record {
      nonneg =
          All-update_found (λ b. pos 0 ≤ℤ b.balance) (λ b. b.account_id == id) f db.accounts
            (λ b found k. rw (same b) k) h.nonneg;
      equal = λ c.
          sum-update_found_same (side_in c) (λ b. b.account_id == id) f db.accounts (sides c)
          ∙ h.equal c;
    };
  }

  write_reserved-InBalance :
      (id : ℕ) (x : Account → ℤ)
      → Keeps (InBalance base) (write_account id (λ a. record a { reserved = x a }))
  write_reserved-InBalance id x =
      write-InBalance id (λ a. record a { reserved = x a }) (λ a. refl) (λ c a. refl)

  reserve_new-InBalance :
      (a : Account) (id : ℕ) (x : ℤ) (c : ℕ) → Keeps (InBalance base) (reserve_new a id x c)
  unfolding reserve_new
  reserve_new-InBalance a id x c =
      search (keeps_rules, modify-InBalance, write_reserved-InBalance) depth 30

  reserve-InBalance : (id r : ℕ) (x : ℤ) (c : ℕ) → Keeps (InBalance base) (reserve id r x c)
  unfolding reserve
  reserve-InBalance id r x c = search (keeps_rules, reserve_new-InBalance) depth 30

  release_reserved-InBalance : (r : Reservation) → Keeps (InBalance base) (release_reserved r)
  unfolding release_reserved
  release_reserved-InBalance r =
      search (keeps_rules, modify-InBalance, write_reserved-InBalance) depth 30

  release-InBalance : (id : ℕ) → Keeps (InBalance base) (release id)
  unfolding release
  release-InBalance id = search (keeps_rules, release_reserved-InBalance) depth 30

  create-InBalance :
      (id a : ℕ) (x : ℤ) (c : ℕ) (t : Option ℕ) → Keeps (InBalance base) (create id a x c t)
  unfolding create
  create-InBalance id a x c t =
      search (keeps_rules, modify-InBalance, write_reserved-InBalance) depth 40

  free_funds-InBalance : (h : Hold) → Keeps (InBalance base) (free_funds h)
  unfolding free_funds
  free_funds-InBalance h = search (keeps_rules, write_reserved-InBalance) depth 30

  transition-InBalance :
      (id : ℕ) (state : HoldState) (v : ℕ) → Keeps (InBalance base) (transition id state v)
  unfolding transition
  transition-InBalance id state v =
      search (keeps_rules, modify-InBalance, free_funds-InBalance) depth 30

  validate_journal-InBalance : (id : ℕ) → Keeps (InBalance base) (validate_journal id)
  unfolding validate_journal validate_entries
  validate_journal-InBalance id = search (keeps_rules, modify-InBalance) depth 40

  expire_each-InBalance : (hs : List Hold) → Keeps (InBalance base) (expire_each hs)
  unfolding expire_each
  expire_each-InBalance [] = record { at = λ db h. h }
  expire_each-InBalance (h ∷ rest) =
      Keeps-bind (transition h.hold_id (expiry_state h.external_reference) h.version) _
        (transition-InBalance h.hold_id _ h.version)
        λ id. Keeps-bind (expire_each rest) _ (expire_each-InBalance rest) λ ids. Keeps-pure _

  validate_entries-InBalance : (items : List Item) → Keeps (InBalance base) (validate_entries items)
  unfolding validate_entries
  validate_entries-InBalance items = search keeps_rules depth 20

  new_account-InBalance :
      (a : Account)
      → a.balance ≡ pos 0
      → Keeps {E = Conflict}
          (InBalance base)
          (modify (λ db. record db { accounts = db.accounts ++ a ∷ [] }))
  unfolding sum
  new_account-InBalance a z = record {
    at = λ db h. record {
      nonneg =
          All-append (λ b. pos 0 ≤ℤ b.balance) db.accounts (a ∷ []) h.nonneg
            (rw z (ground arith), tt);
      equal = λ c.
          sum-append (side_in c) db.accounts (a ∷ [])
          ∙ weightless a c (equation c db.accounts) z
          ∙ h.equal c;
    };
  }

  expire_due-InBalance : (now : ℕ) → Keeps (InBalance base) (expire_due now)
  unfolding expire_due
  expire_due-InBalance now = search (keeps_rules, expire_each-InBalance) depth 20

  create_account-InBalance :
      (id entity book currency : ℕ) (kind : Option AccountType)
      → Keeps (InBalance base) (create_account id entity book currency kind (pos 0))
  unfolding create_account
  create_account-InBalance id entity book currency kind =
      search (keeps_rules, new_account-InBalance) depth 40

module _ {base : ℕ → ℤ} (digest : List Item → ℕ) (sub_id : ℕ → ℕ → ℕ) where
  create_journal_draft-InBalance :
      (id entity book : ℕ) (reason : Reason) (items : List Item) (order : Option ℕ)
      → Keeps
          (InBalance base)
          (create_journal_draft digest sub_id id entity book reason items order)
  unfolding create_journal_draft validate_entries
  create_journal_draft-InBalance id entity book reason items order =
      search (keeps_rules, insert_journal-InBalance) depth 50

  post_group-InBalance :
      (id entity book : ℕ) (reason : Reason) (items : List Item) (clearing : List (ℕ × ℕ)) (c : ℕ)
      → Keeps (InBalance base) (post_group digest sub_id id entity book reason items clearing c)
  unfolding post_group
  post_group-InBalance id entity book reason items clearing c =
      search (keeps_rules, validate_entries-InBalance, post_journal-InBalance) depth 40

  post_groups-InBalance :
      (id entity book : ℕ) (reason : Reason) (items : List Item) (clearing : List (ℕ × ℕ))
      (cs : List ℕ)
      → Keeps (InBalance base) (post_groups digest sub_id id entity book reason items clearing cs)
  unfolding post_groups
  post_groups-InBalance id entity book reason items clearing [] = record { at = λ db h. h }
  post_groups-InBalance id entity book reason items clearing (c ∷ rest) =
      Keeps-bind (post_group digest sub_id id entity book reason items clearing c) _
        (post_group-InBalance id entity book reason items clearing c)
        λ j.
          Keeps-bind (post_groups digest sub_id id entity book reason items clearing rest) _
            (post_groups-InBalance id entity book reason items clearing rest) λ js. Keeps-pure _

  post_multi_currency-InBalance :
      (id entity book : ℕ) (reason : Reason) (items : List Item) (clearing : List (ℕ × ℕ))
      → Keeps
          (InBalance base)
          (post_multi_currency digest sub_id id entity book reason items clearing)
  unfolding post_multi_currency
  post_multi_currency-InBalance id entity book reason items clearing =
      search (keeps_rules, post_groups-InBalance) depth 20

  reverse_journal-InBalance :
      (id reversal_id : ℕ) (why approval evidence : Text)
      → Keeps (InBalance base) (reverse_journal digest sub_id id reversal_id why approval evidence)
  unfolding reverse_journal
  reverse_journal-InBalance id reversal_id why approval evidence =
      search (keeps_rules, modify-InBalance, post_journal-InBalance) depth 50

  post_template-InBalance :
      (template id entity book : ℕ) (x : ℤ) (currency : ℕ)
      → Keeps (InBalance base) (post_template digest sub_id template id entity book x currency)
  unfolding post_template
  post_template-InBalance template id entity book x currency =
      search (keeps_rules, post_journal-InBalance) depth 50

module _ (digest : List Item → ℕ) (sub_id : ℕ → ℕ → ℕ) {base : ℕ → ℤ} where
  ended :
      {A : Type 0} (m : BooksSession A)
      → Keeps (InBalance base) m
      → Keeps (InBalance base) (m >> pure tt)
  ended m k = Keeps-bind m _ k λ a. Keeps-pure _

  call-InBalance : (r : Request) → IsDoubleEntry r → Keeps (InBalance base) (call digest sub_id r)
  call-InBalance (opened id entity book currency kind opening) e =
      rw e (ended _ (create_account-InBalance id entity book currency kind))
  call-InBalance (reserved_for id r x c) e = ended _ (reserve-InBalance id r x c)
  call-InBalance (released id) e = ended _ (release-InBalance id)
  call-InBalance (consumed id) e = absurd e
  call-InBalance (held id a x c t) e = ended _ (create-InBalance id a x c t)
  call-InBalance (hold_moved id state v) e = ended _ (transition-InBalance id state v)
  call-InBalance (holds_expired now) e = ended _ (expire_due-InBalance now)
  call-InBalance (posted id entity book reason items order) e =
      ended _ (post_journal-InBalance digest id entity book reason items order)
  call-InBalance (drafted id entity book reason items order) e =
      ended _ (create_journal_draft-InBalance digest sub_id id entity book reason items order)
  call-InBalance (posted_multi id entity book reason items clearing) e =
      ended _ (post_multi_currency-InBalance digest sub_id id entity book reason items clearing)
  call-InBalance (draft_validated id) e = ended _ (validate_journal-InBalance id)
  call-InBalance (reversed id r why approval evidence) e =
      ended _ (reverse_journal-InBalance digest sub_id id r why approval evidence)
  call-InBalance (from_template t id entity book x c) e =
      ended _ (post_template-InBalance digest sub_id t id entity book x c)

  -- Where no balance is negative, this stays so, and in each currency the accounting equation
  -- (debit-normal balances less credit-normal ones) comes to the same, under any requests to the
  -- subledger, in any order, whether they return or raise, but for consumptions and for accounts
  -- with an opening balance.
  pub perform_all-InBalance :
      (rs : List Request) (db : Books)
      → All IsDoubleEntry rs
      → InBalance base db
      → InBalance base (perform_all digest sub_id rs db)
  perform_all-InBalance [] db e h = h
  perform_all-InBalance (r ∷ rs) db e h =
      perform_all-InBalance rs (perform digest sub_id r db) e.1
        (Keeps-atomic (call digest sub_id r) (call-InBalance r e.0) db h)
