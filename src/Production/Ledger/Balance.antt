-- ===== src/Production/Ledger/Balance.antt =====
-- The second loop of `post_journal`, the equation and the balances.
use swift.Prelude.{
  ℕ, ◌≡◌, refl, ◌∙◌, sym, ap, Bool, true, false, not, ◌&&◌, Option, some, List, [], ◌∷◌, All,
  All-update_found, arith, Bool-cases, inl, inr, ◌==◌, is_some, if◌then◌else◌,
}
use mathlib.Core.Path.{subst}
use mathlib.Core.Option.{some-injective}
use swift.Prelude.Int.{
  eqb_ℤ, eq_of_parts, ℤ, pos, pos_part, neg_part, ◌+ℤ◌, ◌-ℤ◌, ◌≤ℤ◌, ltb_ℤ, int_laws,
}
use swift.Prelude.Exec.{modify}
use swift.Prelude.Exec.Keeps.{OnOk, Keeps, keeps_rules}
use swift.Prelude.Exec.Returns.{OnOk-map, OnOk-bind, OnOk-check, OnOk-raise_if, OnOk-or_raise}
use swift.Production.Ledger.{
  Account, Item, Journal, Books, Conflict, find_account, find_active, find_journal, is_debit,
  is_credit, sum_if, delta, post_to, is_valid_item, apply_items, check_items, validate_entries,
  insert_entries, insert_journal, currency_of, post_journal, Reason,
}
use swift.Production.Ledger.Rows.{sum}
use swift.Production.Ledger.Posting.{found_active, written, SameBut-post}
use swift.Production.Ledger.Outcome.{
  Entered, IsBalanced, check_items-Entered, validate_entries-IsBalanced,
}
use swift.Production.Ledger.Equation.{equation-post, weight_of, located, InBalance, sum-weight_of}

-- The equation after some items of a currency.
abbrev shifted : (ℕ → ℤ) → ℕ → Item → ℕ → ℤ
shifted base currency e c = base c +ℤ (if currency == c then weight_of e else pos 0)

not_over : (x : ℤ) → ltb_ℤ x (pos 0) ≡ false → pos 0 ≤ℤ x
not_over x h = ground arith

written-InBalance :
    (base : ℕ → ℤ) (currency : ℕ) (e : Item) (db : Books) (a : Account)
    (found : find_account e.account_id db.accounts ≡ some a)
    → a.currency ≡ currency
    → is_valid_item e ≡ true
    → ltb_ℤ (a.balance +ℤ delta a.account_type e) (pos 0) ≡ false
    → InBalance base db
    → InBalance (shifted base currency e) (written e db a found)
written-InBalance base currency e db a found same valid covered h = record {
  nonneg =
      All-update_found (λ b. pos 0 ≤ℤ b.balance) (λ b. b.account_id == e.account_id) (post_to e)
        db.accounts
        (λ b at k.
          subst (λ r. pos 0 ≤ℤ r.balance +ℤ delta r.account_type e)
            (some-injective a b (sym found ∙ at)) (not_over _ covered))
        h.nonneg;
  equal = λ c. equation-post c currency e db a found same valid ∙ rw (h.equal c) refl;
}

abbrev total_shift : (ℕ → ℤ) → ℕ → List Item → ℕ → ℤ
total_shift base currency items c = base c +ℤ (if currency == c then sum weight_of items else pos 0)

shift_step :
    (base : ℕ → ℤ) (currency : ℕ) (e : Item) (rest : List Item) (c : ℕ)
    → total_shift (shifted base currency e) currency rest c ≡ total_shift base currency (e ∷ rest) c
unfolding sum
shift_step base currency e rest c = elim (Bool-cases (currency == c)) [
  | inl t ↦ rw t (omega int_laws)
  | inr t ↦ rw t (omega int_laws)
]

write-Entered :
    (currency : ℕ) (e : Item) (db : Books) (a : Account)
    (found : find_account e.account_id db.accounts ≡ some a) (items : List Item)
    → All (Entered currency db) items
    → All (Entered currency (written e db a found)) items
write-Entered currency e db a found [] h = tt
write-Entered currency e db a found (x ∷ rest) h = (
  (h.0.0, (SameBut-post e db a found).currencies x.account_id ∙ h.0.1),
  write-Entered currency e db a found rest h.1,
)

pub apply_items-InBalance :
    (base : ℕ → ℤ) (currency : ℕ) (items : List Item) (db : Books)
    → All (Entered currency db) items
    → InBalance base db
    → OnOk (InBalance (total_shift base currency items)) (apply_items items db)
unfolding apply_items sum
apply_items-InBalance base currency [] db entered h = record {
  nonneg = h.nonneg;
  equal = λ c. h.equal c ∙ nothing (currency == c) (base c);
}
  where
    nothing : (b : Bool) (x : ℤ) → x ≡ x +ℤ (if b then pos 0 else pos 0)
    nothing true x = omega int_laws
    nothing false x = omega int_laws
apply_items-InBalance base currency (e ∷ rest) db entered h =
    let Q : Books → Type 0 = InBalance (total_shift base currency (e ∷ rest)) in
    OnOk-or_raise Q (find_active e.account_id db.accounts) _ _ db λ a active.
      let found = found_active e.account_id db.accounts a active in
      OnOk-raise_if Q (ltb_ℤ (a.balance +ℤ delta a.account_type e) (pos 0)) _ _ db λ covered.
        OnOk-map (apply_items rest (written e db a found))
          (λ s k. record {
            nonneg = k.nonneg;
            equal = λ c. k.equal c ∙ shift_step base currency e rest c;
          })
          (apply_items-InBalance (shifted base currency e) currency rest (written e db a found)
            (write-Entered currency e db a found rest entered.1)
            (written-InBalance base currency e db a found
              (located currency e db a found entered.0.1) entered.0.0 covered h))

cancel : (b : Bool) (x w p q : ℤ) → w ≡ p -ℤ q → p ≡ q → x ≡ x +ℤ (if b then w else pos 0)
cancel true x w p q e f =
    omega (int_laws, ap pos_part e, ap neg_part e, ap pos_part f, ap neg_part f)
cancel false x w p q e f = omega int_laws

pub items_valid :
    (currency : ℕ) (db : Books) (items : List Item)
    → All (Entered currency db) items
    → All (λ e. is_valid_item e ≡ true) items
items_valid currency db [] h = tt
items_valid currency db (e ∷ rest) h = (h.0.0, items_valid currency db rest h.1)

sides_equal :
    (items : List Item) → IsBalanced items → sum_if is_debit items ≡ sum_if is_credit items
sides_equal items h = same (sum_if is_debit items) (sum_if is_credit items) h.1
  where
    same : (p q : ℤ) → (ltb_ℤ (pos 0) p && eqb_ℤ p q) ≡ true → p ≡ q
    same p q k = ground (arith, eq_of_parts p q)

settled :
    (base : ℕ → ℤ) (currency : ℕ) (items : List Item) (db s : Books)
    → IsBalanced items
    → All (Entered currency db) items
    → InBalance (total_shift base currency items) s
    → InBalance base s
settled base currency items db s balanced entered h = record {
  nonneg = h.nonneg;
  equal = λ c.
      h.equal c
      ∙ sym (
          cancel (currency == c) (base c) (sum weight_of items) (sum_if is_debit items)
            (sum_if is_credit items) (sum-weight_of items (items_valid currency db items entered))
            (sides_equal items balanced));
}

-- Rows of other tables make no difference.
pub modify-InBalance :
    {base : ℕ → ℤ} (f : Books → Books)
    → ((db : Books) → (f db).accounts ≡ db.accounts)
    → Keeps {E = Conflict} (InBalance base) (modify f)
modify-InBalance f same = record {
  at = λ db h. record { nonneg = rw (same db) h.nonneg; equal = λ c. rw (same db) (h.equal c) };
}

module _ {base : ℕ → ℤ} where
  pub insert_entries-InBalance :
      (journal_id : ℕ) (items : List Item)
      → Keeps (InBalance base) (insert_entries journal_id items)
  unfolding insert_entries
  insert_entries-InBalance journal_id [] = record { at = λ db h. h }
  insert_entries-InBalance journal_id (e ∷ rest) = record {
    at = λ db h. OnOk-raise_if (InBalance base) (not (is_valid_item e)) _ _ db λ valid.
        (insert_entries-InBalance journal_id rest).at _
          (record { nonneg = h.nonneg; equal = h.equal });
  }

  pub insert_journal-InBalance :
      (journal : Journal) (items : List Item)
      → Keeps (InBalance base) (insert_journal journal items)
  unfolding insert_journal
  insert_journal-InBalance journal items =
      search (keeps_rules, modify-InBalance, insert_entries-InBalance) depth 20

  pub post_journal-InBalance :
      (digest : List Item → ℕ) (journal_id legal_entity book : ℕ) (reason : Reason)
      (items : List Item) (order_id : Option ℕ)
      → Keeps
          (InBalance base)
          (post_journal digest journal_id legal_entity book reason items order_id)
  unfolding post_journal
  post_journal-InBalance digest journal_id legal_entity book reason items order_id = record {
    at = λ db h.
        let P : Books → Type 0 = InBalance base in
        OnOk-check P (validate_entries items) _ db (validate_entries-IsBalanced items db)
          λ u balanced.
            OnOk-raise_if P (is_some (find_journal journal_id db.journals)) _ _ db λ new.
              OnOk-check P (check_items (currency_of items) items) _ db
                (check_items-Entered (currency_of items) items db)
                λ u' entered.
                  OnOk-bind (InBalance (total_shift base (currency_of items) items)) P
                    (apply_items items) _ db
                    (apply_items-InBalance base (currency_of items) items db entered h)
                    λ u'' s k.
                      (insert_journal-InBalance _ items).at s
                        (settled base (currency_of items) items db s balanced entered k);
  }
