-- ===== src/Production/Ledger/Undo.antt =====
-- A journal that is posted and then reversed.
use swift.Prelude.{
  ◌⊎◌, ℕ, ◌≡◌, refl, ◌∙◌, ap, true, ◌||◌, Option, List, [], ◌∷◌, All, map, Bool-cases, inl, inr,
  ◌==◌, ==_iff, arith, if◌then◌else◌,
}
use swift.Prelude.Int.{ℤ, pos, pos_part, neg_part, ◌+ℤ◌, ◌-ℤ◌, int_laws}
use swift.Prelude.Exec.{◌>>◌}
use swift.Prelude.Exec.Keeps.{OnOk}
use swift.Prelude.Exec.Returns.{OnOk-bind, OnOk-or_raise}
use swift.Production.Ledger.{
  Direction, debit, credit, unknown_direction, AccountType, Item, Reason, Books, is_debit,
  is_credit, is_valid_item, same_direction, normal_balance, find_journal, post_journal, reversal,
}
use swift.Production.Ledger.Journals.{
  Text, items_of, reversed, reverse_direction, posted_only, reverse_journal,
}
use swift.Production.Ledger.Rows.{sum}
use swift.Production.Ledger.Posting.{balance_of, kind_at, part, net}
use swift.Production.Ledger.Equation.{normal_cases}
use swift.Production.Ledger.Balance.{items_valid}
use swift.Production.Ledger.Outcome.{Posted, post_journal-Posted}

opposite :
    (d n : Direction) (x : ℤ)
    → (n ≡ debit) ⊎ (n ≡ credit)
    → (is_debit d || is_credit d) ≡ true
    → (if same_direction (reverse_direction d) n then x else pos 0 -ℤ x)
      ≡ pos 0 -ℤ (if same_direction d n then x else pos 0 -ℤ x)
opposite debit n x (inl e) v = rw e refl
opposite debit n x (inr e) v = rw e (omega int_laws)
opposite credit n x (inl e) v = rw e (omega int_laws)
opposite credit n x (inr e) v = rw e refl
opposite (unknown_direction u) n x h v = cc

part-reversed :
    (id : ℕ) (kind : AccountType) (e : Item)
    → is_valid_item e ≡ true
    → part id kind (reversed e) ≡ pos 0 -ℤ part id kind e
part-reversed id kind e v = elim (Bool-cases (e.account_id == id)) [
  | inl s ↦
      rw s (opposite e.direction (normal_balance kind) e.amount (normal_cases kind) (ground arith))
  | inr s ↦ rw s (omega int_laws)
]

net-reversed :
    (id : ℕ) (kind : AccountType) (items : List Item)
    → All (λ e. is_valid_item e ≡ true) items
    → net id kind (map reversed items) ≡ pos 0 -ℤ net id kind items
unfolding sum
net-reversed id kind [] v = omega int_laws
net-reversed id kind (e ∷ rest) v =
    rw (part-reversed id kind e v.0, net-reversed id kind rest v.1) (omega int_laws)

back : (b b' b'' n m : ℤ) → b' ≡ b +ℤ n → b'' ≡ b' +ℤ m → m ≡ pos 0 -ℤ n → b'' ≡ b
back b b' b'' n m e f g = omega (
  int_laws,
  ap pos_part e,
  ap neg_part e,
  ap pos_part f,
  ap neg_part f,
  ap pos_part g,
  ap neg_part g,
)

module _ (digest : List Item → ℕ) (sub_id : ℕ → ℕ → ℕ) (journal_id entity book : ℕ)
    (reason : Reason) (items : List Item) (order : Option ℕ) (reversal_id : ℕ)
    (why approval evidence : Text) where
  undone :
      (db s : Books)
      → items_of journal_id db.entries ≡ []
      → Posted digest journal_id items db s
      → OnOk
          (λ t. (j : ℕ) → balance_of j t.accounts ≡ balance_of j db.accounts)
          (reverse_journal digest sub_id journal_id reversal_id why approval evidence s)
  unfolding reverse_journal
  undone db s no_entries p =
      let Q : Books → Type 0 = λ t. (j : ℕ) → balance_of j t.accounts ≡ balance_of j db.accounts in
      let own : items_of journal_id s.entries ≡ items =
        p.entries journal_id ∙ rw (no_entries, (==_iff journal_id journal_id).1 refl) refl in
      OnOk-or_raise Q (posted_only (find_journal journal_id s.journals)) _ _ s λ original found.
        OnOk-or_raise Q why _ _ s λ w given. OnOk-or_raise Q approval _ _ s λ a approved.
          OnOk-or_raise Q evidence _ _ s λ e shown.
            OnOk-bind (Posted digest reversal_id (map reversed (items_of journal_id s.entries)) s) Q
              (post_journal digest reversal_id original.legal_entity original.book reversal
                (map reversed (items_of journal_id s.entries)) original.order_id)
              _ s
              (post_journal-Posted digest reversal_id original.legal_entity original.book reversal
                (map reversed (items_of journal_id s.entries)) original.order_id s)
              λ id t r j.
                back (balance_of j db.accounts) (balance_of j s.accounts) (balance_of j t.accounts)
                  (net j (kind_at j db.accounts) items) _ (p.balances j) (r.balances j)
                  (rw (own, p.kinds j)
                    (net-reversed j (kind_at j db.accounts) items
                      (items_valid _ db items p.entered)))

  -- Where the journal has no entries yet: if it is posted and then reversed, and both return,
  -- every account has the balance that it had before.
  pub reverse-post :
      (db : Books)
      → items_of journal_id db.entries ≡ []
      → OnOk
          (λ t. (j : ℕ) → balance_of j t.accounts ≡ balance_of j db.accounts)
          ((post_journal digest journal_id entity book reason items order
              >> reverse_journal digest sub_id journal_id reversal_id why approval evidence)
            db)
  reverse-post db no_entries =
      OnOk-bind (Posted digest journal_id items db) _
        (post_journal digest journal_id entity book reason items order) _ db
        (post_journal-Posted digest journal_id entity book reason items order db)
        λ id s p. undone db s no_entries p
