-- ===== src/Production/Ledger/Outcome.antt =====
-- `post_journal`: what it returns on, and what it writes.
use swift.Prelude.{
  ℕ, suc, ◌≡◌, refl, ◌∙◌, Bool, true, false, not, Option, none, some, List, [], ◌∷◌, ◌++◌, All,
  arith, length, Bool-cases, inl, inr, ◌==◌, is_some, ltb, if◌then◌else◌,
}
use mathlib.Core.List.{append_assoc, append-nil}
use swift.Prelude.Int.{◌+ℤ◌}
use swift.Prelude.Exec.Keeps.{OnOk}
use swift.Prelude.Exec.Returns.{OnOk-map, OnOk-bind, OnOk-check, OnOk-raise_if, OnOk-or_raise}
use swift.Production.Ledger.{
  Item, JournalEntry, JournalState, Reason, Books, find_active, find_journal, is_valid_item,
  one_currency_only, debits_equal_credits, currency_of, validate_entries, check_items, apply_items,
  insert_entries, insert_journal, new_journal, post_journal,
}
use swift.Production.Ledger.Journals.{items_of}
use swift.Production.Ledger.Posting.{
  balance_of, kind_at, currency_at, net, found_active, Applied, apply_items-Applied,
}

-- What the first loop has checked of an item.
abbrev pub Entered : ℕ → Books → Item → Type 0
Entered currency db e =
    (is_valid_item e ≡ true) × (currency_at e.account_id db.accounts ≡ some currency)

pub check_items-Entered :
    (currency : ℕ) (items : List Item) (db : Books)
    → OnOk (λ s. (s ≡ db) × All (Entered currency db) items) (check_items currency items db)
unfolding check_items
check_items-Entered currency [] db = (refl, tt)
check_items-Entered currency (e ∷ rest) db =
    let Q : Books → Type 0 = λ s. (s ≡ db) × All (Entered currency db) (e ∷ rest) in
    OnOk-raise_if Q (not (is_valid_item e)) _ _ db λ valid.
      OnOk-or_raise Q (find_active e.account_id db.accounts) _ _ db λ a active.
        OnOk-raise_if Q (not (a.currency == currency)) _ _ db λ same.
          let found = found_active e.account_id db.accounts a active in
          let is_item : is_valid_item e ≡ true = ground arith in
          let located : currency_at e.account_id db.accounts ≡ some currency =
            rw found (ground arith) in
          OnOk-map (check_items currency rest db) (λ s h. (h.0, ((is_item, located), h.1)))
            (check_items-Entered currency rest db)

abbrev pub IsBalanced : List Item → Type 0
IsBalanced items = (one_currency_only items ≡ true) × (debits_equal_credits items ≡ true)

pub validate_entries-IsBalanced :
    (items : List Item) (db : Books)
    → OnOk (λ s. (s ≡ db) × IsBalanced items) (validate_entries items db)
unfolding validate_entries
validate_entries-IsBalanced items db =
    let Q : Books → Type 0 = λ s. (s ≡ db) × IsBalanced items in
    OnOk-raise_if Q (ltb (length items) 2) _ _ db λ long.
      OnOk-raise_if Q (not (one_currency_only items)) _ _ db λ single.
        (elim (Bool-cases (debits_equal_credits items)) [
          | inl e ↦ rw e (refl, (ground arith, refl))
          | inr e ↦ rw e tt
        ])

-- The rows of the entries, by their journals; nothing else but the count of the identifiers.
pub record Inserted (journal_id : ℕ) (items : List Item) (db after : Books) : Type 0 where
  pub accounts : after.accounts ≡ db.accounts
  pub reservations : after.reservations ≡ db.reservations
  pub holds : after.holds ≡ db.holds
  pub journals : after.journals ≡ db.journals
  pub entries :
      (k : ℕ)
      → items_of k after.entries ≡ items_of k db.entries ++ (if journal_id == k then items else [])

items_of-append :
    (k : ℕ) (es : List JournalEntry) (e : JournalEntry)
    → items_of k (es ++ e ∷ []) ≡ items_of k es ++ (if e.journal_id == k then e.item ∷ [] else [])
items_of-append k [] e = ground arith
items_of-append k (x ∷ es) e = ground (arith, items_of-append k es e)

regroup :
    (b : Bool) (xs : List Item) (e : Item) (rest : List Item)
    → (xs ++ (if b then e ∷ [] else [])) ++ (if b then rest else [])
      ≡ xs ++ (if b then e ∷ rest else [])
regroup true xs e rest = append_assoc xs (e ∷ []) rest
regroup false xs e rest = simp (append-nil)

pub insert_entries-Inserted :
    (journal_id : ℕ) (items : List Item) (db : Books)
    → OnOk
        (λ s. Inserted journal_id items db s × All (λ e. is_valid_item e ≡ true) items)
        (insert_entries journal_id items db)
unfolding insert_entries
insert_entries-Inserted id [] db = (
  record {
    accounts = refl;
    reservations = refl;
    holds = refl;
    journals = refl;
    entries = λ k. none_new (id == k) (items_of k db.entries);
  },
  tt,
)
  where
    none_new : (b : Bool) (xs : List Item) → xs ≡ xs ++ (if b then [] else [])
    none_new true xs = simp (append-nil)
    none_new false xs = simp (append-nil)
insert_entries-Inserted id (e ∷ rest) db =
    let Q : Books → Type 0 =
      λ s. Inserted id (e ∷ rest) db s × All (λ e. is_valid_item e ≡ true) (e ∷ rest) in
    OnOk-raise_if Q (not (is_valid_item e)) _ _ db λ valid.
      let row : JournalEntry = record { entry_id = db.ids db.drawn; journal_id = id; item = e } in
      let next : Books = record db { drawn = suc db.drawn; entries = db.entries ++ row ∷ [] } in
      let is_item : is_valid_item e ≡ true = ground arith in
      OnOk-map (insert_entries id rest _)
        (λ s h. (
          record {
            accounts = h.0.accounts;
            reservations = h.0.reservations;
            holds = h.0.holds;
            journals = h.0.journals;
            entries = λ k.
                h.0.entries k
                ∙ rw (items_of-append k db.entries row)
                    (regroup (id == k) (items_of k db.entries) e rest);
          },
          (is_item, h.1),
        ))
        (insert_entries-Inserted id rest _)

module _ (digest : List Item → ℕ) where
  -- A journal that is posted. Its debits are its credits, its accounts are of its currency, each
  -- balance has moved by what the items say, and the journal and its entries are on record.
  pub record Posted (journal_id : ℕ) (items : List Item) (db after : Books) : Type 0 where
    pub is_new : find_journal journal_id db.journals ≡ none
    pub balanced : IsBalanced items
    pub entered : All (Entered (currency_of items) db) items
    pub balances :
        (j : ℕ)
        → balance_of j after.accounts
          ≡ balance_of j db.accounts +ℤ net j (kind_at j db.accounts) items
    pub kinds : (j : ℕ) → kind_at j after.accounts ≡ kind_at j db.accounts
    pub reservations : after.reservations ≡ db.reservations
    pub holds : after.holds ≡ db.holds
    pub journal :
        (legal_entity : ℕ) × (book : ℕ) × (reason : Reason) × (order_id : Option ℕ)
        × (after.journals
            ≡ db.journals
              ++ new_journal digest journal_id order_id legal_entity book JournalState.posted reason
                  items
                ∷ [])
    pub entries :
        (k : ℕ)
        → items_of k after.entries
          ≡ items_of k db.entries ++ (if journal_id == k then items else [])

  pub post_journal-Posted :
      (journal_id legal_entity book : ℕ) (reason : Reason) (items : List Item) (order_id : Option ℕ)
      (db : Books)
      → OnOk
          (Posted journal_id items db)
          (post_journal digest journal_id legal_entity book reason items order_id db)
  unfolding post_journal insert_journal
  post_journal-Posted journal_id legal_entity book reason items order_id db =
      let Q : Books → Type 0 = Posted journal_id items db in
      OnOk-check Q (validate_entries items) _ db (validate_entries-IsBalanced items db)
        λ u balanced. OnOk-raise_if Q (is_some (find_journal journal_id db.journals)) _ _ db λ new.
          OnOk-check Q (check_items (currency_of items) items) _ db
            (check_items-Entered (currency_of items) items db)
            λ u' entered.
              OnOk-bind (Applied items db) Q (apply_items items) _ db (apply_items-Applied items db)
                λ u'' s h.
                  OnOk-bind _ Q (insert_entries journal_id items) _ _
                    (insert_entries-Inserted journal_id items _)
                    λ v t i. record {
                      is_new = ground arith;
                      balanced = balanced;
                      entered = entered;
                      balances = λ j. rw i.0.accounts (h.balances j);
                      kinds = λ j. rw i.0.accounts (h.others.kinds j);
                      reservations = i.0.reservations ∙ h.others.reservations;
                      holds = i.0.holds ∙ h.others.holds;
                      journal = (
                        legal_entity,
                        book,
                        reason,
                        order_id,
                        i.0.journals ∙ rw h.others.journals refl,
                      );
                      entries = λ k. rw (i.0.entries k, h.others.entries) refl;
                    }
