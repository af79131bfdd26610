-- ===== src/Production/Ledger/Journals.antt =====
-- backend/production/_ledger_core.py: journals in several currencies, drafts, reversals and
-- templates.
use swift.Prelude.{
  ℕ, Bool, true, false, not, ◌&&◌, Option, none, some, List, [], ◌∷◌, length, map, find, select,
  update_found, is_some, ltb, ◌==◌, if◌then◌else◌,
}
use swift.Prelude.Int.{ℤ}
use swift.Prelude.Exec.{pure, gets, raise_if, or_raise, modify, ◌>>=◌, ◌>>◌}
use swift.Production.Ledger.{
  Direction, debit, credit, unknown_direction, Item, JournalEntry, JournalState, Reason, reversal,
  templated, Reversal, Journal, Template, BooksSession, find_journal, validate_entries,
  insert_journal, new_journal, post_journal, journal_exists, not_validateable, one_currency,
  no_clearing, no_clearing_leg, not_posted, no_approval, no_template, bad_mapping,
}

abbrev pub items_of : ℕ → List JournalEntry → List Item
items_of journal_id entries =
    map JournalEntry.item (select (λ e. e.journal_id == journal_id) entries)

abbrev pub is_posted : JournalState → Bool
is_posted JournalState.posted = true
is_posted _ = false

abbrev pub set_state : ℕ → JournalState → BooksSession Unit
set_state id state = modify (λ db. record db {
  journals = update_found (λ j. j.journal_id == id) (λ j. record j { state = state }) db.journals;
})

unfoldable pub validate_journal : ℕ → BooksSession ℕ
validate_journal journal_id = do
  found ← gets (λ db. find_journal journal_id db.journals)
  journal ← or_raise found not_validateable
  raise_if (is_posted journal.state) not_validateable
  items ← gets (λ db. items_of journal_id db.entries)
  validate_entries items
  set_state journal_id JournalState.validated
  pure journal_id

-- The distinct currencies of the entries, sorted; the numbers of the currencies are in the order
-- of their codes.
unfoldable pub insert_currency : ℕ → List ℕ → List ℕ
insert_currency c [] = c ∷ []
insert_currency c (d ∷ rest) =
    if c == d then d ∷ rest else if ltb c d then c ∷ d ∷ rest else d ∷ insert_currency c rest

unfoldable pub currencies_of : List Item → List ℕ
currencies_of [] = []
currencies_of (e ∷ rest) = insert_currency e.currency (currencies_of rest)

abbrev pub group : ℕ → List Item → List Item
group currency entries = select (λ e. e.currency == currency) entries

abbrev pub clearing_account : ℕ → List (ℕ × ℕ) → Option ℕ
clearing_account currency [] = none
clearing_account currency ((c, id) ∷ rest) =
    if c == currency then some id else clearing_account currency rest

abbrev pub reverse_direction : Direction → Direction
reverse_direction debit = credit
reverse_direction credit = debit
reverse_direction (unknown_direction d) = debit

abbrev pub reversed : Item → Item
reversed e = record e { direction = reverse_direction e.direction }

abbrev pub posted_only : Option Journal → Option Journal
posted_only none = none
posted_only (some j) = if is_posted j.state then some j else none

-- A text that may be empty.
abbrev pub Text : Type 0
Text = Option ℕ

abbrev pub set_reversal : ℕ → Reversal → BooksSession Unit
set_reversal id r = modify (λ db. record db {
  journals =
      update_found (λ j. j.journal_id == id) (λ j. record j { reverses = some r }) db.journals;
})

abbrev pub templated_item : ℤ → ℕ → ℕ × Direction → Item
templated_item amount currency (account_id, direction) = record {
  account_id = account_id;
  direction = direction;
  currency = currency;
  amount = amount;
}

abbrev pub find_template : ℕ → List Template → Option Template
find_template id templates = find (λ t. t.template_id == id && t.active) templates

-- `sub_id` makes the identifier `<journal>:<currency>`.
module _ (digest : List Item → ℕ) (sub_id : ℕ → ℕ → ℕ) where
  unfoldable pub create_journal_draft : ℕ → ℕ → ℕ → Reason → List Item → Option ℕ → BooksSession ℕ
  create_journal_draft journal_id legal_entity book reason entries order_id = do
    found ← gets (λ db. find_journal journal_id db.journals)
    raise_if (is_some found) journal_exists
    validate_entries entries
    insert_journal
        (new_journal digest journal_id order_id legal_entity book JournalState.draft reason entries)
        entries

  -- A round of the loop over the groups.
  unfoldable pub post_group : ℕ → ℕ → ℕ → Reason → List Item → List (ℕ × ℕ) → ℕ → BooksSession ℕ
  post_group journal_id legal_entity book reason entries clearing c = do
    account ← or_raise (clearing_account c clearing) no_clearing
    raise_if (not (is_some (find (λ (e : Item). e.account_id == account) (group c entries))))
        no_clearing_leg
    validate_entries (group c entries)
    post_journal digest (sub_id journal_id c) legal_entity book reason (group c entries) none

  unfoldable pub post_groups :
      ℕ → ℕ → ℕ → Reason → List Item → List (ℕ × ℕ) → List ℕ → BooksSession (List ℕ)
  post_groups journal_id legal_entity book reason entries clearing [] = pure []
  post_groups journal_id legal_entity book reason entries clearing (c ∷ rest) = do
    id ← post_group journal_id legal_entity book reason entries clearing c
    others ← post_groups journal_id legal_entity book reason entries clearing rest
    pure (id ∷ others)

  unfoldable pub post_multi_currency :
      ℕ → ℕ → ℕ → Reason → List Item → List (ℕ × ℕ) → BooksSession (List ℕ)
  post_multi_currency journal_id legal_entity book reason entries clearing = do
    raise_if (ltb (length (currencies_of entries)) 2) one_currency
    post_groups journal_id legal_entity book reason entries clearing (currencies_of entries)

  unfoldable pub reverse_journal : ℕ → ℕ → Text → Text → Text → BooksSession ℕ
  reverse_journal journal_id reversal_id reason approval_ref evidence_ref = do
    found ← gets (λ db. posted_only (find_journal journal_id db.journals))
    original ← or_raise found not_posted
    why ← or_raise reason no_approval
    approval ← or_raise approval_ref no_approval
    evidence ← or_raise evidence_ref no_approval
    items ← gets (λ db. map reversed (items_of journal_id db.entries))
    id ←
        post_journal digest reversal_id original.legal_entity original.book reversal items
          original.order_id
    set_reversal id (record {
      reverses_journal_id = journal_id;
      reason = why;
      approval_ref = approval;
      evidence_ref = evidence;
    })
    pure id

  unfoldable pub post_template : ℕ → ℕ → ℕ → ℕ → ℤ → ℕ → BooksSession ℕ
  post_template template_id journal_id legal_entity book amount currency = do
    found ← gets (λ db. find_template template_id db.templates)
    template ← or_raise found no_template
    mapping ← or_raise template.mapping bad_mapping
    raise_if (ltb (length mapping) 2) bad_mapping
    post_journal digest journal_id legal_entity book
        (templated template.template_type template.version)
        (map (templated_item amount currency) mapping) none
