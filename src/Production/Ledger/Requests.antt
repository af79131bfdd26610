-- ===== src/Production/Ledger/Requests.antt =====
-- Requests to the subledger, each committed or rolled back.
use swift.Prelude.{ℕ, ◌≡◌, Option, List, [], ◌∷◌}
use swift.Prelude.Int.{ℤ, pos}
use swift.Prelude.Exec.{pure, atomic, ◌>>◌}
use swift.Production.Ledger.{
  AccountType, Item, Reason, HoldState, Books, BooksSession, create_account, reserve, release,
  consume, post_journal,
}
use swift.Production.Ledger.Holds.{create, transition, expire_due}
use swift.Production.Ledger.Journals.{
  Text, validate_journal, create_journal_draft, post_multi_currency, reverse_journal, post_template,
}

pub data Request : Type 0 where
  opened : ℕ → ℕ → ℕ → ℕ → Option AccountType → ℤ → Request
  reserved_for : ℕ → ℕ → ℤ → ℕ → Request
  released consumed : ℕ → Request
  held : ℕ → ℕ → ℤ → ℕ → Option ℕ → Request
  hold_moved : ℕ → HoldState → ℕ → Request
  holds_expired : ℕ → Request
  posted drafted : ℕ → ℕ → ℕ → Reason → List Item → Option ℕ → Request
  posted_multi : ℕ → ℕ → ℕ → Reason → List Item → List (ℕ × ℕ) → Request
  draft_validated : ℕ → Request
  reversed : ℕ → ℕ → Text → Text → Text → Request
  from_template : ℕ → ℕ → ℕ → ℕ → ℤ → ℕ → Request

-- Neither a consumption nor an opening balance, which touch one account only.
abbrev pub IsDoubleEntry : Request → Type 0
IsDoubleEntry (opened id entity book currency kind opening) = opening ≡ pos 0
IsDoubleEntry (consumed id) = ⊥
IsDoubleEntry _ = Unit

module _ (digest : List Item → ℕ) (sub_id : ℕ → ℕ → ℕ) where
  abbrev pub call : Request → BooksSession Unit
  call (opened id entity book currency kind opening) =
      create_account id entity book currency kind opening >> pure tt
  call (reserved_for id r x c) = reserve id r x c >> pure tt
  call (released id) = release id >> pure tt
  call (consumed id) = consume id >> pure tt
  call (held id a x c t) = create id a x c t >> pure tt
  call (hold_moved id state v) = transition id state v >> pure tt
  call (holds_expired now) = expire_due now >> pure tt
  call (posted id entity book reason items order) =
      post_journal digest id entity book reason items order >> pure tt
  call (drafted id entity book reason items order) =
      create_journal_draft digest sub_id id entity book reason items order >> pure tt
  call (posted_multi id entity book reason items clearing) =
      post_multi_currency digest sub_id id entity book reason items clearing >> pure tt
  call (draft_validated id) = validate_journal id >> pure tt
  call (reversed id r why approval evidence) =
      reverse_journal digest sub_id id r why approval evidence >> pure tt
  call (from_template t id entity book x c) =
      post_template digest sub_id t id entity book x c >> pure tt

  abbrev pub perform : Request → Books → Books
  perform r db = (atomic (call r) db).1

  abbrev pub perform_all : List Request → Books → Books
  perform_all [] db = db
  perform_all (r ∷ rs) db = perform_all rs (perform r db)
