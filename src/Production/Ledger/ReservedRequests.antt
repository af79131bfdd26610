-- ===== src/Production/Ledger/ReservedRequests.antt =====
-- The reserved amounts under requests to the subledger.
use swift.Prelude.{
  ℕ, ◌≡◌, refl, ◌∙◌, not, Option, none, List, [], ◌∷◌, ◌++◌, arith, find-append_none,
  find-append_some, Option-cases, inl, inr, ◌==◌, is_some,
}
use swift.Prelude.Int.{ℤ, pos, ◌+ℤ◌, ltb_ℤ}
use swift.Prelude.Exec.{modify}
use swift.Prelude.Exec.Keeps.{Keeps, Keeps-atomic, Keeps-bind, Keeps-pure, keeps_rules}
use swift.Prelude.Exec.Returns.{OnOk-raise_if, OnOk-or_raise}
use swift.Production.Ledger.{
  AccountType, Account, Item, Reason, Journal, Books, Conflict, find_account, find_active,
  write_account, create_account, post_journal, validate_entries, check_items, apply_items,
  insert_entries, insert_journal, delta, post_to, is_valid_item,
}
use swift.Production.Ledger.Journals.{
  validate_journal, create_journal_draft, post_group, post_groups, post_multi_currency,
  reverse_journal, post_template,
}
use swift.Production.Ledger.Rows.{column-write}
use swift.Production.Ledger.Reserving.{IsReserved, reserved_at}
use swift.Production.Ledger.ReservedFunds.{
  reserve-IsReserved, release-IsReserved, consume-IsReserved,
}
use swift.Production.Ledger.HeldFunds.{
  create-IsReserved, transition-IsReserved, expire_due-IsReserved,
}
use swift.Production.Ledger.Requests.{
  Request, opened, reserved_for, released, consumed, held, hold_moved, holds_expired, posted,
  drafted, posted_multi, draft_validated, reversed, from_template, call, perform, perform_all,
}

modify-IsReserved :
    (f : Books → Books)
    → ((db : Books) → (f db).accounts ≡ db.accounts)
    → ((db : Books) → (f db).reservations ≡ db.reservations)
    → ((db : Books) → (f db).holds ≡ db.holds)
    → Keeps {E = Conflict} IsReserved (modify f)
modify-IsReserved f a r o = record {
  at = λ db h. record {
    exact = λ j. rw (a db, r db, o db) (h.exact j);
    amounts = rw (r db) h.amounts;
    hold_amounts = rw (o db) h.hold_amounts;
  };
}

check_items-IsReserved : (c : ℕ) (items : List Item) → Keeps IsReserved (check_items c items)
unfolding check_items
check_items-IsReserved c [] = record { at = λ db h. h }
check_items-IsReserved c (e ∷ rest) = record {
  at = λ db h. OnOk-raise_if IsReserved (not (is_valid_item e)) _ _ db λ valid.
      OnOk-or_raise IsReserved (find_active e.account_id db.accounts) _ _ db λ a active.
        OnOk-raise_if IsReserved (not (a.currency == c)) _ _ db
          λ same. (check_items-IsReserved c rest).at db h;
}

post_to-IsReserved : (e : Item) → Keeps IsReserved (write_account e.account_id (post_to e))
post_to-IsReserved e = record {
  at = λ db h. record {
    exact = λ j.
        column-write (post_to e) (λ b. refl) (pos 0) Account.reserved e.account_id j db.accounts
          (λ b. refl)
        ∙ h.exact j;
    amounts = h.amounts;
    hold_amounts = h.hold_amounts;
  };
}

apply_items-IsReserved : (items : List Item) → Keeps IsReserved (apply_items items)
unfolding apply_items
apply_items-IsReserved [] = record { at = λ db h. h }
apply_items-IsReserved (e ∷ rest) = record {
  at = λ db h. OnOk-or_raise IsReserved (find_active e.account_id db.accounts) _ _ db λ a active.
      OnOk-raise_if IsReserved (ltb_ℤ (a.balance +ℤ delta a.account_type e) (pos 0)) _ _ db
        λ covered. (apply_items-IsReserved rest).at _ ((post_to-IsReserved e).at db h);
}

insert_entries-IsReserved :
    (id : ℕ) (items : List Item) → Keeps IsReserved (insert_entries id items)
unfolding insert_entries
insert_entries-IsReserved id [] = record { at = λ db h. h }
insert_entries-IsReserved id (e ∷ rest) = record {
  at = λ db h. OnOk-raise_if IsReserved (not (is_valid_item e)) _ _ db λ valid.
      (insert_entries-IsReserved id rest).at _
        (record { exact = h.exact; amounts = h.amounts; hold_amounts = h.hold_amounts });
}

insert_journal-IsReserved :
    (j : Journal) (items : List Item) → Keeps IsReserved (insert_journal j items)
unfolding insert_journal
insert_journal-IsReserved j items =
    search (keeps_rules, modify-IsReserved, insert_entries-IsReserved) depth 20

validate_entries-IsReserved : (items : List Item) → Keeps IsReserved (validate_entries items)
unfolding validate_entries
validate_entries-IsReserved items = search keeps_rules depth 20

new_account-IsReserved :
    (a : Account)
    → a.reserved ≡ pos 0
    → (db : Books) → find_account a.account_id db.accounts ≡ none
    → IsReserved db
    → IsReserved (record db { accounts = db.accounts ++ a ∷ [] })
new_account-IsReserved a z db free h = record {
  exact = λ j. same j ∙ h.exact j;
  amounts = h.amounts;
  hold_amounts = h.hold_amounts;
}
  where
    same : (j : ℕ) → reserved_at j (db.accounts ++ a ∷ []) ≡ reserved_at j db.accounts
    same j = elim (Option-cases (find_account j db.accounts)) [
      | inl e ↦
          rw (find-append_none (λ r. r.account_id == j) db.accounts (a ∷ []) e, e) (ground arith)
      | inr (b, e) ↦ rw (find-append_some (λ r. r.account_id == j) db.accounts (a ∷ []) b e, e)
    ]

create_account-IsReserved :
    (id entity book currency : ℕ) (kind : Option AccountType) (opening : ℤ)
    → Keeps IsReserved (create_account id entity book currency kind opening)
unfolding create_account
create_account-IsReserved id entity book currency kind opening = record {
  at = λ db h. OnOk-raise_if IsReserved (ltb_ℤ opening (pos 0)) _ _ db λ nonneg.
      OnOk-or_raise IsReserved kind _ _ db λ k known.
        OnOk-raise_if IsReserved (is_some (find_account id db.accounts)) _ _ db
          λ new. new_account-IsReserved _ refl db (ground arith) h;
}

module _ (digest : List Item → ℕ) (sub_id : ℕ → ℕ → ℕ) where
  post_journal-IsReserved :
      (id entity book : ℕ) (reason : Reason) (items : List Item) (order : Option ℕ)
      → Keeps IsReserved (post_journal digest id entity book reason items order)
  unfolding post_journal
  post_journal-IsReserved id entity book reason items order =
      search
        (
          keeps_rules, validate_entries-IsReserved, check_items-IsReserved, apply_items-IsReserved,
          insert_journal-IsReserved,
        )
        depth 40

  post_group-IsReserved :
      (id entity book : ℕ) (reason : Reason) (items : List Item) (clearing : List (ℕ × ℕ)) (c : ℕ)
      → Keeps IsReserved (post_group digest sub_id id entity book reason items clearing c)
  unfolding post_group
  post_group-IsReserved id entity book reason items clearing c =
      search (keeps_rules, validate_entries-IsReserved, post_journal-IsReserved) depth 40

  post_groups-IsReserved :
      (id entity book : ℕ) (reason : Reason) (items : List Item) (clearing : List (ℕ × ℕ))
      (cs : List ℕ)
      → Keeps IsReserved (post_groups digest sub_id id entity book reason items clearing cs)
  unfolding post_groups
  post_groups-IsReserved id entity book reason items clearing [] = record { at = λ db h. h }
  post_groups-IsReserved id entity book reason items clearing (c ∷ rest) =
      Keeps-bind (post_group digest sub_id id entity book reason items clearing c) _
        (post_group-IsReserved id entity book reason items clearing c)
        λ j.
          Keeps-bind (post_groups digest sub_id id entity book reason items clearing rest) _
            (post_groups-IsReserved id entity book reason items clearing rest) λ js. Keeps-pure _

  ruleset reserved_rules = (
    keeps_rules, modify-IsReserved, insert_journal-IsReserved, validate_entries-IsReserved,
    post_journal-IsReserved, post_groups-IsReserved, reserve-IsReserved, release-IsReserved,
    consume-IsReserved, create-IsReserved, transition-IsReserved, expire_due-IsReserved,
    create_account-IsReserved,
  )

  call-IsReserved : (r : Request) → Keeps IsReserved (call digest sub_id r)
  unfolding create_journal_draft post_multi_currency validate_journal reverse_journal post_template
  call-IsReserved (opened id entity book currency kind opening) = search reserved_rules
  call-IsReserved (reserved_for id r x c) = search reserved_rules
  call-IsReserved (released id) = search reserved_rules
  call-IsReserved (consumed id) = search reserved_rules
  call-IsReserved (held id a x c t) = search reserved_rules
  call-IsReserved (hold_moved id state v) = search reserved_rules
  call-IsReserved (holds_expired now) = search reserved_rules
  call-IsReserved (posted id entity book reason items order) = search reserved_rules
  call-IsReserved (drafted id entity book reason items order) = search reserved_rules depth 40
  call-IsReserved (posted_multi id entity book reason items clearing) =
      search reserved_rules depth 40
  call-IsReserved (draft_validated id) = search reserved_rules depth 40
  call-IsReserved (reversed id r why approval evidence) = search reserved_rules depth 60
  call-IsReserved (from_template t id entity book x c) = search reserved_rules depth 60

  -- Where the reserved amount of each account is the sum of its reservations that are still
  -- reserved and of its holds that are held or unknown, none of a negative amount, this stays so
  -- under any requests to the subledger, in any order, whether they return or raise.
  pub perform_all-IsReserved :
      (rs : List Request) (db : Books)
      → IsReserved db
      → IsReserved (perform_all digest sub_id rs db)
  perform_all-IsReserved [] db h = h
  perform_all-IsReserved (r ∷ rs) db h =
      perform_all-IsReserved rs (perform digest sub_id r db)
        (Keeps-atomic (call digest sub_id r) (call-IsReserved r) db h)
