-- ===== src/Production/Ledger/Posting.antt =====
-- What a posted journal does to the accounts.
use swift.Prelude.{
  ℕ, ◌≡◌, refl, ◌∙◌, Option, none, some, List, [], ◌∷◌, arith, Bool-cases, Option-cases, inl, inr,
  ◌==◌, if◌then◌else◌,
}
use mathlib.Core.Path.{subst}
use swift.Prelude.Int.{ℤ, pos, ◌+ℤ◌, ltb_ℤ, int_laws}
use swift.Prelude.Exec.Keeps.{OnOk}
use swift.Prelude.Exec.Returns.{OnOk-map, OnOk-raise_if, OnOk-or_raise}
use swift.Production.Ledger.{
  AccountType, asset, Account, Item, Books, find_account, find_active, write_account, delta,
  post_to, apply_items,
}
use swift.Production.Ledger.Rows.{sum, column, find-write, column-write}

abbrev pub balance_of : ℕ → List Account → ℤ
balance_of id accounts = column (pos 0) Account.balance (find_account id accounts)

abbrev pub kind_at : ℕ → List Account → AccountType
kind_at id accounts = column asset Account.account_type (find_account id accounts)

-- The currency of an account, if there is the account.
abbrev pub currency_at : ℕ → List Account → Option ℕ
currency_at id accounts = column none (λ a. some a.currency) (find_account id accounts)

-- What an item adds to the balance of the account `id`, where the account is of the kind.
abbrev pub part : ℕ → AccountType → Item → ℤ
part id kind e = if e.account_id == id then delta kind e else pos 0

abbrev pub net : ℕ → AccountType → List Item → ℤ
net id kind items = sum (part id kind) items

pub found_active :
    (id : ℕ) (accounts : List Account) (a : Account)
    → find_active id accounts ≡ some a
    → find_account id accounts ≡ some a
found_active id accounts a h = elim (Option-cases (find_account id accounts)) [
  | inl e ↦ ground arith
  | inr (b, e) ↦ ground arith
]

-- Only the accounts differ, and they have their kinds and currencies.
pub record SameBut (db after : Books) : Type 0 where
  pub reservations : after.reservations ≡ db.reservations
  pub holds : after.holds ≡ db.holds
  pub journals : after.journals ≡ db.journals
  pub entries : after.entries ≡ db.entries
  pub kinds : (j : ℕ) → kind_at j after.accounts ≡ kind_at j db.accounts
  pub currencies : (j : ℕ) → currency_at j after.accounts ≡ currency_at j db.accounts
  pub reserves :
      (j : ℕ)
      → column (pos 0) Account.reserved (find_account j after.accounts)
        ≡ column (pos 0) Account.reserved (find_account j db.accounts)

pub record Applied (items : List Item) (db after : Books) : Type 0 where
  pub balances :
      (j : ℕ)
      → balance_of j after.accounts
        ≡ balance_of j db.accounts +ℤ net j (kind_at j db.accounts) items
  pub others : SameBut db after

module _ (e : Item) (db : Books) (a : Account)
    (found : find_account e.account_id db.accounts ≡ some a) where
  abbrev pub written : Books
  written = (write_account e.account_id (post_to e) db).1

  balance_of-post :
      (j : ℕ)
      → balance_of j written.accounts ≡ balance_of j db.accounts +ℤ part j (kind_at j db.accounts) e
  balance_of-post j = elim (Bool-cases (e.account_id == j)) [
    | inl s ↦
        let same : e.account_id ≡ j = ground arith in
        let here : find_account j db.accounts ≡ some a =
          subst (λ k. find_account k db.accounts ≡ some a) same found in
        rw (find-write (post_to e) (λ b. refl) e.account_id j db.accounts, s, here) refl
    | inr s ↦ rw (find-write (post_to e) (λ b. refl) e.account_id j db.accounts, s) (omega int_laws)
  ]

  pub SameBut-post : SameBut db written
  SameBut-post = record {
    reservations = refl;
    holds = refl;
    journals = refl;
    entries = refl;
    kinds = λ j.
        column-write (post_to e) (λ b. refl) asset Account.account_type e.account_id j db.accounts
          (λ b. refl);
    currencies = λ j.
        column-write (post_to e) (λ b. refl) none (λ b. some b.currency) e.account_id j db.accounts
          (λ b. refl);
    reserves = λ j.
        column-write (post_to e) (λ b. refl) (pos 0) Account.reserved e.account_id j db.accounts
          (λ b. refl);
  }

SameBut-trans : {a b c : Books} → SameBut a b → SameBut b c → SameBut a c
SameBut-trans p q = record {
  reservations = q.reservations ∙ p.reservations;
  holds = q.holds ∙ p.holds;
  journals = q.journals ∙ p.journals;
  entries = q.entries ∙ p.entries;
  kinds = λ j. q.kinds j ∙ p.kinds j;
  currencies = λ j. q.currencies j ∙ p.currencies j;
  reserves = λ j. q.reserves j ∙ p.reserves j;
}

-- The second loop adds to each balance what the items say.
pub apply_items-Applied :
    (items : List Item) (db : Books) → OnOk (Applied items db) (apply_items items db)
unfolding apply_items sum
apply_items-Applied [] db = record {
  balances = λ j. omega int_laws;
  others = record {
    reservations = refl;
    holds = refl;
    journals = refl;
    entries = refl;
    kinds = λ j. refl;
    currencies = λ j. refl;
    reserves = λ j. refl;
  };
}
apply_items-Applied (e ∷ rest) db =
    OnOk-or_raise (Applied (e ∷ rest) db) (find_active e.account_id db.accounts) _ _ db λ a active.
      let found = found_active e.account_id db.accounts a active in
      OnOk-raise_if (Applied (e ∷ rest) db) (ltb_ℤ (a.balance +ℤ delta a.account_type e) (pos 0)) _
        _ db
        λ covered.
          OnOk-map (apply_items rest (written e db a found))
            (λ after h. record {
              balances = λ j.
                  h.balances j
                  ∙ rw (balance_of-post e db a found j, (SameBut-post e db a found).kinds j)
                      (omega int_laws);
              others = SameBut-trans (SameBut-post e db a found) h.others;
            })
            (apply_items-Applied rest (written e db a found))
