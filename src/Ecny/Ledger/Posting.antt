-- ===== src/Ecny/Ledger/Posting.antt =====
-- What the operations of the ledger write: the balances they move and the entries they post.
use swift.Prelude.{
  ℕ, ◌≡◌, ◌≢◌, refl, true, Option, none, some, List, [], ◌∷◌, ◌++◌, arith, Bool-cases, Option-cases,
  inl, inr, ◌==◌, ◌||◌, if◌then◌else◌,
}
use swift.Prelude.Int.{ℤ, pos, ◌+ℤ◌, ◌-ℤ◌, ◌≤ℤ◌, leb_ℤ, ltb_ℤ, int_laws}
use swift.Prelude.Exec.{Result, ok, err}
use swift.Prelude.Exec.Keeps.{OnOk}
use swift.Ecny.Store.{Db, Account, Entry, Direction, debit, credit, Error, find_account}
use swift.Ecny.Store.Accounts.{adjust, known, balance_of, find_account-eq_some}
use swift.Ecny.Ledger.{add_entry, begin_tx, settle, apply_transfer, transfer, exchange}

abbrev pub signed : Direction → ℤ → ℤ
signed debit amount = pos 0 -ℤ amount
signed credit amount = amount

-- The credits less the debits that the entries post to an account.
unfoldable pub posted : ℕ → List Entry → ℤ
posted id [] = pos 0
posted id (e ∷ rest) =
    (if e.account_id == id then signed e.direction e.amount else pos 0) +ℤ posted id rest

pub posted-append :
    (id : ℕ) (xs ys : List Entry) → posted id (xs ++ ys) ≡ posted id xs +ℤ posted id ys
unfolding posted
posted-append id [] ys = omega int_laws
posted-append id (e ∷ xs) ys = rw (posted-append id xs ys) (omega int_laws)

-- The part of a movement on `account` that the account `id` sees.
abbrev pub flow : ℕ → ℕ → ℤ → ℤ
flow id account amount = if account == id then amount else pos 0

-- An operation that raises has moved no balance and posted no entry.
pub record Untouched (db db' : Db) : Type 0 where
  pub accounts : db'.accounts ≡ db.accounts
  pub entries : db'.entries ≡ db.entries

-- A debit of one account and a credit of another, on balances and entries alike.
pub record Moved (source target : ℕ) (out in_ : ℤ) (db db' : Db) : Type 0 where
  pub positive : (pos 1 ≤ℤ out) × (pos 1 ≤ℤ in_)
  pub covered : out ≤ℤ balance_of source db.accounts
  pub source_known : known source db.accounts ≡ true
  pub target_known : known target db.accounts ≡ true
  pub accounts :
      db'.accounts ≡ adjust target (λ b. b +ℤ in_) (adjust source (λ b. b -ℤ out) db.accounts)
  pub entries :
      (id : ℕ)
      → posted id db'.entries
        ≡ posted id db.entries +ℤ (flow id source (pos 0 -ℤ out) +ℤ flow id target in_)

abbrev pub Outcome : {A : Type 0} → (Db → Type 0) → Db → Result Error A × Db → Type 0
Outcome P db (ok _, db') = P db'
Outcome P db (err _, db') = Untouched db db'

pub Outcome-OnOk :
    {A : Type 0} (P Q : Db → Type 0) (db : Db) (r : Result Error A) (db' : Db)
    → ((d : Db) → P d → Q d)
    → Outcome P db (r, db')
    → OnOk Q (r, db')
Outcome-OnOk P Q db (ok a) db' f o = f db' o
Outcome-OnOk P Q db (err e) db' f o = tt

-- The part of an entry that the account `id` sees.
abbrev pub own : ℕ → Entry → ℤ
own id e = flow id e.account_id (signed e.direction e.amount)

pub posted-append_two :
    (id : ℕ) (es : List Entry) (e e' : Entry)
    → posted id ((es ++ e ∷ []) ++ e' ∷ []) ≡ posted id es +ℤ (own id e +ℤ own id e')
unfolding posted
posted-append_two id es e e' =
    rw (posted-append id (es ++ e ∷ []) (e' ∷ []), posted-append id es (e ∷ [])) (omega int_laws)

abbrev pub currency_in : Option Account → Option ℕ
currency_in none = none
currency_in (some a) = some a.currency

-- A plain transfer moves one amount, between two accounts of one currency.
pub record Transferred (source target : ℕ) (amount : ℤ) (db db' : Db) : Type 0 where
  pub moved : Moved source target amount amount db db'
  pub distinct : source ≢ target
  pub same_currency :
      currency_in (find_account source db.accounts) ≡ currency_in (find_account target db.accounts)

module _ (f t : ℕ) (x : ℤ) (db : Db) (a b : Account) (ea : find_account f db.accounts ≡ some a)
    (eb : find_account t db.accounts ≡ some b) where
  transfer_found : Outcome (Transferred f t x db) db (transfer f t x db)
  unfolding transfer apply_transfer begin_tx settle add_entry
  transfer_found =
      let ia = find_account-eq_some f db.accounts a ea in
      let ib = find_account-eq_some t db.accounts b eb in
      elim (Bool-cases (leb_ℤ x (pos 0))) [
        | inl h ↦ rw (ea, eb, h) (record { accounts = refl; entries = refl })
        | inr h ↦ elim (Bool-cases (a.account_id == b.account_id)) [
          | inl h₁ ↦ rw (ea, eb, h, h₁) (record { accounts = refl; entries = refl })
          | inr h₁ ↦ elim (Bool-cases (a.currency == b.currency)) [
            | inr h₂ ↦ rw (ea, eb, h, h₁, h₂) (record { accounts = refl; entries = refl })
            | inl h₂ ↦ elim (Bool-cases (ltb_ℤ a.balance x)) [
              | inl h₃ ↦ rw (ea, eb, h, h₁, h₂, h₃) (record { accounts = refl; entries = refl })
              | inr h₃ ↦
                  rw (ea, eb, h, h₁, h₂, h₃)
                    (record {
                      moved = record {
                        positive = (ground arith, ground arith);
                        covered = rw ea (ground arith);
                        source_known = rw ea refl;
                        target_known = rw eb refl;
                        accounts = rw (ia, ib) refl;
                        entries = λ id. rw (posted-append_two, ia, ib);
                      };
                      distinct = ground (arith, ia, ib);
                      same_currency = rw (ea, eb) (ground arith);
                    })
            ]
          ]
        ]
      ]

-- A transfer that succeeds moves a positive amount that the source covers from the one account to
-- the other, which are two accounts of one currency, on balances and entries alike; one that
-- raises leaves the accounts and the entries as they were.
pub transfer-Outcome :
    (f t : ℕ) (x : ℤ) (db : Db) → Outcome (Transferred f t x db) db (transfer f t x db)
unfolding transfer
transfer-Outcome f t x db = elim (Option-cases (find_account f db.accounts)) [
  | inl e ↦ rw e (record { accounts = refl; entries = refl })
  | inr (a, e) ↦ elim (Option-cases (find_account t db.accounts)) [
    | inl e' ↦ rw (e, e') (record { accounts = refl; entries = refl })
    | inr (b, e') ↦ transfer_found f t x db a b e e'
  ]
]

module _ (f t : ℕ) (x y : ℤ) (db : Db) (a b : Account) (ea : find_account f db.accounts ≡ some a)
    (eb : find_account t db.accounts ≡ some b) where
  exchange_found : Outcome (Moved f t x y db) db (exchange f t x y db)
  unfolding exchange begin_tx settle add_entry
  exchange_found = elim (Bool-cases (leb_ℤ x (pos 0) || leb_ℤ y (pos 0))) [
    | inl h ↦ ground arith
    | inr h ↦ elim (Bool-cases (ltb_ℤ a.balance x)) [
      | inl h₁ ↦ ground arith
      | inr h₁ ↦
          rw (h, ea, eb, h₁)
            (record {
              positive = (ground arith, ground arith);
              covered = rw ea (ground arith);
              source_known = rw ea refl;
              target_known = rw eb refl;
              accounts = refl;
              entries = λ id. rw posted-append_two;
            })
    ]
  ]

-- An exchange that succeeds takes the one positive amount, which the source covers, from the
-- source, and gives the other, positive too, to the target, on balances and entries alike; one
-- that raises leaves the accounts and the entries as they were.
pub exchange-Outcome :
    (f t : ℕ) (x y : ℤ) (db : Db) → Outcome (Moved f t x y db) db (exchange f t x y db)
unfolding exchange
exchange-Outcome f t x y db = elim (Option-cases (find_account f db.accounts)) [
  | inl e ↦ ground arith
  | inr (a, e) ↦ elim (Option-cases (find_account t db.accounts)) [
    | inl e' ↦ ground arith
    | inr (b, e') ↦ exchange_found f t x y db a b e e'
  ]
]
