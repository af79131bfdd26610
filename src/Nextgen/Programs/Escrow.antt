-- ===== src/Nextgen/Programs/Escrow.antt =====
-- One instrument's escrow account in the ledger.
use swift.Prelude.{
  ℕ, ◌≤◌, ◌≡◌, refl, sym, ap, ◌∙◌, Bool, true, false, ◌&&◌, some, List, [], ◌∷◌, ◌++◌, arith, All,
  All-append, select, Bool-cases, Option-cases, inl, inr, ◌==◌, if◌then◌else◌,
}
use Prim.{absurd}
use std.Path.{subst}
use mathlib.Core.Option.{some-injective, none-ne-some}
use swift.Prelude.Int.{ℤ, pos, ◌-ℤ◌, int_laws}
use swift.Prelude.Sorting.{All-select}
use swift.Prelude.Exec.{modify}
use swift.Prelude.Exec.Keeps.{OnOk, Keeps, keeps_rules}
use swift.Prelude.Exec.Returns.{OnOk-map, OnOk-both, Yields}
use swift.Ecny.Store.{
  Db as Ledger, Error, Account, Entry, Transaction, OwnerType, cny, new_id, find_account,
}
use swift.Ecny.Store.Accounts.{adjust, balance_in, balance_of, find_account-eq_some}
use swift.Ecny.Ledger.{get_or_create_account, add_entry, begin_tx, settle, apply_transfer, transfer}
use swift.Ecny.Ledger.Posting.{Transferred, Outcome-OnOk, transfer-Outcome}
use swift.Ecny.Ledger.Soundness.{balance_of-move}
use swift.Nextgen.Offline.{only}
use swift.Nextgen.Programs.{is_program_escrow}

pub only-All :
    {A : Type 0} (P : A → Type 0) (q : A → Bool) (xs : List A) (a : A)
    → All P xs
    → only (select q xs) ≡ some a
    → (q a ≡ true) × P a
only-All {A = A} P q xs a h e = single (select q xs) (All-select P q xs h) e
  where
    single :
        (ys : List A) → All (λ y. (q y ≡ true) × P y) ys → only ys ≡ some a → (q a ≡ true) × P a
    single [] k e = absurd (none-ne-some a e)
    single (y ∷ []) k e = subst (λ z. (q z ≡ true) × P z) (some-injective y a e) k.0
    single (y ∷ z ∷ rest) k e = absurd (none-ne-some a e)

find_account-append_other :
    (id : ℕ) (accounts : List Account) (a : Account)
    → (a.account_id == id) ≡ false
    → find_account id (accounts ++ a ∷ []) ≡ find_account id accounts
find_account-append_other id [] a h = rw h refl
find_account-append_other id (x ∷ rest) a h = ground (arith, find_account-append_other id rest a h)

module _ (id escrow : ℕ) where
  -- The escrow rows of the instrument are those with this account identifier.
  abbrev pub IsRow : Account → Type 0
  IsRow a = (is_program_escrow a.owner_type && a.owner_ref == id) ≡ (a.account_id == escrow)

  -- And no identifier that is still to be drawn is one of the two.
  abbrev pub Framed : Ledger → Type 0
  Framed l =
      All IsRow l.accounts
      × ((n : ℕ) → l.drawn ≤ n → ((l.uuids n == escrow) ≡ false) × ((l.uuids n == id) ≡ false))

  adjust-IsRow :
      (j : ℕ) (f : ℤ → ℤ) (accounts : List Account)
      → All IsRow accounts
      → All IsRow (adjust j f accounts)
  unfolding adjust
  adjust-IsRow j f [] h = tt
  adjust-IsRow j f (a ∷ rest) h = elim (Bool-cases (a.account_id == j)) [
    | inl e ↦ rw e (h.0, h.1)
    | inr e ↦ rw e (h.0, adjust-IsRow j f rest h.1)
  ]

  adjusted-Framed :
      (j : ℕ) (f : ℤ → ℤ)
      → Keeps {E = Error} Framed (modify (λ l. record l { accounts = adjust j f l.accounts }))
  adjusted-Framed j f = record { at = λ l h. (adjust-IsRow j f l.accounts h.0, h.1) }

  entries-Framed :
      (es : Ledger → List Entry)
      → Keeps {E = Error} Framed (modify (λ l. record l { entries = es l }))
  entries-Framed es = record { at = λ l h. h }

  transactions-Framed :
      (ts : Ledger → List Transaction)
      → Keeps {E = Error} Framed (modify (λ l. record l { transactions = ts l }))
  transactions-Framed ts = record { at = λ l h. h }

  new_id-Framed : Keeps Framed new_id
  new_id-Framed = record { at = λ l h. (h.0, λ n k. h.1 n (omega (arith, k))) }

  transfer-Framed : (f t : ℕ) (x : ℤ) → Keeps Framed (transfer f t x)
  unfolding transfer apply_transfer begin_tx settle add_entry
  transfer-Framed f t x =
      search (keeps_rules, adjusted-Framed, entries-Framed, transactions-Framed, new_id-Framed)
        depth 60

  -- The escrow account has `b`.
  pub record Owned (b : ℤ) (l : Ledger) : Type 0 where
    pub framed : Framed l
    pub balance : balance_of escrow l.accounts ≡ b

  pub transfer-Owned :
      (f t : ℕ) (x b : ℤ) (l : Ledger)
      → (t == escrow) ≡ false
      → Owned b l
      → OnOk (Owned (b -ℤ (if f == escrow then x else pos 0))) (transfer f t x l)
  transfer-Owned f t x b l other h =
      let Sent : Ledger → Type 0 = Transferred f t x l in
      OnOk-map (transfer f t x l) (λ l' p. record { framed = p.0; balance = after l' p.1 })
        (OnOk-both Framed Sent (transfer f t x l) ((transfer-Framed f t x).at l h.framed) (
          Outcome-OnOk Sent Sent l (transfer f t x l).0 (transfer f t x l).1 (λ d s. s)
            (transfer-Outcome f t x l)))
    where
      after :
          (l' : Ledger)
          → Transferred f t x l l'
          → balance_of escrow l'.accounts ≡ b -ℤ (if f == escrow then x else pos 0)
      after l' s = elim (Bool-cases (f == escrow)) [
        | inl e ↦ rw (balance_of-move f t x x s.moved escrow, h.balance, other, e) (omega int_laws)
        | inr e ↦ rw (balance_of-move f t x x s.moved escrow, h.balance, other, e) (omega int_laws)
      ]

  -- The escrow account of another instrument is another account.
  pub get_or_create_account-Owned :
      (k ref : ℕ) (b : ℤ) (l : Ledger)
      → (k == escrow) ≡ false
      → (ref == id) ≡ false
      → Owned b l
      → Yields
          (λ a l'. ((a.account_id == escrow) ≡ false) × Owned b l')
          (get_or_create_account k OwnerType.program_escrow ref cny l)
  unfolding get_or_create_account
  get_or_create_account-Owned k ref b l other fresh h =
      elim (Option-cases (find_account k l.accounts)) [
        | inr (a, e) ↦ rw e (rw (find_account-eq_some k l.accounts a e) other, h)
        | inl e ↦
            rw (e, e)
              (
                other,
                record {
                  framed = (
                    All-append IsRow l.accounts _ h.framed.0 (fresh ∙ sym other, tt),
                    h.framed.1,
                  );
                  balance =
                      ap balance_in (find_account-append_other escrow l.accounts _ other)
                      ∙ h.balance;
                },
              )
      ]
