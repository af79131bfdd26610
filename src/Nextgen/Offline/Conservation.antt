-- ===== src/Nextgen/Offline/Conservation.antt =====
-- Vouchers and the money of the ledger.
use swift.Prelude.{
  ℕ, ◌≡◌, refl, ◌∙◌, Bool, List, [], ◌∷◌, ◌++◌, Option-cases, inl, inr, if◌then◌else◌, Bool-cases,
}
use swift.Prelude.Int.{ℤ, pos, ◌+ℤ◌, int_laws}
use swift.Prelude.Exec.{Exec, Result, ok, err, modify}
use swift.Prelude.Exec.Keeps.{OnOk, Keeps, Keeps-atomic, Keeps-zoom, keeps_rules}
use swift.Ecny.Store.{
  Db as Ledger, Error as LedgerError, Account, OwnerType, cny, new_id, find_account, insert_account,
}
use swift.Ecny.Store.Accounts.{total, total-append}
use swift.Ecny.Ledger.{get_or_create_account, transfer}
use swift.Ecny.Ledger.Soundness.{IsSound, Untouched-IsSound}
use swift.Ecny.Ledger.Supply.{in_currency, transfer_conserves}
use swift.Ecny.Api.Soundness.{transfer-IsSound, insert_account-IsSound}
use swift.Nextgen.Offline.{
  Vault, Voucher, OfflineError, on_ledger, ledger_raised, wallet_account, escrow_account, issue,
  expire, pay_out, redeem_issued, redeem, invalidate,
}
use swift.Nextgen.Offline.Redemption.{
  Request, issued, redeemed, invalidated, wait, perform, perform_all,
}

-- A sound ledger with `money` in the accounts of the currency.
pub record Sums (money : ℤ) (l : Ledger) : Type 0 where
  pub sound : IsSound l
  pub amounts : total (in_currency cny) l.accounts ≡ money

both :
    {A : Type 0} {money : ℤ} (r : Result LedgerError A) (l before : Ledger)
    → total (in_currency cny) before.accounts ≡ money
    → OnOk IsSound (r, l)
    → OnOk
        (λ d. total (in_currency cny) d.accounts ≡ total (in_currency cny) before.accounts)
        (r, l)
    → OnOk (Sums money) (r, l)
both (ok a) l before t s c = record { sound = s; amounts = c ∙ t }
both (err e) l before t s c = tt

empty_row :
    (keep : Account → Bool) (accounts : List Account) (a : Account)
    → a.balance ≡ pos 0
    → total keep (accounts ++ a ∷ []) ≡ total keep accounts
unfolding total
empty_row keep accounts a z =
    total-append keep accounts (a ∷ []) ∙ nothing (keep a) (total keep accounts) a.balance z
  where
    nothing : (k : Bool) (x b : ℤ) → b ≡ pos 0 → x +ℤ ((if k then b else pos 0) +ℤ pos 0) ≡ x
    nothing k x b zero = elim (Bool-cases k) [
      | inl e ↦ rw (e, zero) (omega int_laws)
      | inr e ↦ rw e (omega int_laws)
    ]

module _ {money : ℤ} where
  pub transfer-Sums : (f t : ℕ) (x : ℤ) → Keeps (Sums money) (transfer f t x)
  transfer-Sums f t x = record {
    at = λ l h.
        both (transfer f t x l).0 (transfer f t x l).1 l h.amounts
          ((transfer-IsSound f t x).at l h.sound) (transfer_conserves f t x cny l);
  }

  insert_account-Sums :
      (id : ℕ) (ot : OwnerType) (ref currency : ℕ)
      → Keeps (Sums money) (insert_account id ot ref currency)
  insert_account-Sums id ot ref currency = record {
    at = λ l h. elim (Option-cases (find_account id l.accounts)) [
      | inr (a, e) ↦ rw e tt
      | inl e ↦
          let s = (insert_account-IsSound id ot ref currency).at l h.sound in
          rw e (record {
            sound = rw e at s;
            amounts = empty_row (in_currency cny) l.accounts _ refl ∙ h.amounts;
          })
    ];
  }

  pub get_or_create_account-Sums :
      (id : ℕ) (ot : OwnerType) (ref currency : ℕ)
      → Keeps (Sums money) (get_or_create_account id ot ref currency)
  unfolding get_or_create_account
  get_or_create_account-Sums id ot ref currency = record {
    at = λ l h. elim (Option-cases (find_account id l.accounts)) [
      | inl e ↦ rw e ((insert_account-Sums id ot ref currency).at l h)
      | inr (a, e) ↦ rw e h
    ];
  }

  pub new_id-Sums : Keeps {E = LedgerError} (Sums money) new_id
  new_id-Sums = record {
    at = λ l h. record {
      sound = Untouched-IsSound (record { accounts = refl; entries = refl }) h.sound;
      amounts = h.amounts;
    };
  }

-- What a vault holds.
pub record Keeping (money : ℤ) (vault : Vault) : Type 0 where
  pub sums : Sums money vault.ledger

module _ {money : ℤ} where
  on_ledger-Keeping :
      {A : Type 0} (m : Exec Ledger LedgerError A)
      → Keeps (Sums money) m
      → Keeps (Keeping money) (on_ledger m)
  on_ledger-Keeping m k =
      Keeps-zoom (Keeping money) (Sums money) Vault.ledger (λ l vault. record vault { ledger = l })
        ledger_raised m k (λ s h. h.sums) (λ s t h q. record { sums = q })

  modify-Keeping :
      (f : Vault → Vault)
      → ((vault : Vault) → (f vault).ledger ≡ vault.ledger)
      → Keeps {E = OfflineError} (Keeping money) (modify f)
  modify-Keeping f e = record { at = λ vault h. record { sums = rw (e vault) h.sums } }

  wallet_account-Keeping : (w : ℕ) → Keeps (Keeping money) (wallet_account w)
  unfolding wallet_account
  wallet_account-Keeping w = search keeps_rules depth 10

  escrow_account-Keeping : (id : ℕ) → Keeps (Keeping money) (escrow_account id)
  unfolding escrow_account
  escrow_account-Keeping id = search keeps_rules depth 10

  ruleset keeping_rules = (
    keeps_rules, on_ledger-Keeping, modify-Keeping, wallet_account-Keeping, escrow_account-Keeping,
    transfer-Sums, get_or_create_account-Sums, new_id-Sums,
  )

  issue-Keeping : (w d : ℕ) (x : ℤ) (ttl : ℕ) → Keeps (Keeping money) (issue w d x ttl)
  unfolding issue
  issue-Keeping w d x ttl = search keeping_rules depth 50

  expire-Keeping : (u : Voucher) → Keeps (Keeping money) (expire u)
  unfolding expire
  expire-Keeping u = search keeping_rules depth 20

  pay_out-Keeping : (u : Voucher) (m : ℕ) → Keeps (Keeping money) (pay_out u m)
  unfolding pay_out
  pay_out-Keeping u m = search keeping_rules depth 50

  redeem_issued-Keeping : (u : Voucher) (n m : ℕ) → Keeps (Keeping money) (redeem_issued u n m)
  unfolding redeem_issued
  redeem_issued-Keeping u n m = search (keeps_rules, expire-Keeping, pay_out-Keeping) depth 40

  redeem-Keeping : (id n m : ℕ) → Keeps (Keeping money) (redeem id n m)
  unfolding redeem
  redeem-Keeping id n m = search (keeps_rules, redeem_issued-Keeping) depth 30

  invalidate-Keeping : (id : ℕ) → Keeps (Keeping money) (invalidate id)
  unfolding invalidate
  invalidate-Keeping id = search keeping_rules depth 30

perform-Keeping :
    (money : ℤ) (r : Request) (vault : Vault)
    → Keeping money vault
    → Keeping money (perform r vault)
perform-Keeping money (issued w d x ttl) vault h = Keeps-atomic _ (issue-Keeping w d x ttl) vault h
perform-Keeping money (redeemed id n m) vault h = Keeps-atomic _ (redeem-Keeping id n m) vault h
perform-Keeping money (invalidated id) vault h = Keeps-atomic _ (invalidate-Keeping id) vault h
perform-Keeping money (wait t) vault h = record {
  sums = record {
    sound = Untouched-IsSound (record { accounts = refl; entries = refl }) h.sums.sound;
    amounts = h.sums.amounts;
  };
}

-- Where the ledger is sound, it stays so under any requests to issue, to redeem and to invalidate
-- vouchers and any passing of time, in any order, whether they return or raise; and the accounts
-- in the currency of the vouchers hold the same money together.
pub vouchers_conserve :
    (rs : List Request) (money : ℤ) (vault : Vault)
    → Keeping money vault
    → Keeping money (perform_all rs vault)
vouchers_conserve [] money vault h = h
vouchers_conserve (r ∷ rs) money vault h =
    vouchers_conserve rs money (perform r vault) (perform-Keeping money r vault h)
