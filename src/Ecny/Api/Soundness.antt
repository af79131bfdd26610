-- ===== src/Ecny/Api/Soundness.antt =====
-- Requests to the endpoints of Ecny/Api, and the soundness of the ledger.
use swift.Prelude.{ℕ, ◌≡◌, refl, Bool, Option, none, some, List, [], ◌∷◌}
use swift.Prelude.Int.{ℤ, pos}
use swift.Prelude.Exec.{Result, ok, err, atomic, commit, modify}
use swift.Prelude.Exec.Keeps.{OnOk, Keeps, Keeps-atomic, Keeps-modify, keeps_rules}
use swift.Ecny.Store.{
  Db, Error, Wallet, Account, OwnerType, ReportType, new_id, insert_account, add_unique,
  find_account,
}
use swift.Ecny.Ledger.{mint, burn, transfer}
use swift.Ecny.Ledger.Posting.{Outcome, Outcome-OnOk, Transferred, transfer-Outcome}
use swift.Ecny.Ledger.Issuing.{Issued, Redeemed, mint-Outcome, burn-Outcome}
use swift.Ecny.Ledger.Soundness.{
  IsSound, Moved-IsSound, Issued-IsSound, Redeemed-IsSound, Untouched-IsSound, append-IsSound,
}
use swift.Ecny.Wallet.{
  check_limits, ledger_account_id_for, wallet_balance, HolderInfo, open_wallet, resolve_operator,
  operator_row, add_holder, add_wallet,
}
use swift.Ecny.Compliance.{check_transaction, add_report}
use swift.Ecny.Issuance.{
  issue_to_operator, redeem_from_operator, exchange_to_wallet, redeem_from_wallet,
}
use swift.Ecny.Api.{
  Action, issue_to_wallet, redeem_from, unknown, issuance_endpoint, transfer_endpoint,
  open_wallet_endpoint, Request, serve, serve_all,
}

OnOk-atomic :
    {A : Type 0} (P Q : Db → Type 0) (db : Db) (r : Result Error A) (db' : Db)
    → ((d : Db) → P d → Q d)
    → Outcome P db (commit db r db')
    → OnOk Q (r, db')
OnOk-atomic P Q db (ok a) db' f o = f db' o
OnOk-atomic P Q db (err e) db' f o = tt

pub transfer-IsSound : (f t : ℕ) (x : ℤ) → Keeps IsSound (transfer f t x)
transfer-IsSound f t x = record {
  at = λ db s.
      Outcome-OnOk (Transferred f t x db) IsSound db (transfer f t x db).0 (transfer f t x db).1
        (λ d m. Moved-IsSound f t x x m.moved s) (transfer-Outcome f t x db);
}

pub mint-IsSound : (id : ℕ) (x : ℤ) → Keeps IsSound (mint id x)
mint-IsSound id x = record {
  at = λ db s.
      OnOk-atomic (Issued id x db) IsSound db (mint id x db).0 (mint id x db).1
        (λ d m. Issued-IsSound id x m s) (mint-Outcome id x db s.unique);
}

pub burn-IsSound : (id : ℕ) (x : ℤ) → Keeps IsSound (burn id x)
burn-IsSound id x = record {
  at = λ db s.
      OnOk-atomic (Redeemed id x db) IsSound db (burn id x db).0 (burn id x db).1
        (λ d m. Redeemed-IsSound id x m s) (burn-Outcome id x db s.unique);
}

ledger_account_id_for-IsSound : (w : ℕ) → Keeps IsSound (ledger_account_id_for w)
unfolding ledger_account_id_for
ledger_account_id_for-IsSound w = search keeps_rules

wallet_balance-IsSound : (w : ℕ) → Keeps IsSound (wallet_balance w)
unfolding wallet_balance
wallet_balance-IsSound w = search (keeps_rules, ledger_account_id_for-IsSound)

check_limits-IsSound :
    (w : Wallet) (x : ℤ) (incoming : Bool) → Keeps IsSound (check_limits w x incoming)
unfolding check_limits
check_limits-IsSound w x incoming =
    search (keeps_rules, ledger_account_id_for-IsSound, wallet_balance-IsSound) depth 24

issue_to_operator-IsSound : (id : ℕ) (x : ℤ) → Keeps IsSound (issue_to_operator id x)
unfolding issue_to_operator
issue_to_operator-IsSound id x = search (keeps_rules, mint-IsSound) depth 12

redeem_from_operator-IsSound : (id : ℕ) (x : ℤ) → Keeps IsSound (redeem_from_operator id x)
unfolding redeem_from_operator
redeem_from_operator-IsSound id x = search (keeps_rules, burn-IsSound) depth 12

ruleset wallet_rules = (
  keeps_rules, ledger_account_id_for-IsSound, wallet_balance-IsSound, check_limits-IsSound,
  transfer-IsSound,
)

exchange_to_wallet-IsSound : (id w : ℕ) (x : ℤ) → Keeps IsSound (exchange_to_wallet id w x)
unfolding exchange_to_wallet
exchange_to_wallet-IsSound id w x = search wallet_rules depth 16

redeem_from_wallet-IsSound : (w id : ℕ) (x : ℤ) → Keeps IsSound (redeem_from_wallet w id x)
unfolding redeem_from_wallet
redeem_from_wallet-IsSound w id x = search wallet_rules depth 20

add_unique-IsSound :
    (db : Db) (o : Option Account) (a : Account)
    → a.balance ≡ pos 0
    → find_account a.account_id db.accounts ≡ o
    → IsSound db
    → OnOk IsSound (add_unique o a db)
add_unique-IsSound db none a z e s = append-IsSound db a z e s
add_unique-IsSound db (some b) a z e s = tt

pub insert_account-IsSound :
    (id : ℕ) (ot : OwnerType) (ref currency : ℕ) → Keeps IsSound (insert_account id ot ref currency)
insert_account-IsSound id ot ref currency = record {
  at = λ db s. add_unique-IsSound db (find_account id db.accounts) _ refl refl s;
}

-- A write to the other tables.
pub modify-IsSound :
    (f : Db → Db)
    → ((db : Db) → (f db).accounts ≡ db.accounts)
    → ((db : Db) → (f db).entries ≡ db.entries)
    → Keeps {E = Error} IsSound (modify f)
modify-IsSound f a e =
    Keeps-modify f (λ db s. Untouched-IsSound (record { accounts = a db; entries = e db }) s)

pub new_id-IsSound : Keeps IsSound new_id
new_id-IsSound = record {
  at = λ db s. Untouched-IsSound (record { accounts = refl; entries = refl }) s;
}

add_report-IsSound :
    (t : ReportType) (x : ℤ) (threshold : Option ℤ) (w : ℕ)
    → Keeps IsSound (add_report t x threshold w)
unfolding add_report
add_report-IsSound t x threshold w = record {
  at = λ db s. Untouched-IsSound (record { accounts = refl; entries = refl }) s;
}

check_transaction-IsSound :
    (w : Wallet) (x : ℤ) (c : Bool) → Keeps IsSound (check_transaction w x c)
unfolding check_transaction
check_transaction-IsSound w x c = search (keeps_rules, add_report-IsSound) depth 24

operator_row-IsSound : (o : Option Account) → Keeps IsSound (operator_row o)
operator_row-IsSound none = search keeps_rules
operator_row-IsSound (some a) = search keeps_rules

resolve_operator-IsSound : (n : ℕ) (o : Option ℕ) → Keeps IsSound (resolve_operator n o)
unfolding resolve_operator
resolve_operator-IsSound n none = search keeps_rules
resolve_operator-IsSound n (some id) = search (keeps_rules, operator_row-IsSound)

add_holder-IsSound : (n : ℕ) (h : Option HolderInfo) → Keeps IsSound (add_holder n h)
unfolding add_holder
add_holder-IsSound n none = search keeps_rules
add_holder-IsSound n (some h) = record {
  at = λ db s. Untouched-IsSound (record { accounts = refl; entries = refl }) s;
}

add_wallet-IsSound : (tier : ℕ) (h : Option ℕ) (n : ℕ) → Keeps IsSound (add_wallet tier h n)
unfolding add_wallet
add_wallet-IsSound tier h n =
    search (keeps_rules, new_id-IsSound, modify-IsSound, insert_account-IsSound) depth 20

open_wallet-IsSound :
    (n tier : ℕ) (h : Option HolderInfo) (o : Option ℕ) → Keeps IsSound (open_wallet n tier h o)
unfolding open_wallet
open_wallet-IsSound n tier h o =
    search (keeps_rules, resolve_operator-IsSound, add_holder-IsSound, add_wallet-IsSound) depth 20

transfer_endpoint-IsSound : (v w : ℕ) (x : ℤ) → Keeps IsSound (transfer_endpoint v w x)
unfolding transfer_endpoint
transfer_endpoint-IsSound v w x = search (wallet_rules, check_transaction-IsSound) depth 30

issuance_endpoint-IsSound : (a : Action) (id : ℕ) (x : ℤ) → Keeps IsSound (issuance_endpoint a id x)
unfolding issuance_endpoint
issuance_endpoint-IsSound Action.mint id x = search (keeps_rules, issue_to_operator-IsSound)
issuance_endpoint-IsSound Action.burn id x = search (keeps_rules, redeem_from_operator-IsSound)
issuance_endpoint-IsSound (issue_to_wallet none) id x = search keeps_rules
issuance_endpoint-IsSound (issue_to_wallet (some w)) id x =
    search (keeps_rules, exchange_to_wallet-IsSound)
issuance_endpoint-IsSound (redeem_from none) id x = search keeps_rules
issuance_endpoint-IsSound (redeem_from (some w)) id x =
    search (keeps_rules, redeem_from_wallet-IsSound)
issuance_endpoint-IsSound unknown id x = search keeps_rules

open_wallet_endpoint-IsSound :
    (tier : ℕ) (h : Option HolderInfo) (o : Option ℕ)
    → Keeps IsSound (open_wallet_endpoint tier h o)
unfolding open_wallet_endpoint
open_wallet_endpoint-IsSound tier h o = search (keeps_rules, open_wallet-IsSound)

serve-IsSound : (r : Request) → Keeps IsSound (serve r)
unfolding serve
serve-IsSound (Request.wallets tier h o) = open_wallet_endpoint-IsSound tier h o
serve-IsSound (Request.transfers v w x) = transfer_endpoint-IsSound v w x
serve-IsSound (Request.issuance a id x) = issuance_endpoint-IsSound a id x

-- From a sound ledger (no account twice, no negative balance, every balance but an issuance
-- account's equal to the sum of its entries), whatever requests to open wallets, to transfer and
-- to issue or redeem come in whatever order, and whether each returns or raises, the ledger stays
-- sound.
pub serve_all-IsSound :
    (requests : List (ℕ × Request)) (db : Db) → IsSound db → IsSound (serve_all requests db)
unfolding serve_all
serve_all-IsSound [] db s = s
serve_all-IsSound ((now, r) ∷ rest) db s =
    serve_all-IsSound rest (atomic (serve r) (record db { now = now })).1 (
      Keeps-atomic (serve r) (serve-IsSound r) (record db { now = now })
        (Untouched-IsSound (record { accounts = refl; entries = refl }) s))
