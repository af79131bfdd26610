-- ===== src/Nextgen/Retail/Control.antt =====
-- The operators' limits and the ledger under the retail services.
use swift.Prelude.{ℕ, Option, List, [], ◌∷◌}
use swift.Prelude.Int.{ℤ}
use swift.Prelude.Exec.{Exec, atomic}
use swift.Prelude.Exec.Keeps.{Keeps, Keeps-atomic, Keeps-zoom, keeps_rules}
use swift.Ecny.Store.{Db as Ledger, Error as LedgerError, Wallet}
use swift.Ecny.Ledger.Soundness.{IsSound}
use swift.Ecny.Api.Soundness.{
  transfer-IsSound, insert_account-IsSound, new_id-IsSound, modify-IsSound,
}
use swift.Nextgen.Operators.{OperatorSession}
use swift.Nextgen.Operators.Limits.{Controlled, issue-Controlled}
use swift.Nextgen.Retail.{
  Retail, RetailEvent, RetailError, operator_raised, ledger_raised, on_books, on_ledger, ledger_of,
  with_ledger, enqueue, wallet_account, operator_account, wallet, check_amount, add_rows,
  create_wallet, merchant_payment, p2p_transfer, hand_over, issue_to, fps_top_up,
}

pub record IsControlled (retail : Retail) : Type 0 where
  pub controlled : Controlled retail.books

on_books-IsControlled :
    {A : Type 0} (m : OperatorSession A) → Keeps Controlled m → Keeps IsControlled (on_books m)
on_books-IsControlled m k =
    Keeps-zoom IsControlled Controlled Retail.books (λ b retail. record retail { books = b })
      operator_raised m k (λ s h. h.controlled) (λ s t h q. record { controlled = q })

on_ledger-IsControlled :
    {A : Type 0} (m : Exec Ledger LedgerError A)
    → Keeps IsSound m
    → Keeps IsControlled (on_ledger m)
on_ledger-IsControlled m k =
    Keeps-zoom IsControlled IsSound ledger_of with_ledger ledger_raised m k
      (λ s h. h.controlled.sound)
      (λ s t h q. record { controlled = record { sound = q; within = h.controlled.within } })

enqueue-IsControlled : (e : RetailEvent) → Keeps {E = RetailError} IsControlled (enqueue e)
enqueue-IsControlled e = record { at = λ retail h. record { controlled = h.controlled } }

wallet_account-IsControlled : (w : ℕ) → Keeps IsControlled (wallet_account w)
unfolding wallet_account
wallet_account-IsControlled w = search keeps_rules depth 10

operator_account-IsControlled : (o : ℕ) → Keeps IsControlled (operator_account o)
unfolding operator_account
operator_account-IsControlled o = search keeps_rules depth 10

wallet-IsControlled : (w : ℕ) → Keeps IsControlled (wallet w)
unfolding wallet
wallet-IsControlled w = search keeps_rules depth 20

check_amount-IsControlled : (row : Wallet) (x : ℤ) → Keeps IsControlled (check_amount row x)
unfolding check_amount
check_amount-IsControlled row x = search keeps_rules depth 20

add_rows-IsSound :
    (o tier : ℕ) (phone : Option ℕ) (country : ℕ) → Keeps IsSound (add_rows o tier phone country)
unfolding add_rows
add_rows-IsSound o tier phone country =
    search (keeps_rules, new_id-IsSound, modify-IsSound, insert_account-IsSound) depth 30

ruleset control_rules = (
  keeps_rules, on_books-IsControlled, on_ledger-IsControlled, enqueue-IsControlled,
  wallet_account-IsControlled, operator_account-IsControlled, wallet-IsControlled,
  check_amount-IsControlled, transfer-IsSound, add_rows-IsSound, issue-Controlled,
)

create_wallet-IsControlled :
    (o tier : ℕ) (phone : Option ℕ) (country : ℕ)
    → Keeps IsControlled (create_wallet o tier phone country)
unfolding create_wallet
create_wallet-IsControlled o tier phone country = search control_rules depth 40

merchant_payment-IsControlled :
    (w m : ℕ) (x : ℤ) (category : Option ℕ) → Keeps IsControlled (merchant_payment w m x category)
unfolding merchant_payment
merchant_payment-IsControlled w m x category = search control_rules depth 60

hand_over-IsControlled : (o w : ℕ) (x : ℤ) → Keeps IsControlled (hand_over o w x)
unfolding hand_over
hand_over-IsControlled o w x = search control_rules depth 60

pub data Request : Type 0 where
  created : ℕ → ℕ → Option ℕ → ℕ → Request
  topped_up : ℕ → ℕ → ℤ → Request
  paid : ℕ → ℕ → ℤ → Option ℕ → Request
  sent : Request

module _ (account_of : ℕ → ℕ) where
  pub issue_to-IsControlled : (o w : ℕ) (x : ℤ) → Keeps IsControlled (issue_to account_of o w x)
  unfolding issue_to
  issue_to-IsControlled o w x =
      search (keeps_rules, on_books-IsControlled, issue-Controlled, hand_over-IsControlled) depth 40

  pub fps_top_up-IsControlled : (o w : ℕ) (x : ℤ) → Keeps IsControlled (fps_top_up account_of o w x)
  unfolding fps_top_up
  fps_top_up-IsControlled o w x =
      search
        (
          keeps_rules, wallet_account-IsControlled, wallet-IsControlled, check_amount-IsControlled,
          issue_to-IsControlled,
        )
        depth 60

  abbrev pub perform : Request → Retail → Retail
  perform (created o tier phone country) retail =
      (atomic (create_wallet o tier phone country) retail).1
  perform (topped_up o w x) retail = (atomic (fps_top_up account_of o w x) retail).1
  perform (paid w m x category) retail = (atomic (merchant_payment w m x category) retail).1
  perform sent retail = (atomic p2p_transfer retail).1

  abbrev pub perform_all : List Request → Retail → Retail
  perform_all [] retail = retail
  perform_all (r ∷ rs) retail = perform_all rs (perform r retail)

  perform-IsControlled :
      (r : Request) (retail : Retail) → IsControlled retail → IsControlled (perform r retail)
  perform-IsControlled (created o tier phone country) retail h =
      Keeps-atomic _ (create_wallet-IsControlled o tier phone country) retail h
  perform-IsControlled (topped_up o w x) retail h =
      Keeps-atomic _ (fps_top_up-IsControlled o w x) retail h
  perform-IsControlled (paid w m x category) retail h =
      Keeps-atomic _ (merchant_payment-IsControlled w m x category) retail h
  perform-IsControlled sent retail h = h

  -- Where the ledger is sound and no operator has issued less than nothing or more than its limit,
  -- this stays so under any requests to create and to top up retail wallets, to pay merchants and
  -- to send between persons, in any order, whether they return or raise, and whatever the names of
  -- the operators' accounts are.
  pub perform_all-IsControlled :
      (rs : List Request) (retail : Retail)
      → IsControlled retail
      → IsControlled (perform_all rs retail)
  perform_all-IsControlled [] retail h = h
  perform_all-IsControlled (r ∷ rs) retail h =
      perform_all-IsControlled rs (perform r retail) (perform-IsControlled r retail h)
