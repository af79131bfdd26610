-- ===== src/Nextgen/Programs/Conservation.antt =====
-- Instruments and the money of the ledger.
use swift.Prelude.{ℕ, ◌≡◌, refl, List, [], ◌∷◌}
use swift.Prelude.Int.{ℤ}
use swift.Prelude.Exec.{Exec, modify}
use swift.Prelude.Exec.Keeps.{Keeps, Keeps-atomic, Keeps-zoom, keeps_rules}
use swift.Ecny.Store.{Db as Ledger, Error as LedgerError}
use swift.Ecny.Ledger.Soundness.{Untouched-IsSound}
use swift.Nextgen.Offline.Conservation.{
  Sums, transfer-Sums, get_or_create_account-Sums, new_id-Sums,
}
use swift.Nextgen.Programs.Templates.{Template, Conditions, Context}
use swift.Nextgen.Programs.{
  InstrumentStatus, Programs, ProgramError, on_ledger, ledger_raised, wallet_account,
  escrow_account, create, pay_out, execute, refund,
}
use swift.Nextgen.Programs.Payouts.{
  Request, created, executed, refunded, wait, perform, perform_all,
}

pub record Keeping (money : ℤ) (programs : Programs) : Type 0 where
  pub sums : Sums money programs.ledger

module _ {money : ℤ} where
  on_ledger-Keeping :
      {A : Type 0} (m : Exec Ledger LedgerError A)
      → Keeps (Sums money) m
      → Keeps (Keeping money) (on_ledger m)
  on_ledger-Keeping m k =
      Keeps-zoom (Keeping money) (Sums money) Programs.ledger
        (λ l programs. record programs { ledger = l }) ledger_raised m k (λ s h. h.sums)
        (λ s t h q. record { sums = q })

  modify-Keeping :
      (f : Programs → Programs)
      → ((programs : Programs) → (f programs).ledger ≡ programs.ledger)
      → Keeps {E = ProgramError} (Keeping money) (modify f)
  modify-Keeping f e = record { at = λ programs h. record { sums = rw (e programs) h.sums } }

  wallet_account-Keeping : (w : ℕ) → Keeps (Keeping money) (wallet_account w)
  unfolding wallet_account
  wallet_account-Keeping w = search keeps_rules depth 10

  escrow_account-Keeping : (id : ℕ) → Keeps (Keeping money) (escrow_account id)
  unfolding escrow_account
  escrow_account-Keeping id = search keeps_rules depth 10

  ruleset keeping_rules = (
    keeps_rules, on_ledger-Keeping, modify-Keeping, wallet_account-Keeping, escrow_account-Keeping,
    transfer-Sums, get_or_create_account-Sums, new_id-Sums,
  )

  create-Keeping :
      (w : ℕ) (x : ℤ) (t : Template) (c : Conditions) → Keeps (Keeping money) (create w x t c)
  unfolding create
  create-Keeping w x t c = search keeping_rules depth 60

  pay_out-Keeping :
      (id d : ℕ) (x left : ℤ) (status : InstrumentStatus)
      → Keeps (Keeping money) (pay_out id d x left status)
  unfolding pay_out
  pay_out-Keeping id d x left status = search keeping_rules depth 50

  execute-Keeping : (id d : ℕ) (x : ℤ) (c : Context) → Keeps (Keeping money) (execute id d x c)
  unfolding execute
  execute-Keeping id d x c = search (keeps_rules, pay_out-Keeping) depth 50

  refund-Keeping : (id : ℕ) → Keeps (Keeping money) (refund id)
  unfolding refund
  refund-Keeping id = search (keeps_rules, pay_out-Keeping) depth 40

perform-Keeping :
    (money : ℤ) (r : Request) (programs : Programs)
    → Keeping money programs
    → Keeping money (perform r programs)
perform-Keeping money (created w x t c) programs h =
    Keeps-atomic _ (create-Keeping w x t c) programs h
perform-Keeping money (executed id d x c) programs h =
    Keeps-atomic _ (execute-Keeping id d x c) programs h
perform-Keeping money (refunded id) programs h = Keeps-atomic _ (refund-Keeping id) programs h
perform-Keeping money (wait t) programs h = record {
  sums = record {
    sound = Untouched-IsSound (record { accounts = refl; entries = refl }) h.sums.sound;
    amounts = h.sums.amounts;
  };
}

-- Where the ledger is sound, it stays so under any requests to create, to execute and to refund
-- instruments and any passing of time, in any order, whether they return or raise; and the
-- accounts in the currency of the wallets hold the same money together.
pub programs_conserve :
    (rs : List Request) (money : ℤ) (programs : Programs)
    → Keeping money programs
    → Keeping money (perform_all rs programs)
programs_conserve [] money programs h = h
programs_conserve (r ∷ rs) money programs h =
    programs_conserve rs money (perform r programs) (perform-Keeping money r programs h)
