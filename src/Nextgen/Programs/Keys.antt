-- ===== src/Nextgen/Programs/Keys.antt =====
-- The keys of conditions that a template reads.
use swift.Prelude.{
  ℕ, ◌≡◌, refl, true, some, List, [], ◌∷◌, ◌++◌, ◌==◌, arith, is_some, All, All-append,
  All-update_found, All-find, Bool-cases, inl, inr,
}
use swift.Prelude.Int.{ℤ}
use swift.Prelude.Exec.{Exec, modify}
use swift.Prelude.Exec.Keeps.{Keeps, Keeps-atomic, Keeps-zoom, keeps_rules}
use swift.Ecny.Store.{Db as Ledger, Error as LedgerError}
use swift.Nextgen.Offline.Redemption.{anything}
use swift.Nextgen.Programs.Templates.{
  Template, conditional_refund, directed_subsidy, escrow_release, expiry, merchant_category,
  multi_approval, staged_payment, unsupported, Conditions, Context, validate_conditions, allows,
}
use swift.Nextgen.Programs.{
  InstrumentStatus, Instrument, Programs, ProgramError, on_ledger, ledger_raised, find_instrument,
  wallet_account, escrow_account, create, set_amount, pay_out, execute, refund,
}
use swift.Nextgen.Programs.Payouts.{
  Request, created, executed, refunded, wait, perform, perform_all,
}

abbrev pub Complete : Instrument → Type 0
Complete p = validate_conditions p.template p.conditions ≡ true

pub record AllComplete (programs : Programs) : Type 0 where
  pub instruments : All Complete programs.instruments

on_ledger-AllComplete :
    {A : Type 0} (m : Exec Ledger LedgerError A) → Keeps AllComplete (on_ledger m)
on_ledger-AllComplete m =
    Keeps-zoom AllComplete (λ l. Unit {0}) Programs.ledger
      (λ l programs. record programs { ledger = l }) ledger_raised m (anything m) (λ s h. tt)
      (λ s t h q. record { instruments = h.instruments })

wallet_account-AllComplete : (w : ℕ) → Keeps AllComplete (wallet_account w)
unfolding wallet_account
wallet_account-AllComplete w = search keeps_rules depth 10

escrow_account-AllComplete : (i : ℕ) → Keeps AllComplete (escrow_account i)
unfolding escrow_account
escrow_account-AllComplete i = search keeps_rules depth 10

add-AllComplete :
    (new : Programs → Instrument)
    → ((programs : Programs) → Complete (new programs))
    → Keeps {E = ProgramError} AllComplete (
        modify
          (λ programs. record programs { instruments = programs.instruments ++ new programs ∷ [] }))
add-AllComplete new c = record {
  at = λ programs h. record {
    instruments =
        All-append Complete programs.instruments (new programs ∷ []) h.instruments (c programs, tt);
  };
}

set_amount-AllComplete :
    (i : ℕ) (left : ℤ) (status : InstrumentStatus)
    → Keeps {E = ProgramError} AllComplete (set_amount i left status)
set_amount-AllComplete i left status = record {
  at = λ programs h. record {
    instruments =
        All-update_found Complete (λ p. p.instrument_id == i)
          (λ p. record p { amount = left; status = status }) programs.instruments (λ p e c. c)
          h.instruments;
  };
}

ruleset complete_rules = (
  keeps_rules, on_ledger-AllComplete, wallet_account-AllComplete, escrow_account-AllComplete,
  add-AllComplete, set_amount-AllComplete,
)

create-AllComplete :
    (w : ℕ) (y : ℤ) (t : Template) (c : Conditions) → Keeps AllComplete (create w y t c)
unfolding create
create-AllComplete w y t c = elim (Bool-cases (validate_conditions t c)) [
  | inl valid ↦ search (complete_rules, valid) depth 60
  | inr bad ↦ rw bad (search complete_rules depth 60)
]

pay_out-AllComplete :
    (i d : ℕ) (y left : ℤ) (status : InstrumentStatus)
    → Keeps AllComplete (pay_out i d y left status)
unfolding pay_out
pay_out-AllComplete i d y left status = search complete_rules depth 50

execute-AllComplete : (i d : ℕ) (y : ℤ) (c : Context) → Keeps AllComplete (execute i d y c)
unfolding execute
execute-AllComplete i d y c = search (keeps_rules, pay_out-AllComplete) depth 50

refund-AllComplete : (i : ℕ) → Keeps AllComplete (refund i)
unfolding refund
refund-AllComplete i = search (keeps_rules, pay_out-AllComplete) depth 40

perform-AllComplete :
    (r : Request) (programs : Programs) → AllComplete programs → AllComplete (perform r programs)
perform-AllComplete (created w y t c) programs h =
    Keeps-atomic _ (create-AllComplete w y t c) programs h
perform-AllComplete (executed i d y c) programs h =
    Keeps-atomic _ (execute-AllComplete i d y c) programs h
perform-AllComplete (refunded i) programs h = Keeps-atomic _ (refund-AllComplete i) programs h
perform-AllComplete (wait t) programs h = record { instruments = h.instruments }

perform_all-AllComplete :
    (rs : List Request) (programs : Programs)
    → AllComplete programs
    → AllComplete (perform_all rs programs)
perform_all-AllComplete [] programs h = h
perform_all-AllComplete (r ∷ rs) programs h =
    perform_all-AllComplete rs (perform r programs) (perform-AllComplete r programs h)

allows_decides :
    (t : Template) (c : Conditions) (y : ℤ) (context : Context) (now : ℕ)
    → validate_conditions t c ≡ true
    → is_some (allows t c y context now) ≡ true
unfolding validate_conditions allows
allows_decides conditional_refund c y context now h = ground arith
allows_decides directed_subsidy c y context now h = ground arith
allows_decides escrow_release c y context now h = ground arith
allows_decides expiry c y context now h = ground arith
allows_decides merchant_category c y context now h = ground arith
allows_decides multi_approval c y context now h = ground arith
allows_decides staged_payment c y context now h = ground arith
allows_decides (unsupported name) c y context now h = refl

-- Where the conditions of every instrument have the keys that its template needs, then after any
-- requests to create, to execute and to refund instruments and any passing of time the conditions
-- of an instrument on record decide every execution, whatever its amount and its context are and
-- at any instant: no key is missing.
pub conditions_complete :
    (rs : List Request) (programs : Programs) (id : ℕ) (p : Instrument)
    → AllComplete programs
    → find_instrument id (perform_all rs programs).instruments ≡ some p
    → (y : ℤ) (context : Context) (now : ℕ)
    → is_some (allows p.template p.conditions y context now) ≡ true
conditions_complete rs programs id p h stored y context now =
    allows_decides p.template p.conditions y context now (
      All-find Complete (λ q. q.instrument_id == id) (perform_all rs programs).instruments p
        (perform_all-AllComplete rs programs h).instruments stored)
