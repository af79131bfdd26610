-- ===== src/Nextgen/Programs/Tests.antt =====
-- The theorems on an instrument of 60 that two of three may release.
use swift.Prelude.{ℕ, ◌≡◌, refl, true, false, none, some, List, [], ◌∷◌, arith, is_some}
use swift.Prelude.Int.{pos, ◌+ℤ◌, ◌-ℤ◌}
use swift.Ecny.Store.Accounts.{adjust, balance_of}
use swift.Ecny.Ledger.{get_or_create_account, transfer, apply_transfer, begin_tx, settle, add_entry}
use swift.Nextgen.Offline.Samples.{funded_ledger, funded-Sums}
use swift.Nextgen.Programs.Templates.{
  multi_approval, expiry, Conditions, Context, validate_conditions, allows,
}
use swift.Nextgen.Programs.{
  InstrumentStatus, Instrument, Programs, find_instrument, wallet_account, escrow_account, create,
  pay_out, execute, refund,
}
use swift.Nextgen.Programs.Payouts.{
  Request, created, executed, refunded, wait, perform, perform_all, Backed,
}
use swift.Nextgen.Programs.Accounting.{payouts_bounded}
use swift.Nextgen.Programs.Keys.{AllComplete, conditions_complete}
use swift.Nextgen.Programs.Conservation.{Keeping, programs_conserve}

abbrev two_of_three : Conditions
two_of_three = record {
  condition_key = none;
  merchant_categories = none;
  approval_key = none;
  expires_at = none;
  approvers = some (1 ∷ 2 ∷ 3 ∷ []);
  threshold = some (pos 2);
  max_release = none;
}

abbrev approved_by : List ℕ → Context
approved_by approvals = record {
  merchant_category = none;
  approvals = approvals;
  holds = λ key. false;
}

-- The instrument 1000 pays 40 with two approvals, and nothing with one that is given twice; what is
-- left goes back.
abbrev requests : List Request
requests =
    created 31 (pos 60) expiry two_of_three
    ∷ executed 1000 41 (pos 40) (approved_by (1 ∷ 1 ∷ []))
    ∷ executed 1000 41 (pos 40) (approved_by (3 ∷ 1 ∷ []))
    ∷ executed 1000 41 (pos 40) (approved_by (3 ∷ 1 ∷ []))
    ∷ refunded 1000
    ∷ refunded 1000
    ∷ []

abbrev start : Programs
start = record { ledger = funded_ledger; instruments = [] }

abbrev opened : Programs
opened = perform (created 31 (pos 60) multi_approval two_of_three) start

perform_all-requests :
    let after = perform_all requests opened in
    (balance_of 3 after.ledger.accounts ≡ pos 60) × (balance_of 4 after.ledger.accounts ≡ pos 40)
unfolding create execute refund pay_out validate_conditions allows wallet_account escrow_account
    get_or_create_account transfer apply_transfer begin_tx settle add_entry adjust ◌+ℤ◌ ◌-ℤ◌
perform_all-requests = (refl, refl)

abbrev instrument : Instrument
instrument = record {
  instrument_id = 1000;
  template = multi_approval;
  owner_wallet = 31;
  amount = pos 60;
  conditions = two_of_three;
  status = InstrumentStatus.active;
}

stored :
    (find_instrument 1000 opened.instruments ≡ some instrument)
    × (find_instrument 1000 (perform_all (wait 10 ∷ []) opened).instruments ≡ some instrument)
unfolding create validate_conditions wallet_account get_or_create_account transfer apply_transfer
    begin_tx settle add_entry adjust ◌+ℤ◌ ◌-ℤ◌
stored = (refl, refl)

-- The escrow account 1001 has the 60.
opened-Backed : Backed 1000 1001 (pos 60) opened
unfolding create validate_conditions wallet_account get_or_create_account transfer apply_transfer
    begin_tx settle add_entry adjust ◌+ℤ◌ ◌-ℤ◌
opened-Backed = record {
  instrument = instrument;
  stored = refl;
  nonnegative = omega arith;
  at_most = omega arith;
  owned = record {
    framed = ((refl, (refl, (refl, tt))), λ n k. (ground arith, ground arith));
    balance = refl;
  };
}

payouts_bounded_example : Backed 1000 1001 (pos 60) (perform_all requests opened)
payouts_bounded_example = payouts_bounded requests 1000 1001 (pos 60) opened opened-Backed

opened-AllComplete : AllComplete opened
unfolding create validate_conditions wallet_account get_or_create_account transfer apply_transfer
    begin_tx settle add_entry adjust ◌+ℤ◌ ◌-ℤ◌
opened-AllComplete = record { instruments = (refl, tt) }

conditions_complete_example :
    is_some (allows multi_approval two_of_three (pos 5) (approved_by (1 ∷ [])) 60) ≡ true
conditions_complete_example =
    conditions_complete (wait 10 ∷ []) opened 1000 instrument opened-AllComplete stored.1 (pos 5)
      (approved_by (1 ∷ [])) 60

programs_conserve_example : Keeping (pos 100) (perform_all requests start)
programs_conserve_example =
    programs_conserve requests (pos 100) start (record { sums = funded-Sums })
