-- ===== src/Nextgen/Pvp/Tests.antt =====
-- The theorems on two currencies: a settlement that is locked, committed, and asked for again.
use swift.Prelude.{ℕ, ◌+◌, ◌≡◌, refl, true, none, [], ◌∷◌}
use swift.Prelude.Int.{pos, ◌+ℤ◌, ◌-ℤ◌}
use swift.Prelude.Exec.{atomic}
use swift.Prelude.Exec.Returns.{Ends}
use swift.Ecny.Store.{Db as Ledger, Account, OwnerType, cny}
use swift.Ecny.Store.Accounts.{balance_of, adjust}
use swift.Ecny.Ledger.{transfer, apply_transfer, begin_tx, settle, add_entry}
use swift.Nextgen.Store.Samples.{empty_db}
use swift.Nextgen.Runtime.{acquire, release, enqueue}
use swift.Nextgen.Pvp.{
  Desk, PvpState, Leg, FxQuote, commit_pvp, commit_locked, take_leases, release_leases, settle_legs,
  move_legs, move_leg, active_quote, lock_pvp, check_source,
}
use swift.Nextgen.Pvp.Settling.{Settled, commit_pvp-Settles}
use swift.Nextgen.Pvp.Verdicts.{
  Verdict, locked, commit_asked, abort_asked, perform_all, perform_all-Verdict,
}

abbrev usd : ℕ
usd = 840

abbrev wallet_row : ℕ → ℕ → ℕ → Account
wallet_row account_id currency balance = record {
  id = account_id;
  account_id = account_id;
  owner_type = OwnerType.wallet;
  owner_ref = account_id;
  currency = currency;
  balance = pos balance;
}

abbrev ledger : Ledger
ledger = record {
  accounts =
      wallet_row 1 cny 100 ∷ wallet_row 2 cny 0 ∷ wallet_row 3 usd 20 ∷ wallet_row 4 usd 0 ∷ [];
  transactions = [];
  entries = [];
  wallets = [];
  holders = [];
  reports = [];
  bridge_txs = [];
  uuids = λ n. 1000 + n;
  drawn = 0;
  now = 0;
}

abbrev quote : FxQuote
quote = record {
  quote_id = 7;
  provider = 8;
  base_currency = cny;
  quote_currency = usd;
  rate = record { coefficient = pos 14; places = 2 };
  fee = pos 1;
  max_amount = pos 500;
  expires_at = 1000;
  active = true;
}

abbrev leg : ℕ → ℕ → ℕ → ℕ → Leg
leg from_account to_account currency amount = record {
  from_account = from_account;
  to_account = to_account;
  currency = currency;
  amount = pos amount;
}

abbrev desk : Desk
desk = record {
  ledger = ledger;
  platform = empty_db;
  jurisdictions = [];
  nodes = [];
  quotes = quote ∷ [];
  pvps =
      record {
        pvp_id = 9;
        quote_id = 7;
        debit_leg = leg 1 2 cny 100;
        credit_leg = leg 3 4 usd 13;
        state = PvpState.created;
        version = 1;
        failure_reason = none;
      }
      ∷ [];
}

abbrev lease_of : ℕ → ℕ
lease_of account = 5000 + account

abbrev owner_of : ℕ → ℕ
owner_of pvp_id = 6000 + pvp_id

abbrev locked_desk : Desk
locked_desk = perform_all lease_of owner_of (locked 9 1 ∷ []) desk

commit_pvp-Settles_example :
    Ends
      (Settled 9 2 locked_desk)
      (λ s. s ≡ locked_desk)
      (atomic (commit_pvp lease_of owner_of 9 2) locked_desk)
commit_pvp-Settles_example = commit_pvp-Settles lease_of owner_of 9 2 locked_desk

abbrev committed_desk : Desk
committed_desk = perform_all lease_of owner_of (commit_asked 9 2 ∷ []) locked_desk

perform_all-Verdict_example :
    Verdict 9 PvpState.committed
      (perform_all lease_of owner_of
        (abort_asked 9 4 ∷ commit_asked 9 3 ∷ locked 9 3 ∷ [])
        committed_desk).pvps
unfolding commit_pvp commit_locked take_leases release_leases settle_legs move_legs move_leg
    active_quote lock_pvp check_source acquire release enqueue transfer apply_transfer begin_tx
    settle add_entry adjust ◌+ℤ◌ ◌-ℤ◌
perform_all-Verdict_example =
    perform_all-Verdict lease_of owner_of (abort_asked 9 4 ∷ commit_asked 9 3 ∷ locked 9 3 ∷ []) 9
      PvpState.committed committed_desk refl (_, refl, refl)

committed_balance : balance_of 4 committed_desk.ledger.accounts ≡ pos 13
unfolding commit_pvp commit_locked take_leases release_leases settle_legs move_legs move_leg
    active_quote lock_pvp check_source acquire release enqueue transfer apply_transfer begin_tx
    settle add_entry adjust ◌+ℤ◌ ◌-ℤ◌
committed_balance = refl
