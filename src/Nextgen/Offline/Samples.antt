-- ===== src/Nextgen/Offline/Samples.antt =====
-- A ledger of two wallets, for tests.
use swift.Prelude.{ℕ, ◌+◌, refl, [], ◌∷◌, arith}
use swift.Prelude.Int.{ℤ, pos, ◌+ℤ◌}
use swift.Ecny.Store.{Db as Ledger, Account, OwnerType, cny, credit}
use swift.Ecny.Store.Accounts.{total}
use swift.Ecny.Ledger.Posting.{posted}
use swift.Nextgen.Offline.Conservation.{Sums}

abbrev row : ℕ → OwnerType → ℕ → ℤ → Account
row id owner_type owner_ref balance = record {
  id = id;
  account_id = id;
  owner_type = owner_type;
  owner_ref = owner_ref;
  currency = cny;
  balance = balance;
}

-- The wallet 31 has `x`.
abbrev pub two_wallets : ℤ → Ledger
two_wallets x = record {
  accounts = row 3 OwnerType.wallet 31 x ∷ row 4 OwnerType.wallet 41 (pos 0) ∷ [];
  transactions = [];
  entries = [];
  wallets = [];
  holders = [];
  reports = [];
  bridge_txs = [];
  uuids = λ n. 1000 + n;
  drawn = 0;
  now = 50;
}

-- The balance of the wallet is an entry of the ledger.
abbrev pub funded_ledger : Ledger
funded_ledger = record (two_wallets (pos 100)) {
  entries =
      record {
        entry_id = 1;
        tx_id = 1;
        account_id = 3;
        direction = credit;
        amount = pos 100;
        currency = cny;
      }
      ∷ [];
}

pub funded-Sums : Sums (pos 100) funded_ledger
unfolding posted total ◌+ℤ◌
funded-Sums = record {
  sound = record {
    unique = (refl, (refl, tt));
    nonneg = λ id. ground arith;
    reconciled = λ id h. ground arith;
  };
  amounts = refl;
}
