-- ===== src/Nextgen/Operators/Samples.antt =====
-- Books without operators over a ledger of one issuance account, for tests.
use swift.Prelude.{ℕ, ◌+◌, refl, [], ◌∷◌, arith}
use swift.Prelude.Int.{pos}
use swift.Ecny.Store.{Db as Ledger, OwnerType, cny}
use swift.Ecny.Ledger.Posting.{posted}
use swift.Nextgen.Operators.{Books}
use swift.Nextgen.Operators.Limits.{Controlled}

abbrev pub account_of : ℕ → ℕ
account_of operator_id = 100 + operator_id

abbrev ledger : Ledger
ledger = record {
  accounts =
      record {
        id = 1;
        account_id = 1;
        owner_type = OwnerType.central_bank;
        owner_ref = 0;
        currency = cny;
        balance = pos 0;
      }
      ∷ [];
  transactions = [];
  entries = [];
  wallets = [];
  holders = [];
  reports = [];
  bridge_txs = [];
  uuids = λ n. 1000 + n;
  drawn = 0;
  now = 0;
}

abbrev pub books : Books
books = record { ledger = ledger; operators = [] }

pub books-Controlled : Controlled books
unfolding posted
books-Controlled = record {
  sound = record {
    unique = (refl, tt);
    nonneg = λ id. ground arith;
    reconciled = λ id h. ground arith;
  };
  within = tt;
}
