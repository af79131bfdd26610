-- ===== src/Ecny/Api.antt =====
-- backend/api/ecny/router.py: the endpoints that move value. A raise ends the request with its
-- session rolled back, by the handler or by `get_db`, which closes it without a commit.
pub mod Soundness
use swift.Prelude.{ℕ, true, false, Option, none, some, List, [], ◌∷◌}
use swift.Prelude.Int.{ℤ}
use swift.Prelude.Exec.{raise, or_raise, rethrow, atomic, ◌>>=◌, ◌>>◌}
use swift.Ecny.Store.{Error, ledger_error, wallet_error, issuance_error, http, Db, Session}
use swift.Ecny.Ledger.{transfer}
use swift.Ecny.Wallet.{HolderInfo, open_wallet, get_wallet, check_limits, ledger_account_id_for}
use swift.Ecny.Compliance.{check_transaction}
use swift.Ecny.Issuance.{
  issue_to_operator, redeem_from_operator, exchange_to_wallet, redeem_from_wallet,
}

abbrev catch_wallet : Error → Error
catch_wallet (wallet_error r) = http 400
catch_wallet e = e

abbrev catch_ledger : Error → Error
catch_ledger (ledger_error r) = http 400
catch_ledger e = e

abbrev catch_issuance : Error → Error
catch_issuance (issuance_error r) = http 400
catch_issuance e = e

unfoldable pub open_wallet_endpoint : ℕ → Option HolderInfo → Option ℕ → Session ℕ
open_wallet_endpoint tier holder operator_account_id =
    rethrow catch_wallet (open_wallet 0 tier holder operator_account_id)

unfoldable pub transfer_endpoint : ℕ → ℕ → ℤ → Session ℕ
transfer_endpoint from_wallet_id to_wallet_id amount = do
  found_src ← get_wallet from_wallet_id
  found_dst ← get_wallet to_wallet_id
  src ← or_raise found_src (http 404)
  dst ← or_raise found_dst (http 404)
  rethrow catch_wallet (do check_limits src amount false; check_limits dst amount true)
  check_transaction src amount false
  rethrow catch_ledger (do
    src_acct ← ledger_account_id_for from_wallet_id
    dst_acct ← ledger_account_id_for to_wallet_id
    transfer src_acct dst_acct amount)

pub data Action : Type 0 where
  mint burn : Action
  issue_to_wallet redeem_from : Option ℕ → Action
  unknown : Action

abbrev issue : Action → ℕ → ℤ → Session ℕ
issue mint operator amount = issue_to_operator operator amount
issue burn operator amount = redeem_from_operator operator amount
issue (issue_to_wallet none) operator amount = raise (http 400)
issue (issue_to_wallet (some w)) operator amount = exchange_to_wallet operator w amount
issue (redeem_from none) operator amount = raise (http 400)
issue (redeem_from (some w)) operator amount = redeem_from_wallet w operator amount
issue unknown operator amount = raise (http 400)

unfoldable pub issuance_endpoint : Action → ℕ → ℤ → Session ℕ
issuance_endpoint action operator amount = rethrow catch_issuance (issue action operator amount)

-- The requests, each with the instant at which it arrives.
pub data Request : Type 0 where
  wallets : ℕ → Option HolderInfo → Option ℕ → Request
  transfers : ℕ → ℕ → ℤ → Request
  issuance : Action → ℕ → ℤ → Request

unfoldable pub serve : Request → Session ℕ
serve (wallets tier holder operator) = open_wallet_endpoint tier holder operator
serve (transfers source target amount) = transfer_endpoint source target amount
serve (issuance action operator amount) = issuance_endpoint action operator amount

unfoldable pub serve_all : List (ℕ × Request) → Db → Db
serve_all [] db = db
serve_all ((now, r) ∷ rest) db = serve_all rest (atomic (serve r) (record db { now = now })).1
