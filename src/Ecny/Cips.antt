-- ===== src/Ecny/Cips.antt =====
-- backend/ecny/bridge/cips.py: the bilateral renminbi channel.
pub mod Settlement
use swift.Prelude.{ℕ, Option, none, some, [], ◌∷◌, ◌++◌, update, ◌==◌, if◌then◌else◌}
use swift.Prelude.Int.{ℤ, pos, leb_ℤ}
use swift.Prelude.Exec.{Result, ok, err, raise_if, modify, ◌>>=◌, ◌>>◌}
use swift.Ecny.Store.{
  BridgeStatus, Db, Reason, Error, ledger_error, cips_error, Session, cny, new_id,
}
use swift.Ecny.Ledger.{transfer}

pub data Channel : Type 0 where
  cips mbridge : Channel

unfoldable pub route_cross_border : ℕ → Channel
route_cross_border target_currency = if target_currency == cny then cips else mbridge

abbrev set_bridge : ℕ → BridgeStatus → Option ℕ → Db → Db
set_bridge id status settled_at db = record db {
  bridge_txs =
      update (λ b. b.bridge_tx_id == id)
        (λ b. record b { status = status; settled_at = settled_at }) db.bridge_txs;
}

-- `except LedgerError` marks the row as failed and raises; any other exception passes.
abbrev conclude : ℕ → Result Error ℕ → Session ℕ
conclude id (ok tx_id) db = (ok id, set_bridge id BridgeStatus.settled (some db.now) db)
conclude id (err (ledger_error r)) db =
    (err (cips_error Reason.settlement_failed), set_bridge id BridgeStatus.failed none db)
conclude id (err e) db = (err e, db)

abbrev pub try_transfer : ℕ → ℕ → ℕ → ℤ → Session ℕ
try_transfer id source target amount db =
    let (r, db') = transfer source target amount db in conclude id r db'

unfoldable pub settle_via_cips : ℕ → ℕ → ℤ → Option ℕ → Session ℕ
settle_via_cips from_account_id to_account_id amount counterparty_ref = do
  raise_if (leb_ℤ amount (pos 0)) (cips_error Reason.amount_not_positive)
  uetr ← new_id
  id ← new_id
  modify (λ db. record db {
    bridge_txs =
        db.bridge_txs
        ++ record {
          bridge_tx_id = id;
          uetr = uetr;
          from_currency = cny;
          from_amount = amount;
          to_currency = cny;
          to_amount = amount;
          status = BridgeStatus.pending;
          counterparty_ref = counterparty_ref;
          settled_at = none;
        }
          ∷ [];
  })
  try_transfer id from_account_id to_account_id amount
