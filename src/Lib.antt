-- ===== src/Lib.antt =====
-- 00SWIFT is a local sandbox for payments: HTTP services, in Python, over one relational database.
-- This library models the parts of it that decide over money and over the course of a payment.
--
-- A service is a call on a session: it reads and writes rows, and may raise. `Prelude/Exec` has
-- that type; what a call wrote before it raised stays in the session, and `atomic` is a request
-- whose session is committed when it returns and rolled back when it raises. A table is a list of
-- rows in the order of insertion; `find` is `.first()` on a query, `update` writes to all rows that
-- fit. Integers are Python's (`Prelude/Int`). Identifiers, names, hashes and JSON details are only
-- compared or stored by this code, so numbers stand for them; instants are in seconds. A session
-- carries the identifiers that uuid4 and `secrets` will yield, and the clock.
--
-- The parts, and the files that model them (paths from the repository's root):
--   backend/database.py, the e-CNY tables: Ecny/Store, and Ecny/Store/Accounts for the rows
--   backend/ecny/ledger/engine.py: Ecny/Ledger; proofs in Ecny/Ledger/Posting (transfers and
--     exchanges), Issuing (mint and burn), Soundness (the invariant), Supply (sums of balances)
--   backend/ecny/wallet/service.py: Ecny/Wallet; Ecny/Wallet/CheckLimits
--   backend/ecny/issuance/service.py: Ecny/Issuance; Ecny/Issuance/Cap
--   backend/ecny/compliance/service.py, `check_transaction`: Ecny/Compliance and its Reports
--   backend/ecny/bridge/cips.py: Ecny/Cips; Ecny/Cips/Settlement
--   backend/api/ecny/router.py, the endpoints that move value: Ecny/Api; Ecny/Api/Soundness
--   backend/nextgen/models.py: Nextgen/Store; the JSON of payloads in Nextgen/Store/Payload
--   backend/nextgen/runtime.py: Nextgen/Runtime; Idempotency, Leases and Outbox below it
--   backend/nextgen/payments.py: Nextgen/Payments; Evolution, Endings and CopyChain below it
--   backend/nextgen/cips.py, `CipsService`: Nextgen/Cips, with Accounts for the rows, Netting
--     for the DNS batches, Routing for `route_candidates`; proofs in Positions, Batches, Solvency
--     and Conservation below it; `EcnyOperatorService`: Nextgen/Operators, with Limits below it
--   backend/nextgen/cbdc.py, `OfflineValueService`: Nextgen/Offline; Redemption and
--     Conservation below it; `MultiCbdcService`: Nextgen/Pvp, its rows in Pvp/Store;
--     Legs, Settling and Verdicts below it;
--     `ProgrammableMoneyService`: Nextgen/Programs, with the templates in Templates; proofs in
--     Escrow, Payouts and Accounting (an instrument and its escrow account), Keys and Conservation
--     below it;
--     `HkRetailService`: Nextgen/Retail, with TopUp and Control below it
--   backend/iso20022/states.py: Iso20022/States
--   backend/core/bic.py: Core/Bic, on texts in ASCII (Core/Text); Core/Bic/Patterns
--   backend/core/iban.py: Core/Iban; Splitting and Parsing below it
--   backend/production/limit_reservation.py: Production/LimitReservation; Rows, Bounds and
--     Admission below it
--   backend/production/_ledger_core.py: Production/Ledger (accounts, reservations, posting), its
--     rows in Ledger/Store, and Journals below it (drafts, several currencies, reversals, templates);
--     backend/production/funding_service.py, `HoldService`: Holds below it. Proofs below it: Posting
--     and Outcome (what a journal writes), Equation, Balance and DoubleEntry (the accounting
--     equation), Reserving, ReservedFunds, HeldFunds and ReservedRequests (reserved amounts), Undo
--   backend/production/replay.py: Production/Replay; its contract in Refinement
--   backend/production/entitlement_service.py: Production/Entitlements; Matching and Approval below
--     it. Prelude/Sorting has the sort that queries with an order use
-- The endpoints call the wallets, compliance and issuance; these call the ledger, which alone
-- writes balances. CIPS settlement takes leases of the runtime and writes to its outbox, as the
-- payment services do.
--
-- Of the unique constraints on columns, those on identifiers that are drawn from uuid4 (such as a
-- transaction's, an entry's and a wallet's) are left out: such an identifier is taken to be new.
-- Those on an account's identifier, an idempotency key and a copy's message raise. A lost race for
-- an idempotency key rolls the session back to a committed database, which is a parameter.
--
-- What is not under the source tree is a parameter: the SHA-256 digest of a payload (`digest`,
-- `hash`) and the version that uuid.UUID reads of a UETR. So is the name that an operator's account
-- is given. Every loop of the code that is modelled runs over a list, so there is no fuel.
--
-- Not modelled: mBridge and the rest of the nextgen services, the rest of the production
-- subtree, the message builders and validators, and the remaining HTTP services. User interface,
-- seed data, migrations, telemetry and cryptography are not modelled at all.
mod Prelude
pub mod Ecny
pub mod Nextgen
pub mod Core
pub mod Iso20022
pub mod Production
