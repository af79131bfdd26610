-- ===== src/Nextgen/Pvp.antt =====
-- backend/nextgen/cbdc.py, `MultiCbdcService`: jurisdictions, nodes, quotes, and settlements that
-- move two legs or none, over the ledger of backend/ecny and the platform's leases and outbox.
pub mod Store
pub mod Legs
pub mod Settling
pub mod Verdicts
mod Tests
pub use Store.*
use swift.Prelude.{
  ℕ, ◌+◌, ◌*◌, ◌/◌, Bool, true, false, not, ◌&&◌, ◌||◌, Option, none, some, List, [], ◌∷◌, ◌++◌,
  find, update_found, is_some, ltb, ◌==◌, if◌then◌else◌,
}
use Prim.Native.Nat.{◌^◌}
use swift.Prelude.Int.{ℤ, pos, pos_part, ◌-ℤ◌, leb_ℤ, ltb_ℤ, eqb_ℤ}
use swift.Prelude.Exec.{
  Exec, Result, ok, err, zoom, atomic, attempt, pure, raise, gets, lift, raise_if, or_raise, modify,
  ◌>>=◌, ◌>>◌,
}
use swift.Ecny.Store.{Db as Ledger, Error as LedgerError, find_account}
use swift.Ecny.Ledger.{transfer}
use swift.Nextgen.Store.{Db as Platform, Error as PlatformError, Topic, new_id}
use swift.Nextgen.Runtime.{acquire, release, enqueue}

-- The policy is given by the two keys that the code reads: no limit is 0, no list of purposes is
-- empty.
unfoldable pub register_jurisdiction : ℕ → ℕ → ℕ → ℕ → ℤ → List ℕ → PvpSession ℕ
register_jurisdiction code currency bank data_residency limit purposes = do
  taken ← gets (λ desk. find_jurisdiction code desk.jurisdictions)
  raise_if (is_some taken) integrity_error
  modify (λ desk. record desk {
    jurisdictions =
        desk.jurisdictions
        ++ record {
          code = code;
          currency = currency;
          central_bank = bank;
          data_residency = data_residency;
          max_cross_border_amount = limit;
          allowed_purposes = purposes;
          active = true;
        }
          ∷ [];
  })
  pure code

-- The role is none if its name is none of the four.
unfoldable pub register_node : ℕ → ℕ → ℕ → Option Role → PvpSession ℕ
register_node node_id jurisdiction participant role = do
  kind ← or_raise role bad_role
  found ← gets (λ desk. find (λ j. j.code == jurisdiction && j.active) desk.jurisdictions)
  home ← or_raise found no_jurisdiction
  taken ← gets (λ desk. find (λ n. n.node_id == node_id) desk.nodes)
  raise_if (is_some taken) integrity_error
  modify (λ desk. record desk {
    nodes =
        desk.nodes
        ++ record {
          node_id = node_id;
          jurisdiction = jurisdiction;
          participant = participant;
          role = kind;
        }
          ∷ [];
  })
  pure node_id

pub data Refusal : Type 0 where
  over_policy purpose_not_allowed : ℕ → Refusal

abbrev pub mem : ℕ → List ℕ → Bool
mem x [] = false
mem x (y ∷ rest) = y == x || mem x rest

abbrev pub is_empty : List ℕ → Bool
is_empty [] = true
is_empty (x ∷ rest) = false

-- `if max_amount and amount > max_amount`, and `if allowed and purpose not in allowed`.
unfoldable pub refusals : Jurisdiction → ℤ → ℕ → List Refusal
refusals j amount purpose =
    (if not (eqb_ℤ j.max_cross_border_amount (pos 0)) && ltb_ℤ j.max_cross_border_amount amount
      then over_policy j.code ∷ []
      else [])
    ++ (if not (is_empty j.allowed_purposes) && not (mem purpose j.allowed_purposes)
        then purpose_not_allowed j.code ∷ []
        else [])

-- The reasons against; it is allowed if there are none.
unfoldable pub authorize_cross_border : ℕ → ℕ → ℤ → ℕ → PvpSession (List Refusal)
authorize_cross_border source_code destination_code amount purpose = do
  s ← gets (λ desk. find_jurisdiction source_code desk.jurisdictions)
  source ← or_raise s no_result
  d ← gets (λ desk. find_jurisdiction destination_code desk.jurisdictions)
  destination ← or_raise d no_result
  pure (refusals source amount purpose ++ refusals destination amount purpose)

-- The rate is none if the text is no number.
unfoldable pub create_quote : ℕ → ℕ → ℕ → Option Decimal → ℤ → ℤ → ℤ → PvpSession ℕ
create_quote provider base_currency quote_currency rate max_amount fee ttl_seconds = do
  parsed ← or_raise rate invalid_rate
  raise_if
      (leb_ℤ parsed.coefficient (pos 0)
        || leb_ℤ max_amount (pos 0)
        || ltb_ℤ fee (pos 0)
        || leb_ℤ ttl_seconds (pos 0))
      invalid_quote
  quote_id ← on_platform new_id
  modify (λ desk. record desk {
    quotes =
        desk.quotes
        ++ record {
          quote_id = quote_id;
          provider = provider;
          base_currency = base_currency;
          quote_currency = quote_currency;
          rate = parsed;
          fee = fee;
          max_amount = max_amount;
          expires_at = desk.platform.now + pos_part ttl_seconds;
          active = true;
        }
          ∷ [];
  })
  pure quote_id

-- `_active_quote`
unfoldable pub active_quote : ℕ → ℤ → PvpSession FxQuote
active_quote quote_id amount = do
  found ← gets (λ desk. find (λ q. q.quote_id == quote_id) desk.quotes)
  quote ← or_raise found no_result
  now ← gets (λ desk. desk.platform.now)
  raise_if (not quote.active || ltb quote.expires_at now) quote_inactive
  raise_if (leb_ℤ amount (pos 0) || ltb_ℤ quote.max_amount amount) over_capacity
  pure quote

-- `int((Decimal(amount) * rate).quantize(1, ROUND_DOWN))` for a positive amount and rate, where the
-- product has no more than the 28 digits that are exact.
unfoldable pub converted : ℤ → Decimal → ℤ
converted amount rate = pos (pos_part amount * pos_part rate.coefficient / 10 ^ rate.places)

unfoldable pub quote_amount : ℕ → ℤ → PvpSession ℤ
quote_amount quote_id base_amount = do
  quote ← active_quote quote_id base_amount
  raise_if (leb_ℤ (converted base_amount quote.rate -ℤ quote.fee) (pos 0)) bad_amount
  pure (converted base_amount quote.rate -ℤ quote.fee)

unfoldable pub create_pvp : ℕ → Leg → Leg → PvpSession ℕ
create_pvp quote_id debit_leg credit_leg = do
  quote ← active_quote quote_id debit_leg.amount
  expected ← quote_amount quote.quote_id debit_leg.amount
  raise_if (not (eqb_ℤ credit_leg.amount expected)) legs_mismatch
  pvp_id ← on_platform new_id
  taken ← gets (λ desk. find (λ (p : Pvp). p.pvp_id == pvp_id) desk.pvps)
  raise_if (is_some taken) integrity_error
  modify (λ desk. record desk {
    pvps =
        desk.pvps
        ++ record {
          pvp_id = pvp_id;
          quote_id = quote_id;
          debit_leg = debit_leg;
          credit_leg = credit_leg;
          state = PvpState.created;
          version = 1;
          failure_reason = none;
        }
          ∷ [];
  })
  pure pvp_id

abbrev pub find_pvp : ℕ → List Pvp → Option Pvp
find_pvp pvp_id pvps = find (λ p. p.pvp_id == pvp_id) pvps

abbrev pub moved_to : PvpState → Option Failure → Pvp → Pvp
moved_to state reason p = record p {
  state = state;
  failure_reason = reason;
  version = p.version + 1;
}

abbrev pub write_pvp : ℕ → (Pvp → Pvp) → PvpSession Unit
write_pvp pvp_id f =
    modify (λ desk. record desk { pvps = update_found (λ p. p.pvp_id == pvp_id) f desk.pvps })

-- A round of the loop over the legs.
unfoldable pub check_source : Leg → PvpSession Unit
check_source leg = do
  found ← gets (λ desk. find_account leg.from_account desk.ledger.accounts)
  account ← or_raise found no_result
  raise_if (not (account.currency == leg.currency) || ltb_ℤ account.balance leg.amount)
      source_mismatch

unfoldable pub lock_pvp : ℕ → ℕ → PvpSession ℕ
lock_pvp pvp_id expected_version = do
  found ← gets (λ desk. find_pvp pvp_id desk.pvps)
  pvp ← or_raise found no_result
  raise_if (not (pvp.version == expected_version) || not (is_created pvp.state)) version_conflict
  active_quote pvp.quote_id pvp.debit_leg.amount
  check_source pvp.debit_leg
  check_source pvp.credit_leg
  write_pvp pvp_id (moved_to PvpState.locked pvp.failure_reason)
  pure pvp_id

-- `sorted({debit["from_account"], credit["from_account"]})`; the numbers of the accounts are in the
-- order of their names.
abbrev pub sources : Pvp → List ℕ
sources pvp =
    let d = pvp.debit_leg.from_account in
    let c = pvp.credit_leg.from_account in
    if d == c then d ∷ [] else if ltb d c then d ∷ c ∷ [] else c ∷ d ∷ []

-- `except (LedgerError, ValueError)`: all but what SQLAlchemy raises.
abbrev pub is_caught : PvpError → Bool
is_caught no_result = false
is_caught integrity_error = false
is_caught _ = true

abbrev pub lease_seconds : ℕ
lease_seconds = 30

-- `lease_of` names the lease `pvp-account:<account>`, and `owner_of` the owner `pvp-<settlement>`.
module _ (lease_of owner_of : ℕ → ℕ) where
  abbrev pub note_lease :
      ℕ
      → PvpSession (List (ℕ × ℕ) × Option PvpError)
      → Result PvpError ℕ
      → PvpSession (List (ℕ × ℕ) × Option PvpError)
  note_lease resource others (err e) = pure ([], some e)
  note_lease resource others (ok token) = do
    (locks, failure) ← others
    pure ((resource, token) ∷ locks, failure)

  -- The leases that were taken, and the error that stopped the loop.
  unfoldable pub take_leases : ℕ → List ℕ → PvpSession (List (ℕ × ℕ) × Option PvpError)
  take_leases owner [] = pure ([], none)
  take_leases owner (resource ∷ rest) = do
    taken ← attempt (on_platform (acquire (lease_of resource) owner lease_seconds))
    note_lease resource (take_leases owner rest) taken

  -- The `finally` block, which goes through the leases in reverse.
  unfoldable pub release_leases : List (ℕ × ℕ) → PvpSession Unit
  release_leases [] = pure tt
  release_leases ((resource, token) ∷ rest) = do
    release_leases rest
    on_platform (release (lease_of resource) token)

  unfoldable pub move_leg : Leg → PvpSession ℕ
  move_leg leg = on_ledger (transfer leg.from_account leg.to_account leg.amount)

  -- `with self.db.begin_nested()`: a savepoint, so both legs or neither.
  unfoldable pub move_legs : Pvp → PvpSession ℕ
  move_legs pvp = atomic (move_leg pvp.debit_leg >> move_leg pvp.credit_leg)

  -- What follows the loop over the leases in the `try` block.
  unfoldable pub settle_legs : Pvp → PvpSession Unit
  settle_legs pvp = do
    active_quote pvp.quote_id pvp.debit_leg.amount
    move_legs pvp
    write_pvp pvp.pvp_id (moved_to PvpState.committed pvp.failure_reason)
    on_platform (enqueue Topic.pvp_committed pvp.pvp_id)
    pure tt

  abbrev pub unless_failed : Option PvpError → PvpSession Unit → PvpSession Unit
  unless_failed none m = m
  unless_failed (some e) m = raise e

  -- The `except` block.
  abbrev pub handle : Pvp → Result PvpError Unit → PvpSession Unit
  handle pvp (ok u) = pure u
  handle pvp (err e) =
      if is_caught e
      then write_pvp pvp.pvp_id (moved_to PvpState.aborted (some (raised e)))
      else raise e

  unfoldable pub commit_locked : Pvp → PvpSession Unit
  commit_locked pvp = do
    (locks, failure) ← take_leases (owner_of pvp.pvp_id) (sources pvp)
    result ← attempt (unless_failed failure (settle_legs pvp))
    handled ← attempt (handle pvp result)
    release_leases locks
    lift handled

  unfoldable pub commit_pvp : ℕ → ℕ → PvpSession ℕ
  commit_pvp pvp_id expected_version = do
    found ← gets (λ desk. find_pvp pvp_id desk.pvps)
    pvp ← or_raise found no_result
    raise_if (not (pvp.version == expected_version) || not (is_locked pvp.state)) version_conflict
    commit_locked pvp
    pure pvp_id

unfoldable pub abort_pvp : ℕ → ℕ → PvpSession ℕ
abort_pvp pvp_id reason = do
  found ← gets (λ desk. find_pvp pvp_id desk.pvps)
  pvp ← or_raise found no_result
  raise_if (is_committed pvp.state) already_committed
  write_pvp pvp_id (moved_to PvpState.aborted (some (given reason)))
  pure pvp_id
