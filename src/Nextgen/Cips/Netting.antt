-- ===== src/Nextgen/Cips/Netting.antt =====
-- backend/nextgen/cips.py, `settle_dns_batch`: the net positions of a batch, their check against the
-- liquidity, and their posting.
use swift.Prelude.{
  ℕ, Bool, true, false, not, ◌&&◌, Option, none, some, List, [], ◌∷◌, select, ◌==◌, if◌then◌else◌,
}
use swift.Prelude.Int.{ℤ, pos, ◌+ℤ◌, ◌-ℤ◌, ltb_ℤ}
use swift.Prelude.Exec.{pure, gets, raise_if, modify, ◌>>=◌, ◌>>◌}
use swift.Nextgen.Store.{
  Settlement, LensEvent, Topic, no_queued_settlements, insufficient_dns_liquidity, Session,
}
use swift.Nextgen.Runtime.{enqueue}
use swift.Nextgen.Payments.{add_lens}
use swift.Nextgen.Cips.Accounts.{update_first, receive}
use swift.Nextgen.Cips.{cny, account, mark_settled, is_rtgs}

-- `net`: the participants in the order in which they are met, each with its position.
unfoldable pub bump : ℕ → (ℤ → ℤ) → List (ℕ × ℤ) → List (ℕ × ℤ)
bump participant_id f [] = (participant_id, f (pos 0)) ∷ []
bump participant_id f ((q, position) ∷ rest) =
    if q == participant_id
    then (q, f position) ∷ rest
    else (q, position) ∷ bump participant_id f rest

unfoldable pub net_positions : List Settlement → List (ℕ × ℤ) → List (ℕ × ℤ)
net_positions [] net = net
net_positions (s ∷ rest) net = net_positions rest (
    bump s.creditor_participant (λ x. x +ℤ s.amount)
      (bump s.debtor_participant (λ x. x -ℤ s.amount) net))

unfoldable pub require : ℕ → ℤ → Session Unit
require participant_id position = do
  acct ← account participant_id cny
  raise_if (ltb_ℤ (acct.balance -ℤ acct.reserved) (pos 0 -ℤ position)) insufficient_dns_liquidity

unfoldable pub require_all : List (ℕ × ℤ) → Session Unit
require_all [] = pure tt
require_all ((p, position) ∷ rest) = do
  (if ltb_ℤ position (pos 0) then require p position else pure tt)
  require_all rest

unfoldable pub apply_position : ℕ → ℤ → Session Unit
apply_position participant_id position = do
  acct ← account participant_id cny
  modify (λ db. record db {
    accounts = update_first participant_id cny (receive position) db.accounts;
  })

unfoldable pub apply_all : List (ℕ × ℤ) → Session Unit
apply_all [] = pure tt
apply_all ((p, position) ∷ rest) = do apply_position p position; apply_all rest

unfoldable pub settle_each : List Settlement → Session Unit
settle_each [] = pure tt
settle_each (s ∷ rest) = do
  mark_settled s.settlement_id
  add_lens s.uetr LensEvent.dns_settled
  settle_each rest

abbrev pub in_batch : ℕ → Settlement → Bool
in_batch batch_id s = not (is_rtgs s.mode) && same_batch s.batch_id && not s.settled
  where
    same_batch : Option ℕ → Bool
    same_batch none = false
    same_batch (some b) = b == batch_id

abbrev pub is_empty : List Settlement → Bool
is_empty [] = true
is_empty (s ∷ rest) = false

unfoldable pub settle_dns_batch : ℕ → Session (List (ℕ × ℤ))
settle_dns_batch batch_id = do
  queued ← gets (λ db. select (in_batch batch_id) db.settlements)
  raise_if (is_empty queued) no_queued_settlements
  let net : List (ℕ × ℤ) = net_positions queued []
  require_all net
  apply_all net
  settle_each queued
  enqueue Topic.cips_dns_settled batch_id
  pure net
