-- ===== src/Nextgen/Cips/Tests.antt =====
-- The theorems on three banks.
use swift.Prelude.{◌+◌, Bool, true, count, ℕ, ◌≡◌, refl, false, none, some, List, [], ◌∷◌, arith}
use swift.Prelude.Int.{ℤ, pos, ◌+ℤ◌}
use swift.Nextgen.Cips.Routing.{route_candidates}
use swift.Nextgen.Cips.Routing.Order.{BestFirst, is_scored, qualifies, route_candidates-BestFirst}
use swift.Nextgen.Store.{Participant, Db, CipsAccount, rtgs, dns, Settlement}
use swift.Nextgen.Store.Samples.{empty_db}
use swift.Nextgen.Cips.Accounts.{total_balance}
use swift.Nextgen.Cips.Positions.{
  Distinct, sum_positions, position_of, paid, received, net_positions_exact,
}
use swift.Nextgen.Cips.Solvency.{Holds}
use swift.Nextgen.Cips.Conservation.{
  Request, submit, release_queue, settle_batch, perform_all, settlement_conserves,
}
use swift.Nextgen.Cips.{cny}
use swift.Nextgen.Cips.Netting.{net_positions}

abbrev bank : ℕ → ℤ → CipsAccount
bank id balance = record {
  account_id = 100;
  participant_id = id;
  balance = balance;
  reserved = pos 10;
  currency = cny;
  version = 1;
}

abbrev open_banks : Db
open_banks = record empty_db {
  accounts = bank 1 (pos 500) ∷ bank 2 (pos 60) ∷ bank 3 (pos 10) ∷ [];
}

abbrev owed : ℕ → ℕ → ℤ → Settlement
owed debtor creditor amount = record {
  settlement_id = 40;
  uetr = 7;
  mode = dns;
  debtor_participant = debtor;
  creditor_participant = creditor;
  amount = amount;
  currency = cny;
  priority = pos 5;
  settled = false;
  batch_id = some 6;
  settled_at = none;
}

abbrev batch : List Settlement
batch = owed 1 2 (pos 90) ∷ owed 2 3 (pos 30) ∷ owed 3 1 (pos 50) ∷ []

net_positions_exact_example :
    Distinct (net_positions batch [])
    × (sum_positions (net_positions batch []) ≡ pos 0)
    × ((p : ℕ) → position_of p (net_positions batch []) +ℤ paid p batch ≡ received p batch)
net_positions_exact_example = net_positions_exact batch

open_banks-Holds : Holds (pos 570) open_banks
unfolding total_balance ◌+ℤ◌
open_banks-Holds = record { conserved = refl; solvent = ground arith; positive = tt }

-- The second submission lacks liquidity, and waits for the batch and the queue.
abbrev requests : List Request
requests =
    submit 7 rtgs 1 2 (pos 200) (pos 5) none
    ∷ submit 7 rtgs 3 1 (pos 80) (pos 9) none
    ∷ submit 7 dns 1 3 (pos 100) (pos 5) (some 6)
    ∷ submit 7 dns 3 2 (pos 20) (pos 5) (some 6)
    ∷ settle_batch 6
    ∷ release_queue
    ∷ []

settlement_conserves_example : Holds (pos 570) (perform_all requests open_banks)
settlement_conserves_example = settlement_conserves requests open_banks (pos 570) open_banks-Holds

abbrev participant : ℕ → Bool → ℕ → Participant
participant id direct country = record {
  participant_id = id;
  direct = direct;
  bic = some (10 + id);
  country = country;
  capabilities = 3 ∷ [];
  active = true;
}

-- The third is no direct participant and sits elsewhere, but has the BIC.
abbrev network : Db
network = record empty_db {
  participants = participant 1 true 86 ∷ participant 2 true 44 ∷ participant 3 false 44 ∷ [];
}

route_candidates-BestFirst_example :
    BestFirst (route_candidates 86 3 (some 13) network)
    × ((id n : ℕ)
        → count (is_scored id n) (route_candidates 86 3 (some 13) network)
          ≡ count (qualifies 86 3 (some 13) id n) network.participants)
route_candidates-BestFirst_example = route_candidates-BestFirst 86 3 (some 13) network
