-- ===== src/Nextgen/Payments/Tests.antt =====
-- The theorems on a payment with two copies.
use swift.Prelude.{ℕ, ◌≡◌, refl, true, false, Option, none, some, List, [], ◌∷◌, arith}
use swift.Nextgen.Store.{Db, Status, Lifecycle, Copy}
use swift.Nextgen.Store.Samples.{empty_db}
use swift.Nextgen.Store.Payload.{Json, scalar, object, array}
use swift.Nextgen.Payments.{
  find_lifecycle, append_transaction_copy, verify_copy_chain, is_chain, create, transition,
  is_allowed, add_lens,
}
use swift.Nextgen.Runtime.{enqueue}
use swift.Nextgen.Payments.CopyChain.{tampered, append_keeps_verdict, tampering_shows}
use swift.Nextgen.Payments.Endings.{Ends, payment-Ends}
use swift.Nextgen.Payments.Evolution.{
  Evolved, Request, created, moved_to, recorded, perform_all, payment_evolves,
}

abbrev version_four : ℕ → Option ℕ
version_four uetr = some 4

abbrev hash : Json → ℕ
hash (scalar n) = n
hash (object fs) = 1
hash (array xs) = 2

abbrev payment : Status → ℕ → Lifecycle
payment status version = record {
  uetr = 7;
  status = status;
  scenario = 0;
  original_uetr = none;
  deadline_at = 7250;
  version = version;
}

abbrev copy : ℕ → Option ℕ → Copy
copy n previous = record {
  uetr = 7;
  message_id = n;
  message_type = 8;
  payload = scalar n;
  payload_hash = n;
  previous_hash = previous;
  source_party = 4;
}

abbrev paying : Db
paying = record empty_db {
  lifecycles = payment Status.in_process 3 ∷ [];
  copies = copy 20 none ∷ copy 21 (some 20) ∷ [];
}

-- The second request has a stale version, and the last a transition that is not allowed.
abbrev requests : List Request
requests =
    created 8 0 none 120
    ∷ moved_to 7 2 Status.on_hold
    ∷ moved_to 7 3 Status.settled
    ∷ recorded 7 22 8 (scalar 22) 4 0
    ∷ moved_to 7 4 Status.returned
    ∷ moved_to 7 5 Status.settled
    ∷ []

payment_evolves_example :
    Evolved (payment Status.in_process 3) (perform_all version_four hash requests paying)
payment_evolves_example =
    payment_evolves version_four hash requests paying (payment Status.in_process 3) refl

perform_all-requests :
    find_lifecycle 7 (perform_all version_four hash requests paying).lifecycles
    ≡ some (payment Status.returned 5)
unfolding create transition append_transaction_copy is_allowed add_lens enqueue
perform_all-requests = refl

payment-Ends_example : Ends (payment Status.settled 4) (
    find_lifecycle 7
      (perform_all version_four hash requests
        (record paying { lifecycles = payment Status.settled 4 ∷ [] })).lifecycles)
payment-Ends_example =
    payment-Ends version_four hash requests
      (record paying { lifecycles = payment Status.settled 4 ∷ [] }) (payment Status.settled 4) refl

append_keeps_verdict_example :
    verify_copy_chain hash 7 (append_transaction_copy hash 7 22 8 (scalar 22) 4 0 paying).1
    ≡ verify_copy_chain hash 7 paying
append_keeps_verdict_example = append_keeps_verdict hash 7 22 8 (scalar 22) 4 0 7 paying

verify_copy_chain-paying : verify_copy_chain hash 7 paying ≡ true
unfolding verify_copy_chain is_chain
verify_copy_chain-paying = refl

abbrev chain_of_three : List Copy
chain_of_three = copy 20 none ∷ copy 21 (some 20) ∷ copy 22 (some 21) ∷ []

is_chain-three : is_chain hash none chain_of_three ≡ true
unfolding is_chain
is_chain-three = refl

tampering_shows_example :
    is_chain hash none
      (copy 20 none ∷ tampered (scalar 5) (copy 21 (some 20)) ∷ copy 22 (some 21) ∷ [])
    ≡ false
tampering_shows_example =
    tampering_shows hash none (copy 20 none ∷ []) (copy 22 (some 21) ∷ []) (copy 21 (some 20))
      (scalar 5) is_chain-three (ground arith)
