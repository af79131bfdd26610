-- ===== src/Nextgen/Runtime/Tests.antt =====
-- The theorems on a session with one lease and two events.
use swift.Prelude.{ℕ, ◌+◌, ◌*◌, ◌≤◌, ◌==◌, count, ◌≡◌, refl, none, some, List, [], ◌∷◌, arith}
use swift.Prelude.Exec.{ok, err}
use swift.Nextgen.Store.{
  Db, resource_locked, idempotency_conflict, IdempotencyRecord, Topic, OutboxEvent, EventStatus,
}
use swift.Nextgen.Store.Samples.{empty_db}
use swift.Nextgen.Runtime.{
  begin, complete, fresh_record, acquire, claim, claim_due, enqueue, publish, fail, failed,
}
use swift.Nextgen.Runtime.Idempotency.{
  Call, begun, completed, wait as pass, perform_all as run_all, Known, Answers, begin_once,
}
use swift.Nextgen.Runtime.Leases.{Acquired, acquire_takes}
use swift.Nextgen.Runtime.Outbox.{
  Op, produce, take, done, give_back, wait, perform_all, claims, claims_bounded,
}

abbrev digest : ℕ → ℕ
digest payload = payload + 5

-- The record of the key 7 for the payload 3.
abbrev first : IdempotencyRecord
first = fresh_record digest 7 3 60 empty_db.now

abbrev committed : Db
committed = record empty_db { idempotency = first ∷ [] }

-- A race for another key falls back to what is committed, that key is used and completed, then the
-- first request is completed, time passes, and the key 7 comes with another payload.
abbrev calls : List Call
calls =
    begun 8 4 60 (some committed)
    ∷ begun 8 4 60 none
    ∷ completed (fresh_record digest 8 4 60 empty_db.now) 200 5
    ∷ completed first 201 6
    ∷ pass 90
    ∷ begun 7 9 60 none
    ∷ []

known : Known digest 7 3 committed
known = record { row = first; stored = refl; same_request = refl }

begin_once_example : Answers digest 7 3 calls 9 60 none (begin digest 7 3 60 none empty_db)
begin_once_example =
    begin_once digest 7 3 60 none empty_db calls 9 60 none tt
      (known, (tt, (tt, (tt, (tt, (tt, tt))))))

begin-calls :
    let after = run_all digest calls (begin digest 7 3 60 none empty_db).1 in
    (begin digest 7 9 60 none after).0 ≡ err idempotency_conflict
unfolding begin complete
begin-calls = refl

-- Owner 1 holds the resource 9 with the token 77 until 80.
abbrev leased : Db
leased = record empty_db {
  leases = record { resource = 9; owner = 1; token = 77; expires_at = 80 } ∷ [];
}

-- Owner 2 takes it once it has expired, and not before.
taken_before : (acquire 9 2 30 (record leased { now = 79 })).0 ≡ err resource_locked
unfolding acquire
taken_before = refl

abbrev expired : Db
expired = record leased { now = 80 }

taken_after : (acquire 9 2 30 expired).0 ≡ ok (expired.ids expired.drawn)
unfolding acquire
taken_after = refl

acquire_takes_example : Acquired 9 2 30 expired (acquire 9 2 30 expired)
acquire_takes_example = acquire_takes 9 2 30 expired

abbrev event : ℕ → OutboxEvent
event id = record {
  event_id = id;
  topic = Topic.payment_received;
  aggregate_id = 3;
  status = EventStatus.pending;
  attempts = 0;
  available_at = 10;
  last_error = none;
}

abbrev queued : Db
queued = record empty_db { outbox = event 1 ∷ event 2 ∷ [] }

abbrev ops : List Op
ops =
    take 1
    ∷ give_back (event 1) 4 30
    ∷ wait 40
    ∷ produce Topic.cips_settled 8
    ∷ take 5
    ∷ give_back (event 1) 4 30
    ∷ done (event 2)
    ∷ wait 99
    ∷ take 5
    ∷ []

-- The event 1 is handed out twice, and then no more.
claims-ops : claims 1 2 ops queued ≡ 2
unfolding claim claim_due enqueue publish fail failed
claims-ops = refl

claims_bounded_example :
    claims 1 2 ops queued ≤ count (λ e. e.event_id == 1) (perform_all 2 ops queued).outbox * 2
claims_bounded_example = claims_bounded 1 2 ops queued (ground arith) (ground arith)
