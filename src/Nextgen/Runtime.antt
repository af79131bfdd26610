-- ===== src/Nextgen/Runtime.antt =====
-- backend/nextgen/runtime.py: idempotency keys, the outbox, workflows and leases.

pub mod Idempotency
pub mod Leases
pub mod Outbox
pub mod Tests
use swift.Prelude.{
  ℕ, zero, suc, ◌+◌, Bool, true, false, not, ◌&&◌, Option, none, some, List, [], ◌∷◌, ◌++◌, find,
  select, update, is_some, ltb, leb, ◌==◌, if◌then◌else◌,
}
use Prim.Native.Nat.{min, max}
use swift.Prelude.Exec.{
  Exec, Result, ok, err, pure, raise, gets, raise_if, or_raise, modify, ◌>>=◌, ◌>>◌,
}
use swift.Nextgen.Store.{
  IdempotencyRecord, EventStatus, Topic, OutboxEvent, Workflow, Lease, Db, Error,
  idempotency_conflict, resource_locked, invalid_token, version_conflict, no_result, Session,
  new_id,
}

-- `IdempotencyService`. `digest` is `request_digest`: SHA-256 of the canonical JSON.
abbrev pub find_key : ℕ → List IdempotencyRecord → Option IdempotencyRecord
find_key key records = find (λ r. r.key == key) records

module _ (digest : ℕ → ℕ) where
  -- The record that answers a repeated key, if its request is the same.
  abbrev pub replay : ℕ → IdempotencyRecord → Session (IdempotencyRecord × Bool)
  replay payload r =
      if r.request_hash == digest payload then pure (r, true) else raise idempotency_conflict

  abbrev pub fresh_record : ℕ → ℕ → ℕ → ℕ → IdempotencyRecord
  fresh_record key payload ttl_seconds now = record {
    key = key;
    request_hash = digest payload;
    completed = false;
    response_status = none;
    response_body = none;
    expires_at = now + ttl_seconds;
  }

  -- `.one()`
  abbrev pub replay_one : ℕ → Option IdempotencyRecord → Session (IdempotencyRecord × Bool)
  replay_one payload none = raise no_result
  replay_one payload (some r) = replay payload r

  -- The insert fails if another session has committed the key since the query. Then the session is
  -- rolled back: `race` is the database as it is committed, without what this session has written.
  abbrev pub insert_key : ℕ → ℕ → ℕ → Option Db → Session (IdempotencyRecord × Bool)
  insert_key key payload ttl_seconds none db =
      let r = fresh_record key payload ttl_seconds db.now in
      (ok (r, false), record db { idempotency = db.idempotency ++ r ∷ [] })
  insert_key key payload ttl_seconds (some committed) db =
      replay_one payload (find_key key committed.idempotency) committed

  abbrev pub begin_with :
      ℕ → ℕ → ℕ → Option Db → Option IdempotencyRecord → Session (IdempotencyRecord × Bool)
  begin_with key payload ttl_seconds race none = insert_key key payload ttl_seconds race
  begin_with key payload ttl_seconds race (some r) = replay payload r

  unfoldable pub begin : ℕ → ℕ → ℕ → Option Db → Session (IdempotencyRecord × Bool)
  begin key payload ttl_seconds race = do
    found ← gets (λ db. find_key key db.idempotency)
    begin_with key payload ttl_seconds race found

-- `IdempotencyService.complete`
unfoldable pub complete : IdempotencyRecord → ℕ → ℕ → Session Unit
complete r response_status response = modify (λ db. record db {
  idempotency =
      update (λ q. q.key == r.key)
        (λ q. record q {
          completed = true;
          response_status = some response_status;
          response_body = some response;
        })
        db.idempotency;
})

-- `OutboxService.enqueue`
unfoldable pub enqueue : Topic → ℕ → Session ℕ
enqueue topic aggregate_id = do
  event_id ← new_id
  modify (λ db. record db {
    outbox =
        db.outbox
        ++ record {
          event_id = event_id;
          topic = topic;
          aggregate_id = aggregate_id;
          status = EventStatus.pending;
          attempts = 0;
          available_at = db.now;
          last_error = none;
        }
          ∷ [];
  })
  pure event_id

abbrev pub is_pending : EventStatus → Bool
is_pending EventStatus.pending = true
is_pending _ = false

abbrev pub is_due : ℕ → OutboxEvent → Bool
is_due now e = is_pending e.status && leb e.available_at now

abbrev pub claimed : OutboxEvent → OutboxEvent
claimed e = record e { status = EventStatus.processing; attempts = e.attempts + 1 }

-- The first `n` due events, marked, and the table with them marked.
unfoldable pub claim_due : ℕ → ℕ → List OutboxEvent → List OutboxEvent × List OutboxEvent
claim_due now zero es = ([], es)
claim_due now (suc n) [] = ([], [])
claim_due now (suc n) (e ∷ es) = elim (is_due now e) [
  | true ↦ let (got, rest) = claim_due now n es in (claimed e ∷ got, claimed e ∷ rest)
  | false ↦ let (got, rest) = claim_due now (suc n) es in (got, e ∷ rest)
]

abbrev pub batch_size : ℕ → ℕ
batch_size limit = max 1 (min limit 1000)

unfoldable pub claim : ℕ → Session (List OutboxEvent)
claim limit db =
    let (got, table) = claim_due db.now (batch_size limit) db.outbox in
    (ok got, record db { outbox = table })

unfoldable pub publish : OutboxEvent → Session Unit
publish event = modify (λ db. record db {
  outbox =
      update (λ e. e.event_id == event.event_id) (λ e. record e { status = EventStatus.published })
        db.outbox;
})

-- What `OutboxService.fail` makes of the event. The error text is cut at 2000 characters; a number
-- stands for it.
unfoldable pub failed : ℕ → ℕ → ℕ → ℕ → OutboxEvent → OutboxEvent
failed now error retry_seconds max_attempts e =
    if leb max_attempts e.attempts
    then record e { status = EventStatus.dead_letter; last_error = some error }
    else record e {
      status = EventStatus.pending;
      available_at = now + retry_seconds;
      last_error = some error;
    }

unfoldable pub fail : OutboxEvent → ℕ → ℕ → ℕ → Session Unit
fail event error retry_seconds max_attempts = modify (λ db. record db {
  outbox =
      update (λ e. e.event_id == event.event_id) (failed db.now error retry_seconds max_attempts)
        db.outbox;
})

-- `WorkflowService`
unfoldable pub create_workflow : ℕ → ℕ → ℕ → Session ℕ
create_workflow kind state payload = do
  workflow_id ← new_id
  modify (λ db. record db {
    workflows =
        db.workflows
        ++ record {
          workflow_id = workflow_id;
          kind = kind;
          state = state;
          payload = payload;
          version = 1;
        }
          ∷ [];
  })
  pure workflow_id

abbrev pub find_workflow : ℕ → List Workflow → Option Workflow
find_workflow workflow_id workflows = find (λ w. w.workflow_id == workflow_id) workflows

abbrev pub or_else {ℓ} : {A : Type ℓ} → Option A → A → A
or_else none d = d
or_else (some a) d = a

unfoldable pub transition_workflow : ℕ → ℕ → ℕ → Option ℕ → Session ℕ
transition_workflow workflow_id expected_version state payload = do
  found ← gets (λ db. find_workflow workflow_id db.workflows)
  workflow ← or_raise found no_result
  raise_if (not (workflow.version == expected_version)) version_conflict
  modify (λ db. record db {
    workflows =
        update (λ w. w.workflow_id == workflow_id)
          (λ w. record w {
            state = state;
            version = w.version + 1;
            payload = or_else payload w.payload;
          })
          db.workflows;
  })
  pure workflow_id

-- `LeaseService`
abbrev pub find_lease : ℕ → List Lease → Option Lease
find_lease resource leases = find (λ l. l.resource == resource) leases

abbrev pub held_by_other : Option Lease → ℕ → ℕ → Bool
held_by_other none now owner = false
held_by_other (some l) now owner = ltb now l.expires_at && not (l.owner == owner)

abbrev pub put_lease : Option Lease → Lease → List Lease → List Lease
put_lease none lease leases = leases ++ lease ∷ []
put_lease (some old) lease leases = update (λ l. l.resource == lease.resource) (λ l. lease) leases

unfoldable pub acquire : ℕ → ℕ → ℕ → Session ℕ
acquire resource owner ttl_seconds = do
  lock ← gets (λ db. find_lease resource db.leases)
  token ← new_id
  now ← gets (λ db. db.now)
  raise_if (held_by_other lock now owner) resource_locked
  modify (λ db. record db {
    leases =
        put_lease lock
          (record {
            resource = resource;
            owner = owner;
            token = token;
            expires_at = now + ttl_seconds;
          })
          db.leases;
  })
  pure token

unfoldable pub release : ℕ → ℕ → Session Unit
release resource token = do
  found ← gets (λ db. find_lease resource db.leases)
  lock ← or_raise found no_result
  raise_if (not (lock.token == token)) invalid_token
  modify (λ db. record db { leases = select (λ l. not (l.resource == resource)) db.leases })
