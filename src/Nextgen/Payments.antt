-- ===== src/Nextgen/Payments.antt =====
-- backend/nextgen/payments.py: the life cycle of a payment, its transaction copies and its cases.
pub mod Evolution
pub mod Endings
pub mod CopyChain
pub mod Tests
use swift.Prelude.{
  ℕ, ◌+◌, ◌*◌, Bool, true, false, not, ◌&&◌, Option, none, some, List, [], ◌∷◌, ◌++◌, map, find,
  select, update, is_some, ◌==◌, if◌then◌else◌,
}
use swift.Prelude.Exec.{Exec, Result, ok, err, pure, gets, raise_if, or_raise, modify, ◌>>=◌, ◌>>◌}
use swift.Nextgen.Store.{
  Status, Lifecycle, Copy, Lineage, CaseStatus, Case, LensEvent, Lens, Topic, Db, Error, bad_uuid,
  not_uuid4, missing_original, not_inherited, duplicate_uetr, illegal_transition, unknown_uetr,
  illegal_case_transition, duplicate_message, version_conflict, no_result, Session, new_id,
}
use swift.Nextgen.Store.Payload.{Json, Step, flatten}
use swift.Nextgen.Runtime.{enqueue, or_else}

-- `ALLOWED_TRANSITIONS`. A status that is none of the eight is in no set.
unfoldable pub is_allowed : Status → Status → Bool
is_allowed Status.received Status.validated = true
is_allowed Status.received Status.rejected = true
is_allowed Status.validated Status.in_process = true
is_allowed Status.validated Status.rejected = true
is_allowed Status.validated Status.cancelled = true
is_allowed Status.in_process Status.settled = true
is_allowed Status.in_process Status.on_hold = true
is_allowed Status.in_process Status.returned = true
is_allowed Status.in_process Status.rejected = true
is_allowed Status.in_process Status.cancelled = true
is_allowed Status.on_hold Status.in_process = true
is_allowed Status.on_hold Status.rejected = true
is_allowed Status.on_hold Status.cancelled = true
is_allowed Status.settled Status.returned = true
is_allowed _ _ = false

-- `allowed` of `update_case`
unfoldable pub is_case_allowed : CaseStatus → CaseStatus → Bool
is_case_allowed CaseStatus.open_ CaseStatus.in_review = true
is_case_allowed CaseStatus.open_ CaseStatus.closed = true
is_case_allowed CaseStatus.in_review CaseStatus.waiting_information = true
is_case_allowed CaseStatus.in_review CaseStatus.resolved = true
is_case_allowed CaseStatus.in_review CaseStatus.closed = true
is_case_allowed CaseStatus.waiting_information CaseStatus.in_review = true
is_case_allowed CaseStatus.waiting_information CaseStatus.closed = true
is_case_allowed CaseStatus.resolved CaseStatus.closed = true
is_case_allowed CaseStatus.resolved CaseStatus.open_ = true
is_case_allowed CaseStatus.closed CaseStatus.open_ = true
is_case_allowed _ _ = false

abbrev pub find_lifecycle : ℕ → List Lifecycle → Option Lifecycle
find_lifecycle uetr lifecycles = find (λ l. l.uetr == uetr) lifecycles

-- `_lens`
unfoldable pub add_lens : ℕ → LensEvent → Session Unit
add_lens uetr event =
    modify (λ db. record db { lens = db.lens ++ record { uetr = uetr; event = event } ∷ [] })

-- The scenario `COV`.
abbrev pub cov : ℕ
cov = 1

abbrev pub differs : Option ℕ → ℕ → Bool
differs none uetr = false
differs (some original) uetr = not (original == uetr)

-- `uuid_version` is what `uuid.UUID(...)` reads of a UETR, `none` where it raises. An original
-- UETR that is empty counts as none, as in the code.
unfoldable pub create : (ℕ → Option ℕ) → ℕ → ℕ → Option ℕ → ℕ → Session ℕ
create uuid_version uetr scenario original_uetr deadline_minutes = do
  version ← or_raise (uuid_version uetr) bad_uuid
  raise_if (not (version == 4)) not_uuid4
  raise_if (scenario == cov && not (is_some original_uetr)) missing_original
  raise_if (differs original_uetr uetr) not_inherited
  found ← gets (λ db. find_lifecycle uetr db.lifecycles)
  raise_if (is_some found) duplicate_uetr
  modify (λ db. record db {
    lifecycles =
        db.lifecycles
        ++ record {
          uetr = uetr;
          status = Status.received;
          scenario = scenario;
          original_uetr = original_uetr;
          deadline_at = db.now + deadline_minutes * 60;
          version = 1;
        }
          ∷ [];
  })
  add_lens uetr (LensEvent.created Status.received)
  enqueue Topic.payment_received uetr
  pure uetr

unfoldable pub transition : ℕ → ℕ → Status → Session ℕ
transition uetr expected_version new_status = do
  found ← gets (λ db. find_lifecycle uetr db.lifecycles)
  lifecycle ← or_raise found no_result
  raise_if (not (lifecycle.version == expected_version)) version_conflict
  raise_if (not (is_allowed lifecycle.status new_status)) illegal_transition
  modify (λ db. record db {
    lifecycles =
        update (λ l. l.uetr == uetr)
          (λ l. record l { status = new_status; version = l.version + 1 }) db.lifecycles;
  })
  add_lens uetr (LensEvent.moved new_status)
  enqueue (Topic.payment_moved new_status) uetr
  pure uetr

-- The copies of one payment, oldest first, and the hash of the newest of them.
abbrev pub copies_of : ℕ → List Copy → List Copy
copies_of uetr copies = select (λ c. c.uetr == uetr) copies

abbrev pub newest_hash : Option ℕ → List Copy → Option ℕ
newest_hash previous [] = previous
newest_hash previous (c ∷ cs) = newest_hash (some c.payload_hash) cs

-- `hash` is `_hash`: SHA-256 of the canonical JSON. A payload is kept as its JSON value. The unique
-- constraint on `message_id` makes the flush raise, which leaves nothing of what was added.
unfoldable pub append_transaction_copy : (Json → ℕ) → ℕ → ℕ → ℕ → Json → ℕ → ℕ → Session Copy
append_transaction_copy hash uetr message_id message_type payload source_party reason = do
  found ← gets (λ db. find_lifecycle uetr db.lifecycles)
  raise_if (not (is_some found)) unknown_uetr
  previous ← gets (λ db. newest_hash none (copies_of uetr db.copies))
  taken ← gets (λ db. find (λ c. c.message_id == message_id) db.copies)
  raise_if (is_some taken) duplicate_message
  let copy : Copy = record {
    uetr = uetr;
    message_id = message_id;
    message_type = message_type;
    payload = payload;
    payload_hash = hash payload;
    previous_hash = previous;
    source_party = source_party;
  }
  modify (λ db. record db {
    copies = db.copies ++ copy ∷ [];
    lineage =
        db.lineage
        ++ map
            (λ entry. record {
              uetr = uetr;
              message_id = message_id;
              path = entry.0;
              source_party = source_party;
              value_hash = hash entry.1;
              reason = reason;
            })
            (flatten payload []);
  })
  add_lens uetr LensEvent.copied
  pure copy

abbrev pub same_hash : Option ℕ → Option ℕ → Bool
same_hash none none = true
same_hash none (some b) = false
same_hash (some a) none = false
same_hash (some a) (some b) = a == b

-- The loop of `verify_copy_chain`.
unfoldable pub is_chain : (Json → ℕ) → Option ℕ → List Copy → Bool
is_chain hash previous [] = true
is_chain hash previous (c ∷ cs) =
    same_hash c.previous_hash previous
    && hash c.payload == c.payload_hash
    && is_chain hash (some c.payload_hash) cs

unfoldable pub verify_copy_chain : (Json → ℕ) → ℕ → Db → Bool
verify_copy_chain hash uetr db = is_chain hash none (copies_of uetr db.copies)

unfoldable pub open_case : ℕ → ℕ → ℕ → ℕ → ℕ → Session ℕ
open_case uetr case_type owner details sla_minutes = do
  found ← gets (λ db. find_lifecycle uetr db.lifecycles)
  raise_if (not (is_some found)) unknown_uetr
  case_id ← new_id
  modify (λ db. record db {
    cases =
        db.cases
        ++ record {
          case_id = case_id;
          uetr = uetr;
          case_type = case_type;
          status = CaseStatus.open_;
          owner = owner;
          details = details;
          deadline_at = db.now + sla_minutes * 60;
        }
          ∷ [];
  })
  add_lens uetr LensEvent.case_opened
  pure case_id

abbrev pub find_case : ℕ → List Case → Option Case
find_case case_id cases = find (λ c. c.case_id == case_id) cases

unfoldable pub update_case : ℕ → CaseStatus → Option ℕ → Option ℕ → Session ℕ
update_case case_id status owner details = do
  found ← gets (λ db. find_case case_id db.cases)
  payment_case ← or_raise found no_result
  raise_if (not (is_case_allowed payment_case.status status)) illegal_case_transition
  modify (λ db. record db {
    cases =
        update (λ c. c.case_id == case_id)
          (λ c. record c {
            status = status;
            owner = or_else owner c.owner;
            details = or_else details c.details;
          })
          db.cases;
  })
  add_lens payment_case.uetr (LensEvent.case_moved status)
  pure case_id

unfoldable pub timeline : ℕ → Db → List LensEvent
timeline uetr db = map (λ l. l.event) (select (λ l. l.uetr == uetr) db.lens)
