-- ===== src/Nextgen/Store.antt =====
-- The tables of backend/nextgen/models.py that the services of this subtree use, and the session
-- over them. Names, identifiers and hashes are only compared, so numbers stand for them; instants
-- are in seconds; rows are in the order of insertion, which is the order of their ids.
pub mod Payload
pub mod Samples
use swift.Prelude.{ℕ, ◌+◌, Bool, true, false, Option, List}
use swift.Prelude.Int.{ℤ}
use swift.Prelude.Exec.{Exec, ok}
use swift.Nextgen.Store.Payload.{Json, Step}

pub record IdempotencyRecord : Type 0 where
  pub key : ℕ
  pub request_hash : ℕ
  pub completed : Bool
  pub response_status : Option ℕ
  pub response_body : Option ℕ
  pub expires_at : ℕ

pub data EventStatus : Type 0 where
  pending processing published dead_letter : EventStatus

pub data Status : Type 0 where
  received validated in_process on_hold settled returned rejected cancelled : Status

-- `payment_moved s` is the topic `payment.<s>`.
pub data Topic : Type 0 where
  payment_received cips_settled cips_dns_settled pvp_committed : Topic
  payment_moved : Status → Topic

pub record OutboxEvent : Type 0 where
  pub event_id : ℕ
  pub topic : Topic
  pub aggregate_id : ℕ
  pub status : EventStatus
  pub attempts : ℕ
  pub available_at : ℕ
  pub last_error : Option ℕ

pub record Workflow : Type 0 where
  pub workflow_id : ℕ
  pub kind : ℕ
  pub state : ℕ
  pub payload : ℕ
  pub version : ℕ

-- A lease on a settlement is named by the settlement's identifier.
pub record Lease : Type 0 where
  pub resource : ℕ
  pub owner : ℕ
  pub token : ℕ
  pub expires_at : ℕ

pub record Lifecycle : Type 0 where
  pub uetr : ℕ
  pub status : Status
  pub scenario : ℕ
  pub original_uetr : Option ℕ
  pub deadline_at : ℕ
  pub version : ℕ

pub record Copy : Type 0 where
  pub uetr : ℕ
  pub message_id : ℕ
  pub message_type : ℕ
  pub payload : Json
  pub payload_hash : ℕ
  pub previous_hash : Option ℕ
  pub source_party : ℕ

pub record Lineage : Type 0 where
  pub uetr : ℕ
  pub message_id : ℕ
  pub path : List Step
  pub source_party : ℕ
  pub value_hash : ℕ
  pub reason : ℕ

pub data CaseStatus : Type 0 where
  open_ in_review waiting_information resolved closed : CaseStatus

pub record Case : Type 0 where
  pub case_id : ℕ
  pub uetr : ℕ
  pub case_type : ℕ
  pub status : CaseStatus
  pub owner : ℕ
  pub details : ℕ
  pub deadline_at : ℕ

-- What a lens event records: the event's type with the status that it shows.
pub data LensEvent : Type 0 where
  created moved : Status → LensEvent
  copied : LensEvent
  case_opened : LensEvent
  case_moved : CaseStatus → LensEvent
  submitted no_liquidity rtgs_settled dns_settled : LensEvent

pub record Lens : Type 0 where
  pub uetr : ℕ
  pub event : LensEvent

pub record Participant : Type 0 where
  pub participant_id : ℕ
  pub direct : Bool
  pub bic : Option ℕ
  pub country : ℕ
  pub capabilities : List ℕ
  pub active : Bool

pub record CipsAccount : Type 0 where
  pub account_id : ℕ
  pub participant_id : ℕ
  pub balance : ℤ
  pub reserved : ℤ
  pub currency : ℕ
  pub version : ℕ

pub data Mode : Type 0 where
  rtgs dns : Mode

pub record Settlement : Type 0 where
  pub settlement_id : ℕ
  pub uetr : ℕ
  pub mode : Mode
  pub debtor_participant : ℕ
  pub creditor_participant : ℕ
  pub amount : ℤ
  pub currency : ℕ
  pub priority : ℤ
  pub settled : Bool
  pub batch_id : Option ℕ
  pub settled_at : Option ℕ

-- `ids` are the identifiers and tokens that uuid4 and `secrets` yield, `drawn` how many were used.
pub record Db : Type 0 where
  pub idempotency : List IdempotencyRecord
  pub outbox : List OutboxEvent
  pub workflows : List Workflow
  pub leases : List Lease
  pub lifecycles : List Lifecycle
  pub copies : List Copy
  pub lineage : List Lineage
  pub cases : List Case
  pub lens : List Lens
  pub participants : List Participant
  pub accounts : List CipsAccount
  pub settlements : List Settlement
  pub ids : ℕ → ℕ
  pub drawn : ℕ
  pub now : ℕ

-- `no_result` is SQLAlchemy's exception when `.one()` finds no row.
pub data Error : Type 0 where
  idempotency_conflict resource_locked invalid_token version_conflict no_result : Error
  bad_uuid not_uuid4 missing_original not_inherited duplicate_uetr illegal_transition unknown_uetr
        illegal_case_transition duplicate_message :
      Error
  bad_participant_type duplicate_participant negative_balance not_direct amount_not_positive
        account_not_found no_queued_settlements insufficient_dns_liquidity :
      Error

abbrev pub Session : Type 0 → Type 0
Session A = Exec Db Error A

-- `uuid.uuid4()` or `secrets.token_hex`.
abbrev pub new_id : Session ℕ
new_id db = (ok (db.ids db.drawn), record db { drawn = db.drawn + 1 })
