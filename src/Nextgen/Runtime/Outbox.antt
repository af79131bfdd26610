-- ===== src/Nextgen/Runtime/Outbox.antt =====
-- How often the outbox hands out an event.
use swift.Prelude.{
  ℕ, zero, suc, ◌+◌, ◌*◌, ◌<◌, ◌≤◌, ◌≡◌, refl, Bool, true, List, [], ◌∷◌, ◌++◌, arith, update,
  count, All, All-append, Bool-cases, inl, inr, ◌==◌, leb, if◌then◌else◌,
}
use swift.Prelude.Exec.{Result, ok, err}
use swift.Nextgen.Store.{Db, OutboxEvent, EventStatus, Topic, Error}
use swift.Nextgen.Runtime.{is_due, claim_due, batch_size, claim, enqueue, publish, failed, fail}

-- What the counter of an event may show, by its status, where a consumer gives up after `most`.
abbrev Within : ℕ → EventStatus → ℕ → Type 0
Within most EventStatus.pending attempts = attempts < most
Within most EventStatus.processing attempts = attempts ≤ most
Within most EventStatus.published attempts = attempts ≤ most
Within most EventStatus.dead_letter attempts = attempts ≤ most

abbrev pub IsBounded : ℕ → List OutboxEvent → Type 0
IsBounded most es = All (λ e. Within most e.status e.attempts) es

claimed_Within :
    (most now : ℕ) (e : OutboxEvent)
    → is_due now e ≡ true
    → Within most e.status e.attempts
    → e.attempts + 1 ≤ most
claimed_Within most now e due h = ground arith

claim_due-IsBounded :
    (most now n : ℕ) (es : List OutboxEvent)
    → IsBounded most es
    → IsBounded most (claim_due now n es).1
unfolding claim_due
claim_due-IsBounded most now zero es b = b
claim_due-IsBounded most now (suc n) [] b = tt
claim_due-IsBounded most now (suc n) (e ∷ es) b = elim (Bool-cases (is_due now e)) [
  | inl h ↦
      rw (h, claim_due) (claimed_Within most now e h b.0, claim_due-IsBounded most now n es b.1)
  | inr h ↦ rw (h, claim_due) (b.0, claim_due-IsBounded most now (suc n) es b.1)
]

update-IsBounded :
    (most : ℕ) (p : OutboxEvent → Bool) (f : OutboxEvent → OutboxEvent) (es : List OutboxEvent)
    → ((e : OutboxEvent)
        → Within most e.status e.attempts
        → Within most (f e).status (f e).attempts)
    → IsBounded most es
    → IsBounded most (update p f es)
update-IsBounded most p f [] k b = tt
update-IsBounded most p f (e ∷ es) k b = elim (Bool-cases (p e)) [
  | inl h ↦ rw h (k e b.0, update-IsBounded most p f es k b.1)
  | inr h ↦ rw h (b.0, update-IsBounded most p f es k b.1)
]

Within-le : (most : ℕ) (s : EventStatus) (a : ℕ) → Within most s a → a ≤ most
Within-le most EventStatus.pending a h = omega arith
Within-le most _ a h = h

failed-Within :
    (most now error retry : ℕ) (e : OutboxEvent)
    → Within most e.status e.attempts
    → Within most (failed now error retry most e).status (failed now error retry most e).attempts
unfolding failed
failed-Within most now error retry e h = elim (Bool-cases (leb most e.attempts)) [
  | inl d ↦ rw d (Within-le most e.status e.attempts h)
  | inr d ↦ rw d (ground arith)
]

-- What producers and consumers do to the outbox, and the passing of time.
pub data Op : Type 0 where
  produce : Topic → ℕ → Op
  take : ℕ → Op
  done : OutboxEvent → Op
  give_back : OutboxEvent → ℕ → ℕ → Op
  wait : ℕ → Op

abbrev pub perform : ℕ → Op → Db → Db
perform most (produce topic id) db = (enqueue topic id db).1
perform most (take limit) db = (claim limit db).1
perform most (done e) db = (publish e db).1
perform most (give_back e error retry) db = (fail e error retry most db).1
perform most (wait n) db = record db { now = db.now + n }

perform-IsBounded :
    (most : ℕ) (op : Op) (db : Db)
    → 0 < most
    → IsBounded most db.outbox
    → IsBounded most (perform most op db).outbox
unfolding enqueue claim publish fail
perform-IsBounded most (produce topic id) db pos b =
    All-append (λ e. Within most e.status e.attempts) db.outbox _ b (pos, tt)
perform-IsBounded most (take limit) db pos b =
    claim_due-IsBounded most db.now (batch_size limit) db.outbox b
perform-IsBounded most (done e) db pos b =
    update-IsBounded most (λ q. q.event_id == e.event_id)
      (λ q. record q { status = EventStatus.published }) db.outbox
      (λ q h. Within-le most q.status q.attempts h) b
perform-IsBounded most (give_back e error retry) db pos b =
    update-IsBounded most (λ q. q.event_id == e.event_id) (failed db.now error retry most) db.outbox
      (λ q h. failed-Within most db.now error retry q h) b
perform-IsBounded most (wait n) db pos b = b

abbrev pub perform_all : ℕ → List Op → Db → Db
perform_all most [] db = db
perform_all most (op ∷ ops) db = perform_all most ops (perform most op db)

abbrev has_id : ℕ → OutboxEvent → Bool
has_id id e = e.event_id == id

-- How often a request hands out an event with this identifier.
abbrev handed_out : ℕ → Result Error (List OutboxEvent) → ℕ
handed_out id (ok got) = count (has_id id) got
handed_out id (err e) = 0

abbrev claims_of : ℕ → Op → Db → ℕ
claims_of id (take limit) db = handed_out id (claim limit db).0
claims_of id op db = 0

abbrev pub claims : ℕ → ℕ → List Op → Db → ℕ
claims id most [] db = 0
claims id most (op ∷ ops) db = claims_of id op db + claims id most ops (perform most op db)

-- The counters of the rows with this identifier.
abbrev tries : ℕ → List OutboxEvent → ℕ
tries id [] = 0
tries id (e ∷ es) = (if e.event_id == id then e.attempts else 0) + tries id es

claim_due-tries :
    (id now n : ℕ) (es : List OutboxEvent)
    → tries id (claim_due now n es).1 ≡ tries id es + count (has_id id) (claim_due now n es).0
unfolding claim_due
claim_due-tries id now zero es = omega arith
claim_due-tries id now (suc n) [] = omega arith
claim_due-tries id now (suc n) (e ∷ es) = elim (Bool-cases (is_due now e)) [
  | inl h ↦ rw (h, claim_due) (ground (arith, claim_due-tries id now n es))
  | inr h ↦ rw (h, claim_due) (omega (arith, claim_due-tries id now (suc n) es))
]

tries-update :
    (id : ℕ) (p : OutboxEvent → Bool) (f : OutboxEvent → OutboxEvent) (es : List OutboxEvent)
    → ((e : OutboxEvent) → (f e).event_id ≡ e.event_id)
    → ((e : OutboxEvent) → (f e).attempts ≡ e.attempts)
    → tries id (update p f es) ≡ tries id es
tries-update id p f [] same kept = refl
tries-update id p f (e ∷ es) same kept = elim (Bool-cases (p e)) [
  | inl h ↦ rw (h, same e, kept e, tries-update id p f es same kept) refl
  | inr h ↦ rw (h, tries-update id p f es same kept) refl
]

tries-append :
    (id : ℕ) (es : List OutboxEvent) (e : OutboxEvent)
    → e.attempts ≡ 0
    → tries id (es ++ e ∷ []) ≡ tries id es
tries-append id [] e z = ground arith
tries-append id (q ∷ es) e z = omega (arith, tries-append id es e z)

failed-attempts :
    (now error retry most : ℕ) (e : OutboxEvent)
    → (failed now error retry most e).attempts ≡ e.attempts
unfolding failed
failed-attempts now error retry most e = ground arith

failed-event_id :
    (now error retry most : ℕ) (e : OutboxEvent)
    → (failed now error retry most e).event_id ≡ e.event_id
unfolding failed
failed-event_id now error retry most e = ground arith

-- A request counts what it hands out.
perform-tries :
    (id most : ℕ) (op : Op) (db : Db)
    → tries id (perform most op db).outbox ≡ tries id db.outbox + claims_of id op db
unfolding enqueue claim publish fail
perform-tries id most (produce topic a) db = omega (arith, tries-append id db.outbox _ refl)
perform-tries id most (take limit) db = claim_due-tries id db.now (batch_size limit) db.outbox
perform-tries id most (done e) db = omega (
  arith,
  tries-update id (λ (q : OutboxEvent). q.event_id == e.event_id)
      (λ (q : OutboxEvent). record q { status = EventStatus.published }) db.outbox (λ q. refl)
      (λ q. refl),
)
perform-tries id most (give_back e error retry) db = omega (
  arith,
  tries-update id (λ (q : OutboxEvent). q.event_id == e.event_id) (failed db.now error retry most)
      db.outbox (failed-event_id db.now error retry most) (failed-attempts db.now error retry most),
)
perform-tries id most (wait n) db = omega arith

perform_all-tries :
    (id most : ℕ) (ops : List Op) (db : Db)
    → tries id (perform_all most ops db).outbox ≡ tries id db.outbox + claims id most ops db
perform_all-tries id most [] db = omega arith
perform_all-tries id most (op ∷ ops) db =
    omega (arith, perform_all-tries id most ops (perform most op db), perform-tries id most op db)

tries_bounded :
    (most id : ℕ) (es : List OutboxEvent)
    → IsBounded most es
    → tries id es ≤ count (has_id id) es * most
tries_bounded most id [] b = omega arith
tries_bounded most id (e ∷ es) b =
    let low = Within-le most e.status e.attempts b.0 in
    elim (Bool-cases (e.event_id == id)) [
      | inl h ↦ rw h (omega (arith, low, tries_bounded most id es b.1))
      | inr h ↦ rw h (omega (arith, tries_bounded most id es b.1))
    ]

perform_all-IsBounded :
    (most : ℕ) (ops : List Op) (db : Db)
    → 0 < most
    → IsBounded most db.outbox
    → IsBounded most (perform_all most ops db).outbox
perform_all-IsBounded most [] db pos b = b
perform_all-IsBounded most (op ∷ ops) db pos b =
    perform_all-IsBounded most ops (perform most op db) pos (perform-IsBounded most op db pos b)

-- Where the limit is positive, the counter of every event of the outbox is at most the limit, and
-- less if the event is pending: whatever producers and consumers do, in whatever order, if every
-- failure is reported with that limit, the events with an identifier are handed out by all claims
-- together at most as often as the limit for each row that then has the identifier.
pub claims_bounded :
    (id most : ℕ) (ops : List Op) (db : Db)
    → 0 < most
    → IsBounded most db.outbox
    → claims id most ops db ≤ count (has_id id) (perform_all most ops db).outbox * most
claims_bounded id most ops db pos b = omega (
  arith,
  perform_all-tries id most ops db,
  tries_bounded most id (perform_all most ops db).outbox (perform_all-IsBounded most ops db pos b),
)
