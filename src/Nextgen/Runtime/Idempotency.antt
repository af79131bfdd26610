-- ===== src/Nextgen/Runtime/Idempotency.antt =====
-- A key, the request that used it first, and what is done after it.
use swift.Prelude.{
  ℕ, ◌+◌, ◌≡◌, refl, ◌∙◌, Bool, true, Option, none, some, List, [], ◌∷◌, arith, All, update,
  is_some, find-append_some, find-append_none, Option-cases, Bool-cases, inl, inr, ◌==◌,
  if◌then◌else◌,
}
use swift.Prelude.Exec.{Result, ok, err}
use swift.Nextgen.Store.{Db, IdempotencyRecord, Error, idempotency_conflict}
use swift.Nextgen.Runtime.{find_key, replay, fresh_record, insert_key, begin, complete}

-- What sessions do between two requests with a key: they begin requests of their own, complete
-- some, and time passes.
pub data Call : Type 0 where
  begun : ℕ → ℕ → ℕ → Option Db → Call
  completed : IdempotencyRecord → ℕ → ℕ → Call
  wait : ℕ → Call

module _ (digest : ℕ → ℕ) where
  abbrev pub perform : Call → Db → Db
  perform (begun key payload ttl race) db = (begin digest key payload ttl race db).1
  perform (completed r status response) db = (complete r status response db).1
  perform (wait n) db = record db { now = db.now + n }

  abbrev pub perform_all : List Call → Db → Db
  perform_all [] db = db
  perform_all (c ∷ cs) db = perform_all cs (perform c db)

-- The key is on record for the request.
pub record Known (digest : ℕ → ℕ) (key payload : ℕ) (db : Db) : Type 0 where
  pub row : IdempotencyRecord
  pub stored : find_key key db.idempotency ≡ some row
  pub same_request : row.request_hash ≡ digest payload

module _ (digest : ℕ → ℕ) (key payload : ℕ) where
  -- What a session falls back to after a race still knows the key.
  abbrev pub Remembers : Call → Type 0
  Remembers (begun key' payload' ttl (some committed)) = Known digest key payload committed
  Remembers c = Unit

  -- The answer to a further request with the key.
  pub record Replays (payload' ttl : ℕ) (race : Option Db) (db : Db) : Type 0 where
    pub known : Known digest key payload db
    pub answer : begin digest key payload' ttl race db ≡ (
      (if digest payload == digest payload'
          then ok (known.row, true)
          else err idempotency_conflict),
      db,
    )

  -- The result of the first request, and what follows for a further one after the calls.
  abbrev pub Answers :
      List Call → ℕ → ℕ → Option Db → Result Error (IdempotencyRecord × Bool) × Db → Type 0
  Answers cs payload' ttl race (ok a, db) = Replays payload' ttl race (perform_all digest cs db)
  Answers cs payload' ttl race (err e, db) = e ≡ idempotency_conflict

-- The database after a lost race has the key.
abbrev pub RacesFor : ℕ → Option Db → Type 0
RacesFor key none = Unit
RacesFor key (some committed) = is_some (find_key key committed.idempotency) ≡ true

module _ (digest : ℕ → ℕ) (key payload : ℕ) where
  abbrev IsLet : Result Error (IdempotencyRecord × Bool) × Db → Type 0
  IsLet (ok a, db) = Known digest key payload db
  IsLet (err e, db) = e ≡ idempotency_conflict

  replay-IsLet :
      (r : IdempotencyRecord) (db : Db)
      → find_key key db.idempotency ≡ some r
      → IsLet (replay digest payload r db)
  replay-IsLet r db e = elim (Bool-cases (r.request_hash == digest payload)) [
    | inl h ↦ rw h (record { row = r; stored = e; same_request = ground arith })
    | inr h ↦ rw h refl
  ]

  insert_key-IsLet :
      (ttl : ℕ) (race : Option Db) (db : Db)
      → RacesFor key race
      → find_key key db.idempotency ≡ none
      → IsLet (insert_key digest key payload ttl race db)
  insert_key-IsLet ttl none db k e =
      let r = fresh_record digest key payload ttl db.now in
      record {
        row = r;
        stored = find-append_none (λ q. q.key == key) db.idempotency (r ∷ []) e ∙ ground arith;
        same_request = refl;
      }
  insert_key-IsLet ttl (some committed) db k e =
      elim (Option-cases (find_key key committed.idempotency)) [
        | inl n ↦ cc (rw n at k)
        | inr (r, n) ↦ rw n (replay-IsLet r committed n)
      ]

  begin-IsLet :
      (ttl : ℕ) (race : Option Db) (db : Db)
      → RacesFor key race
      → IsLet (begin digest key payload ttl race db)
  unfolding begin
  begin-IsLet ttl race db k = elim (Option-cases (find_key key db.idempotency)) [
    | inl e ↦ rw e (insert_key-IsLet ttl race db k e)
    | inr (r, e) ↦ rw e (replay-IsLet r db e)
  ]

  replay-same :
      (payload' : ℕ) (r : IdempotencyRecord) (db : Db) → (replay digest payload' r db).1 ≡ db
  replay-same payload' r db = elim (Bool-cases (r.request_hash == digest payload')) [
    | inl h ↦ rw h refl
    | inr h ↦ rw h refl
  ]

  begin-Known :
      (key' payload' ttl : ℕ) (race : Option Db) (db : Db)
      → Remembers digest key payload (begun key' payload' ttl race)
      → Known digest key payload db
      → Known digest key payload (begin digest key' payload' ttl race db).1
  unfolding begin
  begin-Known key' payload' ttl race db m h = elim (Option-cases (find_key key' db.idempotency)) [
    | inr (r, e) ↦ rw (e, replay-same payload' r db) h
    | inl e ↦ rw e (inserted race m)
  ]
    where
      inserted :
          (race : Option Db)
          → Remembers digest key payload (begun key' payload' ttl race)
          → Known digest key payload (insert_key digest key' payload' ttl race db).1
      inserted none m = record {
        row = h.row;
        stored =
            find-append_some (λ q. q.key == key) db.idempotency
              (fresh_record digest key' payload' ttl db.now ∷ []) h.row h.stored;
        same_request = h.same_request;
      }
      inserted (some committed) m = elim (Option-cases (find_key key' committed.idempotency)) [
        | inl n ↦ rw n m
        | inr (r, n) ↦ rw (n, replay-same payload' r committed) m
      ]

find_key-update :
    (key : ℕ) (p : IdempotencyRecord → Bool) (f : IdempotencyRecord → IdempotencyRecord)
    (rows : List IdempotencyRecord) (row : IdempotencyRecord)
    → ((q : IdempotencyRecord) → (f q).key ≡ q.key)
    → find_key key rows ≡ some row
    → find_key key (update p f rows) ≡ some (if p row then f row else row)
find_key-update key p f [] row same h = cc
find_key-update key p f (q ∷ rows) row same h =
    ground (arith, same q, find_key-update key p f rows row same)

module _ (digest : ℕ → ℕ) (key payload : ℕ) where
  complete-Known :
      (r : IdempotencyRecord) (status response : ℕ) (db : Db)
      → Known digest key payload db
      → Known digest key payload (complete r status response db).1
  unfolding complete
  complete-Known r status response db h = record {
    row = _;
    stored = find_key-update key (λ q. q.key == r.key) _ db.idempotency h.row (λ q. refl) h.stored;
    same_request = elim (Bool-cases (h.row.key == r.key)) [
      | inl e ↦ rw e h.same_request
      | inr e ↦ rw e h.same_request
    ];
  }

  perform_all-Known :
      (cs : List Call) (db : Db)
      → All (Remembers digest key payload) cs
      → Known digest key payload db
      → Known digest key payload (perform_all digest cs db)
  perform_all-Known [] db m h = h
  perform_all-Known (begun key' payload' ttl race ∷ cs) db m h =
      perform_all-Known cs _ m.1 (begin-Known digest key payload key' payload' ttl race db m.0 h)
  perform_all-Known (completed r status response ∷ cs) db m h =
      perform_all-Known cs _ m.1 (complete-Known r status response db h)
  perform_all-Known (wait n ∷ cs) db m h =
      perform_all-Known cs _ m.1
        (record { row = h.row; stored = h.stored; same_request = h.same_request })

  known-Replays :
      (payload' ttl : ℕ) (race : Option Db) (db : Db)
      → Known digest key payload db
      → Replays digest key payload payload' ttl race db
  unfolding begin
  known-Replays payload' ttl race db h = record {
    known = h;
    answer =
        rw (h.stored, h.same_request)
          (elim (Bool-cases (digest payload == digest payload')) [
            | inl e ↦ rw e refl
            | inr e ↦ rw e refl
          ]);
  }

  -- If a request with a key is let through, then after any further calls, which begin requests
  -- with this key or others, complete requests and let time pass, a request with the key gets the
  -- record that is then stored if its payload has the same digest as the first, and a conflict if
  -- not, and changes nothing; a request that is not let through ends in a conflict. An insert may
  -- lose a race, which rolls the session back to what is committed: in the first request that has
  -- the key, and in the calls it still has the key for the first request.
  pub begin_once :
      (ttl : ℕ) (race : Option Db) (db : Db) (cs : List Call) (payload' ttl' : ℕ)
      (race' : Option Db)
      → RacesFor key race
      → All (Remembers digest key payload) cs
      → Answers digest key payload cs payload' ttl' race' (begin digest key payload ttl race db)
  begin_once ttl race db cs payload' ttl' race' k m =
      followed (begin digest key payload ttl race db).0 (begin digest key payload ttl race db).1
        (begin-IsLet digest key payload ttl race db k)
    where
      followed :
          (r : Result Error (IdempotencyRecord × Bool)) (d : Db)
          → IsLet digest key payload (r, d)
          → Answers digest key payload cs payload' ttl' race' (r, d)
      followed (ok a) d h =
          known-Replays payload' ttl' race' (perform_all digest cs d) (perform_all-Known cs d m h)
      followed (err e) d h = h
