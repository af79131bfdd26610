-- ===== src/Nextgen/Payments/Evolution.antt =====
-- What the operations make of a payment that is on record.
use swift.Prelude.{
  ℕ, suc, ◌+◌, ◌≡◌, refl, ap, ◌∙◌, inl, inr, true, false, Option, some, List, [], ◌∷◌, ◌++◌, arith,
  update, find-append_some, Option-cases, Bool-cases, ◌==◌,
}
use swift.Prelude.Exec.{ok, atomic}
use swift.Prelude.Exec.Keeps.{OnOk, Keeps, Keeps-atomic, Keeps-modify, keeps_rules}
use swift.Nextgen.Store.{Db, Lifecycle, Status, CaseStatus, Error, Topic, LensEvent, new_id}
use swift.Nextgen.Store.Payload.{Json}
use swift.Nextgen.Runtime.{enqueue}
use swift.Nextgen.Payments.{
  is_allowed, find_lifecycle, add_lens, create, transition, append_transaction_copy, open_case,
  update_case,
}

-- `n` allowed transitions from one status to another.
pub data Moves : ℕ → Status → Status → Type 0 where
  stay : {s : Status} → Moves 0 s s
  move : {n : ℕ} {s t u : Status} → Moves n s t → is_allowed t u ≡ true → Moves (suc n) s u

-- What the row `l` of a payment has become.
pub record Evolved (l : Lifecycle) (db : Db) : Type 0 where
  pub row : Lifecycle
  pub stored : find_lifecycle l.uetr db.lifecycles ≡ some row
  pub moves : ℕ
  pub counted : row.version ≡ l.version + moves
  pub allowed : Moves moves l.status row.status
  pub kept : row.original_uetr ≡ l.original_uetr

module _ {l : Lifecycle} where
  same-Evolved : {db after : Db} → after.lifecycles ≡ db.lifecycles → Evolved l db → Evolved l after
  same-Evolved h e = record {
    row = e.row;
    stored = rw h e.stored;
    moves = e.moves;
    counted = e.counted;
    allowed = e.allowed;
    kept = e.kept;
  }

  modify-Evolved :
      (f : Db → Db)
      → ((db : Db) → (f db).lifecycles ≡ db.lifecycles)
      → Keeps {E = Error} (Evolved l) (λ db. (ok tt, f db))
  modify-Evolved f h = Keeps-modify f (λ db e. same-Evolved (h db) e)

abbrev moved : Status → Lifecycle → Lifecycle
moved s l = record l { status = s; version = l.version + 1 }

find-moved :
    (u : ℕ) (s : Status) (row : Lifecycle) (ls : List Lifecycle)
    → find_lifecycle u ls ≡ some row
    → find_lifecycle u (update (λ q. q.uetr == u) (moved s) ls) ≡ some (moved s row)
find-moved u s row [] h = cc
find-moved u s row (q ∷ ls) h = elim (Bool-cases (q.uetr == u)) [
  | inl e ↦ let first : q ≡ row = ground arith in rw (e, e) (ap (λ x. some (moved s x)) first)
  | inr e ↦ rw (e, e) (find-moved u s row ls (ground arith))
]

find-moved_other :
    (u v : ℕ) (s : Status) (ls : List Lifecycle)
    → (v == u) ≡ false
    → find_lifecycle u (update (λ q. q.uetr == v) (moved s) ls) ≡ find_lifecycle u ls
find-moved_other u v s [] d = refl
find-moved_other u v s (q ∷ ls) d = elim (Bool-cases (q.uetr == v)) [
  | inl e ↦
      let other : (q.uetr == u) ≡ false = ground arith in
      rw (e, other) (find-moved_other u v s ls d)
  | inr e ↦ rw (e, find-moved_other u v s ls d) refl
]

module _ {l : Lifecycle} where
  new_id-Evolved : Keeps {E = Error} (Evolved l) new_id
  new_id-Evolved = record { at = λ db e. same-Evolved refl e }

  add_lens-Evolved : (u : ℕ) (v : LensEvent) → Keeps {E = Error} (Evolved l) (add_lens u v)
  unfolding add_lens
  add_lens-Evolved u v = record { at = λ db e. same-Evolved refl e }

  enqueue-Evolved : (t : Topic) (id : ℕ) → Keeps {E = Error} (Evolved l) (enqueue t id)
  unfolding enqueue
  enqueue-Evolved t id = record { at = λ db e. same-Evolved refl e }

  ruleset evolved_rules = (keeps_rules, new_id-Evolved, add_lens-Evolved, enqueue-Evolved)

  append-Evolved :
      (new : Lifecycle) (db : Db)
      → Evolved l db
      → Evolved l (record db { lifecycles = db.lifecycles ++ new ∷ [] })
  append-Evolved new db e = record {
    row = e.row;
    stored = find-append_some (λ q. q.uetr == l.uetr) db.lifecycles (new ∷ []) e.row e.stored;
    moves = e.moves;
    counted = e.counted;
    allowed = e.allowed;
    kept = e.kept;
  }

  create-Evolved :
      (uuid_version : ℕ → Option ℕ) (u scenario : ℕ) (original : Option ℕ) (minutes : ℕ)
      → Keeps {E = Error} (Evolved l) (create uuid_version u scenario original minutes)
  unfolding create
  create-Evolved uuid_version u scenario original minutes =
      search (evolved_rules, Keeps-modify, append-Evolved) depth 30

  copy-Evolved :
      (hash : Json → ℕ) (u id type : ℕ) (payload : Json) (party reason : ℕ)
      → Keeps {E = Error} (Evolved l) (append_transaction_copy hash u id type payload party reason)
  unfolding append_transaction_copy
  copy-Evolved hash u id type payload party reason = search (evolved_rules, modify-Evolved) depth 30

  open_case-Evolved :
      (u type owner details minutes : ℕ)
      → Keeps {E = Error} (Evolved l) (open_case u type owner details minutes)
  unfolding open_case
  open_case-Evolved u type owner details minutes = search (evolved_rules, modify-Evolved) depth 30

  update_case-Evolved :
      (id : ℕ) (s : CaseStatus) (owner details : Option ℕ)
      → Keeps {E = Error} (Evolved l) (update_case id s owner details)
  unfolding update_case
  update_case-Evolved id s owner details = search (evolved_rules, modify-Evolved) depth 30

  moved-Evolved :
      (s : Status) (db : Db) (e : Evolved l db)
      → is_allowed e.row.status s ≡ true
      → Evolved l
          (record db { lifecycles = update (λ q. q.uetr == l.uetr) (moved s) db.lifecycles })
  moved-Evolved s db e a = record {
    row = moved s e.row;
    stored = find-moved l.uetr s e.row db.lifecycles e.stored;
    moves = suc e.moves;
    counted = omega (arith, e.counted);
    allowed = move e.allowed a;
    kept = e.kept;
  }

  moved_other-Evolved :
      (u : ℕ) (s : Status) (db : Db)
      → (u == l.uetr) ≡ false
      → Evolved l db
      → Evolved l (record db { lifecycles = update (λ q. q.uetr == u) (moved s) db.lifecycles })
  moved_other-Evolved u s db d e = record {
    row = e.row;
    stored = find-moved_other l.uetr u s db.lifecycles d ∙ e.stored;
    moves = e.moves;
    counted = e.counted;
    allowed = e.allowed;
    kept = e.kept;
  }

  moved_row-Evolved :
      (u : ℕ) (s : Status) (db : Db) (row : Lifecycle)
      → find_lifecycle u db.lifecycles ≡ some row
      → is_allowed row.status s ≡ true
      → Evolved l db
      → Evolved l (record db { lifecycles = update (λ q. q.uetr == u) (moved s) db.lifecycles })
  moved_row-Evolved u s db row h a e = elim (Bool-cases (u == l.uetr)) [
    | inl same ↦
        let k : u ≡ l.uetr = ground arith in
        let first : e.row ≡ row = cc in rw k (moved-Evolved s db e (rw first a))
    | inr other ↦ moved_other-Evolved u s db other e
  ]

  transition-Evolved :
      (u version : ℕ) (s : Status) (db : Db)
      → Evolved l db
      → OnOk (Evolved l) (transition u version s db)
  unfolding transition add_lens enqueue
  transition-Evolved u version s db e = elim (Option-cases (find_lifecycle u db.lifecycles)) [
    | inl h ↦ rw h tt
    | inr (row, h) ↦ elim (Bool-cases (row.version == version)) [
      | inr v ↦ rw (h, v) tt
      | inl v ↦ elim (Bool-cases (is_allowed row.status s)) [
        | inr a ↦ rw (h, v, a) tt
        | inl a ↦ rw (h, v, a) (same-Evolved refl (moved_row-Evolved u s db row h a e))
      ]
    ]
  ]

-- A request for a payment service.
pub data Request : Type 0 where
  created : ℕ → ℕ → Option ℕ → ℕ → Request
  moved_to : ℕ → ℕ → Status → Request
  recorded : ℕ → ℕ → ℕ → Json → ℕ → ℕ → Request
  case_opened : ℕ → ℕ → ℕ → ℕ → ℕ → Request
  case_updated : ℕ → CaseStatus → Option ℕ → Option ℕ → Request

module _ (uuid_version : ℕ → Option ℕ) (hash : Json → ℕ) where
  abbrev pub perform : Request → Db → Db
  perform (created u scenario original minutes) db =
      (atomic (create uuid_version u scenario original minutes) db).1
  perform (moved_to u version s) db = (atomic (transition u version s) db).1
  perform (recorded u id type payload party reason) db =
      (atomic (append_transaction_copy hash u id type payload party reason) db).1
  perform (case_opened u type owner details minutes) db =
      (atomic (open_case u type owner details minutes) db).1
  perform (case_updated id s owner details) db = (atomic (update_case id s owner details) db).1

  abbrev pub perform_all : List Request → Db → Db
  perform_all [] db = db
  perform_all (r ∷ rs) db = perform_all rs (perform r db)

  perform-Evolved :
      {l : Lifecycle} (r : Request) (db : Db) → Evolved l db → Evolved l (perform r db)
  perform-Evolved (created u scenario original minutes) db e =
      Keeps-atomic _ (create-Evolved uuid_version u scenario original minutes) db e
  perform-Evolved (moved_to u version s) db e =
      Keeps-atomic (transition u version s) (record { at = transition-Evolved u version s }) db e
  perform-Evolved (recorded u id type payload party reason) db e =
      Keeps-atomic _ (copy-Evolved hash u id type payload party reason) db e
  perform-Evolved (case_opened u type owner details minutes) db e =
      Keeps-atomic _ (open_case-Evolved u type owner details minutes) db e
  perform-Evolved (case_updated id s owner details) db e =
      Keeps-atomic _ (update_case-Evolved id s owner details) db e

  perform_all-Evolved :
      {l : Lifecycle} (rs : List Request) (db : Db) → Evolved l db → Evolved l (perform_all rs db)
  perform_all-Evolved [] db e = e
  perform_all-Evolved (r ∷ rs) db e = perform_all-Evolved rs (perform r db) (perform-Evolved r db e)

  -- A payment on record stays on record under any requests, in any order, whether they are let
  -- through or not; its status has gone through allowed transitions only, its version has risen by
  -- their number, and its original UETR is the same.
  pub payment_evolves :
      (rs : List Request) (db : Db) (l : Lifecycle)
      → find_lifecycle l.uetr db.lifecycles ≡ some l
      → Evolved l (perform_all rs db)
  payment_evolves rs db l h = perform_all-Evolved rs db (record {
    row = l;
    stored = h;
    moves = 0;
    counted = omega arith;
    allowed = stay;
    kept = refl;
  })
