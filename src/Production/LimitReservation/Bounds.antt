-- ===== src/Production/LimitReservation/Bounds.antt =====
-- backend/production/limit_reservation.py: requests, and the counters and positions
-- with their limits.
use swift.Prelude.{
  ◌≡◌, refl, ◌∙◌, ap, true, false, ◌||◌, Option, none, some, List, [], ◌∷◌, ◌++◌, arith,
  Option-cases, Bool-cases, inl, inr,
}
use swift.Prelude.Int.{ℤ, pos, ◌+ℤ◌, ◌≤ℤ◌, leb_ℤ, ltb_ℤ, int_laws}
use swift.Prelude.Exec.{Result, ok, err, pure, continue, atomic, ◌>>◌}
use swift.Prelude.Exec.Keeps.{OnOk, Keeps, Keeps-atomic}
use swift.Production.LimitReservation.{
  Scope, LimitCounter, Limits, LimitError, find_counter, find_position, write_counter,
  fresh_counter, fresh_position, unexposed, reserved_more, reserved_less, settled, expose, reserve,
  cover, leave_reservation, release, finalize,
}
use swift.Production.LimitReservation.Rows.{
  IsDaily, IsLimited, not_over, fresh_found, fresh_position_found, more-IsDaily, less-IsDaily,
  settled-IsDaily, written-IsLimited, moved-IsLimited, new_position-IsLimited,
  new_counter-IsLimited, raised,
}

-- What a call leaves of the counters, and that the limits are kept.
abbrev Kept : ℤ → ℤ → Limits → Result LimitError (Option Scope) × Limits → Type 0
Kept daily most db (ok u, after) = (after.counters ≡ db.counters) × IsLimited daily most after
Kept daily most db (err e, after) = Unit

reserve_rest :
    (daily most : ℤ) (scope : Scope) (x : ℤ) (c : LimitCounter) (db : Limits)
    (r : Result LimitError (Option Scope)) (after : Limits)
    → find_counter scope db.counters ≡ some c
    → pos 0 ≤ℤ x
    → c.reserved +ℤ c.consumed +ℤ x ≤ℤ daily
    → Kept daily most db (r, after)
    → OnOk {A = Scope × Option Scope} (IsLimited daily most) (
        continue r
          (λ position. write_counter scope (reserved_more x) >> pure (scope, position))
          after)
reserve_rest daily most scope x c db (err e) after found positive room k = tt
reserve_rest daily most scope x c db (ok u) after found positive room k =
    written-IsLimited scope (reserved_more x) c after (ap (find_counter scope) k.0 ∙ found)
      (more-IsDaily daily x c positive room) k.1

module _ {daily most : ℤ} where
  expose-Kept :
      (scope : Scope) (x : ℤ) (db : Limits)
      → pos 0 ≤ℤ x
      → pos 0 ≤ℤ most
      → IsLimited daily most db
      → Kept daily most db (expose scope x (some most) db)
  unfolding expose
  expose-Kept scope x db positive top h = elim (Option-cases (find_position scope db.positions)) [
    | inr (p, e) ↦ elim (Bool-cases (ltb_ℤ most (p.exposure +ℤ x))) [
      | inl t ↦ rw (e, t) tt
      | inr t ↦ rw (e, t) (refl, raised scope x p db positive e t h)
    ]
    | inl e ↦
        let after : Limits = record db { positions = db.positions ++ fresh_position scope ∷ [] } in
        elim (Bool-cases (ltb_ℤ most (pos 0 +ℤ x))) [
          | inl t ↦ rw (e, t) tt
          | inr t ↦
              rw (e, t)
                (
                  refl,
                  raised scope x (fresh_position scope) after positive
                      (fresh_position_found scope db.positions e) t
                      (new_position-IsLimited scope db top h),
                )
        ]
  ]

  reserve-IsLimited :
      (scope : Scope) (x : ℤ)
      → pos 0 ≤ℤ daily
      → pos 0 ≤ℤ most
      → Keeps (IsLimited daily most) (reserve scope x (some daily) (some most))
  unfolding reserve
  reserve-IsLimited scope x low top = record {
    at = λ db h. elim (Bool-cases (leb_ℤ x (pos 0))) [
      | inl t ↦ rw t tt
      | inr t ↦
          let positive : pos 0 ≤ℤ x = ground arith in
          elim (Option-cases (find_counter scope db.counters)) [
            | inr (c, e) ↦ elim (Bool-cases (ltb_ℤ daily (c.reserved +ℤ c.consumed +ℤ x))) [
              | inl o ↦ rw (t, e, o) tt
              | inr o ↦
                  rw (t, e, o)
                    (reserve_rest daily most scope x c db (expose scope x (some most) db).0
                      (expose scope x (some most) db).1 e positive
                      (not_over daily (c.reserved +ℤ c.consumed +ℤ x) o)
                      (expose-Kept scope x db positive top h))
            ]
            | inl e ↦
                let new : Limits = record db {
                  counters = db.counters ++ fresh_counter scope ∷ [];
                } in
                elim (Bool-cases (ltb_ℤ daily (pos 0 +ℤ pos 0 +ℤ x))) [
                  | inl o ↦ rw (t, e, o) tt
                  | inr o ↦
                      rw (t, e, o)
                        (reserve_rest daily most scope x (fresh_counter scope) new
                          (expose scope x (some most) new).0 (expose scope x (some most) new).1
                          (fresh_found scope db.counters e) positive
                          (not_over daily (pos 0 +ℤ pos 0 +ℤ x) o)
                          (expose-Kept scope x new positive top
                            (new_counter-IsLimited scope db low h)))
                ]
          ]
    ];
  }

  cover-IsLimited :
      (position : Option Scope) (x : ℤ)
      → pos 0 ≤ℤ x
      → Keeps (IsLimited daily most) (cover position x)
  unfolding cover
  cover-IsLimited none x positive = record { at = λ db h. h }
  cover-IsLimited (some scope) x positive = record {
    at = λ db h. elim (Option-cases (find_position scope db.positions)) [
      | inl e ↦ rw e tt
      | inr (p, e) ↦ elim (Bool-cases (ltb_ℤ p.exposure x)) [
        | inl t ↦ rw (e, t) tt
        | inr t ↦
            let covered : x ≤ℤ p.exposure = not_over p.exposure x t in
            rw (e, t)
              (moved-IsLimited scope (unexposed x) p db e
                (λ k. (omega (int_laws, covered), omega (int_laws, k.1, positive))) h)
      ]
    ];
  }

  leave-IsLimited :
      (scope : Scope) (position : Option Scope) (x : ℤ) (write : LimitCounter → LimitCounter)
      → ((c : LimitCounter)
          → pos 0 ≤ℤ x
          → x ≤ℤ c.reserved
          → IsDaily daily c
          → IsDaily daily (write c))
      → Keeps (IsLimited daily most) (leave_reservation scope position x write)
  leave-IsLimited scope position x write keeps = record {
    at = λ db h. elim (Option-cases (find_counter scope db.counters)) [
      | inl e ↦ rw e tt
      | inr (c, e) ↦ elim (Bool-cases (leb_ℤ x (pos 0) || ltb_ℤ c.reserved x)) [
        | inl t ↦ rw (e, t) tt
        | inr t ↦
            let positive : pos 0 ≤ℤ x = ground arith in
            let covered : x ≤ℤ c.reserved = ground arith in
            rw (e, t)
              ((cover-IsLimited position x positive).at _
                (written-IsLimited scope write c db e (keeps c positive covered) h))
      ]
    ];
  }

pub data Request : Type 0 where
  reserved_for : Scope → ℤ → Request
  released finalized_unused finalized_used : Scope → Option Scope → ℤ → Request

module _ (daily most : ℤ) where
  abbrev pub perform : Request → Limits → Limits
  perform (reserved_for scope x) db = (atomic (reserve scope x (some daily) (some most)) db).1
  perform (released scope position x) db = (atomic (release scope position x) db).1
  perform (finalized_unused scope position x) db = (atomic (finalize scope position x false) db).1
  perform (finalized_used scope position x) db = (atomic (finalize scope position x true) db).1

  abbrev pub perform_all : List Request → Limits → Limits
  perform_all [] db = db
  perform_all (r ∷ rs) db = perform_all rs (perform r db)

  perform-IsLimited :
      (r : Request) (db : Limits)
      → pos 0 ≤ℤ daily
      → pos 0 ≤ℤ most
      → IsLimited daily most db
      → IsLimited daily most (perform r db)
  unfolding release finalize
  perform-IsLimited (reserved_for scope x) db low top h =
      Keeps-atomic _ (reserve-IsLimited scope x low top) db h
  perform-IsLimited (released scope position x) db low top h =
      Keeps-atomic _
        (leave-IsLimited scope position x (reserved_less x) (λ c. less-IsDaily daily x c)) db h
  perform-IsLimited (finalized_unused scope position x) db low top h =
      Keeps-atomic _
        (leave-IsLimited scope position x (settled false x) (λ c. settled-IsDaily daily false x c))
        db h
  perform-IsLimited (finalized_used scope position x) db low top h =
      Keeps-atomic _
        (leave-IsLimited scope position x (settled true x) (λ c. settled-IsDaily daily true x c)) db
        h

  -- Where every counter is within the daily limit and every position within the limit on exposure,
  -- neither limit negative, this stays so under any requests to reserve against these limits, to
  -- release and to finalize, in any order, whether they return or raise.
  pub perform_all-IsLimited :
      (rs : List Request) (db : Limits)
      → pos 0 ≤ℤ daily
      → pos 0 ≤ℤ most
      → IsLimited daily most db
      → IsLimited daily most (perform_all rs db)
  perform_all-IsLimited [] db low top h = h
  perform_all-IsLimited (r ∷ rs) db low top h =
      perform_all-IsLimited rs (perform r db) low top (perform-IsLimited r db low top h)
