-- ===== src/Production/LimitReservation/Admission.antt =====
-- backend/production/limit_reservation.py, `reserve`: when a reservation is admitted.
use swift.Prelude.{
  ◌≡◌, refl, Bool, true, false, ◌&&◌, Option, none, some, arith, Option-cases, Bool-cases, inl, inr,
  ◌∙◌, ◌++◌, ◌∷◌, [],
}
use swift.Prelude.Int.{ℤ, pos, ◌+ℤ◌, leb_ℤ, ltb_ℤ}
use swift.Prelude.Exec.{Result, ok, err, continue, pure, ◌>>◌}
use swift.Production.LimitReservation.{
  Scope, LimitCounter, ExposurePosition, Limits, LimitError, find_counter, find_position, expose,
  reserve, write_counter, reserved_more, fresh_counter,
}

-- What is held against the daily limit, and against the limit on exposure.
abbrev pub held : Option LimitCounter → ℤ
held none = pos 0
held (some c) = c.reserved +ℤ c.consumed

abbrev pub held_exposure : Option ExposurePosition → ℤ
held_exposure none = pos 0
held_exposure (some p) = p.exposure

abbrev pub returns : {A : Type 0} → Result LimitError A → Bool
returns (ok a) = true
returns (err e) = false

leb_of_over : (a b : ℤ) → ltb_ℤ a b ≡ true → leb_ℤ b a ≡ false
leb_of_over a b h = ground arith

leb_of_room : (a b : ℤ) → ltb_ℤ a b ≡ false → leb_ℤ b a ≡ true
leb_of_room a b h = ground arith

expose_admits :
    (scope : Scope) (x most : ℤ) (db : Limits)
    → returns (expose scope x (some most) db).0
      ≡ leb_ℤ (held_exposure (find_position scope db.positions) +ℤ x) most
unfolding expose
expose_admits scope x most db = elim (Option-cases (find_position scope db.positions)) [
  | inr (p, g) ↦ elim (Bool-cases (ltb_ℤ most (p.exposure +ℤ x))) [
    | inl v ↦ rw (g, v, leb_of_over _ _ v) refl
    | inr v ↦ rw (g, v, leb_of_room _ _ v) refl
  ]
  | inl g ↦ elim (Bool-cases (ltb_ℤ most (pos 0 +ℤ x))) [
    | inl v ↦ rw (g, v, leb_of_over _ _ v) refl
    | inr v ↦ rw (g, v, leb_of_room _ _ v) refl
  ]
]

rest_returns :
    (scope : Scope) (x : ℤ) (r : Result LimitError (Option Scope)) (db : Limits)
    → returns {A = Scope × Option Scope}
        (continue r
          (λ position. write_counter scope (reserved_more x) >> pure (scope, position))
          db).0
      ≡ returns r
rest_returns scope x (ok position) db = refl
rest_returns scope x (err e) db = refl

-- Where both limits are set, a reservation returns exactly if its amount is positive, what is
-- reserved and consumed in its scope leaves room for it under the daily limit, and the exposure
-- leaves room for it under the limit on exposure, a missing row counting as zero; else it raises.
pub reserve_admits :
    (scope : Scope) (x daily most : ℤ) (db : Limits)
    → returns (reserve scope x (some daily) (some most) db).0 ≡ (
        ltb_ℤ (pos 0) x
        && leb_ℤ (held (find_counter scope db.counters) +ℤ x) daily
        && leb_ℤ (held_exposure (find_position scope db.positions) +ℤ x) most)
unfolding reserve ◌+ℤ◌
reserve_admits scope x daily most db = elim (Bool-cases (leb_ℤ x (pos 0))) [
  | inl t ↦ let refused : ltb_ℤ (pos 0) x ≡ false = ground arith in rw (t, refused) refl
  | inr t ↦
      let positive : ltb_ℤ (pos 0) x ≡ true = ground arith in
      elim (Option-cases (find_counter scope db.counters)) [
        | inr (c, e) ↦ elim (Bool-cases (ltb_ℤ daily (c.reserved +ℤ c.consumed +ℤ x))) [
          | inl o ↦ rw (t, positive, e, o, leb_of_over _ _ o) refl
          | inr o ↦
              rw (t, positive, e, o, leb_of_room _ _ o)
                (rest_returns scope x _ _ ∙ expose_admits scope x most db)
        ]
        | inl e ↦
            let new : Limits = record db { counters = db.counters ++ fresh_counter scope ∷ [] } in
            elim (Bool-cases (ltb_ℤ daily (pos 0 +ℤ pos 0 +ℤ x))) [
              | inl o ↦ rw (t, positive, e, o, leb_of_over _ _ o) refl
              | inr o ↦
                  rw (t, positive, e, o, leb_of_room _ _ o)
                    (rest_returns scope x _ _ ∙ expose_admits scope x most new)
            ]
      ]
]
