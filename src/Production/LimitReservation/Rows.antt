-- ===== src/Production/LimitReservation/Rows.antt =====
-- backend/production/limit_reservation.py: rows within their limits, and how writes keep them so.
use swift.Prelude.{
  ◌≡◌, sym, ◌∙◌, Bool, true, false, none, some, List, [], ◌∷◌, ◌++◌, arith, All, All-append,
  All-update_found, find-append_none,
}
use mathlib.Core.Path.{subst}
use mathlib.Core.Option.{some-injective}
use swift.Prelude.Int.{ℤ, pos, ◌+ℤ◌, ◌≤ℤ◌, ltb_ℤ, int_laws}
use swift.Production.LimitReservation.{
  Scope, LimitCounter, ExposurePosition, Limits, same_position, same_scope, find_counter,
  find_position, write_counter, write_position, fresh_counter, fresh_position, exposed,
  reserved_more, reserved_less, settled,
}

abbrev pub IsDaily : ℤ → LimitCounter → Type 0
IsDaily daily c =
    (pos 0 ≤ℤ c.reserved) × (pos 0 ≤ℤ c.consumed) × (c.reserved +ℤ c.consumed ≤ℤ daily)

abbrev pub IsExposed : ℤ → ExposurePosition → Type 0
IsExposed most p = (pos 0 ≤ℤ p.exposure) × (p.exposure ≤ℤ most)

-- The counters are within the daily limit, and the positions within the limit on exposure.
pub record IsLimited (daily most : ℤ) (db : Limits) : Type 0 where
  pub daily_kept : All (IsDaily daily) db.counters
  pub exposure_kept : All (IsExposed most) db.positions

pub not_over : (a b : ℤ) → ltb_ℤ a b ≡ false → b ≤ℤ a
not_over a b h = ground arith

pub fresh_found :
    (scope : Scope) (cs : List LimitCounter)
    → find_counter scope cs ≡ none
    → find_counter scope (cs ++ fresh_counter scope ∷ []) ≡ some (fresh_counter scope)
fresh_found scope cs h =
    find-append_none (λ c. same_scope c.scope scope) cs (fresh_counter scope ∷ []) h ∙ ground arith

pub fresh_position_found :
    (scope : Scope) (ps : List ExposurePosition)
    → find_position scope ps ≡ none
    → find_position scope (ps ++ fresh_position scope ∷ []) ≡ some (fresh_position scope)
fresh_position_found scope ps h =
    find-append_none (λ p. same_position p.scope scope) ps (fresh_position scope ∷ []) h
    ∙ ground arith

pub more-IsDaily :
    (daily x : ℤ) (c : LimitCounter)
    → pos 0 ≤ℤ x
    → c.reserved +ℤ c.consumed +ℤ x ≤ℤ daily
    → IsDaily daily c
    → IsDaily daily (reserved_more x c)
more-IsDaily daily x c p room k = (omega (int_laws, k.0, p), k.1, omega (int_laws, room))

pub less-IsDaily :
    (daily x : ℤ) (c : LimitCounter)
    → pos 0 ≤ℤ x
    → x ≤ℤ c.reserved
    → IsDaily daily c
    → IsDaily daily (reserved_less x c)
less-IsDaily daily x c p covered k = (omega (int_laws, covered), k.1, omega (int_laws, k.2, p))

pub settled-IsDaily :
    (daily : ℤ) (consumed : Bool) (x : ℤ) (c : LimitCounter)
    → pos 0 ≤ℤ x
    → x ≤ℤ c.reserved
    → IsDaily daily c
    → IsDaily daily (settled consumed x c)
settled-IsDaily daily true x c p covered k =
    (omega (int_laws, covered), omega (int_laws, k.1, p), omega (int_laws, k.2))
settled-IsDaily daily false x c p covered k =
    (omega (int_laws, covered), k.1, omega (int_laws, k.2, p))

module _ {daily most : ℤ} where
  pub written-IsLimited :
      (scope : Scope) (f : LimitCounter → LimitCounter) (c : LimitCounter) (db : Limits)
      → find_counter scope db.counters ≡ some c
      → (IsDaily daily c → IsDaily daily (f c))
      → IsLimited daily most db
      → IsLimited daily most (write_counter scope f db).1
  written-IsLimited scope f c db found keeps h = record {
    daily_kept =
        All-update_found (IsDaily daily) (λ d. same_scope d.scope scope) f db.counters
          (λ d e.
            subst (λ q. IsDaily daily q → IsDaily daily (f q)) (some-injective c d (sym found ∙ e))
              keeps)
          h.daily_kept;
    exposure_kept = h.exposure_kept;
  }

  pub moved-IsLimited :
      (scope : Scope) (f : ExposurePosition → ExposurePosition) (p : ExposurePosition) (db : Limits)
      → find_position scope db.positions ≡ some p
      → (IsExposed most p → IsExposed most (f p))
      → IsLimited daily most db
      → IsLimited daily most (write_position scope f db).1
  moved-IsLimited scope f p db found keeps h = record {
    daily_kept = h.daily_kept;
    exposure_kept =
        All-update_found (IsExposed most) (λ q. same_position q.scope scope) f db.positions
          (λ q e.
            subst (λ r. IsExposed most r → IsExposed most (f r))
              (some-injective p q (sym found ∙ e)) keeps)
          h.exposure_kept;
  }

  pub new_position-IsLimited :
      (scope : Scope) (db : Limits)
      → pos 0 ≤ℤ most
      → IsLimited daily most db
      → IsLimited daily most (record db { positions = db.positions ++ fresh_position scope ∷ [] })
  new_position-IsLimited scope db room h = record {
    daily_kept = h.daily_kept;
    exposure_kept =
        All-append (IsExposed most) db.positions (fresh_position scope ∷ []) h.exposure_kept
          (((ground arith), room), tt);
  }

  pub new_counter-IsLimited :
      (scope : Scope) (db : Limits)
      → pos 0 ≤ℤ daily
      → IsLimited daily most db
      → IsLimited daily most (record db { counters = db.counters ++ fresh_counter scope ∷ [] })
  new_counter-IsLimited scope db room h = record {
    daily_kept =
        All-append (IsDaily daily) db.counters (fresh_counter scope ∷ []) h.daily_kept
          (((ground arith), (ground arith), omega (int_laws, room)), tt);
    exposure_kept = h.exposure_kept;
  }

  pub raised :
      (scope : Scope) (x : ℤ) (p : ExposurePosition) (db : Limits)
      → pos 0 ≤ℤ x
      → find_position scope db.positions ≡ some p
      → ltb_ℤ most (p.exposure +ℤ x) ≡ false
      → IsLimited daily most db
      → IsLimited daily most (write_position scope (exposed x) db).1
  raised scope x p db positive found room h =
      moved-IsLimited scope (exposed x) p db found
        (λ k. (omega (int_laws, k.0, positive), not_over most (p.exposure +ℤ x) room)) h
