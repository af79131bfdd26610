-- ===== src/Production/LimitReservation/Tests.antt =====
-- backend/production/limit_reservation.py: a run of requests.
use swift.Prelude.{[], ◌∷◌, some, none, List, arith, ◌≡◌, ◌&&◌}
use swift.Prelude.Int.{ℤ, pos, ◌+ℤ◌, ltb_ℤ, leb_ℤ}
use swift.Production.LimitReservation.{Scope, Limits, reserve, find_counter, find_position}
use swift.Production.LimitReservation.Admission.{held, held_exposure, returns, reserve_admits}
use swift.Production.LimitReservation.Rows.{IsLimited}
use swift.Production.LimitReservation.Bounds.{
  Request, reserved_for, released, finalized_used, perform_all, perform_all-IsLimited,
}

abbrev daily_limit : ℤ
daily_limit = pos 100

abbrev corridor_scope : Scope
corridor_scope = record {
  tenant = 1;
  participant = 2;
  service = 3;
  corridor = 4;
  currency = 5;
  business_date = 6;
}

abbrev nothing_reserved : Limits
nothing_reserved = record { counters = []; positions = [] }

abbrev requests : List Request
requests =
    reserved_for corridor_scope (pos 60)
    ∷ reserved_for corridor_scope (pos 50)
    ∷ finalized_used corridor_scope (some corridor_scope) (pos 40)
    ∷ released corridor_scope none (pos 20)
    ∷ []

perform_all-IsLimited_example :
    IsLimited daily_limit daily_limit
      (perform_all daily_limit daily_limit requests nothing_reserved)
perform_all-IsLimited_example =
    perform_all-IsLimited daily_limit daily_limit requests nothing_reserved (ground arith)
      (ground arith) record { daily_kept = tt; exposure_kept = tt }

abbrev used : Limits
used = perform_all daily_limit daily_limit requests nothing_reserved

reserve_admits_example :
    returns (reserve corridor_scope (pos 70) (some daily_limit) (some daily_limit) used).0 ≡ (
      ltb_ℤ (pos 0) (pos 70)
      && leb_ℤ (held (find_counter corridor_scope used.counters) +ℤ pos 70) daily_limit
      && leb_ℤ (held_exposure (find_position corridor_scope used.positions) +ℤ pos 70) daily_limit)
reserve_admits_example = reserve_admits corridor_scope (pos 70) daily_limit daily_limit used
