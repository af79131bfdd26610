-- ===== src/Production/Ledger/ReservedFunds.antt =====
-- Reservations, journals and the reserved amounts.
use swift.Prelude.{
  ℕ, ◌≡◌, refl, ◌∙◌, sym, ap, Bool, true, false, not, ◌&&◌, ◌||◌, some, List, All-append,
  All-update_found, arith, update_found, find-eq_some, ◌==◌, ==_iff, is_some, if◌then◌else◌,
}
use mathlib.Core.Path.{subst}
use swift.Prelude.Int.{ℤ, pos, pos_part, neg_part, ◌+ℤ◌, ◌-ℤ◌, ◌≤ℤ◌, ltb_ℤ, leb_ℤ, int_laws}
use swift.Prelude.Exec.Keeps.{OnOk, Keeps}
use swift.Prelude.Exec.Returns.{OnOk-raise_if, OnOk-or_raise, OnOk-if}
use swift.Production.Ledger.{
  Account, Reservation, ReservationState, Hold, Books, find_account, find_active, find_reservation,
  is_reserved, set_aside, give_back, spend, at_least_zero, reserve_new, reserve, release_reserved,
  consume_reserved, release, consume,
}
use swift.Production.Ledger.Rows.{sum, sum-append, sum-update_found}
use swift.Production.Ledger.Posting.{found_active}
use swift.Production.Ledger.Reserving.{
  open_reservation, open_hold, reserved_at, IsReserved, weight-le-sum, sum_nonneg,
  open_reservation_nonneg, open_hold_nonneg, reserved_at-by, at_least_zero_of_le,
}

-- `x` more is reserved, and a new row is open for it.
pub more :
    (here : Bool) (old now r h x : ℤ)
    → old ≡ r +ℤ h
    → now ≡ (if here then old +ℤ x else old)
    → now ≡ (r +ℤ ((if here then x else pos 0) +ℤ pos 0)) +ℤ h
more true old now r h x e g =
    omega (int_laws, ap pos_part e, ap neg_part e, ap pos_part g, ap neg_part g)
more false old now r h x e g =
    omega (int_laws, ap pos_part e, ap neg_part e, ap pos_part g, ap neg_part g)

-- `x` less is reserved, and a row is no longer open for it.
pub less :
    (here : Bool) (old now r r' h x w : ℤ)
    → old ≡ r +ℤ h
    → r' +ℤ (if here then x else pos 0) ≡ r +ℤ w
    → w ≡ pos 0
    → now ≡ (if here then old -ℤ x else old)
    → now ≡ r' +ℤ h
less true old now r r' h x w e f z g = omega (
  int_laws,
  ap pos_part e,
  ap neg_part e,
  ap pos_part f,
  ap neg_part f,
  ap pos_part g,
  ap neg_part g,
  ap pos_part z,
  ap neg_part z,
)
less false old now r r' h x w e f z g = omega (
  int_laws,
  ap pos_part e,
  ap neg_part e,
  ap pos_part f,
  ap neg_part f,
  ap pos_part g,
  ap neg_part g,
  ap pos_part z,
  ap neg_part z,
)

pub and_true : (b : Bool) → (b && true) ≡ b
and_true true = refl
and_true false = refl

pub and_false : (b : Bool) → (b && false) ≡ false
and_false true = refl
and_false false = refl

reserve_new-IsReserved :
    (a : Account) (id : ℕ) (x : ℤ) (c : ℕ) (db : Books)
    → find_account a.account_id db.accounts ≡ some a
    → IsReserved db
    → OnOk IsReserved (reserve_new a id x c db)
unfolding reserve_new sum
reserve_new-IsReserved a id x c db found h =
    OnOk-raise_if IsReserved (leb_ℤ x (pos 0) || ltb_ℤ (a.balance -ℤ a.reserved) x) _ _ db λ room.
      let positive : pos 0 ≤ℤ x = ground arith in
      record {
        exact = λ j.
            more (a.account_id == j) (reserved_at j db.accounts) _
              (sum (open_reservation j) db.reservations) (sum (open_hold j) db.holds) x (h.exact j)
              (reserved_at-by a.account_id (set_aside x) (λ b. refl) db.accounts a found
                (λ r. r +ℤ x) refl j)
            ∙ rw (sum-append (open_reservation j) db.reservations _, and_true) refl;
        amounts = All-append (λ r. pos 0 ≤ℤ r.amount) db.reservations _ h.amounts (positive, tt);
        hold_amounts = h.hold_amounts;
      }

pub found_by_id :
    (id : ℕ) (accounts : List Account) (a : Account)
    → find_account id accounts ≡ some a
    → find_account a.account_id accounts ≡ some a
found_by_id id accounts a found =
    let same : a.account_id ≡ id =
      (==_iff a.account_id id).0 (find-eq_some (λ b. b.account_id == id) accounts a found) in
    subst (λ k. find_account k accounts ≡ some a) (sym same) found

pub reserve-IsReserved : (id r : ℕ) (x : ℤ) (c : ℕ) → Keeps IsReserved (reserve id r x c)
unfolding reserve
reserve-IsReserved id r x c = record {
  at = λ db h. OnOk-or_raise IsReserved (find_active id db.accounts) _ _ db λ a active.
      OnOk-raise_if IsReserved (not (a.currency == c)) _ _ db λ same.
        OnOk-if IsReserved (is_some (find_reservation r db.reservations)) _ _ db (λ old. h)
          λ new.
            reserve_new-IsReserved a r x c db
              (found_by_id id db.accounts a (found_active id db.accounts a active)) h;
}

-- A reservation is closed, and its account's row is written by `f`.
module _ (db : Books) (r : Reservation) (a : Account) (f : Account → Account)
    (state : ReservationState)
    (recorded : find_reservation r.reservation_id db.reservations ≡ some r)
    (is_open_row : is_reserved r.state ≡ true)
    (found : find_account r.funding_reference db.accounts ≡ some a)
    (same_id : (b : Account) → (f b).account_id ≡ b.account_id)
    (lowers : (f a).reserved ≡ at_least_zero (a.reserved -ℤ r.amount))
    (shuts : is_reserved state ≡ false) where
  abbrev closed : Books
  closed = record db {
    accounts = update_found (λ b. b.account_id == a.account_id) f db.accounts;
    reservations =
        update_found (λ q. q.reservation_id == r.reservation_id) (λ q. record q { state = state })
          db.reservations;
  }

  account_id_eq : a.account_id ≡ r.funding_reference
  account_id_eq =
      (==_iff a.account_id r.funding_reference).0
        (find-eq_some (λ b. b.account_id == r.funding_reference) db.accounts a found)

  here_or_not : (j : ℕ) → open_reservation j r ≡ (if a.account_id == j then r.amount else pos 0)
  here_or_not j = rw (is_open_row, and_true, account_id_eq) refl

  covered : IsReserved db → r.amount ≤ℤ a.reserved
  covered h =
      let own : open_reservation a.account_id r ≡ r.amount =
        rw (here_or_not a.account_id, (==_iff a.account_id a.account_id).1 refl) refl in
      let at : reserved_at a.account_id db.accounts ≡ a.reserved = rw (account_id_eq, found) refl in
      let w =
        weight-le-sum (open_reservation a.account_id) Reservation.amount
          (open_reservation_nonneg a.account_id) (λ q. q.reservation_id == r.reservation_id)
          db.reservations r h.amounts recorded in
      let n =
        sum_nonneg (open_hold a.account_id) Hold.amount (open_hold_nonneg a.account_id) db.holds
          h.hold_amounts in
      let e = h.exact a.account_id in
      omega (
        int_laws,
        w,
        n,
        ap pos_part e,
        ap neg_part e,
        ap pos_part own,
        ap neg_part own,
        ap pos_part at,
        ap neg_part at,
      )

  closed-IsReserved : IsReserved db → IsReserved closed
  closed-IsReserved h = record {
    exact = λ j.
        less (a.account_id == j) (reserved_at j db.accounts) _
          (sum (open_reservation j) db.reservations) (sum (open_reservation j) closed.reservations)
          (sum (open_hold j) db.holds) r.amount (open_reservation j (record r { state = state }))
          (h.exact j)
          (subst
            (λ w.
              sum (open_reservation j) closed.reservations +ℤ w
              ≡ sum (open_reservation j) db.reservations
                +ℤ open_reservation j (record r { state = state }))
            (here_or_not j)
            (sum-update_found (open_reservation j) (λ q. q.reservation_id == r.reservation_id)
              (λ q. record q { state = state }) db.reservations r recorded))
          (rw (shuts, and_false) refl)
          (reserved_at-by a.account_id f same_id db.accounts a
            (found_by_id r.funding_reference db.accounts a found) (λ y. y -ℤ r.amount)
            (lowers ∙ at_least_zero_of_le a.reserved r.amount (covered h)) j);
    amounts =
        All-update_found (λ q. pos 0 ≤ℤ q.amount) (λ q. q.reservation_id == r.reservation_id)
          (λ q. record q { state = state }) db.reservations (λ q e k. k) h.amounts;
    hold_amounts = h.hold_amounts;
  }

recorded_by_id :
    (id : ℕ) (rs : List Reservation) (r : Reservation)
    → find_reservation id rs ≡ some r
    → find_reservation r.reservation_id rs ≡ some r
recorded_by_id id rs r found =
    let same : r.reservation_id ≡ id =
      (==_iff r.reservation_id id).0 (find-eq_some (λ b. b.reservation_id == id) rs r found) in
    subst (λ k. find_reservation k rs ≡ some r) (sym same) found

pub release-IsReserved : (id : ℕ) → Keeps IsReserved (release id)
unfolding release release_reserved
release-IsReserved id = record {
  at = λ db h. OnOk-or_raise IsReserved (find_reservation id db.reservations) _ _ db λ r recorded.
      OnOk-if IsReserved (is_reserved r.state) _ _ db
        (λ open_row.
          OnOk-or_raise IsReserved (find_account r.funding_reference db.accounts) _ _ db λ a found.
            closed-IsReserved db r a (give_back r.amount) ReservationState.released
              (recorded_by_id id db.reservations r recorded) open_row found (λ b. refl) refl refl h)
        (λ done. h);
}

pub consume-IsReserved : (id : ℕ) → Keeps IsReserved (consume id)
unfolding consume consume_reserved
consume-IsReserved id = record {
  at = λ db h. OnOk-or_raise IsReserved (find_reservation id db.reservations) _ _ db λ r recorded.
      OnOk-if IsReserved (is_reserved r.state) _ _ db
        (λ open_row.
          OnOk-or_raise IsReserved (find_account r.funding_reference db.accounts) _ _ db λ a found.
            OnOk-raise_if IsReserved (ltb_ℤ (a.balance -ℤ r.amount) (pos 0)) _ _ db λ covers.
              closed-IsReserved db r a (spend r.amount) ReservationState.consumed
                (recorded_by_id id db.reservations r recorded) open_row found (λ b. refl) refl refl
                h)
        (λ done. h);
}
