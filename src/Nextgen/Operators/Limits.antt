-- ===== src/Nextgen/Operators/Limits.antt =====
-- The operators' limits and the ledger below.
use swift.Prelude.{
  ℕ, ◌≡◌, sym, ◌∙◌, true, false, ◌||◌, some, List, [], ◌∷◌, ◌++◌, arith, All, All-append,
  All-update_found, Option-cases, Bool-cases, inl, inr, ◌==◌,
}
use mathlib.Core.Path.{subst}
use mathlib.Core.Option.{some-injective}
use swift.Prelude.Int.{ℤ, pos, ◌+ℤ◌, ◌≤ℤ◌, leb_ℤ, ltb_ℤ, int_laws}
use swift.Prelude.Exec.{
  Exec, Result, ok, err, pure, modify, map_error, continue, atomic, ◌>>=◌, ◌>>◌,
}
use swift.Prelude.Exec.Keeps.{OnOk, Keeps, Keeps-pure, Keeps-bind, Keeps-atomic}
use swift.Ecny.Store.{Db as Ledger, Error as LedgerError, OwnerType, cny, find_account}
use swift.Ecny.Ledger.{get_or_create_account, mint, burn}
use swift.Ecny.Ledger.Soundness.{IsSound}
use swift.Ecny.Api.Soundness.{mint-IsSound, burn-IsSound, insert_account-IsSound}
use swift.Nextgen.Operators.{
  Operator, Books, ledger_raised, on_ledger, find_operator, write_operator, issued_more,
  issued_less, register, issue, redeem,
}

abbrev pub IsWithin : Operator → Type 0
IsWithin o = (pos 0 ≤ℤ o.issued_amount) × (o.issued_amount ≤ℤ o.issuance_limit)

pub record Controlled (books : Books) : Type 0 where
  pub sound : IsSound books.ledger
  pub within : All IsWithin books.operators

on_ledger-Controlled :
    {A : Type 0} (m : Exec Ledger LedgerError A) → Keeps IsSound m → Keeps Controlled (on_ledger m)
on_ledger-Controlled {A = A} m k = record {
  at = λ books h.
      lifted books h.within (m books.ledger).0 (m books.ledger).1 (k.at books.ledger h.sound);
}
  where
    lifted :
        (books : Books)
        → All IsWithin books.operators
        → (r : Result LedgerError A) (l : Ledger) → OnOk IsSound (r, l)
        → OnOk Controlled (map_error ledger_raised r, record books { ledger = l })
    lifted books w (ok a) l s = record { sound = s; within = w }
    lifted books w (err e) l s = tt

get_or_create_account-IsSound :
    (id : ℕ) (t : OwnerType) (ref currency : ℕ)
    → Keeps IsSound (get_or_create_account id t ref currency)
unfolding get_or_create_account
get_or_create_account-IsSound id t ref currency = record {
  at = λ db s. elim (Option-cases (find_account id db.accounts)) [
    | inl e ↦ rw e ((insert_account-IsSound id t ref currency).at db s)
    | inr (a, e) ↦ rw e s
  ];
}

-- What follows a call of the ledger on the row of an operator.
then_write :
    (m : Exec Ledger LedgerError ℕ) (id : ℕ) (f : Operator → Operator) (o : Operator)
    (books : Books)
    → Keeps IsSound m
    → find_operator id books.operators ≡ some o
    → (IsWithin o → IsWithin (f o))
    → Controlled books
    → OnOk Controlled ((on_ledger m >>= λ tx. modify (write_operator id f) >> pure tx) books)
then_write m id f o books k found keeps h =
    written (m books.ledger).0 (m books.ledger).1 (k.at books.ledger h.sound)
  where
    written :
        (r : Result LedgerError ℕ) (l : Ledger)
        → OnOk IsSound (r, l)
        → OnOk Controlled (
            continue
              (map_error ledger_raised r)
              (λ tx. modify (write_operator id f) >> pure tx)
              (record books { ledger = l }))
    written (ok a) l s = record {
      sound = s;
      within =
          All-update_found IsWithin (λ q. q.operator_id == id) f books.operators
            (λ q e.
              subst (λ p. IsWithin p → IsWithin (f p)) (some-injective o q (sym found ∙ e)) keeps)
            h.within;
    }
    written (err e) l s = tt

more-IsWithin :
    (x : ℤ) (o : Operator)
    → leb_ℤ x (pos 0) || ltb_ℤ o.issuance_limit (o.issued_amount +ℤ x) ≡ false
    → IsWithin o
    → IsWithin (issued_more x o)
more-IsWithin x o h w =
    let positive : pos 0 ≤ℤ x = ground arith in
    let room : o.issued_amount +ℤ x ≤ℤ o.issuance_limit = ground arith in
    (omega (int_laws, w.0, positive), room)

less-IsWithin :
    (x : ℤ) (o : Operator)
    → leb_ℤ x (pos 0) || ltb_ℤ o.issued_amount x ≡ false
    → IsWithin o
    → IsWithin (issued_less x o)
less-IsWithin x o h w =
    let positive : pos 0 ≤ℤ x = ground arith in
    let covered : x ≤ℤ o.issued_amount = ground arith in
    (omega (int_laws, covered), omega (int_laws, w.1, positive))

module _ (account_of : ℕ → ℕ) where
  pub issue-Controlled : (id : ℕ) (x : ℤ) → Keeps Controlled (issue account_of id x)
  unfolding issue
  issue-Controlled id x = record {
    at = λ books h. elim (Option-cases (find_operator id books.operators)) [
      | inl e ↦ rw e tt
      | inr (o, e) ↦ elim (Bool-cases o.active) [
        | inr a ↦ rw e (rw a tt)
        | inl a ↦
            elim (Bool-cases (leb_ℤ x (pos 0) || ltb_ℤ o.issuance_limit (o.issued_amount +ℤ x))) [
              | inl t ↦ rw e (simp (a, t) tt)
              | inr t ↦ rw e (
                  simp (a, t)
                    (then_write (mint (account_of id) x) id (issued_more x) o books
                      (mint-IsSound (account_of id) x) e (more-IsWithin x o t) h))
            ]
      ]
    ];
  }

  redeem-Controlled : (id : ℕ) (x : ℤ) → Keeps Controlled (redeem account_of id x)
  unfolding redeem
  redeem-Controlled id x = record {
    at = λ books h. elim (Option-cases (find_operator id books.operators)) [
      | inl e ↦ rw e tt
      | inr (o, e) ↦ elim (Bool-cases (leb_ℤ x (pos 0) || ltb_ℤ o.issued_amount x)) [
        | inl t ↦ rw (e, t) tt
        | inr t ↦
            rw (e, t)
              (then_write (burn (account_of id) x) id (issued_less x) o books
                (burn-IsSound (account_of id) x) e (less-IsWithin x o t) h)
      ]
    ];
  }

  register-Controlled :
      (id : ℕ) (limit reserve : ℤ) → Keeps Controlled (register account_of id limit reserve)
  unfolding register
  register-Controlled id limit reserve = record {
    at = λ books h. elim (Bool-cases (leb_ℤ limit (pos 0) || ltb_ℤ reserve (pos 0))) [
      | inl t ↦ rw t tt
      | inr t ↦ elim (Option-cases (find_operator id books.operators)) [
        | inr (o, e) ↦ rw (t, e) tt
        | inl e ↦
            rw (t, e)
              ((Keeps-bind
                  (on_ledger (get_or_create_account (account_of id) OwnerType.operator id cny))
                  (λ a. pure id)
                  (on_ledger-Controlled
                    (get_or_create_account (account_of id) OwnerType.operator id cny)
                    (get_or_create_account-IsSound (account_of id) OwnerType.operator id cny))
                  (λ a. Keeps-pure id)).at
                _ (added books h t))
      ]
    ];
  }
    where
      added :
          (books : Books)
          → Controlled books
          → leb_ℤ limit (pos 0) || ltb_ℤ reserve (pos 0) ≡ false
          → Controlled (record books {
            operators =
                books.operators
                ++ record {
                  operator_id = id;
                  issuance_limit = limit;
                  issued_amount = pos 0;
                  reserve_amount = reserve;
                  active = true;
                }
                  ∷ [];
          })
      added books h t = record {
        sound = h.sound;
        within =
            All-append IsWithin books.operators _ h.within (((ground arith), (ground arith)), tt);
      }

pub data Request : Type 0 where
  registered : ℕ → ℤ → ℤ → Request
  issued redeemed : ℕ → ℤ → Request

module _ (account_of : ℕ → ℕ) where
  abbrev pub perform : Request → Books → Books
  perform (registered id limit reserve) books =
      (atomic (register account_of id limit reserve) books).1
  perform (issued id x) books = (atomic (issue account_of id x) books).1
  perform (redeemed id x) books = (atomic (redeem account_of id x) books).1

  abbrev pub perform_all : List Request → Books → Books
  perform_all [] books = books
  perform_all (r ∷ rs) books = perform_all rs (perform r books)

  perform-Controlled :
      (r : Request) (books : Books) → Controlled books → Controlled (perform r books)
  perform-Controlled (registered id limit reserve) books h =
      Keeps-atomic _ (register-Controlled account_of id limit reserve) books h
  perform-Controlled (issued id x) books h =
      Keeps-atomic _ (issue-Controlled account_of id x) books h
  perform-Controlled (redeemed id x) books h =
      Keeps-atomic _ (redeem-Controlled account_of id x) books h

  -- Where the ledger is sound and no operator has issued less than nothing or more than its limit,
  -- this stays so under any requests to register, to issue and to redeem, in any order, whether
  -- they return or raise, and whatever the names of the operators' accounts are.
  pub perform_all-Controlled :
      (rs : List Request) (books : Books) → Controlled books → Controlled (perform_all rs books)
  perform_all-Controlled [] books h = h
  perform_all-Controlled (r ∷ rs) books h =
      perform_all-Controlled rs (perform r books) (perform-Controlled r books h)
