-- ===== src/Production/Entitlements/Approval.antt =====
-- What the requests ask of the entitlements on record.
use swift.Prelude.{
  ℕ, ◌≡◌, sym, Bool, true, false, not, ◌||◌, Option, none, some, List, [], ◌∷◌, arith, All,
  All-append, All-update_found, Option-cases, Bool-cases, inl, inr, ◌==◌,
}
use Prim.{absurd}
use mathlib.Core.Bool.{true≢false}
use swift.Prelude.Int.{pos, ◌≤ℤ◌, ltb_ℤ}
use swift.Prelude.Exec.{atomic}
use swift.Prelude.Exec.Keeps.{Keeps, Keeps-atomic}
use swift.Production.Entitlements.{
  EntitlementStatus, Entitlement, Store, Terms, is_active, is_pending, is_blank, ends_by, activated,
  create_pending, activate, revoke, find_entitlement,
}

abbrev blank : Option (List ℕ) → Bool
blank none = true
blank (some text) = is_blank text

-- The amounts are a band of nothing or more, the window ends after its start, and an active
-- entitlement names who approved it.
pub record IsValid (e : Entitlement) : Type 0 where
  pub band : (pos 0 ≤ℤ e.min_amount_minor) × (e.min_amount_minor ≤ℤ e.max_amount_minor)
  pub window : ends_by e.effective_from e.effective_to ≡ false
  pub approved : is_active e.status ≡ true → blank e.approved_by ≡ false

pub record AllValid (store : Store) : Type 0 where
  pub entitlements : All IsValid store.entitlements

create_pending-AllValid : (t : Terms) → Keeps AllValid (create_pending t)
unfolding create_pending
create_pending-AllValid t = record {
  at = λ store h.
      elim (Bool-cases
        (ltb_ℤ t.min_amount_minor (pos 0) || ltb_ℤ t.max_amount_minor t.min_amount_minor)) [
          | inl b ↦ rw b tt
          | inr b ↦ elim (Bool-cases (ends_by t.effective_from t.effective_to)) [
            | inl w ↦ rw (b, w) tt
            | inr w ↦
                rw (b, w)
                  (record {
                    entitlements = All-append IsValid store.entitlements _ h.entitlements (
                      record {
                        band = (ground arith, ground arith);
                        window = w;
                        approved = λ a. absurd (true≢false (sym a));
                      },
                      tt,
                    );
                  })
          ]
        ];
}

activate-AllValid :
    (id maker checker : ℕ) (by : List ℕ) → Keeps AllValid (activate id maker checker by)
unfolding activate
activate-AllValid id maker checker by = record {
  at = λ store h. elim (Option-cases (find_entitlement id store.entitlements)) [
    | inl n ↦ rw n tt
    | inr (e, n) ↦
        elim (Bool-cases (not (is_pending e.status) || maker == checker || is_blank by)) [
          | inl g ↦ rw (n, g) tt
          | inr g ↦
              let named : is_blank by ≡ false = ground arith in
              rw (n, g)
                (record {
                  entitlements =
                      All-update_found IsValid (λ r. r.id == id) (activated by) store.entitlements
                        (λ r q v. record {
                          band = v.band;
                          window = v.window;
                          approved = λ a. named;
                        })
                        h.entitlements;
                })
        ]
  ];
}

revoke-AllValid : (id maker checker : ℕ) → Keeps AllValid (revoke id maker checker)
unfolding revoke
revoke-AllValid id maker checker = record {
  at = λ store h. elim (Option-cases (find_entitlement id store.entitlements)) [
    | inl n ↦ rw n tt
    | inr (e, n) ↦ elim (Bool-cases (not (is_active e.status) || maker == checker)) [
      | inl g ↦ rw (n, g) tt
      | inr g ↦
          rw (n, g)
            (record {
              entitlements =
                  All-update_found IsValid (λ r. r.id == id)
                    (λ r. record r { status = EntitlementStatus.revoked }) store.entitlements
                    (λ r q v. record {
                      band = v.band;
                      window = v.window;
                      approved = λ a. absurd (true≢false (sym a));
                    })
                    h.entitlements;
            })
    ]
  ];
}

pub data Request : Type 0 where
  created : Terms → Request
  activation : ℕ → ℕ → ℕ → List ℕ → Request
  revocation : ℕ → ℕ → ℕ → Request

abbrev pub perform : Request → Store → Store
perform (created t) store = (atomic (create_pending t) store).1
perform (activation id maker checker by) store = (atomic (activate id maker checker by) store).1
perform (revocation id maker checker) store = (atomic (revoke id maker checker) store).1

abbrev pub perform_all : List Request → Store → Store
perform_all [] store = store
perform_all (r ∷ rs) store = perform_all rs (perform r store)

perform-AllValid : (r : Request) (store : Store) → AllValid store → AllValid (perform r store)
perform-AllValid (created t) store h = Keeps-atomic _ (create_pending-AllValid t) store h
perform-AllValid (activation id maker checker by) store h =
    Keeps-atomic _ (activate-AllValid id maker checker by) store h
perform-AllValid (revocation id maker checker) store h =
    Keeps-atomic _ (revoke-AllValid id maker checker) store h

-- Where every entitlement has a band of amounts of nothing or more, a window that ends after its
-- start, and, if it is active, the name of who approved it, this stays so under any requests to
-- create, to activate and to revoke entitlements, in any order, whether they return or raise.
pub perform_all-AllValid :
    (rs : List Request) (store : Store) → AllValid store → AllValid (perform_all rs store)
perform_all-AllValid [] store h = h
perform_all-AllValid (r ∷ rs) store h =
    perform_all-AllValid rs (perform r store) (perform-AllValid r store h)
