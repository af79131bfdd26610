-- ===== src/Production/Entitlements/Matching.antt =====
-- The entitlement that `match` returns.
use swift.Prelude.{
  ℕ, ◌≡◌, refl, Bool, true, false, ◌&&◌, Option, none, some, List, arith, All, All-find, find,
  select, find-eq_some, Option-cases, inl, inr,
}
use mathlib.Core.List.{Mem}
use swift.Prelude.Exec.{Result, ok, err}
use swift.Prelude.Sorting.{
  sort, sort-All, sort-All_of, sort-IsSorted, All-map_to, All-Mem, All-select, All-of_select,
  find-none, find-first,
}
use swift.Production.Entitlements.{
  Entitlement, Store, EntitlementError, not_found, Query, in_effect, fits, goes_first, current_at,
  match,
}

abbrev pub permits : Query → ℕ → Entitlement → Bool
permits q current e = in_effect q current e && fits q e

-- The answer to a query: a row that permits it, newer than all others that do; an error if none does.
abbrev pub Answers : Query → ℕ → List Entitlement → Result EntitlementError Entitlement → Type 0
Answers q current rows (ok e) =
    Mem e rows
    × (permits q current e ≡ true)
    × All (λ r. permits q current r ≡ true → goes_first e r ≡ true) rows
Answers q current rows (err x) = (x ≡ not_found) × All (λ r. permits q current r ≡ false) rows

goes_first_refl : (e : Entitlement) → goes_first e e ≡ true
goes_first_refl e = ground arith

goes_first_total : (c d : Entitlement) → goes_first c d ≡ false → goes_first d c ≡ true
goes_first_total c d h = ground arith

goes_first_trans :
    (c d e : Entitlement) → goes_first c d ≡ true → goes_first d e ≡ true → goes_first c e ≡ true
goes_first_trans c d e h k = ground arith

module _ (q : Query) (current : ℕ) (rows : List Entitlement) where
  abbrev Kept : Entitlement → Type 0
  Kept r = (in_effect q current r ≡ true) × Mem r rows

  abbrev chosen : List Entitlement
  chosen = select (in_effect q current) rows

  both :
      (r : Entitlement)
      → in_effect q current r ≡ true
      → fits q r ≡ true
      → permits q current r ≡ true
  both r a b = rw (a, b) refl

  left : (r : Entitlement) → permits q current r ≡ true → in_effect q current r ≡ true
  left r h = ground arith

  right : (r : Entitlement) → permits q current r ≡ true → fits q r ≡ true
  right r h = ground arith

  neither :
      (r : Entitlement)
      → (in_effect q current r ≡ true → fits q r ≡ false)
      → permits q current r ≡ false
  neither r h = ground arith

  found-Answers :
      (e : Entitlement)
      → find (fits q) (sort goes_first chosen) ≡ some e
      → Answers q current rows (ok e)
  found-Answers e h =
      let kept : Kept e =
        All-find Kept (fits q) (sort goes_first chosen) e
          (sort-All goes_first Kept chosen
            (All-select (λ r. Mem r rows) (in_effect q current) rows (All-Mem rows)))
          h in
      let newest =
        find-first goes_first (fits q) (sort goes_first chosen) e goes_first_refl
          (sort-IsSorted goes_first goes_first_total goes_first_trans chosen) h in
      (
        kept.1,
        both e kept.0 (find-eq_some (fits q) (sort goes_first chosen) e h),
        All-map_to _ _ rows (λ r k p. k (left r p) (right r p))
            (All-of_select (λ r. fits q r ≡ true → goes_first e r ≡ true) (in_effect q current) rows
              (sort-All_of goes_first _ chosen newest)),
      )

  none-Answers :
      find (fits q) (sort goes_first chosen) ≡ none → Answers q current rows (err not_found)
  none-Answers h = (
    refl,
    All-map_to _ _ rows neither (
        All-of_select (λ r. fits q r ≡ false) (in_effect q current) rows
          (sort-All_of goes_first _ chosen (find-none (fits q) (sort goes_first chosen) h))),
  )

-- match returns an entitlement on record that is in effect and permits the payment, and that comes
-- before all others that do, by the version and then by the identifier, the highest first; it
-- raises exactly if none does, and changes nothing.
pub match_exact :
    (q : Query) (now : Option ℕ) (store : Store)
    → Answers q (current_at now store.clock) store.entitlements (match q now store).0
      × ((match q now store).1 ≡ store)
unfolding match
match_exact q now store =
    let current = current_at now store.clock in
    let rows = store.entitlements in
    elim (Option-cases (find (fits q) (sort goes_first (select (in_effect q current) rows)))) [
      | inl e ↦ rw e (none-Answers q current rows e, refl)
      | inr (r, e) ↦ rw e (found-Answers q current rows r e, refl)
    ]
