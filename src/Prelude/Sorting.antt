-- ===== src/Prelude/Sorting.antt =====
-- Insertion sort by a Boolean order, for the queries and the calls of `sorted` that name a key.
use mathlib.Core.Path.{◌≡◌, refl, sym, ◌∙◌, subst}
use mathlib.Core.Logic.{inl, inr}
use mathlib.Core.Bool.{Bool, true, false, true≢false}
use mathlib.Core.Option.{none, some, some-injective, none-ne-some}
use mathlib.Core.List.{List, [], ◌∷◌, Mem, mem-cons_self, mem-cons_of_mem}
use Prim.{absurd}
use native.Mathlib.Omega.{arith}
use swift.Prelude.Tests.{if◌then◌else◌, Bool-cases}
use swift.Prelude.Lists.{All, find, select, count}

module _ {ℓ} {A : Type ℓ} where
  unfoldable pub insert : (A → A → Bool) → A → List A → List A
  insert first x [] = x ∷ []
  insert first x (y ∷ rest) =
      let after = insert first x rest in if first x y then x ∷ y ∷ rest else y ∷ after

  unfoldable pub sort : (A → A → Bool) → List A → List A
  sort first [] = []
  sort first (x ∷ rest) = insert first x (sort first rest)

  -- Each element goes before those that follow it.
  abbrev pub IsSorted : (A → A → Bool) → List A → Type ℓ
  IsSorted first [] = Unit
  IsSorted first (x ∷ rest) = All (λ y. first x y ≡ true) rest × IsSorted first rest

  pub All-map_to {κ μ} :
      (P : A → Type κ) (Q : A → Type μ) (xs : List A) → ((x : A) → P x → Q x) → All P xs → All Q xs
  All-map_to P Q [] f h = tt
  All-map_to P Q (x ∷ rest) f h = (f x h.0, All-map_to P Q rest f h.1)

  pub All-Mem : (xs : List A) → All (λ x. Mem x xs) xs
  All-Mem [] = tt
  All-Mem (x ∷ rest) = (
    mem-cons_self,
    All-map_to (λ y. Mem y rest) (λ y. Mem y (x ∷ rest)) rest (λ y m. mem-cons_of_mem x m)
        (All-Mem rest),
  )

  pub All-select {κ} :
      (P : A → Type κ) (q : A → Bool) (xs : List A)
      → All P xs
      → All (λ x. (q x ≡ true) × P x) (select q xs)
  All-select P q [] h = tt
  All-select P q (x ∷ rest) h = elim (Bool-cases (q x)) [
    | inl e ↦ rw e ((e, h.0), All-select P q rest h.1)
    | inr e ↦ rw e (All-select P q rest h.1)
  ]

  -- What holds of the rows selected holds of all that the test takes.
  pub All-of_select {κ} :
      (P : A → Type κ) (q : A → Bool) (xs : List A)
      → All P (select q xs)
      → All (λ x. q x ≡ true → P x) xs
  All-of_select P q [] h = tt
  All-of_select P q (x ∷ rest) h = elim (Bool-cases (q x)) [
    | inl e ↦
        let both : All P (x ∷ select q rest) = rw e at h in
        (λ k. both.0, All-of_select P q rest both.1)
    | inr e ↦ (λ k. absurd (true≢false (sym k ∙ e)), All-of_select P q rest (rw e at h))
  ]

  pub find-none : (p : A → Bool) (xs : List A) → find p xs ≡ none → All (λ x. p x ≡ false) xs
  find-none p [] h = tt
  find-none p (x ∷ rest) h = elim (Bool-cases (p x)) [
    | inl e ↦ absurd (none-ne-some x (sym (rw e at h)))
    | inr e ↦ (e, find-none p rest (rw e at h))
  ]

  module _ (first : A → A → Bool) where
    insert-All {κ} :
        (P : A → Type κ) (x : A) (xs : List A) → P x → All P xs → All P (insert first x xs)
    unfolding insert
    insert-All P x [] p h = (p, tt)
    insert-All P x (y ∷ rest) p h = elim (Bool-cases (first x y)) [
      | inl e ↦ rw e (p, h)
      | inr e ↦ rw e (h.0, insert-All P x rest p h.1)
    ]

    insert-All_of {κ} :
        (P : A → Type κ) (x : A) (xs : List A) → All P (insert first x xs) → P x × All P xs
    unfolding insert
    insert-All_of P x [] h = (h.0, tt)
    insert-All_of P x (y ∷ rest) h = elim (Bool-cases (first x y)) [
      | inl e ↦ let whole : All P (x ∷ y ∷ rest) = rw e at h in (whole.0, whole.1)
      | inr e ↦
          let whole : All P (y ∷ insert first x rest) = rw e at h in
          let both = insert-All_of P x rest whole.1 in (both.0, (whole.0, both.1))
    ]

    pub sort-All {κ} : (P : A → Type κ) (xs : List A) → All P xs → All P (sort first xs)
    unfolding sort
    sort-All P [] h = tt
    sort-All P (x ∷ rest) h = insert-All P x (sort first rest) h.0 (sort-All P rest h.1)

    pub sort-All_of {κ} : (P : A → Type κ) (xs : List A) → All P (sort first xs) → All P xs
    unfolding sort
    sort-All_of P [] h = tt
    sort-All_of P (x ∷ rest) h =
        let both = insert-All_of P x (sort first rest) h in (both.0, sort-All_of P rest both.1)

    module _ (total : (x y : A) → first x y ≡ false → first y x ≡ true)
        (trans : (x y z : A) → first x y ≡ true → first y z ≡ true → first x z ≡ true) where
      insert-IsSorted :
          (x : A) (xs : List A) → IsSorted first xs → IsSorted first (insert first x xs)
      unfolding insert
      insert-IsSorted x [] s = (tt, tt)
      insert-IsSorted x (y ∷ rest) s = elim (Bool-cases (first x y)) [
        | inl e ↦ rw e (
          (
            e,
            All-map_to (λ z. first y z ≡ true) (λ z. first x z ≡ true) rest (λ z k. trans x y z e k)
                s.0,
          ),
          s,
        )
        | inr e ↦ rw e (
          insert-All (λ z. first y z ≡ true) x rest (total x y e) s.0,
          insert-IsSorted x rest s.1,
        )
      ]

      pub sort-IsSorted : (xs : List A) → IsSorted first (sort first xs)
      unfolding sort
      sort-IsSorted [] = tt
      sort-IsSorted (x ∷ rest) = insert-IsSorted x (sort first rest) (sort-IsSorted rest)

    -- The first row that fits goes before every other that fits.
    pub find-first :
        (p : A → Bool) (xs : List A) (a : A)
        → ((x : A) → first x x ≡ true)
        → IsSorted first xs
        → find p xs ≡ some a
        → All (λ x. p x ≡ true → first a x ≡ true) xs
    find-first p [] a self s h = tt
    find-first p (x ∷ rest) a self s h = elim (Bool-cases (p x)) [
      | inl e ↦
          let row : x ≡ a = some-injective x a (rw e at h) in
          subst (λ b. All (λ z. p z ≡ true → first b z ≡ true) (x ∷ rest)) row
            (
              λ k. self x,
              All-map_to (λ z. first x z ≡ true) (λ z. p z ≡ true → first x z ≡ true) rest
                  (λ z f k. f) s.0,
            )
      | inr e ↦ (λ k. absurd (true≢false (sym k ∙ e)), find-first p rest a self s.1 (rw e at h))
    ]

    count-insert :
        (q : A → Bool) (x : A) (xs : List A) → count q (insert first x xs) ≡ count q (x ∷ xs)
    unfolding insert
    count-insert q x [] = refl
    count-insert q x (y ∷ rest) = elim (Bool-cases (first x y)) [
      | inl e ↦ rw e refl
      | inr e ↦ rw (e, count-insert q x rest) (ground arith)
    ]

    count-cons :
        (q : A → Bool) (x : A) (xs ys : List A)
        → count q xs ≡ count q ys
        → count q (x ∷ xs) ≡ count q (x ∷ ys)
    count-cons q x xs ys h = ground arith

    -- None is lost.
    pub count-sort : (q : A → Bool) (xs : List A) → count q (sort first xs) ≡ count q xs
    unfolding sort
    count-sort q [] = refl
    count-sort q (x ∷ rest) =
        count-insert q x (sort first rest)
        ∙ count-cons q x (sort first rest) rest (count-sort q rest)
