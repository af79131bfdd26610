-- ===== src/Nextgen/Cips/Routing/Order.antt =====
-- The order of the candidates, and which participants they are.
use swift.Prelude.{
  ℕ, ◌+◌, ◌<◌, ◌≤◌, ◌≡◌, ◌⊎◌, refl, ◌∙◌, Bool, true, false, ◌&&◌, Option, List, [], ◌∷◌, arith,
  count, All, Bool-cases, inl, inr, ◌==◌, if◌then◌else◌, ltb,
}
use swift.Prelude.Sorting.{sort-IsSorted, count-sort, IsSorted, All-map_to}
use swift.Nextgen.Store.{Participant, Db}
use swift.Nextgen.Cips.Routing.{
  Candidate, candidate, candidates, member, same_bic, award, goes_first, route_candidates,
}

goes_first_trans :
    (c d e : Candidate) → goes_first c d ≡ true → goes_first d e ≡ true → goes_first c e ≡ true
goes_first_trans c d e h k = ground arith

goes_first_total : (c d : Candidate) → goes_first c d ≡ false → goes_first d c ≡ true
goes_first_total c d h = ground arith

-- `c` has the higher score, or the same score and a name that is not greater.
abbrev pub Before : Candidate → Candidate → Type 0
Before c d = (d.score < c.score) ⊎ ((c.score ≡ d.score) × (c.participant_id ≤ d.participant_id))

-- Each candidate stands before all that follow it.
abbrev pub BestFirst : List Candidate → Type 0
BestFirst [] = Unit
BestFirst (c ∷ rest) = All (Before c) rest × BestFirst rest

-- The points of a participant: 50 if it is direct, 30 for its country and 100 for its BIC.
abbrev pub points_of : ℕ → Option ℕ → Participant → ℕ
points_of country bic p =
    (if p.direct then 50 else 0)
    + ((if p.country == country then 30 else 0) + (if same_bic bic p.bic then 100 else 0))

-- The participant with the name `id` takes part, can do what is asked and has `n` points.
abbrev pub qualifies : ℕ → ℕ → Option ℕ → ℕ → ℕ → Participant → Bool
qualifies country capability bic id n p =
    p.active
    && (member capability p.capabilities
        && (p.participant_id == id && points_of country bic p == n))

abbrev pub is_scored : ℕ → ℕ → Candidate → Bool
is_scored id n c = c.participant_id == id && c.score == n

BestFirst-sorted : (cs : List Candidate) → IsSorted goes_first cs → BestFirst cs
BestFirst-sorted [] h = tt
BestFirst-sorted (c ∷ rest) h = (All-map_to _ _ rest before h.0, BestFirst-sorted rest h.1)
  where
    before : (d : Candidate) → goes_first c d ≡ true → Before c d
    before d k = elim (Bool-cases (ltb d.score c.score)) [
      | inl e ↦ inl (ground arith)
      | inr e ↦ inr (ground arith)
    ]

is_scored-candidate :
    (country : ℕ) (bic : Option ℕ) (id n : ℕ) (p : Participant)
    → is_scored id n (candidate country bic p)
      ≡ (p.participant_id == id && points_of country bic p == n)
is_scored-candidate country bic id n p =
    rw (sum p.direct (p.country == country) (same_bic bic p.bic)) refl
  where
    sum :
        (a b c : Bool)
        → award a 50 + award b 30 + award c 100
          ≡ (if a then 50 else 0) + ((if b then 30 else 0) + (if c then 100 else 0))
    sum a b c = omega arith

count-candidates :
    (country capability : ℕ) (bic : Option ℕ) (id n : ℕ) (ps : List Participant)
    → count (is_scored id n) (candidates country capability bic ps)
      ≡ count (qualifies country capability bic id n) ps
unfolding candidates
count-candidates country capability bic id n [] = refl
count-candidates country capability bic id n (p ∷ ps) =
    let rest = count-candidates country capability bic id n ps in
    elim (Bool-cases p.active) [
      | inr e ↦ rw e rest
      | inl e ↦ elim (Bool-cases (member capability p.capabilities)) [
        | inr k ↦ rw (e, k) rest
        | inl k ↦ rw (e, k, is_scored-candidate country bic id n p, rest) refl
      ]
    ]

-- Each candidate has a higher score than every one after it, or the same score and a name that is
-- not greater; and for each name and number of points, the candidates with that name and score are
-- as many as the active participants with that name which have the capability and that many
-- points: 50 if direct, 30 for the country and 100 for the BIC asked for.
pub route_candidates-BestFirst :
    (country capability : ℕ) (bic : Option ℕ) (db : Db)
    → BestFirst (route_candidates country capability bic db)
      × ((id n : ℕ)
          → count (is_scored id n) (route_candidates country capability bic db)
            ≡ count (qualifies country capability bic id n) db.participants)
unfolding route_candidates
route_candidates-BestFirst country capability bic db =
    let cs = candidates country capability bic db.participants in
    (
      BestFirst-sorted _ (sort-IsSorted goes_first goes_first_total goes_first_trans cs),
      λ id n.
          count-sort goes_first (is_scored id n) cs
          ∙ count-candidates country capability bic id n db.participants,
    )
