-- ===== src/Nextgen/Cips/Routing.antt =====
-- backend/nextgen/cips.py, `route_candidates`: the participants that can take a payment, best
-- first. Participants' names are compared as strings there, and as numbers here.
pub mod Order
use swift.Prelude.Sorting.{sort}
use swift.Prelude.{
  ℕ, zero, suc, ◌+◌, ◌<◌, ◌≤◌, ◌≡◌, ◌≢◌, refl, ◌∙◌, Bool, true, false, not, ◌&&◌, ◌||◌, Option,
  none, some, List, [], ◌∷◌, arith, count, All, Bool-cases, inl, inr, ltb, leb, ◌==◌, if◌then◌else◌,
}
use swift.Nextgen.Store.{Participant, Db}

pub data Reason : Type 0 where
  direct_participant destination_jurisdiction exact_bic : Reason

pub record Candidate : Type 0 where
  pub participant_id : ℕ
  pub score : ℕ
  pub reasons : List Reason
  pub direct : Bool
  pub bic : Option ℕ
  pub country : ℕ

abbrev pub member : ℕ → List ℕ → Bool
member x [] = false
member x (y ∷ rest) = y == x || member x rest

-- `destination_bic and participant.bic == destination_bic`
abbrev pub same_bic : Option ℕ → Option ℕ → Bool
same_bic none bic = false
same_bic (some wanted) none = false
same_bic (some wanted) (some b) = b == wanted

abbrev pub award : Bool → ℕ → ℕ
award b points = if b then points else 0

abbrev note : Bool → Reason → List Reason → List Reason
note b reason rest = if b then reason ∷ rest else rest

abbrev pub candidate : ℕ → Option ℕ → Participant → Candidate
candidate country bic p = record {
  participant_id = p.participant_id;
  score = award p.direct 50 + award (p.country == country) 30 + award (same_bic bic p.bic) 100;
  reasons = note p.direct direct_participant (
      note (p.country == country) destination_jurisdiction
        (note (same_bic bic p.bic) exact_bic []));
  direct = p.direct;
  bic = p.bic;
  country = p.country;
}

-- The loop, on the rows in the order in which the query yields them.
unfoldable pub candidates : ℕ → ℕ → Option ℕ → List Participant → List Candidate
candidates country capability bic [] = []
candidates country capability bic (p ∷ rest) =
    let others = candidates country capability bic rest in
    if p.active && member capability p.capabilities
    then candidate country bic p ∷ others
    else others

-- The order of the keys `(-score, participant_id)`.
abbrev pub goes_first : Candidate → Candidate → Bool
goes_first c d =
    ltb d.score c.score || (d.score == c.score && leb c.participant_id d.participant_id)

-- `sorted`, which is stable.
abbrev pub sorted : List Candidate → List Candidate
sorted cs = sort goes_first cs

unfoldable pub route_candidates : ℕ → ℕ → Option ℕ → Db → List Candidate
route_candidates country capability bic db =
    sorted (candidates country capability bic db.participants)
