-- ===== src/Nextgen/Store/Payload.antt =====
-- The JSON values of a payload, and `_flatten` of backend/nextgen/payments.py. The fields of an
-- object are in the order of their keys, in which `_flatten` visits them; keys and scalars are
-- only compared or hashed.
use swift.Prelude.{ℕ, ◌+◌, List, [], ◌∷◌, ◌++◌}

mutual
  pub data Json : Type 0 where
    scalar : ℕ → Json
    object : Fields → Json
    array : Items → Json

  pub data Fields : Type 0 where
    end : Fields
    field : ℕ → Json → Fields → Fields

  pub data Items : Type 0 where
    nil : Items
    item : Json → Items → Items

-- A step of a path: `.key` or `[index]`.
pub data Step : Type 0 where
  key index : ℕ → Step

unfoldable mutual
  pub flatten : Json → List Step → List (List Step × Json)
  flatten (scalar n) prefix = (prefix, scalar n) ∷ []
  flatten (object fs) prefix = flatten_fields fs prefix
  flatten (array xs) prefix = flatten_items xs prefix 0

  pub flatten_fields : Fields → List Step → List (List Step × Json)
  flatten_fields end prefix = []
  flatten_fields (field k v fs) prefix =
      flatten v (prefix ++ key k ∷ []) ++ flatten_fields fs prefix

  pub flatten_items : Items → List Step → ℕ → List (List Step × Json)
  flatten_items nil prefix i = []
  flatten_items (item x xs) prefix i =
      flatten x (prefix ++ index i ∷ []) ++ flatten_items xs prefix (i + 1)
