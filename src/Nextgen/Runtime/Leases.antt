-- ===== src/Nextgen/Runtime/Leases.antt =====
-- When `acquire` takes a lease, and when another holds it.
use swift.Prelude.{
  ℕ, ◌+◌, ◌≤◌, ◌<◌, ◌≡◌, ◌≢◌, ◌⊎◌, refl, ◌∙◌, true, false, Option, none, some, List, [], ◌∷◌, arith,
  update, find-append_none, Option-cases, Bool-cases, inl, inr, ◌==◌,
}
use Prim.{⊥}
use swift.Prelude.Exec.{Result, ok, err}
use swift.Nextgen.Store.{Db, Lease, Error, resource_locked}
use swift.Nextgen.Runtime.{find_lease, held_by_other, put_lease, acquire}

find-update_self :
    (resource : ℕ) (new old : Lease) (leases : List Lease)
    → new.resource ≡ resource
    → find_lease resource leases ≡ some old
    → find_lease resource (update (λ l. l.resource == new.resource) (λ l. new) leases) ≡ some new
find-update_self resource new old [] k h = cc
find-update_self resource new old (l ∷ rest) k h =
    ground (arith, find-update_self resource new old rest k)

find-put_lease :
    (resource : ℕ) (new : Lease) (leases : List Lease)
    → new.resource ≡ resource
    → find_lease resource (put_lease (find_lease resource leases) new leases) ≡ some new
find-put_lease resource new leases k = elim (Option-cases (find_lease resource leases)) [
  | inl e ↦ rw e (find-append_none (λ l. l.resource == resource) leases (new ∷ []) e ∙ ground arith)
  | inr (old, e) ↦ rw e (find-update_self resource new old leases k e)
]

-- The lease that is held after `acquire` returns.
pub record Holds (resource owner token until : ℕ) (db : Db) : Type 0 where
  pub lease : Lease
  pub stored : find_lease resource db.leases ≡ some lease
  pub owned : lease.owner ≡ owner
  pub token_fits : lease.token ≡ token
  pub expires : lease.expires_at ≡ until

-- No other owner holds the resource: there is no lease, or it is the caller's, or it has expired.
abbrev pub IsFree : ℕ → ℕ → Option Lease → Type 0
IsFree now owner none = Unit
IsFree now owner (some l) = (l.owner ≡ owner) ⊎ (l.expires_at ≤ now)

abbrev pub IsTaken : ℕ → ℕ → Option Lease → Type 0
IsTaken now owner none = ⊥
IsTaken now owner (some l) = (l.owner ≢ owner) × (now < l.expires_at)

abbrev pub Acquired : ℕ → ℕ → ℕ → Db → Result Error ℕ × Db → Type 0
Acquired resource owner ttl before (ok token, db) =
    IsFree before.now owner (find_lease resource before.leases)
    × Holds resource owner token (before.now + ttl) db
Acquired resource owner ttl before (err e, db) =
    (e ≡ resource_locked)
    × IsTaken before.now owner (find_lease resource before.leases)
    × (db.leases ≡ before.leases)

held-IsTaken :
    (o : Option Lease) (now owner : ℕ) → held_by_other o now owner ≡ true → IsTaken now owner o
held-IsTaken none now owner h = cc
held-IsTaken (some l) now owner h = (λ e. ground arith, ground arith)

held-IsFree :
    (o : Option Lease) (now owner : ℕ) → held_by_other o now owner ≡ false → IsFree now owner o
held-IsFree none now owner h = tt
held-IsFree (some l) now owner h = elim (Bool-cases (l.owner == owner)) [
  | inl e ↦ inl (ground arith)
  | inr e ↦ inr (ground arith)
]

-- If acquire returns, there was no lease on the resource, or it was the caller's own, or it had
-- expired, and the caller now holds it with the new token for the time asked for; if it raises, it
-- says that the resource is locked, another owner holds a lease that has not expired, and the
-- leases are as before.
pub acquire_takes :
    (resource owner ttl : ℕ) (db : Db)
    → Acquired resource owner ttl db (acquire resource owner ttl db)
unfolding acquire
acquire_takes resource owner ttl db =
    let lock = find_lease resource db.leases in
    elim (Bool-cases (held_by_other lock db.now owner)) [
      | inl h ↦ rw h (refl, held-IsTaken lock db.now owner h, refl)
      | inr h ↦ rw h (
        held-IsFree lock db.now owner h,
        record {
          lease = _;
          stored = find-put_lease resource _ db.leases refl;
          owned = refl;
          token_fits = refl;
          expires = refl;
        },
      )
    ]
