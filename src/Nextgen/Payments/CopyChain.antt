-- ===== src/Nextgen/Payments/CopyChain.antt =====
-- The hash chain of the copies of a payment.
use swift.Prelude.{
  ℕ, ◌≡◌, ◌≢◌, refl, true, false, Option, none, some, List, [], ◌∷◌, ◌++◌, arith, find, Bool-cases,
  Option-cases, inl, inr, ◌==◌,
}
use mathlib.Core.List.{append-nil}
use swift.Nextgen.Store.{Db, Copy}
use swift.Nextgen.Store.Payload.{Json}
use swift.Nextgen.Payments.{
  find_lifecycle, add_lens, copies_of, newest_hash, append_transaction_copy, same_hash, is_chain,
  verify_copy_chain,
}

same_hash_refl : (h : Option ℕ) → same_hash h h ≡ true
same_hash_refl none = refl
same_hash_refl (some a) = ground arith

-- A copy that carries the newest hash and its own hash does not change what the chain is.
is_chain-append :
    (hash : Json → ℕ) (previous : Option ℕ) (cs : List Copy) (c : Copy)
    → c.previous_hash ≡ newest_hash previous cs
    → c.payload_hash ≡ hash c.payload
    → is_chain hash previous (cs ++ c ∷ []) ≡ is_chain hash previous cs
unfolding is_chain
is_chain-append hash previous [] c hp hh = rw (hp, hh, same_hash_refl previous) (ground arith)
is_chain-append hash previous (d ∷ cs) c hp hh =
    rw (is_chain-append hash (some d.payload_hash) cs c hp hh) refl

copies_of-append :
    (uetr : ℕ) (cs : List Copy) (c : Copy)
    → copies_of uetr (cs ++ c ∷ []) ≡ copies_of uetr cs ++ copies_of uetr (c ∷ [])
copies_of-append uetr [] c = refl
copies_of-append uetr (d ∷ cs) c = elim (Bool-cases (d.uetr == uetr)) [
  | inl h ↦ rw (h, copies_of-append uetr cs c) refl
  | inr h ↦ rw (h, copies_of-append uetr cs c) refl
]

module _ (hash : Json → ℕ) (uetr id type : ℕ) (payload : Json) (party reason : ℕ) where
  -- A new copy never changes the verdict on a chain, be it the payment's own chain or another's,
  -- and whether the copy was taken or refused.
  pub append_keeps_verdict :
      (other : ℕ) (db : Db)
      → verify_copy_chain hash other
          (append_transaction_copy hash uetr id type payload party reason db).1
        ≡ verify_copy_chain hash other db
  unfolding append_transaction_copy verify_copy_chain add_lens
  append_keeps_verdict other db = elim (Option-cases (find_lifecycle uetr db.lifecycles)) [
    | inl h ↦ rw h refl
    | inr (l, h) ↦ elim (Option-cases (find (λ c. c.message_id == id) db.copies)) [
      | inr (c, m) ↦ rw (h, m) refl
      | inl m ↦ elim (Bool-cases (uetr == other)) [
        | inr e ↦
            rw (h, m, copies_of-append other db.copies _, e)
              (rw (append-nil (copies_of other db.copies)) refl)
        | inl e ↦
            let k : uetr ≡ other = ground arith in
            rw (h, m, copies_of-append other db.copies _, e)
              (is_chain-append hash none (copies_of other db.copies) _ (rw k refl) refl)
      ]
    ]
  ]

-- A payload that was changed after the copy was taken, its hash left as it was.
abbrev pub tampered : Json → Copy → Copy
tampered payload c = record c { payload = payload }

-- If a payload of a chain that verifies is replaced by one with another hash, at any place, the
-- chain no longer verifies.
pub tampering_shows :
    (hash : Json → ℕ) (previous : Option ℕ) (before after : List Copy) (c : Copy) (payload : Json)
    → is_chain hash previous (before ++ c ∷ after) ≡ true
    → hash payload ≢ hash c.payload
    → is_chain hash previous (before ++ tampered payload c ∷ after) ≡ false
unfolding is_chain
tampering_shows hash previous [] after c payload v d = ground arith
tampering_shows hash previous (b ∷ before) after c payload v d =
    ground (arith, tampering_shows hash (some b.payload_hash) before after c payload)
