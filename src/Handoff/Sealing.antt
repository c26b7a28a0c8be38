-- ===== src/Handoff/Sealing.antt =====
-- What a call of `complete` does where a receipt is sealed already, and where it raises.
use laneq.Common.{
  ℕ, ◌≡◌, ◌≢◌, refl, ap, ◌∙◌, Bool, true, false, Option, some, ok, err, Error, precondition,
  Result-cases, Bool-cases, ◌&&◌, inl, inr, ◌⊎◌,
}
use laneq.Text.{Text, text_eq}
use laneq.Text.Order.{text_eq_refl, eq_of_text_eq}
use laneq.Clock.{Env}
use laneq.Database.{HandoffRow, Db, connect}
use laneq.Action.{pure, continue, or_rollback, ◌>>=◌}
use laneq.Action.Returns.{or_rollback-err, or_rollback-ok, or_rollback-cases}
use laneq.Contract.{Value, Handoff, check_text, parse_handoff}
use laneq.Handoff.{
  find_receipt, sealed, settle, sealed_receipt, or_commit, require_item_id, complete,
}

-- The arguments of a call that `complete` accepts, and the manifest that it parses.
pub record IsRequest (item_id : ℕ) (token : Text) (v : Value) (env : Env) (m : Handoff)
    : Type 0 where
  pub valid_id : require_item_id item_id ≡ ok tt
  pub valid_token : check_text token 256 ≡ ok token
  pub parsed : parse_handoff env.sha256 v ≡ ok m

text_ne : (a b : Text) → a ≢ b → text_eq a b ≡ false
text_ne a b ne = elim (Bool-cases (text_eq a b)) [
  | inl e ↦ absurd (ne (eq_of_text_eq a b e))
  | inr e ↦ e
]

and_false : (b : Bool) → (b && false) ≡ false
and_false true = refl
and_false false = refl

module _ (env : Env) (i : ℕ) (token : Text) (m : Handoff) (db : Db) where
  pub settle_lem :
      (found : Option HandoffRow)
      → find_receipt i db.receipts ≡ found
      → settle env i token m db
        ≡ continue (sealed token m.digest found) (or_commit env i token m) db
  unfolding settle sealed_receipt ◌>>=◌
  settle_lem found f = rw f refl

  settle_sealed :
      {row : HandoffRow}
      → find_receipt i db.receipts ≡ some row
      → row.claim_token ≡ token
      → row.manifest_digest ≡ m.digest
      → settle env i token m db ≡ (ok row.receipt, db)
  unfolding sealed or_commit pure
  settle_sealed {row} f t d =
      settle_lem (some row) f ∙ rw (t, d, text_eq_refl token, text_eq_refl m.digest) refl

  settle_conflict :
      {row : HandoffRow}
      → find_receipt i db.receipts ≡ some row
      → (row.claim_token ≢ token) ⊎ (row.manifest_digest ≢ m.digest)
      → settle env i token m db ≡ (err precondition, db)
  unfolding sealed
  settle_conflict {row} f (inl t) =
      settle_lem (some row) f ∙ rw (text_ne row.claim_token token t) refl
  settle_conflict {row} f (inr d) =
      settle_lem (some row) f
      ∙ rw (text_ne row.manifest_digest m.digest d, and_false (text_eq row.claim_token token)) refl

module _ (i : ℕ) (token : Text) (v : Value) (env : Env) (db : Db) where
  pub complete_lem :
      {m : Handoff}
      → IsRequest i token v env m
      → complete i token v env db ≡ or_rollback true (settle env i token m) (connect db)
  unfolding complete ◌>>=◌
  complete_lem q = rw (q.valid_id, q.valid_token, q.parsed) refl

  -- A call that raises leaves no trace: the database is the one from before, or what `connect`
  -- makes of it.
  pub complete-err :
      {e : Error}
      → (complete i token v env db).0 ≡ err e
      → ((complete i token v env db).1 ≡ db) ⊎ ((complete i token v env db).1 ≡ connect db)
  unfolding complete ◌>>=◌
  complete-err h = elim (Result-cases (require_item_id i)) [
    | inr (x, a) ↦ inl (rw a refl)
    | inl (u, a) ↦ elim (Result-cases (check_text token 256)) [
      | inr (x, b) ↦ inl (rw (a, b) refl)
      | inl (t, b) ↦ elim (Result-cases (parse_handoff env.sha256 v)) [
        | inr (x, c) ↦ inl (rw (a, b, c) refl)
        | inl (m, c) ↦ elim (or_rollback-cases (settle env i t m) (connect db)) [
          | inl (x, d) ↦ inr (rw (a, b, c) (ap (λ p. p.1) d))
          | inr (r, _, o) ↦ cc (rw (a, b, c) at h, o)
        ]
      ]
    ]
  ]

  module _ {m : Handoff} (q : IsRequest i token v env m) where
    -- Where a receipt is sealed under the token and the digest of the manifest, the call returns it
    -- and changes nothing but what `connect` does.
    pub complete_sealed :
        {row : HandoffRow}
        → find_receipt i db.receipts ≡ some row
        → row.claim_token ≡ token
        → row.manifest_digest ≡ m.digest
        → complete i token v env db ≡ (ok row.receipt, connect db)
    unfolding connect
    complete_sealed f t d =
        let found = settle_sealed env i token m (connect db) f t d in
        complete_lem q
        ∙ or_rollback-ok (settle env i token m) (connect db) (ap (λ p. p.0) found)
        ∙ found

    -- Where one is sealed under another token or digest, the call raises PreconditionError and
    -- changes nothing but what `connect` does.
    pub complete_conflict :
        {row : HandoffRow}
        → find_receipt i db.receipts ≡ some row
        → (row.claim_token ≢ token) ⊎ (row.manifest_digest ≢ m.digest)
        → complete i token v env db ≡ (err precondition, connect db)
    unfolding connect
    complete_conflict f other =
        complete_lem q
        ∙ or_rollback-err (settle env i token m) (connect db)
            (ap (λ p. p.0) (settle_conflict env i token m (connect db) f other))
