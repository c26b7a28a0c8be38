-- ===== src/Handoff/Replay.antt =====
-- What a call of `complete` that returns has done, and what the calls after it do.
use laneq.Common.{
  ℕ, suc, ◌≡◌, ◌≢◌, refl, ap, sym, subst, ◌∙◌, true, none, some, ok, err, precondition, arith,
  Result-cases, Option-cases, inl, inr, ◌⊎◌,
}
use laneq.Common.Lists.{length}
use laneq.Text.{Text}
use laneq.Text.Order.{eq_of_text_eq}
use laneq.Clock.{Env, utc_now}
use laneq.Database.{hold, Directive, Receipt, Db, find, connect}
use laneq.Action.{◌>>=◌}
use laneq.Action.Returns.{or_rollback-cases}
use laneq.Core.Invariant.{IsWell, connect-IsWell}
use laneq.Core.Ownership.{HoldsClaim}
use laneq.Core.Sweep.{normal, find-connect}
use laneq.Contract.{Value, Handoff, check_text, parse_handoff}
use laneq.Handoff.{
  find_receipt, is_input, sealed, or_commit, receipt_of, with_finish, commit_handoff, settle,
  require_item_id, complete, get_receipt,
}
use laneq.Handoff.Publishing.{AllAdmitted}
use laneq.Handoff.Sealing.{IsRequest, complete_lem, complete_sealed, complete_conflict, settle_lem}
use laneq.Handoff.Completion.{
  check_input-is_input, check_input-none, sealed_row, Commits, commit_handoff-Commits, all_admitted,
  held, finished, sealed_there,
}

check_text-same : (s : Text) (n : ℕ) {t : Text} → check_text s n ≡ ok t → check_text s n ≡ ok s
unfolding check_text
check_text-same s n h = ground arith

again :
    {i : ℕ} {token : Text} {v : Value} {env : Env} {m : Handoff} (env' : Env)
    → env'.sha256 ≡ env.sha256
    → IsRequest i token v env m
    → IsRequest i token v env' m
again {v} env' same q = record {
  valid_id = q.valid_id;
  valid_token = q.valid_token;
  parsed = ap (λ f. parse_handoff f v) same ∙ q.parsed;
}

flipped : {a b c d e : Text} → (b ≢ a) ⊎ (d ≢ c) → c ≡ e → (a ≢ b) ⊎ (e ≢ d)
flipped (inl ne) same = inl (λ h. ne (sym h))
flipped (inr ne) same = inr (λ h. ne (sym (same ∙ h)))

module _ (i : ℕ) (token : Text) (v : Value) (env : Env) (db : Db) where
  complete-IsRequest :
      {rc : Receipt}
      → (complete i token v env db).0 ≡ ok rc
      → (m : Handoff) × IsRequest i token v env m
  unfolding complete ◌>>=◌
  complete-IsRequest h = elim (Result-cases (require_item_id i)) [
    | inr (x, a) ↦ cc (rw a at h)
    | inl (u, a) ↦ elim (Result-cases (check_text token 256)) [
      | inr (x, b) ↦ cc (rw (a, b) at h)
      | inl (t, b) ↦ elim (Result-cases (parse_handoff env.sha256 v)) [
        | inr (x, c) ↦ cc (rw (a, b, c) at h)
        | inl (m, c) ↦
            (m, record { valid_id = a; valid_token = check_text-same token 256 b; parsed = c })
      ]
    ]
  ]

  -- A call that returns had valid arguments, and is the transaction on them.
  complete-ok :
      {rc : Receipt} (m : Handoff)
      → IsRequest i token v env m
      → (complete i token v env db).0 ≡ ok rc
      → complete i token v env db ≡ settle env i token m (connect db)
  complete-ok {rc} m q h = elim (or_rollback-cases (settle env i token m) (connect db)) [
    | inl (x, d) ↦
        let bad : err x ≡ ok rc = sym (ap (λ p. p.0) (complete_lem i token v env db q ∙ d)) ∙ h in
        cc (bad)
    | inr (r, d, o) ↦ complete_lem i token v env db q ∙ d
  ]

  -- What a completion has found in the database from before, and what it has left.
  pub record Completed (rc : Receipt) (after : Db) : Type 0 where
    pub manifest : Handoff
    pub request : IsRequest i token v env manifest
    pub row : Directive
    pub found : find i db.directives ≡ some row
    pub protected : row.recovery_policy ≡ hold
    pub same_body : env.sha256 row.body ≡ manifest.input_digest
    pub was_held : HoldsClaim row token (utc_now env (suc (suc (length manifest.successors))))
    pub same_receipt : rc ≡ receipt_of i manifest rc.successor_ids
    pub successors_admitted : AllAdmitted env manifest.successors rc.successor_ids after
    pub now_done :
        find i after.directives
        ≡ some (with_finish (utc_now env (suc (length manifest.successors))) (normal row))
    pub is_sealed : find_receipt i after.receipts ≡ some (sealed_row i token manifest rc)

  module _ (w : IsWell db) (fresh : find_receipt i db.receipts ≡ none) where
    fresh' : find_receipt i (connect db).receipts ≡ none
    unfolding connect
    fresh' = fresh

    fresh_settle :
        (m : Handoff)
        → settle env i token m (connect db) ≡ commit_handoff env i token m (connect db)
    unfolding sealed or_commit
    fresh_settle m = settle_lem env i token m (connect db) none fresh'

    Commits-Completed :
        (m : Handoff) {rc : Receipt} {after : Db}
        → IsRequest i token v env m
        → Commits env i token m (connect db) rc after
        → (x : Directive) → find i db.directives ≡ some x
        → Completed rc after
    Commits-Completed m {rc} q c x g =
        let there : find i (connect db).directives ≡ some (normal x) =
          find-connect i db ∙ rw g refl in
        let input : is_input env m (normal x) ≡ true =
          check_input-is_input env m (normal x) (rw there at c.input_ok) in
        let up = (connect-IsWell db w).ascending in
        let claim = held env i token m (connect db) up fresh' c (normal x) there in
        record {
          manifest = m;
          request = q;
          row = x;
          found = g;
          protected = ground (arith, input);
          same_body = eq_of_text_eq (env.sha256 x.body) m.input_digest (ground (arith, input));
          was_held = ground (arith, claim.is_taken, claim.same_token, claim.running);
          same_receipt = rw c.same_receipt refl;
          successors_admitted = all_admitted env i token m (connect db) c;
          now_done = finished env i token m (connect db) up fresh' c (normal x) there;
          is_sealed = sealed_there env i token m (connect db) up fresh' c (normal x) there;
        }

    -- If `complete` returns and no receipt was sealed, then the directive was a protected one with
    -- the body that the manifest names, held under the token until the UPDATE was made; now it is
    -- done, without a claim, its successors are admitted under the ids of the receipt, and the receipt
    -- is sealed under the token and the manifest.
    pub complete_completes :
        {rc : Receipt}
        → (complete i token v env db).0 ≡ ok rc
        → Completed rc (complete i token v env db).1
    complete_completes {rc} h =
        let (m, q) = complete-IsRequest h in
        let same = complete-ok m q h ∙ fresh_settle m in
        let c = commit_handoff-Commits env i token m (connect db) (sym (ap (λ p. p.0) same) ∙ h) in
        elim (Option-cases (find i db.directives)) [
          | inl e ↦
              let there : find i (connect db).directives ≡ none = find-connect i db ∙ rw e refl in
              absurd (check_input-none env m (rw there at c.input_ok))
          | inr (x, g) ↦
              subst (Completed rc) (sym (ap (λ p. p.1) same)) (Commits-Completed m q c x g)
        ]

    -- An exact replay is safe: after a completion the same call, at any later time, returns the same
    -- receipt and changes nothing but what `connect` does.
    pub complete-complete :
        {rc : Receipt} (env' : Env)
        → env'.sha256 ≡ env.sha256
        → (complete i token v env db).0 ≡ ok rc
        → complete i token v env' (complete i token v env db).1
          ≡ (ok rc, connect (complete i token v env db).1)
    complete-complete env' same h =
        let done = complete_completes h in
        complete_sealed i token v env' (complete i token v env db).1 (again env' same done.request)
          done.is_sealed refl refl

    -- A sealed result is never overwritten: after a completion that was no replay, another call with
    -- arguments that `complete` accepts, but with another token or a manifest of another digest,
    -- raises PreconditionError and changes nothing but what `connect` does.
    pub complete-complete_conflict :
        {rc : Receipt} (token' : Text) (v' : Value) (env' : Env) (m' : Handoff)
        → IsRequest i token' v' env' m'
        → (complete i token v env db).0 ≡ ok rc
        → (token' ≢ token) ⊎ (m'.digest ≢ rc.manifest_digest)
        → complete i token' v' env' (complete i token v env db).1
          ≡ (err precondition, connect (complete i token v env db).1)
    complete-complete_conflict {rc} token' v' env' m' q h other =
        let done = complete_completes h in
        complete_conflict i token' v' env' (complete i token v env db).1 q done.is_sealed
          (flipped other (ap (λ r. r.manifest_digest) done.same_receipt))

    -- What a completion has returned can be read back by `get_receipt`, which changes nothing but
    -- what `connect` does.
    pub complete-get_receipt :
        {rc : Receipt}
        → (complete i token v env db).0 ≡ ok rc
        → get_receipt i (complete i token v env db).1
          ≡ (ok (some rc), connect (complete i token v env db).1)
    unfolding get_receipt connect ◌>>=◌
    complete-get_receipt h =
        let done = complete_completes h in rw (done.request.valid_id, done.is_sealed) refl
