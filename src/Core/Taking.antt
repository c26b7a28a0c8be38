-- ===== src/Core/Taking.antt =====
-- What `take` does to the queue: the directive that it claims, and what becomes of its row.
use laneq.Common.{
  ℕ, ◌≡◌, ◌≢◌, refl, ap, ◌∙◌, Option, none, some, arith, Option-cases, Result-cases, inl, inr, ◌==◌,
  ==_refl, ◌↔◌, ok, err, Error,
}
use laneq.Text.{Text}
use laneq.Clock.{Env, utc_now, Duration, end_after}
use laneq.Sql.{update, count}
use laneq.Database.{Policy, hold, requeue, Directive, Db, find, connect}
use laneq.Database.Rows.{id_of_find, find-update, apply_if, map_option}
use laneq.Action.{◌>>=◌}
use laneq.Core.Guard.{policy_of}
use laneq.Core.Claim.{Claimed, is_eligible, next_row, mark_taken, take}
use laneq.Core.Invariant.{IsWell}
use laneq.Core.Sweep.{sweep, reclaim_lem, defer_lem, sweep-IsWell}
use laneq.Core.Picking.{IsNext, next_row-IsNext, next_row-eq-none_iff}

abbrev pub protection : Env → Text → Directive → Option (Text × Text)
protection env n r = elim r.recovery_policy [ hold ↦ some (n, env.sha256 r.body) | requeue ↦ none ]

abbrev pub claim_of : Env → Text → Text → Text → Directive → Claimed
claim_of env consumer lane n r = record {
  id = r.id;
  body = r.body;
  consumer = consumer;
  lane = lane;
  claim_token = env.uuid;
  protected = protection env n r;
}

-- The database after the UPDATE of `take`.
abbrev pub claimed_db : Env → Text → Text → Directive → Db → Db
claimed_db env consumer n r db = record db {
  directives =
      update (λ x. x.id == r.id) (mark_taken (utc_now env 4) consumer env.uuid n) db.directives;
}

module _ (consumer : Text) (lease : Duration) (lane policy_name : Text) (policy : Policy)
    (env : Env) (db : Db) (w : IsWell db) (named : policy_of policy_name ≡ ok policy) where
  -- A `take` that reaps nothing, by the row that is next after the sweep.
  take-none :
      next_row lane policy (sweep env 1 2 db).directives ≡ none
      → take consumer lease lane policy_name none env db ≡ (ok none, sweep env 1 2 db)
  unfolding take ◌>>=◌
  take-none e = rw (named, reclaim_lem env 1 2 db w) (rw (defer_lem env 1 2 db w) (rw e refl))

  pub take-some :
      {r : Directive} (n : Text)
      → end_after env 3 lease ≡ ok n
      → next_row lane policy (sweep env 1 2 db).directives ≡ some r
      → take consumer lease lane policy_name none env db ≡ (
        ok (some (claim_of env consumer lane n r)),
        claimed_db env consumer n r (sweep env 1 2 db),
      )
  unfolding take ◌>>=◌
  take-some n p e =
      rw (named, reclaim_lem env 1 2 db w) (rw (defer_lem env 1 2 db w) (rw e (rw p refl)))

  take_bad_lease :
      {r : Directive} {x : Error}
      → end_after env 3 lease ≡ err x
      → next_row lane policy (sweep env 1 2 db).directives ≡ some r
      → take consumer lease lane policy_name none env db ≡ (err x, connect db)
  unfolding take ◌>>=◌
  take_bad_lease p e =
      rw (named, reclaim_lem env 1 2 db w) (rw (defer_lem env 1 2 db w) (rw e (rw p refl)))

  -- The row that `take` chose has its id, the body and the token that it returned; it was the next
  -- one of the lane and the policy, and now it is taken; the other rows are as the sweep left them.
  pub record Takes (c : Claimed) (after : Db) : Type 0 where
    pub row : Directive
    pub until : Text
    pub next : IsNext lane policy (sweep env 1 2 db).directives row
    pub parsed : end_after env 3 lease ≡ ok until
    pub same_id : c.id ≡ row.id
    pub same_body : c.body ≡ row.body
    pub token : c.claim_token ≡ env.uuid
    pub protected : c.protected ≡ protection env until row
    pub claimed :
        find c.id after.directives ≡ some (mark_taken (utc_now env 4) consumer env.uuid until row)
    pub others : (k : ℕ) → k ≢ c.id → find k after.directives ≡ find k (sweep env 1 2 db).directives

  find-claimed_db :
      (n : Text) (k : ℕ) (r : Directive) (d : Db)
      → find k (claimed_db env consumer n r d).directives
        ≡ map_option
            (apply_if (λ x. x.id == r.id) (mark_taken (utc_now env 4) consumer env.uuid n))
            (find k d.directives)
  find-claimed_db n k r d = find-update _ _ (λ x. refl) k d.directives

  other_row :
      (n : Text) (k : ℕ) (r : Directive) (d : Db)
      → k ≢ r.id
      → find k (claimed_db env consumer n r d).directives ≡ find k d.directives
  other_row n k r d ne = elim (Option-cases (find k d.directives)) [
    | inl e ↦ find-claimed_db n k r d ∙ rw e refl
    | inr (x, e) ↦ find-claimed_db n k r d ∙ rw e (ground (arith, id_of_find k d.directives e))
  ]

  Takes-next :
      (n : Text) (r : Directive)
      → end_after env 3 lease ≡ ok n
      → IsNext lane policy (sweep env 1 2 db).directives r
      → Takes (claim_of env consumer lane n r) (claimed_db env consumer n r (sweep env 1 2 db))
  Takes-next n r p is_next = record {
    row = r;
    until = n;
    next = is_next;
    parsed = p;
    same_id = refl;
    same_body = refl;
    token = refl;
    protected = refl;
    claimed =
        find-claimed_db n r.id r (sweep env 1 2 db) ∙ rw is_next.found (rw (==_refl r.id) refl);
    others = λ k ne. other_row n k r (sweep env 1 2 db) ne;
  }

  -- On tables in order the directive that a `take` without reaping returns was the first eligible
  -- one in the order of priority and id after the sweep; its row is now taken under the returned
  -- token and lease, and every other row is as the sweep left it.
  pub take_claims :
      {c : Claimed}
      → (take consumer lease lane policy_name none env db).0 ≡ ok (some c)
      → Takes c (take consumer lease lane policy_name none env db).1
  take_claims {c} h = elim (Option-cases (next_row lane policy (sweep env 1 2 db).directives)) [
    | inl e ↦ cc (take-none e)
    | inr (r, e) ↦ elim (Result-cases (end_after env 3 lease)) [
      | inr (x, p) ↦ cc (take_bad_lease p e)
      | inl (n, p) ↦
          let done = take-some n p e in
          let same : claim_of env consumer lane n r ≡ c = cc done in
          rw (← same, done)
            (Takes-next n r p (
              next_row-IsNext lane policy (sweep env 1 2 db).directives 1 (sweep env 1 2 db).next_id
                (sweep-IsWell env 1 2 db w).ascending e))
    ]
  ]

  -- On tables in order a `take` without reaping returns nothing exactly if the sweep leaves no
  -- pending directive of the lane and policy.
  pub take_empty_iff :
      ((take consumer lease lane policy_name none env db).0 ≡ ok none)
      ↔ (count (is_eligible lane policy) (sweep env 1 2 db).directives ≡ 0)
  take_empty_iff = (
    λ h. elim (Option-cases (next_row lane policy (sweep env 1 2 db).directives)) [
      | inl e ↦ (next_row-eq-none_iff lane policy (sweep env 1 2 db).directives).0 e
      | inr (r, e) ↦ elim (Result-cases (end_after env 3 lease)) [
        | inr (x, p) ↦ cc (take_bad_lease p e)
        | inl (n, p) ↦ cc (take-some n p e)
      ]
    ],
    λ h.
        ap (λ x. x.0)
          (take-none ((next_row-eq-none_iff lane policy (sweep env 1 2 db).directives).1 h)),
  )
