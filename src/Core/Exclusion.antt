-- ===== src/Core/Exclusion.antt =====
-- Claims exclude one another: what a claim is worth after calls of other workers.
use laneq.Common.{
  ℕ_discrete, ℕ, ◌≡◌, ◌≢◌, refl, ap, sym, subst, ◌∙◌, true, false, List, [], none, some, arith, ok,
  err, precondition,
}
use laneq.Text.{Text, Text-discrete, codes, text_leb}
use laneq.Clock.{Env, utc_now, Duration, end_after}
use laneq.Database.{Status, taken, Policy, requeue, Directive, Db, find}
use laneq.Core.Guard.{policy_of, is_live}
use laneq.Core.Claim.{Claimed, take}
use laneq.Core.Settle.{set_status}
use laneq.Sql.Order.{Every}
use laneq.Core.Calls.{Call, history}
use laneq.Core.Invariant.{IsWell}
use laneq.Core.Histories.{history_from-IsWell}
use laneq.Core.Survival.{IsClaimed, IsOther, IsSame-IsClaimed, history-IsSame}
use laneq.Core.Invariant.Kept.{take-IsWell}
use laneq.Core.Sweep.{normal, sweep, find-sweep}
use laneq.Core.Ownership.{HoldsClaim, sweep_row_of_live, settle_held, settle_refused}
use laneq.Core.Taking.{take_claims}

module _ (consumer : Text) (lease : Duration) (lane policy_name : Text) (policy : Policy)
    (env : Env) (db : Db) (w : IsWell db) (named : policy_of policy_name ≡ ok policy) (c : Claimed)
    (claimed : (take consumer lease lane policy_name none env db).0 ≡ ok (some c)) where
  -- `take` never claims a directive whose lease still runs.
  pub take_avoids_live :
      (i : ℕ) (r : Directive)
      → find i db.directives ≡ some r
      → r.status ≡ taken
      → is_live r.lease_until (utc_now env 1) ≡ true
      → c.id ≢ i
  take_avoids_live i r f t l same =
      let takes = take_claims consumer lease lane policy_name policy env db w named claimed in
      let row : find i (sweep env 1 2 db).directives ≡ some (normal r) =
        find-sweep env 1 2 i db ∙ rw f (ap some (sweep_row_of_live env 1 2 db r t l)) in
      let here : find i (sweep env 1 2 db).directives ≡ some takes.row =
        subst (λ k. find k (sweep env 1 2 db).directives ≡ some takes.row)
          (sym takes.same_id ∙ same) takes.next.found in
      let equal : normal r ≡ takes.row = cc (row, here) in
      ground (arith, equal, takes.next.eligible)

  -- The row after a `take`, by the seconds of its lease.
  claimed_row :
      (until : Text)
      → end_after env 3 lease ≡ ok until
      → (r : Directive) × (find c.id (take consumer lease lane policy_name none env db).1.directives
          ≡ some r)
        × (r.status ≡ taken)
        × (r.claim_token ≡ some env.uuid)
        × (r.lease_until ≡ some until)
        × (r.recovery_policy ≡ policy)
  claimed_row until p =
      let takes = take_claims consumer lease lane policy_name policy env db w named claimed in
      let same : takes.until ≡ until = cc (takes.parsed) in
      (_, takes.claimed, refl, refl, rw same refl, ground (arith, takes.next.eligible))

-- What is left of a claim after calls of other workers.
after_others :
    (consumer : Text) (lease : Duration) (lane name : Text) (policy : Policy) (env : Env) (db : Db)
    (until : Text) (c : Claimed) (calls : List (Env × Call))
    → IsWell db
    → policy_of name ≡ ok policy
    → end_after env 3 lease ≡ ok until
    → (take consumer lease lane name none env db).0 ≡ ok (some c)
    → Every (IsOther env.uuid until) calls
    → let later = history calls (take consumer lease lane name none env db).1 in
      IsWell later
      × (r : Directive) × (find c.id later.directives ≡ some r)
      × IsClaimed env.uuid until r
      × (r.recovery_policy ≡ policy)
after_others consumer lease lane name policy env db until c calls w named p claimed others =
    let row = claimed_row consumer lease lane name policy env db w named c claimed until p in
    let well = (take-IsWell consumer lease lane name none env).at db w in
    let mine : IsClaimed env.uuid until row.0 = record {
      is_taken = row.2;
      same_token = row.3;
      ends = row.4;
    } in
    let after : Db = (take consumer lease lane name none env db).1 in
    let (r', e', same) =
      history-IsSame calls after c.id row.0 env.uuid until well row.1 mine others in
    (
      history_from-IsWell calls after well,
      r',
      e',
      IsSame-IsClaimed row.0 r' same mine,
      ap (λ x. x.recovery_policy) same ∙ row.5,
    )

-- On tables in order, while the lease of one claim runs, no other worker is given the directive:
-- between two calls of `take` without reaping, whatever consumers, lanes and policies they name,
-- other workers may make any calls of `push`, `reprioritize`, `take`, `peek`, `touch`,
-- `set_status`, `defer`, `park`, `unpark` and `reap` without the claim's token, without the
-- override and without reaping stale claims, and if the second `take` reads a time before the lease
-- ends, it returns another id.
pub take-take_ne :
    (consumer consumer' : Text) (lease lease' : Duration) (lane lane' name name' : Text)
    (policy policy' : Policy) (env env' : Env) (db : Db) (until : Text) (c c' : Claimed)
    (calls : List (Env × Call))
    → IsWell db
    → policy_of name ≡ ok policy
    → policy_of name' ≡ ok policy'
    → end_after env 3 lease ≡ ok until
    → (take consumer lease lane name none env db).0 ≡ ok (some c)
    → Every (IsOther env.uuid until) calls
    → (take consumer' lease' lane' name' none env'
        (history calls (take consumer lease lane name none env db).1)).0
      ≡ ok (some c')
    → text_leb until (utc_now env' 1) ≡ false
    → c'.id ≢ c.id
take-take_ne consumer consumer' lease lease' lane lane' name name' policy policy' env env' db until
      c c' calls w named named' p first_take others second_take runs =
    let (well, r, found, mine, o) =
      after_others consumer lease lane name policy env db until c calls w named p first_take
        others in
    take_avoids_live consumer' lease' lane' name' policy' env'
      (history calls (take consumer lease lane name none env db).1) well named' c' second_take c.id
      r found mine.is_taken (rw mine.ends (rw runs refl))

policy_of-requeue : policy_of (codes "requeue") ≡ ok requeue
unfolding policy_of Text-discrete ℕ_discrete
policy_of-requeue = refl

-- On tables in order a worker keeps its claim of an ordinary directive: after a `take` without
-- reaping it can settle the directive by `set_status` while its lease runs, whatever calls of the
-- queue operations, from `push` to `reap`, other workers have made in between without the claim's
-- token, without the override and without reaping stale claims, at times before the lease ends. The
-- token is not empty, and the clock does not go back during the call.
pub take-settle :
    (consumer : Text) (lease : Duration) (lane : Text) (env env' : Env) (db : Db) (until : Text)
    (c : Claimed) (s : Status) (calls : List (Env × Call))
    → IsWell db
    → end_after env 3 lease ≡ ok until
    → env.uuid ≢ []
    → (take consumer lease lane (codes "requeue") none env db).0 ≡ ok (some c)
    → Every (IsOther env.uuid until) calls
    → text_leb (utc_now env' 0) (utc_now env' 3) ≡ true
    → text_leb until (utc_now env' 3) ≡ false
    → (set_status c.id s
        (some c.claim_token)
        false
        env'
        (history calls (take consumer lease lane (codes "requeue") none env db).1)).0
      ≡ ok (c.id, s)
take-settle consumer lease lane env env' db until c s calls w p ne claimed others up runs =
    let takes =
      take_claims consumer lease lane (codes "requeue") requeue env db w policy_of-requeue
        claimed in
    let (well, r, found, mine, o) =
      after_others consumer lease lane (codes "requeue") requeue env db until c calls w
        policy_of-requeue p claimed others in
    let holds : HoldsClaim r env.uuid (utc_now env' 3) = record {
      is_taken = mine.is_taken;
      same_token = mine.same_token;
      running = rw mine.ends (rw runs refl);
    } in
    rw takes.token (
      settle_held c.id s env.uuid env'
        (history calls (take consumer lease lane (codes "requeue") none env db).1) well r found
        holds o ne up)

-- On tables in order a claim that has been replaced is dead: right after a `take` without reaping
-- of an ordinary directive no other token settles it. With any other token that is not empty, and
-- without the override, `set_status` raises PreconditionError.
pub take-settle_stale :
    (consumer : Text) (lease : Duration) (lane : Text) (env env' : Env) (db : Db) (until : Text)
    (c : Claimed) (s : Status) (token : Text)
    → IsWell db
    → end_after env 3 lease ≡ ok until
    → (take consumer lease lane (codes "requeue") none env db).0 ≡ ok (some c)
    → token ≢ env.uuid
    → token ≢ []
    → (set_status c.id s
        (some token)
        false
        env'
        (take consumer lease lane (codes "requeue") none env db).1).0
      ≡ err precondition
take-settle_stale consumer lease lane env env' db until c s token w p claimed other ne =
    let row =
      claimed_row consumer lease lane (codes "requeue") requeue env db w policy_of-requeue c claimed
        until p in
    (settle_refused c.id s token env' (take consumer lease lane (codes "requeue") none env db).1
      ((take-IsWell consumer lease lane (codes "requeue") none env).at db w) row.0 row.1
      (λ h. other (cc (row.3, h.same_token))) row.5 ne).0
