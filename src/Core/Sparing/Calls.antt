-- ===== src/Core/Sparing/Calls.antt =====
-- Each call of core.py that asks for no administrative override spares the rows that it may not
-- write to.
use laneq.Common.{
  ℕ, ◌<◌, ◌≡◌, refl, sym, ◌∙◌, Bool, true, false, ◌&&◌, List, Option, none, some, arith, Bool-cases,
  Option-cases, Result-cases, inl, inr, ◌==◌, ok, subst, [], ◌∷◌,
}
use laneq.Text.{Text}
use laneq.Clock.{Env, Duration, utc_now, end_after}
use laneq.Database.{Status, pending, taken, parked, status_eq, Policy, Directive, Db, find}
use laneq.Database.Rows.{find-append, id_of_find}
use laneq.Core.Picking.{IsNext, next_row-IsNext}
use laneq.Action.{Action, update_where, ◌>>=◌, gets, lift}
use laneq.Action.Keeps.{Keeps, Keeps-bind, Keeps-bind-lift, keeps_rules}
use laneq.Core.Guard.{
  Guard, fenced, admits, claim_guard, unless_none, require_ordinary_directive, parent_exists,
  priority_value, is_some,
}
use laneq.Core.Enqueue.{insert_child, new_directive, push, reprioritize}
use laneq.Core.Claim.{next_row, take_row, take_next, reap_if_asked, take, peek, touch_row, touch}
use laneq.Core.Settle.{
  with_status, set_status, with_deferral, defer_row, defer, with_parking, park, with_unparking,
  unpark, reap,
}
use laneq.Core.Invariant.Kept.{
  settle-RowKeeps, take-RowKeeps, defer-RowKeeps, park-RowKeeps, unpark-RowKeeps, priority-RowKeeps,
  touch-RowKeeps, insert_child-IsWell, priority_value-lt,
}
use laneq.Core.Sparing.{
  Spares, Spared, update-Spared, update_where-Spared, relabel-Spared, open_connection-Spared,
  reclaim_expired_leases-Spared, reclaim_deferred-Spared, reap_stale-Spared,
}

guard_is_fenced :
    (token : Option Text) (g : Guard)
    → claim_guard token false ≡ ok g
    → (t : Text) × (g ≡ fenced t) × (token ≡ some t)
unfolding claim_guard
guard_is_fenced none g e = cc
guard_is_fenced (some []) g e = cc
guard_is_fenced (some (c ∷ cs)) g e = (c ∷ cs, cc, refl)

module _ {G : Directive → Type 0} (start : Db) where
  unless_none-Spared : {A : Type 0} (n i : ℕ) (a : A) → Keeps (Spared G start) (unless_none n i a)
  unfolding unless_none
  unless_none-Spared n i a = record { at = λ db f. f }

  require_ordinary-Spared : (i : ℕ) → Keeps (Spared G start) (require_ordinary_directive i)
  unfolding require_ordinary_directive
  require_ordinary-Spared i = record { at = λ db f. f }

module _ {G : Directive → Type 0} {env : Env} {fences : Text → Type 0} {reaps : Bool}
    (spares : Spares G env fences reaps) (start : Db) where
  module _ (i : ℕ) (token now : Text) (fence : fences token) where
    settle_row-Spared :
        (s : Status) (at : Text)
        → Keeps
            (Spared G start)
            (update_where (λ r. r.id == i && admits (fenced token) now r) (with_status s at))
    settle_row-Spared s at =
        update_where-Spared spares start (settle-RowKeeps _ s at)
          (λ r g. ground (arith, spares.not_admitted token now r fence g))

    defer_row-Spared :
        (at : Option Text) (ids : Option (List ℕ))
        → Keeps
            (Spared G start)
            (update_where (λ r. r.id == i && admits (fenced token) now r) (with_deferral at ids))
    defer_row-Spared at ids =
        update_where-Spared spares start (defer-RowKeeps _ at ids)
          (λ r g. ground (arith, spares.not_admitted token now r fence g))

    park_row-Spared : Keeps (Spared G start) (
        update_where
          (λ r. r.id == i && status_eq r.status taken && admits (fenced token) now r)
          with_parking)
    park_row-Spared =
        update_where-Spared spares start (park-RowKeeps _)
          (λ r g. ground (arith, spares.not_admitted token now r fence g))

    touch_row-Spared :
        (at : Text)
        → Keeps (Spared G start) (
            update_where
              (λ r. r.id == i && status_eq r.status taken && admits (fenced token) now r)
              (λ r. record r { lease_until = some at }))
    touch_row-Spared at =
        update_where-Spared spares start (touch-RowKeeps i (admits (fenced token) now) at)
          (λ r g. ground (arith, spares.not_admitted token now r fence g))

  unpark_row-Spared :
      (i : ℕ)
      → Keeps
          (Spared G start)
          (update_where (λ r. r.id == i && status_eq r.status parked) with_unparking)
  unpark_row-Spared i =
      update_where-Spared spares start (unpark-RowKeeps _)
        (λ r g. ground (arith, spares.not_parked r g))

  -- An operation whose guard is checked first, without the override.
  fenced_first :
      {A : Type 0} (token : Option Text) (f : Guard → Action A)
      → ((t : Text) → token ≡ some t → Keeps (Spared G start) (f (fenced t)))
      → Keeps (Spared G start) (lift (claim_guard token false) >>= f)
  fenced_first token f k = Keeps-bind-lift (claim_guard token false) f (λ g e.
      let (t, same, given) = guard_is_fenced token g e in
      subst (λ x. Keeps (Spared G start) (f x)) (sym same) (k t given))

ruleset spare_rules = (
  keeps_rules, unless_none-Spared, require_ordinary-Spared, settle_row-Spared, defer_row-Spared,
  park_row-Spared, touch_row-Spared, unpark_row-Spared, open_connection-Spared,
  reclaim_expired_leases-Spared, reclaim_deferred-Spared, reap_stale-Spared,
)

module _ {G : Directive → Type 0} {env : Env} {fences : Text → Type 0} {reaps : Bool}
    (spares : Spares G env fences reaps) (start : Db) where
  module _ (i : ℕ) (token : Option Text) (allowed : (t : Text) → token ≡ some t → fences t) where
    pub set_status-Spared : (s : Status) → Keeps (Spared G start) (set_status i s token false env)
    unfolding set_status
    set_status-Spared s = fenced_first spares start token _ (λ t e.
        let row = settle_row-Spared spares start i t (utc_now env 3) (allowed t e) in
        search spare_rules depth 20)

    pub park-Spared : Keeps (Spared G start) (park i token false env)
    unfolding park
    park-Spared = fenced_first spares start token _ (λ t e.
        let row = park_row-Spared spares start i t (utc_now env 0) (allowed t e) in
        search spare_rules depth 20)

    pub touch-Spared : (lease : Duration) → Keeps (Spared G start) (touch i lease token false env)
    unfolding touch touch_row
    touch-Spared lease = fenced_first spares start token _ (λ t e.
        let row = touch_row-Spared spares start i t (utc_now env 3) (allowed t e) in
        search spare_rules depth 20)

    pub defer-Spared :
        (until : Option Text) (delay : Duration) (blocked_by : List Text)
        → Keeps (Spared G start) (defer i until delay blocked_by token false env)
    unfolding defer defer_row
    defer-Spared until delay blocked_by = fenced_first spares start token _ (λ t e.
        let row = defer_row-Spared spares start i t (utc_now env 2) (allowed t e) in
        search spare_rules depth 20)

  pub unpark-Spared : (i : ℕ) → Keeps (Spared G start) (unpark i)
  unfolding unpark
  unpark-Spared i = let row = unpark_row-Spared spares start i in search spare_rules depth 20

  pub peek-Spared : (lane policy : Text) → Keeps (Spared G start) (peek lane policy env)
  unfolding peek
  peek-Spared lane policy = search spare_rules depth 20

  pub reap-Spared :
      (mode : Bool) (n : ℕ)
      → (mode ≡ false → reaps ≡ true)
      → Keeps (Spared G start) (reap mode n env)
  unfolding reap
  reap-Spared true n asked = search spare_rules depth 20
  reap-Spared false n asked = let given = asked refl in search spare_rules depth 20

  pub reprioritize-Spared : (i : ℕ) (name : Text) → Keeps (Spared G start) (reprioritize i name)
  unfolding reprioritize
  reprioritize-Spared i name = Keeps-bind-lift (priority_value name) _ (λ value e.
      Keeps-bind _ _ (open_connection-Spared spares start) (λ _.
        Keeps-bind _ _ (write_priority value (priority_value-lt name value e))
          (λ n. search keeps_rules)))
    where
      write_priority :
          (value : ℕ)
          → value < 3
          → Keeps
              (Spared G start)
              (update_where (λ r. r.id == i) (λ r. record r { priority = value }))
      write_priority value lt = record {
        at = λ db f.
            unfold update_where in
            relabel-Spared spares start (priority-RowKeeps _ value lt) db (λ r. refl) f;
      }

  -- `take` writes to the row that it has found pending.
  take_row-Spared :
      (consumer : Text) (lease : Duration) (lane : Text) (policy : Policy) (db : Db)
      → Spared G start db
      → Spared G start (take_row env consumer lease lane (next_row lane policy db.directives) db).1
  take_row-Spared consumer lease lane policy db f =
      elim (Option-cases (next_row lane policy db.directives)) [
        | inl e ↦ rw e (unfold take_row ◌>>=◌ in f)
        | inr (r, e) ↦ elim (Result-cases (end_after env 3 lease)) [
          | inr (x, p) ↦ rw e (unfold take_row ◌>>=◌ in rw p f)
          | inl (until, p) ↦
              let is_next =
                next_row-IsNext lane policy db.directives 1 db.next_id f.well.ascending e in
              rw e (
                unfold take_row ◌>>=◌ in
                rw p (
                  update-Spared spares start
                    (take-RowKeeps _ (utc_now env 4) consumer env.uuid until) db
                    (λ i x found g.
                      other_row lane policy r x db.directives i found is_next
                        (spares.not_pending x g))
                    f))
        ]
      ]
    where
      other_row :
          (lane : Text) (policy : Policy) (r x : Directive) (rows : List Directive) (i : ℕ)
          → find i rows ≡ some x
          → IsNext lane policy rows r
          → status_eq x.status pending ≡ false
          → (x.id == r.id) ≡ false
      other_row lane policy r x rows i found n away = elim (Bool-cases (x.id == r.id)) [
        | inr e ↦ e
        | inl e ↦
            let same : x.id ≡ r.id = ground arith in
            let here : find r.id rows ≡ some x =
              subst (λ k. find k rows ≡ some x) (sym (id_of_find i rows found) ∙ same) found in
            let equal : x ≡ r = cc (here, n.found) in ground (arith, equal, n.eligible)
      ]

  pick_row-Spared :
      (consumer : Text) (lease : Duration) (lane : Text) (policy : Policy)
      → Keeps
          (Spared G start)
          (gets (λ db. next_row lane policy db.directives) >>= take_row env consumer lease lane)
  unfolding ◌>>=◌
  pick_row-Spared consumer lease lane policy = record {
    at = λ db f. take_row-Spared consumer lease lane policy db f;
  }

  take_next-Spared :
      (consumer : Text) (lease : Duration) (lane : Text) (policy : Policy)
      → Keeps (Spared G start) (take_next env consumer lease lane policy)
  unfolding take_next
  take_next-Spared consumer lease lane policy =
      Keeps-bind _ _ (reclaim_expired_leases-Spared spares start 1) (λ _.
        Keeps-bind _ _ (reclaim_deferred-Spared spares start 2)
          (λ _. pick_row-Spared consumer lease lane policy))

  reap_if_asked-Spared :
      (n : Option ℕ)
      → (is_some n ≡ true → reaps ≡ true)
      → Keeps (Spared G start) (reap_if_asked env n)
  unfolding reap_if_asked
  reap_if_asked-Spared none asked = search keeps_rules
  reap_if_asked-Spared (some n) asked = reap_stale-Spared spares start 0 n (asked refl)

  pub take-Spared :
      (consumer : Text) (lease : Duration) (lane policy : Text) (stale : Option ℕ)
      → (is_some stale ≡ true → reaps ≡ true)
      → Keeps (Spared G start) (take consumer lease lane policy stale env)
  unfolding take
  take-Spared consumer lease lane policy stale asked =
      let reaping = reap_if_asked-Spared stale asked in
      search (spare_rules, take_next-Spared) depth 20

  -- A new directive comes behind those that are there.
  insert_child-Spared :
      (parent : Option ℕ) (value : ℕ) (body : Text) (at : Option Text) (lane : Text)
      (policy : Policy)
      → value < 3
      → Keeps
          (Spared G start)
          (insert_child parent (new_directive value body at parent lane policy))
  insert_child-Spared parent value body at lane policy lt = record {
    at = λ db f. record {
      well = (insert_child-IsWell parent value body at lane policy lt).at db f.well;
      row = λ k r e g. let (r', e', same) = f.row k r e g in (r', kept db k r' e', same);
    };
  }
    where
      kept :
          (db : Db) (k : ℕ) (r : Directive)
          → find k db.directives ≡ some r
          → find k
              (insert_child parent (new_directive value body at parent lane policy) db).1.directives
            ≡ some r
      kept db k r e = elim (Bool-cases (parent_exists db.directives parent)) [
        | inl p ↦ unfold insert_child ◌>>=◌ in rw p (find-append k db.directives _ ∙ rw e refl)
        | inr p ↦ unfold insert_child ◌>>=◌ in rw p e
      ]

  pub push-Spared :
      (body priority : Text) (parent : Option ℕ) (lane policy : Text)
      → Keeps (Spared G start) (push body priority parent lane policy env)
  unfolding push
  push-Spared body priority parent lane policy = Keeps-bind _ _ (search keeps_rules) (λ _.
      Keeps-bind-lift (priority_value priority) _ (λ value e.
        let lt = priority_value-lt priority value e in
        search (spare_rules, insert_child-Spared) depth 20))
