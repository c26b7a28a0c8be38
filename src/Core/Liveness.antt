-- ===== src/Core/Liveness.antt =====
-- A directive whose worker has died comes back.
use laneq.Common.{
  ℕ, ◌≡◌, refl, ap, sym, ◌∙◌, subst, Bool, true, List, [], ◌∷◌, none, some, arith, Option-cases,
  Bool-cases, inl, inr, ok, ℕ_discrete, ◌==◌,
}
use laneq.Text.{Text, codes, text_eq, Text-discrete}
use laneq.Text.Order.{text_eq_refl}
use laneq.Clock.{Env, utc_now, Duration, end_after}
use laneq.Sql.{count}
use laneq.Sql.Order.{Every}
use laneq.Database.Rows.{apply_if, map_option}
use laneq.Database.{requeue, taken, pending, Directive, Db, find}
use laneq.Leases.{is_expired, passed, queue_before, release, promote}
use laneq.Core.Guard.{policy_of}
use laneq.Core.Claim.{Claimed, is_eligible, next_row, take}
use laneq.Core.Invariant.{IsWell}
use laneq.Core.Sweep.{sweep, sweep_row, normal, reclaimed, promotion, find-sweep, sweep-IsWell}
use laneq.Core.Picking.{next_row-eq-none_iff, next_row-IsNext}
use laneq.Core.Taking.{claim_of, take-some}

-- The directive is an ordinary one, taken, and its lease has passed.
pub record IsAbandoned (now : Text) (r : Directive) : Type 0 where
  pub held : r.status ≡ taken
  pub lapsed : passed r.lease_until now ≡ true
  pub ordinary : r.recovery_policy ≡ requeue

Every-find :
    (P : Directive → Type 0) (i : ℕ) (rows : List Directive) {r : Directive}
    → find i rows ≡ some r
    → Every P rows
    → P r
Every-find P i [] e h = cc
Every-find P i (x ∷ xs) {r} e h = elim (Bool-cases (x.id == i)) [
  | inl k ↦ let same : x ≡ r = cc (rw k at e) in subst P same h.0
  | inr k ↦ Every-find P i xs (rw k at e) h.1
]

count-find :
    (test : Directive → Bool) (i : ℕ) (rows : List Directive) {r : Directive}
    → find i rows ≡ some r
    → test r ≡ true
    → count test rows ≡ 0
    → ⊥
count-find test i [] e t z = cc (e)
count-find test i (x ∷ xs) {r} e t z = elim (Bool-cases (x.id == i)) [
  | inl k ↦
      let same : x ≡ r = cc (rw k at e) in
      let counted = rw (subst (λ y. test y ≡ true) (sym same) t) at z in
      absurd (omega (arith, counted))
  | inr k ↦ elim (Bool-cases (test x)) [
    | inl u ↦ absurd (omega (arith, rw u at z))
    | inr u ↦ count-find test i xs (rw k at e) t (rw u at z)
  ]
]

normal-IsAbandoned : (now : Text) (r : Directive) → IsAbandoned now r → IsAbandoned now (normal r)
normal-IsAbandoned now r h = elim (Bool-cases (text_eq r.lane [])) [
  | inl e ↦ rw e (record { held = h.held; lapsed = h.lapsed; ordinary = h.ordinary })
  | inr e ↦ rw e h
]

released_row :
    (now : Text) (r : Directive)
    → IsAbandoned now r
    → apply_if (is_expired now) release r ≡ release r
released_row now r h = rw (h.held, h.lapsed) refl

release_pending :
    (now : Text) (r : Directive)
    → IsAbandoned now r
    → ((release r).status ≡ pending) × (is_eligible r.lane requeue (release r) ≡ true)
release_pending now r h = (rw h.ordinary refl, rw (h.ordinary, text_eq_refl r.lane) refl)

not_promoted :
    (now : Text) (rows : List Directive) (r : Directive)
    → r.status ≡ pending
    → apply_if (promotion now rows) promote r ≡ r
not_promoted now rows r h = rw h refl

requeue_named : policy_of (codes "requeue") ≡ ok requeue
unfolding policy_of Text-discrete ℕ_discrete
requeue_named = refl

module _ (env : Env) (db : Db) (r : Directive) (h : IsAbandoned (utc_now env 1) r) where
  swept_row : sweep_row env 1 2 db r ≡ release (normal r)
  swept_row =
      let mine = normal-IsAbandoned (utc_now env 1) r h in
      ap (apply_if (promotion (utc_now env 2) (reclaimed env 1 db).directives) promote)
        (released_row (utc_now env 1) (normal r) mine)
      ∙ not_promoted (utc_now env 2) (reclaimed env 1 db).directives (release (normal r))
          (release_pending (utc_now env 1) (normal r) mine).0

  -- A `take` without reaping never leaves a dead worker's directive aside for nothing: if an
  -- ordinary directive of the table is taken and its lease has passed, then a `take` in its lane
  -- with a lease that `parse_duration` reads and that ends before the year 10000 returns a
  -- directive, which is this one or comes before it.
  pub take_abandoned :
      (i : ℕ) (consumer until : Text) (lease : Duration)
      → IsWell db
      → find i db.directives ≡ some r
      → end_after env 3 lease ≡ ok until
      → (c : Claimed) × (row : Directive) × ((take consumer lease
            (normal r).lane
            (codes "requeue")
            none
            env
            db).0
          ≡ ok (some c))
        × (find c.id (sweep env 1 2 db).directives ≡ some row)
        × (queue_before row (release (normal r)) ≡ true)
  take_abandoned i consumer until lease w found p =
      let lane = (normal r).lane in
      let rows = (sweep env 1 2 db).directives in
      let there : find i rows ≡ some (release (normal r)) =
        find-sweep env 1 2 i db
        ∙ ap (map_option (sweep_row env 1 2 db)) found
        ∙ ap some swept_row in
      let eligible =
        (release_pending (utc_now env 1) (normal r) (normal-IsAbandoned (utc_now env 1) r h)).1 in
      elim (Option-cases (next_row lane requeue rows)) [
        | inl e ↦ absurd (
            count-find (is_eligible lane requeue) i rows there eligible
              ((next_row-eq-none_iff lane requeue rows).0 e))
        | inr (row, e) ↦
            let took =
              take-some consumer lease lane (codes "requeue") requeue env db w requeue_named until p
                e in
            let next =
              next_row-IsNext lane requeue rows 1 (sweep env 1 2 db).next_id
                (sweep-IsWell env 1 2 db w).ascending e in
            (
              claim_of env consumer lane until row,
              row,
              ap (λ x. x.0) took,
              next.found,
              Every-find (λ x. is_eligible lane requeue x ≡ true → queue_before row x ≡ true) i rows
                  there next.first_in_queue eligible,
            )
      ]
