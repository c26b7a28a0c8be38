-- ===== src/Core/Fencing.antt =====
-- The fencing of `set_status` by claim tokens: who may settle a directive, and what a refused call
-- leaves behind.
use laneq.Common.{
  ℕ, ◌≡◌, refl, ap, ◌∙◌, Bool, true, false, ◌&&◌, Option, none, some, arith, ◌==◌, if◌then◌else◌,
  ok, err, not_found, precondition,
}
use laneq.Text.{Text}
use laneq.Clock.{Env, utc_now}
use laneq.Sql.{update, count}
use laneq.Database.{policy_eq, Status, requeue, hold, Directive, Db, find, connect}
use laneq.Database.Rows.{id_of_find, find-update, apply_if, map_option}
use laneq.Action.{◌>>=◌}
use laneq.Core.Guard.{
  Guard, claim_guard, admits, is_protected, require_ordinary_directive, unless_none,
  missing_or_inactive,
}
use laneq.Core.Settle.{with_status, set_status}
use laneq.Core.Invariant.{IsWell}
use laneq.Core.Invariant.Kept.{with_status-id}
use laneq.Core.Sweep.{
  normal, sweep, sweep_row, reclaim_lem, defer_lem, find-sweep, find-connect, sweep-IsWell,
  count-rowcount,
}

-- The database after the UPDATE of `set_status`.
abbrev pub settled : ℕ → Status → Guard → Env → Db → Db
settled i s g env db = record (sweep env 0 1 db) {
  directives =
      update (λ r. r.id == i && admits g (utc_now env 3) r) (with_status s (utc_now env 2))
        (sweep env 0 1 db).directives;
}

module _ (i : ℕ) (s : Status) (env : Env) (db : Db) (w : IsWell db) where
  pub set_status_lem :
      (token : Option Text) (force : Bool) (g : Guard)
      → claim_guard token force ≡ ok g
      → is_protected (find i (connect db).directives) ≡ false
      → set_status i s token force env db
        ≡ unless_none
            (count (λ r. r.id == i && admits g (utc_now env 3) r) (sweep env 0 1 db).directives)
            i
            (i, s)
            (settled i s g env db)
  unfolding set_status ◌>>=◌ require_ordinary_directive
  set_status_lem token force g e o =
      rw (e, o, reclaim_lem env 0 1 db w) (rw (defer_lem env 0 1 db w) refl)

  pub find-settled :
      (g : Guard) (k : ℕ)
      → find k (settled i s g env db).directives
        ≡ map_option
            (apply_if
              (λ r. r.id == i && admits g (utc_now env 3) r)
              (with_status s (utc_now env 2)))
            (map_option (sweep_row env 0 1 db) (find k db.directives))
  find-settled g k =
      find-update _ (with_status s (utc_now env 2)) (with_status-id s (utc_now env 2)) k
        (sweep env 0 1 db).directives
      ∙ ap
          (map_option (
            apply_if (λ r. r.id == i && admits g (utc_now env 3) r)
              (with_status s (utc_now env 2))))
          (find-sweep env 0 1 k db)

  -- What `set_status` does to an ordinary directive: it settles the row where the guard admits it
  -- after the sweep, and raises PreconditionError where it does not.
  pub set_status_found :
      (token : Option Text) (force : Bool) (g : Guard) (r : Directive)
      → claim_guard token force ≡ ok g
      → find i db.directives ≡ some r
      → r.recovery_policy ≡ requeue
      → ((set_status i s token force env db).0 ≡ (
          if admits g (utc_now env 3) (sweep_row env 0 1 db r)
          then ok (i, s)
          else err precondition))
        × ((set_status i s token force env db).1 ≡ settled i s g env db)
        × (find i (settled i s g env db).directives
            ≡ some (
                apply_if
                  (admits g (utc_now env 3))
                  (with_status s (utc_now env 2))
                  (sweep_row env 0 1 db r)))
  unfolding unless_none missing_or_inactive
  set_status_found token force g r e f o =
      rw (set_status_lem token force g e (rw (find-connect i db, f) (ground arith))) (
        ground (
          arith,
          find-settled g i,
          count-rowcount (admits g (utc_now env 3)) 1 (sweep env 0 1 db).next_id i
              (sweep env 0 1 db).directives (sweep-IsWell env 0 1 db w).ascending,
          find-sweep env 0 1 i db,
          id_of_find i db.directives f,
        ),
        refl,
        find-settled g i ∙ rw f (ground (arith, id_of_find i db.directives f)),
      )

  -- An operation on a missing or a protected directive.
  pub set_status_missing :
      (token : Option Text) (force : Bool) (g : Guard)
      → claim_guard token force ≡ ok g
      → find i db.directives ≡ none
      → (set_status i s token force env db).0 ≡ err not_found
  unfolding unless_none missing_or_inactive
  set_status_missing token force g e f =
      rw (set_status_lem token force g e (rw (find-connect i db, f) refl)) (
        ground (
          arith,
          count-rowcount (admits g (utc_now env 3)) 1 (sweep env 0 1 db).next_id i
              (sweep env 0 1 db).directives (sweep-IsWell env 0 1 db w).ascending,
          find-sweep env 0 1 i db,
          find-settled g i,
        ))

  pub set_status_protected :
      (token : Option Text) (force : Bool) (g : Guard) (r : Directive)
      → claim_guard token force ≡ ok g
      → find i db.directives ≡ some r
      → r.recovery_policy ≡ hold
      → set_status i s token force env db ≡ (err precondition, connect db)
  unfolding set_status ◌>>=◌ require_ordinary_directive
  set_status_protected token force g r e f o =
      let p : policy_eq (normal r).recovery_policy hold ≡ true = ground arith in
      rw (e, find-connect i db, f, p)
