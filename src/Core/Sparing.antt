-- ===== src/Core/Sparing.antt =====
-- Rows that a call leaves alone: what keeps a directive, of which something is known, from being
-- written, but for its lane, which `connect` normalises, and its priority.
pub mod Calls
use laneq.Common.{
  ℕ, ◌≡◌, refl, ap, ◌∙◌, Bool, true, false, List, some, arith, Bool-cases, inl, inr, ◌&&◌,
}
use laneq.Text.{Text}
use laneq.Clock.{Env, utc_now}
use laneq.Sql.{update}
use laneq.Database.{
  Status, status_eq, pending, taken, deferred, parked, Directive, Db, find, connect,
}
use laneq.Database.Rows.{find-update}
use laneq.Action.{update_where, open_connection}
use laneq.Action.Keeps.{Keeps}
use laneq.Leases.{is_expired, reclaim_expired_leases, reclaim_deferred, reap_stale, release}
use laneq.Leases.Bulk.{
  reclaim_expired_leases-eq-update, reclaim_deferred-eq-update, reap_stale-eq-update,
}
use laneq.Core.Guard.{fenced, admits}
use laneq.Core.Invariant.{IsWell, RowKeeps, update-IsWell}

-- The second row with the lane and the priority of the first.
abbrev pub relabel : Directive → Directive → Directive
relabel r x = record x { lane = r.lane; priority = r.priority }

-- The rows differ in their lane and priority at most.
abbrev pub IsSame : Directive → Directive → Type 0
IsSame r r' = relabel r r' ≡ r

pub IsSame-trans : (r s t : Directive) → IsSame r s → IsSame s t → IsSame r t
IsSame-trans r s t h k = ap (relabel r) k ∙ h

-- A row of `G` is none that a call with these surroundings may write to: `fences` are the tokens of
-- the call, and `reaps` says whether it reaps stale rows.
pub record Spares (G : Directive → Type 0) (env : Env) (fences : Text → Type 0) (reaps : Bool)
    : Type 0 where
  pub not_pending : (r : Directive) → G r → status_eq r.status pending ≡ false
  pub not_deferred : (r : Directive) → G r → status_eq r.status deferred ≡ false
  pub not_parked : (r : Directive) → G r → status_eq r.status parked ≡ false
  pub not_expired : (j : ℕ) (r : Directive) → G r → is_expired (utc_now env j) r ≡ false
  pub not_admitted :
      (token now : Text) (r : Directive) → fences token → G r → admits (fenced token) now r ≡ false
  pub not_reaped : (r : Directive) → reaps ≡ true → G r → status_eq r.status taken ≡ false
  pub still : (r r' : Directive) → IsSame r r' → G r → G r'

-- Every row of `start` that is in `G` is still in the table, and the same.
pub record Spared (G : Directive → Type 0) (start d : Db) : Type 0 where
  pub well : IsWell d
  pub row :
      (k : ℕ) (r : Directive)
      → find k start.directives ≡ some r
      → G r
      → (r' : Directive) × (find k d.directives ≡ some r') × IsSame r r'

pub Spared-refl : {G : Directive → Type 0} {db : Db} → IsWell db → Spared G db db
Spared-refl w = record { well = w; row = λ k r e g. (r, e, refl) }

module _ {G : Directive → Type 0} {env : Env} {fences : Text → Type 0} {reaps : Bool}
    (spares : Spares G env fences reaps) (start : Db) where
  -- An UPDATE whose WHERE clause holds of no row of `G`.
  pub update-Spared :
      {test : Directive → Bool} {change : Directive → Directive}
      → RowKeeps test change
      → (d : Db) → ((i : ℕ) (r : Directive) → find i d.directives ≡ some r → G r → test r ≡ false)
      → Spared G start d
      → Spared G start (record d { directives = update test change d.directives })
  update-Spared {test} {change} k d misses f = record {
    well = update-IsWell k d f.well;
    row = λ i r e g.
        let (r', e', same) = f.row i r e g in
        (
          r',
          find-update test change k.same_id i d.directives
              ∙ rw e' (rw (misses i r' e' (spares.still r r' same g)) refl),
          same,
        );
  }

  pub update_where-Spared :
      {test : Directive → Bool} {change : Directive → Directive}
      → RowKeeps test change
      → ((r : Directive) → G r → test r ≡ false)
      → Keeps (Spared G start) (update_where test change)
  unfolding update_where
  update_where-Spared k misses = record { at = λ d f. update-Spared k d (λ i r e g. misses r g) f }

  -- An UPDATE of nothing but the lane or the priority.
  pub relabel-Spared :
      {test : Directive → Bool} {change : Directive → Directive}
      → RowKeeps test change
      → (d : Db) → ((r : Directive) → IsSame r (change r))
      → Spared G start d
      → Spared G start (record d { directives = update test change d.directives })
  relabel-Spared {test} {change} k d labels f = record {
    well = update-IsWell k d f.well;
    row = λ i r e g.
        let (r', e', same) = f.row i r e g in
        elim (Bool-cases (test r')) [
          | inl t ↦ (
            change r',
            find-update test change k.same_id i d.directives ∙ rw e' (rw t refl),
            IsSame-trans r r' (change r') same (labels r'),
          )
          | inr t ↦ (r', find-update test change k.same_id i d.directives ∙ rw e' (rw t refl), same)
        ];
  }

  pub connect-Spared : (db : Db) → Spared G start db → Spared G start (connect db)
  unfolding connect
  connect-Spared db f =
      relabel-Spared (record { same_id = λ r. refl; still_sound = λ r s _. ground arith }) db
        (λ r. refl) f

  pub open_connection-Spared : Keeps (Spared G start) open_connection
  unfolding open_connection
  open_connection-Spared = record { at = connect-Spared }

  release-RowKeeps : (test : Directive → Bool) → RowKeeps test release
  release-RowKeeps test = record { same_id = λ r. refl; still_sound = λ r s e. ground arith }

  pub reclaim_expired_leases-Spared :
      (i : ℕ) → Keeps (Spared G start) (reclaim_expired_leases env i)
  reclaim_expired_leases-Spared i = record {
    at = λ d f.
        rw (reclaim_expired_leases-eq-update env i 1 d.next_id d f.well.ascending)
          (update-Spared (release-RowKeeps _) d (λ k r e g. spares.not_expired i r g) f);
  }

  pub reclaim_deferred-Spared : (i : ℕ) → Keeps (Spared G start) (reclaim_deferred env i)
  reclaim_deferred-Spared i = record {
    at = λ d f. rw (reclaim_deferred-eq-update env i 1 d.next_id d f.well.ascending) (
        update-Spared (record { same_id = λ r. refl; still_sound = λ r s e. ground arith }) d
          (λ k r e g. rw (spares.not_deferred r g) refl) f);
  }

  pub reap_stale-Spared : (i n : ℕ) → reaps ≡ true → Keeps (Spared G start) (reap_stale env i n)
  reap_stale-Spared i n asked = record {
    at = λ d f.
        let g = connect-Spared d f in
        rw (reap_stale-eq-update env i n 1 (connect d).next_id d g.well.ascending) (
          update-Spared (release-RowKeeps _) (connect d)
            (λ k r e h. rw (spares.not_reaped r asked h) refl) g);
  }
